-- ===== src/Store/Range/Cursor.antt =====
-- A reader of the change log misses no change (`ChangesSince` of `internal/store/log.go`).
use mailezine.Prelude.{
  ℕ, zero, suc, ◌%◌, ◌/◌, ◌^◌, ◌<◌, ◌≡◌, sym, ap, ◌∙◌, true, false, List, [], ◌∷◌, ◌++◌, Option,
  none, some, arith, ltb, ◌⊎◌, inl, inr, Bool-cases, subst,
}
use mailezine.Bytes.{Bytes, bytes_eq, bytes_eq_iff, bytes_lt, compare_bytes-append, has_prefix_self}
use mailezine.Bytes.Assoc
use mailezine.Store.Key.BigEndian.{be, compare_bytes-be}
use mailezine.Store.Key.{change_id_from_log_key, change_log_key, change_log_prefix}
use mailezine.Store.Key.Layout.{ids_read_back}
use mailezine.Store.Kv.{Entry}
use mailezine.Store.MemKv.{in_range}
use mailezine.Store.PrefixEnd.{IsBytes, in_range-prefix_end, prefix_end}
use mailezine.Store.ChangeLog.{Change, decode_change}
use mailezine.Store.Counters.{next}
use mailezine.Store.Range.{Logged, RangeKv, changes_since, collect_changes, cons_change}

-- The list has the change.
abbrev pub IsLogged : Logged → List Logged → Type 0
IsLogged x [] = ⊥
IsLogged x (y ∷ ys) = (x ≡ y) ⊎ IsLogged x ys

IsBytes-append : (a b : Bytes) → IsBytes a → IsBytes b → IsBytes (a ++ b)
IsBytes-append [] b h g = g
IsBytes-append (x ∷ a) b h g = (h.0, IsBytes-append a b h.1 g)

be-IsBytes : (n x : ℕ) → IsBytes (be n x)
unfolding be
be-IsBytes zero x = tt
be-IsBytes (suc n) x =
    IsBytes-append (be n (x / 256)) (x % 256 ∷ []) (be-IsBytes n (x / 256)) (omega arith, tt)

change_log_prefix-IsBytes : (a c : ℕ) → c < 256 → IsBytes (change_log_prefix a c)
unfolding change_log_prefix
change_log_prefix-IsBytes a c h =
    (omega arith, IsBytes-append (be 4 a) (c ∷ []) (be-IsBytes 4 a) (h, tt))

-- Change rows of one log ascend by number.
change_log_key-lt :
    (a c i j : ℕ)
    → i < 2 ^ 64
    → j < 2 ^ 64
    → bytes_lt (change_log_key a c i) (change_log_key a c j) ≡ ltb i j
unfolding change_log_key change_log_prefix
change_log_key-lt a c i j hi hj = ground (
  arith,
  compare_bytes-append (change_log_prefix a c) (be 8 i) (be 8 j),
  compare_bytes-be 8 i j hi hj,
)

in_range-split :
    (start p : Bytes) (end : Option Bytes) (k : Bytes)
    → in_range p end k ≡ true
    → bytes_lt k start ≡ false
    → in_range start end k ≡ true
unfolding in_range
in_range-split start p none k h g = ground (arith, g)
in_range-split start p (some end) k h g = ground (arith, h, g)

-- The range of a cursor has every later row.
row_in_range :
    (a c after i : ℕ)
    → c < 256
    → after < i
    → i < 2 ^ 64
    → in_range
        (change_log_key a c (next after))
        (prefix_end (change_log_prefix a c))
        (change_log_key a c i)
      ≡ true
unfolding change_log_key change_log_prefix
row_in_range a c after i hc hi top =
    let p = change_log_prefix a c in
    in_range-split (p ++ be 8 (next after)) p (prefix_end p) (p ++ be 8 i)
      (in_range-prefix_end p (p ++ be 8 i) (change_log_prefix-IsBytes a c hc)
          (IsBytes-append p (be 8 i) (change_log_prefix-IsBytes a c hc) (be-IsBytes 8 i))
        ∙ has_prefix_self p (be 8 i))
      (change_log_key-lt a c i (next after) top (omega arith) ∙ ground (arith, hi, top))

collect_changes-IsLogged :
    (rows : List Entry) (k v : Bytes) (ch : Change)
    → Assoc.get k rows ≡ some v
    → decode_change v ≡ some ch
    → IsLogged (change_id_from_log_key k, ch) (collect_changes rows)
unfolding Assoc.get collect_changes
collect_changes-IsLogged [] k v ch h d = cc
collect_changes-IsLogged ((j, w) ∷ rows) k v ch h d = elim (Bool-cases (bytes_eq j k)) [
  | inl same ↦
      let e : k ≡ j = sym ((bytes_eq_iff j k).0 same) in
      let e' : w ≡ v = ground (arith, h, same) in
      subst
        (λ o.
          IsLogged (change_id_from_log_key k, ch)
            (cons_change (change_id_from_log_key j) o (collect_changes rows)))
        (sym (ap decode_change e' ∙ d)) (inl (ap (λ x. (change_id_from_log_key x, ch)) e))
  | inr other ↦
      let later = collect_changes-IsLogged rows k v ch (ground (arith, h, other)) d in
      elim (decode_change w)
        as (λ o.
          IsLogged (change_id_from_log_key k, ch)
            (cons_change (change_id_from_log_key j) o (collect_changes rows))) [
              | none ↦ later
              | some _ ↦ inr later
            ]
]

module _ (db : RangeKv) where
  open db use {kv}

  -- Every change of a log with a number above the cursor, whose row decodes, is in what a reader gets
  -- from the cursor on, with its number.
  pub changes_since-IsLogged :
      (a c after i : ℕ) (s : kv.State) (v : Bytes) (ch : Change)
      → c < 256
      → after < i
      → i < 2 ^ 64
      → kv.get s (change_log_key a c i) ≡ some v
      → decode_change v ≡ some ch
      → IsLogged (i, ch) (changes_since db a c after s)
  unfolding changes_since
  changes_since-IsLogged a c after i s v ch hc hi top h d =
      let k = change_log_key a c i in
      let start = change_log_key a c (next after) in
      let end = prefix_end (change_log_prefix a c) in
      subst (λ n. IsLogged (n, ch) (collect_changes (db.scan_range s start end)))
        (ids_read_back a c i 0 top).1
        (collect_changes-IsLogged (db.scan_range s start end) k v ch
          (db.get-scan_range s start end k ∙ rw (row_in_range a c after i hc hi top) h) d)
