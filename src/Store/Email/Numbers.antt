-- ===== src/Store/Email/Numbers.antt =====
-- The numbers that deliveries allocate (INV-UID and INV-CHANGE of `internal/store/store.go`): UIDs,
-- documents and changes never come twice, and the change log has no gap.
use mailezine.Prelude.{
  ℕ, ◌+◌, ◌^◌, ◌<◌, ◌≤◌, ◌≡◌, refl, sym, ap, subst, ◌∙◌, Bool, false, true, [], ◌∷◌, Option, none,
  some, arith, if◌then◌else◌, ◌==◌, ◌&&◌, Bool-cases, inl, inr,
}
use mailezine.Bytes.{Bytes, bytes_eq, bytes_eq_iff, compare_bytes}
use mailezine.Store.Key.BigEndian.{be, be_value-be, length-be}
use mailezine.Store.Key.{change_log_key, field_key, index_email_key}
use mailezine.Store.Key.Typed.{
  StoreKey, encode, same_key, same32, same64, bytes_eq-encode, counter, bytes_eq-be8_end,
}
use mailezine.Store.Txn.{ok}
use mailezine.Store.Counters.{be_uint64, be_uint64_value, next, read_counter}
use mailezine.Store.View.{View, apply}
use mailezine.Store.Email.{
  DeliverRequest, change_counter_key, doc_counter_key, uid_counter_key, encode_change_value,
  counter_key,
}
use mailezine.Store.Email.Delivery.{delivery_ops}
use mailezine.Store.Email.Effect.Counted.{
  delivered-change_counter, delivered-doc_counter, delivered-uid_counter,
}
use mailezine.Store.Email.Effect.{delivered-field, delivered-index, delivered-log}

-- Every number in use is at most its counter, and every change up to the counter has its row.
pub record IsNumbered (v : View) : Type 0 where
  pub uids :
      (a m u : ℕ) (x : Bytes)
      → u < 2 ^ 64
      → v (index_email_key a m u) ≡ some x
      → u ≤ be_uint64_value (v (uid_counter_key a m))
  pub docs :
      (a d f : ℕ) (x : Bytes)
      → d < 2 ^ 64
      → v (field_key a 2 d f) ≡ some x
      → d ≤ be_uint64_value (v (doc_counter_key a))
  pub changes :
      (a c i : ℕ) (x : Bytes)
      → i < 2 ^ 64
      → v (change_log_key a c i) ≡ some x
      → i ≤ be_uint64_value (v (change_counter_key a))
  pub gapless :
      (a i : ℕ)
      → 0 < i
      → i ≤ be_uint64_value (v (change_counter_key a))
      → (c : ℕ) × (x : Bytes) × (v (change_log_key a c i) ≡ some x)

value-be_uint64 : (n : ℕ) → n < 2 ^ 64 → be_uint64_value (some (be_uint64 n)) ≡ n
unfolding be_uint64_value
value-be_uint64 n h = rw (length-be 8 n) (be_value-be 8 n h)

pub value-read_counter : (o : Option Bytes) (n : ℕ) → read_counter o ≡ ok n → be_uint64_value o ≡ n
unfolding read_counter be_uint64_value
value-read_counter none n h = ground arith
value-read_counter (some v) n h = ground arith

-- Keys that agree in every part are one key.
same_held : (v : View) (k j : StoreKey) → same_key k j ≡ true → v (encode j) ≡ v (encode k)
same_held v k j h = ap v (sym ((bytes_eq_iff (encode k) (encode j)).0 (bytes_eq-encode k j ∙ h)))

same_counter :
    (v : View) (a b kind : ℕ) (sub sub' : Bytes)
    → same32 a b ≡ true
    → bytes_eq sub sub' ≡ true
    → v (counter_key b kind sub') ≡ v (counter_key a kind sub)
same_counter v a b kind sub sub' h g =
    same_held v (counter a kind sub) (counter b kind sub') (ground (arith, h, g))

-- One number more, in the key space that the counter is for.
bounded_step :
    (same : Bool) (u cur : ℕ) (held : Option Bytes)
    → u < 2 ^ 64
    → cur + 1 < 2 ^ 64
    → (same ≡ true → be_uint64_value held ≡ cur)
    → ((same && same64 (next cur) u) ≡ false → u ≤ be_uint64_value held)
    → u ≤ be_uint64_value (if same then some (be_uint64 (next cur)) else held)
bounded_step true u cur held hu room read old =
    ground (arith, value-be_uint64 (next cur) (omega arith), read refl, hu, room)
bounded_step false u cur held hu room read old = old refl

below_step :
    (same : Bool) (i cur : ℕ) (held : Option Bytes)
    → cur + 1 < 2 ^ 64
    → (same ≡ true → be_uint64_value held ≡ cur)
    → (same && same64 (next cur) i) ≡ false
    → i ≤ be_uint64_value (if same then some (be_uint64 (next cur)) else held)
    → i ≤ be_uint64_value held
below_step true i cur held room read other h =
    ground (arith, value-be_uint64 (next cur) (omega arith), read refl, room, other, h)
below_step false i cur held room read other h = h

-- The numbers before a delivery, which leave room for one more.
module _ (a : ℕ) (req : DeliverRequest) (v : View) (cur ms cur_doc refs used cur_change : ℕ)
    (valid : IsNumbered v) (uid_read : be_uint64_value (v (uid_counter_key a req.mailbox_id)) ≡ cur)
    (doc_read : be_uint64_value (v (doc_counter_key a)) ≡ cur_doc)
    (change_read : be_uint64_value (v (change_counter_key a)) ≡ cur_change)
    (uid_room : cur + 1 < 2 ^ 64) (doc_room : cur_doc + 1 < 2 ^ 64)
    (change_room : cur_change + 1 < 2 ^ 64) where
  after_it : View
  after_it = apply (delivery_ops a req (next cur) ms (next cur_doc) refs used (next cur_change)) v

  uids_after :
      (b m u : ℕ) (x : Bytes)
      → u < 2 ^ 64
      → after_it (index_email_key b m u) ≡ some x
      → u ≤ be_uint64_value (after_it (uid_counter_key b m))
  unfolding after_it
  uids_after b m u x hu e =
      let row =
        delivered-index a req (next cur) ms (next cur_doc) refs used (next cur_change) v b m u in
      let same = same32 a b && same64 req.mailbox_id m in
      let k = counter a 1 (2 ∷ be 8 req.mailbox_id) in
      rw
        (delivered-uid_counter a req (next cur) ms (next cur_doc) refs used (next cur_change) v b m)
        (bounded_step same u cur (v (uid_counter_key b m)) hu uid_room
          (λ h.
            ap be_uint64_value (
              same_held v k (counter b 1 (2 ∷ be 8 m))
                (unfold compare_bytes in ground (arith, bytes_eq-be8_end req.mailbox_id m, h)))
            ∙ uid_read)
          λ h. valid.uids b m u x hu (ground (arith, sym row ∙ e, h)))

  docs_after :
      (b d f : ℕ) (x : Bytes)
      → d < 2 ^ 64
      → after_it (field_key b 2 d f) ≡ some x
      → d ≤ be_uint64_value (after_it (doc_counter_key b))
  unfolding after_it
  docs_after b d f x hd e =
      rw (delivered-doc_counter a req (next cur) ms (next cur_doc) refs used (next cur_change) v b)
        (bounded_step (same32 a b) d cur_doc (v (doc_counter_key b)) hd doc_room
          (λ h.
            ap be_uint64_value
              (same_counter v a b 1 (2 ∷ []) (2 ∷ []) h (unfold compare_bytes in refl))
            ∙ doc_read)
          λ h. valid.docs b d f x hd (
            sym (
              delivered-field a req (next cur) ms (next cur_doc) refs used (next cur_change) v b d f
                h)
            ∙ e))

  changes_after :
      (b c i : ℕ) (x : Bytes)
      → i < 2 ^ 64
      → after_it (change_log_key b c i) ≡ some x
      → i ≤ be_uint64_value (after_it (change_counter_key b))
  unfolding after_it
  changes_after b c i x hi e =
      let row =
        delivered-log a req (next cur) ms (next cur_doc) refs used (next cur_change) v b c i in
      rw
        (delivered-change_counter a req (next cur) ms (next cur_doc) refs used (next cur_change) v
          b)
        (bounded_step (same32 a b) i cur_change (v (change_counter_key b)) hi change_room
          (λ h.
            ap be_uint64_value (same_counter v a b 2 [] [] h (unfold compare_bytes in refl))
            ∙ change_read)
          λ h. valid.changes b c i x hi (ground (arith, sym row ∙ e, h)))

  gapless_after :
      (b i : ℕ)
      → 0 < i
      → i ≤ be_uint64_value (after_it (change_counter_key b))
      → (c : ℕ) × (x : Bytes) × (after_it (change_log_key b c i) ≡ some x)
  unfolding after_it
  gapless_after b i pos hi =
      let log : (c : ℕ)
          → after_it (change_log_key b c i) ≡ (
              if same32 a b && ((2 == c) && same64 (next cur_change) i)
              then some (encode_change_value 2 (next cur_doc) 1)
              else v (change_log_key b c i)) =
        λ c. delivered-log a req (next cur) ms (next cur_doc) refs used (next cur_change) v b c i in
      elim (Bool-cases (same32 a b && same64 (next cur_change) i)) [
        | inl hit ↦ (2, encode_change_value 2 (next cur_doc) 1, log 2 ∙ ground (arith, hit))
        | inr miss ↦
            let counter_after =
              delivered-change_counter a req (next cur) ms (next cur_doc) refs used
                (next cur_change) v b in
            let (c, x, held) = valid.gapless b i pos (
              below_step (same32 a b) i cur_change (v (change_counter_key b)) change_room
                (λ h.
                  ap be_uint64_value (same_counter v a b 2 [] [] h (unfold compare_bytes in refl))
                  ∙ change_read)
                miss (subst (λ o. i ≤ be_uint64_value o) counter_after hi)) in
            (c, x, log c ∙ ground (arith, miss, held))
      ]

  pub after_it-IsNumbered :
      IsNumbered
        (apply (delivery_ops a req (next cur) ms (next cur_doc) refs used (next cur_change)) v)
  unfolding after_it
  after_it-IsNumbered = record {
    uids = uids_after;
    docs = docs_after;
    changes = changes_after;
    gapless = gapless_after;
  }

  -- The numbers that come next are not in use.
  module _ (x : Bytes) where
    pub fresh_uid : v (index_email_key a req.mailbox_id (next cur)) ≡ some x → ⊥
    fresh_uid h = omega (arith, valid.uids a req.mailbox_id (next cur) x (omega arith) h, uid_read)

    pub fresh_doc : (f : ℕ) → v (field_key a 2 (next cur_doc) f) ≡ some x → ⊥
    fresh_doc f h = omega (arith, valid.docs a (next cur_doc) f x (omega arith) h, doc_read)
