-- ===== src/Store/PrefixEnd.antt =====
-- `PrefixEnd` of `internal/store/pebble.go`: a prefix scan as a range scan.
use mailezine.Prelude.{
  subst, ℕ, ◌+◌, ◌<◌, ◌≡◌, refl, false, [], ◌∷◌, Option, none, some, if◌then◌else◌, ltb, arith, All,
  Option-cases, Bool-cases, inl, inr,
}
use mailezine.Bytes.{Bytes, bytes_lt, compare_bytes, has_prefix}
use mailezine.Store.MemKv.{in_range}

-- The bytes before the last one that can grow, and that one grown; from the front, so the rest of
-- the prefix decides first, as the loop from the back does.
abbrev grown : ℕ → Option Bytes → Option Bytes
grown b (some end) = some (b ∷ end)
grown b none = if ltb b 255 then some ((b + 1) ∷ []) else none

-- `PrefixEnd`; no end means that the scan is open.
unfoldable pub prefix_end : Bytes → Option Bytes
prefix_end [] = none
prefix_end (b ∷ bs) = grown b (prefix_end bs)

abbrev pub IsBytes : Bytes → Type 0
IsBytes = All (λ b. b < 256)

none_below_empty : (xs : Bytes) → bytes_lt xs [] ≡ false
unfolding compare_bytes
none_below_empty [] = refl
none_below_empty (x ∷ xs) = refl

open_step :
    (b x : ℕ) (bs xs : Bytes)
    → b < 256
    → x < 256
    → in_range bs none xs ≡ has_prefix bs xs
    → in_range (b ∷ bs) (grown b none) (x ∷ xs) ≡ has_prefix (b ∷ bs) (x ∷ xs)
unfolding in_range compare_bytes has_prefix
open_step b x bs xs hb hx rest = elim (Bool-cases (ltb b 255)) [
  | inl room ↦ rw room (ground (arith, rest, hx, none_below_empty xs))
  | inr full ↦ rw full (ground (arith, rest, hx, none_below_empty xs))
]

closed_step :
    (b x : ℕ) (bs xs end : Bytes)
    → in_range bs (some end) xs ≡ has_prefix bs xs
    → in_range (b ∷ bs) (some (b ∷ end)) (x ∷ xs) ≡ has_prefix (b ∷ bs) (x ∷ xs)
unfolding in_range compare_bytes has_prefix
closed_step b x bs xs end rest = ground (arith, rest)

-- A key is in the range from a prefix to its end exactly if it has the prefix.
pub in_range-prefix_end :
    (p k : Bytes) → IsBytes p → IsBytes k → in_range p (prefix_end p) k ≡ has_prefix p k
unfolding in_range prefix_end compare_bytes has_prefix
in_range-prefix_end [] [] hp hk = refl
in_range-prefix_end [] (x ∷ xs) hp hk = refl
in_range-prefix_end (b ∷ bs) [] hp hk = elim (Option-cases (prefix_end bs)) [
  | inl top ↦ ground (arith, top)
  | inr (end, e) ↦ ground (arith, e)
]
in_range-prefix_end (b ∷ bs) (x ∷ xs) hp hk =
    let rest = in_range-prefix_end bs xs hp.1 hk.1 in
    elim (Option-cases (prefix_end bs)) [
      | inl top ↦ rw top (
          open_step b x bs xs hp.0 hk.0 (subst (λ o. in_range bs o xs ≡ has_prefix bs xs) top rest))
      | inr (end, e) ↦
          rw e (closed_step b x bs xs end (subst (λ o. in_range bs o xs ≡ has_prefix bs xs) e rest))
    ]
