-- ===== src/Bytes.antt =====
-- Byte strings: Go's `[]byte` and `string` keys, `bytes.Compare`, `bytes.HasPrefix` and the sorted
-- key-value sequences that a scan visits.
pub mod Assoc
use Prim.Native.Nat.{compare, Ordering}
use mailezine.Prelude.{
  ℕ, ◌≡◌, refl, ap, ap₂, ◌↔◌, Bool, true, false, List, [], ◌∷◌, ◌++◌, arith, ◌&&◌, ◌==◌, drop,
  length,
}

abbrev pub Bytes : Type 0
Bytes = List ℕ

-- `bytes.Compare`: lexicographic, a proper prefix first.
unfoldable pub compare_bytes : Bytes → Bytes → Ordering
compare_bytes [] [] = Ordering.eq
compare_bytes [] (y ∷ ys) = Ordering.lt
compare_bytes (x ∷ xs) [] = Ordering.gt
compare_bytes (x ∷ xs) (y ∷ ys) = elim (compare x y) [
  | Ordering.lt ↦ Ordering.lt
  | Ordering.gt ↦ Ordering.gt
  | Ordering.eq ↦ compare_bytes xs ys
]

abbrev pub bytes_eq : Bytes → Bytes → Bool
bytes_eq a b = elim (compare_bytes a b) [ Ordering.eq ↦ true | _ ↦ false ]

abbrev pub bytes_lt : Bytes → Bytes → Bool
bytes_lt a b = elim (compare_bytes a b) [ Ordering.lt ↦ true | _ ↦ false ]

-- `bytes.HasPrefix(key, prefix)`, the prefix first.
unfoldable pub has_prefix : Bytes → Bytes → Bool
has_prefix [] k = true
has_prefix (p ∷ ps) [] = false
has_prefix (p ∷ ps) (x ∷ xs) = (p == x) && has_prefix ps xs

pub compare_bytes_refl : (a : Bytes) → compare_bytes a a ≡ Ordering.eq
unfolding compare_bytes
compare_bytes_refl [] = refl
compare_bytes_refl (x ∷ xs) = ground (arith, compare_bytes_refl xs)

pub eq_of_compare_bytes : (a b : Bytes) → compare_bytes a b ≡ Ordering.eq → a ≡ b
unfolding compare_bytes
eq_of_compare_bytes [] [] h = refl
eq_of_compare_bytes [] (y ∷ ys) h = cc
eq_of_compare_bytes (x ∷ xs) [] h = cc
eq_of_compare_bytes (x ∷ xs) (y ∷ ys) h = ground (arith, eq_of_compare_bytes xs ys)

pub lt_of_compare_bytes-gt :
    (a b : Bytes) → compare_bytes a b ≡ Ordering.gt → compare_bytes b a ≡ Ordering.lt
unfolding compare_bytes
lt_of_compare_bytes-gt [] [] h = cc
lt_of_compare_bytes-gt [] (y ∷ ys) h = cc
lt_of_compare_bytes-gt (x ∷ xs) [] h = refl
lt_of_compare_bytes-gt (x ∷ xs) (y ∷ ys) h = ground (arith, lt_of_compare_bytes-gt xs ys)

pub bytes_eq_iff : (a b : Bytes) → (bytes_eq a b ≡ true) ↔ (a ≡ b)
bytes_eq_iff a b = ground (arith, compare_bytes_refl a, eq_of_compare_bytes a b)

pub bytes_lt_trans :
    (a b c : Bytes) → bytes_lt a b ≡ true → bytes_lt b c ≡ true → bytes_lt a c ≡ true
unfolding compare_bytes
bytes_lt_trans [] [] c h k = cc
bytes_lt_trans [] (y ∷ b) [] h k = cc
bytes_lt_trans [] (y ∷ b) (z ∷ c) h k = refl
bytes_lt_trans (x ∷ a) [] c h k = cc
bytes_lt_trans (x ∷ a) (y ∷ b) [] h k = cc
bytes_lt_trans (x ∷ a) (y ∷ b) (z ∷ c) h k = ground (arith, bytes_lt_trans a b c)

-- A common prefix does not change the order.
pub compare_bytes-append : (p a b : Bytes) → compare_bytes (p ++ a) (p ++ b) ≡ compare_bytes a b
unfolding compare_bytes
compare_bytes-append [] a b = refl
compare_bytes-append (x ∷ p) a b = ground (arith, compare_bytes-append p a b)

pub has_prefix-append : (p a b : Bytes) → has_prefix (p ++ a) (p ++ b) ≡ has_prefix a b
unfolding has_prefix
has_prefix-append [] a b = refl
has_prefix-append (x ∷ p) a b = ground (arith, has_prefix-append p a b)

-- Text under a prefix is under it.
pub has_prefix_self : (p r : Bytes) → has_prefix p (p ++ r) ≡ true
unfolding has_prefix
has_prefix_self [] r = refl
has_prefix_self (x ∷ p) r = ground (arith, has_prefix_self p r)

-- Text under a prefix is the prefix and a rest.
pub prefix_rest : (p k : Bytes) → has_prefix p k ≡ true → k ≡ p ++ drop (length p) k
unfolding has_prefix
prefix_rest [] k h = refl
prefix_rest (x ∷ p) [] h = cc h
prefix_rest (x ∷ p) (y ∷ k) h = ground (arith, prefix_rest p k)
