-- ===== src/Prelude/NatMap.antt =====
-- Maps from numbers in ascending key order, and sets of pairs of numbers in ascending order: a key
-- space of the store whose keys carry big-endian numbers.
use Prim.Native.Nat.{ℕ, compare, Ordering}
use mathlib.Core.Path.{◌≡◌, refl}
use mathlib.Core.Bool.{Bool, true, false, ◌&&◌}
use mathlib.Core.Option.{Option, none, some}
use mathlib.Core.List.{List, [], ◌∷◌}
use native.Mathlib.Omega.{arith}
use mailezine.Prelude.Tests.{◌==◌, if◌then◌else◌}

module _ {ℓ} {V : Type ℓ} where
  unfoldable pub get : ℕ → List (ℕ × V) → Option V
  get k [] = none
  get k ((j, v) ∷ m) = if j == k then some v else get k m

  unfoldable pub put : ℕ → V → List (ℕ × V) → List (ℕ × V)
  put k v [] = (k, v) ∷ []
  put k v ((j, w) ∷ m) = elim (compare k j) [
    | Ordering.lt ↦ (k, v) ∷ (j, w) ∷ m
    | Ordering.eq ↦ (k, v) ∷ m
    | Ordering.gt ↦ (j, w) ∷ put k v m
  ]

  unfoldable pub delete : ℕ → List (ℕ × V) → List (ℕ × V)
  delete k [] = []
  delete k ((j, w) ∷ m) = let rest = delete k m in if j == k then rest else (j, w) ∷ rest

  pub get-put :
      (k j : ℕ) (v : V) (m : List (ℕ × V))
      → get j (put k v m) ≡ (if k == j then some v else get j m)
  unfolding get put
  get-put k j v [] = refl
  get-put k j v ((i, w) ∷ m) = ground (arith, get-put k j v m)

  pub get-delete :
      (k j : ℕ) (m : List (ℕ × V)) → get j (delete k m) ≡ (if k == j then none else get j m)
  unfolding get delete
  get-delete k j [] = ground arith
  get-delete k j ((i, w) ∷ m) = ground (arith, get-delete k j m)

abbrev pub same_pair : ℕ → ℕ → ℕ → ℕ → Bool
same_pair t i s j = (t == s) && (i == j)

unfoldable pub has : ℕ → ℕ → List (ℕ × ℕ) → Bool
has t i [] = false
has t i ((s, j) ∷ l) = if same_pair s j t i then true else has t i l

-- The order of two pairs, the first number first.
unfoldable pub compare_pair : ℕ → ℕ → ℕ → ℕ → Ordering
compare_pair t i s j = elim (compare t s) [
  | Ordering.lt ↦ Ordering.lt
  | Ordering.gt ↦ Ordering.gt
  | Ordering.eq ↦ compare i j
]

unfoldable pub add : ℕ → ℕ → List (ℕ × ℕ) → List (ℕ × ℕ)
add t i [] = (t, i) ∷ []
add t i ((s, j) ∷ l) = elim (compare_pair t i s j) [
  | Ordering.lt ↦ (t, i) ∷ (s, j) ∷ l
  | Ordering.eq ↦ (s, j) ∷ l
  | Ordering.gt ↦ (s, j) ∷ add t i l
]

unfoldable pub remove : ℕ → ℕ → List (ℕ × ℕ) → List (ℕ × ℕ)
remove t i [] = []
remove t i ((s, j) ∷ l) =
    let rest = remove t i l in if same_pair s j t i then rest else (s, j) ∷ rest

pub has-add :
    (t i s j : ℕ) (l : List (ℕ × ℕ))
    → has s j (add t i l) ≡ (if same_pair t i s j then true else has s j l)
unfolding has add compare_pair
has-add t i s j [] = refl
has-add t i s j ((u, k) ∷ l) = ground (arith, has-add t i s j l)

pub has-remove :
    (t i s j : ℕ) (l : List (ℕ × ℕ))
    → has s j (remove t i l) ≡ (if same_pair t i s j then false else has s j l)
unfolding has remove
has-remove t i s j [] = ground arith
has-remove t i s j ((u, k) ∷ l) = ground (arith, has-remove t i s j l)

-- Every pair of the list comes after (t, i).
abbrev pub AllAfter : ℕ → ℕ → List (ℕ × ℕ) → Type 0
AllAfter t i [] = Unit
AllAfter t i ((s, j) ∷ l) = (compare_pair t i s j ≡ Ordering.lt) × AllAfter t i l

-- Pairs strictly ascend.
abbrev pub IsAscending : List (ℕ × ℕ) → Type 0
IsAscending [] = Unit
IsAscending ((t, i) ∷ l) = AllAfter t i l × IsAscending l

compare_pair_trans :
    (t i s j u k : ℕ)
    → compare_pair t i s j ≡ Ordering.lt
    → compare_pair s j u k ≡ Ordering.lt
    → compare_pair t i u k ≡ Ordering.lt
unfolding compare_pair
compare_pair_trans t i s j u k h g = ground arith

compare_pair_flip :
    (t i s j : ℕ) → compare_pair t i s j ≡ Ordering.gt → compare_pair s j t i ≡ Ordering.lt
unfolding compare_pair
compare_pair_flip t i s j h = ground arith

AllAfter-trans :
    (t i s j : ℕ) (l : List (ℕ × ℕ))
    → compare_pair t i s j ≡ Ordering.lt
    → AllAfter s j l
    → AllAfter t i l
AllAfter-trans t i s j [] h a = tt
AllAfter-trans t i s j ((u, k) ∷ l) h a =
    (compare_pair_trans t i s j u k h a.0, AllAfter-trans t i s j l h a.1)

add-AllAfter :
    (t i u k : ℕ) (l : List (ℕ × ℕ))
    → compare_pair u k t i ≡ Ordering.lt
    → AllAfter u k l
    → AllAfter u k (add t i l)
unfolding add
add-AllAfter t i u k [] h a = (h, tt)
add-AllAfter t i u k ((s, j) ∷ l) h a = ground (arith, add-AllAfter t i u k l h a.1)

pub add-IsAscending : (t i : ℕ) (l : List (ℕ × ℕ)) → IsAscending l → IsAscending (add t i l)
unfolding add
add-IsAscending t i [] h = (tt, tt)
add-IsAscending t i ((s, j) ∷ l) h = ground (
  arith,
  add-IsAscending t i l h.1,
  AllAfter-trans t i s j l,
  compare_pair_flip t i s j,
  add-AllAfter t i s j l,
  h,
)

remove-AllAfter : (t i u k : ℕ) (l : List (ℕ × ℕ)) → AllAfter u k l → AllAfter u k (remove t i l)
unfolding remove
remove-AllAfter t i u k [] a = tt
remove-AllAfter t i u k ((s, j) ∷ l) a = ground (arith, remove-AllAfter t i u k l a.1)

pub remove-IsAscending : (t i : ℕ) (l : List (ℕ × ℕ)) → IsAscending l → IsAscending (remove t i l)
unfolding remove
remove-IsAscending t i [] h = tt
remove-IsAscending t i ((s, j) ∷ l) h =
    ground (arith, remove-AllAfter t i s j l h.0, remove-IsAscending t i l h.1)
