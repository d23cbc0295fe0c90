-- ===== src/Bytes/Assoc.antt =====
-- Maps from byte strings as association lists, and the key order of a scan.
use mailezine.Prelude.{
  ◌≡◌, refl, sym, ap, ap₂, subst, ◌∙◌, Bool, true, List, [], ◌∷◌, ◌++◌, arith, Option, none, some,
  if◌then◌else◌,
}
use Prim.Native.Nat.{Ordering}
use mailezine.Bytes.{
  Bytes, compare_bytes, bytes_eq, bytes_lt, bytes_eq_iff, bytes_lt_trans, compare_bytes_refl,
  eq_of_compare_bytes, lt_of_compare_bytes-gt,
}

module _ {ℓ} {V : Type ℓ} where
  unfoldable pub get : Bytes → List (Bytes × V) → Option V
  get k [] = none
  get k ((j, v) ∷ m) = if bytes_eq j k then some v else get k m

  -- `m[k] = v`
  unfoldable pub put : Bytes → V → List (Bytes × V) → List (Bytes × V)
  put k v [] = (k, v) ∷ []
  put k v ((j, w) ∷ m) = if bytes_eq j k then (k, v) ∷ m else (j, w) ∷ put k v m

  -- `delete(m, k)`
  unfoldable pub delete : Bytes → List (Bytes × V) → List (Bytes × V)
  delete k [] = []
  delete k ((j, w) ∷ m) = let rest = delete k m in if bytes_eq j k then rest else (j, w) ∷ rest

  -- The entries whose key passes a test.
  unfoldable pub filter_keys : (Bytes → Bool) → List (Bytes × V) → List (Bytes × V)
  filter_keys p [] = []
  filter_keys p ((k, v) ∷ m) = let rest = filter_keys p m in if p k then (k, v) ∷ rest else rest

  -- Insertion at the place of the key in ascending order.
  unfoldable pub insert_sorted : Bytes → V → List (Bytes × V) → List (Bytes × V)
  insert_sorted k v [] = (k, v) ∷ []
  insert_sorted k v ((j, w) ∷ m) = elim (compare_bytes k j) [
    | Ordering.lt ↦ (k, v) ∷ (j, w) ∷ m
    | Ordering.eq ↦ (k, v) ∷ m
    | Ordering.gt ↦ (j, w) ∷ insert_sorted k v m
  ]

  -- `sort.Strings` of the keys with their values beside them.
  unfoldable pub sort_by_key : List (Bytes × V) → List (Bytes × V)
  unfolding insert_sorted
  sort_by_key [] = []
  sort_by_key ((k, v) ∷ m) = insert_sorted k v (sort_by_key m)

  abbrev pub Above : Bytes → List (Bytes × V) → Type 0
  Above k [] = Unit
  Above k ((j, _) ∷ _) = bytes_lt k j ≡ true

  -- Keys strictly ascend.
  abbrev pub IsSorted : List (Bytes × V) → Type 0
  IsSorted [] = Unit
  IsSorted ((k, v) ∷ m) = Above k m × IsSorted m

  pub get-put :
      (k j : Bytes) (v : V) (m : List (Bytes × V))
      → get j (put k v m) ≡ (if bytes_eq k j then some v else get j m)
  unfolding get put
  get-put k j v [] = refl
  get-put k j v ((i, w) ∷ m) =
      ground (arith, get-put k j v m, bytes_eq_iff k j, bytes_eq_iff i k, bytes_eq_iff i j)

  pub get-delete :
      (k j : Bytes) (m : List (Bytes × V))
      → get j (delete k m) ≡ (if bytes_eq k j then none else get j m)
  unfolding get delete
  get-delete k j [] = ground arith
  get-delete k j ((i, w) ∷ m) =
      ground (arith, get-delete k j m, bytes_eq_iff k j, bytes_eq_iff i k, bytes_eq_iff i j)

  pub get-filter_keys :
      (p : Bytes → Bool) (k : Bytes) (m : List (Bytes × V))
      → get k (filter_keys p m) ≡ (if p k then get k m else none)
  unfolding get filter_keys
  get-filter_keys p k [] = ground arith
  get-filter_keys p k ((j, v) ∷ m) = ground (arith, get-filter_keys p k m, bytes_eq_iff j k)

  abbrev pub or_else : Option V → Option V → Option V
  or_else none o = o
  or_else (some v) o = some v

  pub get-append :
      (k : Bytes) (m n : List (Bytes × V)) → get k (m ++ n) ≡ or_else (get k m) (get k n)
  unfolding get
  get-append k [] n = refl
  get-append k ((j, w) ∷ m) n = ground (arith, get-append k m n)

  get-insert_sorted :
      (k j : Bytes) (v : V) (m : List (Bytes × V))
      → get j (insert_sorted k v m) ≡ (if bytes_eq k j then some v else get j m)
  unfolding get insert_sorted
  get-insert_sorted k j v [] = refl
  get-insert_sorted k j v ((i, w) ∷ m) = ground (
    arith,
    get-insert_sorted k j v m,
    bytes_eq_iff k j,
    bytes_eq_iff i j,
    eq_of_compare_bytes k i,
    compare_bytes_refl i,
  )

  -- Sorting changes no lookup.
  pub get-sort_by_key : (j : Bytes) (m : List (Bytes × V)) → get j (sort_by_key m) ≡ get j m
  unfolding get sort_by_key
  get-sort_by_key j [] = refl
  get-sort_by_key j ((k, v) ∷ m) =
      get-insert_sorted k j v (sort_by_key m)
      ∙ ap (λ o. if bytes_eq k j then some v else o) (get-sort_by_key j m)

  insert_sorted-IsSorted :
      (k : Bytes) (v : V) (m : List (Bytes × V)) → IsSorted m → IsSorted (insert_sorted k v m)
  unfolding insert_sorted
  insert_sorted-IsSorted k v [] h = (tt, tt)
  insert_sorted-IsSorted k v ((j, w) ∷ []) h =
      ground (arith, lt_of_compare_bytes-gt k j, eq_of_compare_bytes k j)
  insert_sorted-IsSorted k v ((j, w) ∷ (i, u) ∷ m) h = ground (
    arith,
    insert_sorted-IsSorted k v ((i, u) ∷ m) h.1,
    lt_of_compare_bytes-gt k j,
    eq_of_compare_bytes k j,
    lt_of_compare_bytes-gt k i,
  )

  pub sort_by_key-IsSorted : (m : List (Bytes × V)) → IsSorted (sort_by_key m)
  unfolding sort_by_key
  sort_by_key-IsSorted [] = tt
  sort_by_key-IsSorted ((k, v) ∷ m) =
      insert_sorted-IsSorted k v (sort_by_key m) (sort_by_key-IsSorted m)

  get-Above : (k : Bytes) (m : List (Bytes × V)) → Above k m → IsSorted m → get k m ≡ none
  unfolding get
  get-Above k [] a h = refl
  get-Above k ((j, v) ∷ []) a h = ground (arith, bytes_eq_iff j k, compare_bytes_refl k)
  get-Above k ((j, v) ∷ (i, w) ∷ m) a h = ground (
    arith,
    bytes_eq_iff j k,
    compare_bytes_refl k,
    get-Above k ((i, w) ∷ m) (bytes_lt_trans k j i a h.0) h.1,
  )

  head_key :
      (k j : Bytes) (v w : V) (m n : List (Bytes × V))
      → IsSorted ((k, v) ∷ m)
      → IsSorted ((j, w) ∷ n)
      → ((i : Bytes) → get i ((k, v) ∷ m) ≡ get i ((j, w) ∷ n))
      → k ≡ j
  unfolding get
  head_key k j v w m n h g e = ground (
    arith,
    e k,
    e j,
    get-Above k ((j, w) ∷ n),
    get-Above j ((k, v) ∷ m),
    lt_of_compare_bytes-gt k j,
    eq_of_compare_bytes k j,
    compare_bytes_refl k,
    compare_bytes_refl j,
    h,
    g,
  )

  tail_get :
      (k i : Bytes) (v w : V) (m n : List (Bytes × V))
      → IsSorted ((k, v) ∷ m)
      → IsSorted ((k, w) ∷ n)
      → ((i : Bytes) → get i ((k, v) ∷ m) ≡ get i ((k, w) ∷ n))
      → get i m ≡ get i n
  unfolding get
  tail_get k i v w m n h g e =
      ground (arith, e i, get-Above k m h.0 h.1, get-Above k n g.0 g.1, bytes_eq_iff k i)

  head_value :
      (k : Bytes) (v w : V) (m n : List (Bytes × V))
      → ((i : Bytes) → get i ((k, v) ∷ m) ≡ get i ((k, w) ∷ n))
      → v ≡ w
  unfolding get
  head_value k v w m n e = ground (arith, e k, compare_bytes_refl k)

  -- Two ascending sequences with the same lookups are the same sequence.
  pub eq_of_get :
      (m n : List (Bytes × V)) → IsSorted m → IsSorted n → ((j : Bytes) → get j m ≡ get j n) → m ≡ n
  eq_of_get [] [] h g e = refl
  eq_of_get [] ((j, w) ∷ n) h g e = unfold get in absurd (ground (arith, e j, compare_bytes_refl j))
  eq_of_get ((k, v) ∷ m) [] h g e = unfold get in absurd (ground (arith, e k, compare_bytes_refl k))
  eq_of_get ((k, v) ∷ m) ((j, w) ∷ n) h g e =
      let same : j ≡ k = sym (head_key k j v w m n h g e) in
      let g' : IsSorted ((k, w) ∷ n) = subst (λ i. IsSorted ((i, w) ∷ n)) same g in
      let e' : (i : Bytes) → get i ((k, v) ∷ m) ≡ get i ((k, w) ∷ n) =
        subst (λ l. (i : Bytes) → get i ((k, v) ∷ m) ≡ get i ((l, w) ∷ n)) same e in
      rw same (
        ap₂ (λ (x : V) y. (k, x) ∷ y) (head_value k v w m n e')
          (eq_of_get m n h.1 g.1 (λ i. tail_get k i v w m n h g' e')))
