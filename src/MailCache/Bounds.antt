-- ===== src/MailCache/Bounds.antt =====
-- The weight bound of `internal/mailcache/lru.go`.
use mailezine.Prelude.{
  zero, none, ◌∙◌, ap, ℕ, ◌+◌, ◌≤◌, ◌≡◌, refl, List, [], ◌∷◌, some, arith, Bool-cases, inl, inr,
  length, Option-cases,
}
use mailezine.Bytes.{Bytes, bytes_eq, bytes_eq_iff}
use mailezine.MailCache.{
  Entry, Shard, find, unlink, split_back, drop_back, suc, evict, Option, put, remove_locked, get,
  remove, ltb, stored, new_entry, has_expired,
}

module _ {V : Type 0} where
  unfoldable pub total : List (Entry V) → ℕ
  total [] = 0
  total (e ∷ es) = e.weight + total es

  -- The counted weight is the weight of the entries.
  abbrev pub IsCounted : Shard V → Type 0
  IsCounted s = s.weight ≡ total s.ll

  -- It is counted right, and within the bound.
  pub record IsBounded (s : Shard V) : Type 0 where
    pub counted : s.weight ≡ total s.ll
    pub within : s.weight ≤ s.max

  total-unlink :
      (k : Bytes) (es : List (Entry V)) (e : Entry V)
      → find k es ≡ some e
      → total (unlink k es) + e.weight ≡ total es
  unfolding find unlink total
  total-unlink k [] e h = absurd (cc h)
  total-unlink k (f ∷ es) e h = elim (Bool-cases (bytes_eq f.key k)) [
    | inl same ↦ ground (arith, same, h)
    | inr apart ↦ ground (arith, total-unlink k es e, apart, h)
  ]

  pub find_key : (k : Bytes) (es : List (Entry V)) (e : Entry V) → find k es ≡ some e → e.key ≡ k
  unfolding find
  find_key k [] e h = absurd (cc h)
  find_key k (f ∷ es) e h = elim (Bool-cases (bytes_eq f.key k)) [
    | inl same ↦ ground (arith, same, h, bytes_eq_iff f.key k)
    | inr apart ↦ ground (arith, find_key k es e, apart, h)
  ]

  total-split_back :
      (e : Entry V) (es : List (Entry V))
      → total (split_back e es).0 + (split_back e es).1.weight ≡ e.weight + total es
  unfolding split_back total
  total-split_back e [] = omega arith
  total-split_back e (f ∷ es) = ground (arith, total-split_back f es)

  length-split_back : (e : Entry V) (es : List (Entry V)) → length (split_back e es).0 ≡ length es
  unfolding split_back
  length-split_back e [] = refl
  length-split_back e (f ∷ es) = ground (arith, length-split_back f es)

  pub drop_back-IsCounted :
      (s : Shard V) (es : List (Entry V)) → s.ll ≡ es → IsCounted s → IsCounted (drop_back s es)
  unfolding total
  drop_back-IsCounted s [] h c = c
  drop_back-IsCounted s (e ∷ es) h c =
      let sum : s.weight ≡ e.weight + total es = c ∙ ap total h in
      ground (arith, sum, total-split_back e es)

  length-drop_list :
      (s : Shard V) (es : List (Entry V)) (n : ℕ)
      → length es ≡ suc n
      → length (drop_back s es).ll ≡ n
  length-drop_list s [] n h = absurd (cc h)
  length-drop_list s (e ∷ es) n h = ground (arith, length-split_back e es, h)

  empty_within :
      (s : Shard V) (es : List (Entry V))
      → length es ≡ 0
      → s.ll ≡ es
      → IsCounted s
      → s.weight ≤ s.max
  unfolding total
  empty_within s [] h e c = let none_left : s.weight ≡ 0 = c ∙ ap total e in omega arith
  empty_within s (x ∷ es) h e c = absurd (omega arith)

  length-drop_back : (s : Shard V) (n : ℕ) → length s.ll ≡ suc n → length (drop_back s s.ll).ll ≡ n
  length-drop_back s n h = length-drop_list s s.ll n h

  pub max-drop_back : (s : Shard V) (es : List (Entry V)) → (drop_back s es).max ≡ s.max
  max-drop_back s [] = refl
  max-drop_back s (e ∷ es) = refl

  evict-IsBounded : (n : ℕ) (s : Shard V) → length s.ll ≡ n → IsCounted s → IsBounded (evict n s)
  unfolding evict
  evict-IsBounded zero s h c = record { counted = c; within = empty_within s s.ll h refl c }
  evict-IsBounded (suc n) s h c = elim (Bool-cases (ltb s.max s.weight)) [
    | inr fits ↦ rw fits (record { counted = c; within = ground (arith, fits) })
    | inl over ↦ rw over (
        evict-IsBounded n (drop_back s s.ll) (length-drop_back s n h)
          (drop_back-IsCounted s s.ll refl c))
  ]

  pub stored-IsCounted :
      (new : Entry V) (s : Shard V) (o : Option (Entry V))
      → find new.key s.ll ≡ o
      → IsCounted s
      → IsCounted (stored new s o)
  unfolding total
  stored-IsCounted new s none h c = ground (arith, c)
  stored-IsCounted new s (some old) h c = ground (arith, c, total-unlink new.key s.ll old h)

  -- After `put` the counted weight is the weight of the entries and within the bound, whatever was
  -- put: the loop that evicts ends with as many rounds as there are entries.
  pub put-IsBounded :
      (k : Bytes) (v : Option V) (w expires : ℕ) (s : Shard V)
      → IsBounded s
      → IsBounded (put k v w expires s)
  unfolding put
  put-IsBounded k v w expires s b =
      let next = stored (new_entry k v w expires) s (find k s.ll) in
      evict-IsBounded (length next.ll) next refl
        (stored-IsCounted (new_entry k v w expires) s (find k s.ll) refl b.counted)

  remove_locked-IsBounded :
      (s : Shard V) (k : Bytes) (e : Entry V)
      → find k s.ll ≡ some e
      → IsBounded s
      → IsBounded (remove_locked e s)
  unfolding remove_locked
  remove_locked-IsBounded s k e h b =
      let same = find_key k s.ll e h in
      let sum : total (unlink e.key s.ll) + e.weight ≡ total s.ll =
        rw same (total-unlink k s.ll e h) in
      record { counted = ground (arith, b.counted, sum); within = ground (arith, b.within) }

  touched-IsBounded :
      (s : Shard V) (k : Bytes) (e : Entry V)
      → find k s.ll ≡ some e
      → IsBounded s
      → IsBounded (record s { ll = e ∷ unlink e.key s.ll })
  unfolding total
  touched-IsBounded s k e h b =
      let same = find_key k s.ll e h in
      let sum : total (unlink e.key s.ll) + e.weight ≡ total s.ll =
        rw same (total-unlink k s.ll e h) in
      record { counted = ground (arith, b.counted, sum); within = b.within }

  -- A lookup, a hit that moves its entry to the front or an expired one that it drops, keeps the
  -- count right and within the bound.
  pub get-IsBounded : (now : ℕ) (k : Bytes) (s : Shard V) → IsBounded s → IsBounded (get now k s).1
  unfolding get
  get-IsBounded now k s b = elim (Option-cases (find k s.ll)) [
    | inl absent ↦ rw (absent, get) b
    | inr (e, here) ↦ elim (Bool-cases (has_expired now e)) [
      | inl old ↦ rw (here, get, old) (remove_locked-IsBounded s k e here b)
      | inr fresh ↦ rw (here, get, fresh) (touched-IsBounded s k e here b)
    ]
  ]

  pub remove-IsBounded : (k : Bytes) (s : Shard V) → IsBounded s → IsBounded (remove k s)
  unfolding remove
  remove-IsBounded k s b = elim (Option-cases (find k s.ll)) [
    | inl absent ↦ rw (absent, remove) b
    | inr (e, here) ↦ rw (here, remove) (remove_locked-IsBounded s k e here b)
  ]
