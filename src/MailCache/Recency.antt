-- ===== src/MailCache/Recency.antt =====
-- What an eviction of `internal/mailcache/lru.go` takes: the least recently used entries.
use mailezine.Prelude.{
  ℕ, zero, suc, ◌∙◌, ap, ◌++◌, ◌+◌, ◌≤◌, ◌≡◌, refl, false, List, [], ◌∷◌, Option, none, some, arith,
  Bool-cases, ltb, inl, inr, length,
}
use mailezine.Bytes.{Bytes, bytes_eq_iff}
use mailezine.MailCache.{
  Entry, Shard, find, unlink, has_expired, get, split_back, drop_back, evict, stored, new_entry,
  put, footprint,
}
use mailezine.MailCache.Bounds.{
  max-drop_back, total, IsBounded, IsCounted, drop_back-IsCounted, stored-IsCounted,
}

module _ {V : Type 0} where
  split_back-append :
      (e : Entry V) (es : List (Entry V)) → (split_back e es).0 ++ (split_back e es).1 ∷ [] ≡ e ∷ es
  unfolding split_back
  split_back-append e [] = refl
  split_back-append e (f ∷ es) = ground (arith, split_back-append f es)

  -- While the bound is broken the head of the list survives if it fits alone.
  evict-head :
      (n : ℕ) (s : Shard V) (e : Entry V) (es : List (Entry V))
      → s.ll ≡ e ∷ es
      → e.weight ≤ s.max
      → IsCounted s
      → (rest : List (Entry V)) × ((evict n s).ll ≡ e ∷ rest)
  unfolding evict
  evict-head zero s e es h fits c = (es, h)
  evict-head (suc n) s e [] h fits c =
      let alone : s.weight ≡ e.weight + 0 = unfold total in c ∙ ap total h in
      let small : ltb s.max s.weight ≡ false = ground (arith, alone, fits) in ([], rw small h)
  evict-head (suc n) s e (f ∷ es) h fits c = elim (Bool-cases (ltb s.max s.weight)) [
    | inr small ↦ (f ∷ es, rw small h)
    | inl over ↦
        let back : (drop_back s s.ll).ll ≡ e ∷ (split_back f es).0 =
          ap (λ l. (drop_back s l).ll) h in
        let next =
          evict-head n (drop_back s s.ll) e (split_back f es).0 back
            (rw (max-drop_back s s.ll) fits) (drop_back-IsCounted s s.ll refl c) in
        (next.0, rw over next.1)
  ]

  stored-front :
      (new : Entry V) (s : Shard V) (o : Option (Entry V))
      → (rest : List (Entry V)) × ((stored new s o).ll ≡ new ∷ rest)
        × ((stored new s o).max ≡ s.max)
  stored-front new s none = (s.ll, refl, refl)
  stored-front new s (some old) = (unlink new.key s.ll, refl, refl)

  put-front :
      (k : Bytes) (v : Option V) (w expires : ℕ) (s : Shard V)
      → IsBounded s
      → footprint k w ≤ s.max
      → (rest : List (Entry V)) × ((put k v w expires s).ll ≡ new_entry k v w expires ∷ rest)
  unfolding put
  put-front k v w expires s b fits =
      let new = new_entry k v w expires in
      let next = stored new s (find k s.ll) in
      let front = stored-front new s (find k s.ll) in
      evict-head (length next.ll) next new front.0 front.1 (rw front.2 fits)
        (stored-IsCounted new s (find k s.ll) refl b.counted)

  -- A value that fits the shard by itself, its fixed footprint included, is found straight after it
  -- was put and until it expires, whatever else the shard held: eviction takes other entries.
  pub get-put_fits :
      (now : ℕ) (k : Bytes) (v : Option V) (w expires : ℕ) (s : Shard V)
      → IsBounded s
      → footprint k w ≤ s.max
      → has_expired now (new_entry k v w expires) ≡ false
      → (get now k (put k v w expires s)).0 ≡ some v
  unfolding get
  get-put_fits now k v w expires s b fits fresh =
      let front = put-front k v w expires s b fits in
      let found : find k (put k v w expires s).ll ≡ some (new_entry k v w expires) =
        unfold find in rw front.1 (ground (arith, bytes_eq_iff k k)) in
      rw (found, get, fresh) refl
