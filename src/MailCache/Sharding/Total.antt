-- ===== src/MailCache/Sharding/Total.antt =====
-- The bound on the whole cache of `internal/mailcache/lru.go`.
use mailezine.Prelude.{
  ◌==◌, none, ◌+◌, Bool-cases, ℕ, zero, suc, ◌+◌, List, [], ◌∷◌, some, All, inl, inr,
}
use mailezine.Prelude.Int.{ℤ, pos, negsuc}
use mailezine.Bytes.{Bytes}
use mailezine.MailCache.{Shard}
use mailezine.MailCache.Bounds.{IsBounded, put-IsBounded, get-IsBounded, remove-IsBounded}
use mailezine.MailCache.Sharding.{
  put_absent, negative_ttl, shard_of, cache_put_negative, Cache, expiry, at_shard, cache_get,
  cache_put, cache_remove,
}

module _ {V : Type 0} where
  -- Every shard counts right and keeps its share.
  abbrev pub IsWithin : Cache V → Type 0
  IsWithin c = All IsBounded c.shards

  at_shard-IsBounded :
      (i : ℕ) (f : Shard V → Shard V) (ss : List (Shard V))
      → ((s : Shard V) → IsBounded s → IsBounded (f s))
      → All IsBounded ss
      → All IsBounded (at_shard i f ss)
  unfolding at_shard
  at_shard-IsBounded i f [] h b = b
  at_shard-IsBounded zero f (s ∷ ss) h b = (h s b.0, b.1)
  at_shard-IsBounded (suc i) f (s ∷ ss) h b = (b.0, at_shard-IsBounded i f ss h b.1)

  put_absent-IsWithin :
      (hash : Bytes → ℕ) (now : ℕ) (k : Bytes) (ttl : ℤ) (c : Cache V)
      → IsWithin c
      → IsWithin (put_absent hash now k ttl c)
  put_absent-IsWithin hash now k (negsuc n) c b = b
  put_absent-IsWithin hash now k (pos n) c b = elim (Bool-cases (n == 0)) [
    | inl off ↦ rw off b
    | inr on ↦ rw on (
        at_shard-IsBounded (shard_of hash k c) _ c.shards
          (λ s h. put-IsBounded k none 1 (now + n) s h) b)
  ]

  -- `Put`, `PutNegative`, `Get` and `Remove`, whatever shard the hash chooses, leave every shard with
  -- its weight counted right and within its share of the capacity.
  pub cache-IsWithin :
      (hash : Bytes → ℕ) (now : ℕ) (k : Bytes) (v : V) (weight : ℕ) (c : Cache V)
      → IsWithin c
      → IsWithin (cache_put hash now k v weight c)
        × IsWithin (cache_put_negative hash now k c)
        × IsWithin (cache_get hash now k c).1
        × IsWithin (cache_remove hash k c)
  unfolding cache_put cache_put_negative cache_get cache_remove
  cache-IsWithin hash now k v weight c b = (
    at_shard-IsBounded _ _ c.shards (λ s h. put-IsBounded k (some v) weight (expiry c.ttl now) s h)
        b,
    put_absent-IsWithin hash now k (negative_ttl c.neg_ttl c.ttl) c b,
    at_shard-IsBounded _ _ c.shards (λ s h. get-IsBounded now k s h) b,
    at_shard-IsBounded _ _ c.shards (λ s h. remove-IsBounded k s h) b,
  )
