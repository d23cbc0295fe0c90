-- ===== src/Tests/Others.antt =====
-- The theorems of `Lease`, `MailCache` and `Acl` at concrete inputs.
use mailezine.Bytes.{compare_bytes, Bytes}
use mailezine.Bytes.Assoc
use mailezine.Store.MemKv
use mailezine.Store.MemKv.{MemoryKv, mem_kv}
use mailezine.Store.WriteBuf
use mailezine.Store.WriteBuf.{with_txn, fresh, ok}
use mailezine.Lease.{Codec, acquire_txn, Lease, acquire}
use mailezine.Lease.Exclusion.{holder, acquire_exclusive}
use mailezine.Prelude.{◌≡◌, refl, arith, [], ◌∷◌, none, some, true, false}
use mailezine.Store.Key.{codes}
use mailezine.MailCache.{Shard}
use mailezine.MailCache.Bounds.{IsBounded, total}
use mailezine.Prelude.Int.{pos}
use mailezine.MailCache.Sharding.{Cache, cache_put, cache_put_negative, cache_get, cache_remove}
use mailezine.MailCache.Sharding.Total.{IsWithin, cache-IsWithin}
use mailezine.Acl.{
  has, normalize, apply_modification, index_rune, mark, collect, replace_all, remove_all,
}
use mailezine.Acl.Rights.{has-normalize}

-- The time, then the owner.
abbrev plain : Codec
plain = record {
  encode = λ h. h.until ∷ h.owner;
  decode = λ v. elim v [ [] ↦ none | t ∷ owner ↦ some (record { owner = owner; until = t }) ];
  decode-encode = λ h. refl;
}

abbrev sweep : Bytes → Lease
sweep owner = record { key = codes "k"; owner = owner; ttl = 60 }

first_acquired : (acquire mem_kv plain (sweep (codes "a")) 100 []).0 ≡ ok true
unfolding acquire acquire_txn with_txn fresh WriteBuf.get MemKv.get Assoc.get
first_acquired = refl

acquire_exclusive_example :
    ((acquire mem_kv plain
        (sweep (codes "b"))
        120
        (acquire mem_kv plain (sweep (codes "a")) 100 []).1).0
      ≡ ok false)
    × (holder mem_kv plain
          (sweep (codes "a"))
          (acquire mem_kv plain
            (sweep (codes "b"))
            120
            (acquire mem_kv plain (sweep (codes "a")) 100 []).1).1
        ≡ holder mem_kv plain
            (sweep (codes "a"))
            (acquire mem_kv plain (sweep (codes "a")) 100 []).1)
acquire_exclusive_example =
    acquire_exclusive mem_kv plain (sweep (codes "a")) (sweep (codes "b")) 100 120 [] refl
      (λ e. ground (arith, e)) (omega arith) first_acquired

abbrev leased : MemoryKv
leased = (codes "k", 160 ∷ codes "a") ∷ []

a_holds :
    holder mem_kv plain (sweep (codes "b")) leased
    ≡ some (plain.encode (record { owner = codes "a"; until = 160 }))
unfolding MemKv.get Assoc.get compare_bytes
a_holds = refl

abbrev small : Shard Bytes
small = record {
  max = 200;
  weight = 80;
  ll = record { key = codes "x"; value = some (codes "1"); weight = 80; expires = 0 } ∷ [];
}

small-IsBounded : IsBounded small
unfolding total
small-IsBounded = record { counted = omega arith; within = omega arith }

normalized : normalize (codes "rlr") ≡ some (codes "lr")
unfolding normalize mark collect index_rune
normalized = refl

has-normalize_example : has (codes "lr") b'r' ≡ has (codes "rlr") b'r'
has-normalize_example = has-normalize (codes "rlr") (codes "lr") normalized b'r'

with_write : apply_modification (codes "lr") (b'+' ∷ codes "w") ≡ some (codes "lrw")
unfolding apply_modification normalize mark collect index_rune
with_write = refl

without_read : apply_modification (codes "lr") (b'-' ∷ codes "r") ≡ some (codes "l")
unfolding apply_modification normalize mark collect index_rune remove_all replace_all
without_read = refl

abbrev two_shards : Cache Bytes
two_shards = record { shards = small ∷ small ∷ []; ttl = pos 10; neg_ttl = pos 5 }

cache-IsWithin_example :
    IsWithin (cache_put (λ k. 3) 5 (codes "y") (codes "2") 90 two_shards)
    × IsWithin (cache_put_negative (λ k. 3) 5 (codes "y") two_shards)
    × IsWithin (cache_get (λ k. 3) 5 (codes "y") two_shards).1
    × IsWithin (cache_remove (λ k. 3) (codes "y") two_shards)
cache-IsWithin_example =
    cache-IsWithin (λ k. 3) 5 (codes "y") (codes "2") 90 two_shards
      (small-IsBounded, (small-IsBounded, tt))
