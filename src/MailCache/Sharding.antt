-- ===== src/MailCache/Sharding.antt =====
-- `Cache` of `internal/mailcache/lru.go`: the capacity striped over shards, chosen by a hash of the
-- key. `hash` is FNV-1a of 32 bits.
pub mod Total
use mailezine.Prelude.{
  ℕ, zero, suc, ◌+◌, ◌/◌, ◌%◌, List, [], ◌∷◌, Option, none, some, if◌then◌else◌, leb, length, ◌==◌,
}
use mailezine.Prelude.Int.{ℤ, pos, negsuc, positive_or}
use mailezine.Bytes.{Bytes}
use mailezine.MailCache.{Entry, Shard, get, put, remove, clear}

pub record Cache (V : Type 0) : Type 0 where
  pub shards : List (Shard V)
  pub ttl : ℤ
  pub neg_ttl : ℤ

-- `shardsFor`
unfoldable pub shards_for : ℕ → ℕ
shards_for max_weight = if leb 1048576 max_weight then 16 else 1

-- `expiry`: 0 is the zero time.
unfoldable pub expiry : ℤ → ℕ → ℕ
expiry (pos n) now = if n == 0 then 0 else now + n
expiry (negsuc n) now = 0

abbrev pub negative_ttl : ℤ → ℤ → ℤ
negative_ttl (pos n) ttl = if n == 0 then ttl else pos n
negative_ttl (negsuc n) ttl = ttl

module _ {V : Type 0} where
  abbrev pub empty_shard : ℕ → Shard V
  empty_shard max = record { max = max; weight = 0; ll = [] }

  abbrev pub repeated : ℕ → Shard V → List (Shard V)
  repeated zero s = []
  repeated (suc n) s = s ∷ repeated n s

  abbrev pub striped : ℕ → ℤ → ℤ → Cache V
  striped max_weight ttl neg_ttl = record {
    shards = repeated (shards_for max_weight) (empty_shard (max_weight / shards_for max_weight));
    ttl = ttl;
    neg_ttl = neg_ttl;
  }

  -- `newCache`, with the negative time to live that `NewCacheWithNegative` sets afterwards.
  unfoldable pub new_cache : ℤ → ℤ → ℤ → Cache V
  unfolding shards_for
  new_cache max_weight ttl neg_ttl = striped (positive_or max_weight 8388608) ttl neg_ttl

  -- A shard is a pointer in the code: what is done to it is done in its place in the list.
  unfoldable pub at_shard : ℕ → (Shard V → Shard V) → List (Shard V) → List (Shard V)
  at_shard i f [] = []
  at_shard zero f (s ∷ ss) = f s ∷ ss
  at_shard (suc i) f (s ∷ ss) = s ∷ at_shard i f ss

  unfoldable pub nth_shard : ℕ → List (Shard V) → Option (Shard V)
  nth_shard i [] = none
  nth_shard zero (s ∷ ss) = some s
  nth_shard (suc i) (s ∷ ss) = nth_shard i ss

  -- `Weight`
  unfoldable pub sum_weights : List (Shard V) → ℕ
  sum_weights [] = 0
  sum_weights (s ∷ ss) = s.weight + sum_weights ss

  module _ (hash : Bytes → ℕ) where
    -- `shardOf`: the number of shards is a power of two, so the mask is a remainder.
    unfoldable pub shard_of : Bytes → Cache V → ℕ
    shard_of k c = hash k % length c.shards

    abbrev answer : ℕ → Bytes → Option (Shard V) → Option (Option V)
    answer now k none = none
    answer now k (some s) = (get now k s).0

    -- `Get`: the answer, and the cache after the touch.
    unfoldable pub cache_get : ℕ → Bytes → Cache V → Option (Option V) × Cache V
    unfolding at_shard nth_shard shard_of get
    cache_get now k c = (
      answer now k (nth_shard (shard_of k c) c.shards),
      record c { shards = at_shard (shard_of k c) (λ s. (get now k s).1) c.shards },
    )

    abbrev put_shard : Bytes → Option V → ℕ → ℕ → Cache V → Cache V
    put_shard k v weight expires c = record c {
      shards = at_shard (shard_of k c) (put k v weight expires) c.shards;
    }

    -- `Put`
    unfoldable pub cache_put : ℕ → Bytes → V → ℕ → Cache V → Cache V
    unfolding at_shard shard_of put expiry
    cache_put now k v weight c = put_shard k (some v) weight (expiry c.ttl now) c

    abbrev pub put_absent : ℕ → Bytes → ℤ → Cache V → Cache V
    put_absent now k (pos n) c = if n == 0 then c else put_shard k none 1 (now + n) c
    put_absent now k (negsuc n) c = c

    -- `PutNegative`
    unfoldable pub cache_put_negative : ℕ → Bytes → Cache V → Cache V
    unfolding at_shard shard_of put
    cache_put_negative now k c = put_absent now k (negative_ttl c.neg_ttl c.ttl) c

    -- `Remove`
    unfoldable pub cache_remove : Bytes → Cache V → Cache V
    unfolding at_shard shard_of remove
    cache_remove k c = record c { shards = at_shard (shard_of k c) (remove k) c.shards }

  abbrev cleared : List (Shard V) → List (Shard V)
  cleared [] = []
  cleared (s ∷ ss) = clear s ∷ cleared ss

  -- `Clear`
  unfoldable pub cache_clear : Cache V → Cache V
  unfolding clear
  cache_clear c = record c { shards = cleared c.shards }
