-- ===== src/MailCache.antt =====
-- `internal/mailcache/lru.go`: one shard of the cache, least recently used last. The list carries the
-- entries themselves, so the map from keys to list elements is a search of it. A weight is a number of
-- bytes, and no sum of weights reaches 2^63.
pub mod Bounds
pub mod Recency
pub mod Sharding
use mailezine.Prelude.{
  ℕ, zero, suc, ◌+◌, ◌-◌, Bool, true, false, List, [], ◌∷◌, Option, none, some, if◌then◌else◌, ltb,
  ◌==◌, not, ◌&&◌, length,
}
use mailezine.Bytes.{Bytes, bytes_eq}

-- `entry`: `expires` is 0 for the zero time, and a negative entry has no value.
pub record Entry (V : Type 0) : Type 0 where
  pub key : Bytes
  pub value : Option V
  pub weight : ℕ
  pub expires : ℕ

-- `cacheShard`
pub record Shard (V : Type 0) : Type 0 where
  pub max : ℕ
  pub weight : ℕ
  pub ll : List (Entry V)

-- An entry's footprint: its value and a fixed part.
abbrev pub footprint : Bytes → ℕ → ℕ
footprint k w = w + 64 + length k

module _ {V : Type 0} where
  -- `s.items[key]`
  unfoldable pub find : Bytes → List (Entry V) → Option (Entry V)
  find k [] = none
  find k (e ∷ es) = if bytes_eq e.key k then some e else find k es

  -- `s.ll.Remove(el)` for the element of a key.
  unfoldable pub unlink : Bytes → List (Entry V) → List (Entry V)
  unlink k [] = []
  unlink k (e ∷ es) = let rest = unlink k es in if bytes_eq e.key k then es else e ∷ rest

  -- `removeLocked`
  unfoldable pub remove_locked : Entry V → Shard V → Shard V
  unfolding unlink
  remove_locked e s = record s { ll = unlink e.key s.ll; weight = s.weight - e.weight }

  abbrev pub has_expired : ℕ → Entry V → Bool
  has_expired now e = not (e.expires == 0) && ltb e.expires now

  abbrev touched : Entry V → Shard V → Shard V
  touched e s = record s { ll = e ∷ unlink e.key s.ll }

  abbrev get_found : ℕ → Shard V → Option (Entry V) → Option (Option V) × Shard V
  get_found now s none = (none, s)
  get_found now s (some e) =
      if has_expired now e then (none, remove_locked e s) else (some e.value, touched e s)

  -- `get`: no answer, or a hit, whose value is absent for a negative entry.
  unfoldable pub get : ℕ → Bytes → Shard V → Option (Option V) × Shard V
  unfolding find remove_locked
  get now k s = get_found now s (find k s.ll)

  -- `s.ll.Back()` and the entries before it.
  unfoldable pub split_back : Entry V → List (Entry V) → List (Entry V) × Entry V
  split_back e [] = ([], e)
  split_back e (f ∷ es) = let back = split_back f es in (e ∷ back.0, back.1)

  abbrev pub drop_back : Shard V → List (Entry V) → Shard V
  drop_back s [] = s
  drop_back s (e ∷ es) =
      let back = split_back e es in record s { ll = back.0; weight = s.weight - back.1.weight }

  -- The loop of `put`, with `rounds` rounds left.
  unfoldable pub evict : ℕ → Shard V → Shard V
  unfolding split_back
  evict zero s = s
  evict (suc rounds) s =
      let next = evict rounds (drop_back s s.ll) in if ltb s.max s.weight then next else s

  abbrev pub stored : Entry V → Shard V → Option (Entry V) → Shard V
  stored new s none = record s { ll = new ∷ s.ll; weight = s.weight + new.weight }
  stored new s (some old) = record s {
    ll = new ∷ unlink new.key s.ll;
    weight = s.weight + new.weight - old.weight;
  }

  abbrev evicted : Shard V → Shard V
  evicted s = evict (length s.ll) s

  abbrev pub new_entry : Bytes → Option V → ℕ → ℕ → Entry V
  new_entry k v w expires = record { key = k; value = v; weight = footprint k w; expires = expires }

  -- `put`; the loop gets a round for each entry.
  unfoldable pub put : Bytes → Option V → ℕ → ℕ → Shard V → Shard V
  unfolding evict find unlink
  put k v w expires s = evicted (stored (new_entry k v w expires) s (find k s.ll))

  abbrev remove_found : Shard V → Option (Entry V) → Shard V
  remove_found s none = s
  remove_found s (some e) = remove_locked e s

  -- `remove`
  unfoldable pub remove : Bytes → Shard V → Shard V
  unfolding find remove_locked
  remove k s = remove_found s (find k s.ll)

  -- One shard's part of `Clear`.
  unfoldable pub clear : Shard V → Shard V
  clear s = record s { ll = []; weight = 0 }
