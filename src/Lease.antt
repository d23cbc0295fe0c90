-- ===== src/Lease.antt =====
-- `internal/kvlease/lease.go`: a named lease in the key-value store, over any engine (`Store.Kv`) and
-- its write buffer. `encode` and `decode` are `json.Marshal` and `json.Unmarshal` of a lease record.
pub mod Exclusion
use mailezine.Prelude.{
  ℕ, ◌+◌, Bool, true, false, List, [], ◌∷◌, Option, none, some, if◌then◌else◌, ltb, not, ◌&&◌, ◌≡◌,
}
use mailezine.Prelude.Int.{ℤ, positive_or}
use mailezine.Bytes.{Bytes, bytes_eq}
use mailezine.Store.Key.{codes, meta_lease_key}
use mailezine.Store.Kv.{Kv}
use mailezine.Store.WriteBuf
use mailezine.Store.WriteBuf.{WriteBuf, Result, ok, err, with_txn}

-- `record`
pub record Held : Type 0 where
  pub owner : Bytes
  pub until : ℕ

-- `Lease`: its key, its owner, and how long a claim lasts.
pub record Lease : Type 0 where
  pub key : Bytes
  pub owner : Bytes
  pub ttl : ℕ

-- `New`; a minute is the least that a non-positive time to live becomes.
unfoldable pub new : Bytes → Bytes → ℤ → Lease
unfolding meta_lease_key
new name owner ttl = record {
  key = meta_lease_key name;
  owner = owner;
  ttl = positive_or ttl 60_000_000_000;
}

-- What the decoder and the encoder of the record are.
pub record Codec : Type 0 where
  pub encode : Held → Bytes
  pub decode : Bytes → Option Held
  pub decode-encode : (h : Held) → decode (encode h) ≡ some h

-- `cur.Owner != l.owner && cur.Until.After(now)`
abbrev pub is_foreign : Lease → ℕ → Held → Bool
is_foreign l now cur = not (bytes_eq cur.owner l.owner) && ltb now cur.until

module _ (kv : Kv) (codec : Codec) where
  open codec use {encode, decode}

  abbrev pub take_it : Lease → ℕ → WriteBuf kv → Result (Bool × WriteBuf kv)
  take_it l now t =
      ok (true, WriteBuf.put kv t l.key (encode (record { owner = l.owner; until = now + l.ttl })))

  abbrev pub acquire_decoded : Lease → ℕ → WriteBuf kv → Option Held → Result (Bool × WriteBuf kv)
  acquire_decoded l now t none = err (codes "json")
  acquire_decoded l now t (some cur) =
      if is_foreign l now cur then ok (false, t) else take_it l now t

  abbrev pub acquire_read : Lease → ℕ → WriteBuf kv → Option Bytes → Result (Bool × WriteBuf kv)
  acquire_read l now t none = take_it l now t
  acquire_read l now t (some v) = acquire_decoded l now t (decode v)

  -- The closure of `Acquire`.
  unfoldable pub acquire_txn : Lease → ℕ → WriteBuf kv → Result (Bool × WriteBuf kv)
  unfolding WriteBuf.get WriteBuf.put
  acquire_txn l now t = acquire_read l now t (WriteBuf.get kv t l.key)

  -- `Acquire`: whether this owner holds the lease.
  unfoldable pub acquire : Lease → ℕ → kv.State → Result Bool × kv.State
  unfolding acquire_txn with_txn
  acquire l now s = with_txn kv (acquire_txn l now) s

  abbrev pub release_decoded : Lease → WriteBuf kv → Option Held → Result (Unit {0} × WriteBuf kv)
  release_decoded l t none = err (codes "json")
  release_decoded l t (some cur) =
      if bytes_eq cur.owner l.owner then ok (tt, WriteBuf.delete kv t l.key) else ok (tt, t)

  abbrev pub release_read : Lease → WriteBuf kv → Option Bytes → Result (Unit {0} × WriteBuf kv)
  release_read l t none = ok (tt, t)
  release_read l t (some v) = release_decoded l t (decode v)

  -- The closure of `Release`.
  unfoldable pub release_txn : Lease → WriteBuf kv → Result (Unit {0} × WriteBuf kv)
  unfolding WriteBuf.get WriteBuf.delete
  release_txn l t = release_read l t (WriteBuf.get kv t l.key)

  -- `Release`
  unfoldable pub release : Lease → kv.State → Result (Unit {0}) × kv.State
  unfolding release_txn with_txn
  release l s = with_txn kv (release_txn l) s
