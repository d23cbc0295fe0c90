-- ===== src/Lease/Exclusion.antt =====
-- One holder at a time (`internal/kvlease/lease.go`), over any engine that keeps the laws of
-- `Store.Kv`.
use mailezine.Prelude.{
  ap, ◌∙◌, ℕ, ◌+◌, ◌≡◌, refl, [], ◌∷◌, Option, true, ◌≢◌, ◌<◌, arith, Option-cases, inl, inr,
  Bool-cases,
}
use mailezine.Bytes.{Bytes, bytes_eq, bytes_eq_iff}
use mailezine.Store.Kv.{Kv, put_op, after_ops}
use mailezine.Store.WriteBuf
use mailezine.Store.WriteBuf.{Result, ok, err, with_txn, fresh, stage, WriteBuf}
use mailezine.Bytes.Assoc
use mailezine.Lease.{
  Lease, Codec, take_it, acquire, release, Held, acquire_txn, release_txn, some, acquire_read,
  release_read, false, is_foreign,
}

module _ (kv : Kv) (codec : Codec) where
  open codec use {encode, decode}

  -- Who holds the lease, as the engine has it.
  abbrev pub holder : Lease → kv.State → Option Bytes
  holder l s = kv.get s l.key

  get_fresh : (s : kv.State) (k : Bytes) → WriteBuf.get kv (fresh kv s) k ≡ kv.get s k
  unfolding WriteBuf.get fresh Assoc.get
  get_fresh s k = refl

  take_it-state :
      (l : Lease) (now : ℕ) (s : kv.State)
      → WriteBuf.commit kv s (take_it kv codec l now (fresh kv s)) ≡ (
        ok true,
        kv.batch s (put_op l.key (encode (record { owner = l.owner; until = now + l.ttl })) ∷ []),
      )
  unfolding WriteBuf.put fresh stage Assoc.get
  take_it-state l now s = refl

  acquire_as :
      (l : Lease) (now : ℕ) (s : kv.State)
      → acquire kv codec l now s
        ≡ WriteBuf.commit kv s (acquire_read kv codec l now (fresh kv s) (kv.get s l.key))
  unfolding acquire acquire_txn with_txn
  acquire_as l now s = rw (get_fresh s l.key) refl

  release_as :
      (l : Lease) (s : kv.State)
      → release kv codec l s
        ≡ WriteBuf.commit kv s (release_read kv codec l (fresh kv s) (kv.get s l.key))
  unfolding release release_txn with_txn
  release_as l s = rw (get_fresh s l.key) refl

  taken : Lease → ℕ → Bytes
  taken l now = encode (record { owner = l.owner; until = now + l.ttl })

  get-take_it :
      (l : Lease) (now : ℕ) (s : kv.State)
      → kv.get (WriteBuf.commit kv s (take_it kv codec l now (fresh kv s))).1 l.key
        ≡ some (taken l now)
  unfolding after_ops taken
  get-take_it l now s =
      ap (λ p. kv.get p.1 l.key) (take_it-state l now s)
      ∙ kv.get-batch s _ l.key
      ∙ ground (arith, bytes_eq_iff l.key l.key)

  get-idle : (s : kv.State) (k : Bytes) → kv.get (kv.batch s (fresh kv s).ops) k ≡ kv.get s k
  unfolding fresh after_ops
  get-idle s k = kv.get-batch s [] k

  -- An owner that acquires the lease is its holder then, until the end of its time to live.
  pub acquire-holder :
      (l : Lease) (now : ℕ) (s : kv.State)
      → (acquire kv codec l now s).0 ≡ ok true
      → holder l (acquire kv codec l now s).1
        ≡ some (encode (record { owner = l.owner; until = now + l.ttl }))
  unfolding taken
  acquire-holder l now s h = elim (Option-cases (kv.get s l.key)) [
    | inl free ↦ rw (acquire_as l now s, free) (get-take_it l now s)
    | inr (v, e) ↦ elim (Option-cases (decode v)) [
      | inl bad ↦ absurd (cc (rw (acquire_as l now s, e, bad) at h))
      | inr (cur, d) ↦ elim (Bool-cases (is_foreign l now cur)) [
        | inl foreign ↦ absurd (cc (rw (acquire_as l now s, e, d, foreign) at h))
        | inr open_now ↦ rw (acquire_as l now s, e, d, open_now) (get-take_it l now s)
      ]
    ]
  ]

  -- While a lease lasts that one owner acquired, another owner's attempt on the same key is refused,
  -- and the holder stays.
  pub acquire_exclusive :
      (a b : Lease) (now later : ℕ) (s : kv.State)
      → b.key ≡ a.key
      → a.owner ≢ b.owner
      → later < now + a.ttl
      → (acquire kv codec a now s).0 ≡ ok true
      → ((acquire kv codec b later (acquire kv codec a now s).1).0 ≡ ok false)
        × (holder a (acquire kv codec b later (acquire kv codec a now s).1).1
            ≡ holder a (acquire kv codec a now s).1)
  acquire_exclusive a b now later s same other soon h =
      let s' = (acquire kv codec a now s).1 in
      let held = acquire-holder a now s h in
      let e : kv.get s' b.key ≡ some (encode (record { owner = a.owner; until = now + a.ttl })) =
        rw same held in
      let d = codec.decode-encode (record { owner = a.owner; until = now + a.ttl }) in
      let foreign : is_foreign b later (record { owner = a.owner; until = now + a.ttl }) ≡ true =
        ground (arith, soon, bytes_eq_iff a.owner b.owner, other) in
      (
        rw (acquire_as b later s', e, d, foreign) refl,
        rw (acquire_as b later s', e, d, foreign) (get-idle s' a.key),
      )

  -- An owner that does not hold the lease cannot release it: the record stays.
  pub release_foreign :
      (l : Lease) (s : kv.State) (cur : Held)
      → holder l s ≡ some (encode cur)
      → cur.owner ≢ l.owner
      → ((release kv codec l s).0 ≡ ok tt) × (holder l (release kv codec l s).1 ≡ holder l s)
  release_foreign l s cur e other =
      let d = codec.decode-encode cur in
      let foreign : bytes_eq cur.owner l.owner ≡ false =
        ground (arith, bytes_eq_iff cur.owner l.owner, other) in
      (
        rw (release_as l s, e, d, foreign) refl,
        rw (release_as l s, e, d, foreign) (get-idle s l.key ∙ e),
      )
