-- ===== src/Queue/Outcome/Progress.antt =====
-- Recipients across a delivery attempt of `internal/queue/queue.go`: what is settled stays so.
use mailezine.Prelude.{
  ℕ, ◌≡◌, refl, false, List, [], ◌∷◌, map, Option, none, some, arith, Option-cases, inl, inr,
  Bool-cases, leb,
}
use mailezine.Bytes.{Bytes}
use mailezine.Queue.Message.{Recipient, Message, Config}
use mailezine.Queue.Outcome.{
  Delivery, Reply, replies, transport_error, outcome, apply_transport_failure, finalize_state,
  is_pending, give_up, with_error, resolve, deliver_outcome, attempt_outcome, pending_addresses,
  reply_for,
}

-- The same recipients in the same order; a settled one is left as it is.
abbrev pub Progress : List Recipient → List Recipient → Type 0
Progress [] [] = Unit
Progress (r ∷ rs) (t ∷ ts) =
    (t.address ≡ r.address) × (is_pending r ≡ false → t ≡ r) × Progress rs ts
Progress _ _ = ⊥

Progress-refl : (rs : List Recipient) → Progress rs rs
Progress-refl [] = tt
Progress-refl (r ∷ rs) = (refl, λ h. refl, Progress-refl rs)

Progress-trans : (rs ts us : List Recipient) → Progress rs ts → Progress ts us → Progress rs us
Progress-trans [] [] [] h k = tt
Progress-trans (r ∷ rs) (t ∷ ts) (u ∷ us) h k =
    (cc (h.0, k.0), λ p. ground (arith, h.1, k.1, p), Progress-trans rs ts us h.2 k.2)
Progress-trans [] (t ∷ ts) us h k = absurd h
Progress-trans (r ∷ rs) [] us h k = absurd h
Progress-trans [] [] (u ∷ us) h k = absurd k
Progress-trans (r ∷ rs) (t ∷ ts) [] h k = absurd k

Progress-map :
    (f : Recipient → Recipient)
    → ((r : Recipient) → ((f r).address ≡ r.address) × (is_pending r ≡ false → f r ≡ r))
    → (rs : List Recipient) → Progress rs (map f rs)
Progress-map f h [] = tt
Progress-map f h (r ∷ rs) = ((h r).0, (h r).1, Progress-map f h rs)

give_up_step :
    (r : Recipient) → ((give_up r).address ≡ r.address) × (is_pending r ≡ false → give_up r ≡ r)
give_up_step r = (ground arith, λ h. ground (arith, h))

with_error_step :
    (e : Bytes) (r : Recipient)
    → ((with_error e r).address ≡ r.address) × (is_pending r ≡ false → with_error e r ≡ r)
with_error_step e r = (ground arith, λ h. ground (arith, h))

resolve_step :
    (res : List Reply) (r : Recipient)
    → ((resolve res r).address ≡ r.address) × (is_pending r ≡ false → resolve res r ≡ r)
resolve_step res r =
    (ground (arith, Option-cases (reply_for r.address res)), λ h. ground (arith, h))

module _ (jitter : ℕ → ℕ) (cfg : Config) (now : ℕ) where
  finalize-Progress :
      (msg : Message) → Progress msg.recipients (finalize_state jitter cfg now msg).recipients
  unfolding finalize_state
  finalize-Progress msg = elim (Bool-cases (leb msg.max_attempts msg.attempts)) [
    | inl last ↦
        ground
          (arith, Progress-refl msg.recipients, Progress-map give_up give_up_step msg.recipients)
    | inr more ↦ ground (arith, Progress-refl msg.recipients, more)
  ]

  transport-Progress :
      (e : Bytes) (msg : Message)
      → Progress msg.recipients (apply_transport_failure jitter cfg now e msg).recipients
  unfolding apply_transport_failure
  transport-Progress e msg =
      let marked = Progress-map (with_error e) (with_error_step e) msg.recipients in
      elim (Bool-cases (leb msg.max_attempts msg.attempts)) [
        | inl last ↦
            rw (apply_transport_failure, last)
              (Progress-trans _ _ _ marked
                (Progress-map give_up give_up_step (map (with_error e) msg.recipients)))
        | inr more ↦ rw (apply_transport_failure, more) marked
      ]

  deliver-Progress :
      (d : Delivery) (msg : Message)
      → Progress msg.recipients (deliver_outcome jitter cfg now d msg).recipients
  deliver-Progress (transport_error e) msg = transport-Progress e msg
  deliver-Progress (replies res) msg =
      Progress-trans _ _ _ (Progress-map (resolve res) (resolve_step res) msg.recipients)
        (finalize-Progress (record msg { recipients = map (resolve res) msg.recipients }))

  module _ (deliver : Bytes → List Bytes → Bytes → Delivery) where
    attempt-Progress :
        (body : Bytes) (msg : Message) (addrs : List Bytes)
        → Progress msg.recipients (attempt_outcome jitter cfg now deliver body msg addrs).recipients
    attempt-Progress body msg [] = finalize-Progress msg
    attempt-Progress body msg (a ∷ rest) = deliver-Progress (deliver msg.from (a ∷ rest) body) msg

    -- One attempt, whatever it meets, keeps the recipients and their order, and leaves a recipient
    -- that was already delivered or bounced exactly as it was.
    pub outcome-Progress :
        (body : Option Bytes) (msg : Message)
        → Progress msg.recipients (outcome jitter cfg now deliver body msg).recipients
    unfolding outcome
    outcome-Progress none msg = transport-Progress _ msg
    outcome-Progress (some body) msg = attempt-Progress body msg (pending_addresses msg.recipients)
