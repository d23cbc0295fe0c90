-- ===== src/Queue/Outcome/Facts.antt =====
-- What an outcome (`processMessage` of `internal/queue/queue.go`) leaves of the claimed message,
-- and how the recipients are counted.
use mailezine.Prelude.{ℕ, ◌≡◌, false, List, [], ◌∷◌, map, Option, none, some, arith}
use mailezine.Bytes.{Bytes}
use mailezine.Queue.Message.{Message, Config, is_active, Recipient}
use mailezine.Queue.Outcome.{
  Delivery, replies, transport_error, outcome, apply_transport_failure, finalize_state,
  pending_addresses, resolve, attempt_outcome, deliver_outcome,
}

-- The same message with the same claim, and no longer in delivery.
pub record Settles (msg out : Message) : Type 0 where
  pub id : out.id ≡ msg.id
  pub owner : out.owner ≡ msg.owner
  pub lease : out.lease_until ≡ msg.lease_until
  pub blob : out.blob_id ≡ msg.blob_id
  pub attempts : out.attempts ≡ msg.attempts
  pub bound : out.max_attempts ≡ msg.max_attempts
  pub idle : is_active out.state ≡ false

module _ (jitter : ℕ → ℕ) (cfg : Config) (now : ℕ) (msg : Message) where
  transport-Settles : (e : Bytes) → Settles msg (apply_transport_failure jitter cfg now e msg)
  unfolding apply_transport_failure
  transport-Settles e = ground arith

  finalize-Settles :
      (rs : List Recipient)
      → Settles msg (finalize_state jitter cfg now (record msg { recipients = rs }))
  unfolding finalize_state
  finalize-Settles rs = ground arith

  deliver-Settles : (d : Delivery) → Settles msg (deliver_outcome jitter cfg now d msg)
  deliver-Settles (transport_error e) = transport-Settles e
  deliver-Settles (replies res) = finalize-Settles (map (resolve res) msg.recipients)

  module _ (deliver : Bytes → List Bytes → Bytes → Delivery) where
    attempt-Settles :
        (body : Bytes) (addrs : List Bytes)
        → Settles msg (attempt_outcome jitter cfg now deliver body msg addrs)
    attempt-Settles body [] = finalize-Settles msg.recipients
    attempt-Settles body (a ∷ rest) = deliver-Settles (deliver msg.from (a ∷ rest) body)

    -- An outcome keeps the message's identity, claim and counts, and takes it out of delivery.
    pub outcome-Settles :
        (body : Option Bytes) → Settles msg (outcome jitter cfg now deliver body msg)
    unfolding outcome
    outcome-Settles none = transport-Settles _
    outcome-Settles (some body) = attempt-Settles body (pending_addresses msg.recipients)
