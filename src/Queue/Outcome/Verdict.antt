-- ===== src/Queue/Outcome/Verdict.antt =====
-- The state that an outcome gives a message (`finalizeState`, `applyTransportFailure` of
-- `internal/queue/queue.go`), from its recipients alone.
use mailezine.Prelude.{
  ℕ, ◌+◌, ◌≡◌, refl, true, List, [], ◌∷◌, map, Option, none, some, arith, if◌then◌else◌, ◌==◌, ◌≤◌,
  length, ◌≢◌,
}
use mailezine.Bytes.{Bytes}
use mailezine.Queue.Message.{
  State, delivered, bounced, deferred, Recipient, Message, Config, is_terminal,
}
use mailezine.Queue.Outcome.{
  Delivery, replies, transport_error, outcome, apply_transport_failure, finalize_state, give_up,
  with_error, count_pending, count_bounced, pending_addresses, resolve, deliver_outcome,
  attempt_outcome,
}

-- Every recipient delivered, every recipient settled, or some still waiting.
abbrev pub verdict : List Recipient → State
verdict rs =
    if count_pending rs == 0
    then (if count_bounced rs == 0 then delivered else bounced)
    else deferred

count_pending-give_up : (rs : List Recipient) → count_pending (map give_up rs) ≡ 0
unfolding count_pending
count_pending-give_up [] = refl
count_pending-give_up (r ∷ rs) = ground (arith, count_pending-give_up rs)

count_bounced-give_up :
    (rs : List Recipient) → count_bounced (map give_up rs) ≡ count_bounced rs + count_pending rs
unfolding count_pending count_bounced
count_bounced-give_up [] = omega arith
count_bounced-give_up (r ∷ rs) = ground (arith, count_bounced-give_up rs)

count_pending-with_error :
    (e : Bytes) (rs : List Recipient) → count_pending (map (with_error e) rs) ≡ count_pending rs
unfolding count_pending
count_pending-with_error e [] = refl
count_pending-with_error e (r ∷ rs) = ground (arith, count_pending-with_error e rs)

length-pending_addresses : (rs : List Recipient) → length (pending_addresses rs) ≡ count_pending rs
unfolding count_pending pending_addresses
length-pending_addresses [] = refl
length-pending_addresses (r ∷ rs) = ground (arith, length-pending_addresses rs)

module _ (jitter : ℕ → ℕ) (cfg : Config) (now : ℕ) where
  finalize-verdict :
      (msg : Message)
      → let out = finalize_state jitter cfg now msg in out.state ≡ verdict out.recipients
  unfolding finalize_state
  finalize-verdict msg =
      ground (arith, count_pending-give_up msg.recipients, count_bounced-give_up msg.recipients)

  transport-verdict :
      (e : Bytes) (msg : Message)
      → count_pending msg.recipients ≢ 0
      → let out = apply_transport_failure jitter cfg now e msg in out.state ≡ verdict out.recipients
  unfolding apply_transport_failure
  transport-verdict e msg some_pending = ground (
    arith,
    count_pending-give_up (map (with_error e) msg.recipients),
    count_bounced-give_up (map (with_error e) msg.recipients),
    count_pending-with_error e msg.recipients,
    some_pending,
  )

  deliver-verdict :
      (d : Delivery) (msg : Message)
      → count_pending msg.recipients ≢ 0
      → let out = deliver_outcome jitter cfg now d msg in out.state ≡ verdict out.recipients
  deliver-verdict (transport_error e) msg h = transport-verdict e msg h
  deliver-verdict (replies res) msg h =
      finalize-verdict (record msg { recipients = map (resolve res) msg.recipients })

  module _ (deliver : Bytes → List Bytes → Bytes → Delivery) where
    attempt-verdict :
        (body : Bytes) (msg : Message) (addrs : List Bytes)
        → length addrs ≡ count_pending msg.recipients
        → let out = attempt_outcome jitter cfg now deliver body msg addrs in
          out.state ≡ verdict out.recipients
    attempt-verdict body msg [] h = finalize-verdict msg
    attempt-verdict body msg (a ∷ rest) h =
        deliver-verdict (deliver msg.from (a ∷ rest) body) msg (omega arith)

    -- When the body could be read, whatever the network answered: the message is delivered if
    -- every recipient is, bounced if every recipient is settled and one was refused, and deferred
    -- if and only if a recipient is still waiting.
    pub outcome-verdict :
        (body : Bytes) (msg : Message)
        → let out = outcome jitter cfg now deliver (some body) msg in
          out.state ≡ verdict out.recipients
    unfolding outcome
    outcome-verdict body msg =
        attempt-verdict body msg (pending_addresses msg.recipients)
          (length-pending_addresses msg.recipients)

    finalize_exhausted :
        (msg : Message)
        → msg.max_attempts ≤ msg.attempts
        → let out = finalize_state jitter cfg now msg in
          (is_terminal out.state ≡ true) × (count_pending out.recipients ≡ 0)
    unfolding finalize_state is_terminal
    finalize_exhausted msg h = ground (arith, count_pending-give_up msg.recipients, h)

    transport_exhausted :
        (e : Bytes) (msg : Message)
        → msg.max_attempts ≤ msg.attempts
        → let out = apply_transport_failure jitter cfg now e msg in
          (is_terminal out.state ≡ true) × (count_pending out.recipients ≡ 0)
    unfolding apply_transport_failure is_terminal
    transport_exhausted e msg h =
        ground (arith, count_pending-give_up (map (with_error e) msg.recipients), h)

    deliver_exhausted :
        (d : Delivery) (msg : Message)
        → msg.max_attempts ≤ msg.attempts
        → let out = deliver_outcome jitter cfg now d msg in
          (is_terminal out.state ≡ true) × (count_pending out.recipients ≡ 0)
    deliver_exhausted (transport_error e) msg h = transport_exhausted e msg h
    deliver_exhausted (replies res) msg h =
        finalize_exhausted (record msg { recipients = map (resolve res) msg.recipients }) h

    attempt_exhausted :
        (body : Bytes) (msg : Message) (addrs : List Bytes)
        → msg.max_attempts ≤ msg.attempts
        → let out = attempt_outcome jitter cfg now deliver body msg addrs in
          (is_terminal out.state ≡ true) × (count_pending out.recipients ≡ 0)
    attempt_exhausted body msg [] h = finalize_exhausted msg h
    attempt_exhausted body msg (a ∷ rest) h =
        deliver_exhausted (deliver msg.from (a ∷ rest) body) msg h

    -- An attempt that reaches the bound on attempts is the last: the message is over and no
    -- recipient is left waiting, whether the body was readable and whatever the network answered.
    pub outcome_exhausted :
        (body : Option Bytes) (msg : Message)
        → msg.max_attempts ≤ msg.attempts
        → let out = outcome jitter cfg now deliver body msg in
          (is_terminal out.state ≡ true) × (count_pending out.recipients ≡ 0)
    unfolding outcome
    outcome_exhausted none msg h = transport_exhausted _ msg h
    outcome_exhausted (some body) msg h =
        attempt_exhausted body msg (pending_addresses msg.recipients) h
