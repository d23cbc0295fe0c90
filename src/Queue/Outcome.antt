-- ===== src/Queue/Outcome.antt =====
-- `internal/queue/queue.go` and `delay.go`: what a worker does with a claimed message. `deliver` is
-- the `Deliverer`, the network's side, and answers each attempt.
pub mod Facts
pub mod Verdict
pub mod Progress
use mailezine.Prelude.{
  ℕ, suc, ◌+◌, Bool, true, false, List, [], ◌∷◌, map, Option, none, some, if◌then◌else◌, leb, ◌==◌,
  ◌&&◌,
}
use mailezine.Prelude.Int.{pos, negsuc, ℤ}
use mailezine.Bytes.{Bytes, bytes_eq}
use mailezine.Store.Key.{codes}
use mailezine.Queue.Message.{
  delivered, deferred, bounced, RecipientStatus, Recipient, Message, Config, Time, unix,
  is_terminal, due_pos, backoff, is_active,
}
use mailezine.Queue.Spool.{
  Spool, SpoolOp, put_row, put_due, delete_due, row, Result, ok, err, settle, not_found,
}

-- `Result`: the outcome for one recipient.
pub record Reply : Type 0 where
  pub to : Bytes
  pub ok : Bool
  pub permanent : Bool
  pub error : Option Bytes

-- What `Deliver` returns.
pub data Delivery : Type 0 where
  replies : List Reply → Delivery
  transport_error : Bytes → Delivery

abbrev pub is_pending : Recipient → Bool
is_pending r = elim r.status [ RecipientStatus.pending ↦ true | _ ↦ false ]

-- `resultError`
unfoldable pub reply_error : Reply → Bytes
reply_error res = elim res.error [ none ↦ codes "delivery failed" | some e ↦ e ]

abbrev with_error : Bytes → Recipient → Recipient
with_error e r = if is_pending r then record r { last_error = e } else r

abbrev pub give_up : Recipient → Recipient
give_up r = if is_pending r then record r { status = RecipientStatus.bounced } else r

-- `applyTransportFailure`
unfoldable pub apply_transport_failure : (ℕ → ℕ) → Config → Time → Bytes → Message → Message
unfolding backoff
apply_transport_failure jitter cfg now e msg =
    let failed = record msg { recipients = map (with_error e) msg.recipients; last_error = e } in
    if leb msg.max_attempts msg.attempts
    then record failed { recipients = map give_up failed.recipients; state = bounced }
    else record failed { state = deferred; next_attempt = now + backoff jitter cfg msg.attempts }

unfoldable pub count_pending : List Recipient → ℕ
count_pending [] = 0
count_pending (r ∷ rs) = let n = count_pending rs in if is_pending r then suc n else n

unfoldable pub count_bounced : List Recipient → ℕ
count_bounced [] = 0
count_bounced (r ∷ rs) =
    let n = count_bounced rs in elim r.status [ RecipientStatus.bounced ↦ suc n | _ ↦ n ]

-- `finalizeState`
unfoldable pub finalize_state : (ℕ → ℕ) → Config → Time → Message → Message
unfolding backoff
finalize_state jitter cfg now msg =
    if (count_pending msg.recipients == 0) && (count_bounced msg.recipients == 0)
    then record msg { state = delivered; last_error = [] }
    else if count_pending msg.recipients == 0
    then record msg { state = bounced }
    else if leb msg.max_attempts msg.attempts
    then record msg { recipients = map give_up msg.recipients; state = bounced }
    else record msg { state = deferred; next_attempt = now + backoff jitter cfg msg.attempts }

-- `byAddr[address]`: the last reply for an address counts.
unfoldable pub reply_for : Bytes → List Reply → Option Reply
reply_for addr [] = none
reply_for addr (res ∷ rest) = elim (reply_for addr rest) [
  | some later ↦ some later
  | none ↦ if bytes_eq res.to addr then some res else none
]

abbrev pub after_reply : Recipient → Option Reply → Recipient
after_reply r none = r
after_reply r (some res) =
    if res.ok
    then record r { status = RecipientStatus.delivered }
    else if res.permanent
    then record r { last_error = reply_error res; status = RecipientStatus.bounced }
    else record r { last_error = reply_error res }

-- One round of the loop over the recipients.
abbrev pub resolve : List Reply → Recipient → Recipient
resolve res r = if is_pending r then after_reply r (reply_for r.address res) else r

unfoldable pub pending_addresses : List Recipient → List Bytes
pending_addresses [] = []
pending_addresses (r ∷ rs) =
    let rest = pending_addresses rs in if is_pending r then r.address ∷ rest else rest

abbrev deliver_outcome : (ℕ → ℕ) → Config → Time → Delivery → Message → Message
deliver_outcome jitter cfg now (transport_error e) msg =
    apply_transport_failure jitter cfg now e msg
deliver_outcome jitter cfg now (replies res) msg =
    finalize_state jitter cfg now (record msg { recipients = map (resolve res) msg.recipients })

abbrev attempt_outcome :
    (ℕ → ℕ)
    → Config
    → Time
    → (Bytes → List Bytes → Bytes → Delivery)
    → Bytes
    → Message
    → List Bytes
    → Message
attempt_outcome jitter cfg now deliver body msg [] = finalize_state jitter cfg now msg
attempt_outcome jitter cfg now deliver body msg (a ∷ rest) =
    deliver_outcome jitter cfg now (deliver msg.from (a ∷ rest) body) msg

abbrev body_outcome :
    (ℕ → ℕ)
    → Config
    → Time
    → (Bytes → List Bytes → Bytes → Delivery)
    → Option Bytes
    → Message
    → Message
body_outcome jitter cfg now deliver none msg =
    apply_transport_failure jitter cfg now (codes "blob read") msg
body_outcome jitter cfg now deliver (some body) msg =
    attempt_outcome jitter cfg now deliver body msg (pending_addresses msg.recipients)

-- The message as `processMessage` makes it from a claimed one: an unreadable body, nothing left to
-- deliver, a transport failure, or a reply for each recipient.
unfoldable pub outcome :
    (ℕ → ℕ)
    → Config
    → Time
    → (Bytes → List Bytes → Bytes → Delivery)
    → Option Bytes
    → Message
    → Message
unfolding apply_transport_failure finalize_state
outcome jitter cfg now deliver body msg = body_outcome jitter cfg now deliver body msg

-- `cur.State != StateActive || cur.Owner != m.nodeID` does not hold.
abbrev pub holds_claim : Config → Message → Bool
holds_claim cfg cur = is_active cur.state && bytes_eq cur.owner cfg.node_id

abbrev pub outcome_ops : Message → List SpoolOp
outcome_ops msg =
    put_row msg.id msg
    ∷ (if is_terminal msg.state
        then delete_due (unix msg.lease_until) msg.id ∷ []
        else delete_due (unix msg.lease_until) msg.id ∷ put_due (unix (due_pos msg)) msg.id ∷ [])

abbrev pub outcome_row : Config → Time → Message → Option Message → Result (Bool × List SpoolOp)
outcome_row cfg now msg none = err not_found
outcome_row cfg now msg (some cur) =
    if holds_claim cfg cur
    then ok (true, outcome_ops (record msg { updated_at = now }))
    else ok (false, [])

-- The transaction of `commitOutcome`: whether the outcome was recorded.
unfoldable pub commit_outcome : Config → Time → Message → Spool → Result Bool × Spool
commit_outcome cfg now msg s = settle s (outcome_row cfg now msg (row s msg.id))

-- `BounceFailure`, its fixed status code left out: the address and the last error.
abbrev pub BounceFailure : Type 0
BounceFailure = Bytes × Bytes

unfoldable pub failures : List Recipient → List BounceFailure
failures [] = []
failures (r ∷ rs) =
    let rest = failures rs in
    elim r.status [ RecipientStatus.bounced ↦ (r.address, r.last_error) ∷ rest | _ ↦ rest ]

-- `maybeBounce`: the failures that the bounce handler is given; none, and it is not called.
unfoldable pub maybe_bounce : Message → List BounceFailure
unfolding failures
maybe_bounce msg = elim msg.state [ bounced ↦ failures msg.recipients | _ ↦ [] ]

abbrev pub warning_due : ℕ → Time → Message → Bool
warning_due interval now msg =
    leb (msg.created_at + interval) now
    && (if msg.last_warning_at == 0 then true else leb (msg.last_warning_at + interval) now)

abbrev pub warn_after : ℤ → Time → Message → Option Message
warn_after (pos n) now msg =
    if n == 0
    then none
    else if warning_due n now msg
    then some (record msg { last_warning_at = now })
    else none
warn_after (negsuc n) now msg = none

-- `maybeDelayWarning` with a handler installed: the message that it saves, if it warns.
unfoldable pub maybe_delay_warning : Config → Time → Message → Option Message
maybe_delay_warning cfg now msg = warn_after cfg.delay_warning now msg
