-- ===== src/Queue/Retention.antt =====
-- `Retry` and `Cancel` of `internal/queue/queue.go`: what they leave of a message.
use mailezine.Queue.Message.{Config, unix, Message, is_terminal, is_active}
use mailezine.Queue.Spool.Reads.{is_due-apply, row-apply}
use mailezine.Queue.Claim.{claim, claimed, is_live_claim}
use mailezine.Queue.Claim.Cases.{claim_free}
use mailezine.Queue.Outcome.{commit_outcome, holds_claim}
use mailezine.Queue.Process.{finish, untouched}
use mailezine.Prelude.{
  refl, ℕ, ◌≡◌, some, none, true, false, arith, ==_refl, if◌then◌else◌, ◌==◌, Option-cases,
  Bool-cases, inl, inr,
}
use mailezine.Queue.Spool.{Spool, row, ok, err, commit, is_due, being_delivered, already_terminal}
use mailezine.Queue.Admin.{retry, requeued, cancel}
use mailezine.Queue.Index.{IsIndexed}
use mailezine.Queue.Index.Administration.{cancel-Keeps}

-- `Retry` refuses a message in delivery and a message that is over, and leaves the spool; any other
-- message is queued again with its attempts at zero, and the other rows stay.
retry_cases :
    (now id : ℕ) (s : Spool) (cur : Message)
    → row s id ≡ some cur
    → (is_active cur.state ≡ true → retry now id s ≡ (err being_delivered, s))
      × (is_active cur.state ≡ false
          → is_terminal cur.state ≡ true
          → retry now id s ≡ (err already_terminal, s))
      × (is_active cur.state ≡ false
          → is_terminal cur.state ≡ false
          → ((retry now id s).0 ≡ ok tt)
            × ((j : ℕ)
                → row (retry now id s).1 j
                  ≡ (if id == j then some (requeued now cur) else row s j)))
unfolding retry
retry_cases now id s cur e = (
  λ a. rw (e, retry, a),
  λ a t. rw (e, retry, a, t),
  λ a t. (rw (e, retry, a, t), λ j. rw (e, retry, a, t) (unfold commit in simp row-apply)),
)

-- The place of the index that a retry writes.
retried-is_due :
    (now id : ℕ) (s : Spool) (cur : Message)
    → row s id ≡ some cur
    → is_active cur.state ≡ false
    → is_terminal cur.state ≡ false
    → is_due (retry now id s).1 (unix now) id ≡ true
unfolding retry commit
retried-is_due now id s cur e idle waits =
    rw (e, retry, idle, waits) (simp is_due-apply (ground arith))

dropped_outcome :
    (cfg : Config) (now id : ℕ) (s : Spool) (held out : Message)
    → row s id ≡ some held
    → is_active held.state ≡ false
    → out.id ≡ id
    → finish cfg now out (commit_outcome cfg now out s) ≡ untouched s
unfolding commit_outcome commit
dropped_outcome cfg now id s held out e idle same =
    let there : row s out.id ≡ some held = rw same e in
    let lost : holds_claim cfg held ≡ false = rw idle refl in rw (there, commit_outcome, lost) refl

-- A retry of a message that waits starts it over. The index then has it at the time of the retry; an
-- outcome of an earlier attempt, whoever brings it, is dropped; and the next claim, by any node
-- at any time, gets it with its first attempt counted, its body and its recipients as they were.
pub retry_restarts :
    (cfg late : Config) (now later id : ℕ) (s : Spool) (cur out : Message)
    → row s id ≡ some cur
    → is_active cur.state ≡ false
    → is_terminal cur.state ≡ false
    → out.id ≡ id
    → let s' = (retry now id s).1 in
      (is_due s' (unix now) id ≡ true)
      × (finish late later out (commit_outcome late later out s') ≡ untouched s')
      × (taken : Message) × ((claim cfg later id s').0 ≡ ok (some taken))
      × (taken.attempts ≡ 1)
      × (taken.owner ≡ cfg.node_id)
      × (taken.blob_id ≡ cur.blob_id)
      × (taken.recipients ≡ cur.recipients)
retry_restarts cfg late now later id s cur out e idle waits same =
    let held : row (retry now id s).1 id ≡ some (requeued now cur) =
      rw (((retry_cases now id s cur e).2 idle waits).1 id) (rw (==_refl id) refl) in
    let taken =
      claim_free cfg later id (retry now id s).1 (requeued now cur) held
        (unfold requeued is_terminal in refl) (unfold requeued is_live_claim in refl) in
    (
      retried-is_due now id s cur e idle waits,
      dropped_outcome late later id (retry now id s).1 (requeued now cur) out held
          (unfold requeued in refl) same,
      claimed cfg later (requeued now cur),
      rw taken refl,
      unfold claimed requeued in refl,
      unfold claimed in refl,
      unfold claimed requeued in refl,
      unfold claimed requeued in refl,
    )

cancelled_row :
    (id : ℕ) (s : Spool) (msg : Message) → (cancel id s).0 ≡ ok msg → row (cancel id s).1 id ≡ none
unfolding cancel commit
cancelled_row id s msg h = elim (Option-cases (row s id)) [
  | inl e ↦ absurd (cc (rw (e, cancel) at h))
  | inr (cur, e) ↦ elim (Bool-cases (is_active cur.state)) [
    | inl a ↦ absurd (cc (rw (e, cancel, a) at h))
    | inr idle ↦ rw (e, cancel, idle) (simp (row-apply, ==_refl))
  ]
]

-- A message that `Cancel` withdraws is gone: no row, and no place of the due index.
pub cancel_forgets :
    (id : ℕ) (s : Spool) (msg : Message)
    → IsIndexed s
    → (cancel id s).0 ≡ ok msg
    → (row (cancel id s).1 id ≡ none) × ((t : ℕ) → is_due (cancel id s).1 t id ≡ false)
cancel_forgets id s msg x h =
    let gone = cancelled_row id s msg h in
    (gone, λ t. ground (arith, (cancel-Keeps s id x).indexed.exact t id, gone))
