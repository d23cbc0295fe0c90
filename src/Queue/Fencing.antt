-- ===== src/Queue/Fencing.antt =====
-- `claim` and `commitOutcome` of `internal/queue/queue.go` between nodes: who may deliver a message,
-- and whose outcome counts.
use mailezine.Prelude.{ℕ, ◌+◌, ◌≡◌, ◌≢◌, refl, some, false, arith, ==_refl}
use mailezine.Bytes.{bytes_eq_iff}
use mailezine.Queue.Message.{active, Message, Config}
use mailezine.Queue.Spool.{commit, Spool, row, ok}
use mailezine.Queue.Claim.{claim, claimed}
use mailezine.Queue.Claim.Cases.{claim-Took}
use mailezine.Queue.Outcome.{commit_outcome, holds_claim}
use mailezine.Queue.Process.{finish, untouched}

-- The row after a claim that succeeded.
pub claimed_row :
    (cfg : Config) (now id : ℕ) (s : Spool) (msg : Message)
    → (claim cfg now id s).0 ≡ ok (some msg)
    → row (claim cfg now id s).1 id ≡ some msg
claimed_row cfg now id s msg h =
    let took = claim-Took cfg now id s msg h in rw (took.rows id) (rw (==_refl id))

-- The message that a claim hands out is active, owned by the claiming node until the lease ends, and
-- counts one attempt more than before.
pub claim-grants :
    (cfg : Config) (now id : ℕ) (s : Spool) (msg before : Message)
    → row s id ≡ some before
    → (claim cfg now id s).0 ≡ ok (some msg)
    → (msg.state ≡ active)
      × (msg.owner ≡ cfg.node_id)
      × (msg.lease_until ≡ now + cfg.lease)
      × (msg.attempts ≡ before.attempts + 1)
      × (row (claim cfg now id s).1 id ≡ some msg)
unfolding claimed
claim-grants cfg now id s msg before e h =
    let took = claim-Took cfg now id s msg h in
    let same : took.before ≡ before = cc (took.found, e) in
    ground (arith, took.taken, same, claimed_row cfg now id s msg h)

-- Once a node has claimed a message, an outcome that another node still brings for it is dropped:
-- nothing is written, no body is deleted, no one is told.
pub late_outcome_dropped :
    (late thief : Config) (now later id : ℕ) (s : Spool) (stolen out : Message)
    → (claim thief now id s).0 ≡ ok (some stolen)
    → late.node_id ≢ thief.node_id
    → out.id ≡ id
    → finish late later out (commit_outcome late later out (claim thief now id s).1)
      ≡ untouched (claim thief now id s).1
unfolding commit_outcome commit
late_outcome_dropped late thief now later id s stolen out h other same =
    let took = claim-Took thief now id s stolen h in
    let owner : stolen.owner ≡ thief.node_id = unfold claimed in rw took.taken in
    let held : row (claim thief now id s).1 out.id ≡ some stolen =
      rw same (claimed_row thief now id s stolen h) in
    let lost : holds_claim late stolen ≡ false =
      ground (arith, bytes_eq_iff stolen.owner late.node_id, owner, other) in
    rw (held, commit_outcome, lost) refl
