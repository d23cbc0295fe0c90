-- ===== src/Queue/Process.antt =====
-- `processMessage` of `internal/queue/queue.go`, whole: claim, deliver, record the outcome, and then
-- what follows a recorded outcome (the body deleted, the sender told).
use mailezine.Prelude.{ℕ, Bool, true, false, List, [], Option, none, some, if◌then◌else◌}
use mailezine.Bytes.{Bytes}
use mailezine.Queue.Message.{bounced, deferred, Message, Config, Time, is_terminal, State}
use mailezine.Queue.Spool.{Spool, Result, ok, err}
use mailezine.Queue.Admin.{save}
use mailezine.Queue.Claim.{claim}
use mailezine.Queue.Outcome.{
  Delivery, BounceFailure, outcome, commit_outcome, maybe_bounce, maybe_delay_warning,
}

-- What one call leaves behind.
pub record Processed : Type 0 where
  pub spool : Spool
  pub deleted : Option Bytes
  pub told : List BounceFailure
  pub warned : Bool

abbrev pub untouched : Spool → Processed
untouched s = record { spool = s; deleted = none; told = []; warned = false }

abbrev pub warn : Time → Message → Spool → Option Message → Processed
warn now msg s none = untouched s
warn now msg s (some m) = record {
  spool = save now m msg.next_attempt s;
  deleted = none;
  told = [];
  warned = true;
}

abbrev pub after_state : State → Config → Time → Message → Spool → Processed
after_state bounced cfg now msg s = record (untouched s) {
  deleted = some msg.blob_id;
  told = maybe_bounce msg;
}
after_state deferred cfg now msg s = warn now msg s (maybe_delay_warning cfg now msg)
after_state st cfg now msg s = record (untouched s) {
  deleted = if is_terminal st then some msg.blob_id else none;
}

-- The end of `commitOutcome`, after its transaction has recorded `msg`.
unfoldable pub after_commit : Config → Time → Message → Spool → Processed
unfolding maybe_bounce maybe_delay_warning save
after_commit cfg now msg s = after_state msg.state cfg now msg s

abbrev pub finish : Config → Time → Message → Result Bool × Spool → Processed
finish cfg now msg (ok true, s) = after_commit cfg now msg s
finish cfg now msg (ok false, s) = untouched s
finish cfg now msg (err e, s) = untouched s

module _ (jitter : ℕ → ℕ) (cfg : Config) (body_of : Bytes → Option Bytes)
    (deliver : Bytes → List Bytes → Bytes → Delivery) where
  abbrev pub work : Time → Result (Option Message) × Spool → Processed
  work now (ok (some msg), s) =
      let done = outcome jitter cfg now deliver (body_of msg.blob_id) msg in
      finish cfg now done (commit_outcome cfg now done s)
  work now (ok none, s) = untouched s
  work now (err e, s) = untouched s

  -- One call, with `now` for every reading of the clock in it.
  unfoldable pub process_message : Time → ℕ → Spool → Processed
  unfolding claim outcome commit_outcome after_commit
  process_message now id s = work now (claim cfg now id s)
