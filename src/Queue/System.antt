-- ===== src/Queue/System.antt =====
-- A deployment of `internal/queue`: several managers over one store. Each step is one transaction
-- or one batch of one of them, in any order: a submission takes two, its number and its row; a
-- worker takes three, its claim, its outcome, and the delay warning that may follow the outcome
-- without a look at the claim; a pruning takes one for each row. A node hands out a message to one
-- worker at a time: `ProcessDue` waits for its workers before it reads the index again.
pub mod Invariant
pub mod Safety
pub mod Exclusion
pub mod Overwrite
mod Submission
use mailezine.Prelude.{
  ℕ, ◌+◌, ◌<◌, ◌^◌, ◌≡◌, ◌≢◌, List, [], ◌∷◌, ◌++◌, Option, some, All, Bool, true, false,
}
use mailezine.Bytes.{Bytes}
use mailezine.Queue.Message.{Message, Config, Time}
use mailezine.Queue.Spool.{Spool, empty, ok, err, commit, row, Result}
use mailezine.Queue.Admin.{next_id, new_message, save, retry, cancel, prune_one}
use mailezine.Queue.Claim.{claim}
use mailezine.Queue.Outcome.{Delivery, outcome, commit_outcome}
use mailezine.Queue.Process.{after_commit}

-- The shared store, the time, the numbers of submissions that are not stored yet, the messages that
-- workers hold, as they were claimed, and the outcomes that were recorded and whose workers have
-- still to see to a delay warning.
pub record World : Type 0 where
  pub spool : Spool
  pub now : Time
  pub reserved : List ℕ
  pub workers : List Message
  pub settled : List Message

abbrev pub start : World
start = record { spool = empty; now = 0; reserved = []; workers = []; settled = [] }

-- No worker of the node holds the message.
abbrev pub IsFree : Bytes → ℕ → List Message → Type 0
IsFree node id ws = All (λ m. m.id ≡ id → m.owner ≢ node) ws

-- The outcome is to be followed up if its transaction recorded it.
abbrev pub if_recorded : Result Bool → Message → List Message → List Message
if_recorded (ok true) out ms = out ∷ ms
if_recorded (ok false) out ms = ms
if_recorded (err e) out ms = ms

pub data Step (w : World) : World → Type 0 where
  -- a submission takes its number
  numbers :
      w.spool.counter + 1 < 2 ^ 64
      → Step w (record w {
        spool = commit w.spool (next_id w.spool).1;
        reserved = (next_id w.spool).0 ∷ w.reserved;
      })
  -- a submission stores its message
  submits :
      (before : List ℕ) (id : ℕ) (after : List ℕ) (cfg : Config) (from : Bytes) (to : List Bytes)
      (subject : Bytes) (size : ℕ)
      → w.reserved ≡ before ++ id ∷ after
      → Step w (record w {
        spool = save w.now (new_message cfg w.now id from to subject size) 0 w.spool;
        reserved = before ++ after;
      })
  -- a submission ends without its message: no blob, or the process is lost
  gives_up :
      (before : List ℕ) (id : ℕ) (after : List ℕ)
      → w.reserved ≡ before ++ id ∷ after
      → Step w (record w { reserved = before ++ after })
  -- a node claims a message and starts a worker
  claims :
      (cfg : Config) (id : ℕ) (msg : Message)
      → IsFree cfg.node_id id w.workers
      → (claim cfg w.now id w.spool).0 ≡ ok (some msg)
      → Step w (record w { spool = (claim cfg w.now id w.spool).1; workers = msg ∷ w.workers })
  -- a claim that takes nothing
  skips :
      (cfg : Config) (id : ℕ)
      → ((msg : Message) → (claim cfg w.now id w.spool).0 ≢ ok (some msg))
      → Step w (record w { spool = (claim cfg w.now id w.spool).1 })
  -- a worker ends, with any answers from the network, and commits its outcome
  records :
      (before : List Message) (msg : Message) (after : List Message) (cfg : Config) (jitter : ℕ → ℕ)
      (deliver : Bytes → List Bytes → Bytes → Delivery) (body : Option Bytes)
      → w.workers ≡ before ++ msg ∷ after
      → msg.owner ≡ cfg.node_id
      → Step w (record w {
        spool = (commit_outcome cfg w.now (outcome jitter cfg w.now deliver body msg) w.spool).1;
        workers = before ++ after;
        settled =
            if_recorded
              (commit_outcome cfg w.now (outcome jitter cfg w.now deliver body msg) w.spool).0
              (outcome jitter cfg w.now deliver body msg)
              w.settled;
      })
  -- what follows a recorded outcome: the batch of a delay warning
  follows :
      (before : List Message) (out : Message) (after : List Message) (cfg : Config)
      → w.settled ≡ before ++ out ∷ after
      → Step w (record w {
        spool = (after_commit cfg w.now out w.spool).spool;
        settled = before ++ after;
      })
  -- a worker is lost with its process
  crashes :
      (before : List Message) (msg : Message) (after : List Message)
      → w.workers ≡ before ++ msg ∷ after
      → Step w (record w { workers = before ++ after })
  retries : (id : ℕ) → Step w (record w { spool = (retry w.now id w.spool).1 })
  cancels : (id : ℕ) → Step w (record w { spool = (cancel id w.spool).1 })
  -- one row of a pruning
  prunes :
      (retention id : ℕ) → Step w (record w { spool = (prune_one retention w.now id w.spool).1 })
  ticks : (later : ℕ) → Step w (record w { now = w.now + later })

pub data Reach (v : World) : World → Type 0 where
  here : Reach v v
  next : {w u : World} → Reach v w → Step w u → Reach v u
