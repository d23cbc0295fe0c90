-- ===== src/Queue/Admin.antt =====
-- `internal/queue/queue.go`: what clients and operators do with the queue. `Submit` spools a
-- message, `Retry` reschedules one, `Cancel` withdraws one, `pruneTerminal` drops old rows, `List`
-- reads all.
use mailezine.Prelude.{
  ℕ, suc, ◌+◌, ◌/◌, ◌%◌, ◌^◌, Bool, List, [], ◌∷◌, ◌++◌, map, Option, none, some, if◌then◌else◌,
  leb, ltb, ◌==◌, ◌&&◌,
}
use mailezine.Prelude.Int.{pos, negsuc, ℤ}
use mailezine.Bytes.{Bytes}
use mailezine.Queue.Message.{
  queued, is_active, RecipientStatus, Recipient, Message, Config, Time, unix, is_terminal, due_pos,
}
use mailezine.Queue.Spool.{
  Spool, SpoolOp, put_row, delete_row, put_due, delete_due, put_counter, row, commit, Result, ok,
  err, settle, not_found, being_delivered, already_terminal, no_recipients, no_body,
}

abbrev hex_digit : ℕ → ℕ
hex_digit d = if ltb d 10 then 48 + d else 87 + d

-- `%016x`: the low `n` hexadecimal digits, the highest first.
unfoldable pub hex : ℕ → ℕ → Bytes
hex ℕ.zero x = []
hex (suc n) x = hex n (x / 16) ++ hex_digit (x % 16) ∷ []

-- `fmt.Sprintf("q-%016x", id)`
unfoldable pub blob_name : ℕ → Bytes
unfolding hex
blob_name id = b'q' ∷ b'-' ∷ hex 16 id

-- The closure of `nextID`.
unfoldable pub next_id : Spool → ℕ × List SpoolOp
next_id s = let next = (s.counter + 1) % 2 ^ 64 in (next, put_counter next ∷ [])

-- The writes of `save`, with the position in the due index before the update.
unfoldable pub save_ops : Message → Time → List SpoolOp
save_ops msg old_due =
    put_row msg.id msg
    ∷ (if is_terminal msg.state
        then delete_due (unix old_due) msg.id ∷ []
        else if old_due == 0
        then put_due (unix (due_pos msg)) msg.id ∷ []
        else if old_due == due_pos msg
        then []
        else delete_due (unix old_due) msg.id ∷ put_due (unix (due_pos msg)) msg.id ∷ [])

unfoldable pub save : Time → Message → Time → Spool → Spool
unfolding save_ops
save now msg old_due s = commit s (save_ops (record msg { updated_at = now }) old_due)

abbrev pending_recipient : Bytes → Recipient
pending_recipient addr = record {
  address = addr;
  status = RecipientStatus.pending;
  last_error = [];
}

-- The message that `Submit` spools.
unfoldable pub new_message : Config → Time → ℕ → Bytes → List Bytes → Bytes → ℕ → Message
unfolding blob_name
new_message cfg now id from to subject size = record {
  id = id;
  from = from;
  recipients = map pending_recipient to;
  subject = subject;
  blob_id = blob_name id;
  size = size;
  state = queued;
  attempts = 0;
  max_attempts = cfg.max_attempts;
  next_attempt = now;
  last_error = [];
  created_at = now;
  updated_at = now;
  last_warning_at = 0;
  owner = [];
  lease_until = 0;
}

abbrev pub submit_stored :
    Config → Time → Bytes → List Bytes → Bytes → ℕ → Spool → Option ℕ → Result ℕ × Spool
submit_stored cfg now from to subject id s none = (err no_body, s)
submit_stored cfg now from to subject id s (some size) =
    (ok id, save now (new_message cfg now id from to subject size) 0 s)

abbrev submit_next :
    Config
    → Time
    → Bytes
    → List Bytes
    → Bytes
    → Bytes
    → (Bytes → Bytes → Option ℕ)
    → Spool
    → ℕ × List SpoolOp
    → Result ℕ × Spool
submit_next cfg now from to subject body put_blob s (id, ops) =
    submit_stored cfg now from to subject id (commit s ops) (put_blob (blob_name id) body)

-- `Submit`: `body` is what reading and signing leave of the message, if they succeed, and
-- `put_blob` stores it and tells its size.
unfoldable pub submit :
    Config
    → Time
    → Bytes
    → List Bytes
    → Bytes
    → Option Bytes
    → (Bytes → Bytes → Option ℕ)
    → Spool
    → Result ℕ × Spool
unfolding next_id save new_message
submit cfg now from [] subject body put_blob s = (err no_recipients, s)
submit cfg now from (addr ∷ to) subject none put_blob s = (err no_body, s)
submit cfg now from (addr ∷ to) subject (some body) put_blob s =
    submit_next cfg now from (addr ∷ to) subject body put_blob s (next_id s)

-- The message as `Retry` writes it.
unfoldable pub requeued : Time → Message → Message
requeued now cur = record cur {
  state = queued;
  attempts = 0;
  next_attempt = now;
  owner = [];
  lease_until = 0;
  updated_at = now;
}

abbrev retry_row : Time → ℕ → Option Message → Result (Unit {0} × List SpoolOp)
retry_row now id none = err not_found
retry_row now id (some cur) =
    if is_active cur.state
    then err being_delivered
    else if is_terminal cur.state
    then err already_terminal
    else ok (
      tt,
      put_row id (requeued now cur)
          ∷ delete_due (unix (due_pos cur)) id
          ∷ put_due (unix now) id
          ∷ [],
    )

unfoldable pub retry : Time → ℕ → Spool → Result (Unit {0}) × Spool
unfolding requeued
retry now id s = settle s (retry_row now id (row s id))

abbrev cancel_row : ℕ → Option Message → Result (Message × List SpoolOp)
cancel_row id none = err not_found
cancel_row id (some msg) =
    if is_active msg.state
    then err being_delivered
    else ok (
      msg,
      delete_row id
          ∷ delete_due (unix (due_pos msg)) id
          ∷ delete_due (unix msg.lease_until) id
          ∷ [],
    )

-- The transaction of `Cancel`; it hands out the message whose body is then deleted, unless the
-- message is terminal.
unfoldable pub cancel : ℕ → Spool → Result Message × Spool
cancel id s = settle s (cancel_row id (row s id))

-- The blob that `Cancel` deletes after its transaction.
unfoldable pub cancel_blob : Message → Option Bytes
cancel_blob msg = if is_terminal msg.state then none else some msg.blob_id

-- `isTerminal(state) && !UpdatedAt.After(now - retention)`
unfoldable pub is_doomed : ℕ → Time → Message → Bool
is_doomed retention now m = is_terminal m.state && leb (m.updated_at + retention) now

-- The scan of `pruneTerminal`: the messages to drop.
unfoldable pub doomed : ℕ → Time → List (ℕ × Message) → List ℕ
unfolding is_doomed
doomed retention now [] = []
doomed retention now ((_, m) ∷ rows) =
    let rest = doomed retention now rows in if is_doomed retention now m then m.id ∷ rest else rest

abbrev prune_row : ℕ → Time → ℕ → Option Message → Result (Option Bytes × List SpoolOp)
prune_row retention now id none = err not_found
prune_row retention now id (some cur) =
    if is_doomed retention now cur
    then ok (
      some cur.blob_id,
      delete_row id
          ∷ delete_due (unix (due_pos cur)) id
          ∷ (if cur.lease_until == 0 then [] else delete_due (unix cur.lease_until) id ∷ []),
    )
    else ok (none, [])

-- The transaction that drops one row after a second look at it, and the blob to delete.
unfoldable pub prune_one : ℕ → Time → ℕ → Spool → Result (Option Bytes) × Spool
unfolding is_doomed
prune_one retention now id s = settle s (prune_row retention now id (row s id))

-- The second loop of `pruneTerminal`; a row that is gone is skipped.
unfoldable pub prune_all : ℕ → Time → List ℕ → Spool → Spool
unfolding prune_one
prune_all retention now [] s = s
prune_all retention now (id ∷ ids) s = prune_all retention now ids (prune_one retention now id s).1

abbrev pub prune_for : ℤ → Time → Spool → Spool
prune_for (pos n) now s = if n == 0 then s else prune_all n now (doomed n now s.rows) s
prune_for (negsuc n) now s = s

-- `pruneTerminal`: a retention of zero or less disables it.
unfoldable pub prune_terminal : Config → Time → Spool → Spool
unfolding doomed prune_all
prune_terminal cfg now s = prune_for cfg.terminal_retention now s

-- `List`: every row in the order of the message numbers.
unfoldable pub list : Spool → List Message
list s = map (λ r. r.1) s.rows
