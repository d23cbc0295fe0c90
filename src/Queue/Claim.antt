-- ===== src/Queue/Claim.antt =====
-- `internal/queue/queue.go`: the scheduler's side. `ProcessDue` reads the due index, and `claim`
-- takes a due message for one node for the time of a lease.
pub mod Cases
pub mod Due
use mailezine.Prelude.{
  ℕ, ◌+◌, Bool, true, false, List, [], ◌∷◌, Option, none, some, if◌then◌else◌, ltb, ◌&&◌,
}
use mailezine.Store.Key.{codes}
use mailezine.Queue.Message.{
  active, Message, Config, Time, unix, signed, is_terminal, due_pos, is_active,
}
use mailezine.Queue.Spool.{
  Spool, SpoolOp, put_row, put_due, delete_due, row, Result, ok, err, settle, not_found,
}

-- The scan of `ProcessDue`: it stops at the first entry after `now`.
unfoldable pub due_scan : Time → List (ℕ × ℕ) → List ℕ
unfolding unix signed
due_scan now [] = []
due_scan now ((ts, id) ∷ rest) =
    let later = due_scan now rest in if ltb (signed (unix now)) (signed ts) then [] else id ∷ later

-- The messages that `ProcessDue` hands to its workers; a paused manager hands out none.
unfoldable pub process_due : Bool → Time → Spool → List ℕ
unfolding due_scan
process_due true now s = []
process_due false now s = due_scan now s.due

-- `cur.State == StateActive && cur.LeaseUntil.After(now)`
unfoldable pub is_live_claim : Time → Message → Bool
is_live_claim now cur = is_active cur.state && ltb now cur.lease_until

-- The message as `claim` writes it.
unfoldable pub claimed : Config → Time → Message → Message
claimed cfg now cur = record cur {
  state = active;
  owner = cfg.node_id;
  lease_until = now + cfg.lease;
  attempts = cur.attempts + 1;
  last_error = if is_active cur.state then codes "claim expired" else cur.last_error;
}

abbrev pub claim_row : Config → Time → ℕ → Option Message → Result (Option Message × List SpoolOp)
claim_row cfg now id none = err not_found
claim_row cfg now id (some cur) =
    if is_terminal cur.state
    then ok (none, delete_due (unix (due_pos cur)) id ∷ delete_due (unix cur.lease_until) id ∷ [])
    else if is_live_claim now cur
    then ok (none, [])
    else ok (
      some (claimed cfg now cur),
      put_row id (claimed cfg now cur)
          ∷ delete_due (unix (due_pos cur)) id
          ∷ put_due (unix (now + cfg.lease)) id
          ∷ [],
    )

-- `claim`: the message if this node now holds it, `none` if it was left alone.
unfoldable pub claim : Config → Time → ℕ → Spool → Result (Option Message) × Spool
unfolding is_live_claim claimed
claim cfg now id s = settle s (claim_row cfg now id (row s id))
