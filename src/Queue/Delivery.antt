-- ===== src/Queue/Delivery.antt =====
-- A whole call of `processMessage` (`internal/queue/queue.go`) by a node that no other disturbs: the
-- outcome of the attempt is what the spool then holds.
use mailezine.Prelude.{
  ℕ, ◌∙◌, subst, sym, ap, ◌+◌, ◌≤◌, ◌≡◌, refl, List, some, true, false, arith, ==_refl, ◌==◌,
  Option, Bool, Bool-cases, inl, inr,
}
use mailezine.Prelude.Int.{ℤ, pos, negsuc}
use mailezine.Bytes.{Bytes, bytes_eq_iff}
use mailezine.Queue.Message.{Message, Config, State, deferred, is_terminal, due_pos}
use mailezine.Queue.Spool.{Spool, row, commit, ok, Result, err}
use mailezine.Queue.Spool.Reads.{row-apply}
use mailezine.Queue.Admin.{save}
use mailezine.Queue.Claim.{claim, claimed, is_live_claim}
use mailezine.Queue.Claim.Cases.{claim_free}
use mailezine.Queue.Fencing.{claimed_row}
use mailezine.Queue.Outcome.{
  Delivery, outcome, commit_outcome, holds_claim, warning_due, count_pending, warn_after,
  maybe_delay_warning,
}
use mailezine.Queue.Outcome.Facts.{outcome-Settles}
use mailezine.Queue.Outcome.Verdict.{outcome_exhausted}
use mailezine.Queue.Index.Recording.{recorded_row}
use mailezine.Queue.Process.{process_message, finish, work, after_commit, after_state, warn}

-- A row that holds an outcome, apart from the times of its last write and last warning.
pub record Holds (out : Message) (held : Option Message) : Type 0 where
  pub stored : Message
  pub found : held ≡ some stored
  pub state : stored.state ≡ out.state
  pub recipients : stored.recipients ≡ out.recipients
  pub attempts : stored.attempts ≡ out.attempts
  pub next_attempt : stored.next_attempt ≡ out.next_attempt

saved_row :
    (now old : ℕ) (m : Message) (s : Spool)
    → row (save now m old s) m.id ≡ some (record m { updated_at = now })
unfolding save commit
saved_row now old m s = elim (Bool-cases (is_terminal m.state)) [
  | inl over ↦ rw (save, over) (simp (row-apply, ==_refl))
  | inr waits ↦ elim (Bool-cases (old == 0)) [
    | inl never ↦ rw (save, waits, never) (simp (row-apply, ==_refl))
    | inr later ↦ elim (Bool-cases (old == due_pos (record m { updated_at = now }))) [
      | inl same ↦ rw (save, waits, later, same) (simp (row-apply, ==_refl))
      | inr moved ↦ rw (save, waits, later, moved) (simp (row-apply, ==_refl))
    ]
  ]
]

stored_Holds :
    (now : ℕ) (out : Message) (held : Option Message)
    → held ≡ some (record out { updated_at = now })
    → Holds out held
stored_Holds now out held e = record {
  stored = record out { updated_at = now };
  found = e;
  state = refl;
  recipients = refl;
  attempts = refl;
  next_attempt = refl;
}

rewritten_Holds :
    (now at : ℕ) (out : Message) (held : Option Message)
    → held ≡ some (record out { last_warning_at = at; updated_at = now })
    → Holds out held
rewritten_Holds now at out held e = record {
  stored = record out { last_warning_at = at; updated_at = now };
  found = e;
  state = refl;
  recipients = refl;
  attempts = refl;
  next_attempt = refl;
}

warned_Holds :
    (cfg : Config) (now : ℕ) (out : Message) (s : Spool) (w : ℤ)
    → row s out.id ≡ some (record out { updated_at = now })
    → Holds out (row (warn now out s (warn_after w now out)).spool out.id)
warned_Holds cfg now out s (negsuc n) e = stored_Holds now out _ e
warned_Holds cfg now out s (pos n) e = elim (Bool-cases (n == 0)) [
  | inl off ↦ rw off (stored_Holds now out _ e)
  | inr on ↦ elim (Bool-cases (warning_due n now out)) [
    | inr early ↦ rw (on, early) (stored_Holds now out _ e)
    | inl due ↦
        rw (on, due)
          (rewritten_Holds now now out _
            (saved_row now out.next_attempt (record out { last_warning_at = now }) s))
  ]
]

after_state-Holds :
    (cfg : Config) (now : ℕ) (out : Message) (s : Spool) (st : State)
    → row s out.id ≡ some (record out { updated_at = now })
    → Holds out (row (after_state st cfg now out s).spool out.id)
unfolding maybe_delay_warning
after_state-Holds cfg now out s deferred e = warned_Holds cfg now out s cfg.delay_warning e
after_state-Holds cfg now out s _ e = stored_Holds now out _ e

finish-Holds :
    (cfg : Config) (now : ℕ) (out : Message) (s : Spool) (r : Result Bool)
    → r ≡ ok true
    → row s out.id ≡ some (record out { updated_at = now })
    → Holds out (row (finish cfg now out (r, s)).spool out.id)
unfolding after_commit
finish-Holds cfg now out s (ok true) h e = after_state-Holds cfg now out s out.state e
finish-Holds cfg now out s (ok false) h e = absurd (cc h)
finish-Holds cfg now out s (err x) h e = absurd (cc h)

commit_records :
    (cfg : Config) (now : ℕ) (out : Message) (s : Spool) (held : Message)
    → row s out.id ≡ some held
    → holds_claim cfg held ≡ true
    → (commit_outcome cfg now out s).0 ≡ ok true
unfolding commit_outcome
commit_records cfg now out s held e h = rw (e, commit_outcome, h)

committed_Holds :
    (cfg : Config) (now : ℕ) (out : Message) (s : Spool) (held : Message)
    → row s out.id ≡ some held
    → holds_claim cfg held ≡ true
    → Holds out (row (finish cfg now out (commit_outcome cfg now out s)).spool out.id)
committed_Holds cfg now out s held e h =
    let done = commit_records cfg now out s held e h in
    finish-Holds cfg now out (commit_outcome cfg now out s).1 (commit_outcome cfg now out s).0 done
      (recorded_row s cfg now out done)

claimed_holds :
    (cfg : Config) (now : ℕ) (cur : Message) → holds_claim cfg (claimed cfg now cur) ≡ true
unfolding claimed
claimed_holds cfg now cur = ground (arith, bytes_eq_iff cfg.node_id cfg.node_id)

module _ (jitter : ℕ → ℕ) (cfg : Config) (body_of : Bytes → Option Bytes)
    (deliver : Bytes → List Bytes → Bytes → Delivery) (now id : ℕ) (s : Spool) (cur : Message) where
  -- A call on a stored message that waits, or whose claim has run out, makes one attempt and records
  -- it: the row then has the state, recipients and next attempt of that attempt, and counts one
  -- attempt more than the message had before the call.
  pub process_message-records :
      row s id ≡ some cur
      → cur.id ≡ id
      → is_terminal cur.state ≡ false
      → is_live_claim now cur ≡ false
      → (held : Holds
          (outcome jitter cfg now deliver (body_of cur.blob_id) (claimed cfg now cur))
          (row (process_message jitter cfg body_of deliver now id s).spool id))
        × (held.stored.attempts ≡ cur.attempts + 1)
  unfolding process_message
  process_message-records e same waits free =
      let out = outcome jitter cfg now deliver (body_of cur.blob_id) (claimed cfg now cur) in
      let kept =
        outcome-Settles jitter cfg now (claimed cfg now cur) deliver (body_of cur.blob_id) in
      let place : out.id ≡ id = kept.id ∙ (unfold claimed in same) in
      let taken = claim_free cfg now id s cur e waits free in
      let row_held : row (claim cfg now id s).1 out.id ≡ some (claimed cfg now cur) =
        rw place (claimed_row cfg now id s (claimed cfg now cur) (ap (λ r. r.0) taken)) in
      let done =
        committed_Holds cfg now out (claim cfg now id s).1 (claimed cfg now cur) row_held
          (claimed_holds cfg now cur) in
      let left = (finish cfg now out (commit_outcome cfg now out (claim cfg now id s).1)).spool in
      let moved = subst (λ j. Holds out (row left j)) place done in
      let whole =
        subst (λ p. Holds out (row (finish cfg now out (commit_outcome cfg now out p.1)).spool id))
          taken moved in
      let held : Holds out (row (process_message jitter cfg body_of deliver now id s).spool id) =
        subst (λ p. Holds out (row (work jitter cfg body_of deliver now p).spool id)) (sym taken)
          whole in
      (held, held.attempts ∙ kept.attempts ∙ (unfold claimed in refl))

  -- A call on a stored message that waits, or whose claim has run out, ends it if this attempt
  -- reaches the bound: the row is terminal and no recipient of it waits.
  pub process_message_last :
      row s id ≡ some cur
      → cur.id ≡ id
      → is_terminal cur.state ≡ false
      → is_live_claim now cur ≡ false
      → cur.max_attempts ≤ cur.attempts + 1
      → (left : Message) × (row (process_message jitter cfg body_of deliver now id s).spool id
          ≡ some left)
        × (is_terminal left.state ≡ true)
        × (count_pending left.recipients ≡ 0)
  process_message_last e same waits free used =
      let (held, _) = process_message-records e same waits free in
      let over =
        outcome_exhausted jitter cfg now deliver (body_of cur.blob_id) (claimed cfg now cur)
          (unfold claimed in used) in
      (held.stored, held.found, rw held.state over.0, rw held.recipients over.1)
