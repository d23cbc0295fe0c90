-- ===== src/Queue/System/Overwrite.antt =====
-- A delay warning that is written after something else has happened to its message
-- (`internal/queue/delay.go`, `maybeDelayWarning`): the batch looks at no row before it writes.
use mailezine.Prelude.{ℕ, ◌≡◌, refl, ◌∙◌, some, false, ◌==◌, ==_refl, subst, ap}
use mailezine.Queue.Message.{Message, Config, deferred, is_terminal, due_pos}
use mailezine.Queue.Spool.{Spool, row, is_due, commit, ok}
use mailezine.Queue.Spool.Reads.{row-apply, is_due-apply}
use mailezine.Queue.Admin.{cancel, save}
use mailezine.Queue.Outcome.{maybe_delay_warning}
use mailezine.Queue.Process.{after_commit, after_state, warn}
use mailezine.Queue.Index.{IsIndexed}
use mailezine.Queue.Retention.{cancel_forgets}

-- Writing a deferred message whose place does not move touches its row only.
saved_in_place :
    (now : ℕ) (m : Message) (s : Spool)
    → m.state ≡ deferred
    → (m.next_attempt == 0) ≡ false
    → (row (save now m m.next_attempt s) m.id ≡ some (record m { updated_at = now }))
      × ((t : ℕ) → is_due (save now m m.next_attempt s) t m.id ≡ is_due s t m.id)
unfolding save commit
saved_in_place now m s st started =
    let waits : is_terminal m.state ≡ false = unfold is_terminal in rw st refl in
    let at : due_pos (record m { updated_at = now }) ≡ m.next_attempt =
      unfold due_pos in rw st refl in
    (
      rw (save, waits, started, at, ==_refl m.next_attempt) (simp (row-apply, ==_refl)),
      λ t. rw (save, waits, started, at, ==_refl m.next_attempt) (simp is_due-apply),
    )

-- Where the index is exact, and an operator withdraws a message between the outcome that deferred it
-- and the delay warning that the outcome calls for, the warning puts the row back, and the due index
-- has no place for it: the message stands as deferred, and no scan for due messages finds it.
pub cancelled_returns :
    (cfg : Config) (now id : ℕ) (s : Spool) (withdrawn out : Message)
    → IsIndexed s
    → (cancel id s).0 ≡ ok withdrawn
    → out.id ≡ id
    → out.state ≡ deferred
    → (out.next_attempt == 0) ≡ false
    → maybe_delay_warning cfg now out ≡ some (record out { last_warning_at = now })
    → let s' = (after_commit cfg now out (cancel id s).1).spool in
      (row s' id ≡ some (record out { last_warning_at = now; updated_at = now }))
      × ((t : ℕ) → is_due s' t id ≡ false)
unfolding after_commit
cancelled_returns cfg now id s withdrawn out x h same st started due =
    let gone = cancel_forgets id s withdrawn x h in
    let written =
      saved_in_place now (record out { last_warning_at = now }) (cancel id s).1 st started in
    let s' = (after_commit cfg now out (cancel id s).1).spool in
    let writes : s'
        ≡ save now (record out { last_warning_at = now }) out.next_attempt (cancel id s).1 =
      ap (λ v. (after_state v cfg now out (cancel id s).1).spool) st
      ∙ ap (λ w. (warn now out (cancel id s).1 w).spool) due in
    rw writes (
      subst
          (λ i.
            row (save now (record out { last_warning_at = now }) out.next_attempt (cancel id s).1) i
            ≡ some (record out { last_warning_at = now; updated_at = now }))
          same written.0,
      λ t.
          subst
            (λ i.
              is_due
                (save now (record out { last_warning_at = now }) out.next_attempt (cancel id s).1) t
                i
              ≡ is_due (cancel id s).1 t i)
            same (written.1 t)
          ∙ gone.1 t,
    )
