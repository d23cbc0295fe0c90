-- ===== src/Queue/Index/Warning.antt =====
-- What follows a recorded outcome (`internal/queue/queue.go`, `delay.go`): a delay warning writes
-- the message again, and keeps the due index exact where no other node acts in between.
use mailezine.Prelude.{
  ==_refl, ℕ, ◌≡◌, refl, some, arith, ◌≤◌, Bool-cases, inl, inr, false, ◌∙◌, Option, none, ◌==◌, [],
  ◌∷◌,
}
use mailezine.Queue.Message.{
  Message, Config, unix, is_terminal, due_pos, is_active, State, deferred, bounced,
}
use mailezine.Queue.Spool.{Spool, row, commit, put_row, put_due}
use mailezine.Queue.Outcome.{maybe_delay_warning, warn_after}
use mailezine.Queue.Process.{warn, after_state, after_commit}
use mailezine.Queue.Index.{Replaces, IsIndexed, Keeps, Replaces-Keeps, Keeps-refl}
use mailezine.Prelude.Int.{ℤ, pos, negsuc}
use mailezine.Queue.Admin.{save}
use mailezine.Queue.Spool.Reads.{row-apply, is_due-apply}

-- A waiting message is written again with the place that it has.
touch-Replaces :
    (s : Spool) (m c : Message)
    → IsIndexed s
    → row s m.id ≡ some c
    → is_terminal c.state ≡ false
    → is_terminal m.state ≡ false
    → unix (due_pos c) ≡ unix (due_pos m)
    → Replaces s (commit s (put_row m.id m ∷ [])) m.id (some m)
unfolding commit
touch-Replaces s m c x e wc wm place = record {
  rows = λ j. simp row-apply;
  counted = refl;
  dues = λ t j. simp is_due-apply (ground (arith, wc, wm, place, x.exact t j, e));
}

touch_due-Replaces :
    (s : Spool) (m c : Message)
    → IsIndexed s
    → row s m.id ≡ some c
    → is_terminal c.state ≡ false
    → is_terminal m.state ≡ false
    → unix (due_pos c) ≡ unix (due_pos m)
    → Replaces s (commit s (put_row m.id m ∷ put_due (unix (due_pos m)) m.id ∷ [])) m.id (some m)
unfolding commit
touch_due-Replaces s m c x e wc wm place = record {
  rows = λ j. simp row-apply;
  counted = refl;
  dues = λ t j. simp is_due-apply (ground (arith, wc, wm, place, x.exact t j, e));
}

-- The unfenced write of a delay warning, straight after the outcome that it belongs to.
save-Keeps :
    (s : Spool) (now : ℕ) (m c : Message)
    → IsIndexed s
    → row s m.id ≡ some c
    → is_terminal c.state ≡ false
    → is_terminal m.state ≡ false
    → is_active m.state ≡ false
    → unix (due_pos c) ≡ unix (due_pos m)
    → Keeps s (save now m m.next_attempt s)
unfolding save due_pos
save-Keeps s now m c x e wc wm idle place =
    let at : due_pos m ≡ m.next_attempt = unfold due_pos in rw idle in
    let known : (r : Message)
        → some (record m { updated_at = now }) ≡ some r
        → (r.id ≡ m.id) × (m.id ≤ s.counter) × (is_active r.state ≡ false) =
      λ r h. ground (arith, x.numbered m.id c e, idle) in
    elim (Bool-cases (m.next_attempt == 0)) [
      | inl never ↦
          rw (wm, never, save)
            (Replaces-Keeps s _ m.id (some (record m { updated_at = now }))
              (touch_due-Replaces s (record m { updated_at = now }) c x e wc wm place) known
              (λ n. absurd (cc (n, e))) x)
      | inr later ↦
          rw (wm, later, save, at, ==_refl m.next_attempt)
            (Replaces-Keeps s _ m.id (some (record m { updated_at = now }))
              (touch-Replaces s (record m { updated_at = now }) c x e wc wm place) known
              (λ n. absurd (cc (n, e))) x)
    ]

warned_message :
    (interval : ℤ) (now : ℕ) (msg m : Message)
    → some m ≡ warn_after interval now msg
    → m ≡ record msg { last_warning_at = now }
warned_message (pos n) now msg m h = ground arith
warned_message (negsuc n) now msg m h = cc

warn-Keeps :
    (cfg : Config) (now : ℕ) (msg c : Message) (s : Spool) (w : Option Message)
    → w ≡ maybe_delay_warning cfg now msg
    → IsIndexed s
    → row s msg.id ≡ some c
    → c.state ≡ deferred
    → msg.state ≡ deferred
    → c.next_attempt ≡ msg.next_attempt
    → Keeps s (warn now msg s w).spool
warn-Keeps cfg now msg c s none h x e cd md same = Keeps-refl s x
warn-Keeps cfg now msg c s (some m) h x e cd md same =
    rw (warned_message cfg.delay_warning now msg m (unfold maybe_delay_warning in h)) (
      save-Keeps s now (record msg { last_warning_at = now }) c x e
        (unfold is_terminal in ground (arith, cd)) (unfold is_terminal in ground (arith, md))
        (ground (arith, md)) (unfold due_pos in ground (arith, cd, md, same)))

after_state-Keeps :
    (cfg : Config) (now : ℕ) (msg c : Message) (s : Spool) (st : State)
    → msg.state ≡ st
    → IsIndexed s
    → row s msg.id ≡ some c
    → c.state ≡ msg.state
    → c.next_attempt ≡ msg.next_attempt
    → Keeps s (after_state st cfg now msg s).spool
after_state-Keeps cfg now msg c s deferred h x e same next =
    warn-Keeps cfg now msg c s (maybe_delay_warning cfg now msg) refl x e (same ∙ h) h next
after_state-Keeps cfg now msg c s bounced h x e same next = Keeps-refl s x
after_state-Keeps cfg now msg c s _ h x e same next = Keeps-refl s x

-- What follows a recorded outcome keeps the index exact, if the row is still the one recorded.
pub after_commit-Keeps :
    (cfg : Config) (now at : ℕ) (msg : Message) (s : Spool)
    → IsIndexed s
    → row s msg.id ≡ some (record msg { updated_at = at })
    → Keeps s (after_commit cfg now msg s).spool
unfolding after_commit
after_commit-Keeps cfg now at msg s x e =
    after_state-Keeps cfg now msg (record msg { updated_at = at }) s msg.state refl x e refl refl
