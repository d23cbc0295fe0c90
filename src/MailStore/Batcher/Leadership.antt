-- ===== src/MailStore/Batcher/Leadership.antt =====
-- Who leads the deliveries of an account (`internal/mailstore/kv.go`, `runBatch`).
use mailezine.Prelude.{
  ℕ, zero, suc, ◌≤◌, ◌≡◌, refl, Bool, true, false, List, [], ◌∷◌, ◌++◌, length, arith,
}
use mailezine.MailStore.Batcher.{
  AccountBatch, Leader, Calls, Event, arrive, step, opened, committing, resigning, taking, failing,
  leaving, no_calls, run, happen, lead, join, take_queued, resign_if_empty, Answer, replaced,
}

-- At most one call leads, the account is active while one does, and nothing waits in an account
-- that is not active.
abbrev pub Led : AccountBatch → List Leader → Type 0
Led ab [] = ab.active ≡ false → ab.queue ≡ []
Led ab (l ∷ []) = ab.active ≡ true
Led ab (l ∷ m ∷ ls) = ⊥

abbrev batch_of : List ℕ → Bool → AccountBatch
batch_of q active = record { queue = q; active = active }

lead-Led :
    (limit : ℕ) (commits : Bool) (l : Leader) (q : List ℕ)
    → let r = lead limit commits l (batch_of q true) in Led r.batch (replaced r.leader [])
unfolding lead take_queued resign_if_empty
lead-Led limit commits (opened req) q = refl
lead-Led limit true (committing reqs) q = refl
lead-Led limit false (committing reqs) q = refl
lead-Led limit commits resigning [] = λ _. refl
lead-Led limit commits resigning (_ ∷ _) = refl
lead-Led limit commits taking q = refl
lead-Led limit commits failing [] = refl
lead-Led limit commits failing (_ ∷ _) = refl
lead-Led limit commits leaving [] = λ _. refl
lead-Led limit commits leaving (_ ∷ _) = λ e. cc

abbrev calls_of : List ℕ → Bool → List Leader → List Answer → Calls
calls_of q active ls answers = record { batch = batch_of q active; leaders = ls; answers = answers }

happen-Led :
    (limit : ℕ) (e : Event) (q : List ℕ) (active : Bool) (ls : List Leader) (answers : List Answer)
    → Led (batch_of q active) ls
    → let c = happen limit e (calls_of q active ls answers) in Led c.batch c.leaders
unfolding happen join
happen-Led limit (arrive req) q true [] answers h = λ e. cc
happen-Led limit (arrive req) q true (l ∷ []) answers h = refl
happen-Led limit (arrive req) q true (l ∷ m ∷ ls) answers h = h
happen-Led limit (arrive req) q false [] answers h = refl
happen-Led limit (arrive req) q false (l ∷ []) answers h = cc
happen-Led limit (arrive req) q false (l ∷ m ∷ ls) answers h = absurd h
happen-Led limit (step n commits) q active [] answers h = h
happen-Led limit (step zero commits) q true (l ∷ []) answers h = lead-Led limit commits l q
happen-Led limit (step zero commits) q false (l ∷ []) answers h = cc
happen-Led limit (step (suc n) commits) q active (l ∷ []) answers h = h
happen-Led limit (step n commits) q active (l ∷ m ∷ ls) answers h = absurd h

run-Led :
    (limit : ℕ) (es : List Event) (c : Calls)
    → Led c.batch c.leaders
    → Led (run limit es c).batch (run limit es c).leaders
unfolding run
run-Led limit [] c h = h
run-Led limit (e ∷ es) c h =
    run-Led limit es (happen limit e c)
      (happen-Led limit e c.batch.queue c.batch.active c.leaders c.answers h)

Led-length : (ab : AccountBatch) (ls : List Leader) → Led ab ls → length ls ≤ 1
Led-length ab [] h = omega arith
Led-length ab (l ∷ []) h = omega arith
Led-length ab (l ∷ m ∷ ls) h = absurd h

-- However the calls for an account interleave and whatever the commits give, at most one call leads
-- at a time, and while a call leads the account is active, so that no other call takes over.
pub run_one_leader :
    (limit : ℕ) (es : List Event)
    → let c = run limit es no_calls in
      (length c.leaders ≤ 1) × ((l : Leader) → c.leaders ≡ l ∷ [] → c.batch.active ≡ true)
run_one_leader limit es =
    let c = run limit es no_calls in
    let h : Led c.batch c.leaders = run-Led limit es no_calls (λ _. refl) in
    (Led-length c.batch c.leaders h, λ l e. mathlib.Core.Path.subst (Led c.batch) e h)

-- From an active account without a leader on, nothing is answered.
abbrev run_from : ℕ → List Event → List ℕ → Bool → List Leader → List Answer → List Answer
run_from limit es q active ls answers = (run limit es (calls_of q active ls answers)).answers

run_wedged :
    (limit : ℕ) (es : List Event) (q : List ℕ) (answers : List Answer)
    → run_from limit es q true [] answers ≡ answers
unfolding run happen join
run_wedged limit [] q answers = refl
run_wedged limit (arrive req ∷ es) q answers = run_wedged limit es (q ++ req ∷ []) answers
run_wedged limit (step n commits ∷ es) q answers = run_wedged limit es q answers

-- A commit fails, `failAll` finds the queue empty, and a delivery arrives before the leader
-- resigns.
abbrev pub losing_race : ℕ → ℕ → List Event
losing_race first late =
    arrive first ∷ step 0 true ∷ step 0 false ∷ step 0 true ∷ arrive late ∷ step 0 true ∷ []

-- If a delivery arrives after a failed leader has emptied the queue and before it resigns, that
-- delivery is never answered, and nor is any later one: whatever happens then, the only answer that
-- the account has given is the failure of the first.
pub run-losing_race :
    (limit first late : ℕ) (es : List Event)
    → (run limit (losing_race first late ++ es) no_calls).answers ≡ (first, false) ∷ []
unfolding run happen join lead take_queued resign_if_empty
run-losing_race zero first late es = run_wedged zero es (late ∷ []) ((first, false) ∷ [])
run-losing_race (suc limit) first late es =
    run_wedged (suc limit) es (late ∷ []) ((first, false) ∷ [])
