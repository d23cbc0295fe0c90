-- ===== src/MailStore/Batcher/Answered.antt =====
-- Deliveries whose commits go through are all answered (`internal/mailstore/kv.go`, `runBatch`).
use mailezine.Prelude.{
  ℕ, zero, suc, ◌+◌, ◌*◌, ◌≤◌, ◌<◌, ◌≡◌, refl, Bool, true, false, List, [], ◌∷◌, ◌++◌, length,
  arith, drop, subst, sym, ap, length-append,
}
use mailezine.MailStore.Batcher.{
  AccountBatch, Leader, Calls, Event, arrive, step, opened, committing, resigning, taking, failing,
  leaving, no_calls, run, happen, lead, join, take_queued, resign_if_empty, replaced, Answer,
}
use mailezine.MailStore.Batcher.Conservation.{
  times, times_answered, arrivals, all_in_flight, run_conserves,
}

-- No step of the events is a commit that fails.
abbrev pub AllCommit : List Event → Type 0
AllCommit [] = Unit
AllCommit (arrive req ∷ es) = AllCommit es
AllCommit (step n commits ∷ es) = (commits ≡ true) × AllCommit es

-- A leader that has not met a failure; before a further take something waits.
abbrev IsServing : List ℕ → Leader → Type 0
IsServing q taking = 0 < length q
IsServing q failing = ⊥
IsServing q leaving = ⊥
IsServing q _ = Unit

-- An active account has one leader, and nothing waits without one.
abbrev Served : List ℕ → Bool → List Leader → Type 0
Served q active [] = (active ≡ false) × (q ≡ [])
Served q active (l ∷ []) = (active ≡ true) × IsServing q l
Served q active (l ∷ m ∷ ls) = ⊥

abbrev batch_of : List ℕ → Bool → AccountBatch
batch_of q active = record { queue = q; active = active }

abbrev calls_of : List ℕ → Bool → List Leader → List Answer → Calls
calls_of q active ls answers = record { batch = batch_of q active; leaders = ls; answers = answers }

lead-Served :
    (limit : ℕ) (l : Leader) (q : List ℕ)
    → IsServing q l
    → let r = lead limit true l (batch_of q true) in
      Served r.batch.queue r.batch.active (replaced r.leader [])
unfolding lead take_queued resign_if_empty
lead-Served limit (opened req) q h = (refl, tt)
lead-Served limit (committing reqs) q h = (refl, tt)
lead-Served limit resigning [] h = (refl, refl)
lead-Served limit resigning (_ ∷ _) h = (refl, omega arith)
lead-Served limit taking q h = (refl, tt)
lead-Served limit failing q h = absurd h
lead-Served limit leaving q h = absurd h

IsServing-grown : (q : List ℕ) (req : ℕ) (l : Leader) → IsServing q l → IsServing (q ++ req ∷ []) l
IsServing-grown q req (opened _) h = tt
IsServing-grown q req (committing _) h = tt
IsServing-grown q req resigning h = tt
IsServing-grown q req taking h = omega (arith, length-append q (req ∷ []))
IsServing-grown q req failing h = h
IsServing-grown q req leaving h = h

happen-Served :
    (limit : ℕ) (e : Event) (q : List ℕ) (active : Bool) (ls : List Leader) (answers : List Answer)
    → AllCommit (e ∷ [])
    → Served q active ls
    → let c = happen limit e (calls_of q active ls answers) in
      Served c.batch.queue c.batch.active c.leaders
unfolding happen join
happen-Served limit (arrive req) q true [] answers a h = cc (h.0)
happen-Served limit (arrive req) q true (l ∷ []) answers a h = (refl, IsServing-grown q req l h.1)
happen-Served limit (arrive req) q true (l ∷ m ∷ ls) answers a h = h
happen-Served limit (arrive req) q false [] answers a h = (refl, tt)
happen-Served limit (arrive req) q false (l ∷ []) answers a h = cc (h.0)
happen-Served limit (arrive req) q false (l ∷ m ∷ ls) answers a h = absurd h
happen-Served limit (step n commits) q active [] answers a h = h
happen-Served limit (step zero true) q true (l ∷ []) answers a h = lead-Served limit l q h.1
happen-Served limit (step zero false) q active (l ∷ []) answers a h = cc (a.0)
happen-Served limit (step zero commits) q false (l ∷ []) answers a h = cc (h.0)
happen-Served limit (step (suc n) commits) q active (l ∷ []) answers a h = h
happen-Served limit (step n commits) q active (l ∷ m ∷ ls) answers a h = absurd h

AllCommit-split :
    (e : Event) (es : List Event) → AllCommit (e ∷ es) → AllCommit (e ∷ []) × AllCommit es
AllCommit-split (arrive req) es h = (tt, h)
AllCommit-split (step n commits) es h = ((h.0, tt), h.1)

run-Served :
    (limit : ℕ) (es : List Event) (c : Calls)
    → AllCommit es
    → Served c.batch.queue c.batch.active c.leaders
    → let c' = run limit es c in Served c'.batch.queue c'.batch.active c'.leaders
unfolding run
run-Served limit [] c a h = h
run-Served limit (e ∷ es) c a h =
    let (a1, a2) = AllCommit-split e es a in
    run-Served limit es (happen limit e c) a2
      (happen-Served limit e c.batch.queue c.batch.active c.leaders c.answers a1 h)

-- The steps that a leader takes at most with such a queue.
abbrev rank : List ℕ → Leader → ℕ
rank q (opened req) = 3 * length q + 3
rank q (committing reqs) = 3 * length q + 2
rank q resigning = 3 * length q + 1
rank q _ = 3 * length q

abbrev total_rank : List ℕ → List Leader → ℕ
total_rank q [] = 0
total_rank q (l ∷ _) = suc (rank q l)

length-drop : (n : ℕ) (q : List ℕ) → length (drop n q) ≤ length q
length-drop zero q = omega arith
length-drop (suc n) [] = omega arith
length-drop (suc n) (_ ∷ q) = omega (arith, length-drop n q)

length-drop_some : (n : ℕ) (q : List ℕ) → 0 < n → 0 < length q → length (drop n q) < length q
length-drop_some zero q h g = absurd (omega arith)
length-drop_some (suc n) [] h g = absurd (omega arith)
length-drop_some (suc n) (_ ∷ q) h g = omega (arith, length-drop n q)

lead-rank :
    (limit : ℕ) (l : Leader) (q : List ℕ)
    → 0 < limit
    → IsServing q l
    → let r = lead limit true l (batch_of q true) in
      total_rank r.batch.queue (replaced r.leader []) ≤ rank q l
unfolding lead take_queued resign_if_empty
lead-rank limit (opened req) q g h = omega (arith, length-drop limit q)
lead-rank limit (committing reqs) q g h = omega arith
lead-rank limit resigning [] g h = omega arith
lead-rank limit resigning (_ ∷ _) g h = omega arith
lead-rank limit taking q g h = omega (arith, length-drop_some limit q)
lead-rank limit failing q g h = absurd h
lead-rank limit leaving q g h = absurd h

-- So many steps of the leader.
abbrev pub steps : ℕ → List Event
steps zero = []
steps (suc n) = step 0 true ∷ steps n

IsDone : Calls → Type 0
IsDone c = (c.leaders ≡ []) × (c.batch.queue ≡ [])

run-steps :
    (limit n : ℕ) (q : List ℕ) (active : Bool) (ls : List Leader) (answers : List Answer)
    → 0 < limit
    → Served q active ls
    → total_rank q ls ≤ n
    → IsDone (run limit (steps n) (calls_of q active ls answers))
unfolding run happen IsDone
run-steps limit zero q active [] answers g h m = (refl, h.1)
run-steps limit (suc n) q active [] answers g h m =
    run-steps limit n q active [] answers g h (omega arith)
run-steps limit zero q active (l ∷ ls) answers g h m = absurd (omega arith)
run-steps limit (suc n) q false (l ∷ []) answers g h m = cc (h.0)
run-steps limit (suc n) q active (l ∷ k ∷ ls) answers g h m = absurd h
run-steps limit (suc n) q true (l ∷ []) answers g h m =
    let r = lead limit true l (batch_of q true) in
    run-steps limit n r.batch.queue r.batch.active (replaced r.leader []) (answers ++ r.answers) g
      (lead-Served limit l q h.1) (omega (arith, lead-rank limit l q))

run-append :
    (limit : ℕ) (a b : List Event) (c : Calls) → run limit (a ++ b) c ≡ run limit b (run limit a c)
unfolding run
run-append limit [] b c = refl
run-append limit (e ∷ a) b c = run-append limit a b (happen limit e c)

arrivals-steps : (es : List Event) (n : ℕ) → arrivals (es ++ steps n) ≡ arrivals es
arrivals-steps [] zero = refl
arrivals-steps [] (suc n) = arrivals-steps [] n
arrivals-steps (arrive req ∷ es) n = ap (◌∷◌ req) (arrivals-steps es n)
arrivals-steps (step m commits ∷ es) n = arrivals-steps es n

total_rank-le :
    (q : List ℕ) (active : Bool) (ls : List Leader)
    → Served q active ls
    → total_rank q ls ≤ 3 * length q + 4
total_rank-le q active [] h = omega arith
total_rank-le q active (opened _ ∷ []) h = omega arith
total_rank-le q active (committing _ ∷ []) h = omega arith
total_rank-le q active (resigning ∷ []) h = omega arith
total_rank-le q active (taking ∷ []) h = omega arith
total_rank-le q active (failing ∷ []) h = omega arith
total_rank-le q active (leaving ∷ []) h = omega arith
total_rank-le q active (_ ∷ _ ∷ _) h = absurd h

-- However deliveries and the steps of leaders interleave, if every commit goes through then a
-- leader that takes three steps more for each waiting delivery, and four, answers everything: no
-- call leads any more, the queue is empty, and every delivery that arrived has its one answer. A
-- batch must have room for one delivery.
pub run_answers_all :
    (limit : ℕ) (es : List Event) (n x : ℕ)
    → 0 < limit
    → AllCommit es
    → 3 * length (run limit es no_calls).batch.queue + 4 ≤ n
    → let c = run limit (es ++ steps n) no_calls in
      (c.leaders ≡ []) × (c.batch.queue ≡ []) × (times_answered x c.answers ≡ times x (arrivals es))
unfolding IsDone
run_answers_all limit es n x g a m =
    let c0 = run limit es no_calls in
    let served : Served c0.batch.queue c0.batch.active c0.leaders =
      run-Served limit es no_calls a (refl, refl) in
    let ended : IsDone (run limit (es ++ steps n) no_calls) =
      subst IsDone (sym (run-append limit es (steps n) no_calls)) (
        run-steps limit n c0.batch.queue c0.batch.active c0.leaders c0.answers g served
          (omega (arith, total_rank-le c0.batch.queue c0.batch.active c0.leaders served))) in
    (
      ended.0,
      ended.1,
      omega (
        arith,
        run_conserves limit (es ++ steps n) x,
        ap (times x) (arrivals-steps es n),
        ap (times x) ended.1,
        ap (λ ls. times x (all_in_flight ls)) ended.0,
      ),
    )
