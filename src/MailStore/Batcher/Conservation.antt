-- ===== src/MailStore/Batcher/Conservation.antt =====
-- No delivery is lost or answered twice (`internal/mailstore/kv.go`, `runBatch`).
use mathlib.Core.List.{append_assoc}
use mailezine.Prelude.{
  ap, sym, ◌∙◌, ℕ, zero, suc, ◌+◌, ◌≡◌, refl, Bool, true, false, List, [], ◌∷◌, ◌++◌, Option, none,
  some, ◌==◌, take, drop, arith, if◌then◌else◌,
}
use mailezine.MailStore.Batcher.{
  AccountBatch, Leader, Calls, Event, arrive, step, opened, committing, resigning, taking, failing,
  leaving, no_calls, run, happen, lead, join, take_queued, resign_if_empty, step_at, Answer,
  answer_all, replaced, fail_limit, after_fail, after_take, arrived, Stepped,
}

-- How often a request stands in a list.
abbrev pub times : ℕ → List ℕ → ℕ
times x [] = 0
times x (y ∷ ys) = (if x == y then 1 else 0) + times x ys

abbrev pub times_answered : ℕ → List Answer → ℕ
times_answered x [] = 0
times_answered x ((y, _) ∷ ys) = (if x == y then 1 else 0) + times_answered x ys

-- The requests that a leader has taken and not answered.
abbrev pub in_flight : Leader → List ℕ
in_flight (opened req) = req ∷ []
in_flight (committing reqs) = reqs
in_flight _ = []

abbrev pub all_in_flight : List Leader → List ℕ
all_in_flight [] = []
all_in_flight (l ∷ ls) = in_flight l ++ all_in_flight ls

-- The requests that arrive.
abbrev pub arrivals : List Event → List ℕ
arrivals [] = []
arrivals (arrive req ∷ es) = req ∷ arrivals es
arrivals (step _ _ ∷ es) = arrivals es

times-append : (x : ℕ) (a b : List ℕ) → times x (a ++ b) ≡ times x a + times x b
times-append x [] b = omega arith
times-append x (y ∷ a) b = omega (arith, times-append x a b)

times_answered-append :
    (x : ℕ) (a b : List Answer)
    → times_answered x (a ++ b) ≡ times_answered x a + times_answered x b
times_answered-append x [] b = omega arith
times_answered-append x ((y, _) ∷ a) b = omega (arith, times_answered-append x a b)

times-take : (x n : ℕ) (a : List ℕ) → times x (take n a) + times x (drop n a) ≡ times x a
times-take x zero a = omega arith
times-take x (suc n) [] = omega arith
times-take x (suc n) (y ∷ a) = omega (arith, times-take x n a)

times_answered-answer_all :
    (x : ℕ) (done : Bool) (a : List ℕ) → times_answered x (answer_all done a) ≡ times x a
times_answered-answer_all x done [] = refl
times_answered-answer_all x done (y ∷ a) = omega (arith, times_answered-answer_all x done a)

all_in_flight-append :
    (x : ℕ) (a b : List Leader)
    → times x (all_in_flight (a ++ b)) ≡ times x (all_in_flight a) + times x (all_in_flight b)
all_in_flight-append x [] b = omega arith
all_in_flight-append x (l ∷ a) b = omega (
  arith,
  all_in_flight-append x a b,
  times-append x (in_flight l) (all_in_flight (a ++ b)),
  times-append x (in_flight l) (all_in_flight a),
)

-- What a request counts in the queue, with the leaders and among the answers.
abbrev weight : ℕ → Calls → ℕ
weight x c =
    times_answered x c.answers + (times x c.batch.queue + times x (all_in_flight c.leaders))

abbrev stepped_weight : ℕ → Stepped → ℕ
stepped_weight x r =
    times_answered x r.answers
    + (times x r.batch.queue + times x (all_in_flight (replaced r.leader [])))

after_fail_weight :
    (x : ℕ) (active : Bool) (rest got : List ℕ)
    → stepped_weight x (after_fail (record { queue = rest; active = active }, got))
      ≡ times x got + times x rest
after_fail_weight x active rest [] = omega arith
after_fail_weight x active rest (y ∷ got) = omega (arith, times_answered-answer_all x false got)

after_take_weight :
    (x : ℕ) (active : Bool) (rest first got : List ℕ)
    → stepped_weight x (after_take first (record { queue = rest; active = active }, got))
      ≡ times x first + (times x got + times x rest)
after_take_weight x active rest first got =
    omega (arith, times-append x (first ++ got) [], times-append x first got)

lead_weight :
    (x limit : ℕ) (commits : Bool) (l : Leader) (q : List ℕ) (active : Bool)
    → stepped_weight x (lead limit commits l (record { queue = q; active = active }))
      ≡ times x (in_flight l) + times x q
unfolding lead take_queued resign_if_empty
lead_weight x limit commits (opened req) q active = omega (
  arith,
  after_take_weight x active (drop limit q) (req ∷ []) (take limit q),
  times-take x limit q,
)
lead_weight x limit true (committing reqs) q active =
    omega (arith, times_answered-answer_all x true reqs)
lead_weight x limit false (committing reqs) q active =
    omega (arith, times_answered-answer_all x false reqs)
lead_weight x limit commits resigning [] active = omega arith
lead_weight x limit commits resigning (_ ∷ _) active = omega arith
lead_weight x limit commits taking q active =
    omega (arith, after_take_weight x active (drop limit q) [] (take limit q), times-take x limit q)
lead_weight x limit commits failing q active = omega (
  arith,
  after_fail_weight x active (drop fail_limit q) (take fail_limit q),
  times-take x fail_limit q,
)
lead_weight x limit commits leaving [] active = omega arith
lead_weight x limit commits leaving (_ ∷ _) active = omega arith

replaced_weight :
    (x : ℕ) (o : Option Leader) (ls : List Leader)
    → times x (all_in_flight (replaced o ls))
      ≡ times x (all_in_flight (replaced o [])) + times x (all_in_flight ls)
replaced_weight x none ls = omega arith
replaced_weight x (some l) ls =
    omega (arith, times-append x (in_flight l) (all_in_flight ls), times-append x (in_flight l) [])

step_at_weight :
    (x limit : ℕ) (commits : Bool) (n : ℕ) (c : Calls) (before ls : List Leader)
    → c.leaders ≡ before ++ ls
    → weight x (step_at limit commits n c before ls) ≡ weight x c
step_at_weight x limit commits n c before [] h = refl
step_at_weight x limit commits zero c before (l ∷ ls) h =
    let r = lead limit commits l c.batch in
    omega (
      arith,
      lead_weight x limit commits l c.batch.queue c.batch.active,
      times_answered-append x c.answers r.answers,
      all_in_flight-append x before (replaced r.leader ls),
      replaced_weight x r.leader ls,
      ap (λ m. times x (all_in_flight m)) h,
      all_in_flight-append x before (l ∷ ls),
      times-append x (in_flight l) (all_in_flight ls),
    )
step_at_weight x limit commits (suc n) c before (l ∷ ls) h =
    step_at_weight x limit commits n c (before ++ l ∷ []) ls
      (h ∙ sym (append_assoc before (l ∷ []) ls))

arrived_weight :
    (x req : ℕ) (q : List ℕ) (active : Bool) (ls : List Leader) (answers : List Answer)
    → let ab : AccountBatch = record { queue = q; active = active } in
      let c : Calls = record { batch = ab; leaders = ls; answers = answers } in
      weight x (arrived req c (join req ab)) ≡ weight x c + times x (req ∷ [])
unfolding join
arrived_weight x req q true ls answers = omega (arith, times-append x q (req ∷ []))
arrived_weight x req q false ls answers =
    omega (arith, times-append x (req ∷ []) (all_in_flight ls))

happen_weight :
    (x limit : ℕ) (e : Event) (c : Calls)
    → weight x (happen limit e c) ≡ weight x c + times x (arrivals (e ∷ []))
unfolding happen join
happen_weight x limit (arrive req) c =
    arrived_weight x req c.batch.queue c.batch.active c.leaders c.answers
happen_weight x limit (step n commits) c =
    omega (arith, step_at_weight x limit commits n c [] c.leaders refl)

arrivals_weight :
    (x : ℕ) (e : Event) (es : List Event)
    → times x (arrivals (e ∷ es)) ≡ times x (arrivals (e ∷ [])) + times x (arrivals es)
arrivals_weight x (arrive req) es = omega arith
arrivals_weight x (step n commits) es = omega arith

pub run_weight :
    (x limit : ℕ) (es : List Event) (c : Calls)
    → weight x (run limit es c) ≡ weight x c + times x (arrivals es)
unfolding run
run_weight x limit [] c = omega arith
run_weight x limit (e ∷ es) c = omega (
  arith,
  run_weight x limit es (happen limit e c),
  happen_weight x limit e c,
  arrivals_weight x e es,
)

-- However the calls for an account interleave and whatever the commits give, each delivery that
-- arrived either has its one answer, or waits in the queue, or is in the hands of a leader: none is
-- lost and none is answered twice.
pub run_conserves :
    (limit : ℕ) (es : List Event) (x : ℕ)
    → let c = run limit es no_calls in
      times_answered x c.answers + (times x c.batch.queue + times x (all_in_flight c.leaders))
      ≡ times x (arrivals es)
run_conserves limit es x = omega (arith, run_weight x limit es no_calls)
