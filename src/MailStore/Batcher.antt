-- ===== src/MailStore/Batcher.antt =====
-- The micro-batches of deliveries (`internal/mailstore/kv.go`, `deliverBatcher` and `runBatch`): the
-- first call for an account leads and commits for the calls that come while it does. A step is what
-- one call does while it holds the mutex of the account, or one commit. A request is a number, and
-- its answer is whether the commit went through.
pub mod Conservation
pub mod Leadership
pub mod Answered
use mailezine.Prelude.{
  ℕ, zero, suc, ◌+◌, Bool, true, false, List, [], ◌∷◌, ◌++◌, Option, none, some, if◌then◌else◌,
  length, take, drop, ◌==◌,
}

-- `perAccountBatch`
pub record AccountBatch : Type 0 where
  pub queue : List ℕ
  pub active : Bool

-- `deliverBatcher.submit`: true if a leader is there and the request waits for it.
unfoldable pub join : ℕ → AccountBatch → AccountBatch × Bool
join req ab =
    if ab.active
    then (record ab { queue = ab.queue ++ req ∷ [] }, true)
    else (record ab { active = true }, false)

-- `deliverBatcher.take`
unfoldable pub take_queued : ℕ → AccountBatch → AccountBatch × List ℕ
take_queued limit ab = (record ab { queue = drop limit ab.queue }, take limit ab.queue)

-- `deliverBatcher.resignIfEmpty` of an empty queue and of another.
abbrev pub resigned : AccountBatch → List ℕ → AccountBatch × Bool
resigned ab [] = (record ab { active = false }, true)
resigned ab (_ ∷ _) = (ab, false)

unfoldable pub resign_if_empty : AccountBatch → AccountBatch × Bool
resign_if_empty ab = resigned ab ab.queue

-- Where the call of a leader stands in `runBatch`: before its first take, before a commit, before it
-- resigns, before a further take; after a failed commit in `failAll`, and before its last call.
pub data Leader : Type 0 where
  opened : ℕ → Leader
  committing : List ℕ → Leader
  resigning taking failing leaving : Leader

-- A request with its answer.
abbrev pub Answer : Type 0
Answer = ℕ × Bool

abbrev pub answer_all : Bool → List ℕ → List Answer
answer_all done [] = []
answer_all done (req ∷ reqs) = (req, done) ∷ answer_all done reqs

-- What one step of a leader leaves: the batch, the leader if its call goes on, and the answers.
pub record Stepped : Type 0 where
  pub batch : AccountBatch
  pub leader : Option Leader
  pub answers : List Answer

-- `1<<30`
abbrev pub fail_limit : ℕ
fail_limit = 1_073_741_824

abbrev pub after_resign : AccountBatch × Bool → Stepped
after_resign (ab, true) = record { batch = ab; leader = none; answers = [] }
after_resign (ab, false) = record { batch = ab; leader = some taking; answers = [] }

abbrev pub after_take : List ℕ → AccountBatch × List ℕ → Stepped
after_take reqs (ab, more) = record {
  batch = ab;
  leader = some (committing (reqs ++ more));
  answers = [];
}

abbrev pub after_fail : AccountBatch × List ℕ → Stepped
after_fail (ab, []) = record { batch = ab; leader = some leaving; answers = [] }
after_fail (ab, req ∷ reqs) = record {
  batch = ab;
  leader = some failing;
  answers = answer_all false (req ∷ reqs);
}

-- One step of `runBatch`; `commits` says whether a commit goes through.
unfoldable pub lead : ℕ → Bool → Leader → AccountBatch → Stepped
unfolding take_queued resign_if_empty
lead limit commits (opened req) ab = after_take (req ∷ []) (take_queued limit ab)
lead limit true (committing reqs) ab = record {
  batch = ab;
  leader = some resigning;
  answers = answer_all true reqs;
}
lead limit false (committing reqs) ab = record {
  batch = ab;
  leader = some failing;
  answers = answer_all false reqs;
}
lead limit commits resigning ab = after_resign (resign_if_empty ab)
lead limit commits taking ab = after_take [] (take_queued limit ab)
lead limit commits failing ab = after_fail (take_queued fail_limit ab)
lead limit commits leaving ab = record {
  batch = (resign_if_empty ab).0;
  leader = none;
  answers = [];
}

-- The calls for one account: its batch, the calls that lead, and the answers so far.
pub record Calls : Type 0 where
  pub batch : AccountBatch
  pub leaders : List Leader
  pub answers : List Answer

abbrev pub no_calls : Calls
no_calls = record { batch = record { queue = []; active = false }; leaders = []; answers = [] }

-- What happens next: a delivery arrives, or the leader at a place takes a step.
pub data Event : Type 0 where
  arrive : ℕ → Event
  step : ℕ → Bool → Event

abbrev pub replaced : Option Leader → List Leader → List Leader
replaced none rest = rest
replaced (some l) rest = l ∷ rest

abbrev pub arrived : ℕ → Calls → AccountBatch × Bool → Calls
arrived req c (ab, true) = record c { batch = ab }
arrived req c (ab, false) = record c { batch = ab; leaders = opened req ∷ c.leaders }

-- The step of the leader at a place, `before` in reverse order being those passed over.
abbrev pub step_at : ℕ → Bool → ℕ → Calls → List Leader → List Leader → Calls
step_at limit commits n c before [] = c
step_at limit commits zero c before (l ∷ ls) =
    let r = lead limit commits l c.batch in
    record {
      batch = r.batch;
      leaders = before ++ replaced r.leader ls;
      answers = c.answers ++ r.answers;
    }
step_at limit commits (suc n) c before (l ∷ ls) = step_at limit commits n c (before ++ l ∷ []) ls

unfoldable pub happen : ℕ → Event → Calls → Calls
unfolding join lead
happen limit (arrive req) c = arrived req c (join req c.batch)
happen limit (step n commits) c = step_at limit commits n c [] c.leaders

unfoldable pub run : ℕ → List Event → Calls → Calls
unfolding happen
run limit [] c = c
run limit (e ∷ es) c = run limit es (happen limit e c)
