-- ===== src/Tests/Queue.antt =====
-- The theorems of `Queue` at concrete messages, nodes and times.
use mailezine.Queue.Retention.{retry_restarts}
use mailezine.Queue.Message.{deferred, due_pos, second, unix, Message, is_terminal}
use mailezine.Queue.Outcome.{maybe_delay_warning, outcome, commit_outcome, count_pending}
use mailezine.Queue.Process.{after_commit, finish, process_message, untouched}
use mailezine.Queue.System.Overwrite.{cancelled_returns}
use mailezine.Prelude.{◌+◌, ◌≡◌, refl, arith, [], ◌∷◌, none, some, true, false, ◌*◌, ℕ}
use mailezine.Prelude.NatMap
use mailezine.Prelude.NatMap.{IsAscending, compare_pair}
use mailezine.Queue.Spool.{commit, Spool, empty, row, is_due, ok}
use mailezine.Queue.Claim.{claim, claimed, is_live_claim}
use mailezine.Store.Key.{codes}
use mailezine.Queue.Admin.{next_id, new_message, save, cancel, prune_terminal, retry}
use mailezine.Queue.Outcome.Verdict.{verdict, outcome-verdict, outcome_exhausted}
use mailezine.Queue.Outcome.Progress.{Progress, outcome-Progress}
use mailezine.Queue.Index.{IsIndexed, expects}
use mailezine.Queue.System.{World, start, Reach, here, next, numbers, submits, retries, ticks}
use mailezine.Queue.System.Safety.{IsCalm, due_index_exact}
use mailezine.Queue.Fencing.{late_outcome_dropped}
use mailezine.Queue.System.Exclusion.{AllAside, claim_exclusive}
use mailezine.Queue.Pruning.{prune_drops}
use mailezine.Queue.Delivery.{Holds, process_message-records, process_message_last}
use mailezine.Tests.Data.{
  node_a, node_b, letter, second_try, abandoned, sent, holding, body_of, refused, down, steady,
}

-- A submission by one node: its number, then its row.
numbered : World
unfolding next_id
numbered = record start {
  spool = commit empty (next_id empty).1;
  reserved = (next_id empty).0 ∷ [];
}

stored : World
unfolding numbered
stored = record numbered {
  spool = save 0 (new_message node_a 0 1 (codes "ann") (codes "bob" ∷ []) [] 4) 0 numbered.spool;
  reserved = [];
}

submitted : Reach start stored
unfolding numbered stored next_id
submitted =
    next (next here (numbers (omega arith)))
      (submits [] 1 [] node_a (codes "ann") (codes "bob" ∷ []) [] 4 refl)

submitted-IsCalm : IsCalm submitted
submitted-IsCalm = unfold submitted in ((tt, tt), tt)

due_index_exact_example : is_due stored.spool (unix 0) 1 ≡ expects (row stored.spool 1) (unix 0)
due_index_exact_example = due_index_exact submitted submitted-IsCalm (unix 0) 1

taken_letter : (claim node_a 100 1 (holding letter)).0 ≡ ok (some (claimed node_a 100 letter))
unfolding claim claimed row NatMap.get is_terminal is_live_claim
taken_letter = refl

letter-row : row (holding letter) 1 ≡ some letter
unfolding row NatMap.get
letter-row = refl

-- The letter claimed by one node; then an operator asks for a retry, and time goes on.
abbrev spooled : World
spooled = record start { spool = holding letter; now = 100 }

abbrev in_delivery : World
in_delivery = record spooled {
  spool = (claim node_a 100 1 (holding letter)).1;
  workers = claimed node_a 100 letter ∷ [];
}

abbrev later_on : World
later_on = record in_delivery { spool = (retry 100 1 in_delivery.spool).1; now = 200 }

retried : Reach in_delivery later_on
retried = next (next here (retries 1)) (ticks 100)

retried-AllAside : AllAside 1 node_a.node_id retried
retried-AllAside = unfold retried in ((tt, tt), tt)

claim_exclusive_example : claim node_b 200 1 later_on.spool ≡ (ok none, later_on.spool)
claim_exclusive_example =
    claim_exclusive node_a node_b 1 spooled (claimed node_a 100 letter) retried taken_letter
      retried-AllAside (omega arith)

taken_by_b : (claim node_b 100 1 (holding letter)).0 ≡ ok (some (claimed node_b 100 letter))
unfolding claim claimed row NatMap.get is_terminal is_live_claim
taken_by_b = refl

letter_waits : is_terminal letter.state ≡ false
unfolding is_terminal
letter_waits = refl

letter_free : is_live_claim 100 letter ≡ false
unfolding is_live_claim
letter_free = refl

second_free : is_live_claim 100 second_try ≡ false
unfolding is_live_claim
second_free = refl

second_row : row (holding second_try) 1 ≡ some second_try
unfolding row NatMap.get
second_row = refl

sent-row : row (holding sent) 1 ≡ some sent
unfolding row NatMap.get
sent-row = refl

sent_over : is_terminal sent.state ≡ true
unfolding is_terminal
sent_over = refl

-- Deferred, and in the index at its place.
abbrev deferred_letter : Message
deferred_letter = record letter { state = deferred }

abbrev waiting : Spool
waiting = record { rows = (1, deferred_letter) ∷ []; due = (unix 50, 1) ∷ []; counter = 1 }

waiting-IsIndexed : IsIndexed waiting
unfolding row NatMap.get is_due NatMap.has is_terminal due_pos
waiting-IsIndexed = record {
  exact = λ t id. ground arith;
  keyed = λ id m e. ground (arith, e);
  numbered = λ id m e. ground (arith, e);
}

withdrawn : (cancel 1 waiting).0 ≡ ok deferred_letter
unfolding cancel row NatMap.get
withdrawn = refl

warned :
    maybe_delay_warning node_a 400 deferred_letter
    ≡ some (record deferred_letter { last_warning_at = 400 })
unfolding maybe_delay_warning
warned = refl

cancelled_returns_example :
    let s' = (after_commit node_a 400 deferred_letter (cancel 1 waiting).1).spool in
    (row s' 1 ≡ some (record deferred_letter { last_warning_at = 400; updated_at = 400 }))
    × ((t : ℕ) → is_due s' t 1 ≡ false)
cancelled_returns_example =
    cancelled_returns node_a 400 1 waiting deferred_letter deferred_letter waiting-IsIndexed
      withdrawn refl refl refl warned

late_outcome_dropped_example :
    finish node_a 110 letter
      (commit_outcome node_a 110 letter (claim node_b 100 1 (holding letter)).1)
    ≡ untouched (claim node_b 100 1 (holding letter)).1
late_outcome_dropped_example =
    late_outcome_dropped node_a node_b 100 110 1 (holding letter) (claimed node_b 100 letter) letter
      taken_by_b (λ e. ground (arith, e)) refl

process_message-records_example :
    (held : Holds
      (outcome steady node_a 100 refused (body_of letter.blob_id) (claimed node_a 100 letter))
      (row (process_message steady node_a body_of refused 100 1 (holding letter)).spool 1))
    × (held.stored.attempts ≡ letter.attempts + 1)
process_message-records_example =
    process_message-records steady node_a body_of refused 100 1 (holding letter) letter letter-row
      refl letter_waits letter_free

process_message_last_example :
    (left : Message) × (row
        (process_message steady node_a body_of down 100 1 (holding second_try)).spool
        1
      ≡ some left)
    × (is_terminal left.state ≡ true)
    × (count_pending left.recipients ≡ 0)
process_message_last_example =
    process_message_last steady node_a body_of down 100 1 (holding second_try) second_try second_row
      refl letter_waits second_free (omega arith)

outcome-verdict_example :
    let out = outcome steady node_a 100 refused (some []) letter in
    out.state ≡ verdict out.recipients
outcome-verdict_example = outcome-verdict steady node_a 100 refused [] letter

outcome_exhausted_example :
    let out = outcome steady node_a 100 down (some []) abandoned in
    (is_terminal out.state ≡ true) × (count_pending out.recipients ≡ 0)
outcome_exhausted_example =
    outcome_exhausted steady node_a 100 down (some []) abandoned (omega arith)

outcome-Progress_example :
    Progress letter.recipients (outcome steady node_a 100 refused (some []) letter).recipients
outcome-Progress_example = outcome-Progress steady node_a 100 refused (some []) letter

retry_restarts_example :
    let s' = (retry 100 1 (holding letter)).1 in
    (is_due s' (unix 100) 1 ≡ true)
    × (finish node_b 200 letter (commit_outcome node_b 200 letter s') ≡ untouched s')
    × (taken : Message) × ((claim node_a 200 1 s').0 ≡ ok (some taken))
    × (taken.attempts ≡ 1)
    × (taken.owner ≡ node_a.node_id)
    × (taken.blob_id ≡ letter.blob_id)
    × (taken.recipients ≡ letter.recipients)
retry_restarts_example =
    retry_restarts node_a node_b 100 200 1 (holding letter) letter letter letter-row refl
      letter_waits refl

prune_drops_example : row (prune_terminal node_a 5000 (holding sent)) 1 ≡ none
prune_drops_example =
    prune_drops node_a 5000 999 (holding sent) 1 sent refl sent-row refl sent_over (omega arith)

abbrev indexed : Spool
indexed = record { rows = []; due = (5, 1) ∷ (5, 2) ∷ (9, 3) ∷ []; counter = 3 }

seven : unix ((7 + 62_135_596_800) * second) ≡ 7
unfolding unix
seven = omega arith

indexed-IsAscending : IsAscending indexed.due
unfolding compare_pair
indexed-IsAscending = ((refl, (refl, tt)), ((refl, tt), (tt, tt)))
