-- ===== src/Queue/Claim/Due.antt =====
-- The scan of `ProcessDue` (`internal/queue/queue.go`) stops at the first entry after now, and loses
-- nothing by it.
use mailezine.Prelude.{
  ℕ, ◌<◌, ◌^◌, ◌≡◌, refl, false, List, [], ◌∷◌, All, if◌then◌else◌, leb, arith, Bool-cases, inl,
  inr,
}
use mailezine.Prelude.NatMap.{AllAfter, IsAscending, compare_pair}
use mailezine.Queue.Message.{unix, signed}
use mailezine.Queue.Spool.{Spool}
use mailezine.Queue.Claim.{due_scan, process_due}

-- The messages of all entries at or before a second, wherever they stand.
abbrev pub all_due : ℕ → List (ℕ × ℕ) → List ℕ
all_due t [] = []
all_due t ((ts, id) ∷ l) = if leb ts t then id ∷ all_due t l else all_due t l

-- Seconds after 1970, as a signed number of 64 bits holds them.
abbrev pub IsSmall : List (ℕ × ℕ) → Type 0
IsSmall = All (λ e. e.0 < 2 ^ 63)

none_due : (t s j : ℕ) (l : List (ℕ × ℕ)) → t < s → AllAfter s j l → all_due t l ≡ []
unfolding compare_pair
none_due t s j [] h a = refl
none_due t s j ((ts, id) ∷ l) h a = ground (arith, none_due t s j l h a.1, a.0, h)

scan-all_due :
    (now : ℕ) (l : List (ℕ × ℕ))
    → unix now < 2 ^ 63
    → IsSmall l
    → IsAscending l
    → due_scan now l ≡ all_due (unix now) l
unfolding due_scan signed
scan-all_due now [] h small asc = refl
scan-all_due now ((ts, id) ∷ l) h small asc = elim (Bool-cases (leb ts (unix now))) [
  | inl due ↦ ground (arith, scan-all_due now l h small.1 asc.1, due, small.0, h)
  | inr later ↦ ground (arith, none_due (unix now) ts id l, asc.0, later, small.0, h)
]

-- A manager that is not paused hands out the messages of all entries whose time has come, in the
-- order of the index, if the index is in ascending order and its times are not before 1970.
pub process_due-all_due :
    (now : ℕ) (s : Spool)
    → unix now < 2 ^ 63
    → IsSmall s.due
    → IsAscending s.due
    → process_due false now s ≡ all_due (unix now) s.due
unfolding process_due
process_due-all_due now s h small asc = scan-all_due now s.due h small asc
