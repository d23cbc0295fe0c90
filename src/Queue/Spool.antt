-- ===== src/Queue/Spool.antt =====
-- The key spaces of the queue as typed data: rows by message, the due index, the message counter.
-- A transaction stages writes and commits them together (`Store.WriteBuf`); here a write names what
-- it changes.
pub mod Reads
use mailezine.Prelude.{ℕ, List, [], ◌∷◌, Option, Bool}
use mailezine.Prelude.NatMap
use mailezine.Queue.Message.{Message}

pub record Spool : Type 0 where
  pub rows : List (ℕ × Message)
  pub due : List (ℕ × ℕ)
  pub counter : ℕ

pub data SpoolOp : Type 0 where
  put_row : ℕ → Message → SpoolOp
  delete_row : ℕ → SpoolOp
  put_due : ℕ → ℕ → SpoolOp
  delete_due : ℕ → ℕ → SpoolOp
  put_counter : ℕ → SpoolOp

abbrev pub empty : Spool
empty = record { rows = []; due = []; counter = 0 }

unfoldable pub row : Spool → ℕ → Option Message
row s id = NatMap.get id s.rows

unfoldable pub is_due : Spool → ℕ → ℕ → Bool
is_due s t id = NatMap.has t id s.due

unfoldable pub apply : Spool → SpoolOp → Spool
apply s (put_row id m) = record s { rows = NatMap.put id m s.rows }
apply s (delete_row id) = record s { rows = NatMap.delete id s.rows }
apply s (put_due t id) = record s { due = NatMap.add t id s.due }
apply s (delete_due t id) = record s { due = NatMap.remove t id s.due }
apply s (put_counter n) = record s { counter = n }

unfoldable pub commit : Spool → List SpoolOp → Spool
unfolding apply
commit s [] = s
commit s (op ∷ ops) = commit (apply s op) ops

pub data Error : Type 0 where
  not_found being_delivered already_terminal no_recipients no_body : Error

pub data Result {ℓ} (A : Type ℓ) : Type ℓ where
  ok : A → Result A
  err : Error → Result A

-- A closure of `WithTxn` reads the spool as it stood and returns its writes; an error drops them.
abbrev pub settle {ℓ} : {A : Type ℓ} → Spool → Result (A × List SpoolOp) → Result A × Spool
settle s (ok (a, ops)) = (ok a, commit s ops)
settle s (err e) = (err e, s)
