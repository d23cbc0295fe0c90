-- ===== src/Queue/Spool/Reads.antt =====
-- What a row and a place of the due index hold after one write.
use mailezine.Prelude.{ℕ, ◌≡◌, refl, Option, none, some, Bool, true, false, if◌then◌else◌, ◌==◌}
use mailezine.Prelude.NatMap
use mailezine.Prelude.NatMap.{same_pair}
use mailezine.Queue.Message.{Message}
use mailezine.Queue.Spool.{
  Spool, SpoolOp, put_row, delete_row, put_due, delete_due, put_counter, row, is_due, apply,
}

abbrev row_write : SpoolOp → ℕ → Option Message → Option Message
row_write (put_row id m) j held = if id == j then some m else held
row_write (delete_row id) j held = if id == j then none else held
row_write _ j held = held

abbrev due_write : SpoolOp → ℕ → ℕ → Bool → Bool
due_write (put_due t id) u j held = if same_pair t id u j then true else held
due_write (delete_due t id) u j held = if same_pair t id u j then false else held
due_write _ u j held = held

pub row-apply : (s : Spool) (op : SpoolOp) (j : ℕ) → row (apply s op) j ≡ row_write op j (row s j)
unfolding row apply
row-apply s (put_row id m) j = NatMap.get-put id j m s.rows
row-apply s (delete_row id) j = NatMap.get-delete id j s.rows
row-apply s (put_due t id) j = refl
row-apply s (delete_due t id) j = refl
row-apply s (put_counter n) j = refl

pub is_due-apply :
    (s : Spool) (op : SpoolOp) (u j : ℕ) → is_due (apply s op) u j ≡ due_write op u j (is_due s u j)
unfolding is_due apply
is_due-apply s (put_row id m) u j = refl
is_due-apply s (delete_row id) u j = refl
is_due-apply s (put_due t id) u j = NatMap.has-add t id u j s.due
is_due-apply s (delete_due t id) u j = NatMap.has-remove t id u j s.due
is_due-apply s (put_counter n) u j = refl
