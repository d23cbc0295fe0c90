-- ===== src/Store/WriteBuf.antt =====
-- `internal/store/txn.go`: the write buffer that serves `WithTxn` over a plain engine. Writes are
-- staged with one operation to a key; reads look into the buffer before the engine.
pub mod Staging
pub mod Reads
use mailezine.Prelude.{
  ℕ, zero, suc, ◌≡◌, Bool, true, false, List, [], ◌∷◌, ◌++◌, Option, none, some, if◌then◌else◌,
  length, not, ◌&&◌,
}
use mailezine.Bytes.{Bytes, bytes_eq, has_prefix}
use mailezine.Bytes.Assoc
use mailezine.Store.Kv.{Op, Entry, Kv, put_op, delete_op}

-- What a closure returns: a value, or an error that aborts the transaction.
pub data Result {ℓ} (A : Type ℓ) : Type ℓ where
  ok : A → Result A
  err : Bytes → Result A

abbrev pub op_at : List Op → ℕ → Option Op
op_at [] i = none
op_at (op ∷ ops) zero = some op
op_at (op ∷ ops) (suc i) = op_at ops i

abbrev pub set_op : List Op → ℕ → Op → List Op
set_op [] i op = []
set_op (_ ∷ ops) zero op = op ∷ ops
set_op (o ∷ ops) (suc i) op = o ∷ set_op ops i op

-- `staged[string(op.Key)]` of `Scan`: some staged operation under the prefix names the key.
unfoldable pub is_staged : Bytes → List Op → Bytes → Bool
is_staged prefix [] k = false
is_staged prefix (op ∷ ops) k =
    if has_prefix prefix op.key && bytes_eq op.key k then true else is_staged prefix ops k

-- The first loop of `Scan`: the staged puts under the prefix.
unfoldable pub staged_puts : Bytes → List Op → List Entry
staged_puts prefix [] = []
staged_puts prefix (op ∷ ops) =
    let rest = staged_puts prefix ops in
    if has_prefix prefix op.key
    then (if op.delete then rest else (op.key, op.value) ∷ rest)
    else rest

module _ (kv : Kv) where
  open kv use {State, get as base_get, scan as base_scan, batch}

  -- `idx` gives the position of a key's operation in `ops`.
  pub record WriteBuf : Type 0 where
    pub base : State
    pub idx : List (Bytes × ℕ)
    pub ops : List Op

  unfoldable pub fresh : State → WriteBuf
  fresh s = record { base = s; idx = []; ops = [] }

  abbrev stage_at : WriteBuf → Op → Option ℕ → WriteBuf
  stage_at w op (some i) = record w { ops = set_op w.ops i op }
  stage_at w op none = record w {
    idx = Assoc.put op.key (length w.ops) w.idx;
    ops = w.ops ++ op ∷ [];
  }

  unfoldable pub stage : WriteBuf → Op → WriteBuf
  stage w op = stage_at w op (Assoc.get op.key w.idx)

  abbrev read_op : State → Bytes → Option Op → Option Bytes
  read_op s k none = none
  read_op s k (some op) = if op.delete then none else some op.value

  abbrev read_at : WriteBuf → Bytes → Option ℕ → Option Bytes
  read_at w k (some i) = read_op w.base k (op_at w.ops i)
  read_at w k none = base_get w.base k

  unfoldable pub get : WriteBuf → Bytes → Option Bytes
  get w k = read_at w k (Assoc.get k w.idx)

  unfoldable pub put : WriteBuf → Bytes → Bytes → WriteBuf
  unfolding stage
  put w k v = stage w (put_op k v)

  unfoldable pub delete : WriteBuf → Bytes → WriteBuf
  unfolding stage
  delete w k = stage w (delete_op k)

  unfoldable pub append : WriteBuf → List Op → WriteBuf
  unfolding stage
  append w [] = w
  append w (op ∷ ops) = append (stage w op) ops

  -- The sequence of entries that `Scan` hands to its callback.
  unfoldable pub scan : WriteBuf → Bytes → List Entry
  scan w prefix = Assoc.sort_by_key (
      staged_puts prefix w.ops
      ++ Assoc.filter_keys (λ k. not (is_staged prefix w.ops k)) (base_scan w.base prefix))

  abbrev pub commit {ℓ} : {A : Type ℓ} → State → Result (A × WriteBuf) → Result A × State
  commit s (err e) = (err e, s)
  commit s (ok (a, w)) = (ok a, batch s w.ops)

  -- `bufTxn.WithTxn`: the closure runs once, and its staged writes go to the engine in one batch.
  unfoldable pub with_txn {ℓ} :
      {A : Type ℓ} → (WriteBuf → Result (A × WriteBuf)) → State → Result A × State
  unfolding fresh
  with_txn fn s = commit s (fn (fresh s))
