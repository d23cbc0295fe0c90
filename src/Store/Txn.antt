-- ===== src/Store/Txn.antt =====
-- `internal/store/kv.go`: engines with transactions. A `TxnOps` handle has the operations of an engine,
-- `batch` being its `Append`, and reads its own writes. `Txn.Buffer` is the one that `AsTxn` makes of
-- any engine (`internal/store/txn.go`).
pub mod Buffer
use mailezine.Prelude.{ℕ, ◌≡◌, Bool, true, false, List, [], ◌∷◌, Option, none, some}
use mailezine.Bytes.{Bytes}
use mailezine.Store.Kv.{Kv, Op, put_op, delete_op}

-- The errors of `internal/store` by kind.
pub data Error : Type 0 where
  not_found exists corrupt not_marked_deleted : Error

pub data Result {ℓ} (A : Type ℓ) : Type ℓ where
  ok : A → Result A
  err : Error → Result A

infixl 5 ◌>>=◌
abbrev pub ◌>>=◌ {ℓ κ} : {A : Type ℓ} {B : Type κ} → Result A → (A → Result B) → Result B
ok a >>= f = f a
err e >>= f = err e

-- `TxnKV`: how the handle of a transaction starts from the engine's state and ends in it.
pub record TxnKv : Type 1 where
  pub kv : Kv
  pub ops : Kv
  pub begin : kv.State → ops.State
  pub commit : ops.State → kv.State
  pub get-begin : (s : kv.State) (k : Bytes) → ops.get (begin s) k ≡ kv.get s k
  pub get-commit : (t : ops.State) (k : Bytes) → kv.get (commit t) k ≡ ops.get t k

module _ (db : TxnKv) where
  open db use {kv, ops, begin, commit}

  abbrev pub settle {ℓ} : {A : Type ℓ} → kv.State → Result (A × ops.State) → Result A × kv.State
  settle s (ok (a, t)) = (ok a, commit t)
  settle s (err e) = (err e, s)

  -- `WithTxn`: an error of the closure drops what it staged.
  unfoldable pub with_txn {ℓ} :
      {A : Type ℓ} → (ops.State → Result (A × ops.State)) → kv.State → Result A × kv.State
  with_txn fn s = settle s (fn (begin s))

-- An engine whose transactions are its own batches.
abbrev pub direct : Kv → TxnKv
direct kv = record {
  kv = kv;
  ops = kv;
  begin = λ s. s;
  commit = λ s. s;
  get-begin = λ s k. mathlib.Core.Path.refl;
  get-commit = λ t k. mathlib.Core.Path.refl;
}
