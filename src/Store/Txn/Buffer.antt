-- ===== src/Store/Txn/Buffer.antt =====
-- Transactions over any engine by a write buffer (`internal/store/txn.go`): the handle's laws.
use mailezine.Prelude.{◌≡◌, sym, ap, ◌∙◌, List, none, if◌then◌else◌}
use mailezine.Bytes.{Bytes, has_prefix}
use mailezine.Bytes.Assoc
use mailezine.Bytes.Assoc.{IsSorted}
use mailezine.Store.Kv.{Op, Kv, after_ops}
use mailezine.Store.WriteBuf
use mailezine.Store.WriteBuf.{WriteBuf, fresh, append, scan}
use mailezine.Store.WriteBuf.Reads.{
  IsBuffer, fresh-IsBuffer, append-IsBuffer, get-IsBuffer, get-unsorted, base-append,
  after_ops-append_buffer,
}
use mailezine.Store.Txn.{TxnKv}

module _ (kv : Kv) where
  pub get-append_buffer :
      (w : WriteBuf kv) (ops : List Op) (k : Bytes)
      → IsBuffer kv w
      → WriteBuf.get kv (append kv w ops) k ≡ after_ops ops k (WriteBuf.get kv w k)
  get-append_buffer w ops k b =
      get-IsBuffer kv (append kv w ops) k (append-IsBuffer kv w ops b)
      ∙ ap (λ s. after_ops (append kv w ops).ops k (kv.get s k)) (base-append kv w ops)
      ∙ after_ops-append_buffer kv w ops k (kv.get w.base k) b
      ∙ ap (after_ops ops k) (sym (get-IsBuffer kv w k b))

  pub get-scan_buffer :
      (w : WriteBuf kv) (p k : Bytes)
      → IsBuffer kv w
      → Assoc.get k (scan kv w p) ≡ (if has_prefix p k then WriteBuf.get kv w k else none)
  unfolding scan
  get-scan_buffer w p k b =
      Assoc.get-sort_by_key k _
      ∙ get-unsorted kv w p k b
      ∙ ap (λ o. if has_prefix p k then o else none) (sym (get-IsBuffer kv w k b))

  pub scan_buffer-IsSorted : (w : WriteBuf kv) (p : Bytes) → IsSorted (scan kv w p)
  unfolding scan
  scan_buffer-IsSorted w p = Assoc.sort_by_key-IsSorted _

  pub get-fresh_buffer : (s : kv.State) (k : Bytes) → WriteBuf.get kv (fresh kv s) k ≡ kv.get s k
  unfolding fresh after_ops
  get-fresh_buffer s k = get-IsBuffer kv (fresh kv s) k (fresh-IsBuffer kv s)

  pub get-commit_buffer :
      (w : WriteBuf kv) (k : Bytes)
      → IsBuffer kv w
      → kv.get (kv.batch w.base w.ops) k ≡ WriteBuf.get kv w k
  get-commit_buffer w k b = kv.get-batch w.base w.ops k ∙ sym (get-IsBuffer kv w k b)

-- The handle: a buffer that was made by staging.
abbrev pub handle : Kv → Kv
handle kv = record {
  State = (w : WriteBuf kv) × IsBuffer kv w;
  get = λ t k. WriteBuf.get kv t.0 k;
  scan = λ t p. WriteBuf.scan kv t.0 p;
  batch = λ t ops. (append kv t.0 ops, append-IsBuffer kv t.0 ops t.1);
  get-batch = λ t ops k. get-append_buffer kv t.0 ops k t.1;
  scan-IsSorted = λ t p. scan_buffer-IsSorted kv t.0 p;
  get-scan = λ t p k. get-scan_buffer kv t.0 p k t.1;
}

-- `AsTxn`
abbrev pub as_txn : Kv → TxnKv
as_txn kv = record {
  kv = kv;
  ops = handle kv;
  begin = λ s. (fresh kv s, fresh-IsBuffer kv s);
  commit = λ t. kv.batch t.0.base t.0.ops;
  get-begin = λ s k. get-fresh_buffer kv s k;
  get-commit = λ t k. get-commit_buffer kv t.0 k t.1;
}
