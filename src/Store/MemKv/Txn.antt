-- ===== src/Store/MemKv/Txn.antt =====
-- `MemoryKV.WithTxn` of `internal/store/memkv.go`: a transaction reads the map below its staged
-- operations. Its reads agree with the write buffer's over the same engine.
use mailezine.Prelude.{
  ℕ, ◌≡◌, refl, sym, ap, ◌∙◌, List, [], ◌∷◌, ◌++◌, Option, none, some, if◌then◌else◌, length, arith,
  Option-cases, inl, inr, true, false, Bool-cases,
}
use mailezine.Bytes.{Bytes, has_prefix, bytes_eq_iff}
use mailezine.Bytes.Assoc
use mailezine.Store.Kv.{Op, Entry, after_ops}
use mailezine.Store.WriteBuf
use mailezine.Store.WriteBuf.{WriteBuf, Result, ok, err, op_at, set_op, fresh, stage, append}
use mailezine.Store.WriteBuf.Reads.{scan_staged}
use mailezine.Store.MemKv.{MemoryKv, mem_kv, get-scan, get-batch, scan-IsSorted, get, scan, batch}

pub record MemTxn : Type 0 where
  pub m : MemoryKv
  pub idx : List (Bytes × ℕ)
  pub ops : List Op

pub fresh_txn : MemoryKv → MemTxn
fresh_txn m = record { m = m; idx = []; ops = [] }

abbrev txn_stage_at : MemTxn → Op → Option ℕ → MemTxn
txn_stage_at w op (some i) = record w { ops = set_op w.ops i op }
txn_stage_at w op none = record w {
  idx = Assoc.put op.key (length w.ops) w.idx;
  ops = w.ops ++ op ∷ [];
}

pub txn_stage : MemTxn → Op → MemTxn
txn_stage w op = txn_stage_at w op (Assoc.get op.key w.idx)

abbrev txn_read_op : MemoryKv → Bytes → Option Op → Option Bytes
txn_read_op m k none = none
txn_read_op m k (some op) = if op.delete then none else some op.value

abbrev txn_read_at : MemTxn → Bytes → Option ℕ → Option Bytes
txn_read_at w k (some i) = txn_read_op w.m k (op_at w.ops i)
txn_read_at w k none = Assoc.get k w.m

pub txn_get : MemTxn → Bytes → Option Bytes
txn_get w k = txn_read_at w k (Assoc.get k w.idx)

pub txn_append : MemTxn → List Op → MemTxn
unfolding txn_stage
txn_append w [] = w
txn_append w (op ∷ ops) = txn_append (txn_stage w op) ops

-- The second loop of `Scan`: the staged operations under the prefix, over the copied map.
pub merge_ops : Bytes → List Op → List Entry → List Entry
merge_ops prefix [] merged = merged
merge_ops prefix (op ∷ ops) merged = merge_ops prefix ops (
    if has_prefix prefix op.key
    then (if op.delete then Assoc.delete op.key merged else Assoc.put op.key op.value merged)
    else merged)

pub txn_scan : MemTxn → Bytes → List Entry
unfolding merge_ops
txn_scan w prefix =
    Assoc.sort_by_key (merge_ops prefix w.ops (Assoc.filter_keys (has_prefix prefix) w.m))

abbrev txn_commit {ℓ} : {A : Type ℓ} → MemoryKv → Result (A × MemTxn) → Result A × MemoryKv
txn_commit m (err e) = (err e, m)
txn_commit m (ok (a, w)) = (ok a, batch m w.ops)

-- `MemoryKV.WithTxn`
pub mem_with_txn {ℓ} :
    {A : Type ℓ} → (MemTxn → Result (A × MemTxn)) → MemoryKv → Result A × MemoryKv
unfolding fresh_txn
mem_with_txn fn m = txn_commit m (fn (fresh_txn m))

-- The same transaction as a write buffer over the engine.
as_buffer : MemTxn → WriteBuf mem_kv
as_buffer w = record { base = w.m; idx = w.idx; ops = w.ops }

as_buffer-stage :
    (w : MemTxn) (op : Op) → as_buffer (txn_stage w op) ≡ stage mem_kv (as_buffer w) op
unfolding as_buffer txn_stage stage
as_buffer-stage w op = elim (Option-cases (Assoc.get op.key w.idx)) [
  | inl e ↦ rw (e, stage, as_buffer)
  | inr (i, e) ↦ rw (e, stage, as_buffer)
]

as_buffer-append :
    (w : MemTxn) (ops : List Op) → as_buffer (txn_append w ops) ≡ append mem_kv (as_buffer w) ops
unfolding txn_append append
as_buffer-append w [] = refl
as_buffer-append w (op ∷ ops) =
    as_buffer-append (txn_stage w op) ops ∙ ap (λ b. append mem_kv b ops) (as_buffer-stage w op)

as_buffer-fresh : (m : MemoryKv) → as_buffer (fresh_txn m) ≡ fresh mem_kv m
unfolding as_buffer fresh_txn fresh
as_buffer-fresh m = refl

as_buffer-append-fresh :
    (m : MemoryKv) (ops : List Op)
    → as_buffer (txn_append (fresh_txn m) ops) ≡ append mem_kv (fresh mem_kv m) ops
as_buffer-append-fresh m ops =
    as_buffer-append (fresh_txn m) ops ∙ ap (λ b. append mem_kv b ops) (as_buffer-fresh m)

get-as_buffer : (w : MemTxn) (k : Bytes) → txn_get w k ≡ WriteBuf.get mem_kv (as_buffer w) k
unfolding as_buffer txn_get WriteBuf.get get
get-as_buffer w k = elim (Option-cases (Assoc.get k w.idx)) [
  | inl e ↦ rw (e, WriteBuf.get, txn_get)
  | inr (i, e) ↦ rw (e, WriteBuf.get, txn_get) (ground (arith, Option-cases (op_at w.ops i)))
]

get-merge_ops :
    (p k : Bytes) (ops : List Op) (m : List Entry)
    → has_prefix p k ≡ true
    → Assoc.get k (merge_ops p ops m) ≡ after_ops ops k (Assoc.get k m)
unfolding merge_ops after_ops
get-merge_ops p k [] m h = refl
get-merge_ops p k (op ∷ ops) m h =
    get-merge_ops p k ops _ h
    ∙ ap (after_ops ops k) (
        ground (
          arith,
          Assoc.get-delete op.key k m,
          Assoc.get-put op.key k op.value m,
          bytes_eq_iff op.key k,
        ))

get-merge_ops_outside :
    (p k : Bytes) (ops : List Op) (m : List Entry)
    → has_prefix p k ≡ false
    → Assoc.get k (merge_ops p ops m) ≡ Assoc.get k m
unfolding merge_ops
get-merge_ops_outside p k [] m h = refl
get-merge_ops_outside p k (op ∷ ops) m h =
    get-merge_ops_outside p k ops _ h
    ∙ ground (
      arith,
      Assoc.get-delete op.key k m,
      Assoc.get-put op.key k op.value m,
      bytes_eq_iff op.key k,
    )

get-txn_scan :
    (w : MemTxn) (p k : Bytes) → Assoc.get k (txn_scan w p) ≡ Assoc.get k (scan (batch w.m w.ops) p)
unfolding txn_scan
get-txn_scan w p k = Assoc.get-sort_by_key k _ ∙ elim (Bool-cases (has_prefix p k)) [
  | inl e ↦
      get-merge_ops p k w.ops _ e
      ∙ rw (Assoc.get-filter_keys (has_prefix p) k w.m, get-scan, get-batch, e) (unfold get in refl)
  | inr e ↦
      get-merge_ops_outside p k w.ops _ e
      ∙ rw (Assoc.get-filter_keys (has_prefix p) k w.m, get-scan, e)
]

txn_scan-eq-scan : (w : MemTxn) (p : Bytes) → txn_scan w p ≡ scan (batch w.m w.ops) p
txn_scan-eq-scan w p =
    Assoc.eq_of_get _ _ (unfold txn_scan in Assoc.sort_by_key-IsSorted _) (scan-IsSorted _ p)
      (λ k. get-txn_scan w p k)

abbrev scan_after : Bytes → WriteBuf mem_kv → List Entry
scan_after p b = scan (batch b.base b.ops) p

-- The native transaction and the write buffer over the same engine read alike: after the same
-- staged operations, the same value under every key and the same entries in every scan.
pub mem_txn-eq-write_buf :
    (m : MemoryKv) (ops : List Op) (k p : Bytes)
    → (txn_get (txn_append (fresh_txn m) ops) k
        ≡ WriteBuf.get mem_kv (append mem_kv (fresh mem_kv m) ops) k)
      × (txn_scan (txn_append (fresh_txn m) ops) p
          ≡ WriteBuf.scan mem_kv (append mem_kv (fresh mem_kv m) ops) p)
mem_txn-eq-write_buf m ops k p =
    let same = as_buffer-append-fresh m ops in
    (
      get-as_buffer (txn_append (fresh_txn m) ops) k ∙ ap (λ b. WriteBuf.get mem_kv b k) same,
      txn_scan-eq-scan (txn_append (fresh_txn m) ops) p
          ∙ unfold as_buffer in ap (scan_after p) same ∙ sym (scan_staged mem_kv m ops p),
    )
