-- ===== src/Store/WriteBuf/Reads.antt =====
-- Reads inside a transaction (`internal/store/txn.go`): what `Get` and `Scan` of the write buffer
-- return is what the engine returns after the staged operations are committed.
use mailezine.Prelude.{
  ℕ, ◌≡◌, refl, sym, ap, ◌∙◌, List, [], ◌∷◌, ◌++◌, Option, none, some, if◌then◌else◌, length, arith,
  not, Option-cases, inl, inr,
}
use mailezine.Bytes.{Bytes, bytes_eq, has_prefix}
use mailezine.Bytes.Assoc
use mailezine.Store.Kv.{Op, Kv, after_op, after_ops}
use mailezine.Store.WriteBuf.{WriteBuf, is_staged, staged_puts, fresh, stage, get, append, scan}
use mailezine.Store.WriteBuf.Staging.{
  find_op, op_of, IsCollapsed, after_ops_collapsed, op_of_absent, op_of_present, is_staged_absent,
  is_staged_present, get-staged_puts, op_at-find_op, find_op-set_op, op_of-set_op,
  set_op-IsCollapsed, find_op-append, op_of-append, append-IsCollapsed,
}

module _ (kv : Kv) where
  -- The index names the position of each staged key, and no key is staged twice.
  pub record IsBuffer (w : WriteBuf kv) : Type 0 where
    pub indexed : (k : Bytes) → Assoc.get k w.idx ≡ find_op k w.ops
    pub collapsed : IsCollapsed w.ops

  pub fresh-IsBuffer : (s : kv.State) → IsBuffer (fresh kv s)
  unfolding fresh find_op Assoc.get
  fresh-IsBuffer s = record { indexed = λ k. refl; collapsed = tt }

  stage_new :
      (w : WriteBuf kv) (op : Op)
      → IsBuffer w
      → Assoc.get op.key w.idx ≡ none
      → IsBuffer (stage kv w op)
  unfolding stage
  stage_new w op b e =
      let absent = sym (b.indexed op.key) ∙ e in
      rw (e, stage)
        (record {
          indexed = λ k. ground (
            arith,
            Assoc.get-put op.key k (length w.ops) w.idx,
            find_op-append op k w.ops absent,
            b.indexed k,
          );
          collapsed = append-IsCollapsed op w.ops absent b.collapsed;
        })

  stage_again :
      (w : WriteBuf kv) (op : Op) (i : ℕ)
      → IsBuffer w
      → Assoc.get op.key w.idx ≡ some i
      → IsBuffer (stage kv w op)
  unfolding stage
  stage_again w op i b e =
      let present = sym (b.indexed op.key) ∙ e in
      rw (e, stage)
        (record {
          indexed = λ k. b.indexed k ∙ sym (find_op-set_op op k w.ops i present);
          collapsed = set_op-IsCollapsed op w.ops i present b.collapsed;
        })

  stage-IsBuffer : (w : WriteBuf kv) (op : Op) → IsBuffer w → IsBuffer (stage kv w op)
  stage-IsBuffer w op b = elim (Option-cases (Assoc.get op.key w.idx)) [
    | inl e ↦ stage_new w op b e
    | inr (i, e) ↦ stage_again w op i b e
  ]

  op_of-stage :
      (w : WriteBuf kv) (op : Op) (k : Bytes)
      → IsBuffer w
      → op_of k (stage kv w op).ops ≡ (if bytes_eq op.key k then some op else op_of k w.ops)
  unfolding stage
  op_of-stage w op k b = elim (Option-cases (Assoc.get op.key w.idx)) [
    | inl e ↦ rw (e, stage) (op_of-append op k w.ops (sym (b.indexed op.key) ∙ e))
    | inr (i, e) ↦ rw (e, stage) (op_of-set_op op k w.ops i (sym (b.indexed op.key) ∙ e))
  ]

  base-stage : (w : WriteBuf kv) (op : Op) → (stage kv w op).base ≡ w.base
  unfolding stage
  base-stage w op = ground (arith, Option-cases (Assoc.get op.key w.idx))

  -- Staging one more operation acts on a key as the operation does.
  after_ops-stage :
      (w : WriteBuf kv) (op : Op) (k : Bytes) (held : Option Bytes)
      → IsBuffer w
      → after_ops (stage kv w op).ops k held ≡ after_op op k (after_ops w.ops k held)
  after_ops-stage w op k held b = ground (
    arith,
    after_ops_collapsed (stage kv w op).ops k held (stage-IsBuffer w op b).collapsed,
    after_ops_collapsed w.ops k held b.collapsed,
    op_of-stage w op k b,
  )

  pub append-IsBuffer : (w : WriteBuf kv) (ops : List Op) → IsBuffer w → IsBuffer (append kv w ops)
  unfolding append
  append-IsBuffer w [] b = b
  append-IsBuffer w (op ∷ ops) b = append-IsBuffer (stage kv w op) ops (stage-IsBuffer w op b)

  pub base-append : (w : WriteBuf kv) (ops : List Op) → (append kv w ops).base ≡ w.base
  unfolding append
  base-append w [] = refl
  base-append w (op ∷ ops) = base-append (stage kv w op) ops ∙ base-stage w op

  pub after_ops-append_buffer :
      (w : WriteBuf kv) (ops : List Op) (k : Bytes) (held : Option Bytes)
      → IsBuffer w
      → after_ops (append kv w ops).ops k held ≡ after_ops ops k (after_ops w.ops k held)
  unfolding append after_ops
  after_ops-append_buffer w [] k held b = refl
  after_ops-append_buffer w (op ∷ ops) k held b =
      after_ops-append_buffer (stage kv w op) ops k held (stage-IsBuffer w op b)
      ∙ ap (after_ops ops k) (after_ops-stage w op k held b)

  -- `Get` finds what the engine would hold after the commit.
  pub get-IsBuffer :
      (w : WriteBuf kv) (k : Bytes) → IsBuffer w → get kv w k ≡ after_ops w.ops k (kv.get w.base k)
  unfolding get
  get-IsBuffer w k b = elim (Option-cases (Assoc.get k w.idx)) [
    | inl e ↦
        rw (e, get)
          (ground (
            arith,
            after_ops_collapsed w.ops k (kv.get w.base k) b.collapsed,
            op_of_absent k w.ops (sym (b.indexed k) ∙ e),
          ))
    | inr (i, e) ↦
        let present = sym (b.indexed k) ∙ e in
        let (op, found) = op_of_present k w.ops i present in
        rw (e, get)
          (ground (
            arith,
            after_ops_collapsed w.ops k (kv.get w.base k) b.collapsed,
            found,
            op_at-find_op k w.ops i present,
          ))
  ]

  -- The entries of `Scan` before they are sorted, looked up by key.
  pub get-unsorted :
      (w : WriteBuf kv) (p k : Bytes)
      → IsBuffer w
      → Assoc.get k (
          staged_puts p w.ops
          ++ Assoc.filter_keys (λ j. not (is_staged p w.ops j)) (kv.scan w.base p))
        ≡ (if has_prefix p k then after_ops w.ops k (kv.get w.base k) else none)
  get-unsorted w p k b =
      rw
        (
          Assoc.get-append k,
          get-staged_puts p k w.ops b.collapsed,
          Assoc.get-filter_keys (λ j. not (is_staged p w.ops j)) k,
          kv.get-scan w.base p k,
          after_ops_collapsed w.ops k (kv.get w.base k) b.collapsed,
        )
        (elim (Option-cases (op_of k w.ops)) [
          | inl e ↦ rw (e, is_staged_absent p k w.ops e) (ground arith)
          | inr (op, e) ↦ rw (e, is_staged_present p k w.ops op e) (ground arith)
        ])

  -- `Scan` visits what the engine would visit after the commit.
  scan-IsBuffer :
      (w : WriteBuf kv) (p : Bytes) → IsBuffer w → scan kv w p ≡ kv.scan (kv.batch w.base w.ops) p
  unfolding scan
  scan-IsBuffer w p b =
      Assoc.eq_of_get _ _ (Assoc.sort_by_key-IsSorted _)
        (kv.scan-IsSorted (kv.batch w.base w.ops) p)
        λ k.
          Assoc.get-sort_by_key k _
          ∙ get-unsorted w p k b
          ∙ ap (λ o. if has_prefix p k then o else none) (sym (kv.get-batch w.base w.ops k))
          ∙ sym (kv.get-scan (kv.batch w.base w.ops) p k)

  pub after_fresh :
      (s : kv.State) (ops : List Op) (k : Bytes)
      → kv.get (kv.batch s (append kv (fresh kv s) ops).ops) k ≡ kv.get (kv.batch s ops) k
  after_fresh s ops k =
      kv.get-batch s _ k
      ∙ after_ops-append_buffer (fresh kv s) ops k (kv.get s k) (fresh-IsBuffer s)
      ∙ unfold fresh after_ops in sym (kv.get-batch s ops k)

  pub fresh_base : (s : kv.State) (ops : List Op) → (append kv (fresh kv s) ops).base ≡ s
  fresh_base s ops = base-append (fresh kv s) ops ∙ unfold fresh in refl

  -- Whatever a closure has staged, in any order and with any key named again, reading a key in
  -- the transaction gives what the engine holds once the same operations are applied to it.
  pub get-append-fresh :
      (s : kv.State) (ops : List Op) (k : Bytes)
      → get kv (append kv (fresh kv s) ops) k ≡ kv.get (kv.batch s ops) k
  get-append-fresh s ops k =
      let w = append kv (fresh kv s) ops in
      get-IsBuffer w k (append-IsBuffer (fresh kv s) ops (fresh-IsBuffer s))
      ∙ ap (λ b. after_ops w.ops k (kv.get b k)) (fresh_base s ops)
      ∙ sym (kv.get-batch s w.ops k)
      ∙ after_fresh s ops k

  -- So too a scan in the transaction: the same entries in the same order as a scan of the engine
  -- once the operations are applied.
  pub scan-append-fresh :
      (s : kv.State) (ops : List Op) (p : Bytes)
      → scan kv (append kv (fresh kv s) ops) p ≡ kv.scan (kv.batch s ops) p
  scan-append-fresh s ops p =
      let w = append kv (fresh kv s) ops in
      scan-IsBuffer w p (append-IsBuffer (fresh kv s) ops (fresh-IsBuffer s))
      ∙ ap (λ b. kv.scan (kv.batch b w.ops) p) (fresh_base s ops)
      ∙ Assoc.eq_of_get _ _ (kv.scan-IsSorted _ p) (kv.scan-IsSorted _ p) λ k.
        kv.get-scan _ p k
        ∙ ap (λ o. if has_prefix p k then o else none) (after_fresh s ops k)
        ∙ sym (kv.get-scan _ p k)

  pub scan_staged :
      (s : kv.State) (ops : List Op) (p : Bytes)
      → let w = append kv (fresh kv s) ops in scan kv w p ≡ kv.scan (kv.batch w.base w.ops) p
  scan_staged s ops p =
      scan-IsBuffer (append kv (fresh kv s) ops) p
        (append-IsBuffer (fresh kv s) ops (fresh-IsBuffer s))
