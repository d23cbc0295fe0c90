-- ===== src/Store/Email/Update/Batched.antt =====
-- A batch of updates against the updates one by one (`UpdateDocumentsAtomically` and
-- `UpdateDocumentAtomically` of `internal/store/store.go`).
use mailezine.Prelude.{ℕ, ◌^◌, ◌<◌, ◌≡◌, refl, sym, ap, ◌∙◌, List, [], ◌∷◌, ◌++◌, some, arith}
use mathlib.Core.List.{append-nil}
use mailezine.Store.Key.BigEndian.{be_value-be, length-be}
use mailezine.Store.Key.{change_log_key}
use mailezine.Store.Key.Typed.{field, counter, change_log}
use mailezine.Store.Kv.{Kv, Op, put_op, after_ops}
use mailezine.Store.Txn.{TxnKv, Result, ok, err, ◌>>=◌}
use mailezine.Store.Counters.{be_uint64, next, read_counter}
use mailezine.Store.Documents.{Fields, ordered_field_ops}
use mailezine.Store.ChangeLog.{encode_change_value}
use mailezine.Store.View.{
  View, apply, apply-append, after_ops_last, Avoids, Carries, committed, observed, seen-bind,
  seen-ok, view-batch, view-batch_after, read_past, with_txn-Carries,
}
use mailezine.Store.Email.{change_counter_key, change_ops, op_update}
use mailezine.Store.Apart.{apart, ordered_field_ops-Avoids}
use mailezine.Store.Email.Update.{
  DocUpdate, update_all, update_document_atomically, update_document_txn,
  update_documents_atomically, update_documents_txn,
}

module _ (a c : ℕ) where
  abbrev update_ops : ℕ → ℕ → Fields → List Op
  update_ops id d fields =
      ordered_field_ops a c d fields ++ change_ops a c id (encode_change_value c d op_update)

  abbrev all_ops : ℕ → List DocUpdate → List Op
  all_ops cur [] = []
  all_ops cur (d ∷ docs) = update_ops (next cur) d.doc_id d.fields ++ all_ops (next cur) docs

  -- What one update and what a batch of them do to what the keys hold.
  abbrev update_plan : DocUpdate → View → Result (Unit {0} × List Op)
  update_plan d v = do
    cur ← read_counter (v (change_counter_key a))
    ok (tt, update_ops (next cur) d.doc_id d.fields ++ [])

  abbrev batch_plan : List DocUpdate → View → Result (Unit {0} × List Op)
  batch_plan docs v = do
    cur ← read_counter (v (change_counter_key a))
    ok (tt, all_ops cur docs ++ [])

  fields-Avoids :
      (d : ℕ) (fields : Fields) → Avoids (change_counter_key a) (ordered_field_ops a c d fields)
  fields-Avoids d fields =
      ordered_field_ops-Avoids a c d fields (change_counter_key a)
        λ f. apart (field a c d f) (counter a 2 []) refl

  module _ (t : Kv) where
    update-Carries :
        (d : DocUpdate) → Carries t (update_document_txn t a c d.doc_id d.fields []) (update_plan d)
    unfolding update_document_txn
    update-Carries d s =
        let v = t.get s in
        let fs = ordered_field_ops a c d.doc_id d.fields in
        let s1 = t.batch s fs in
        let h1 = view-batch t s fs in
        seen-bind t v _ _ _ _
          (ap read_counter
            (read_past t s s1 fs (change_counter_key a) h1 (fields-Avoids d.doc_id d.fields)))
          λ cur. seen-ok t tt v _ _ (
            view-batch_after t _ (update_ops (next cur) d.doc_id d.fields) [] v (
              view-batch_after t s1 fs
                (change_ops a c (next cur) (encode_change_value c d.doc_id op_update)) v h1))

    view-update_all :
        (cur : ℕ) (docs : List DocUpdate) (s : t.State)
        → t.get (update_all t a c cur docs s) ≡ apply (all_ops cur docs) (t.get s)
    unfolding update_all after_ops
    view-update_all cur [] s = refl
    view-update_all cur (d ∷ docs) s =
        let fs = ordered_field_ops a c d.doc_id d.fields in
        let log = change_ops a c (next cur) (encode_change_value c d.doc_id op_update) in
        view-update_all (next cur) docs _
        ∙ ap (apply (all_ops (next cur) docs))
            (view-batch_after t (t.batch s fs) fs log (t.get s) (view-batch t s fs))
        ∙ apply-append (update_ops (next cur) d.doc_id d.fields) (all_ops (next cur) docs) (t.get s)

    batch-Carries :
        (docs : List DocUpdate) → Carries t (update_documents_txn t a c docs []) (batch_plan docs)
    unfolding update_documents_txn
    batch-Carries docs s =
        let v = t.get s in
        seen-bind t v (read_counter (v (change_counter_key a))) _ _ _ refl λ cur.
          seen-ok t tt v _ _
            (view-batch_after t _ (all_ops cur docs) [] v (view-update_all cur docs s))

  -- One update after the other on what the keys hold, up to the first that fails.
  abbrev and_next {ℓ} :
      {S : Type ℓ} → Result (Unit {0}) × S → (S → Result (Unit {0}) × S) → Result (Unit {0}) × S
  and_next (ok _, s) f = f s
  and_next (err e, s) f = (err e, s)

  unfoldable each_view : List DocUpdate → View → Result (Unit {0}) × View
  each_view [] v = (ok tt, v)
  each_view (d ∷ docs) v = and_next (committed v (update_plan d v)) (each_view docs)

  read_counter-be_uint64 : (n : ℕ) → n < 2 ^ 64 → read_counter (some (be_uint64 n)) ≡ ok n
  unfolding read_counter
  read_counter-be_uint64 n h = rw (length-be 8 n) (ap ok (be_value-be 8 n h))

  next_read :
      (v : View) (cur : ℕ) (d : DocUpdate)
      → read_counter
          (apply (update_ops (next cur) d.doc_id d.fields ++ []) v (change_counter_key a))
        ≡ ok (next cur)
  next_read v cur d =
      let k = change_counter_key a in
      let fs = ordered_field_ops a c d.doc_id d.fields in
      let row = put_op (change_log_key a c (next cur)) (encode_change_value c d.doc_id op_update) in
      ap (λ ops. read_counter (apply ops v k))
        (append-nil (update_ops (next cur) d.doc_id d.fields))
      ∙ ap read_counter (
          after_ops_last fs (row ∷ []) k (be_uint64 (next cur)) (v k)
            (apart (change_log a c (next cur)) (counter a 2 []) refl, tt))
      ∙ read_counter-be_uint64 (next cur) (omega arith)

  each_view-all_ops :
      (docs : List DocUpdate) (v : View) (cur : ℕ)
      → read_counter (v (change_counter_key a)) ≡ ok cur
      → each_view docs v ≡ (ok tt, apply (all_ops cur docs) v)
  unfolding each_view after_ops
  each_view-all_ops [] v cur h = refl
  each_view-all_ops (d ∷ docs) v cur h =
      let one = update_ops (next cur) d.doc_id d.fields in
      let rest = all_ops (next cur) docs in
      ap
        (λ r.
          and_next (committed v (r >>= λ n. ok (tt, update_ops (next n) d.doc_id d.fields ++ [])))
            (each_view docs))
        h
      ∙ each_view-all_ops docs (apply (one ++ []) v) (next cur) (next_read v cur d)
      ∙ ap (λ w. (ok tt, w))
          (apply-append (one ++ []) rest v ∙ ap (λ ops. apply (ops ++ rest) v) (append-nil one))

  each_view-batch_plan :
      (d : DocUpdate) (docs : List DocUpdate) (v : View)
      → each_view (d ∷ docs) v ≡ committed v (batch_plan (d ∷ docs) v)
  unfolding each_view
  each_view-batch_plan d docs v =
      elim (read_counter (v (change_counter_key a)))
          as (λ r.
            read_counter (v (change_counter_key a)) ≡ r
            → and_next
                (committed v (r >>= λ n. ok (tt, update_ops (next n) d.doc_id d.fields ++ [])))
                (each_view docs)
              ≡ committed v (r >>= λ n. ok (tt, all_ops n (d ∷ docs) ++ []))) [
                | ok cur ↦ λ h.
                    ap
                      (λ r.
                        and_next
                          (committed v
                            (r >>= λ n. ok (tt, update_ops (next n) d.doc_id d.fields ++ [])))
                          (each_view docs))
                      (sym h)
                    ∙ each_view-all_ops (d ∷ docs) v cur h
                    ∙ ap (λ ops. (ok tt, apply ops v)) (sym (append-nil (all_ops cur (d ∷ docs))))
                | err e ↦ λ h. refl
              ]
        refl

module _ (db : TxnKv) (a c : ℕ) where
  open db use {kv, ops}

  -- One call of `UpdateDocumentAtomically` after the other, up to the first that fails.
  unfoldable pub update_each : List DocUpdate → kv.State → Result (Unit {0}) × kv.State
  unfolding update_document_atomically
  update_each [] s = (ok tt, s)
  update_each (d ∷ docs) s =
      and_next a c (update_document_atomically db a c d.doc_id d.fields [] s)
        (λ s'. update_each docs s')

  observed-and_next :
      (x : Result (Unit {0}) × kv.State) (f : kv.State → Result (Unit {0}) × kv.State)
      (g : View → Result (Unit {0}) × View)
      → ((s : kv.State) → observed db (f s) ≡ g (kv.get s))
      → observed db (and_next a c x f) ≡ and_next a c (observed db x) g
  observed-and_next (ok tt, s) f g h = h s
  observed-and_next (err e, s) f g h = refl

  update_each-each_view :
      (docs : List DocUpdate) (s : kv.State)
      → observed db (update_each docs s) ≡ each_view a c docs (kv.get s)
  unfolding update_each each_view update_document_atomically
  update_each-each_view [] s = refl
  update_each-each_view (d ∷ docs) s =
      observed-and_next _ _ (each_view a c docs) (update_each-each_view docs)
      ∙ ap (λ x. and_next a c x (each_view a c docs))
          (with_txn-Carries db _ (update_plan a c d) (update-Carries a c ops d) s)

  -- A batch of updates returns what the same updates one by one return and leaves every key with
  -- the same value, on success and on an error alike.
  pub update_documents_atomically-update_each :
      (docs : List DocUpdate) (s : kv.State)
      → observed db (update_documents_atomically db a c docs [] s)
        ≡ observed db (update_each docs s)
  unfolding update_documents_atomically update_each
  update_documents_atomically-update_each [] s = refl
  update_documents_atomically-update_each (d ∷ docs) s =
      with_txn-Carries db _ (batch_plan a c (d ∷ docs)) (batch-Carries a c ops (d ∷ docs)) s
      ∙ sym (each_view-batch_plan a c d docs (kv.get s))
      ∙ sym (update_each-each_view (d ∷ docs) s)
