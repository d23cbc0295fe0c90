-- ===== src/Store/Email/Update.antt =====
-- Updates of documents and the change log (`UpdateDocumentAtomically`, `UpdateDocumentsAtomically` of
-- `internal/store/store.go`, `AppendChange` of `internal/store/log.go`).
pub mod Batched
use mailezine.Prelude.{ℕ, List, [], ◌∷◌}
use mailezine.Store.Kv.{Kv, Op}
use mailezine.Store.Txn.{TxnKv, Result, ok, with_txn, ◌>>=◌}
use mailezine.Store.Counters.{next, read_counter}
use mailezine.Store.Documents.{Fields, ordered_field_ops}
use mailezine.Store.ChangeLog.{encode_change_value}
use mailezine.Store.Email.{change_counter_key, change_ops, op_update}

-- `DocUpdate`
pub record DocUpdate : Type 0 where
  pub doc_id : ℕ
  pub fields : Fields

module _ (t : Kv) where
  -- The closure of `AppendChange`.
  unfoldable pub append_change_txn : ℕ → ℕ → ℕ → ℕ → t.State → Result (ℕ × t.State)
  unfolding read_counter encode_change_value
  append_change_txn account_id collection doc_id op s = do
    cur ← read_counter (t.get s (change_counter_key account_id))
    let change_id = next cur
    ok (
      change_id,
      t.batch s
          (change_ops account_id collection change_id (encode_change_value collection doc_id op)),
    )

  -- The closure of `UpdateDocumentAtomically`.
  unfoldable pub update_document_txn :
      ℕ → ℕ → ℕ → Fields → List Op → t.State → Result (Unit {0} × t.State)
  unfolding read_counter encode_change_value
  update_document_txn account_id collection doc_id fields extra s = do
    let s1 = t.batch s (ordered_field_ops account_id collection doc_id fields)
    cur ← read_counter (t.get s1 (change_counter_key account_id))
    let s2 = t.batch s1 (
        change_ops account_id collection (next cur)
          (encode_change_value collection doc_id op_update))
    ok (tt, t.batch s2 extra)

  -- The loop of `UpdateDocumentsAtomically`; `cur` is the last change so far.
  unfoldable pub update_all : ℕ → ℕ → ℕ → List DocUpdate → t.State → t.State
  unfolding encode_change_value
  update_all account_id collection cur [] s = s
  update_all account_id collection cur (d ∷ docs) s =
      let s1 = t.batch s (ordered_field_ops account_id collection d.doc_id d.fields) in
      update_all account_id collection (next cur) docs (
        t.batch s1 (
          change_ops account_id collection (next cur)
            (encode_change_value collection d.doc_id op_update)))

  -- The closure of `UpdateDocumentsAtomically`.
  unfoldable pub update_documents_txn :
      ℕ → ℕ → List DocUpdate → List Op → t.State → Result (Unit {0} × t.State)
  unfolding read_counter update_all
  update_documents_txn account_id collection docs extra s = do
    cur ← read_counter (t.get s (change_counter_key account_id))
    ok (tt, t.batch (update_all account_id collection cur docs s) extra)

module _ (db : TxnKv) where
  open db use {kv, ops}

  -- `AppendChange`
  unfoldable pub append_change : ℕ → ℕ → ℕ → ℕ → kv.State → Result ℕ × kv.State
  unfolding with_txn append_change_txn
  append_change account_id collection doc_id op s =
      with_txn db (append_change_txn ops account_id collection doc_id op) s

  -- `UpdateDocumentAtomically`
  unfoldable pub update_document_atomically :
      ℕ → ℕ → ℕ → Fields → List Op → kv.State → Result (Unit {0}) × kv.State
  unfolding with_txn update_document_txn
  update_document_atomically account_id collection doc_id fields extra s =
      with_txn db (update_document_txn ops account_id collection doc_id fields extra) s

  -- `UpdateDocumentsAtomically`; no document is no transaction.
  unfoldable pub update_documents_atomically :
      ℕ → ℕ → List DocUpdate → List Op → kv.State → Result (Unit {0}) × kv.State
  unfolding with_txn update_documents_txn
  update_documents_atomically account_id collection [] extra s = (ok tt, s)
  update_documents_atomically account_id collection (d ∷ docs) extra s =
      with_txn db (update_documents_txn ops account_id collection (d ∷ docs) extra) s
