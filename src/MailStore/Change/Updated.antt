-- ===== src/MailStore/Change/Updated.antt =====
-- What an update of a document leaves alone, as a call of the mail store
-- (`UpdateDocumentAtomically` of `internal/store/store.go`).
use mailezine.Prelude.{ℕ, ◌≡◌, ◌∙◌, false, List}
use mailezine.Bytes.{Bytes, bytes_eq}
use mailezine.Store.Key.Typed.{encode, change_log}
use mailezine.Store.Kv.{Op}
use mailezine.Store.Txn.{TxnKv}
use mailezine.Store.Counters.{next, read_counter}
use mailezine.Store.Documents.{Fields, ordered_field_ops}
use mailezine.Store.Email.{change_counter_key}
use mailezine.Store.Email.Update.{update_document_atomically, update_document_txn}
use mailezine.Store.View.{Avoids, OnOk, OnOk-bind, get-batch_apart}
use mailezine.MailStore.Calls.{on_store}
use mailezine.MailStore.Calls.Keeps.{Keeps, with_txn-keeps}

module _ (db : TxnKv) (k : Bytes) where
  open db use {kv}

  pub update_txn-keeps :
      (a c d : ℕ) (fields : Fields) (extra : List Op) (t : db.ops.State)
      → Avoids k (ordered_field_ops a c d fields)
      → bytes_eq (change_counter_key a) k ≡ false
      → ((id : ℕ) → bytes_eq (encode (change_log a c id)) k ≡ false)
      → Avoids k extra
      → OnOk
          (λ (_, t'). db.ops.get t' k ≡ db.ops.get t k)
          (update_document_txn db.ops a c d fields extra t)
  unfolding update_document_txn
  update_txn-keeps a c d fields extra t hf hc hl he =
      let t1 = db.ops.batch t (ordered_field_ops a c d fields) in
      OnOk-bind _ (read_counter (db.ops.get t1 (change_counter_key a))) _ λ cur _.
        get-batch_apart db.ops _ extra k he
        ∙ get-batch_apart db.ops t1 _ k (hc, (hl (next cur), tt))
        ∙ get-batch_apart db.ops t (ordered_field_ops a c d fields) k hf

  pub update-Keeps :
      (a c d : ℕ) (fields : Fields) (extra : List Op)
      → Avoids k (ordered_field_ops a c d fields)
      → bytes_eq (change_counter_key a) k ≡ false
      → ((id : ℕ) → bytes_eq (encode (change_log a c id)) k ≡ false)
      → Avoids k extra
      → Keeps kv k (on_store kv (update_document_atomically db a c d fields extra))
  unfolding update_document_atomically
  update-Keeps a c d fields extra hf hc hl he w =
      with_txn-keeps db (update_document_txn db.ops a c d fields extra) w.store k
        (update_txn-keeps a c d fields extra (db.begin w.store) hf hc hl he)
