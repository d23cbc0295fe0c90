-- ===== src/Store/Documents.antt =====
-- Documents of a collection (`internal/store/doc.go`): an identifier from a counter, and one key for
-- each field. A Go map of fields is a map in ascending order, since no two of its keys are equal.
pub mod Ensure
use mailezine.Prelude.{ℕ, List, [], ◌∷◌, Option, none, some, if◌then◌else◌, length, ◌==◌, ltb, map}
use mailezine.Prelude.NatMap
use mailezine.Bytes.{Bytes}
use mailezine.Store.Key.BigEndian.{be_value}
use mailezine.Store.Key.{
  collection_key, counter_key, counter_kind_next_doc, document_id_from_field_key, document_key,
  field_key, field_meta, index_mailbox_name_key,
}
use mailezine.Store.Kv.{Kv, Op, Entry, put_op, delete_op}
use mailezine.Store.Txn.{TxnKv, Result, ok, err, corrupt, not_found, with_txn, ◌>>=◌}
use mailezine.Store.Counters.{
  be_uint64, be_uint64_value, collection_mailbox, field_mailbox_mod_seq, next, read_counter,
}

-- `map[byte][]byte`
abbrev pub Fields : Type 0
Fields = List (ℕ × Bytes)

-- `orderedFieldOps`
abbrev pub ordered_field_ops : ℕ → ℕ → ℕ → Fields → List Op
ordered_field_ops account_id collection doc_id [] = []
ordered_field_ops account_id collection doc_id ((field, value) ∷ fields) =
    put_op (field_key account_id collection doc_id field) value
    ∷ ordered_field_ops account_id collection doc_id fields

-- `k[len(k)-1]`
abbrev pub last_byte : Bytes → ℕ
last_byte [] = 0
last_byte (b ∷ []) = b
last_byte (b ∷ c ∷ bs) = last_byte (c ∷ bs)

-- The callback of `GetDocumentFields` on each row.
abbrev pub collect_fields : List Entry → Fields → Fields
collect_fields [] fields = fields
collect_fields ((k, v) ∷ rows) fields = collect_fields rows (NatMap.put (last_byte k) v fields)

-- The callback of `DeleteDocument` on each row.
abbrev pub deletions : List Entry → List Op
deletions [] = []
deletions ((k, _) ∷ rows) = delete_op k ∷ deletions rows

-- `seen[id] = struct{}{}` on each row, sorted.
abbrev pub collect_ids : List Entry → List (ℕ × Unit {0}) → Result (List (ℕ × Unit {0}))
collect_ids [] seen = ok seen
collect_ids ((k, _) ∷ rows) seen =
    let rest = collect_ids rows (NatMap.put (document_id_from_field_key k) tt seen) in
    if ltb (length k) 15 then err corrupt else rest

module _ (t : Kv) where
  -- The closure of `CreateDocument`.
  unfoldable pub create_document_txn : ℕ → ℕ → t.State → Result (ℕ × t.State)
  unfolding read_counter
  create_document_txn account_id collection s = do
    let counter = counter_key account_id counter_kind_next_doc (collection ∷ [])
    cur ← read_counter (t.get s counter)
    let doc_id = next cur
    ok (
      doc_id,
      t.batch s (
          put_op counter (be_uint64 doc_id)
          ∷ put_op (field_key account_id collection doc_id field_meta) (1 ∷ [])
          ∷ []),
    )

  abbrev pub create_mailbox_doc : ℕ → Bytes → (ℕ → Fields) → t.State → Result (ℕ × t.State)
  create_mailbox_doc account_id name fields s = do
    let counter = counter_key account_id counter_kind_next_doc (collection_mailbox ∷ [])
    cur ← read_counter (t.get s counter)
    let doc_id = next cur
    ok (
      doc_id,
      t.batch s (
          put_op counter (be_uint64 doc_id)
          ∷ put_op (field_key account_id collection_mailbox doc_id field_meta) (1 ∷ [])
          ∷ put_op (index_mailbox_name_key account_id name) (be_uint64 doc_id)
          ∷ ordered_field_ops account_id collection_mailbox doc_id (fields doc_id)),
    )

  abbrev pub ensure_found : ℕ → Bytes → (ℕ → Fields) → t.State → Option Bytes → Result (ℕ × t.State)
  ensure_found account_id name fields s none = create_mailbox_doc account_id name fields s
  ensure_found account_id name fields s (some v) =
      if length v == 8 then ok (be_value 0 v, s) else err corrupt

  -- The closure of `EnsureMailboxDoc`.
  unfoldable pub ensure_mailbox_doc_txn : ℕ → Bytes → (ℕ → Fields) → t.State → Result (ℕ × t.State)
  unfolding read_counter
  ensure_mailbox_doc_txn account_id name fields s =
      ensure_found account_id name fields s (t.get s (index_mailbox_name_key account_id name))

module _ (kv : Kv) where
  -- `PutDocumentFields`
  unfoldable pub put_document_fields : ℕ → ℕ → ℕ → Fields → kv.State → kv.State
  put_document_fields account_id collection doc_id fields s =
      kv.batch s (ordered_field_ops account_id collection doc_id fields)

  abbrev pub fields_of_rows : List Entry → Result Fields
  fields_of_rows [] = err not_found
  fields_of_rows (row ∷ rows) = ok (collect_fields (row ∷ rows) [])

  -- `GetDocumentFields`
  unfoldable pub get_document_fields : ℕ → ℕ → ℕ → kv.State → Result Fields
  get_document_fields account_id collection doc_id s =
      fields_of_rows (kv.scan s (document_key account_id collection doc_id))

  -- `MailboxModSeq`
  unfoldable pub mailbox_mod_seq : ℕ → ℕ → kv.State → Result ℕ
  unfolding get_document_fields be_uint64_value
  mailbox_mod_seq account_id mb_id s = do
    fields ← get_document_fields account_id collection_mailbox mb_id s
    ok (be_uint64_value (NatMap.get field_mailbox_mod_seq fields))

  abbrev pub delete_rows : kv.State → List Entry → Result (Unit {0}) × kv.State
  delete_rows s [] = (err not_found, s)
  delete_rows s (row ∷ rows) = (ok tt, kv.batch s (deletions (row ∷ rows)))

  -- `DeleteDocument`
  unfoldable pub delete_document : ℕ → ℕ → ℕ → kv.State → Result (Unit {0}) × kv.State
  delete_document account_id collection doc_id s =
      delete_rows s (kv.scan s (document_key account_id collection doc_id))

  -- `ListDocumentIDs`
  unfoldable pub list_document_ids : ℕ → ℕ → kv.State → Result (List ℕ)
  list_document_ids account_id collection s = do
    seen ← collect_ids (kv.scan s (collection_key account_id collection)) []
    ok (map (λ (id, _). id) seen)

module _ (db : TxnKv) where
  open db use {kv, ops}

  -- `CreateDocument`
  unfoldable pub create_document : ℕ → ℕ → kv.State → Result ℕ × kv.State
  unfolding with_txn create_document_txn
  create_document account_id collection s =
      with_txn db (create_document_txn ops account_id collection) s

  -- `EnsureMailboxDoc`
  unfoldable pub ensure_mailbox_doc : ℕ → Bytes → (ℕ → Fields) → kv.State → Result ℕ × kv.State
  unfolding with_txn ensure_mailbox_doc_txn
  ensure_mailbox_doc account_id name fields s =
      with_txn db (ensure_mailbox_doc_txn ops account_id name fields) s
