-- ===== src/Store/Email.antt =====
-- Messages (`internal/store/store.go`): delivery, removal and update of the documents of the email
-- collection, each one transaction with the blob link, the quota and the change log. Sizes are
-- 64-bit patterns, and `now` is the unix time.
pub mod Remove
pub mod Update
pub mod Delivery
pub mod Batch
pub mod Effect
pub mod Numbers
pub mod Safety
pub mod Removal
pub mod Removed
use mailezine.Prelude.{
  ℕ, ◌+◌, ◌-◌, ◌%◌, ◌^◌, Bool, true, false, not, List, [], ◌∷◌, ◌++◌, Option, none, some,
  if◌then◌else◌, length, ◌==◌, ltb, leb, ◌&&◌, ◌||◌,
}
use mailezine.Prelude.NatMap
use mailezine.Bytes.{Bytes, bytes_eq}
use mailezine.Store.Key.BigEndian.{be, be_value}
use mailezine.Store.Key.{
  blob_link_key, change_log_key, counter_key, counter_kind_change, counter_kind_next_doc,
  document_key, field_key, field_meta, index_email_key, quota_key,
}
use mailezine.Store.Kv.{Kv, Op, Entry, put_op, delete_op}
use mailezine.Store.Txn.{TxnKv, Result, ok, err, not_found, not_marked_deleted, with_txn, ◌>>=◌}
use mailezine.Store.Counters.{
  be_uint64, be_uint64_value, collection_email, collection_mailbox, field_mailbox_mod_seq, next,
  quota_value, read_counter,
}
use mailezine.Store.BlobLink.{stage_blob_link, stage_blob_unlink, no_value}
use mailezine.Store.Documents.{Fields, ordered_field_ops, last_byte, deletions}
use mailezine.Store.ChangeLog.{encode_change_value, encode_email_delete_value, op_delete}

abbrev pub email_field_blob : ℕ
email_field_blob = 1

abbrev pub email_field_uid : ℕ
email_field_uid = 2

abbrev pub email_field_mailbox : ℕ
email_field_mailbox = 3

abbrev pub email_field_flags : ℕ
email_field_flags = 4

abbrev pub email_field_size : ℕ
email_field_size = 7

abbrev pub email_field_mod_seq : ℕ
email_field_mod_seq = 9

abbrev pub op_create : ℕ
op_create = 1

abbrev pub op_update : ℕ
op_update = 2

-- `DeliverResult`
pub record Delivered : Type 0 where
  pub uid : ℕ
  pub mod_seq : ℕ
  pub doc_id : ℕ

-- `DeliverRequest`
pub record DeliverRequest : Type 0 where
  pub mailbox_id : ℕ
  pub fields : Fields
  pub blob_id : Bytes
  pub size : ℕ

-- `full`: the caller's fields, with the numbers that the delivery allocates.
abbrev pub full_fields : Fields → ℕ → ℕ → Fields
full_fields fields uid mod_seq =
    NatMap.put email_field_mod_seq (be_uint64 mod_seq)
      (NatMap.put email_field_uid (be_uint64 uid) fields)

-- `append([]byte{CollectionEmail}, beUint64(mbID)...)`
abbrev pub uid_counter_key : ℕ → ℕ → Bytes
uid_counter_key account_id mb_id =
    counter_key account_id counter_kind_next_doc (collection_email ∷ be_uint64 mb_id)

abbrev pub doc_counter_key : ℕ → Bytes
doc_counter_key account_id = counter_key account_id counter_kind_next_doc (collection_email ∷ [])

abbrev pub mod_seq_key : ℕ → ℕ → Bytes
mod_seq_key account_id mb_id = field_key account_id collection_mailbox mb_id field_mailbox_mod_seq

abbrev pub change_counter_key : ℕ → Bytes
change_counter_key account_id = counter_key account_id counter_kind_change []

-- The next change and its row.
abbrev pub change_ops : ℕ → ℕ → ℕ → Bytes → List Op
change_ops account_id collection change_id value =
    put_op (change_counter_key account_id) (be_uint64 change_id)
    ∷ put_op (change_log_key account_id collection change_id) value
    ∷ []

module _ (t : Kv) where
  -- `deliverOne`
  unfoldable pub deliver_one : ℕ → DeliverRequest → List Op → t.State → Result (Delivered × t.State)
  unfolding read_counter be_uint64_value stage_blob_link quota_value NatMap.put encode_change_value
  deliver_one account_id req extra s = do
    cur ← read_counter (t.get s (uid_counter_key account_id req.mailbox_id))
    let uid = next cur
    let s1 = t.batch s (put_op (uid_counter_key account_id req.mailbox_id) (be_uint64 uid) ∷ [])
    let mod_seq = next (be_uint64_value (t.get s1 (mod_seq_key account_id req.mailbox_id)))
    let s2 = t.batch s1 (put_op (mod_seq_key account_id req.mailbox_id) (be_uint64 mod_seq) ∷ [])
    cur_doc ← read_counter (t.get s2 (doc_counter_key account_id))
    let doc_id = next cur_doc
    let s3 = t.batch s2 (
        put_op (doc_counter_key account_id) (be_uint64 doc_id)
        ∷ put_op (field_key account_id collection_email doc_id field_meta) (1 ∷ [])
        ∷ [])
    let s4 =
        t.batch s3 (
          ordered_field_ops account_id collection_email doc_id (full_fields req.fields uid mod_seq))
    s5 ← stage_blob_link t account_id req.blob_id s4
    cur_quota ← quota_value (t.get s5 (quota_key account_id))
    let s6 =
        t.batch s5
          (put_op (quota_key account_id) (be_uint64 ((cur_quota + req.size) % 2 ^ 64)) ∷ [])
    cur_change ← read_counter (t.get s6 (change_counter_key account_id))
    let s7 = t.batch s6 (
        change_ops account_id collection_email (next cur_change)
          (encode_change_value collection_email doc_id op_create))
    let s8 =
        t.batch s7 (put_op (index_email_key account_id req.mailbox_id uid) (be_uint64 doc_id) ∷ [])
    ok (record { uid = uid; mod_seq = mod_seq; doc_id = doc_id }, t.batch s8 extra)

  -- The loop of `DeliverEmailBatch`.
  unfoldable pub deliver_all : ℕ → List DeliverRequest → t.State → Result (List Delivered × t.State)
  unfolding deliver_one
  deliver_all account_id [] s = ok ([], s)
  deliver_all account_id (req ∷ reqs) s = do
    (res, s1) ← deliver_one account_id req [] s
    (rest, s2) ← deliver_all account_id reqs s1
    ok (res ∷ rest, s2)

  -- The closure of `AppendEmailAtomically`.
  unfoldable pub append_email_txn :
      ℕ → ℕ → ℕ → Fields → Bytes → ℕ → List Op → t.State → Result (Unit {0} × t.State)
  unfolding read_counter stage_blob_link quota_value encode_change_value
  append_email_txn account_id collection doc_id fields blob_id size extra s = do
    let s1 = t.batch s (ordered_field_ops account_id collection doc_id fields)
    s2 ← stage_blob_link t account_id blob_id s1
    cur ← quota_value (t.get s2 (quota_key account_id))
    let s3 = t.batch s2 (put_op (quota_key account_id) (be_uint64 ((cur + size) % 2 ^ 64)) ∷ [])
    cur_change ← read_counter (t.get s3 (change_counter_key account_id))
    let s4 = t.batch s3 (
        change_ops account_id collection (next cur_change)
          (encode_change_value collection doc_id op_create))
    ok (tt, t.batch s4 extra)

module _ (db : TxnKv) where
  open db use {kv, ops}

  -- `DeliverEmail`
  unfoldable pub deliver_email :
      ℕ → DeliverRequest → List Op → kv.State → Result Delivered × kv.State
  unfolding with_txn deliver_one
  deliver_email account_id req extra s = with_txn db (deliver_one ops account_id req extra) s

  -- `DeliverEmailBatch`
  unfoldable pub deliver_email_batch :
      ℕ → List DeliverRequest → kv.State → Result (List Delivered) × kv.State
  unfolding with_txn deliver_all
  deliver_email_batch account_id reqs s = with_txn db (deliver_all ops account_id reqs) s

  -- `AppendEmailAtomically`
  unfoldable pub append_email_atomically :
      ℕ → ℕ → ℕ → Fields → Bytes → ℕ → List Op → kv.State → Result (Unit {0}) × kv.State
  unfolding with_txn append_email_txn
  append_email_atomically account_id collection doc_id fields blob_id size extra s =
      with_txn db (append_email_txn ops account_id collection doc_id fields blob_id size extra) s
