-- ===== src/Store/Email/Delivery.antt =====
-- The plan of a delivery (`deliverOne` of `internal/store/store.go`): every number read from the
-- keys as they were before, and one list of operations.
pub mod Carrying
use mailezine.Prelude.{
  ℕ, ◌+◌, ◌%◌, ◌^◌, ◌≡◌, refl, ap, ◌∙◌, false, List, [], ◌∷◌, ◌++◌, arith, length, suc,
}
use mailezine.Bytes.{Bytes, bytes_eq, compare_bytes}
use mailezine.Store.Key.BigEndian.{be, length-be}
use mailezine.Store.Key.{blob_link_key, field_key, field_meta, index_email_key, quota_key}
use mailezine.Store.Key.Typed.{
  StoreKey, encode, same_key, bytes_eq-encode, counter, field, blob_link, quota, blob_gc,
}
use mailezine.Store.Kv.{Kv, Op, put_op}
use mailezine.Store.Txn.{Result, ok, ◌>>=◌}
use mailezine.Store.Counters.{
  be_uint64, be_uint64_value, blob_ref_value, collection_email, next, quota_value, read_counter,
}
use mailezine.Store.BlobLink.{link_ops, refs_or_none, stage_blob_link}
use mailezine.Store.Documents.{Fields, ordered_field_ops}
use mailezine.Store.ChangeLog.{encode_change_value}
use mailezine.Store.View.{
  View, Avoids, Carries, seen-bind, view-batch_after, view-batch, read_past, seen-bind_state,
  seen-ok,
}
use mailezine.Store.Email.{
  Delivered, DeliverRequest, change_counter_key, change_ops, deliver_one, doc_counter_key,
  full_fields, mod_seq_key, op_create, uid_counter_key, counter_kind_next_doc, counter_kind_change,
}

-- The operations of a delivery that allocates `uid`, `mod_seq` and `doc_id`, up to each of its reads.
module _ (account_id : ℕ) (req : DeliverRequest) (uid mod_seq doc_id : ℕ) where
  abbrev pub uid_ops : List Op
  uid_ops = put_op (uid_counter_key account_id req.mailbox_id) (be_uint64 uid) ∷ []

  abbrev pub mod_seq_ops : List Op
  mod_seq_ops = uid_ops ++ put_op (mod_seq_key account_id req.mailbox_id) (be_uint64 mod_seq) ∷ []

  abbrev pub numbered_ops : List Op
  numbered_ops =
      mod_seq_ops
      ++ put_op (doc_counter_key account_id) (be_uint64 doc_id)
        ∷ put_op (field_key account_id collection_email doc_id field_meta) (1 ∷ [])
        ∷ []

  abbrev pub document_ops : List Op
  document_ops =
      numbered_ops
      ++ ordered_field_ops account_id collection_email doc_id (full_fields req.fields uid mod_seq)

  abbrev pub linked_ops : ℕ → List Op
  linked_ops refs = document_ops ++ link_ops account_id req.blob_id refs

  abbrev pub charged_ops : ℕ → ℕ → List Op
  charged_ops refs used =
      linked_ops refs ++ put_op (quota_key account_id) (be_uint64 ((used + req.size) % 2 ^ 64)) ∷ []

  abbrev pub delivery_ops : ℕ → ℕ → ℕ → List Op
  delivery_ops refs used change_id =
      (charged_ops refs used
        ++ change_ops account_id collection_email change_id
            (encode_change_value collection_email doc_id op_create))
      ++ put_op (index_email_key account_id req.mailbox_id uid) (be_uint64 doc_id) ∷ []

-- What a delivery does to what the keys hold.
unfoldable pub delivery : ℕ → DeliverRequest → List Op → View → Result (Delivered × List Op)
unfolding read_counter be_uint64_value blob_ref_value quota_value
delivery account_id req extra v = do
  cur ← read_counter (v (uid_counter_key account_id req.mailbox_id))
  let uid = next cur
  let mod_seq = next (be_uint64_value (v (mod_seq_key account_id req.mailbox_id)))
  cur_doc ← read_counter (v (doc_counter_key account_id))
  let doc_id = next cur_doc
  refs ← refs_or_none (blob_ref_value (v (blob_link_key account_id req.blob_id)))
  used ← quota_value (v (quota_key account_id))
  cur_change ← read_counter (v (change_counter_key account_id))
  ok (
    record { uid = uid; mod_seq = mod_seq; doc_id = doc_id },
    delivery_ops account_id req uid mod_seq doc_id refs used (next cur_change) ++ extra,
  )
