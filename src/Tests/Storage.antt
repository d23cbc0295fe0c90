-- ===== src/Tests/Storage.antt =====
-- The theorems of the documents, messages, accounts and blobs of `Store` at concrete states.
use mailezine.Prelude.{
  Bool, ap, ◌-◌, ◌<◌, ◌^◌, All, length, false, if◌then◌else◌, ◌==◌, refl, ℕ, ◌≡◌, List, [], ◌∷◌,
  none, some, arith,
}
use mailezine.Bytes.{bytes_eq, compare_bytes, Bytes}
use mailezine.Store.Key.BigEndian.{be, be_value}
use mailezine.Store.Key.{
  account_key, blob_link_key, document_key, meta_blob_gc_key, quota_key, append_space_id,
  append_uint64, change_log_key, codes, field_key, index_email_key, index_mailbox_name_key,
}
use mailezine.Store.Key.Typed.{bytes_eq-encode, change_log, counter, encode, same_key}
use mailezine.Store.Txn.{TxnKv, direct, ok}
use mailezine.Store.Counters.{quota_value, be_uint64, be_uint64_value}
use mailezine.Store.View.{get-batch_delete, committed, observed}
use mailezine.Store.BlobLink.{blob_ref_count, link_blob, refs_or_none, unlink_blob}
use mailezine.Store.BlobLink.Counting.{unlink_blob-link_blob}
use mailezine.Store.Accounts.{create_account}
use mailezine.Store.Documents.{Fields, ensure_mailbox_doc}
use mailezine.Store.Email.Remove.{delete_email_atomically, nothing_scanned, scan_fields}
use mailezine.Store.Email.Removed.{delete_email_atomically-field, delete_email_atomically-quota}
use mailezine.Store.Email.Update.{DocUpdate, update_documents_atomically}
use mailezine.Store.Email.Update.Batched.{update_documents_atomically-update_each, update_each}
use mailezine.Store.Sweep.{
  Reclaim, removed, claim_still_due, delete_blob_gc_claim, sweep_blobs, still_due,
}
use mailezine.Store.Sweep.Safety.{sweep_blobs_unlinked}
use mailezine.Bytes.Assoc
use mailezine.Store.MemKv
use mailezine.Store.MemKv.{MemoryKv, mem_kv}
use mailezine.Store.Email.{DeliverRequest, Delivered, deliver_email, deliver_email_batch}
use mailezine.Store.Email.Delivery.{delivery}
use mailezine.Store.Email.Batch.{
  deliver_each, deliver_email-delivery, deliver_email_batch-deliver_each, or_back,
}
use mailezine.Store.Email.Numbers.{IsNumbered}
use mailezine.Store.Email.Safety.{HasRoom, deliver_email-IsNumbered, deliver_email_fresh}

abbrev db : TxnKv
db = direct mem_kv

abbrev empty : MemoryKv
empty = []

abbrev letter : DeliverRequest
letter = record {
  mailbox_id = 3;
  fields = (1, codes "b") ∷ (4, []) ∷ [];
  blob_id = codes "b";
  size = 5;
}

abbrev note : DeliverRequest
note = record { mailbox_id = 4; fields = []; blob_id = codes "c"; size = 7 }

deliver_email-delivery_example :
    observed db (deliver_email db 1 letter [] empty)
    ≡ committed (MemKv.get empty) (delivery 1 letter [] (MemKv.get empty))
deliver_email-delivery_example = deliver_email-delivery db 1 letter [] empty

deliver_email_batch-deliver_each_example :
    observed db (deliver_email_batch db 1 (letter ∷ note ∷ []) empty)
    ≡ or_back (MemKv.get empty) (observed db (deliver_each db 1 (letter ∷ note ∷ []) empty))
deliver_email_batch-deliver_each_example =
    deliver_email_batch-deliver_each db 1 (letter ∷ note ∷ []) empty

empty-IsNumbered : IsNumbered (MemKv.get empty)
unfolding MemKv.get Assoc.get be_uint64_value
empty-IsNumbered = record {
  uids = λ a m u x h e. cc e;
  docs = λ a d f x h e. cc e;
  changes = λ a c i x h e. cc e;
  gapless = λ a i pos h. absurd (omega arith);
}

empty-HasRoom : HasRoom 1 3 (MemKv.get empty)
unfolding MemKv.get Assoc.get be_uint64_value
empty-HasRoom = (omega arith, omega arith, omega arith)

deliver_email-IsNumbered_example : IsNumbered (MemKv.get (deliver_email db 1 letter [] empty).1)
deliver_email-IsNumbered_example =
    deliver_email-IsNumbered db 1 letter empty empty-IsNumbered empty-HasRoom

abbrev first : Delivered
first = record { uid = 1; mod_seq = 1; doc_id = 1 }

delivered : (deliver_email db 1 letter [] empty).0 ≡ ok first
unfolding deliver_email MemKv.get Assoc.get MemKv.batch Assoc.put Assoc.delete compare_bytes
    mailezine.Store.Key.counter_key field_key be blob_link_key meta_blob_gc_key quota_key
delivered = refl

deliver_email_fresh_example :
    (MemKv.get empty (index_email_key 1 3 1) ≡ none)
    × ((f : ℕ) → MemKv.get empty (field_key 1 2 1 f) ≡ none)
    × (MemKv.get (deliver_email db 1 letter [] empty).1 (index_email_key 1 3 1)
        ≡ some (be_uint64 1))
deliver_email_fresh_example =
    deliver_email_fresh db 1 letter empty first empty-IsNumbered empty-HasRoom delivered

-- A document of five bytes, and the quota at nine.
abbrev stored : MemoryKv
stored =
    (field_key 1 2 1 0, 1 ∷ [])
    ∷ (field_key 1 2 1 7, be_uint64 5)
    ∷ (field_key 1 2 2 0, 1 ∷ [])
    ∷ (quota_key 1, be_uint64 9)
    ∷ []

deleted : (delete_email_atomically db 100 1 2 1 [] [] stored).0 ≡ ok tt
unfolding delete_email_atomically MemKv.scan Assoc.sort_by_key Assoc.filter_keys
    mailezine.Bytes.has_prefix document_key MemKv.get Assoc.get MemKv.batch Assoc.put Assoc.delete
    compare_bytes mailezine.Store.Key.counter_key field_key be quota_key
deleted = refl

delete_email_atomically-field_example :
    MemKv.get (delete_email_atomically db 100 1 2 1 [] [] stored).1 (field_key 1 2 1 7) ≡ none
delete_email_atomically-field_example =
    delete_email_atomically-field db 100 1 2 1 [] [] 1 2 1 7 stored (omega arith) (omega arith)
      (omega arith) (omega arith) tt deleted

charged : quota_value (MemKv.get stored (quota_key 1)) ≡ ok 9
unfolding quota_value MemKv.get Assoc.get field_key quota_key be be_value compare_bytes
charged = refl

small_size : (scan_fields nothing_scanned (MemKv.scan stored (document_key 1 2 1))).size < 2 ^ 63
unfolding scan_fields MemKv.scan Assoc.sort_by_key Assoc.filter_keys mailezine.Bytes.has_prefix
    document_key field_key quota_key be be_value compare_bytes
small_size = omega arith

delete_email_atomically-quota_example :
    quota_value (MemKv.get (delete_email_atomically db 100 1 2 1 [] [] stored).1 (quota_key 1))
    ≡ ok (9 - (scan_fields nothing_scanned (MemKv.scan stored (document_key 1 2 1))).size)
delete_email_atomically-quota_example =
    delete_email_atomically-quota db 100 1 2 1 [] [] stored 9 (omega arith) small_size tt charged
      deleted

abbrev flagged : List DocUpdate
flagged =
    record { doc_id = 1; fields = (4, codes "x") ∷ [] } ∷ record { doc_id = 2; fields = [] } ∷ []

update_documents_atomically-update_each_example :
    observed db (update_documents_atomically db 1 2 flagged [] stored)
    ≡ observed db (update_each db 1 2 flagged stored)
update_documents_atomically-update_each_example =
    update_documents_atomically-update_each db 1 2 flagged stored

-- One blob with a claim and no link, and one that is linked.
abbrev blobs : MemoryKv
blobs =
    (meta_blob_gc_key (codes "b"), be_uint64 10)
    ∷ (meta_blob_gc_key (codes "c"), be_uint64 10)
    ∷ (blob_link_key 1 (codes "b"), be_uint64 0)
    ∷ (blob_link_key 1 (codes "c"), be_uint64 2)
    ∷ []

abbrev never : Bytes → Bool
never _ = false

abbrev removes : Bytes → Reclaim
removes _ = removed

-- Others that link the blob again drop its claim.
abbrev relinks : Bytes → MemoryKv → MemoryKv
relinks blob s = delete_blob_gc_claim mem_kv blob s

sweep_blobs_unlinked_example :
    All
      (λ blob.
        (a : ℕ) (v : Bytes)
        → MemKv.get blobs (blob_link_key a blob) ≡ some v
        → length v ≡ 8
        → be_value 0 v ≡ 0)
      (sweep_blobs mem_kv never (λ _ s. s) removes 1 20_000_000_000 blobs).0
sweep_blobs_unlinked_example =
    sweep_blobs_unlinked mem_kv never (λ _ s. s) removes 1 20_000_000_000 blobs

relinked :
    (s : MemoryKv)
    → claim_still_due mem_kv 1 20_000_000_000 (codes "b") (relinks (codes "b") s) ≡ false
unfolding claim_still_due delete_blob_gc_claim
relinked s =
    ap (still_due mem_kv 1 20_000_000_000)
      (get-batch_delete mem_kv s (meta_blob_gc_key (codes "b")))

not_linked : refs_or_none (blob_ref_count db 1 (codes "b") empty) ≡ ok 0
unfolding blob_ref_count MemKv.get Assoc.get
not_linked = refl

unlink_blob-link_blob_example :
    let (r, s1) = link_blob db 1 (codes "b") empty in
    let (r', s2) = unlink_blob db 100 1 (codes "b") s1 in
    let claim = MemKv.get empty (meta_blob_gc_key (codes "b")) in
    (r ≡ ok tt)
    × (r' ≡ ok tt)
    × (blob_ref_count db 1 (codes "b") s1 ≡ ok 1)
    × (blob_ref_count db 1 (codes "b") s2 ≡ ok 0)
    × (MemKv.get s1 (meta_blob_gc_key (codes "b")) ≡ (if 0 == 0 then none else claim))
    × (MemKv.get s2 (meta_blob_gc_key (codes "b"))
        ≡ (if 0 == 0 then some (be_uint64 100) else claim))
unlink_blob-link_blob_example =
    unlink_blob-link_blob db 1 (codes "b") 100 empty 0 (omega arith) not_linked

created : (create_account db (codes "ann") empty).0 ≡ ok 1
unfolding create_account MemKv.get Assoc.get
created = refl

abbrev no_fields : ℕ → Fields
no_fields _ = []

abbrev named : ℕ → Fields
named _ = (1, codes "Inbox") ∷ []

ensured : (ensure_mailbox_doc db 1 (codes "Inbox") named empty).0 ≡ ok 1
unfolding ensure_mailbox_doc MemKv.get Assoc.get
ensured = refl

bytes_eq-encode_example :
    bytes_eq (encode (counter 1 2 [])) (encode (change_log 1 2 3))
    ≡ same_key (counter 1 2 []) (change_log 1 2 3)
bytes_eq-encode_example = bytes_eq-encode (counter 1 2 []) (change_log 1 2 3)
