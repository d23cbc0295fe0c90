-- ===== src/Store/Email/Delivery/Carrying.antt =====
-- `deliverOne` of `internal/store/store.go` carries out its plan: no read of it is of a key that it
-- has already written.
use mailezine.Prelude.{ℕ, ◌+◌, ◌%◌, ◌^◌, ◌≡◌, refl, ap, false, List, [], ◌∷◌, arith}
use mailezine.Bytes.{Bytes, bytes_eq, compare_bytes}
use mailezine.Store.Key.BigEndian.{be, length-be}
use mailezine.Store.Key.{blob_link_key, field_key, field_meta, index_email_key, quota_key}
use mailezine.Store.Key.Typed.{
  StoreKey, encode, same_key, counter, field, blob_link, quota, blob_gc,
}
use mailezine.Store.Kv.{Kv, Op, put_op}
use mailezine.Store.Counters.{
  be_uint64, be_uint64_value, blob_ref_value, collection_email, next, quota_value, read_counter,
}
use mailezine.Store.BlobLink.{link_ops, refs_or_none, stage_blob_link}
use mailezine.Store.Documents.{ordered_field_ops}
use mailezine.Store.ChangeLog.{encode_change_value}
use mailezine.Store.View.{
  Avoids, Carries, seen-bind, view-batch_after, view-batch, read_past, seen-bind_state, seen-ok,
}
use mailezine.Store.Email.{
  DeliverRequest, change_counter_key, change_ops, deliver_one, doc_counter_key, full_fields,
  mod_seq_key, op_create, uid_counter_key, counter_kind_next_doc, counter_kind_change,
}
use mailezine.Store.Apart.{apart, Avoids-append, ordered_field_ops-Avoids, nonempty}
use mailezine.Store.Email.Delivery.{
  uid_ops, mod_seq_ops, numbered_ops, document_ops, linked_ops, charged_ops, delivery_ops, delivery,
}

link_ops-Avoids :
    (a : ℕ) (blob : Bytes) (refs : ℕ) (k : Bytes)
    → bytes_eq (encode (blob_gc blob)) k ≡ false
    → bytes_eq (encode (blob_link a blob)) k ≡ false
    → Avoids k (link_ops a blob refs)
link_ops-Avoids a blob refs k h g = ground (arith, h, g)

-- The counters of a mailbox's UIDs and of the documents are two keys.
uid_doc_apart : (a mb : ℕ) → bytes_eq (uid_counter_key a mb) (doc_counter_key a) ≡ false
uid_doc_apart a mb =
    apart (counter a counter_kind_next_doc (collection_email ∷ be_uint64 mb))
      (counter a counter_kind_next_doc (collection_email ∷ []))
      (unfold compare_bytes in ground (arith, nonempty 7 (be 8 mb) (length-be 8 mb)))

uid_change_apart : (a mb : ℕ) → bytes_eq (uid_counter_key a mb) (change_counter_key a) ≡ false
uid_change_apart a mb =
    apart (counter a counter_kind_next_doc (collection_email ∷ be_uint64 mb))
      (counter a counter_kind_change []) (ground arith)

doc_change_apart : (a : ℕ) → bytes_eq (doc_counter_key a) (change_counter_key a) ≡ false
doc_change_apart a =
    apart (counter a counter_kind_next_doc (collection_email ∷ []))
      (counter a counter_kind_change []) (ground arith)

module _ (a : ℕ) (req : DeliverRequest) (uid ms doc : ℕ) where
  abbrev uid_counter : StoreKey
  uid_counter = counter a counter_kind_next_doc (collection_email ∷ be_uint64 req.mailbox_id)

  mod_seq_past : Avoids (mod_seq_key a req.mailbox_id) (uid_ops a req uid ms doc)
  mod_seq_past = (apart uid_counter (field a 1 req.mailbox_id 0x7f) refl, tt)

  doc_past : Avoids (doc_counter_key a) (mod_seq_ops a req uid ms doc)
  doc_past = (
    uid_doc_apart a req.mailbox_id,
    (apart (field a 1 req.mailbox_id 0x7f) (counter a 1 (2 ∷ [])) refl, tt),
  )

  -- Whatever is none of the keys before the link keeps what it holds.
  document_past :
      (k : StoreKey)
      → bytes_eq (uid_counter_key a req.mailbox_id) (encode k) ≡ false
      → bytes_eq (doc_counter_key a) (encode k) ≡ false
      → ((c d f : ℕ) → same_key (field a c d f) k ≡ false)
      → Avoids (encode k) (document_ops a req uid ms doc)
  document_past k h g e =
      let e' : (c d f : ℕ) → bytes_eq (field_key a c d f) (encode k) ≡ false =
        λ c d f. apart (field a c d f) k (e c d f) in
      Avoids-append (encode k) (numbered_ops a req uid ms doc)
        (ordered_field_ops a 2 doc (full_fields req.fields uid ms))
        (h, (e' 1 req.mailbox_id 0x7f, (g, (e' 2 doc 0, tt))))
        (ordered_field_ops-Avoids a 2 doc (full_fields req.fields uid ms) (encode k) (e' 2 doc))

  link_past : Avoids (blob_link_key a req.blob_id) (document_ops a req uid ms doc)
  link_past =
      let k = blob_link a req.blob_id in
      document_past k (apart uid_counter k refl) (apart (counter a 1 (2 ∷ [])) k refl) λ c d f. refl

  quota_past : (refs : ℕ) → Avoids (quota_key a) (linked_ops a req uid ms doc refs)
  quota_past refs =
      let k = quota a in
      Avoids-append (encode k) (document_ops a req uid ms doc) _
        (document_past k (apart uid_counter k refl) (apart (counter a 1 (2 ∷ [])) k refl)
          λ c d f. refl)
        (link_ops-Avoids a req.blob_id refs (encode k) (apart (blob_gc req.blob_id) k refl)
          (apart (blob_link a req.blob_id) k refl))

  change_past :
      (refs used : ℕ) → Avoids (change_counter_key a) (charged_ops a req uid ms doc refs used)
  change_past refs used =
      let k = counter a 2 [] in
      Avoids-append (encode k) (linked_ops a req uid ms doc refs) _
        (Avoids-append (encode k) (document_ops a req uid ms doc) _
          (document_past k (uid_change_apart a req.mailbox_id) (doc_change_apart a) λ c d f. refl)
          (link_ops-Avoids a req.blob_id refs (encode k) (apart (blob_gc req.blob_id) k refl)
            (apart (blob_link a req.blob_id) k refl)))
        (apart (quota a) k refl, tt)

module _ (t : Kv) where
  pub deliver_one-Carries :
      (a : ℕ) (req : DeliverRequest) (extra : List Op)
      → Carries t (deliver_one t a req extra) (delivery a req extra)
  unfolding deliver_one delivery stage_blob_link
  deliver_one-Carries a req extra s =
      let v = t.get s in
      seen-bind t v (read_counter (v (uid_counter_key a req.mailbox_id))) _ _ _ refl λ cur.
        let uid = next cur in
        let s1 = t.batch s (put_op (uid_counter_key a req.mailbox_id) (be_uint64 uid) ∷ []) in
        let h1 = view-batch t s (uid_ops a req uid 0 0) in
        rw
          (read_past t s s1 (uid_ops a req uid 0 0) (mod_seq_key a req.mailbox_id) h1
            (mod_seq_past a req uid 0 0))
          (let ms = next (be_uint64_value (v (mod_seq_key a req.mailbox_id))) in
            let s2 = t.batch s1 (put_op (mod_seq_key a req.mailbox_id) (be_uint64 ms) ∷ []) in
            let h2 = view-batch_after t s1 (uid_ops a req uid ms 0) _ v h1 in
            seen-bind t v _ _ _ _
              (ap read_counter (
                read_past t s s2 (mod_seq_ops a req uid ms 0) (doc_counter_key a) h2
                  (doc_past a req uid ms 0)))
              λ cur_doc.
                let doc = next cur_doc in
                let s3 = t.batch s2 (
                  put_op (doc_counter_key a) (be_uint64 doc)
                  ∷ put_op (field_key a collection_email doc field_meta) (1 ∷ [])
                  ∷ []) in
                let h3 = view-batch_after t s2 (mod_seq_ops a req uid ms doc) _ v h2 in
                let s4 =
                  t.batch s3
                    (ordered_field_ops a collection_email doc (full_fields req.fields uid ms)) in
                let h4 =
                  view-batch_after t s3 _
                    (ordered_field_ops a collection_email doc (full_fields req.fields uid ms)) v
                    h3 in
                seen-bind_state t v _ _ _ _ _
                  (ap (λ o. refs_or_none (blob_ref_value o))
                    (read_past t s s4 (document_ops a req uid ms doc) (blob_link_key a req.blob_id)
                      h4 (link_past a req uid ms doc)))
                  λ refs.
                    let s5 = t.batch s4 (link_ops a req.blob_id refs) in
                    let h5 =
                      view-batch_after t s4 (document_ops a req uid ms doc)
                        (link_ops a req.blob_id refs) v h4 in
                    seen-bind t v _ _ _ _
                      (ap quota_value (
                        read_past t s s5 (linked_ops a req uid ms doc refs) (quota_key a) h5
                          (quota_past a req uid ms doc refs)))
                      λ used.
                        let s6 =
                          t.batch s5
                            (put_op (quota_key a) (be_uint64 ((used + req.size) % 2 ^ 64)) ∷ []) in
                        let h6 =
                          view-batch_after t s5 (linked_ops a req uid ms doc refs)
                            (put_op (quota_key a) (be_uint64 ((used + req.size) % 2 ^ 64)) ∷ []) v
                            h5 in
                        seen-bind t v _ _ _ _
                          (ap read_counter (
                            read_past t s s6 (charged_ops a req uid ms doc refs used)
                              (change_counter_key a) h6 (change_past a req uid ms doc refs used)))
                          λ cur_change.
                            let s7 = t.batch s6 (
                              change_ops a collection_email (next cur_change)
                                (encode_change_value collection_email doc op_create)) in
                            let h7 =
                              view-batch_after t s6 (charged_ops a req uid ms doc refs used)
                                (change_ops a collection_email (next cur_change)
                                  (encode_change_value collection_email doc op_create))
                                v h6 in
                            let h8 =
                              view-batch_after t s7 _
                                (put_op (index_email_key a req.mailbox_id uid) (be_uint64 doc) ∷ [])
                                v h7 in
                            seen-ok t _ v _ _ (
                              view-batch_after t _
                                (delivery_ops a req uid ms doc refs used (next cur_change)) extra v
                                h8))
