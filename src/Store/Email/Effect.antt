-- ===== src/Store/Email/Effect.antt =====
-- A delivery's operations as writes of keys taken as data (`deliverOne` of `internal/store/store.go`),
-- and what the keys hold after them.
pub mod Counted
use mailezine.Prelude.{
  ℕ, ◌+◌, ◌%◌, ◌^◌, ◌≡◌, refl, sym, ap, ◌∙◌, false, List, [], ◌∷◌, ◌++◌, Option, none, some, arith,
  if◌then◌else◌, ◌==◌, ◌&&◌, ap₂, length, suc,
}
use mailezine.Store.Key.BigEndian.{be, length-be}
use mailezine.Bytes.{Bytes, bytes_eq, compare_bytes}
use mailezine.Store.Key.{counter_kind_change, counter_kind_next_doc, field_meta}
use mailezine.Store.Key.Typed.{
  StoreKey, encode, same_key, same32, same64, counter, field, blob_link, quota, blob_gc, change_log,
  index_email, bytes_eq-be8_end,
}
use mailezine.Store.Kv.{Op, after_ops}
use mailezine.Store.Writes.{
  Write, after, after-append, after-field_writes_apart, after_ops-encode_writes, encode_writes,
  encode_writes-append, encode_writes-field_writes, field_writes,
}
use mailezine.Store.Counters.{
  be_uint64, collection_email, collection_mailbox, field_mailbox_mod_seq, next,
}
use mailezine.Store.BlobLink.{link_ops}
use mailezine.Store.ChangeLog.{encode_change_value}
use mailezine.Store.View.{View, apply}
use mailezine.Store.Email.{
  DeliverRequest, full_fields, op_create, doc_counter_key, change_counter_key, uid_counter_key, be,
}
use mailezine.Store.Apart.{nonempty}
use mailezine.Store.Email.Delivery.{delivery_ops}

abbrev pub link_writes : ℕ → Bytes → ℕ → List Write
link_writes a blob refs =
    if refs == 0
    then (blob_gc blob, none) ∷ (blob_link a blob, some (be_uint64 (next refs))) ∷ []
    else (blob_link a blob, some (be_uint64 (next refs))) ∷ []

encode_writes-link_writes :
    (a : ℕ) (blob : Bytes) (refs : ℕ)
    → encode_writes (link_writes a blob refs) ≡ link_ops a blob refs
encode_writes-link_writes a blob refs = ground arith

pub after-link_writes :
    (a : ℕ) (blob : Bytes) (refs : ℕ) (k : StoreKey) (held : Option Bytes)
    → same_key (blob_gc blob) k ≡ false
    → same_key (blob_link a blob) k ≡ false
    → after (link_writes a blob refs) k held ≡ held
unfolding after
after-link_writes a blob refs k held h g = ground (arith, h, g)

encode_both :
    (x y : List Write) {o p : List Op}
    → encode_writes x ≡ o
    → encode_writes y ≡ p
    → encode_writes (x ++ y) ≡ o ++ p
encode_both x y h g = encode_writes-append x y ∙ ap₂ (λ m n. m ++ n) h g

module _ (a : ℕ) (req : DeliverRequest) (uid ms doc refs used change_id : ℕ) where
  abbrev pub number_writes : List Write
  number_writes =
      (
        counter a counter_kind_next_doc (collection_email ∷ be_uint64 req.mailbox_id),
        some (be_uint64 uid),
      )
      ∷ (field a collection_mailbox req.mailbox_id field_mailbox_mod_seq, some (be_uint64 ms))
      ∷ (counter a counter_kind_next_doc (collection_email ∷ []), some (be_uint64 doc))
      ∷ (field a collection_email doc field_meta, some (1 ∷ []))
      ∷ []

  abbrev pub email_writes : List Write
  email_writes = field_writes a collection_email doc (full_fields req.fields uid ms)

  abbrev pub quota_writes : List Write
  quota_writes = (quota a, some (be_uint64 ((used + req.size) % 2 ^ 64))) ∷ []

  abbrev pub log_writes : List Write
  log_writes =
      (counter a counter_kind_change [], some (be_uint64 change_id))
      ∷ (
        change_log a collection_email change_id,
        some (encode_change_value collection_email doc op_create),
      )
      ∷ []

  abbrev pub index_writes : List Write
  index_writes = (index_email a req.mailbox_id uid, some (be_uint64 doc)) ∷ []

  abbrev pub delivery_writes : List Write
  delivery_writes =
      ((((number_writes ++ email_writes) ++ link_writes a req.blob_id refs) ++ quota_writes)
        ++ log_writes)
      ++ index_writes

  delivery_ops-writes :
      delivery_ops a req uid ms doc refs used change_id ≡ encode_writes delivery_writes
  delivery_ops-writes =
      let a1 = number_writes ++ email_writes in
      let a2 = a1 ++ link_writes a req.blob_id refs in
      let a3 = a2 ++ quota_writes in
      sym (
        encode_both (a3 ++ log_writes) index_writes
          (encode_both a3 log_writes
            (encode_both a2 quota_writes
              (encode_both a1 (link_writes a req.blob_id refs)
                (encode_both number_writes email_writes refl
                  (encode_writes-field_writes a 2 doc (full_fields req.fields uid ms)))
                (encode_writes-link_writes a req.blob_id refs))
              refl)
            refl)
          refl)

  after-delivery_writes :
      (k : StoreKey) (held : Option Bytes)
      → after delivery_writes k held
        ≡ after index_writes k (
            after log_writes k (
              after quota_writes k (
                after
                  (link_writes a req.blob_id refs)
                  k
                  (after email_writes k (after number_writes k held)))))
  after-delivery_writes k held =
      let a1 = number_writes ++ email_writes in
      let a2 = a1 ++ link_writes a req.blob_id refs in
      let a3 = a2 ++ quota_writes in
      after-append (a3 ++ log_writes) index_writes k held
      ∙ ap (after index_writes k) (
          after-append a3 log_writes k held
          ∙ ap (after log_writes k) (
              after-append a2 quota_writes k held
              ∙ ap (after quota_writes k) (
                  after-append a1 (link_writes a req.blob_id refs) k held
                  ∙ ap (after (link_writes a req.blob_id refs) k)
                      (after-append number_writes email_writes k held))))

  -- What a key holds after the delivery's operations.
  pub apply-delivery_ops :
      (v : View) (k : StoreKey)
      → apply (delivery_ops a req uid ms doc refs used change_id) v (encode k)
        ≡ after index_writes k (
            after log_writes k (
              after quota_writes k (
                after
                  (link_writes a req.blob_id refs)
                  k
                  (after email_writes k (after number_writes k (v (encode k)))))))
  apply-delivery_ops v k =
      ap (λ ops. after_ops ops (encode k) (v (encode k))) delivery_ops-writes
      ∙ after_ops-encode_writes delivery_writes k (v (encode k))
      ∙ after-delivery_writes k (v (encode k))

  pub delivered-index :
      (v : View) (b m u : ℕ)
      → apply (delivery_ops a req uid ms doc refs used change_id) v (encode (index_email b m u)) ≡ (
          if same32 a b && (same64 req.mailbox_id m && same64 uid u)
          then some (be_uint64 doc)
          else v (encode (index_email b m u)))
  unfolding after
  delivered-index v b m u =
      apply-delivery_ops v (index_email b m u)
      ∙ rw
          (
            after-field_writes_apart a 2 doc (full_fields req.fields uid ms) (index_email b m u)
                (v (encode (index_email b m u))) (λ f. refl),
            after-link_writes a req.blob_id refs (index_email b m u)
                (v (encode (index_email b m u))) refl refl,
          )
          refl

  pub delivered-log :
      (v : View) (b c i : ℕ)
      → apply (delivery_ops a req uid ms doc refs used change_id) v (encode (change_log b c i)) ≡ (
          if same32 a b && ((2 == c) && same64 change_id i)
          then some (encode_change_value collection_email doc op_create)
          else v (encode (change_log b c i)))
  unfolding after
  delivered-log v b c i =
      let k = change_log b c i in
      apply-delivery_ops v k
      ∙ rw
          (
            after-field_writes_apart a 2 doc (full_fields req.fields uid ms) k (v (encode k))
                (λ f. refl),
            after-link_writes a req.blob_id refs k (v (encode k)) refl refl,
          )
          refl

  -- Fields of other documents.
  pub delivered-field :
      (v : View) (b d f : ℕ)
      → (same32 a b && same64 doc d) ≡ false
      → apply (delivery_ops a req uid ms doc refs used change_id) v (encode (field b 2 d f))
        ≡ v (encode (field b 2 d f))
  unfolding after
  delivered-field v b d f h =
      let k = field b 2 d f in
      apply-delivery_ops v k
      ∙ after-link_writes a req.blob_id refs k _ refl refl
      ∙ after-field_writes_apart a 2 doc (full_fields req.fields uid ms) k _
          (λ g. ground (arith, h))
      ∙ ground (arith, h)
