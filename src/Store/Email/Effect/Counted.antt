-- ===== src/Store/Email/Effect/Counted.antt =====
-- The counters after a delivery (`deliverOne` of `internal/store/store.go`).
use mailezine.Prelude.{
  ℕ, ◌≡◌, refl, ◌∙◌, false, [], ◌∷◌, some, arith, if◌then◌else◌, ◌&&◌, length, suc,
}
use mailezine.Store.Key.BigEndian.{be, length-be}
use mailezine.Bytes.{Bytes, bytes_eq, compare_bytes}
use mailezine.Store.Key.{counter_kind_change, counter_kind_next_doc}
use mailezine.Store.Key.Typed.{encode, same32, same64, counter, bytes_eq-be8_end}
use mailezine.Store.Writes.{after, after-field_writes_apart}
use mailezine.Store.Counters.{be_uint64, collection_email}
use mailezine.Store.View.{View, apply}
use mailezine.Store.Email.{
  DeliverRequest, full_fields, doc_counter_key, change_counter_key, uid_counter_key, be,
}
use mailezine.Store.Apart.{nonempty}
use mailezine.Store.Email.Delivery.{delivery_ops}
use mailezine.Store.Email.Effect.{apply-delivery_ops, after-link_writes}

nonempty_right : (n : ℕ) (l : Bytes) → length l ≡ suc n → bytes_eq [] l ≡ false
unfolding compare_bytes
nonempty_right n [] h = absurd (omega arith)
nonempty_right n (b ∷ l) h = refl

module _ (a : ℕ) (req : DeliverRequest) (uid ms doc refs used change_id : ℕ) where
  -- Counters: those of the UIDs, the documents and the changes.
  pub delivered-counter :
      (v : View) (b kind : ℕ) (sub : Bytes)
      → apply (delivery_ops a req uid ms doc refs used change_id) v (encode (counter b kind sub))
        ≡ after
            ((
              counter a counter_kind_next_doc (collection_email ∷ be_uint64 req.mailbox_id),
              some (be_uint64 uid),
            )
              ∷ (counter a counter_kind_next_doc (collection_email ∷ []), some (be_uint64 doc))
              ∷ (counter a counter_kind_change [], some (be_uint64 change_id))
              ∷ [])
            (counter b kind sub)
            (v (encode (counter b kind sub)))
  unfolding after
  delivered-counter v b kind sub =
      let k = counter b kind sub in
      apply-delivery_ops a req uid ms doc refs used change_id v k
      ∙ rw
          (
            after-field_writes_apart a 2 doc (full_fields req.fields uid ms) k _ (λ f. refl),
            after-link_writes a req.blob_id refs k _ refl refl,
          )
          refl

  pub delivered-doc_counter :
      (v : View) (b : ℕ)
      → apply (delivery_ops a req uid ms doc refs used change_id) v (doc_counter_key b)
        ≡ (if same32 a b then some (be_uint64 doc) else v (doc_counter_key b))
  unfolding after compare_bytes
  delivered-doc_counter v b =
      delivered-counter v b 1 (2 ∷ [])
      ∙ ground (arith, nonempty 7 (be 8 req.mailbox_id) (length-be 8 req.mailbox_id))

  pub delivered-change_counter :
      (v : View) (b : ℕ)
      → apply (delivery_ops a req uid ms doc refs used change_id) v (change_counter_key b)
        ≡ (if same32 a b then some (be_uint64 change_id) else v (change_counter_key b))
  unfolding after compare_bytes
  delivered-change_counter v b = delivered-counter v b 2 [] ∙ ground arith

  pub delivered-uid_counter :
      (v : View) (b m : ℕ)
      → apply (delivery_ops a req uid ms doc refs used change_id) v (uid_counter_key b m) ≡ (
          if same32 a b && same64 req.mailbox_id m
          then some (be_uint64 uid)
          else v (uid_counter_key b m))
  unfolding after compare_bytes
  delivered-uid_counter v b m =
      delivered-counter v b 1 (2 ∷ be 8 m)
      ∙ ground (arith, nonempty_right 7 (be 8 m) (length-be 8 m), bytes_eq-be8_end req.mailbox_id m)
