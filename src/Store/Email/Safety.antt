-- ===== src/Store/Email/Safety.antt =====
-- Deliveries keep the numbers of the store in order and never write over a message
-- (`DeliverEmail` of `internal/store/store.go`).
use mailezine.Prelude.{
  ℕ, ◌+◌, ◌^◌, ◌<◌, ◌≡◌, refl, sym, ap, subst, ◌∙◌, List, [], ◌++◌, Option, none, some, arith,
}
use mathlib.Core.List.{append-nil}
use mailezine.Store.Key.{field_key, index_email_key, blob_link_key, quota_key}
use mailezine.Store.Kv.{Op}
use mailezine.Store.Txn.{TxnKv, Result, ok, err}
use mailezine.Store.Counters.{
  be_uint64, be_uint64_value, blob_ref_value, next, quota_value, read_counter,
}
use mailezine.Store.BlobLink.{refs_or_none}
use mailezine.Store.View.{value_or, OnOk, OnOk-bind, View, apply, committed}
use mailezine.Store.Email.{
  DeliverRequest, Delivered, change_counter_key, deliver_email, doc_counter_key, mod_seq_key,
  uid_counter_key,
}
use mailezine.Store.Email.Delivery.{delivery, delivery_ops}
use mailezine.Store.Email.Batch.{deliver_email-delivery}
use mailezine.Store.Email.Effect.{delivered-index}
use mailezine.Store.Email.Numbers.{
  fresh_uid, fresh_doc, IsNumbered, after_it-IsNumbered, value-read_counter,
}

-- Every successful delivery has read its counters.
module _ {ℓ} (a : ℕ) (req : DeliverRequest) (v : View) (P : Delivered × List Op → Type ℓ) where
  delivery-OnOk :
      ((cur cur_doc refs used cur_change : ℕ)
        → be_uint64_value (v (uid_counter_key a req.mailbox_id)) ≡ cur
        → be_uint64_value (v (doc_counter_key a)) ≡ cur_doc
        → be_uint64_value (v (change_counter_key a)) ≡ cur_change
        → let ms = next (be_uint64_value (v (mod_seq_key a req.mailbox_id))) in
          P (
            record { uid = next cur; mod_seq = ms; doc_id = next cur_doc },
            delivery_ops a req (next cur) ms (next cur_doc) refs used (next cur_change) ++ [],
          ))
      → OnOk P (delivery a req [] v)
  unfolding delivery
  delivery-OnOk h = OnOk-bind P (read_counter (v (uid_counter_key a req.mailbox_id))) _ λ cur e1.
      OnOk-bind P (read_counter (v (doc_counter_key a))) _ λ cur_doc e2.
        OnOk-bind P (refs_or_none (blob_ref_value (v (blob_link_key a req.blob_id)))) _ λ refs e3.
          OnOk-bind P (quota_value (v (quota_key a))) _ λ used e4.
            OnOk-bind P (read_counter (v (change_counter_key a))) _ λ cur_change e5.
              h cur cur_doc refs used cur_change
                (value-read_counter (v (uid_counter_key a req.mailbox_id)) cur e1)
                (value-read_counter (v (doc_counter_key a)) cur_doc e2)
                (value-read_counter (v (change_counter_key a)) cur_change e5)

-- The counters of a delivery have not reached their end.
abbrev pub HasRoom : ℕ → ℕ → View → Type 0
HasRoom a m v =
    (be_uint64_value (v (uid_counter_key a m)) + 1 < 2 ^ 64)
    × (be_uint64_value (v (doc_counter_key a)) + 1 < 2 ^ 64)
    × (be_uint64_value (v (change_counter_key a)) + 1 < 2 ^ 64)

committed-IsNumbered :
    (v : View) (r : Result (Delivered × List Op))
    → IsNumbered v
    → OnOk (λ (d, ops). IsNumbered (apply ops v)) r
    → IsNumbered (committed v r).1
committed-IsNumbered v (ok _) valid h = h
committed-IsNumbered v (err _) valid h = valid

committed-OnOk {κ} :
    (v : View) (r : Result (Delivered × List Op)) (x : Result Delivered × View) (d : Delivered)
    (Q : Delivered → View → Type κ)
    → x ≡ committed v r
    → x.0 ≡ ok d
    → OnOk (λ (e, ops). Q e (apply ops v)) r
    → Q d x.1
committed-OnOk v (ok (e, ops)) x d Q h g q =
    let same : e ≡ d = ap (value_or e) (sym (ap (λ y. y.0) h) ∙ g) in
    subst (λ y. Q y x.1) same (subst (Q e) (sym (ap (λ y. y.1) h)) q)
committed-OnOk v (err e) x d Q h g q = cc (sym (ap (λ y. y.0) h) ∙ g)

none_of_no {ℓ} : {A : Type ℓ} (o : Option A) → ((x : A) → o ≡ some x → ⊥) → o ≡ none
none_of_no none h = refl
none_of_no (some x) h = absurd (h x refl)

module _ (db : TxnKv) where
  open db use {kv}

  -- A delivery keeps every UID, document and change number at most its counter and the change log
  -- without a gap, if these held before and the three counters are below 2^64 - 1.
  pub deliver_email-IsNumbered :
      (a : ℕ) (req : DeliverRequest) (s : kv.State)
      → IsNumbered (kv.get s)
      → HasRoom a req.mailbox_id (kv.get s)
      → IsNumbered (kv.get (deliver_email db a req [] s).1)
  deliver_email-IsNumbered a req s valid room =
      let v = kv.get s in
      subst IsNumbered (sym (ap (λ x. x.1) (deliver_email-delivery db a req [] s))) (
        committed-IsNumbered v (delivery a req [] v) valid (
          delivery-OnOk a req v _ λ cur cur_doc refs used cur_change e1 e2 e3.
            subst (λ ops. IsNumbered (apply ops v)) (sym (append-nil _))
              (after_it-IsNumbered a req v cur _ cur_doc refs used cur_change valid e1 e2 e3
                (subst (λ n. n + 1 < 2 ^ 64) e1 room.0) (subst (λ n. n + 1 < 2 ^ 64) e2 room.1)
                (subst (λ n. n + 1 < 2 ^ 64) e3 room.2))))

  -- A successful delivery names its message by a UID and a document that no row had before, if
  -- the numbers were in order and had room, and afterwards the UID leads to the document.
  pub deliver_email_fresh :
      (a : ℕ) (req : DeliverRequest) (s : kv.State) (d : Delivered)
      → IsNumbered (kv.get s)
      → HasRoom a req.mailbox_id (kv.get s)
      → (deliver_email db a req [] s).0 ≡ ok d
      → (kv.get s (index_email_key a req.mailbox_id d.uid) ≡ none)
        × ((f : ℕ) → kv.get s (field_key a 2 d.doc_id f) ≡ none)
        × (kv.get (deliver_email db a req [] s).1 (index_email_key a req.mailbox_id d.uid)
            ≡ some (be_uint64 d.doc_id))
  deliver_email_fresh a req s d valid room h =
      let v = kv.get s in
      committed-OnOk v (delivery a req [] v) _ d
        (λ e w.
          (v (index_email_key a req.mailbox_id e.uid) ≡ none)
          × ((f : ℕ) → v (field_key a 2 e.doc_id f) ≡ none)
          × (w (index_email_key a req.mailbox_id e.uid) ≡ some (be_uint64 e.doc_id)))
        (deliver_email-delivery db a req [] s) h
        (delivery-OnOk a req v _ λ cur cur_doc refs used cur_change e1 e2 e3.
          let r1 = subst (λ n. n + 1 < 2 ^ 64) e1 room.0 in
          let r2 = subst (λ n. n + 1 < 2 ^ 64) e2 room.1 in
          let r3 = subst (λ n. n + 1 < 2 ^ 64) e3 room.2 in
          (
            none_of_no _
                (fresh_uid a req v cur 0 cur_doc refs used cur_change valid e1 e2 e3 r1 r2 r3),
            λ f. none_of_no _ (λ x.
                fresh_doc a req v cur 0 cur_doc refs used cur_change valid e1 e2 e3 r1 r2 r3 x f),
            subst
                (λ ops.
                  apply ops v (index_email_key a req.mailbox_id (next cur))
                  ≡ some (be_uint64 (next cur_doc)))
                (sym (append-nil _))
                (delivered-index a req (next cur) _ (next cur_doc) refs used (next cur_change) v a
                    req.mailbox_id (next cur)
                  ∙ ground arith),
          ))
