-- ===== src/MailStore/Change/Renamed.antt =====
-- What renaming a mailbox changes (`internal/mailstore/kv_mailbox.go`,
-- `RenameMailbox`).
use mailezine.Prelude.{ℕ, ◌≡◌, refl, ◌∙◌, false, [], ◌∷◌, arith, subst, sym, ap}
use mailezine.Bytes.{bytes_eq_iff, Bytes, bytes_eq}
use mailezine.Store.Key.{index_mailbox_name_key, field_key}
use mailezine.Store.Key.Typed.{encode, field, counter, change_log, index_mailbox_name}
use mailezine.Store.ChangeLog.{encode_change_value}
use mailezine.Store.Counters.{collection_mailbox, next, read_counter}
use mailezine.Store.Email.{op_update, change_counter_key, change_ops}
use mailezine.Store.View.{
  with_txn-OnOk, get-batch_last, OnOk, OnOk-bind, get-batch_apart, get-batch_put,
}
use mailezine.Store.Kv.{after_ops, delete_op}
use mailezine.Store.Txn.{ok}
use mailezine.Store.Accounts.{account_by_email}
use mailezine.Store.Documents.{ordered_field_ops}
use mailezine.Store.Email.Update.{update_document_atomically, update_document_txn}
use mailezine.Store.Apart.{apart}
use mailezine.MailStore.Calls.{◌>>=◌, Engine, World, on_store}
use mailezine.MailStore.Calls.Keeps.{go_on-known, go_on-last, go_on-OnOk}
use mailezine.MailStore.Mailbox.{check_free, mailbox_doc_id}
use mailezine.MailStore.Change.{
  renaming, name_ops, rename_mailbox, Kv, none, some, be_uint64, Fields,
}
use mailezine.MailStore.Change.Kept.{renaming_rest, renaming_rest-Keeps}

module _ (parse : Bytes → ℕ) (e : Engine) where
  open e use {db}
  open db use {kv}

  -- What the first transaction of a renaming leaves, in an engine or in the handle.
  abbrev IsMoved : (t : Kv) → ℕ → Bytes → Bytes → ℕ → t.State → Type 0
  IsMoved t a old_name new_name mb_id s =
      (t.get s (index_mailbox_name_key a old_name) ≡ none)
      × (t.get s (index_mailbox_name_key a new_name) ≡ some (be_uint64 mb_id))
      × (t.get s (field_key a 1 mb_id 1) ≡ some new_name)

  update_txn-IsMoved :
      (a : ℕ) (old_name new_name : Bytes) (mb_id : ℕ) (t : db.ops.State)
      → bytes_eq new_name old_name ≡ false
      → OnOk
          (λ (_, t'). IsMoved db.ops a old_name new_name mb_id t')
          (update_document_txn db.ops a 1 mb_id
            ((1, new_name) ∷ [])
            (name_ops parse e a old_name new_name mb_id)
            t)
  unfolding update_document_txn after_ops
  update_txn-IsMoved a o n mb_id t h =
      let t1 = db.ops.batch t (ordered_field_ops a 1 mb_id ((1, n) ∷ [])) in
      OnOk-bind _ (read_counter (db.ops.get t1 (change_counter_key a))) _ λ cur _.
        let log =
          change_ops a 1 (next cur) (encode_change_value collection_mailbox mb_id op_update) in
        let t2 = db.ops.batch t1 log in
        let old = index_mailbox_name a o in
        let new = index_mailbox_name a n in
        let name = field a 1 mb_id 1 in
        (
          db.ops.get-batch t2 (name_ops parse e a o n mb_id) (encode old)
              ∙ rw
                  (
                    apart new old (ground (arith, h)),
                    (bytes_eq_iff (encode old) (encode old)).1 refl,
                  )
                  refl,
          get-batch_last db.ops t2 (delete_op (encode old) ∷ []) [] (encode new) (be_uint64 mb_id)
              tt,
          get-batch_apart db.ops t2 (name_ops parse e a o n mb_id) (encode name)
                (apart old name refl, (apart new name refl, tt))
              ∙ get-batch_apart db.ops t1 log (encode name) (
                apart (counter a 2 []) name refl,
                (apart (change_log a 1 (next cur)) name refl, tt),
              )
              ∙ get-batch_put db.ops t (encode name) n,
        )

  renaming-IsMoved :
      (a : ℕ) (old_name new_name : Bytes) (mb_id : ℕ) (w : World kv.State)
      → bytes_eq new_name old_name ≡ false
      → (renaming parse e a old_name new_name mb_id w).0 ≡ ok tt
      → IsMoved kv a old_name new_name mb_id (renaming parse e a old_name new_name mb_id w).1.store
  unfolding update_document_atomically
  renaming-IsMoved a o n mb_id w h done =
      let fields : Fields = (1, n) ∷ [] in
      let ops = name_ops parse e a o n mb_id in
      go_on-OnOk kv (IsMoved kv a o n mb_id) (λ _. renaming_rest parse e a o n mb_id)
        (on_store kv (update_document_atomically db a 1 mb_id fields ops) w) tt
        (λ x r.
          with_txn-OnOk db (update_document_txn db.ops a 1 mb_id fields ops)
            (IsMoved db.ops a o n mb_id) (IsMoved kv a o n mb_id) w.store x
            (update_txn-IsMoved a o n mb_id (db.begin w.store) h)
            (λ t (gone, there, named).
              (db.get-commit t _ ∙ gone, db.get-commit t _ ∙ there, db.get-commit t _ ∙ named))
            (r))
        (λ x v (gone, there, named).
          let old = index_mailbox_name a o in
          let new = index_mailbox_name a n in
          let name = field a 1 mb_id 1 in
          (
            renaming_rest-Keeps parse e (encode old) a o n mb_id
                  (λ d. apart (field a 2 d 3) old refl) (apart (counter a 2 []) old refl)
                  (λ id. apart (change_log a 2 id) old refl) v
                ∙ gone,
            renaming_rest-Keeps parse e (encode new) a o n mb_id
                  (λ d. apart (field a 2 d 3) new refl) (apart (counter a 2 []) new refl)
                  (λ id. apart (change_log a 2 id) new refl) v
                ∙ there,
            renaming_rest-Keeps parse e (encode name) a o n mb_id
                  (λ d. apart (field a 2 d 3) name (ground arith))
                  (apart (counter a 2 []) name refl) (λ id. apart (change_log a 2 id) name refl) v
                ∙ named,
          ))
        done

  -- A renaming to another name that succeeds takes the name of the mailbox from its row: the row of
  -- the old name is gone, the row of the new one leads to the same document, which carries the new
  -- name.
  pub rename_mailbox_moves :
      (email old_name new_name : Bytes) (a id : ℕ) (w : World kv.State)
      → account_by_email kv email w.store ≡ ok a
      → (mailbox_doc_id db a old_name w).0 ≡ ok id
      → bytes_eq new_name old_name ≡ false
      → (rename_mailbox parse e email old_name new_name w).0 ≡ ok tt
      → let s' = (rename_mailbox parse e email old_name new_name w).1.store in
        (kv.get s' (index_mailbox_name_key a old_name) ≡ none)
        × (kv.get s' (index_mailbox_name_key a new_name) ≡ some (be_uint64 id))
        × (kv.get s' (field_key a 1 id 1) ≡ some new_name)
  unfolding rename_mailbox
  rename_mailbox_moves email o n a id w h found other done =
      let checked = λ (mb_id : ℕ). check_free db a n >>= λ _. renaming parse e a o n mb_id in
      let start : rename_mailbox parse e email o n w ≡ checked id (mailbox_doc_id db a o w).1 =
        rw h (go_on-known kv checked (mailbox_doc_id db a o w) id found) in
      subst (λ r. IsMoved kv a o n id r.1.store) (sym start)
        (go_on-last kv (IsMoved kv a o n id) (λ _. renaming parse e a o n id)
          (check_free db a n (mailbox_doc_id db a o w).1) tt
          (λ _ v. renaming-IsMoved a o n id v other) (sym (ap (λ r. r.0) start) ∙ done))
