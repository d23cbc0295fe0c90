-- ===== src/MailStore/Change/Kept.antt =====
-- What renaming a mailbox leaves alone (`internal/mailstore/kv_mailbox.go`,
-- `RenameMailbox`).

use mailezine.Prelude.{
  All-map, List, All, ◌++◌, true, ◌∙◌, sym, ap, subst, ℕ, ◌≡◌, refl, false, [], ◌∷◌,
}
use mailezine.Bytes.{Bytes, bytes_eq}
use mailezine.Store.Key.{index_email_prefix, index_mailbox_name_key, field_key}
use mailezine.Store.Key.Typed.{StoreKey, encode, change_log}
use mailezine.Store.View.{value_or}
use mailezine.Store.Email.Update.{update_document_atomically}
use mailezine.MailStore.Calls.{
  on_store, ◌>>=◌, Call, for_each, forget, same_id, mailbox_id, Engine, World, reading,
}
use mailezine.MailStore.Calls.Keeps.{
  go_on-KeepsAt, for_each-Keeps_each, scan_same, Keeps, KeepsAt, bind-Keeps, for_each-Keeps,
}
use mailezine.MailStore.Message.{in_uids, row_doc_ids, mailbox_emails}
use mailezine.MailStore.Message.Listed.{mailbox_emails-listed}
use mailezine.Store.Email.{change_counter_key}
use mailezine.Store.Txn.{not_found, exists, corrupt, not_marked_deleted, Result, ok, err}
use mailezine.Store.Accounts.{account_by_email}
use mailezine.MailStore.Mailbox.{check_free, mailbox_doc_id, refuse_existing}
use mailezine.MailStore.Mailbox.Keeps.{mailbox_doc_id-Keeps}
use mailezine.MailStore.Change.Updated.{update-Keeps}
use mailezine.MailStore.Change.{renaming, name_ops, rename_in_message, rename_mailbox}
use mailezine.MailStore.Change.Touched.{
  is_renamed, IsApart, is_renamed-IsApart, rows_apart, rows_apart_field, rows_apart_counter,
  rows_apart_log,
}

module _ (parse : Bytes → ℕ) (e : Engine) where
  open e use {db}
  open db use {kv}

  -- A renaming after its first transaction.
  abbrev pub renaming_rest : ℕ → Bytes → Bytes → ℕ → Call (World kv.State) (Unit {0})
  renaming_rest a o n mb_id = do
    emails ← reading kv (mailbox_emails parse e a mb_id)
    _ ← for_each (rename_in_message parse e a n) emails
    forget kv (same_id (mailbox_id a o))

  module _ (k : Bytes) where
    check_free-Keeps :
        (a : ℕ) (name : Bytes)
        → bytes_eq (index_mailbox_name_key a name) k ≡ false
        → Keeps kv k (check_free db a name)
    unfolding check_free
    check_free-Keeps a name h w =
        refused (mailbox_doc_id db a name w) (mailbox_doc_id-Keeps db k a name h w)
      where
        refused :
            (r : Result ℕ × World kv.State)
            → KeepsAt kv k r w
            → KeepsAt kv k (refuse_existing db r) w
        refused (ok id, v) g = g
        refused (err not_found, v) g = g
        refused (err exists, v) g = g
        refused (err corrupt, v) g = g
        refused (err not_marked_deleted, v) g = g

    pub renaming_rest-Keeps :
        (a : ℕ) (old_name new_name : Bytes) (mb_id : ℕ)
        → ((d : ℕ) → bytes_eq (field_key a 2 d 3) k ≡ false)
        → bytes_eq (change_counter_key a) k ≡ false
        → ((id : ℕ) → bytes_eq (encode (change_log a 2 id)) k ≡ false)
        → Keeps kv k (renaming_rest a old_name new_name mb_id)
    unfolding rename_in_message
    renaming_rest-Keeps a o n mb_id message count log =
        bind-Keeps kv k (reading kv (mailbox_emails parse e a mb_id)) _ (λ w. refl)
          λ emails.
            bind-Keeps kv k _ _
              (for_each-Keeps kv k (rename_in_message parse e a n) emails λ m.
                update-Keeps db k a 2 m.doc_id ((3, n) ∷ []) [] (message m.doc_id, tt) count log tt)
              λ _ w. refl

    -- The rest of a renaming, from a state where the mailbox has the messages `ids`.
    renaming_rest-KeepsAt :
        (a : ℕ) (old_name new_name : Bytes) (mb_id : ℕ) (ids : List ℕ) (w : World kv.State)
        → row_doc_ids (kv.scan w.store (index_email_prefix a mb_id)) ≡ ids
        → IsApart a mb_id ids old_name new_name k
        → KeepsAt kv k (renaming_rest a old_name new_name mb_id w) w
    unfolding rename_in_message
    renaming_rest-KeepsAt a o n mb_id ids w same (old, new, mailbox, message, count, log) =
        go_on-KeepsAt kv k _ (mailbox_emails parse e a mb_id w.store, w) w refl
          λ emails listed.
            let known =
              subst (λ l. All (λ m. in_uids l m.doc_id ≡ true) emails) same
                (mailbox_emails-listed parse e a mb_id w.store emails listed) in
            bind-Keeps kv k (for_each (rename_in_message parse e a n) emails)
              (λ _. forget kv (same_id (mailbox_id a o)))
              (for_each-Keeps_each kv k (rename_in_message parse e a n) emails (
                All-map _ _ emails
                  (λ m i.
                    update-Keeps db k a 2 m.doc_id ((3, n) ∷ []) [] (message m.doc_id i, tt) count
                      (log 2) tt)
                  known))
              (λ _ u. refl) w

  -- What leaves each index row of the mailbox leaves its list of messages.
  ids_same :
      {A : Type 0} (a mb_id : ℕ) (m : Call (World kv.State) A) (w : World kv.State)
      → ((r : Bytes) → KeepsAt kv (index_email_prefix a mb_id ++ r) (m w) w)
      → row_doc_ids (kv.scan (m w).1.store (index_email_prefix a mb_id))
        ≡ row_doc_ids (kv.scan w.store (index_email_prefix a mb_id))
  ids_same a mb_id m w h =
      ap row_doc_ids (scan_same kv (index_email_prefix a mb_id) w.store (m w).1.store h)

  first_update : ℕ → Bytes → Bytes → ℕ → Call (World kv.State) (Unit {0})
  first_update a o n mb_id =
      on_store kv
        (update_document_atomically db a 1 mb_id ((1, n) ∷ []) (name_ops parse e a o n mb_id))

  renaming-KeepsAt :
      (k : Bytes) (a : ℕ) (old_name new_name : Bytes) (mb_id : ℕ) (ids : List ℕ)
      (w : World kv.State)
      → row_doc_ids (kv.scan w.store (index_email_prefix a mb_id)) ≡ ids
      → IsApart a mb_id ids old_name new_name k
      → KeepsAt kv k (renaming parse e a old_name new_name mb_id w) w
  unfolding first_update
  renaming-KeepsAt k a o n mb_id ids w same free =
      let (old, new, mailbox, message, count, log) = free in
      go_on-KeepsAt kv k _ (first_update a o n mb_id w) w
        (update-Keeps db k a 1 mb_id ((1, n) ∷ []) (name_ops parse e a o n mb_id) (mailbox, tt)
          count (log 1) (old, (new, tt)) w)
        λ _ done.
          renaming_rest-KeepsAt k a o n mb_id ids (first_update a o n mb_id w).1
            (ids_same a mb_id (first_update a o n mb_id) w (λ r.
                update-Keeps db (index_email_prefix a mb_id ++ r) a 1 mb_id ((1, n) ∷ [])
                  (name_ops parse e a o n mb_id) (rows_apart_field a a mb_id 1 mb_id 1 r, tt)
                  (rows_apart_counter a a mb_id r) (λ id. rows_apart_log a a mb_id 1 id r)
                  (rows_apart a a mb_id o r, (rows_apart a a mb_id n r, tt)) w)
              ∙ same)
            free

  -- Renaming a mailbox that is there, however it ends, leaves every other key as it was: the names of
  -- other mailboxes and the messages in them, the UIDs and the index of its own messages, their
  -- flags and sizes, UIDVALIDITY and the counter of UIDs, blob links and quota, the rows of other
  -- names, and all keys of other accounts.
  pub rename_mailbox_keeps :
      (email old_name new_name : Bytes) (a mb_id : ℕ) (k : StoreKey) (w : World kv.State)
      → account_by_email kv email w.store ≡ ok a
      → (mailbox_doc_id db a old_name w).0 ≡ ok mb_id
      → is_renamed a mb_id
          (row_doc_ids (kv.scan w.store (index_email_prefix a mb_id)))
          old_name
          new_name
          k
        ≡ false
      → kv.get (rename_mailbox parse e email old_name new_name w).1.store (encode k)
        ≡ kv.get w.store (encode k)
  unfolding rename_mailbox
  rename_mailbox_keeps email o n a mb_id k w h there u =
      let ids = row_doc_ids (kv.scan w.store (index_email_prefix a mb_id)) in
      let free = is_renamed-IsApart a mb_id ids o n k u in
      let found = mailbox_doc_id db a o in
      let v = (found w).1 in
      rw h (
        go_on-KeepsAt kv (encode k) _ (found w) w (mailbox_doc_id-Keeps db (encode k) a o free.0 w)
          λ x got.
            let same : mb_id ≡ x = ap (value_or 0) (sym there ∙ got) in
            go_on-KeepsAt kv (encode k) _ (check_free db a n v) v
              (check_free-Keeps (encode k) a n free.1 v)
              λ _ done.
                subst
                  (λ i.
                    KeepsAt kv (encode k) (renaming parse e a o n i (check_free db a n v).1)
                      (check_free db a n v).1)
                  same
                  (renaming-KeepsAt (encode k) a o n mb_id ids (check_free db a n v).1
                    (ids_same a mb_id (check_free db a n) v
                        (λ r. check_free-Keeps _ a n (rows_apart a a mb_id n r) v)
                      ∙ ids_same a mb_id found w
                          (λ r. mailbox_doc_id-Keeps db _ a o (rows_apart a a mb_id o r) w))
                    free))
