-- ===== src/MailStore/Change.antt =====
-- Changes of mailboxes and messages (`internal/mailstore/kv_mailbox.go`): renaming and deleting a
-- mailbox, and the flags of messages. Times are in nanoseconds for the cache of identifiers and in
-- seconds of the unix time for the claims of blobs.
pub mod Updated
pub mod Touched
pub mod Kept
pub mod Renamed
use mailezine.Prelude.{
  ℕ, ◌+◌, ◌%◌, ◌^◌, Bool, true, false, not, List, [], ◌∷◌, ◌++◌, Option, none, some, if◌then◌else◌,
  length, ◌==◌, ◌-◌, drop, leb, ◌&&◌,
}
use mailezine.Prelude.NatMap
use mailezine.Bytes.{Bytes}
use mailezine.Store.Key.BigEndian.{be_value}
use mailezine.Store.Key.{index_email_key, index_email_prefix, index_mailbox_name_key}
use mailezine.Store.Kv.{Kv, Op, Entry, put_op, delete_op}
use mailezine.Store.Txn.{TxnKv, Result, ok, err, not_found}
use mailezine.Store.Counters.{
  be_uint64, be_uint64_value, bump_mailbox_mod_seq, collection_email, collection_mailbox,
  field_mailbox_mod_seq, quota_used,
}
use mailezine.Store.Accounts.{account_by_email}
use mailezine.Store.Documents.{Fields, delete_document, get_document_fields}
use mailezine.Store.Email.{email_field_flags, email_field_mailbox, email_field_mod_seq}
use mailezine.Store.Email.Update.{
  DocUpdate, update_document_atomically, update_documents_atomically,
}
use mailezine.MailStore.Calls.{
  Call, Engine, World, delete_raw, for_each, forget, go_on, mailbox_id, on_store, pure, reading,
  same_id, ◌>>=◌,
}
use mailezine.MailStore.Mailbox.{check_free, mailbox_doc_id, mb_field_name}
use mailezine.MailStore.Flags.{join_csv, split_flags}
use mailezine.MailStore.Message.{
  Email, delete_email, email_field_keywords, email_from_fields, mailbox_emails,
}

-- `FlagUpdate`
pub record FlagUpdate : Type 0 where
  pub uid : ℕ
  pub flags : List Bytes

-- The fields that a change of flags writes, in the order of their numbers.
abbrev pub flag_fields : List Bytes × List Bytes → ℕ → Fields
flag_fields (system, keywords) mod_seq =
    (email_field_flags, join_csv system)
    ∷ (email_field_keywords, join_csv keywords)
    ∷ (email_field_mod_seq, be_uint64 mod_seq)
    ∷ []

-- `emailDocIDs`: a later row of a UID replaces an earlier one.
abbrev pub collect_doc_ids : List Entry → List (ℕ × ℕ) → List (ℕ × ℕ)
collect_doc_ids [] docs = docs
collect_doc_ids ((k, v) ∷ rows) docs = collect_doc_ids rows (
    if (length v == 8) && leb 8 (length k)
    then NatMap.put (be_value 0 (drop (length k - 8) k)) (be_value 0 v) docs
    else docs)

-- The changes of `SetFlagsBatch`: an update of a UID that is gone is passed over.
unfoldable pub flag_changes : ℕ → List (ℕ × ℕ) → List FlagUpdate → List DocUpdate
unfolding NatMap.get split_flags join_csv
flag_changes mod_seq docs [] = []
flag_changes mod_seq docs (u ∷ us) =
    let rest = flag_changes mod_seq docs us in
    elim (NatMap.get u.uid docs) [
      | none ↦ rest
      | some id ↦ record { doc_id = id; fields = flag_fields (split_flags u.flags) mod_seq } ∷ rest
    ]

module _ (parse_date : Bytes → ℕ) (e : Engine) where
  open e use {db}
  open db use {kv}

  abbrev W : Type 0
  W = World kv.State

  abbrev pub as_email : ℕ → Result Fields → Result Email
  as_email id (ok fields) = ok (email_from_fields parse_date id fields)
  as_email id (err x) = err x

  -- The row of a UID, and the document that it leads to.
  abbrev pub email_of_row : ℕ → kv.State → Option Bytes → Result Email
  email_of_row acct s none = err not_found
  email_of_row acct s (some v) =
      if length v == 8
      then as_email (be_value 0 v) (get_document_fields kv acct collection_email (be_value 0 v) s)
      else err not_found

  -- `emailByIndexUID`
  unfoldable pub email_by_index_uid : ℕ → ℕ → ℕ → kv.State → Result Email
  unfolding be_value get_document_fields email_from_fields
  email_by_index_uid acct mb_id uid s =
      email_of_row acct s (kv.get s (index_email_key acct mb_id uid))

  -- `SetFlags`
  unfoldable pub set_flags : Bytes → Bytes → ℕ → List Bytes → Call W (Unit {0})
  unfolding account_by_email mailbox_doc_id email_by_index_uid bump_mailbox_mod_seq split_flags
      join_csv update_document_atomically
  set_flags email name uid flags = do
    acct ← reading kv (account_by_email kv email)
    mb_id ← mailbox_doc_id db acct name
    m ← reading kv (email_by_index_uid acct mb_id uid)
    mod_seq ← on_store kv (bump_mailbox_mod_seq db acct mb_id)
    on_store kv (
        update_document_atomically db acct collection_email m.doc_id
          (flag_fields (split_flags flags) mod_seq) [])

  -- `SetFlagsBatch` of some updates.
  abbrev pub set_flags_of : Bytes → Bytes → List FlagUpdate → Call W (Unit {0})
  set_flags_of email name updates = do
    acct ← reading kv (account_by_email kv email)
    mb_id ← mailbox_doc_id db acct name
    docs ← reading kv (λ s. ok (collect_doc_ids (kv.scan s (index_email_prefix acct mb_id)) []))
    mod_seq ← on_store kv (bump_mailbox_mod_seq db acct mb_id)
    on_store kv (
        update_documents_atomically db acct collection_email (flag_changes mod_seq docs updates) [])

  -- `SetFlagsBatch`
  unfoldable pub set_flags_batch : Bytes → Bytes → List FlagUpdate → Call W (Unit {0})
  unfolding account_by_email mailbox_doc_id be_value NatMap.put bump_mailbox_mod_seq flag_changes
      update_documents_atomically
  set_flags_batch email name [] = pure tt
  set_flags_batch email name (u ∷ us) = set_flags_of email name (u ∷ us)

  -- The name of the mailbox in one of its messages.
  unfoldable pub rename_in_message : ℕ → Bytes → Email → Call W (Unit {0})
  unfolding update_document_atomically
  rename_in_message acct new_name m = on_store kv (
      update_document_atomically db acct collection_email m.doc_id
        ((email_field_mailbox, new_name) ∷ []) [])

  abbrev pub name_ops : ℕ → Bytes → Bytes → ℕ → List Op
  name_ops acct old_name new_name mb_id =
      delete_op (index_mailbox_name_key acct old_name)
      ∷ put_op (index_mailbox_name_key acct new_name) (be_uint64 mb_id)
      ∷ []

  -- `RenameMailbox`, once both names are looked up.
  abbrev pub renaming : ℕ → Bytes → Bytes → ℕ → Call W (Unit {0})
  renaming acct old_name new_name mb_id = do
    _ ← on_store kv (
        update_document_atomically db acct collection_mailbox mb_id ((mb_field_name, new_name) ∷ [])
          (name_ops acct old_name new_name mb_id))
    emails ← reading kv (mailbox_emails parse_date e acct mb_id)
    _ ← for_each (rename_in_message acct new_name) emails
    forget kv (same_id (mailbox_id acct old_name))

  -- `RenameMailbox`
  unfoldable pub rename_mailbox : Bytes → Bytes → Bytes → Call W (Unit {0})
  unfolding account_by_email mailbox_doc_id check_free update_document_atomically mailbox_emails
      for_each rename_in_message
  rename_mailbox email old_name new_name = do
    acct ← reading kv (account_by_email kv email)
    mb_id ← mailbox_doc_id db acct old_name
    _ ← check_free db acct new_name
    renaming acct old_name new_name mb_id

  -- `DeleteMailbox`
  unfoldable pub delete_mailbox : ℕ → Bytes → Bytes → Call W (Unit {0})
  unfolding account_by_email mailbox_doc_id mailbox_emails for_each delete_email delete_document
      delete_raw
  delete_mailbox now email name = do
    acct ← reading kv (account_by_email kv email)
    mb_id ← mailbox_doc_id db acct name
    emails ← reading kv (mailbox_emails parse_date e acct mb_id)
    _ ← for_each (λ m. delete_email parse_date e now acct m.doc_id mb_id 0 false) emails
    _ ← on_store kv (delete_document kv acct collection_mailbox mb_id)
    _ ← delete_raw kv (index_mailbox_name_key acct name)
    forget kv (same_id (mailbox_id acct name))

  abbrev pub quota_of : kv.State → Result ℕ → Result ℕ
  quota_of s (ok acct) = quota_used db acct s
  quota_of s (err not_found) = ok 0
  quota_of s (err x) = err x

  -- `QuotaUsedBytes`: nothing is stored for an account that is not there.
  unfoldable pub quota_used_bytes : Bytes → kv.State → Result ℕ
  unfolding account_by_email quota_used
  quota_used_bytes email s = quota_of s (account_by_email kv email s)

  -- `MessageByUID` and `EmailByUID`, the lookup.
  unfoldable pub message_by_uid : Bytes → Bytes → ℕ → Call W Email
  unfolding account_by_email mailbox_doc_id email_by_index_uid
  message_by_uid email name uid = do
    acct ← reading kv (account_by_email kv email)
    mb_id ← mailbox_doc_id db acct name
    reading kv (email_by_index_uid acct mb_id uid)

  -- `ListMessages`, before the copy into messages.
  unfoldable pub list_messages : Bytes → Bytes → Call W (List Email)
  unfolding account_by_email mailbox_doc_id mailbox_emails
  list_messages email name = do
    acct ← reading kv (account_by_email kv email)
    mb_id ← mailbox_doc_id db acct name
    reading kv (mailbox_emails parse_date e acct mb_id)
