-- ===== src/MailStore/Mailbox.antt =====
-- Mailboxes (`internal/mailstore/kv.go`, `kv_mailbox.go`): a document of the mailbox collection for
-- each, with a row that leads from its name to it. The time counts nanoseconds.
pub mod Keeps
use mailezine.Prelude.{
  ℕ, ◌+◌, ◌%◌, ◌^◌, Bool, false, List, [], ◌∷◌, Option, none, some, if◌then◌else◌, length, ◌==◌,
}
use mailezine.Prelude.NatMap
use mailezine.Bytes.{Bytes, bytes_eq}
use mailezine.Store.Key.BigEndian.{be_value}
use mailezine.Store.Key.{index_mailbox_name_key, counter_kind_next_doc}
use mailezine.Store.Txn.{TxnKv, Result, ok, err, exists, not_found}
use mailezine.Store.Counters.{
  be_uint64, be_uint64_value, collection_email, collection_mailbox, counter_value,
  field_mailbox_mod_seq,
}
use mailezine.Store.Accounts.{account_by_email, be_uint32, create_account}
use mailezine.Store.Documents.{
  Fields, create_document, ensure_mailbox_doc, get_document_fields, list_document_ids,
  put_document_fields,
}
use mailezine.Store.Email.Update.{update_document_atomically}
use mailezine.MailStore.Calls.{
  Call, World, account_id, cached_id, for_each, go_on, mailbox_id, on_store, or_if_missing, pure,
  put_raw, reading, ◌>>=◌,
}

abbrev pub mb_field_name : ℕ
mb_field_name = 1

abbrev pub mb_field_uid_validity : ℕ
mb_field_uid_validity = 2

abbrev pub mb_field_subscribed : ℕ
mb_field_subscribed = 3

abbrev pub mb_field_attrs : ℕ
mb_field_attrs = 4

-- A field, or no bytes: `fields[f]`.
unfoldable pub field_value : ℕ → Fields → Bytes
unfolding NatMap.get
field_value f fields = elim (NatMap.get f fields) [ none ↦ [] | some v ↦ v ]

-- `beUint32Value`
unfoldable pub be_uint32_value : Bytes → ℕ
unfolding be_value
be_uint32_value b = if length b == 4 then be_value 0 b else 0

-- `len(fields[mbFieldSubscribed]) == 1 && fields[mbFieldSubscribed][0] == 1`
abbrev pub is_one : Bytes → Bool
is_one (b ∷ []) = b == 1
is_one _ = false

-- The fields of a new mailbox.
abbrev pub new_mailbox_fields : Bytes → ℕ → Fields
new_mailbox_fields name doc_id =
    (mb_field_name, name)
    ∷ (mb_field_uid_validity, be_uint32 (doc_id % 2 ^ 32))
    ∷ (mb_field_subscribed, 0 ∷ [])
    ∷ []

-- What `mailboxMeta` reads of a mailbox.
pub record MailboxMeta : Type 0 where
  pub name : Bytes
  pub uid_validity : ℕ
  pub uid_next : ℕ
  pub subscribed : Bool
  pub highest_mod_seq : ℕ

module _ (db : TxnKv) where
  open db use {kv}

  abbrev W : Type 0
  W = World kv.State

  -- One document of the scan of `mailboxDocID`: the name row is repaired where the name is found.
  abbrev pub check_named : ℕ → Bytes → ℕ → W → Result ℕ × W → Result Fields → Result ℕ × W
  check_named acct name id w rest (err e) = (err e, w)
  check_named acct name id w rest (ok fields) =
      if bytes_eq (field_value mb_field_name fields) name
      then go_on (λ _. pure id) (put_raw kv (index_mailbox_name_key acct name) (be_uint64 id) w)
      else rest

  unfoldable pub find_named : ℕ → Bytes → List ℕ → Call W ℕ
  unfolding get_document_fields field_value put_raw
  find_named acct name [] w = (err not_found, w)
  find_named acct name (id ∷ ids) w =
      check_named acct name id w (find_named acct name ids w)
        (get_document_fields kv acct collection_mailbox id w.store)

  unfoldable pub find_by_scan : ℕ → Bytes → Call W ℕ
  unfolding find_named list_document_ids
  find_by_scan acct name = do
    ids ← reading kv (list_document_ids kv acct collection_mailbox)
    find_named acct name ids

  -- Does the document have the name?
  abbrev pub has_name : Bytes → Result Fields → Bool
  has_name name (ok fields) = bytes_eq (field_value mb_field_name fields) name
  has_name name (err e) = false

  abbrev pub find_indexed : ℕ → Bytes → Option Bytes → Call W ℕ
  find_indexed acct name none w = find_by_scan acct name w
  find_indexed acct name (some v) w =
      let id = be_value 0 v in
      if length v == 8
      then (if has_name name (get_document_fields kv acct collection_mailbox id w.store)
          then (ok id, w)
          else find_by_scan acct name w)
      else find_by_scan acct name w

  -- `mailboxDocID`
  unfoldable pub mailbox_doc_id : ℕ → Bytes → Call W ℕ
  unfolding find_by_scan get_document_fields be_value field_value
  mailbox_doc_id acct name w =
      find_indexed acct name (kv.get w.store (index_mailbox_name_key acct name)) w

  -- `cachedAccountID`
  unfoldable pub cached_account_id : ℕ → Bytes → Call W ℕ
  unfolding cached_id account_by_email
  cached_account_id now email =
      cached_id kv now (account_id email) (reading kv (account_by_email kv email))

  -- `cachedMailboxDocID`
  unfoldable pub cached_mailbox_doc_id : ℕ → ℕ → Bytes → Call W ℕ
  unfolding cached_id mailbox_doc_id
  cached_mailbox_doc_id now acct name =
      cached_id kv now (mailbox_id acct name) (mailbox_doc_id acct name)

  -- A registration that another caller has won is adopted.
  abbrev pub adopt : ℕ → Bytes → Result ℕ × W → Result ℕ × W
  adopt now email (err exists, w) = cached_account_id now email w
  adopt now email (r, w) = (r, w)

  -- `ensureAccount`
  unfoldable pub ensure_account : ℕ → Bytes → Call W ℕ
  unfolding cached_account_id create_account
  ensure_account now email =
      or_if_missing (cached_account_id now email)
        (λ w. adopt now email (on_store kv (create_account db email) w))

  -- `ensureMailbox`
  unfoldable pub ensure_mailbox : ℕ → ℕ → Bytes → Call W ℕ
  unfolding cached_mailbox_doc_id ensure_mailbox_doc
  ensure_mailbox now acct name =
      or_if_missing (cached_mailbox_doc_id now acct name)
        (on_store kv (ensure_mailbox_doc db acct name (new_mailbox_fields name)))

  -- `PutDocumentFields` as a call.
  unfoldable pub put_fields : ℕ → ℕ → ℕ → Fields → Call W (Unit {0})
  unfolding put_document_fields
  put_fields acct collection id fields w =
      (ok tt, record w { store = put_document_fields kv acct collection id fields w.store })

  abbrev pub refuse_existing : Result ℕ × W → Result (Unit {0}) × W
  refuse_existing (ok id, w) = (err exists, w)
  refuse_existing (err not_found, w) = (ok tt, w)
  refuse_existing (err e, w) = (err e, w)

  -- The check of `CreateMailbox` and `RenameMailbox` that a name is free.
  unfoldable pub check_free : ℕ → Bytes → Call W (Unit {0})
  unfolding mailbox_doc_id
  check_free acct name w = refuse_existing (mailbox_doc_id acct name w)

  -- `CreateMailbox`
  unfoldable pub create_mailbox : ℕ → Bytes → Bytes → Call W ℕ
  unfolding ensure_account check_free create_document put_fields put_raw
  create_mailbox now email name = do
    acct ← ensure_account now email
    _ ← check_free acct name
    doc_id ← on_store kv (create_document db acct collection_mailbox)
    _ ← put_fields acct collection_mailbox doc_id (new_mailbox_fields name doc_id)
    _ ← put_raw kv (index_mailbox_name_key acct name) (be_uint64 doc_id)
    pure (doc_id % 2 ^ 32)

  -- `SetSubscribed`
  unfoldable pub set_subscribed : Bytes → Bytes → Bool → Call W (Unit {0})
  unfolding account_by_email mailbox_doc_id update_document_atomically
  set_subscribed email name subscribed = do
    acct ← reading kv (account_by_email kv email)
    mb_id ← mailbox_doc_id acct name
    on_store kv (
        update_document_atomically db acct collection_mailbox mb_id
          ((mb_field_subscribed, (if subscribed then 1 else 0) ∷ []) ∷ []) [])

  -- One default mailbox of `EnsureDefaultMailboxes`.
  unfoldable pub ensure_default : ℕ → ℕ → Bytes → Call W (Unit {0})
  unfolding ensure_mailbox mailbox_doc_id get_document_fields field_value put_fields
  ensure_default now acct name = do
    _ ← ensure_mailbox now acct name
    mb_id ← mailbox_doc_id acct name
    fields ← reading kv (get_document_fields kv acct collection_mailbox mb_id)
    if is_one (field_value mb_field_subscribed fields)
        then pure tt
        else put_fields acct collection_mailbox mb_id ((mb_field_subscribed, 1 ∷ []) ∷ [])

  -- `EnsureDefaultMailboxes`, the names in the order in which Go's map gives them.
  unfoldable pub ensure_default_mailboxes : ℕ → Bytes → List Bytes → Call W (Unit {0})
  unfolding ensure_account ensure_default for_each
  ensure_default_mailboxes now email names = do
    acct ← ensure_account now email
    for_each (ensure_default now acct) names

  abbrev pub plus_one : Result ℕ → Result ℕ
  plus_one (ok n) = ok ((n + 1) % 2 ^ 64)
  plus_one (err e) = err e

  -- `uidNext`
  unfoldable pub uid_next : ℕ → ℕ → kv.State → Result ℕ
  unfolding counter_value
  uid_next acct mb_id s =
      plus_one (counter_value db acct counter_kind_next_doc (collection_email ∷ be_uint64 mb_id) s)

  -- `mailboxMeta`
  unfoldable pub mailbox_meta : ℕ → ℕ → Bytes → Call W MailboxMeta
  unfolding get_document_fields uid_next field_value be_uint32_value be_uint64_value NatMap.get
  mailbox_meta acct mb_id name = do
    fields ← reading kv (get_document_fields kv acct collection_mailbox mb_id)
    next ← reading kv (uid_next acct mb_id)
    pure (record {
      name = name;
      uid_validity = be_uint32_value (field_value mb_field_uid_validity fields);
      uid_next = next % 2 ^ 32;
      subscribed = is_one (field_value mb_field_subscribed fields);
      highest_mod_seq = be_uint64_value (NatMap.get field_mailbox_mod_seq fields);
    })

  -- `MailboxMeta`
  unfoldable pub mailbox_meta_by_name : ℕ → Bytes → Bytes → Call W MailboxMeta
  unfolding cached_account_id cached_mailbox_doc_id mailbox_meta
  mailbox_meta_by_name now email name = do
    acct ← cached_account_id now email
    mb_id ← cached_mailbox_doc_id now acct name
    mailbox_meta acct mb_id name

  abbrev pub or_unsupported : Result ℕ × W → Option ℕ × W
  or_unsupported (ok n, w) = (some n, w)
  or_unsupported (err e, w) = (none, w)

  -- `MailboxModSeq`: no number stands for unsupported.
  unfoldable pub mod_seq_by_name : ℕ → Bytes → Bytes → W → Option ℕ × W
  unfolding cached_account_id cached_mailbox_doc_id get_document_fields be_uint64_value NatMap.get
  mod_seq_by_name now email name w = or_unsupported (
      (do
        acct ← cached_account_id now email
        mb_id ← cached_mailbox_doc_id now acct name
        fields ← reading kv (get_document_fields kv acct collection_mailbox mb_id)
        pure (be_uint64_value (NatMap.get field_mailbox_mod_seq fields)))
        w)
