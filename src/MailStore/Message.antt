-- ===== src/MailStore/Message.antt =====
-- Messages of a mailbox (`internal/mailstore/kv.go`, `kv_mailbox.go`): documents of the email
-- collection, found through the rows that lead from a mailbox and a UID to a document. The clock is
-- in seconds of the unix time; how Go reads an RFC 3339 date is a parameter.
pub mod Unmarked
pub mod Spared
pub mod Listed
use mailezine.Prelude.{
  ℕ, ◌+◌, ◌%◌, ◌^◌, Bool, true, false, not, List, [], ◌∷◌, ◌++◌, Option, none, some, if◌then◌else◌,
  length, ◌==◌, leb, ◌||◌,
}
use mailezine.Prelude.NatMap
use mailezine.Bytes.{Bytes}
use mailezine.Store.Key.BigEndian.{be_value}
use mailezine.Store.Key.{index_email_key, index_email_prefix, index_expunge_key}
use mailezine.Store.Kv.{Op, Entry, put_op, delete_op}
use mailezine.Store.Txn.{Result, ok, err, not_found, not_marked_deleted}
use mailezine.Store.Counters.{be_uint64, bump_mailbox_mod_seq, collection_email}
use mailezine.Store.Accounts.{account_by_email}
use mailezine.Store.Documents.{Fields, get_document_fields}
use mailezine.Store.Email.{
  email_field_blob, email_field_flags, email_field_mailbox, email_field_mod_seq, email_field_size,
  email_field_uid,
}
use mailezine.Store.Email.Remove.{delete_email_atomically}
use mailezine.Store.Range.{scan_document_range}
use mailezine.MailStore.Calls.{Call, Engine, World, go_on, on_store, pure, ranged, reading, ◌>>=◌}
use mailezine.MailStore.Mailbox.{field_value, mailbox_doc_id}
use mailezine.MailStore.Flags.{flag_deleted, has_flag, split_csv}

abbrev pub email_field_date : ℕ
email_field_date = 5

abbrev pub email_field_from : ℕ
email_field_from = 6

abbrev pub email_field_keywords : ℕ
email_field_keywords = 8

-- `Email`; `head` and `body` are absent where the document has no such field.
pub record Email : Type 0 where
  pub doc_id : ℕ
  pub uid : ℕ
  pub mailbox : Bytes
  pub flags : List Bytes
  pub keywords : List Bytes
  pub date : ℕ
  pub from : Bytes
  pub size : ℕ
  pub blob_id : Bytes
  pub head : Option Bytes
  pub body : Option Bytes
  pub mod_seq : ℕ

abbrev pub email_field_header : ℕ
email_field_header = 10

abbrev pub email_field_body_structure : ℕ
email_field_body_structure = 12

-- A number of eight bytes, or zero.
abbrev pub number_or_zero : Option Bytes → ℕ
number_or_zero none = 0
number_or_zero (some b) = if length b == 8 then be_value 0 b else 0

-- `uidFilter`: an empty list is no filter.
abbrev pub in_uids : List ℕ → ℕ → Bool
in_uids [] uid = false
in_uids (u ∷ uids) uid = (u == uid) || in_uids uids uid

abbrev pub is_listed : List ℕ → Email → Bool
is_listed [] e = true
is_listed (u ∷ uids) e = in_uids (u ∷ uids) e.uid

-- The messages that `expungeUIDs` tries to remove.
abbrev pub is_target : List ℕ → Bool → Email → Bool
is_target [] require_deleted e = not require_deleted || has_flag e.flags flag_deleted
is_target (u ∷ uids) require_deleted e = in_uids (u ∷ uids) e.uid

unfoldable pub select_targets : List ℕ → Bool → List Email → List Email
unfolding has_flag
select_targets uids require_deleted [] = []
select_targets uids require_deleted (e ∷ es) =
    let rest = select_targets uids require_deleted es in
    if is_target uids require_deleted e then e ∷ rest else rest

-- The documents of the rows of a mailbox, in the order of the rows.
abbrev pub row_doc_ids : List Entry → List ℕ
row_doc_ids [] = []
row_doc_ids ((_, v) ∷ rows) =
    if length v == 8 then be_value 0 v ∷ row_doc_ids rows else row_doc_ids rows

-- `sort.Slice` of the identifiers.
abbrev pub insert_id : ℕ → List ℕ → List ℕ
insert_id i [] = i ∷ []
insert_id i (j ∷ ids) = if leb i j then i ∷ j ∷ ids else j ∷ insert_id i ids

unfoldable pub sort_ids : List ℕ → List ℕ
sort_ids [] = []
sort_ids (i ∷ ids) = insert_id i (sort_ids ids)

-- `maxSpan`
abbrev pub max_span : ℕ
max_span = 512

-- A run of identifiers: its first and last one.
pub record Span : Type 0 where
  pub first : ℕ
  pub last : ℕ
  pub want : List ℕ

-- The loop over `docIDs[i]` and `docIDs[j]`, the last run open.
unfoldable pub spans_from : Span → List ℕ → List Span
spans_from cur [] = cur ∷ []
spans_from cur (id ∷ ids) = elim (leb id ((cur.first + max_span) % 2 ^ 64)) [
  | true ↦ spans_from (record cur { last = id; want = cur.want ++ id ∷ [] }) ids
  | false ↦ cur ∷ spans_from (record { first = id; last = id; want = id ∷ [] }) ids
]

abbrev pub spans : List ℕ → List Span
spans [] = []
spans (id ∷ ids) = spans_from (record { first = id; last = id; want = id ∷ [] }) ids

module _ (parse_date : Bytes → ℕ) where
  -- `emailFromFields`
  unfoldable pub email_from_fields : ℕ → Fields → Email
  unfolding NatMap.get field_value split_csv be_value
  email_from_fields doc_id fields = record {
    doc_id = doc_id;
    uid = number_or_zero (NatMap.get email_field_uid fields) % 2 ^ 32;
    mailbox = field_value email_field_mailbox fields;
    flags = split_csv (field_value email_field_flags fields);
    keywords = split_csv (field_value email_field_keywords fields);
    date = parse_date (field_value email_field_date fields);
    from = field_value email_field_from fields;
    size = number_or_zero (NatMap.get email_field_size fields);
    blob_id = field_value email_field_blob fields;
    head = NatMap.get email_field_header fields;
    body = NatMap.get email_field_body_structure fields;
    mod_seq = number_or_zero (NatMap.get email_field_mod_seq fields);
  }

  -- The callback of `mailboxEmails`: the wanted documents of a run go into `byID`.
  unfoldable pub note_emails : List ℕ → List (ℕ × Fields) → List (ℕ × Email) → List (ℕ × Email)
  unfolding NatMap.put email_from_fields
  note_emails want [] by_id = by_id
  note_emails want ((id, fields) ∷ docs) by_id =
      note_emails want docs
        (if in_uids want id then NatMap.put id (email_from_fields id fields) by_id else by_id)

  -- The emails that were found, in the order of the rows.
  unfoldable pub in_order : List (ℕ × Email) → List ℕ → List Email
  unfolding NatMap.get
  in_order by_id [] = []
  in_order by_id (id ∷ ids) =
      let rest = in_order by_id ids in
      elim (NatMap.get id by_id) [ none ↦ rest | some e ↦ e ∷ rest ]

  module _ (e : Engine) where
    open e use {db}
    open db use {kv}

    abbrev pub fetched :
        Result (List (ℕ × Email))
        → List ℕ
        → List (ℕ × Fields) × Result (Unit {0})
        → Result (List (ℕ × Email))
    fetched (err x) want r = err x
    fetched (ok by_id) want (docs, ok _) = ok (note_emails want docs by_id)
    fetched (ok by_id) want (docs, err x) = err x

    -- The loop over the runs.
    unfoldable pub fetch_spans :
        ℕ → List Span → kv.State → Result (List (ℕ × Email)) → Result (List (ℕ × Email))
    unfolding note_emails scan_document_range
    fetch_spans acct [] s by_id = by_id
    fetch_spans acct (p ∷ ps) s by_id = fetch_spans acct ps s (
        fetched by_id p.want
          (scan_document_range (ranged e) acct collection_email p.first p.last s))

    abbrev pub ordered : List ℕ → Result (List (ℕ × Email)) → Result (List Email)
    ordered ids (ok by_id) = ok (in_order by_id ids)
    ordered ids (err x) = err x

    -- `mailboxEmails`
    unfoldable pub mailbox_emails : ℕ → ℕ → kv.State → Result (List Email)
    unfolding be_value sort_ids spans_from fetch_spans in_order
    mailbox_emails acct mb_id s =
        let ids = row_doc_ids (kv.scan s (index_email_prefix acct mb_id)) in
        ordered ids (fetch_spans acct (spans (sort_ids ids)) s (ok []))

    -- The rows that go with a message: its index row, and its tombstone if there is a number.
    abbrev pub removal_ops : ℕ → ℕ → ℕ → Result Fields → List Op
    removal_ops acct mb_id mod_seq (err x) = []
    removal_ops acct mb_id mod_seq (ok fields) =
        let held = field_value email_field_uid fields in
        let uid = be_value 0 held in
        if length held == 8
        then delete_op (index_email_key acct mb_id uid)
          ∷ (if mod_seq == 0
              then []
              else put_op (index_expunge_key acct mb_id mod_seq uid) (be_uint64 uid) ∷ [])
        else []

    -- `deleteEmail`
    unfoldable pub delete_email : ℕ → ℕ → ℕ → ℕ → ℕ → Bool → Call (World kv.State) (Unit {0})
    unfolding get_document_fields field_value delete_email_atomically be_value
    delete_email now acct doc_id mb_id mod_seq require_deleted w =
        on_store kv
          (delete_email_atomically db now acct collection_email doc_id
            (if require_deleted then flag_deleted else [])
            (removal_ops acct mb_id mod_seq
              (get_document_fields kv acct collection_email doc_id w.store)))
          w

    -- One target of `expungeUIDs`, and the rest.
    abbrev pub expunge_rest :
        ℕ
        → (Call (World kv.State) (List ℕ))
        → Result (Unit {0}) × World kv.State
        → Result (List ℕ) × World kv.State
    expunge_rest uid rest (ok _, w) = go_on (λ uids. pure (uid ∷ uids)) (rest w)
    expunge_rest uid rest (err not_marked_deleted, w) = rest w
    expunge_rest uid rest (err not_found, w) = go_on (λ uids. pure (uid ∷ uids)) (rest w)
    expunge_rest uid rest (err x, w) = (err x, w)

    unfoldable pub expunge_targets :
        ℕ → ℕ → ℕ → ℕ → Bool → List Email → Call (World kv.State) (List ℕ)
    unfolding delete_email
    expunge_targets now acct mb_id mod_seq require_deleted [] w = (ok [], w)
    expunge_targets now acct mb_id mod_seq require_deleted (t ∷ ts) w =
        expunge_rest t.uid (expunge_targets now acct mb_id mod_seq require_deleted ts)
          (delete_email now acct t.doc_id mb_id mod_seq require_deleted w)

    -- The number of an expunge: an empty one takes none.
    abbrev pub expunge_selected : ℕ → ℕ → ℕ → Bool → List Email → Call (World kv.State) (List ℕ)
    expunge_selected now acct mb_id require_deleted [] = pure []
    expunge_selected now acct mb_id require_deleted (t ∷ ts) = do
      mod_seq ← on_store kv (bump_mailbox_mod_seq db acct mb_id)
      expunge_targets now acct mb_id mod_seq require_deleted (t ∷ ts)

    -- `expungeUIDs`; an error keeps no list of what was removed before.
    unfoldable pub expunge_uids : ℕ → Bytes → Bytes → List ℕ → Bool → Call (World kv.State) (List ℕ)
    unfolding account_by_email mailbox_doc_id mailbox_emails select_targets bump_mailbox_mod_seq
        expunge_targets
    expunge_uids now email name uids require_deleted = do
      acct ← reading kv (account_by_email kv email)
      mb_id ← mailbox_doc_id db acct name
      emails ← reading kv (mailbox_emails acct mb_id)
      expunge_selected now acct mb_id require_deleted (select_targets uids require_deleted emails)
