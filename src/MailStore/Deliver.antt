-- ===== src/MailStore/Deliver.antt =====
-- Deliveries and copies (`internal/mailstore/kv.go`, `kv_mailbox.go`). The blob store's answers, the
-- digest of a body, the text of a date and the structure of a body are parameters. A delivery leads
-- its own batch; `MailStore.Batcher` has the batches that others join. Dates and times count
-- nanoseconds, 0 being Go's zero time.
pub mod Header
use mailezine.Prelude.{
  ℕ, zero, suc, ◌+◌, ◌%◌, ◌^◌, Bool, true, false, List, [], ◌∷◌, ◌++◌, Option, none, some,
  if◌then◌else◌, length, take, ◌==◌, ltb, ◌||◌,
}
use mailezine.Prelude.NatMap
use mailezine.Bytes.{Bytes, has_prefix}
use mailezine.Store.Key.{codes}
use mailezine.Store.Txn.{Result, ok, err}
use mailezine.Store.Counters.{be_uint64, bump_mailbox_mod_seq}
use mailezine.Store.Accounts.{account_by_email}
use mailezine.Store.Documents.{Fields}
use mailezine.Store.Email.{
  Delivered, DeliverRequest, deliver_email_batch, email_field_blob, email_field_flags,
  email_field_mailbox, email_field_size,
}
use mailezine.MailStore.Calls.{Call, Engine, World, fail, on_store, pure, reading, ◌>>=◌}
use mailezine.MailStore.Mailbox.{ensure_account, ensure_mailbox, mailbox_doc_id}
use mailezine.MailStore.Flags.{join_csv, normalize_flags, split_flags}
use mailezine.MailStore.Message.{
  Email, delete_email, email_field_body_structure, email_field_date, email_field_from,
  email_field_header, email_field_keywords, mailbox_emails,
}
use mailezine.MailStore.Selection.{select_listed}

-- What a delivery reads of a `Message`.
pub record NewMessage : Type 0 where
  pub from : Bytes
  pub body : Bytes
  pub seen : Bool
  pub flags : List Bytes
  pub keywords : List Bytes
  pub internal_date : ℕ

-- `bytes.Index`, from a position on.
unfoldable pub index_from : Bytes → ℕ → Bytes → Option ℕ
unfolding has_prefix
index_from sep i [] = if has_prefix sep [] then some i else none
index_from sep i (c ∷ b) =
    let rest = index_from sep (i + 1) b in if has_prefix sep (c ∷ b) then some i else rest

-- `maxStoredHeaderBytes`
abbrev pub max_stored_header_bytes : ℕ
max_stored_header_bytes = 65_536

abbrev pub crlf_line : Bytes
crlf_line = 13 ∷ 10 ∷ 13 ∷ 10 ∷ []

abbrev pub lf_line : Bytes
lf_line = 10 ∷ 10 ∷ []

abbrev pub cut_at : ℕ → Bytes → Option ℕ → Option Bytes
cut_at n head none = none
cut_at n head (some i) = some (take (i + n) head)

abbrev pub or_cut : Option Bytes → Bytes → Option Bytes
or_cut (some b) head = some b
or_cut none head = cut_at 2 head (index_from lf_line 0 head)

-- `headerBlock`; nil is none.
unfoldable pub header_block : Bytes → Option Bytes
unfolding index_from
header_block b =
    let head = take max_stored_header_bytes b in
    or_cut (cut_at 4 head (index_from crlf_line 0 head)) head

abbrev pub or_empty : Option Bytes → Bytes
or_empty none = []
or_empty (some b) = b

-- `maxStructuredMessageBytes`
abbrev pub max_structured_message_bytes : ℕ
max_structured_message_bytes = 1_048_576

-- The services that a delivery calls.
pub record Services : Type 0 where
  pub put_blob : Bytes → Bytes → Result ℕ
  pub get_blob : Bytes → Result Bytes
  pub has_blob : Bytes → Bool
  pub digest : Bytes → Bytes
  pub format_date : ℕ → Bytes
  pub encode_structure : Bytes → Bytes

-- `bodyStructure`
unfoldable pub body_structure : Services → Bytes → Bytes
body_structure sv b =
    if (length b == 0) || ltb max_structured_message_bytes (length b)
    then []
    else sv.encode_structure b

-- The fields of a delivery, in the order of their numbers.
unfoldable pub delivery_fields :
    Services → Bytes → Bytes → ℕ → ℕ → NewMessage → List Bytes × List Bytes → Fields
unfolding header_block body_structure join_csv
delivery_fields sv blob_id mailbox size date msg (system, kws) =
    (email_field_blob, blob_id)
    ∷ (email_field_mailbox, mailbox)
    ∷ (email_field_flags, join_csv system)
    ∷ (email_field_date, sv.format_date date)
    ∷ (email_field_from, msg.from)
    ∷ (email_field_size, be_uint64 size)
    ∷ (email_field_keywords, join_csv (kws ++ msg.keywords))
    ∷ (email_field_header, or_empty (header_block msg.body))
    ∷ (email_field_body_structure, body_structure sv msg.body)
    ∷ []

-- `out[0].UID`; a batch of one has one result.
abbrev pub first_uid : List Delivered → ℕ
first_uid [] = 0
first_uid (d ∷ ds) = d.uid % 2 ^ 32

-- A copy of a message for another delivery.
abbrev pub copy_of : Email → Bytes → NewMessage
copy_of m b = record {
  from = m.from;
  body = b;
  seen = false;
  flags = m.flags;
  keywords = m.keywords;
  internal_date = m.date;
}

module _ (parse_date : Bytes → ℕ) (e : Engine) (sv : Services) where
  open e use {db}
  open db use {kv}

  -- The blob again, should the sweep have taken it.
  abbrev pub blob_again : Bytes → Bytes → ℕ → Call (World kv.State) ℕ
  blob_again blob_id b uid w =
      if sv.has_blob blob_id
      then (ok uid, w)
      else (reading kv (λ _. sv.put_blob blob_id b) >>= λ _. pure uid) w

  -- `Deliver`, `Append`
  unfoldable pub deliver : ℕ → Bytes → Bytes → NewMessage → Call (World kv.State) ℕ
  unfolding ensure_account ensure_mailbox normalize_flags split_flags delivery_fields
      deliver_email_batch
  deliver now email mailbox msg = do
    acct ← ensure_account db now email
    mb_id ← ensure_mailbox db now acct mailbox
    let blob_id = codes "sha256-" ++ sv.digest msg.body
    size ← reading kv (λ _. sv.put_blob blob_id msg.body)
    let date = if msg.internal_date == 0 then now else msg.internal_date
    let fields =
        delivery_fields sv blob_id mailbox size date msg
          (split_flags (normalize_flags msg.flags msg.seen))
    out ← on_store kv (
        deliver_email_batch db acct
          (record { mailbox_id = mb_id; fields = fields; blob_id = blob_id; size = size } ∷ []))
    blob_again blob_id msg.body (first_uid out)

  -- The loop of `Copy`: which UID each message has got.
  unfoldable pub copy_all :
      ℕ → Bytes → Bytes → List Email → List (ℕ × ℕ) → Call (World kv.State) (List (ℕ × ℕ))
  unfolding deliver NatMap.put
  copy_all now email dst [] mapping = pure mapping
  copy_all now email dst (m ∷ ms) mapping = do
    b ← reading kv (λ _. sv.get_blob m.blob_id)
    uid ← deliver now email dst (copy_of m b)
    copy_all now email dst ms (NatMap.put m.uid uid mapping)

  -- `Copy`
  unfoldable pub copy : ℕ → Bytes → Bytes → Bytes → List ℕ → Call (World kv.State) (List (ℕ × ℕ))
  unfolding account_by_email mailbox_doc_id mailbox_emails select_listed copy_all
  copy now email src dst uids = do
    acct ← reading kv (account_by_email kv email)
    mb_id ← mailbox_doc_id db acct src
    emails ← reading kv (mailbox_emails parse_date e acct mb_id)
    copy_all now email dst (select_listed uids emails) []

  -- The loop of `Move`; `now_unix` is the time of the claims.
  unfoldable pub move_all :
      ℕ
      → ℕ
      → Bytes
      → ℕ
      → ℕ
      → ℕ
      → Bytes
      → List Email
      → List (ℕ × ℕ)
      → Call (World kv.State) (List (ℕ × ℕ))
  unfolding deliver delete_email NatMap.put
  move_all now now_unix email acct mb_id mod_seq dst [] mapping = pure mapping
  move_all now now_unix email acct mb_id mod_seq dst (m ∷ ms) mapping = do
    b ← reading kv (λ _. sv.get_blob m.blob_id)
    uid ← deliver now email dst (copy_of m b)
    _ ← delete_email parse_date e now_unix acct m.doc_id mb_id mod_seq false
    move_all now now_unix email acct mb_id mod_seq dst ms (NatMap.put m.uid uid mapping)

  -- The number of the tombstones; a move without UIDs has none.
  abbrev pub move_mod_seq : ℕ → ℕ → List ℕ → Call (World kv.State) ℕ
  move_mod_seq acct mb_id [] = pure 0
  move_mod_seq acct mb_id (_ ∷ _) = on_store kv (bump_mailbox_mod_seq db acct mb_id)

  -- `Move`
  unfoldable pub move :
      ℕ → ℕ → Bytes → Bytes → Bytes → List ℕ → Call (World kv.State) (List (ℕ × ℕ))
  unfolding account_by_email mailbox_doc_id mailbox_emails select_listed bump_mailbox_mod_seq
      move_all
  move now now_unix email src dst uids = do
    acct ← reading kv (account_by_email kv email)
    mb_id ← mailbox_doc_id db acct src
    emails ← reading kv (mailbox_emails parse_date e acct mb_id)
    mod_seq ← move_mod_seq acct mb_id uids
    move_all now now_unix email acct mb_id mod_seq dst (select_listed uids emails) []
