-- ===== src/Store/Email/Remove.antt =====
-- `DeleteEmailAtomically` of `internal/store/store.go`: a document goes with its blob link, its share
-- of the quota and a record of the deletion.
use mailezine.Prelude.{
  ◌++◌, ℕ, ◌+◌, ◌-◌, ◌%◌, ◌^◌, Bool, true, false, not, List, [], ◌∷◌, if◌then◌else◌, length, ◌==◌,
  leb, ◌&&◌, ◌||◌,
}
use mailezine.Bytes.{Bytes, bytes_eq}
use mailezine.Store.Key.BigEndian.{be_value}
use mailezine.Store.Key.{blob_link_key, document_key, quota_key}
use mailezine.Store.Kv.{Kv, Op, Entry, put_op, delete_op}
use mailezine.Store.Txn.{TxnKv, Result, ok, err, not_found, not_marked_deleted, with_txn, ◌>>=◌}
use mailezine.Store.Counters.{be_uint64, collection_email, next, quota_value, read_counter}
use mailezine.Store.BlobLink.{stage_blob_unlink}
use mailezine.Store.Documents.{last_byte, deletions}
use mailezine.Store.ChangeLog.{encode_change_value, encode_email_delete_value, op_delete}
use mailezine.Store.Email.{
  change_counter_key, change_ops, email_field_blob, email_field_flags, email_field_mailbox,
  email_field_size, email_field_uid,
}

-- An ASCII letter in lower case.
abbrev pub lower : ℕ → ℕ
lower c = if leb b'A' c && leb c b'Z' then c + 32 else c

-- `strings.EqualFold`, as it is against a word of ASCII letters other than k and s.
unfoldable pub equal_fold : Bytes → Bytes → Bool
equal_fold [] [] = true
equal_fold [] (d ∷ b) = false
equal_fold (c ∷ a) [] = false
equal_fold (c ∷ a) (d ∷ b) = (lower c == lower d) && equal_fold a b

-- `hasListToken`, with the token that has been read so far; the empty list has no token.
unfoldable pub has_token_from : Bytes → Bytes → Bytes → Bool
unfolding equal_fold
has_token_from tok [] want = equal_fold tok want
has_token_from tok (c ∷ list) want = elim (c == b',') [
  | true ↦ equal_fold tok want || elim list [ [] ↦ false | _ ↦ has_token_from [] list want ]
  | false ↦ has_token_from (tok ++ c ∷ []) list want
]

unfoldable pub has_list_token : Bytes → Bytes → Bool
unfolding has_token_from
has_list_token [] want = false
has_list_token (c ∷ list) want = has_token_from [] (c ∷ list) want

-- What the scan of the document finds.
pub record Scanned : Type 0 where
  pub blob_id : Bytes
  pub size : ℕ
  pub mailbox : Bytes
  pub uid : ℕ
  pub flags : Bytes

abbrev pub nothing_scanned : Scanned
nothing_scanned = record { blob_id = []; size = 0; mailbox = []; uid = 0; flags = [] }

-- The callback of the scan on one row.
abbrev pub scan_field : Scanned → Entry → Scanned
scan_field found (k, v) =
    let field = last_byte k in
    if field == email_field_blob
    then record found { blob_id = v }
    else if field == email_field_flags
    then record found { flags = v }
    else if field == email_field_size
    then (if length v == 8 then record found { size = be_value 0 v } else found)
    else if field == email_field_mailbox
    then record found { mailbox = v }
    else if field == email_field_uid
    then (if length v == 8 then record found { uid = be_value 0 v % 2 ^ 32 } else found)
    else found

unfoldable pub scan_fields : Scanned → List Entry → Scanned
unfolding be_value
scan_fields found [] = found
scan_fields found (row ∷ rows) = scan_fields (scan_field found row) rows

-- `cur - size`, not below zero: a pattern from 2^63 on is a negative number.
abbrev pub clamped : ℕ → ℕ → ℕ
clamped cur size = let nv = (cur + (2 ^ 64 - size)) % 2 ^ 64 in if leb (2 ^ 63) nv then 0 else nv

-- The value of the change row.
unfoldable pub delete_value : ℕ → ℕ → Scanned → Bytes
unfolding encode_change_value encode_email_delete_value
delete_value collection doc_id found =
    if (collection == collection_email) && (not (bytes_eq found.mailbox []) && not (found.uid == 0))
    then encode_email_delete_value collection doc_id found.mailbox found.uid
    else encode_change_value collection doc_id op_delete

module _ (t : Kv) where
  -- A link that is gone is deleted whole.
  abbrev pub or_drop_link : ℕ → Bytes → t.State → Result t.State → Result t.State
  or_drop_link account_id blob_id s (ok s1) = ok s1
  or_drop_link account_id blob_id s (err not_found) =
      ok (t.batch s (delete_op (blob_link_key account_id blob_id) ∷ []))
  or_drop_link account_id blob_id s (err e) = err e

  unfoldable pub release_blob : ℕ → ℕ → Bytes → t.State → Result t.State
  unfolding stage_blob_unlink
  release_blob now account_id [] s = ok s
  release_blob now account_id (c ∷ id) s =
      or_drop_link account_id (c ∷ id) s (stage_blob_unlink t now account_id (c ∷ id) s)

  abbrev pub put_quota : ℕ → ℕ → t.State → Result ℕ → Result t.State
  put_quota account_id size s cur_of = do
    cur ← cur_of
    ok (t.batch s (put_op (quota_key account_id) (be_uint64 (clamped cur size)) ∷ []))

  unfoldable pub release_quota : ℕ → ℕ → t.State → Result t.State
  unfolding quota_value
  release_quota account_id size s =
      if size == 0
      then ok s
      else put_quota account_id size s (quota_value (t.get s (quota_key account_id)))

  -- The closure after the scan and its two checks.
  unfoldable pub remove_rows :
      ℕ → ℕ → ℕ → ℕ → List Entry → Scanned → List Op → t.State → Result (Unit {0} × t.State)
  unfolding release_blob release_quota read_counter delete_value
  remove_rows now account_id collection doc_id rows found extra s = do
    let s1 = t.batch s (deletions rows)
    s2 ← release_blob now account_id found.blob_id s1
    s3 ← release_quota account_id found.size s2
    cur_change ← read_counter (t.get s3 (change_counter_key account_id))
    let s4 =
        t.batch s3 (
          change_ops account_id collection (next cur_change) (delete_value collection doc_id found))
    ok (tt, t.batch s4 extra)

  -- `requireFlag != "" && !hasListToken(flags, requireFlag)`
  unfoldable pub lacks_flag : Bytes → Bytes → Bool
  unfolding has_list_token
  lacks_flag require_flag flags =
      not (bytes_eq require_flag []) && not (has_list_token flags require_flag)

  abbrev pub checked_rows :
      ℕ → ℕ → ℕ → ℕ → Bytes → List Op → t.State → List Entry → Result (Unit {0} × t.State)
  checked_rows now account_id collection doc_id require_flag extra s [] = err not_found
  checked_rows now account_id collection doc_id require_flag extra s (row ∷ rows) =
      let found = scan_fields nothing_scanned (row ∷ rows) in
      if lacks_flag require_flag found.flags
      then err not_marked_deleted
      else remove_rows now account_id collection doc_id (row ∷ rows) found extra s

  -- The closure of `DeleteEmailAtomically`.
  unfoldable pub delete_email_txn :
      ℕ → ℕ → ℕ → ℕ → Bytes → List Op → t.State → Result (Unit {0} × t.State)
  unfolding scan_fields lacks_flag remove_rows
  delete_email_txn now account_id collection doc_id require_flag extra s =
      checked_rows now account_id collection doc_id require_flag extra s
        (t.scan s (document_key account_id collection doc_id))

module _ (db : TxnKv) where
  open db use {kv, ops}

  -- `DeleteEmailAtomically`
  unfoldable pub delete_email_atomically :
      ℕ → ℕ → ℕ → ℕ → Bytes → List Op → kv.State → Result (Unit {0}) × kv.State
  unfolding with_txn delete_email_txn
  delete_email_atomically now account_id collection doc_id require_flag extra s =
      with_txn db (delete_email_txn ops now account_id collection doc_id require_flag extra) s
