-- ===== src/Tests/Mail.antt =====
-- The theorems of `MailStore` at concrete states.
use mailezine.MailStore.Change.Touched.{is_renamed}
use mailezine.MailStore.Message.{row_doc_ids, Email, expunge_uids, select_targets}
use mailezine.Store.Key.Typed.{field, StoreKey, encode}
use mailezine.Prelude.{
  ◌+◌, ◌*◌, ◌≤◌, ◌++◌, ◌==◌, ℕ, ◌≡◌, refl, true, false, List, [], ◌∷◌, none, some, arith, length,
}
use mailezine.Bytes.{Bytes, bytes_eq, compare_bytes, has_prefix}
use mailezine.Prelude.NatMap
use mailezine.Bytes.Assoc
use mailezine.Store.MemKv
use mailezine.Store.MemKv.{MemoryKv, mem_kv, scan_range, scan_range-exact}
use mailezine.Store.Key.BigEndian.{be, be_value}
use mailezine.Store.Key.{
  counter_key, change_log_key, index_email_prefix, meta_vacation_key, codes, document_key,
  field_key, index_email_key, index_mailbox_name_key, meta_email_key, quota_key, blob_link_key,
  account_key,
}
use mailezine.Store.Txn.{direct, ok}
use mailezine.Store.Counters.{be_uint64}
use mailezine.Store.Accounts.{account_by_email, create_account}
use mailezine.Store.Email.Remove.{has_list_token, nothing_scanned, scan_fields}
use mailezine.MailStore.Calls.{Engine, World, account_id, load_id, mailbox_id}
use mailezine.MailStore.Mailbox.{mailbox_doc_id}
use mailezine.MailStore.Flags.{flag_deleted, flag_seen, join_csv, split_csv}
use mailezine.MailStore.Flags.Text.{split_csv-join_csv}
use mailezine.MailStore.Message.Spared.{expunge_uids_spare}
use mailezine.MailStore.Change.{rename_mailbox}
use mailezine.MailStore.Change.Kept.{rename_mailbox_keeps}
use mailezine.MailStore.Change.Renamed.{rename_mailbox_moves}
use mailezine.MailStore.Selection.{
  Seen, resolve_uids, select_listed, select_marked, uid_expunge_list, uid_expunge_unmatched,
  select_listed-resolve_uids_unmatched,
}
use mailezine.MailStore.Account.{delete_account}
use mailezine.MailStore.Account.Purge.{purged, delete_account_lem}
use mailezine.MailStore.Vacation.{
  set_vacation_last_sent, vacation_last_sent, vacation_last_sent-delete_account,
}
use mailezine.MailStore.Batcher.{Leader, Event, arrive, step, no_calls, run}
use mailezine.MailStore.Batcher.Conservation.{
  times, times_answered, arrivals, all_in_flight, run_conserves,
}
use mailezine.MailStore.Batcher.Leadership.{losing_race, run-losing_race, run_one_leader}
use mailezine.MailStore.Batcher.Answered.{run_answers_all, steps}

abbrev engine : Engine
engine = record {
  db = direct mem_kv;
  scan_range = scan_range;
  scan_range-IsSorted = λ s start end. (scan_range-exact s start end).0;
  get-scan_range = λ s start end. (scan_range-exact s start end).1;
}

abbrev ann : Bytes
ann = codes "ann"

-- An account with a mailbox, and in it one message that was seen.
abbrev town : World MemoryKv
town = record {
  store =
      (account_key 1, ann)
      ∷ (meta_email_key ann, be 4 1)
      ∷ (field_key 1 1 3 0, 1 ∷ [])
      ∷ (field_key 1 1 3 1, codes "Old")
      ∷ (field_key 1 2 7 0, 1 ∷ [])
      ∷ (field_key 1 2 7 2, be 8 5)
      ∷ (field_key 1 2 7 3, codes "Old")
      ∷ (field_key 1 2 7 4, flag_seen)
      ∷ (index_email_key 1 3 5, be 8 7)
      ∷ (index_mailbox_name_key 1 (codes "Old"), be 8 3)
      ∷ (blob_link_key 1 (codes "b"), be 8 1)
      ∷ (quota_key 1, be 8 9)
      ∷ [];
  ids = [];
}

abbrev undated : Bytes → ℕ
undated b = 0

registered : account_by_email mem_kv ann town.store ≡ ok 1
unfolding account_by_email compare_bytes has_prefix be be_value MemKv.get MemKv.scan MemKv.batch
    Assoc.get Assoc.put Assoc.delete Assoc.sort_by_key Assoc.filter_keys account_key meta_email_key
    field_key index_email_key index_mailbox_name_key blob_link_key quota_key NatMap.put
registered = refl

delete_account_lem_example :
    let w' = (delete_account mem_kv 50 ann town).1 in
    ((delete_account mem_kv 50 ann town).0 ≡ ok tt)
    × ((k : StoreKey) → MemKv.get w'.store (encode k) ≡ purged mem_kv 50 ann 1 town.store k)
    × ((t : ℕ) → load_id t (account_id ann) w'.ids ≡ none)
    × ((t : ℕ) (name : Bytes) → load_id t (mailbox_id 1 name) w'.ids ≡ none)
delete_account_lem_example = delete_account_lem mem_kv 50 ann 1 town registered

unmarked :
    has_list_token
      (scan_fields nothing_scanned (MemKv.scan town.store (document_key 1 2 7))).flags
      flag_deleted
    ≡ false
unfolding has_list_token scan_fields document_key compare_bytes has_prefix be be_value MemKv.get
    MemKv.scan MemKv.batch Assoc.get Assoc.put Assoc.delete Assoc.sort_by_key Assoc.filter_keys
    account_key meta_email_key field_key index_email_key index_mailbox_name_key blob_link_key
    quota_key NatMap.put
unmarked = refl

expunge_uids_spare_example :
    MemKv.scan
      (expunge_uids undated engine 50 ann (codes "Old") (5 ∷ []) true town).1.store
      (document_key 1 2 7)
    ≡ MemKv.scan town.store (document_key 1 2 7)
expunge_uids_spare_example =
    expunge_uids_spare undated engine 1 7 50 ann (codes "Old") (5 ∷ []) town registered unmarked

found : (mailbox_doc_id (direct mem_kv) 1 (codes "Old") town).0 ≡ ok 3
unfolding mailbox_doc_id compare_bytes has_prefix be be_value MemKv.get MemKv.scan MemKv.batch
    Assoc.get Assoc.put Assoc.delete Assoc.sort_by_key Assoc.filter_keys account_key meta_email_key
    field_key index_email_key index_mailbox_name_key blob_link_key quota_key NatMap.put
found = refl

-- Document 8 is not a message of the mailbox.
elsewhere :
    is_renamed 1 3
      (row_doc_ids (MemKv.scan town.store (index_email_prefix 1 3)))
      (codes "Old")
      (codes "New")
      (field 1 2 8 3)
    ≡ false
unfolding compare_bytes has_prefix be be_value MemKv.get MemKv.scan MemKv.batch Assoc.get Assoc.put
    Assoc.delete Assoc.sort_by_key Assoc.filter_keys account_key meta_email_key field_key
    index_email_key index_mailbox_name_key blob_link_key quota_key NatMap.put index_email_prefix
elsewhere = refl

rename_mailbox_keeps_example :
    MemKv.get
      (rename_mailbox undated engine ann (codes "Old") (codes "New") town).1.store
      (field_key 1 2 8 3)
    ≡ MemKv.get town.store (field_key 1 2 8 3)
rename_mailbox_keeps_example =
    rename_mailbox_keeps undated engine ann (codes "Old") (codes "New") 1 3 (field 1 2 8 3) town
      registered found elsewhere

renamed : (rename_mailbox undated engine ann (codes "Old") (codes "New") town).0 ≡ ok tt
unfolding rename_mailbox compare_bytes has_prefix be be_value MemKv.get MemKv.scan MemKv.batch
    Assoc.get Assoc.put Assoc.delete Assoc.sort_by_key Assoc.filter_keys account_key meta_email_key
    field_key index_email_key index_mailbox_name_key blob_link_key quota_key NatMap.put counter_key
    change_log_key index_email_prefix scan_range MemKv.in_range
renamed = refl

differ : bytes_eq (codes "New") (codes "Old") ≡ false
unfolding compare_bytes
differ = refl

rename_mailbox_moves_example :
    let s' = (rename_mailbox undated engine ann (codes "Old") (codes "New") town).1.store in
    (MemKv.get s' (index_mailbox_name_key 1 (codes "Old")) ≡ none)
    × (MemKv.get s' (index_mailbox_name_key 1 (codes "New")) ≡ some (be_uint64 3))
    × (MemKv.get s' (field_key 1 1 3 1) ≡ some (codes "New"))
rename_mailbox_moves_example =
    rename_mailbox_moves undated engine ann (codes "Old") (codes "New") 1 3 town registered found
      differ renamed

greeted :
    account_by_email mem_kv ann (set_vacation_last_sent mem_kv ann (codes "bob") 60 town).1.store
    ≡ ok 1
unfolding set_vacation_last_sent account_by_email compare_bytes has_prefix be be_value MemKv.get
    MemKv.scan MemKv.batch Assoc.get Assoc.put Assoc.delete Assoc.sort_by_key Assoc.filter_keys
    account_key meta_email_key field_key index_email_key index_mailbox_name_key blob_link_key
    quota_key NatMap.put meta_vacation_key
greeted = refl

vacation_last_sent-delete_account_example :
    let w1 = (set_vacation_last_sent mem_kv ann (codes "bob") 60 town).1 in
    let w2 = (delete_account mem_kv 70 ann w1).1 in
    (vacation_last_sent mem_kv ann (codes "bob") w1.store ≡ some 60)
    × (vacation_last_sent mem_kv ann (codes "bob") w2.store ≡ some 60)
    × (vacation_last_sent mem_kv ann (codes "bob") (create_account (direct mem_kv) ann w2.store).1
        ≡ some 60)
vacation_last_sent-delete_account_example =
    vacation_last_sent-delete_account (direct mem_kv) ann (codes "bob") 60 70 1 town (omega arith)
      greeted

-- The flags of the message.
split_csv-join_csv_example :
    split_csv (join_csv (flag_seen ∷ codes "work" ∷ [])) ≡ flag_seen ∷ codes "work" ∷ []
split_csv-join_csv_example = split_csv-join_csv (flag_seen ∷ codes "work" ∷ []) (ground arith)

-- A session that sees a marked message 5 and asks for 9.
abbrev marked : Seen
marked = record { uid = 5; flags = flag_deleted ∷ [] }

abbrev email : Email
email = record {
  doc_id = 7;
  uid = 5;
  mailbox = codes "Old";
  flags = flag_deleted ∷ [];
  keywords = [];
  date = 0;
  from = [];
  size = 3;
  blob_id = codes "b";
  head = none;
  body = none;
  mod_seq = 1;
}

uid_expunge_unmatched_example :
    select_targets (uid_expunge_list (λ uid. uid == 9) (marked ∷ [])) true (email ∷ [])
    ≡ select_marked (email ∷ [])
uid_expunge_unmatched_example =
    uid_expunge_unmatched (λ uid. uid == 9) (marked ∷ []) (email ∷ []) (refl, tt)

select_listed-resolve_uids_unmatched_example :
    select_listed (resolve_uids (λ seq uid. seq == 2) (marked ∷ [])) (email ∷ []) ≡ email ∷ []
select_listed-resolve_uids_unmatched_example =
    select_listed-resolve_uids_unmatched (λ seq uid. seq == 2) (marked ∷ []) (email ∷ []) (refl, tt)

-- Two deliveries, of which the first leads.
abbrev two_calls : List Event
two_calls = arrive 4 ∷ arrive 6 ∷ step 0 true ∷ []

run_one_leader_example :
    let c = run 256 two_calls no_calls in
    (length c.leaders ≤ 1) × ((l : Leader) → c.leaders ≡ l ∷ [] → c.batch.active ≡ true)
run_one_leader_example = run_one_leader 256 two_calls

run_conserves_example :
    let c = run 256 two_calls no_calls in
    times_answered 6 c.answers + (times 6 c.batch.queue + times 6 (all_in_flight c.leaders))
    ≡ times 6 (arrivals two_calls)
run_conserves_example = run_conserves 256 two_calls 6

few : 3 * length (run 256 two_calls no_calls).batch.queue + 4 ≤ 9
unfolding run
few = omega arith

run_answers_all_example :
    let c = run 256 (two_calls ++ steps 9) no_calls in
    (c.leaders ≡ [])
    × (c.batch.queue ≡ [])
    × (times_answered 6 c.answers ≡ times 6 (arrivals two_calls))
run_answers_all_example = run_answers_all 256 two_calls 9 6 (omega arith) (refl, tt) few

run-losing_race_example :
    (run 256 (losing_race 4 6 ++ arrive 8 ∷ []) no_calls).answers ≡ (4, false) ∷ []
run-losing_race_example = run-losing_race 256 4 6 (arrive 8 ∷ [])
