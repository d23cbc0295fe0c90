-- ===== src/MailStore/Vacation.antt =====
-- The times of automatic replies (`internal/mailstore/vacation.go`): the last one to each sender, as
-- a 64-bit pattern of nanoseconds of the unix time.
use mailezine.MailStore.Calls.Keeps.{with_txn-keeps}
use mailezine.Store.Txn.{TxnKv, ok}
use mailezine.Store.View.{OnOk, OnOk-bind, get-batch_apart, get-batch_put}
use mailezine.Store.Accounts.{create_account, create_account_txn, create_absent, account_by_email}
use mailezine.Store.Counters.{meta_next, be_uint64}
use mailezine.Store.Key.{
  meta_next_account_key, meta_vacation_key, collection_key, change_log_prefix,
  index_mailbox_name_key, counter_key, quota_key, blob_link_key, account_key, meta_email_key,
  meta_blob_gc_key,
}
use mailezine.Prelude.{
  ℕ, ◌^◌, ◌≡◌, refl, ◌∙◌, ap, Option, none, some, if◌then◌else◌, length, ◌==◌, ◌<◌, false,
}
use mailezine.Bytes.{bytes_eq, Bytes, has_prefix, compare_bytes}
use mailezine.Store.Key.BigEndian.{be_value, be_value-be, length-be}
use mailezine.Store.Kv.{Kv}
use mailezine.MailStore.Calls.{Call, World, put_raw}
use mailezine.MailStore.Account.{delete_account, account_prefixes}
use mailezine.MailStore.Account.Covered.{any_prefix}
use mailezine.MailStore.Account.Purge.{delete_account_apart}

-- `time.Time{}` is no time.
abbrev pub sent_at : Option Bytes → Option ℕ
sent_at none = none
sent_at (some raw) = if length raw == 8 then some (be_value 0 raw) else none

uncovered :
    (aid : ℕ) (account sender : Bytes)
    → any_prefix (account_prefixes aid) (meta_vacation_key account sender) ≡ false
unfolding meta_vacation_key has_prefix collection_key change_log_prefix index_mailbox_name_key
    counter_key quota_key blob_link_key
uncovered aid account sender = refl

registered :
    (aid : ℕ) (account sender : Bytes)
    → bytes_eq (account_key aid) (meta_vacation_key account sender) ≡ false
unfolding meta_vacation_key account_key compare_bytes
registered aid account sender = refl

module _ (kv : Kv) where
  -- `VacationLastSent`
  unfoldable pub vacation_last_sent : Bytes → Bytes → kv.State → Option ℕ
  unfolding be_value
  vacation_last_sent account sender s = sent_at (kv.get s (meta_vacation_key account sender))

  -- `SetVacationLastSent`
  unfoldable pub set_vacation_last_sent : Bytes → Bytes → ℕ → Call (World kv.State) (Unit {0})
  unfolding put_raw
  set_vacation_last_sent account sender t =
      put_raw kv (meta_vacation_key account sender) (be_uint64 t)

module _ (db : TxnKv) where
  open db use {kv, ops}

  create_absent-keeps :
      (email account sender : Bytes) (s : ops.State) (held : Option Bytes)
      → OnOk
          (λ (_, t).
            ops.get t (meta_vacation_key account sender)
            ≡ ops.get s (meta_vacation_key account sender))
          (create_absent ops email s held)
  unfolding meta_vacation_key meta_next_account_key account_key meta_email_key compare_bytes
  create_absent-keeps email account sender s (some v) = tt
  create_absent-keeps email account sender s none =
      OnOk-bind _ (meta_next (ops.get s meta_next_account_key)) _ λ last _.
        get-batch_apart ops s _ (meta_vacation_key account sender) (refl, (refl, (refl, tt)))

  -- A registration touches no time of a reply.
  vacation_last_sent-create_account :
      (email account sender : Bytes) (s : kv.State)
      → vacation_last_sent kv account sender (create_account db email s).1
        ≡ vacation_last_sent kv account sender s
  unfolding vacation_last_sent create_account create_account_txn
  vacation_last_sent-create_account email account sender s = ap sent_at (
      with_txn-keeps db (create_account_txn ops email) s (meta_vacation_key account sender) (
        create_absent-keeps email account sender (db.begin s)
          (ops.get (db.begin s) (meta_email_key email))))

  -- A time that was set is read back. A purge of the account afterwards leaves it, under whatever
  -- number the address is registered, and so does a registration of the address after that: the new
  -- account has the time of the old one.
  pub vacation_last_sent-delete_account :
      (account sender : Bytes) (t now aid : ℕ) (w : World kv.State)
      → t < 2 ^ 64
      → let w1 = (set_vacation_last_sent kv account sender t w).1 in
        account_by_email kv account w1.store ≡ ok aid
        → let w2 = (delete_account kv now account w1).1 in
          (vacation_last_sent kv account sender w1.store ≡ some t)
          × (vacation_last_sent kv account sender w2.store ≡ some t)
          × (vacation_last_sent kv account sender (create_account db account w2.store).1 ≡ some t)
  unfolding vacation_last_sent set_vacation_last_sent put_raw compare_bytes meta_vacation_key
      meta_email_key meta_blob_gc_key
  vacation_last_sent-delete_account account sender t now aid w small h =
      let k = meta_vacation_key account sender in
      let w1 = (set_vacation_last_sent kv account sender t w).1 in
      let w2 = (delete_account kv now account w1).1 in
      let set : vacation_last_sent kv account sender w1.store ≡ some t =
        ap sent_at (get-batch_put kv w.store k (be_uint64 t))
        ∙ rw (length-be 8 t) (ap some (be_value-be 8 t small)) in
      let left : vacation_last_sent kv account sender w2.store ≡ some t =
        ap sent_at (
          delete_account_apart kv now account aid w1 k h (uncovered aid account sender)
            (registered aid account sender) refl (λ b. refl))
        ∙ set in
      (set, left, vacation_last_sent-create_account account account sender w2.store ∙ left)
