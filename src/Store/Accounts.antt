-- ===== src/Store/Accounts.antt =====
-- The registry of accounts (`internal/store/store.go`): an identifier of 32 bits for each address.
pub mod Registry
use mailezine.Prelude.{
  ℕ, ◌+◌, ◌%◌, ◌^◌, List, [], ◌∷◌, Option, none, some, if◌then◌else◌, length, drop, ltb, ◌==◌,
}
use mailezine.Bytes.{Bytes}
use mailezine.Store.Key.BigEndian.{be, be_value}
use mailezine.Store.Key.{account_key, codes, meta_email_key, meta_next_account_key}
use mailezine.Store.Key.Space
use mailezine.Store.Kv.{Kv, Entry, put_op}
use mailezine.Store.Txn.{TxnKv, Result, ok, err, corrupt, exists, not_found, with_txn, ◌>>=◌}
use mailezine.Store.Counters.{be_uint64, meta_next, next}

-- `beUint32`
abbrev pub be_uint32 : ℕ → Bytes
be_uint32 v = be 4 v

-- The prefix that `ListAccounts` scans.
abbrev pub email_prefix : Bytes
email_prefix = Space.meta ∷ codes "email:"

-- The callback of `ListAccounts` on each row.
abbrev pub collect_emails : List Entry → List Bytes
collect_emails [] = []
collect_emails ((k, _) ∷ rows) =
    let rest = collect_emails rows in
    if ltb (length email_prefix) (length k) then drop (length email_prefix) k ∷ rest else rest

module _ (t : Kv) where
  abbrev pub create_absent : Bytes → t.State → Option Bytes → Result (ℕ × t.State)
  create_absent email s (some _) = err exists
  create_absent email s none = do
    last ← meta_next (t.get s meta_next_account_key)
    let nid = (last + 1) % 2 ^ 32
    ok (
      nid,
      t.batch s (
          put_op meta_next_account_key (be_uint64 (next last))
          ∷ put_op (account_key nid) email
          ∷ put_op (meta_email_key email) (be_uint32 nid)
          ∷ []),
    )

  -- The closure of `CreateAccount`.
  unfoldable pub create_account_txn : Bytes → t.State → Result (ℕ × t.State)
  unfolding meta_next
  create_account_txn email s = create_absent email s (t.get s (meta_email_key email))

module _ (kv : Kv) where
  abbrev pub account_of : Option Bytes → Result ℕ
  account_of none = err not_found
  account_of (some v) = if length v == 4 then ok (be_value 0 v) else err corrupt

  -- `AccountByEmail`
  unfoldable pub account_by_email : Bytes → kv.State → Result ℕ
  unfolding be_value
  account_by_email email s = account_of (kv.get s (meta_email_key email))

  abbrev pub or_not_found : Option Bytes → Result Bytes
  or_not_found none = err not_found
  or_not_found (some v) = ok v

  -- `AccountEmail`
  unfoldable pub account_email : ℕ → kv.State → Result Bytes
  account_email id s = or_not_found (kv.get s (account_key id))

  -- `ListAccounts`
  unfoldable pub list_accounts : kv.State → List Bytes
  list_accounts s = collect_emails (kv.scan s email_prefix)

module _ (db : TxnKv) where
  open db use {kv, ops}

  -- `CreateAccount`
  unfoldable pub create_account : Bytes → kv.State → Result ℕ × kv.State
  unfolding with_txn create_account_txn
  create_account email s = with_txn db (create_account_txn ops email) s
