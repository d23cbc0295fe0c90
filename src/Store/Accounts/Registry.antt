-- ===== src/Store/Accounts/Registry.antt =====
-- An account that was created is found by its address and by its number (`CreateAccount`,
-- `AccountByEmail` and `AccountEmail` of `internal/store/store.go`).
use mailezine.Prelude.{ℕ, ◌+◌, ◌%◌, ◌^◌, ◌<◌, ◌≡◌, refl, ap, ◌∙◌, [], ◌∷◌, none, some, arith}
use mailezine.Bytes.{Bytes}
use mailezine.Store.Key.BigEndian.{be, be_value-be, length-be}
use mailezine.Store.Key.{account_key, meta_email_key, meta_next_account_key}
use mailezine.Store.Key.Typed.{account, meta_email}
use mailezine.Store.Kv.{Kv, put_op}
use mailezine.Store.Txn.{TxnKv, ok, err, exists, with_txn, settle}
use mailezine.Store.Counters.{meta_next, be_uint64, next}
use mailezine.Store.Accounts.{
  account_of, or_not_found, be_uint32, account_by_email, account_email, create_absent,
  create_account, create_account_txn,
}
use mailezine.Store.View.{get-batch_last, OnOk, OnOk-bind, with_txn-OnOk_value}
use mailezine.Store.Apart.{apart}

-- The two rows of an account.
abbrev IsRegistered : (t : Kv) → Bytes → ℕ × t.State → Type 0
IsRegistered t email (id, s) =
    (t.get s (meta_email_key email) ≡ some (be 4 id))
    × (t.get s (account_key id) ≡ some email)
    × (id < 2 ^ 32)

module _ (t : Kv) where
  create_account_txn-IsRegistered :
      (email : Bytes) (s : t.State) → OnOk (IsRegistered t email) (create_account_txn t email s)
  unfolding create_account_txn
  create_account_txn-IsRegistered email s =
      elim (t.get s (meta_email_key email))
        as (λ o. OnOk (IsRegistered t email) (create_absent t email s o)) [
          | some _ ↦ tt
          | none ↦ OnOk-bind _ (meta_next (t.get s meta_next_account_key)) _ λ last _.
              let nid = (last + 1) % 2 ^ 32 in
              let count = put_op meta_next_account_key (be_uint64 (next last)) in
              let by_id = put_op (account_key nid) email in
              (
                get-batch_last t s (count ∷ by_id ∷ []) [] (meta_email_key email) (be_uint32 nid)
                    tt,
                get-batch_last t s (count ∷ []) (put_op (meta_email_key email) (be_uint32 nid) ∷ [])
                    (account_key nid) email (apart (meta_email email) (account nid) refl, tt),
                omega arith,
              )
        ]

module _ (db : TxnKv) where
  open db use {kv, ops, begin, commit}

  -- An account that was created is found by its address, its number gives the address, and the
  -- address cannot be registered again.
  pub create_account_found :
      (email : Bytes) (s : kv.State) (id : ℕ)
      → (create_account db email s).0 ≡ ok id
      → let s' = (create_account db email s).1 in
        (account_by_email kv email s' ≡ ok id)
        × (account_email kv id s' ≡ ok email)
        × ((create_account db email s').0 ≡ err exists)
  unfolding create_account create_account_txn account_by_email account_email with_txn
  create_account_found email s id h =
      with_txn-OnOk_value db (create_account_txn ops email) (IsRegistered ops email)
        (λ s'.
          (account_by_email kv email s' ≡ ok id)
          × (account_email kv id s' ≡ ok email)
          × ((with_txn db (create_account_txn ops email) s').0 ≡ err exists))
        s id (create_account_txn-IsRegistered ops email (begin s))
        (λ t (by_email, by_id, small). (
          ap (account_of kv) (db.get-commit t (meta_email_key email) ∙ by_email)
              ∙ rw (length-be 4 id) (ap ok (be_value-be 4 id small)),
          ap (or_not_found kv) (db.get-commit t (account_key id) ∙ by_id),
          ap (λ o. (settle db (commit t) (create_absent ops email (begin (commit t)) o)).0)
              (db.get-begin (commit t) (meta_email_key email)
                ∙ db.get-commit t (meta_email_key email)
                ∙ by_email),
        ))
        h
