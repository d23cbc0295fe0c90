-- ===== src/MailStore/Account.antt =====
-- The purge of an account (`internal/mailstore/kv_mailbox.go`, `DeleteAccount`). The clock is in
-- seconds of the unix time.
pub mod Covered
pub mod Clearing
pub mod Purge
use mailezine.Prelude.{ℕ, List, [], ◌∷◌, ◌++◌, drop, length, take}
use mailezine.Bytes.{Bytes}
use mailezine.Store.Key.{
  account_key, blob_link_key, change_log_prefix, collection_key, counter_key, counter_kind_change,
  counter_kind_next_doc, index_mailbox_name_key, meta_blob_gc_key, meta_email_key, quota_key,
}
use mailezine.Store.Kv.{Kv, Entry}
use mailezine.Store.Counters.{be_uint64}
use mailezine.Store.Accounts.{account_by_email}
use mailezine.MailStore.Calls.{
  Call, World, delete_raw, for_each, forget, of_account, put_raw, reading, ◌>>=◌,
}

-- `CollectionMailbox` to `CollectionPrincipal`, as `DeleteAccount` lists them.
abbrev pub account_collections : List ℕ
account_collections = 1 ∷ 2 ∷ 3 ∷ 4 ∷ 5 ∷ 6 ∷ 7 ∷ []

abbrev pub keys_of : List Entry → List Bytes
keys_of [] = []
keys_of ((k, _) ∷ rows) = k ∷ keys_of rows

-- `string(key[len(linkPrefix):])` of each link row.
abbrev pub blobs_of : ℕ → List Bytes → List Bytes
blobs_of n [] = []
blobs_of n (k ∷ keys) = drop n k ∷ blobs_of n keys

-- The prefixes that `DeleteAccount` scans for each collection.
abbrev pub collection_prefixes : ℕ → List ℕ → List Bytes
collection_prefixes aid [] = []
collection_prefixes aid (col ∷ cols) =
    collection_key aid col ∷ change_log_prefix aid col ∷ collection_prefixes aid cols

abbrev pub account_prefixes : ℕ → List Bytes
account_prefixes aid =
    collection_prefixes aid account_collections
    ++ (take 5 (index_mailbox_name_key aid [])
        ∷ counter_key aid counter_kind_next_doc []
        ∷ counter_key aid counter_kind_change []
        ∷ quota_key aid
        ∷ blob_link_key aid []
        ∷ [])

module _ (kv : Kv) where
  -- `collect` of each prefix.
  unfoldable pub collected : List Bytes → kv.State → List Bytes
  collected [] s = []
  collected (p ∷ ps) s = keys_of (kv.scan s p) ++ collected ps s

  -- The account's rows, the claims of its blobs, and the registry rows last.
  unfoldable pub purge_rows :
      ℕ → Bytes → ℕ → List Bytes → List Bytes → Call (World kv.State) (Unit {0})
  unfolding for_each delete_raw put_raw
  purge_rows now email aid blobs keys = do
    _ ← for_each (delete_raw kv) keys
    _ ← for_each (λ b. put_raw kv (meta_blob_gc_key b) (be_uint64 now)) blobs
    _ ← delete_raw kv (meta_email_key email)
    _ ← delete_raw kv (account_key aid)
    forget kv (of_account email aid)

  abbrev pub purge : ℕ → Bytes → ℕ → Call (World kv.State) (Unit {0})
  purge now email aid w =
      purge_rows now email aid
        (blobs_of (length (blob_link_key aid []))
          (keys_of (kv.scan w.store (blob_link_key aid []))))
        (collected (account_prefixes aid) w.store) w

  -- `DeleteAccount`
  unfoldable pub delete_account : ℕ → Bytes → Call (World kv.State) (Unit {0})
  unfolding account_by_email purge_rows collected
  delete_account now email = do aid ← reading kv (account_by_email kv email); purge now email aid
