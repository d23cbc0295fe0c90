-- ===== src/MailStore/Account/Purge.antt =====
-- What the purge of an account leaves (`internal/mailstore/kv_mailbox.go`, `DeleteAccount`).

use mailezine.Prelude.{
  ℕ, ◌≡◌, refl, ◌∙◌, Bool, true, false, List, [], ◌∷◌, Option, none, some, if◌then◌else◌, ◌||◌,
  arith,
}
use mailezine.Bytes.{Bytes, bytes_eq}
use mailezine.Store.Key.{meta_blob_gc_key, blob_link_key, account_key, meta_email_key}
use mailezine.Store.Accounts.{account_by_email}
use mailezine.Store.Counters.{be_uint64}
use mailezine.Store.Key.Typed.{
  StoreKey, encode, same_key, account, meta_email, blob_gc, bytes_eq-encode,
}
use mailezine.Store.View.{get-batch_apart}
use mailezine.Store.Kv.{Kv, after_ops, delete_op}
use mailezine.Store.Txn.{ok}
use mailezine.MailStore.Calls.{
  IdKey, IdCache, account_id, mailbox_id, same_id, of_account, load_id, drop_ids, World, delete_raw,
  drop_ids,
}
use mailezine.MailStore.Account.{
  collected, account_prefixes, delete_account, purge_rows, of_account,
}
use mailezine.MailStore.Account.Covered.{any_prefix, is_owned, any_prefix-account_prefixes}
use mailezine.MailStore.Account.Clearing.{
  is_held, deleted, all_claimed, for_each-delete_raw, for_each-put_raw, get-all_claimed,
  get-all_claimed_claim, get-collected, linked_blobs, mem-linked_blobs,
}

or_gone :
    (b c : Bool) (x y : Option Bytes)
    → x ≡ (if c then none else y)
    → (if b then none else x) ≡ (if c || b then none else y)
or_gone b c x y h = ground arith

-- A key that is dropped, and with it every key that counts as the same, is not found.
load_id-drop_ids :
    (t : ℕ) (key : IdKey) (gone : IdKey → Bool) (ids : IdCache)
    → ((k : IdKey) → same_id key k ≡ true → gone k ≡ true)
    → load_id t key (drop_ids gone ids) ≡ none
unfolding load_id drop_ids
load_id-drop_ids t key gone [] h = refl
load_id-drop_ids t key gone (e ∷ ids) h = ground (arith, h e.key, load_id-drop_ids t key gone ids h)

of_account_address :
    (email : Bytes) (aid : ℕ) (k : IdKey)
    → same_id (account_id email) k ≡ true
    → of_account email aid k ≡ true
of_account_address email aid (account_id e) h = h
of_account_address email aid (mailbox_id a n) h = cc h

of_account_mailbox :
    (email : Bytes) (aid : ℕ) (name : Bytes) (k : IdKey)
    → same_id (mailbox_id aid name) k ≡ true
    → of_account email aid k ≡ true
of_account_mailbox email aid name (account_id e) h = cc h
of_account_mailbox email aid name (mailbox_id a n) h = ground arith

module _ (kv : Kv) where
  -- What a key holds when an account with its address has been purged at a time.
  abbrev pub purged : ℕ → Bytes → ℕ → kv.State → StoreKey → Option Bytes
  purged now email aid s (blob_gc id) =
      if is_held (kv.get s (blob_link_key aid id))
      then some (be_uint64 now)
      else kv.get s (meta_blob_gc_key id)
  purged now email aid s k =
      if is_owned aid k || (same_key (account aid) k || same_key (meta_email email) k)
      then none
      else kv.get s (encode k)

  abbrev cleared : ℕ → ℕ → kv.State → kv.State
  cleared now aid s =
      all_claimed kv (be_uint64 now) (linked_blobs kv aid s)
        (deleted kv (collected kv (account_prefixes aid) s) s)

  -- The two registry rows.
  abbrev unregistered : Bytes → ℕ → kv.State → kv.State
  unregistered email aid s =
      kv.batch (kv.batch s (delete_op (meta_email_key email) ∷ []))
        (delete_op (account_key aid) ∷ [])

  get-unregistered :
      (email : Bytes) (aid : ℕ) (s : kv.State) (k : StoreKey)
      → kv.get (unregistered email aid s) (encode k) ≡ (
          if same_key (account aid) k || same_key (meta_email email) k
          then none
          else kv.get s (encode k))
  unfolding after_ops
  get-unregistered email aid s k =
      kv.get-batch _ (delete_op (account_key aid) ∷ []) (encode k)
      ∙ rw
          (
            bytes_eq-encode (account aid) k,
            kv.get-batch s (delete_op (meta_email_key email) ∷ []) (encode k),
            bytes_eq-encode (meta_email email) k,
          )
          (ground arith)

  purge_rows_lem :
      (now : ℕ) (email : Bytes) (aid : ℕ) (blobs keys : List Bytes) (w : World kv.State)
      → purge_rows kv now email aid blobs keys w ≡ (
        ok tt,
        record {
          store =
              unregistered email aid
                (all_claimed kv (be_uint64 now) blobs (deleted kv keys w.store));
          ids = drop_ids (of_account email aid) w.ids;
        },
      )
  unfolding purge_rows delete_raw
  purge_rows_lem now email aid blobs keys w =
      rw (for_each-delete_raw kv keys w, for_each-put_raw kv (be_uint64 now) blobs _) refl

  get-cleared :
      (now aid : ℕ) (s : kv.State) (k : StoreKey)
      → ((b : Bytes) → same_key (blob_gc b) k ≡ false)
      → kv.get (cleared now aid s) (encode k)
        ≡ (if is_owned aid k then none else kv.get s (encode k))
  get-cleared now aid s k h =
      get-all_claimed kv (be_uint64 now) (linked_blobs kv aid s)
        (deleted kv (collected kv (account_prefixes aid) s) s) (encode k)
        (λ b. bytes_eq-encode (blob_gc b) k ∙ h b)
      ∙ get-collected kv (account_prefixes aid) s (encode k)
      ∙ rw (any_prefix-account_prefixes aid k) refl

  get-cleared_claim :
      (now aid : ℕ) (s : kv.State) (id : Bytes)
      → kv.get (cleared now aid s) (meta_blob_gc_key id) ≡ (
          if is_held (kv.get s (blob_link_key aid id))
          then some (be_uint64 now)
          else kv.get s (meta_blob_gc_key id))
  get-cleared_claim now aid s id =
      get-all_claimed_claim kv (be_uint64 now) (linked_blobs kv aid s)
        (deleted kv (collected kv (account_prefixes aid) s) s) id
      ∙ rw
          (
            mem-linked_blobs kv aid s id,
            get-collected kv (account_prefixes aid) s (meta_blob_gc_key id),
            any_prefix-account_prefixes aid (blob_gc id),
          )
          refl

  after_cleared :
      (now : ℕ) (email : Bytes) (aid : ℕ) (s : kv.State) (k : StoreKey)
      → (if same_key (account aid) k || same_key (meta_email email) k
          then none
          else kv.get (cleared now aid s) (encode k))
        ≡ purged now email aid s k
  after_cleared now email aid s (blob_gc id) = get-cleared_claim now aid s id
  after_cleared now email aid s k =
      or_gone (same_key (account aid) k || same_key (meta_email email) k) (is_owned aid k) _ _
        (get-cleared now aid s k (λ b. refl))

  delete_account_outcome :
      (now : ℕ) (email : Bytes) (aid : ℕ) (w : World kv.State)
      → account_by_email kv email w.store ≡ ok aid
      → delete_account kv now email w ≡ (
        ok tt,
        record {
          store = unregistered email aid (cleared now aid w.store);
          ids = drop_ids (of_account email aid) w.ids;
        },
      )
  unfolding delete_account
  delete_account_outcome now email aid w h = rw h (
      purge_rows_lem now email aid (linked_blobs kv aid w.store)
        (collected kv (account_prefixes aid) w.store) w)

  -- The purge of a registered account succeeds. Every document, change, index row, counter and
  -- link of it, its quota and its two registry rows are gone; every blob that it linked is claimed
  -- for the sweep; every other key that `internal/store/key.go` can make is as it was, those of other
  -- accounts and of the queue, the leases and the times of vacation replies among them;
  -- and the cache of identifiers knows neither its address nor any of its mailboxes.
  pub delete_account_lem :
      (now : ℕ) (email : Bytes) (aid : ℕ) (w : World kv.State)
      → account_by_email kv email w.store ≡ ok aid
      → let w' = (delete_account kv now email w).1 in
        ((delete_account kv now email w).0 ≡ ok tt)
        × ((k : StoreKey) → kv.get w'.store (encode k) ≡ purged now email aid w.store k)
        × ((t : ℕ) → load_id t (account_id email) w'.ids ≡ none)
        × ((t : ℕ) (name : Bytes) → load_id t (mailbox_id aid name) w'.ids ≡ none)
  delete_account_lem now email aid w h = rw (delete_account_outcome now email aid w h) (
    refl,
    λ k.
        get-unregistered email aid (cleared now aid w.store) k
        ∙ after_cleared now email aid w.store k,
    λ t.
        load_id-drop_ids t (account_id email) (of_account email aid) w.ids
          (of_account_address email aid),
    λ t name.
        load_id-drop_ids t (mailbox_id aid name) (of_account email aid) w.ids
          (of_account_mailbox email aid name),
  )

  -- A key that none of the purge's steps is on.
  pub delete_account_apart :
      (now : ℕ) (email : Bytes) (aid : ℕ) (w : World kv.State) (k : Bytes)
      → account_by_email kv email w.store ≡ ok aid
      → any_prefix (account_prefixes aid) k ≡ false
      → bytes_eq (account_key aid) k ≡ false
      → bytes_eq (meta_email_key email) k ≡ false
      → ((b : Bytes) → bytes_eq (meta_blob_gc_key b) k ≡ false)
      → kv.get (delete_account kv now email w).1.store k ≡ kv.get w.store k
  delete_account_apart now email aid w k h covered by_id by_email claim =
      rw (delete_account_outcome now email aid w h) (
        get-batch_apart kv _ (delete_op (account_key aid) ∷ []) k (by_id, tt)
        ∙ get-batch_apart kv _ (delete_op (meta_email_key email) ∷ []) k (by_email, tt)
        ∙ get-all_claimed kv (be_uint64 now) (linked_blobs kv aid w.store)
            (deleted kv (collected kv (account_prefixes aid) w.store) w.store) k claim
        ∙ get-collected kv (account_prefixes aid) w.store k
        ∙ rw covered refl)
