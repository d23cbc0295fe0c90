-- ===== src/MailStore/Account/Clearing.antt =====
-- The loops of a purge (`internal/mailstore/kv_mailbox.go`, `DeleteAccount`): the rows under a list of
-- prefixes deleted, and a list of blobs claimed.

use mailezine.Prelude.{
  ℕ, drop, length, ap, ◌≡◌, refl, ◌∙◌, Bool, true, false, List, [], ◌∷◌, ◌++◌, Option, none, some,
  if◌then◌else◌, ◌||◌, ◌&&◌, arith, Option-cases, All, Bool-cases, ap₂,
}
use mailezine.Bytes.{
  has_prefix_self, Bytes, bytes_eq, has_prefix, compare_bytes, compare_bytes_refl,
}
use mailezine.Bytes.Assoc
use mailezine.Store.Key.{meta_blob_gc_key, blob_link_key}
use mailezine.Store.Key.Typed.{blob_gc, bytes_eq-encode}
use mailezine.Store.Kv.{Kv, Entry, after_ops, delete_op, put_op}
use mailezine.Store.Txn.{ok}
use mailezine.MailStore.Calls.{World, delete_raw, for_each, put_raw}
use mathlib.Core.List.{append-nil}
use mailezine.MailStore.Account.{collected, keys_of, blobs_of}
use mailezine.MailStore.Account.Covered.{any_prefix}

abbrev pub mem : Bytes → List Bytes → Bool
mem k [] = false
mem k (j ∷ ks) = bytes_eq j k || mem k ks

abbrev pub is_held : Option Bytes → Bool
is_held none = false
is_held (some _) = true

pub mem-append : (k : Bytes) (a b : List Bytes) → mem k (a ++ b) ≡ (mem k a || mem k b)
mem-append k [] b = refl
mem-append k (j ∷ a) b = ground (arith, mem-append k a b)

pub mem-keys_of :
    (k : Bytes) (rows : List Entry) → mem k (keys_of rows) ≡ is_held (Assoc.get k rows)
unfolding Assoc.get
mem-keys_of k [] = refl
mem-keys_of k ((j, v) ∷ rows) = ground (arith, mem-keys_of k rows)

module _ (kv : Kv) where
  -- The states of the two loops.
  pub deleted : List Bytes → kv.State → kv.State
  deleted [] s = s
  deleted (k ∷ ks) s = deleted ks (kv.batch s (delete_op k ∷ []))

  pub all_claimed : Bytes → List Bytes → kv.State → kv.State
  all_claimed now [] s = s
  all_claimed now (b ∷ bs) s =
      all_claimed now bs (kv.batch s (put_op (meta_blob_gc_key b) now ∷ []))

  pub for_each-delete_raw :
      (ks : List Bytes) (w : World kv.State)
      → for_each (delete_raw kv) ks w ≡ (ok tt, record w { store = deleted ks w.store })
  unfolding for_each delete_raw deleted
  for_each-delete_raw [] w = refl
  for_each-delete_raw (k ∷ ks) w = for_each-delete_raw ks _

  pub for_each-put_raw :
      (now : Bytes) (bs : List Bytes) (w : World kv.State)
      → for_each (λ b. put_raw kv (meta_blob_gc_key b) now) bs w
        ≡ (ok tt, record w { store = all_claimed now bs w.store })
  unfolding for_each put_raw all_claimed
  for_each-put_raw now [] w = refl
  for_each-put_raw now (b ∷ bs) w = for_each-put_raw now bs _

  pub get-deleted :
      (ks : List Bytes) (s : kv.State) (k : Bytes)
      → kv.get (deleted ks s) k ≡ (if mem k ks then none else kv.get s k)
  unfolding deleted after_ops
  get-deleted [] s k = refl
  get-deleted (j ∷ ks) s k =
      get-deleted ks (kv.batch s (delete_op j ∷ [])) k
      ∙ rw (kv.get-batch s (delete_op j ∷ []) k) (ground arith)

  pub get-all_claimed :
      (now : Bytes) (bs : List Bytes) (s : kv.State) (k : Bytes)
      → ((b : Bytes) → bytes_eq (meta_blob_gc_key b) k ≡ false)
      → kv.get (all_claimed now bs s) k ≡ kv.get s k
  unfolding all_claimed after_ops
  get-all_claimed now [] s k h = refl
  get-all_claimed now (b ∷ bs) s k h =
      get-all_claimed now bs (kv.batch s (put_op (meta_blob_gc_key b) now ∷ [])) k h
      ∙ rw (kv.get-batch s (put_op (meta_blob_gc_key b) now ∷ []) k, h b) refl

  pub get-all_claimed_claim :
      (now : Bytes) (bs : List Bytes) (s : kv.State) (id : Bytes)
      → kv.get (all_claimed now bs s) (meta_blob_gc_key id)
        ≡ (if mem id bs then some now else kv.get s (meta_blob_gc_key id))
  unfolding all_claimed after_ops
  get-all_claimed_claim now [] s id = refl
  get-all_claimed_claim now (b ∷ bs) s id =
      get-all_claimed_claim now bs (kv.batch s (put_op (meta_blob_gc_key b) now ∷ [])) id
      ∙ rw
          (
            kv.get-batch s (put_op (meta_blob_gc_key b) now ∷ []) (meta_blob_gc_key id),
            bytes_eq-encode (blob_gc b) (blob_gc id),
          )
          (ground arith)

  pub mem-collected :
      (ps : List Bytes) (s : kv.State) (k : Bytes)
      → mem k (collected kv ps s) ≡ (any_prefix ps k && is_held (kv.get s k))
  unfolding collected
  mem-collected [] s k = refl
  mem-collected (p ∷ ps) s k =
      mem-append k (keys_of (kv.scan s p)) (collected kv ps s)
      ∙ rw (mem-keys_of k (kv.scan s p), kv.get-scan s p k) (ground (arith, mem-collected ps s k))

  pub get-collected :
      (ps : List Bytes) (s : kv.State) (k : Bytes)
      → kv.get (deleted (collected kv ps s) s) k ≡ (if any_prefix ps k then none else kv.get s k)
  get-collected ps s k =
      get-deleted (collected kv ps s) s k
      ∙ rw (mem-collected ps s k) (ground (arith, Option-cases (kv.get s k)))

pub drop_prefix :
    (p k id : Bytes)
    → has_prefix p k ≡ true
    → bytes_eq (drop (length p) k) id ≡ bytes_eq k (p ++ id)
unfolding has_prefix compare_bytes
drop_prefix [] k id h = refl
drop_prefix (x ∷ p) [] id h = cc h
drop_prefix (x ∷ p) (y ∷ k) id h = ground (arith, drop_prefix p k id)

pub mem-blobs_of :
    (p id : Bytes) (ks : List Bytes)
    → All (λ k. has_prefix p k ≡ true) ks
    → mem id (blobs_of (length p) ks) ≡ mem (p ++ id) ks
mem-blobs_of p id [] h = refl
mem-blobs_of p id (k ∷ ks) h =
    ap₂ (λ (x y : Bool). x || y) (drop_prefix p k id h.0) (mem-blobs_of p id ks h.1)

-- A property of every key that a map holds is one of every key in its list.
All-keys_of :
    (P : Bytes → Type 0) (rows : List Entry)
    → ((k : Bytes) → is_held (Assoc.get k rows) ≡ true → P k)
    → All P (keys_of rows)
unfolding Assoc.get compare_bytes
All-keys_of P [] h = tt
All-keys_of P ((k, v) ∷ rows) h = (
  h k (rw (compare_bytes_refl k, is_held) refl),
  All-keys_of P rows λ j held. h j (ground (arith, held)),
)

pub blob_link_key-append :
    (aid : ℕ) (id : Bytes) → blob_link_key aid [] ++ id ≡ blob_link_key aid id
unfolding blob_link_key
blob_link_key-append aid id = simp append-nil

module _ (kv : Kv) where
  pub scan_prefix :
      (s : kv.State) (p : Bytes) → All (λ k. has_prefix p k ≡ true) (keys_of (kv.scan s p))
  scan_prefix s p =
      All-keys_of _ (kv.scan s p)
        λ k held. ground (arith, kv.get-scan s p k, held, Bool-cases (has_prefix p k))

  abbrev pub linked_blobs : ℕ → kv.State → List Bytes
  linked_blobs aid s =
      blobs_of (length (blob_link_key aid [])) (keys_of (kv.scan s (blob_link_key aid [])))

  pub mem-linked_blobs :
      (aid : ℕ) (s : kv.State) (id : Bytes)
      → mem id (linked_blobs aid s) ≡ is_held (kv.get s (blob_link_key aid id))
  mem-linked_blobs aid s id =
      mem-blobs_of (blob_link_key aid []) id (keys_of (kv.scan s (blob_link_key aid [])))
        (scan_prefix s (blob_link_key aid []))
      ∙ mem-keys_of (blob_link_key aid [] ++ id) (kv.scan s (blob_link_key aid []))
      ∙ ap is_held (kv.get-scan s (blob_link_key aid []) (blob_link_key aid [] ++ id))
      ∙ rw (has_prefix_self (blob_link_key aid []) id)
          (ap (λ k. is_held (kv.get s k)) (blob_link_key-append aid id))
