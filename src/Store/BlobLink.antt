-- ===== src/Store/BlobLink.antt =====
-- Blob links of `internal/store/bloblink.go`: for each account and blob a count of references, and
-- for each blob that an account has let go of a claim of the sweep. `now` is the unix time.
pub mod Counting
use mailezine.Prelude.{ℕ, ◌-◌, List, [], ◌∷◌, if◌then◌else◌, ◌==◌}
use mailezine.Bytes.{Bytes}
use mailezine.Store.Key.{blob_link_key, meta_blob_gc_key}
use mailezine.Store.Kv.{Kv, Op, put_op, delete_op}
use mailezine.Store.Txn.{TxnKv, Result, ok, err, not_found, with_txn, ◌>>=◌}
use mailezine.Store.Counters.{be_uint64, blob_ref_value, next}

-- A first link has no count yet.
abbrev pub refs_or_none : Result ℕ → Result ℕ
refs_or_none (ok n) = ok n
refs_or_none (err not_found) = ok 0
refs_or_none (err e) = err e

abbrev pub link_ops : ℕ → Bytes → ℕ → List Op
link_ops account_id blob_id refs =
    if refs == 0
    then delete_op (meta_blob_gc_key blob_id)
      ∷ put_op (blob_link_key account_id blob_id) (be_uint64 (next refs))
      ∷ []
    else put_op (blob_link_key account_id blob_id) (be_uint64 (next refs)) ∷ []

abbrev pub unlink_ops : ℕ → ℕ → Bytes → ℕ → List Op
unlink_ops now account_id blob_id refs =
    if refs == 1
    then put_op (blob_link_key account_id blob_id) (be_uint64 0)
      ∷ put_op (meta_blob_gc_key blob_id) (be_uint64 now)
      ∷ []
    else put_op (blob_link_key account_id blob_id) (be_uint64 (refs - 1)) ∷ []

module _ (t : Kv) where
  -- `stageBlobLink`
  unfoldable pub stage_blob_link : ℕ → Bytes → t.State → Result t.State
  unfolding blob_ref_value
  stage_blob_link account_id blob_id s = do
    refs ← refs_or_none (blob_ref_value (t.get s (blob_link_key account_id blob_id)))
    ok (t.batch s (link_ops account_id blob_id refs))

  -- `stageBlobUnlink`
  unfoldable pub stage_blob_unlink : ℕ → ℕ → Bytes → t.State → Result t.State
  unfolding blob_ref_value
  stage_blob_unlink now account_id blob_id s = do
    refs ← blob_ref_value (t.get s (blob_link_key account_id blob_id))
    if refs == 0 then err not_found else ok (t.batch s (unlink_ops now account_id blob_id refs))

abbrev pub no_value {ℓ} : {S : Type ℓ} → Result S → Result (Unit {0} × S)
no_value (ok s) = ok (tt, s)
no_value (err e) = err e

module _ (db : TxnKv) where
  open db use {kv, ops}

  -- `LinkBlob`
  unfoldable pub link_blob : ℕ → Bytes → kv.State → Result (Unit {0}) × kv.State
  unfolding with_txn stage_blob_link
  link_blob account_id blob_id s =
      with_txn db (λ t. no_value (stage_blob_link ops account_id blob_id t)) s

  -- `UnlinkBlob`
  unfoldable pub unlink_blob : ℕ → ℕ → Bytes → kv.State → Result (Unit {0}) × kv.State
  unfolding with_txn stage_blob_unlink
  unlink_blob now account_id blob_id s =
      with_txn db (λ t. no_value (stage_blob_unlink ops now account_id blob_id t)) s

  -- `BlobRefCount`
  unfoldable pub blob_ref_count : ℕ → Bytes → kv.State → Result ℕ
  unfolding blob_ref_value
  blob_ref_count account_id blob_id s = blob_ref_value (kv.get s (blob_link_key account_id blob_id))
