-- ===== src/Store/Sweep.antt =====
-- The sweep of unreferenced blobs (`SweepBlobs` of `internal/store/bloblink.go`). Times are in
-- nanoseconds, a claim's in seconds as a 64-bit pattern. Other processes use the engine between two
-- claims; what they do, the end of the context and the backend's deletion are parameters.
pub mod Safety
use mailezine.Prelude.{
  ℕ, ◌+◌, ◌*◌, ◌%◌, ◌^◌, Bool, true, false, not, List, [], ◌∷◌, Option, none, some, if◌then◌else◌,
  length, take, drop, ltb, leb, ◌==◌, ◌||◌, ◌&&◌,
}
use mailezine.Bytes.{Bytes, bytes_eq}
use mailezine.Store.Key.BigEndian.{be_value}
use mailezine.Store.Key.{blob_link_key, meta_blob_gc_key, meta_blob_gc_prefix}
use mailezine.Store.Key.Space
use mailezine.Store.Kv.{Kv, Entry, Op, delete_op}

-- A link row: account, blob and count.
pub record Link : Type 0 where
  pub account_id : ℕ
  pub blob_id : Bytes
  pub refs : ℕ

pub record Claim : Type 0 where
  pub blob_id : Bytes
  pub queued : ℕ

-- The callback of `ScanBlobLinkSpace`; a malformed row is passed over.
abbrev pub links_of : List Entry → List Link
links_of [] = []
links_of ((k, v) ∷ rows) =
    let rest = links_of rows in
    if ltb (length k) 5 || not (length v == 8)
    then rest
    else record {
      account_id = be_value 0 (take 4 (drop 1 k));
      blob_id = drop 5 k;
      refs = be_value 0 v;
    }
      ∷ rest

-- The callback of `ScanBlobGCClaims`.
abbrev pub claims_of : List Entry → List Claim
claims_of [] = []
claims_of ((k, v) ∷ rows) =
    let rest = claims_of rows in
    if length v == 8
    then record { blob_id = drop (length meta_blob_gc_prefix) k; queued = be_value 0 v } ∷ rest
    else rest

-- `live[blobID]`
abbrev pub is_live : Bytes → List Link → Bool
is_live blob_id [] = false
is_live blob_id (l ∷ links) = (ltb 0 l.refs && bytes_eq l.blob_id blob_id) || is_live blob_id links

-- `zeroRows[blobID]`, as the deletions of those rows.
abbrev pub zero_row_ops : Bytes → List Link → List Op
zero_row_ops blob_id [] = []
zero_row_ops blob_id (l ∷ links) =
    let rest = zero_row_ops blob_id links in
    if (l.refs == 0) && bytes_eq l.blob_id blob_id
    then delete_op (blob_link_key l.account_id blob_id) ∷ rest
    else rest

-- Signed 64-bit order of two patterns.
abbrev pub signed_less : ℕ → ℕ → Bool
signed_less a b = ltb ((a + 2 ^ 63) % 2 ^ 64) ((b + 2 ^ 63) % 2 ^ 64)

abbrev pub insert_claim : Claim → List Claim → List Claim
insert_claim c [] = c ∷ []
insert_claim c (d ∷ claims) = elim (signed_less d.queued c.queued) [
  | true ↦ d ∷ insert_claim c claims
  | false ↦ c ∷ d ∷ claims
]

-- `sort.Slice(claims, …)`
unfoldable pub sort_claims : List Claim → List Claim
sort_claims [] = []
sort_claims (c ∷ claims) = insert_claim c (sort_claims claims)

-- `now.Sub(time.Unix(queued, 0)) >= grace`; a negative time is long ago.
abbrev pub is_overdue : ℕ → ℕ → ℕ → Bool
is_overdue grace now queued =
    if leb (2 ^ 63) queued then true else leb (queued * 1_000_000_000 + grace) now

-- What the backend says to a deletion.
pub data Reclaim : Type 0 where
  removed already_gone failed : Reclaim

pub data SweepError : Type 0 where
  context_done reclaim_failed : SweepError

-- One claim: nothing to reclaim, a blob reclaimed, or the end.
pub data Round {ℓ} (S : Type ℓ) : Type ℓ where
  passed took : S → Round S
  ended : SweepError → Round S

module _ (kv : Kv) where
  -- `ScanBlobLinkSpace`
  unfoldable pub scan_blob_link_space : kv.State → List Link
  unfolding be_value
  scan_blob_link_space s = links_of (kv.scan s (Space.blob_link ∷ []))

  -- `ScanBlobGCClaims`
  unfoldable pub scan_blob_gc_claims : kv.State → List Claim
  unfolding be_value
  scan_blob_gc_claims s = claims_of (kv.scan s meta_blob_gc_prefix)

  -- `DeleteBlobGCClaim`
  unfoldable pub delete_blob_gc_claim : Bytes → kv.State → kv.State
  delete_blob_gc_claim blob_id s = kv.batch s (delete_op (meta_blob_gc_key blob_id) ∷ [])

  abbrev pub still_due : ℕ → ℕ → Option Bytes → Bool
  still_due grace now none = false
  still_due grace now (some v) = (length v == 8) && is_overdue grace now (be_value 0 v)

  -- `claimStillDue`
  unfoldable pub claim_still_due : ℕ → ℕ → Bytes → kv.State → Bool
  unfolding be_value
  claim_still_due grace now blob_id s = still_due grace now (kv.get s (meta_blob_gc_key blob_id))

  module _ (stopped : Bytes → Bool) (others : Bytes → kv.State → kv.State)
      (reclaim : Bytes → Reclaim) where
    -- After the deletion by the backend.
    abbrev pub reclaimed : List Link → Bytes → kv.State → Reclaim → Round kv.State
    reclaimed links blob_id s failed = ended reclaim_failed
    reclaimed links blob_id s removed =
        took (kv.batch (delete_blob_gc_claim blob_id s) (zero_row_ops blob_id links))
    reclaimed links blob_id s already_gone =
        took (kv.batch (delete_blob_gc_claim blob_id s) (zero_row_ops blob_id links))

    -- The body of the loop of `SweepBlobs`.
    unfoldable pub sweep_round : List Link → ℕ → ℕ → Claim → kv.State → Round kv.State
    unfolding claim_still_due delete_blob_gc_claim
    sweep_round links grace now c s =
        if stopped c.blob_id
        then ended context_done
        else let s1 = others c.blob_id s in
          if is_live c.blob_id links
          then passed (delete_blob_gc_claim c.blob_id s1)
          else if not (is_overdue grace now c.queued)
          then passed s1
          else if not (claim_still_due grace now c.blob_id s1)
          then passed s1
          else reclaimed links c.blob_id s1 (reclaim c.blob_id)

    -- The loop: the blobs that were reclaimed, the error, and the state at the end.
    unfoldable pub sweep_claims :
        List Link → ℕ → ℕ → List Claim → kv.State → List Bytes × Option SweepError × kv.State
    unfolding sweep_round
    sweep_claims links grace now [] s = ([], none, s)
    sweep_claims links grace now (c ∷ claims) s = elim (sweep_round links grace now c s) [
      | passed s1 ↦ sweep_claims links grace now claims s1
      | took s1 ↦
          let (blobs, e, s2) = sweep_claims links grace now claims s1 in (c.blob_id ∷ blobs, e, s2)
      | ended e ↦ ([], some e, s)
    ]

    -- `SweepBlobs`; the count is the length of the list.
    unfoldable pub sweep_blobs : ℕ → ℕ → kv.State → List Bytes × Option SweepError × kv.State
    unfolding sweep_claims sort_claims scan_blob_link_space scan_blob_gc_claims
    sweep_blobs grace now s =
        sweep_claims (scan_blob_link_space s) grace now (sort_claims (scan_blob_gc_claims s)) s
