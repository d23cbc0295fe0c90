-- ===== src/Store/Sweep/Safety.antt =====
-- The sweep reclaims only blobs that no account links and whose claim is over its grace
-- (`SweepBlobs` of `internal/store/bloblink.go`).
use mailezine.Prelude.{
  subst, false≢true, length-append, ◌≢◌, ◌≤◌, ◌||◌, ◌&&◌, take, ℕ, ◌≡◌, refl, sym, ap, ◌∙◌, Bool,
  true, false, not, List, [], ◌∷◌, Option, some, if◌then◌else◌, length, drop, arith, All, ◌==◌, ltb,
  drop-append, Bool-cases, inl, inr, ◌<◌, ◌≤◌,
}
use mailezine.Bytes.{Bytes, bytes_eq, bytes_eq_iff, has_prefix, compare_bytes_refl}
use mailezine.Bytes.Assoc
use mailezine.Store.Key.BigEndian.{be, be_value, length-be}
use mailezine.Store.Key.{blob_link_key}
use mailezine.Store.Kv.{Kv, Entry}
use mailezine.Store.Key.Space
use mailezine.Store.Sweep.{
  SweepError, Claim, Link, Reclaim, Round, ended, is_live, links_of, passed, scan_blob_link_space,
  sort_claims, scan_blob_gc_claims, sweep_blobs, sweep_claims, sweep_round, took, claim_still_due,
}

is_live-cons :
    (b j w : Bytes) (rows : List Entry)
    → is_live b (links_of ((j, w) ∷ rows)) ≡ (
        (not (ltb (length j) 5 || not (length w == 8))
          && (ltb 0 (be_value 0 w) && bytes_eq (drop 5 j) b))
        || is_live b (links_of rows))
is_live-cons b j w rows =
    elim (ltb (length j) 5 || not (length w == 8))
      as (λ g.
        is_live b (
          if g
          then links_of rows
          else record {
            account_id = be_value 0 (take 4 (drop 1 j));
            blob_id = drop 5 j;
            refs = be_value 0 w;
          }
            ∷ links_of rows)
        ≡ ((not g && (ltb 0 (be_value 0 w) && bytes_eq (drop 5 j) b))
            || is_live b (links_of rows))) [ true ↦ refl | false ↦ refl ]

-- A row with a count above zero makes its blob live.
is_live-row :
    (rows : List Entry) (k v : Bytes)
    → Assoc.get k rows ≡ some v
    → 5 ≤ length k
    → length v ≡ 8
    → 0 < be_value 0 v
    → is_live (drop 5 k) (links_of rows) ≡ true
unfolding Assoc.get
is_live-row [] k v h hk hv pos = cc
is_live-row ((j, w) ∷ rows) k v h hk hv pos =
    is_live-cons (drop 5 k) j w rows ∙ elim (Bool-cases (bytes_eq j k)) [
      | inl same ↦
          let e = (bytes_eq_iff j k).0 same in
          let e' : w ≡ v = ground (arith, h, same) in
          rw (e, e') (ground (arith, hk, hv, pos, compare_bytes_refl (drop 5 k)))
      | inr other ↦ ground (arith, is_live-row rows k v (ground (arith, h, other)) hk hv pos)
    ]

linked_live :
    (kv : Kv) (s : kv.State) (a : ℕ) (blob v : Bytes)
    → kv.get s (blob_link_key a blob) ≡ some v
    → length v ≡ 8
    → 0 < be_value 0 v
    → is_live blob (scan_blob_link_space kv s) ≡ true
unfolding scan_blob_link_space blob_link_key has_prefix
linked_live kv s a blob v h hv pos =
    let k = blob_link_key a blob in
    let rows = kv.scan s (Space.blob_link ∷ []) in
    ap (λ b. is_live b (links_of rows)) (sym (drop-append 4 (be 4 a) blob (length-be 4 a)))
    ∙ is_live-row rows k v (kv.get-scan s (Space.blob_link ∷ []) k ∙ h)
        (omega (arith, length-append (be 4 a) blob, length-be 4 a)) hv pos

module _ (kv : Kv) (stopped : Bytes → Bool) (others : Bytes → kv.State → kv.State)
    (reclaim : Bytes → Reclaim) where
  module _ {ℓ} (links : List Link) (grace now : ℕ) (P : Bytes → Type ℓ) where
    abbrev Allows : Claim → kv.State → Type 0
    Allows c s =
        (is_live c.blob_id links ≡ false)
        × (claim_still_due kv grace now c.blob_id (others c.blob_id s) ≡ true)

    abbrev round : Claim → kv.State → Round kv.State
    round = sweep_round kv stopped others reclaim links grace now

    abbrev rest : List Claim → kv.State → List Bytes × Option SweepError × kv.State
    rest = sweep_claims kv stopped others reclaim links grace now

    abbrev go_on :
        Claim → List Claim → kv.State → Round kv.State → List Bytes × Option SweepError × kv.State
    go_on c claims s (passed s1) = rest claims s1
    go_on c claims s (took s1) = let (blobs, e, s2) = rest claims s1 in (c.blob_id ∷ blobs, e, s2)
    go_on c claims s (ended e) = ([], some e, s)

    sweep_round-Allows :
        (c : Claim) (s s1 : kv.State)
        → sweep_round kv stopped others reclaim links grace now c s ≡ took s1
        → Allows c s
    unfolding sweep_round
    sweep_round-Allows c s s1 h = ground arith

    sweep_claims-All :
        ((c : Claim) (s : kv.State) → Allows c s → P c.blob_id)
        → (claims : List Claim) (s : kv.State)
        → All P (sweep_claims kv stopped others reclaim links grace now claims s).0
    unfolding sweep_claims
    sweep_claims-All f [] s = tt
    sweep_claims-All f (c ∷ claims) s =
        elim (round c s) as (λ r. round c s ≡ r → All P (go_on c claims s r).0) [
          | passed s1 ↦ λ h. sweep_claims-All f claims s1
          | took s1 ↦ λ h. (f c s (sweep_round-Allows c s s1 h), sweep_claims-All f claims s1)
          | ended e ↦ λ h. tt
        ]
          refl

  -- The sweep reclaims no blob that has a link row with a count above zero at its start, in any
  -- account and whatever the others do meanwhile.
  pub sweep_blobs_unlinked :
      (grace now : ℕ) (s : kv.State)
      → All
          (λ blob.
            (a : ℕ) (v : Bytes)
            → kv.get s (blob_link_key a blob) ≡ some v
            → length v ≡ 8
            → be_value 0 v ≡ 0)
          (sweep_blobs kv stopped others reclaim grace now s).0
  unfolding sweep_blobs
  sweep_blobs_unlinked grace now s =
      sweep_claims-All (scan_blob_link_space kv s) grace now _
        (λ c _ allowed a v h hv. elim (Bool-cases (ltb 0 (be_value 0 v))) [
          | inl pos ↦ absurd (
              false≢true
                (sym allowed.0 ∙ linked_live kv s a c.blob_id v h hv (ground (arith, pos))))
          | inr zero_refs ↦ ground (arith, zero_refs)
        ])
        (sort_claims (scan_blob_gc_claims kv s)) s

  -- A blob whose claim is gone, or no longer over its grace, by the time its turn comes is not
  -- reclaimed.
  pub sweep_blobs_rescued :
      (grace now : ℕ) (blob : Bytes) (s : kv.State)
      → ((s1 : kv.State) → claim_still_due kv grace now blob (others blob s1) ≡ false)
      → All (λ b. b ≢ blob) (sweep_blobs kv stopped others reclaim grace now s).0
  unfolding sweep_blobs
  sweep_blobs_rescued grace now blob s rescued =
      sweep_claims-All (scan_blob_link_space kv s) grace now _
        (λ c s1 allowed same. false≢true (
          sym (rescued s1)
          ∙ subst (λ b. claim_still_due kv grace now b (others b s1) ≡ true) same allowed.1))
        (sort_claims (scan_blob_gc_claims kv s)) s
