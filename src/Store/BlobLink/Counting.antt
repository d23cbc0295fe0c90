-- ===== src/Store/BlobLink/Counting.antt =====
-- Reference counts of blobs (`LinkBlob` and `UnlinkBlob` of `internal/store/bloblink.go`): a link
-- and an unlink undo each other, and a claim of the sweep stands only for a blob let go of.
use mailezine.Prelude.{
  ℕ, ◌+◌, ◌^◌, ◌<◌, ◌≡◌, refl, ap, ◌∙◌, List, none, some, arith, true, false, ◌==◌, if◌then◌else◌,
}
use mailezine.Bytes.{compare_bytes, Bytes, compare_bytes_refl}
use mailezine.Store.Key.BigEndian.{be_value-be, length-be}
use mailezine.Store.Key.{blob_link_key, meta_blob_gc_key}
use mailezine.Store.Key.Typed.{blob_link, blob_gc}
use mailezine.Store.Kv.{Kv, Op, after_ops}
use mailezine.Store.Txn.{TxnKv, Result, ok, err, not_found, ◌>>=◌}
use mailezine.Store.Counters.{be_uint64, blob_ref_value, next}
use mailezine.Store.BlobLink.{
  blob_ref_count, link_blob, link_ops, no_value, refs_or_none, stage_blob_link, stage_blob_unlink,
  unlink_blob, unlink_ops,
}
use mailezine.Store.View.{
  View, apply, Carries, committed, observed, seen, applied, with_txn-Carries, view-batch,
}
use mailezine.Store.Apart.{apart}

-- What a link and an unlink do to what the keys hold.
abbrev link_plan : ℕ → Bytes → View → Result (Unit {0} × List Op)
link_plan a id v = do
  refs ← refs_or_none (blob_ref_value (v (blob_link_key a id)))
  ok (tt, link_ops a id refs)

abbrev unlink_plan : ℕ → ℕ → Bytes → View → Result (Unit {0} × List Op)
unlink_plan now a id v = do
  refs ← blob_ref_value (v (blob_link_key a id))
  if refs == 0 then err not_found else ok (tt, unlink_ops now a id refs)

module _ (t : Kv) where
  link-Carries :
      (a : ℕ) (id : Bytes) → Carries t (λ s. no_value (stage_blob_link t a id s)) (link_plan a id)
  unfolding stage_blob_link
  link-Carries a id s =
      elim (refs_or_none (blob_ref_value (t.get s (blob_link_key a id))))
        as (λ r.
          seen t (no_value (r >>= λ refs. ok (t.batch s (link_ops a id refs))))
          ≡ applied (t.get s) (r >>= λ refs. ok (tt, link_ops a id refs))) [
            | ok refs ↦ ap (λ w. ok (tt, w)) (view-batch t s (link_ops a id refs))
            | err e ↦ refl
          ]

  unlink-Carries :
      (now a : ℕ) (id : Bytes)
      → Carries t (λ s. no_value (stage_blob_unlink t now a id s)) (unlink_plan now a id)
  unfolding stage_blob_unlink
  unlink-Carries now a id s =
      elim (blob_ref_value (t.get s (blob_link_key a id)))
        as (λ r.
          seen t (
            no_value (
              r >>= λ refs.
              if refs == 0 then err not_found else ok (t.batch s (unlink_ops now a id refs))))
          ≡ applied (t.get s) (
              r >>= λ refs.
              if refs == 0 then err not_found else ok (tt, unlink_ops now a id refs))) [
                | ok refs ↦
                    elim (refs == 0)
                      as (λ b.
                        seen t (
                          no_value (
                            if b then err not_found else ok (t.batch s (unlink_ops now a id refs))))
                        ≡ applied (t.get s)
                            (if b then err not_found else ok (tt, unlink_ops now a id refs))) [
                              | true ↦ refl
                              | false ↦
                                  ap (λ w. ok (tt, w)) (view-batch t s (unlink_ops now a id refs))
                            ]
                | err e ↦ refl
              ]

blob_ref_value-be_uint64 : (n : ℕ) → n < 2 ^ 64 → blob_ref_value (some (be_uint64 n)) ≡ ok n
unfolding blob_ref_value
blob_ref_value-be_uint64 n h = rw (length-be 8 n) (ap ok (be_value-be 8 n h))

-- The count of a blob and its claim in a view.
module _ (a : ℕ) (id : Bytes) (v : View) where
  linked_count :
      (refs : ℕ) → apply (link_ops a id refs) v (blob_link_key a id) ≡ some (be_uint64 (next refs))
  unfolding after_ops compare_bytes
  linked_count refs = ground (arith, compare_bytes_refl (blob_link_key a id))

  linked_claim :
      (refs : ℕ)
      → apply (link_ops a id refs) v (meta_blob_gc_key id)
        ≡ (if refs == 0 then none else v (meta_blob_gc_key id))
  unfolding after_ops compare_bytes
  linked_claim refs =
      ground
        (arith, compare_bytes_refl (meta_blob_gc_key id), apart (blob_link a id) (blob_gc id) refl)

  unlinked_count :
      (now n : ℕ) → apply (unlink_ops now a id (n + 1)) v (blob_link_key a id) ≡ some (be_uint64 n)
  unfolding after_ops compare_bytes
  unlinked_count now n =
      ground
        (arith, compare_bytes_refl (blob_link_key a id), apart (blob_gc id) (blob_link a id) refl)

  unlinked_claim :
      (now n : ℕ)
      → apply (unlink_ops now a id (n + 1)) v (meta_blob_gc_key id)
        ≡ (if n == 0 then some (be_uint64 now) else v (meta_blob_gc_key id))
  unfolding after_ops compare_bytes
  unlinked_claim now n =
      ground
        (arith, compare_bytes_refl (meta_blob_gc_key id), apart (blob_link a id) (blob_gc id) refl)

module _ (db : TxnKv) (a : ℕ) (id : Bytes) where
  open db use {kv, ops}

  link_blob_outcome :
      (s : kv.State) (n : ℕ)
      → refs_or_none (blob_ref_count db a id s) ≡ ok n
      → observed db (link_blob db a id s) ≡ (ok tt, apply (link_ops a id n) (kv.get s))
  unfolding link_blob blob_ref_count
  link_blob_outcome s n h =
      with_txn-Carries db _ (link_plan a id) (link-Carries ops a id) s
      ∙ ap (λ r. committed (kv.get s) (r >>= λ refs. ok (tt, link_ops a id refs))) h

  unlink_blob_outcome :
      (now : ℕ) (s : kv.State) (n : ℕ)
      → blob_ref_count db a id s ≡ ok (n + 1)
      → observed db (unlink_blob db now a id s)
        ≡ (ok tt, apply (unlink_ops now a id (n + 1)) (kv.get s))
  unfolding unlink_blob blob_ref_count
  unlink_blob_outcome now s n h =
      with_txn-Carries db _ (unlink_plan now a id) (unlink-Carries ops now a id) s
      ∙ ap
          (λ r.
            committed (kv.get s) (
              r >>= λ refs. if refs == 0 then err not_found else ok (tt, unlink_ops now a id refs)))
          h
      ∙ ground arith

  link_blob_counts :
      (s : kv.State) (n : ℕ)
      → n + 1 < 2 ^ 64
      → refs_or_none (blob_ref_count db a id s) ≡ ok n
      → let (r, s') = link_blob db a id s in
        (r ≡ ok tt)
        × (blob_ref_count db a id s' ≡ ok (n + 1))
        × (kv.get s' (meta_blob_gc_key id)
            ≡ (if n == 0 then none else kv.get s (meta_blob_gc_key id)))
  unfolding blob_ref_count
  link_blob_counts s n hn h =
      let out = link_blob_outcome s n h in
      (
        ap (λ x. x.0) out,
        ap (λ x. blob_ref_value (x.1 (blob_link_key a id))) out
            ∙ ap blob_ref_value (linked_count a id (kv.get s) n)
            ∙ blob_ref_value-be_uint64 (next n) (omega arith)
            ∙ ap ok (omega arith),
        ap (λ x. x.1 (meta_blob_gc_key id)) out ∙ linked_claim a id (kv.get s) n,
      )

  unlink_blob_counts :
      (now : ℕ) (s : kv.State) (n : ℕ)
      → n < 2 ^ 64
      → blob_ref_count db a id s ≡ ok (n + 1)
      → let (r, s') = unlink_blob db now a id s in
        (r ≡ ok tt)
        × (blob_ref_count db a id s' ≡ ok n)
        × (kv.get s' (meta_blob_gc_key id)
            ≡ (if n == 0 then some (be_uint64 now) else kv.get s (meta_blob_gc_key id)))
  unfolding blob_ref_count
  unlink_blob_counts now s n hn h =
      let out = unlink_blob_outcome now s n h in
      (
        ap (λ x. x.0) out,
        ap (λ x. blob_ref_value (x.1 (blob_link_key a id))) out
            ∙ ap blob_ref_value (unlinked_count a id (kv.get s) now n)
            ∙ blob_ref_value-be_uint64 n hn,
        ap (λ x. x.1 (meta_blob_gc_key id)) out ∙ unlinked_claim a id (kv.get s) now n,
      )

  -- A link raises the count of a blob, zero where it has none, by one and an unlink after it takes
  -- that back. A first link drops the blob's claim and a last unlink queues one with its time;
  -- others leave the claim as it was. The count before is below 2^64 - 1.
  pub unlink_blob-link_blob :
      (now : ℕ) (s : kv.State) (n : ℕ)
      → n + 1 < 2 ^ 64
      → refs_or_none (blob_ref_count db a id s) ≡ ok n
      → let (r, s1) = link_blob db a id s in
        let (r', s2) = unlink_blob db now a id s1 in
        let claim = kv.get s (meta_blob_gc_key id) in
        (r ≡ ok tt)
        × (r' ≡ ok tt)
        × (blob_ref_count db a id s1 ≡ ok (n + 1))
        × (blob_ref_count db a id s2 ≡ ok n)
        × (kv.get s1 (meta_blob_gc_key id) ≡ (if n == 0 then none else claim))
        × (kv.get s2 (meta_blob_gc_key id) ≡ (if n == 0 then some (be_uint64 now) else claim))
  unlink_blob-link_blob now s n hn h =
      let s1 = (link_blob db a id s).1 in
      let (linked, up, claim) = link_blob_counts s n hn h in
      let (unlinked, down, claim') = unlink_blob_counts now s1 n (omega arith) up in
      (linked, unlinked, up, down, claim, claim' ∙ rw claim (ground arith))
