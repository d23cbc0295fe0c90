-- ===== src/Store/Email/Removal.antt =====
-- What the removal of a document leaves (`DeleteEmailAtomically` of `internal/store/store.go`,
-- `DeleteDocument` of `internal/store/doc.go`).
use mailezine.Prelude.{
  ℕ, ◌-◌, ◌^◌, ◌<◌, ◌≡◌, refl, ◌∙◌, true, false, List, [], ◌∷◌, Option, none, some, arith,
  if◌then◌else◌, ◌==◌, Option-cases, Bool-cases, inl, inr, ap, sym,
}
use mailezine.Bytes.{Bytes, has_prefix, bytes_eq}
use mailezine.Bytes.Assoc
use mailezine.Store.Key.{blob_link_key, quota_key, field_key, meta_blob_gc_key}
use mailezine.Store.Key.Typed.{encode, blob_link, blob_gc, quota, counter, change_log, field}
use mailezine.Store.Kv.{Kv, Entry, after_ops, delete_op, Op, put_op}
use mailezine.Store.Txn.{Result, ok, err, not_found, not_marked_deleted}
use mailezine.Store.Counters.{blob_ref_value, quota_value, be_uint64, read_counter, next}
use mailezine.Store.BlobLink.{stage_blob_unlink, unlink_ops}
use mailezine.Store.Documents.{deletions}
use mailezine.Store.Email.{change_counter_key, change_ops, change_log_key}
use mailezine.Store.Email.Remove.{
  lacks_flag, checked_rows, nothing_scanned, scan_fields, clamped, or_drop_link, release_blob,
  release_quota, Scanned, remove_rows, put_quota, delete_value,
}
use mailezine.Store.View.{get-batch_put, OnOk, OnOk-bind, Avoids, get-batch_apart, OnOk-then}
use mailezine.Store.Apart.{apart}

after_ops-deletions :
    (rows : List Entry) (k : Bytes) (held : Option Bytes)
    → after_ops (deletions rows) k held ≡ elim (Assoc.get k rows) [ none ↦ held | some _ ↦ none ]
unfolding after_ops Assoc.get
after_ops-deletions [] k held = refl
after_ops-deletions ((j, v) ∷ rows) k held =
    after_ops-deletions rows k _ ∙ ground (arith, Option-cases (Assoc.get k rows))

-- The rows of a scan deleted: nothing under the prefix is left, and every other key is as before.
pub get-deletions :
    (t : Kv) (s : t.State) (p k : Bytes)
    → t.get (t.batch s (deletions (t.scan s p))) k ≡ (if has_prefix p k then none else t.get s k)
get-deletions t s p k =
    t.get-batch s _ k
    ∙ after_ops-deletions (t.scan s p) k (t.get s k)
    ∙ rw (t.get-scan s p k) (ground (arith, Option-cases (t.get s k)))

-- The clamped difference is the one of the naturals that stops at zero.
pub clamped_sub : (cur size : ℕ) → cur < 2 ^ 63 → size < 2 ^ 63 → clamped cur size ≡ cur - size
clamped_sub cur size h g = ground arith

-- A key that is neither a blob link, nor a claim, nor the quota, nor of the change log.
module _ (t : Kv) (a : ℕ) (k : Bytes)
    (other : (id : Bytes)
      → (bytes_eq (blob_link_key a id) k ≡ false)
        × (bytes_eq (meta_blob_gc_key id) k ≡ false)) where
  unlink_ops-Avoids : (now : ℕ) (id : Bytes) (refs : ℕ) → Avoids k (unlink_ops now a id refs)
  unlink_ops-Avoids now id refs = ground (arith, (other id).0, (other id).1)

  abbrev Keeps : t.State → Result t.State → Type 0
  Keeps s = OnOk (λ s'. t.get s' k ≡ t.get s k)

  unlink-Keeps : (now : ℕ) (id : Bytes) (s : t.State) → Keeps s (stage_blob_unlink t now a id s)
  unfolding stage_blob_unlink
  unlink-Keeps now id s = OnOk-bind _ (blob_ref_value (t.get s (blob_link_key a id))) _ λ refs _.
      elim (refs == 0)
        as (λ b. Keeps s (if b then err not_found else ok (t.batch s (unlink_ops now a id refs)))) [
          | true ↦ tt
          | false ↦ get-batch_apart t s (unlink_ops now a id refs) k (unlink_ops-Avoids now id refs)
        ]

  or_drop_link-Keeps :
      (id : Bytes) (s : t.State) (r : Result t.State)
      → Keeps s r
      → Keeps s (or_drop_link t a id s r)
  or_drop_link-Keeps id s (ok s') h = h
  or_drop_link-Keeps id s (err not_found) h =
      get-batch_apart t s (delete_op (blob_link_key a id) ∷ []) k ((other id).0, tt)
  or_drop_link-Keeps id s (err _) h = tt

  pub release_blob-Keeps :
      (now : ℕ) (id : Bytes) (s : t.State) → Keeps s (release_blob t now a id s)
  unfolding release_blob
  release_blob-Keeps now [] s = refl
  release_blob-Keeps now (c ∷ id) s = or_drop_link-Keeps (c ∷ id) s _ (unlink-Keeps now (c ∷ id) s)

-- The quota after its step.
abbrev pub IsCharged : ℕ → Option Bytes → Option Bytes → Type 0
IsCharged size held held' =
    (n : ℕ)
    → quota_value held ≡ ok n
    → held' ≡ (if size == 0 then held else some (be_uint64 (clamped n size)))

ok_inj : (m n : ℕ) → ok m ≡ ok n → m ≡ n
ok_inj m n h = cc h

module _ (t : Kv) (a : ℕ) where
  release_quota-quota :
      (size : ℕ) (s : t.State)
      → OnOk
          (λ s'. IsCharged size (t.get s (quota_key a)) (t.get s' (quota_key a)))
          (release_quota t a size s)
  unfolding release_quota
  release_quota-quota size s = elim (Bool-cases (size == 0)) [
    | inl none_held ↦ rw (none_held, release_quota) (λ n held. refl)
    | inr some_held ↦
        rw (some_held, release_quota)
          (OnOk-bind _ (quota_value (t.get s (quota_key a))) _ λ cur read. λ n held.
            (get-batch_put t s (quota_key a) (be_uint64 (clamped cur size))
              ∙ ap (λ m. some (be_uint64 (clamped m size))) (ok_inj cur n (sym read ∙ held))))
  ]

  release_quota-Keeps :
      (size : ℕ) (k : Bytes) (s : t.State)
      → bytes_eq (quota_key a) k ≡ false
      → OnOk (λ s'. t.get s' k ≡ t.get s k) (release_quota t a size s)
  unfolding release_quota
  release_quota-Keeps size k s h =
      elim (size == 0)
        as (λ b.
          OnOk (λ s'. t.get s' k ≡ t.get s k)
            (if b then ok s else put_quota t a size s (quota_value (t.get s (quota_key a))))) [
              | true ↦ refl
              | false ↦ OnOk-bind _ (quota_value (t.get s (quota_key a))) _ λ cur _.
                  get-batch_apart t s (put_op (quota_key a) (be_uint64 (clamped cur size)) ∷ []) k
                    (h, tt)
            ]

  -- The last steps: the change row and the caller's operations.
  log-Keeps :
      (c id : ℕ) (value : Bytes) (extra : List Op) (k : Bytes) (s : t.State)
      → bytes_eq (change_counter_key a) k ≡ false
      → bytes_eq (change_log_key a c id) k ≡ false
      → Avoids k extra
      → t.get (t.batch (t.batch s (change_ops a c id value)) extra) k ≡ t.get s k
  log-Keeps c id value extra k s h g e =
      get-batch_apart t _ extra k e ∙ get-batch_apart t s (change_ops a c id value) k (h, (g, tt))

  module _ (now c d : ℕ) (rows : List Entry) (found : Scanned) (extra : List Op) (s : t.State) where
    abbrev cleared : t.State
    cleared = t.batch s (deletions rows)

    -- A key that is none of those that a removal writes besides the document.
    pub remove_rows-apart :
        (k : Bytes)
        → ((id : Bytes)
            → (bytes_eq (blob_link_key a id) k ≡ false)
              × (bytes_eq (meta_blob_gc_key id) k ≡ false))
        → bytes_eq (quota_key a) k ≡ false
        → bytes_eq (change_counter_key a) k ≡ false
        → ((id : ℕ) → bytes_eq (change_log_key a c id) k ≡ false)
        → Avoids k extra
        → OnOk
            (λ (_, s'). t.get s' k ≡ t.get cleared k)
            (remove_rows t now a c d rows found extra s)
    unfolding remove_rows
    remove_rows-apart k link charge count log e =
        OnOk-then _ _ (release_blob t now a found.blob_id cleared) _
          (release_blob-Keeps t a k link now found.blob_id cleared)
          λ s2 h2.
            OnOk-then _ _ (release_quota t a found.size s2) _
              (release_quota-Keeps found.size k s2 charge)
              λ s3 h3. OnOk-bind _ (read_counter (t.get s3 (change_counter_key a))) _ λ cur _.
                log-Keeps c (next cur) (delete_value c d found) extra k s3 count (log (next cur)) e
                ∙ h3
                ∙ h2

    -- Fields.
    pub remove_rows-field :
        (b c' d' f : ℕ)
        → Avoids (field_key b c' d' f) extra
        → OnOk
            (λ (_, s'). t.get s' (field_key b c' d' f) ≡ t.get cleared (field_key b c' d' f))
            (remove_rows t now a c d rows found extra s)
    remove_rows-field b c' d' f =
        let k = field b c' d' f in
        remove_rows-apart (encode k)
          (λ id. (apart (blob_link a id) k refl, apart (blob_gc id) k refl))
          (apart (quota a) k refl) (apart (counter a 2 []) k refl)
          (λ id. apart (change_log a c id) k refl)

    pub remove_rows-quota :
        Avoids (quota_key a) extra
        → OnOk
            (λ (_, s'). IsCharged found.size (t.get cleared (quota_key a)) (t.get s' (quota_key a)))
            (remove_rows t now a c d rows found extra s)
    unfolding remove_rows
    remove_rows-quota e =
        let k = quota_key a in
        let q = quota a in
        OnOk-then _ _ (release_blob t now a found.blob_id cleared) _
          (release_blob-Keeps t a k
            (λ id. (apart (blob_link a id) q refl, apart (blob_gc id) q refl)) now found.blob_id
            cleared)
          λ s2 h2.
            OnOk-then _ _ (release_quota t a found.size s2) _ (release_quota-quota found.size s2)
              λ s3 h3. OnOk-bind _ (read_counter (t.get s3 (change_counter_key a))) _ λ cur _.
                λ n held.
                  log-Keeps c (next cur) (delete_value c d found) extra k s3
                    (apart (counter a 2 []) q refl) (apart (change_log a c (next cur)) q refl) e
                  ∙ h3 n (ap quota_value h2 ∙ held)
                  ∙ ap (λ o. if found.size == 0 then o else some (be_uint64 (clamped n found.size)))
                      h2

  pub checked_rows-OnOk {κ} :
      (P : Unit {0} × t.State → Type κ) (now c d : ℕ) (require : Bytes) (extra : List Op)
      (s : t.State) (rows : List Entry)
      → OnOk P (remove_rows t now a c d rows (scan_fields nothing_scanned rows) extra s)
      → OnOk P (checked_rows t now a c d require extra s rows)
  checked_rows-OnOk P now c d require extra s [] h = tt
  checked_rows-OnOk P now c d require extra s (row ∷ rows) h =
      elim (lacks_flag t require (scan_fields nothing_scanned (row ∷ rows)).flags)
        as (λ b. OnOk P (
          if b
          then err not_marked_deleted
          else remove_rows t now a c d (row ∷ rows) (scan_fields nothing_scanned (row ∷ rows)) extra
              s)) [ true ↦ tt | false ↦ h ]
