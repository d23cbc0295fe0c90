-- ===== src/Store/Email/Removed.antt =====
-- What a removal that succeeds leaves on any engine with transactions (`DeleteEmailAtomically` of
-- `internal/store/store.go`).
use mailezine.Prelude.{
  ap₂, ◌&&◌, ℕ, ◌-◌, ◌^◌, ◌<◌, ◌≡◌, ◌∙◌, List, Option, none, some, arith, if◌then◌else◌, ◌==◌,
  Bool-cases, inl, inr, ap, sym, subst, Bool,
}
use mailezine.Bytes.{Bytes, has_prefix}
use mailezine.Store.Key.BigEndian.{be_value-be, length-be}
use mailezine.Store.Key.{quota_key, field_key, document_key}
use mailezine.Store.Kv.{Op}
use mailezine.Store.Txn.{Result, ok}
use mailezine.Store.Counters.{quota_value, be_uint64}
use mailezine.Store.Documents.{deletions}
use mailezine.Store.Email.{TxnKv}
use mailezine.Store.Key.Layout.{has_prefix-document_key}
use mailezine.Store.Email.Remove.{
  delete_email_txn, delete_email_atomically, nothing_scanned, scan_fields, clamped, remove_rows,
}
use mailezine.Store.View.{scan-begin, with_txn-OnOk, OnOk-map, Avoids}
use mailezine.Store.Email.Removal.{
  IsCharged, remove_rows-field, remove_rows-quota, checked_rows-OnOk, get-deletions, clamped_sub,
}

quota_value-be_uint64 : (n : ℕ) → n < 2 ^ 64 → quota_value (some (be_uint64 n)) ≡ ok n
unfolding quota_value
quota_value-be_uint64 n h = rw (length-be 8 n) (ap ok (be_value-be 8 n h))

quota_value-IsCharged :
    (size n : ℕ) (held held' : Option Bytes)
    → IsCharged size held held'
    → quota_value held ≡ ok n
    → n < 2 ^ 63
    → size < 2 ^ 63
    → quota_value held' ≡ ok (n - size)
unfolding quota_value
quota_value-IsCharged size n held held' c h hn hz =
    let of_test : Bool → Result ℕ =
      λ b. quota_value (if b then held else some (be_uint64 (clamped n size))) in
    ap quota_value (c n h) ∙ elim (Bool-cases (size == 0)) [
      | inl zero_size ↦ ap of_test zero_size ∙ h ∙ ap ok (ground (arith, zero_size))
      | inr some_size ↦
          ap of_test some_size
          ∙ ap (λ m. quota_value (some (be_uint64 m))) (clamped_sub n size hn hz)
          ∙ quota_value-be_uint64 (n - size) (omega arith)
    ]

module _ (db : TxnKv) where
  open db use {kv, ops, begin, commit}

  -- A removal that succeeds leaves no field of the document, and every field of any other
  -- document, of this account or another, as it was, provided that the caller's further operations
  -- are not on that field.
  pub delete_email_atomically-field :
      (now a c d : ℕ) (require : Bytes) (extra : List Op) (b c' d' f : ℕ) (s : kv.State)
      → a < 2 ^ 32
      → b < 2 ^ 32
      → d < 2 ^ 64
      → d' < 2 ^ 64
      → Avoids (field_key b c' d' f) extra
      → (delete_email_atomically db now a c d require extra s).0 ≡ ok tt
      → kv.get (delete_email_atomically db now a c d require extra s).1 (field_key b c' d' f)
        ≡ (if (a == b) && ((c == c') && (d == d')) then none else kv.get s (field_key b c' d' f))
  unfolding delete_email_atomically delete_email_txn
  delete_email_atomically-field now a c d require extra b c' d' f s ha hb hd hd' e =
      let k = field_key b c' d' f in
      let rows = ops.scan (begin s) (document_key a c d) in
      let goal = if (a == b) && ((c == c') && (d == d')) then none else kv.get s k in
      with_txn-OnOk db (delete_email_txn ops now a c d require extra) (λ t. ops.get t k ≡ goal)
        (λ s'. kv.get s' k ≡ goal) s tt
        (checked_rows-OnOk ops a (λ (_, t). ops.get t k ≡ goal) now c d require extra (begin s) rows
          (OnOk-map (λ (_, t). ops.get t k ≡ ops.get (ops.batch (begin s) (deletions rows)) k)
            (λ (_, t). ops.get t k ≡ goal)
            (remove_rows ops now a c d rows (scan_fields nothing_scanned rows) extra (begin s))
            (remove_rows-field ops a now c d rows (scan_fields nothing_scanned rows) extra (begin s)
              b c' d' f e)
            λ x h.
              h
              ∙ get-deletions ops (begin s) (document_key a c d) k
              ∙ ap₂ (λ (y : Bool) o. if y then none else o)
                  (has_prefix-document_key a b c c' d d' f ha hb hd hd') (db.get-begin s k)))
        λ t h. db.get-commit t k ∙ h

  -- A removal that succeeds takes the size of the message from the quota, which stops at zero,
  -- provided that the quota and the size are below 2^63 and that the caller's further operations
  -- are not on the quota.
  pub delete_email_atomically-quota :
      (now a c d : ℕ) (require : Bytes) (extra : List Op) (s : kv.State) (n : ℕ)
      → let size = (scan_fields nothing_scanned (kv.scan s (document_key a c d))).size in
        n < 2 ^ 63
        → size < 2 ^ 63
        → Avoids (quota_key a) extra
        → quota_value (kv.get s (quota_key a)) ≡ ok n
        → (delete_email_atomically db now a c d require extra s).0 ≡ ok tt
        → quota_value
            (kv.get (delete_email_atomically db now a c d require extra s).1 (quota_key a))
          ≡ ok (n - size)
  unfolding delete_email_atomically delete_email_txn has_prefix document_key quota_key
  delete_email_atomically-quota now a c d require extra s n hn hz e held =
      let k = quota_key a in
      let p = document_key a c d in
      let rows = ops.scan (begin s) p in
      let goal = ok (n - (scan_fields nothing_scanned (kv.scan s p)).size) in
      with_txn-OnOk db (delete_email_txn ops now a c d require extra)
        (λ t. quota_value (ops.get t k) ≡ goal) (λ s'. quota_value (kv.get s' k) ≡ goal) s tt
        (checked_rows-OnOk ops a (λ (_, t). quota_value (ops.get t k) ≡ goal) now c d require extra
          (begin s) rows
          (OnOk-map
            (λ (_, t).
              IsCharged (scan_fields nothing_scanned rows).size
                (ops.get (ops.batch (begin s) (deletions rows)) k) (ops.get t k))
            (λ (_, t). quota_value (ops.get t k) ≡ goal)
            (remove_rows ops now a c d rows (scan_fields nothing_scanned rows) extra (begin s))
            (remove_rows-quota ops a now c d rows (scan_fields nothing_scanned rows) extra (begin s)
              e)
            λ x h.
              quota_value-IsCharged (scan_fields nothing_scanned rows).size n
                (ops.get (ops.batch (begin s) (deletions rows)) k) (ops.get x.1 k) h
                (ap quota_value (get-deletions ops (begin s) p k ∙ db.get-begin s k) ∙ held) hn
                (subst (λ l. (scan_fields nothing_scanned l).size < 2 ^ 63)
                  (sym (scan-begin db s p)) hz)
              ∙ ap (λ l. ok (n - (scan_fields nothing_scanned l).size)) (scan-begin db s p)))
        λ t h. ap quota_value (db.get-commit t k) ∙ h
