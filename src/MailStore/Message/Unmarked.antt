-- ===== src/MailStore/Message/Unmarked.antt =====
-- A removal that asks for a mark (`DeleteEmailAtomically` of `internal/store/store.go`, as
-- `deleteEmail` of `internal/mailstore/kv_mailbox.go` calls it) and another document, or one that is
-- not marked.
use mathlib.Core.List.{append_assoc}
use mailezine.Prelude.{
  ==_iff, ℕ, ◌%◌, ◌^◌, ◌≡◌, refl, ◌∙◌, sym, ap, Bool, true, false, List, [], ◌∷◌, ◌++◌, none,
  if◌then◌else◌, arith,
}
use mailezine.Bytes.{Bytes, has_prefix, compare_bytes, has_prefix-append}
use mailezine.Store.Key.BigEndian.{be, be8_mod, has_prefix-be_end}
use mailezine.Store.Key.{
  document_key, blob_link_key, meta_blob_gc_key, quota_key, counter_key, change_log_key,
}
use mailezine.Store.Key.Typed.{same64}
use mailezine.Store.Kv.{Kv, Entry, Op}
use mailezine.Store.Txn.{TxnKv}
use mailezine.Store.View.{OnOk, OnOk-map, Avoids, scan-begin}
use mailezine.Store.Email.Remove.{
  checked_rows, delete_email_atomically, delete_email_txn, has_list_token, lacks_flag,
  nothing_scanned, remove_rows, scan_fields,
}
use mailezine.Store.Email.Removal.{checked_rows-OnOk, get-deletions, remove_rows-apart}
use mailezine.MailStore.Calls.Keeps.{with_txn-keeps}
use mailezine.MailStore.Flags.{flag_deleted}

pub document_key-same : (a c t d : ℕ) → same64 t d ≡ true → document_key a c t ≡ document_key a c d
unfolding document_key
document_key-same a c t d h =
    ap (λ l. b'd' ∷ ((be 4 a ++ c ∷ []) ++ l))
      (sym (be8_mod t) ∙ ap (be 8) ((==_iff (t % 2 ^ 64) (d % 2 ^ 64)).0 h) ∙ be8_mod d)

pub under_number : (t d : ℕ) (r : Bytes) → has_prefix (be 8 t) (be 8 d ++ r) ≡ same64 t d
under_number t d r =
    ap (λ l. has_prefix l (be 8 d ++ r)) (sym (be8_mod t))
    ∙ ap (λ l. has_prefix (be 8 (t % 2 ^ 64)) (l ++ r)) (sym (be8_mod d))
    ∙ has_prefix-be_end 8 (t % 2 ^ 64) (d % 2 ^ 64) r (omega arith) (omega arith)

pub document_key-other :
    (a c t d : ℕ) (r : Bytes)
    → has_prefix (document_key a c t) (document_key a c d ++ r) ≡ same64 t d
unfolding document_key
document_key-other a c t d r =
    ap (has_prefix (document_key a c t)) (append_assoc (b'd' ∷ (be 4 a ++ c ∷ [])) (be 8 d) r)
    ∙ has_prefix-append (b'd' ∷ (be 4 a ++ c ∷ [])) (be 8 t) (be 8 d ++ r)
    ∙ under_number t d r

module _ (db : TxnKv) (a d : ℕ) (r : Bytes) where
  open db use {kv, ops, begin, commit}

  abbrev pub k : Bytes
  k = document_key a 2 d ++ r

  -- The removal of another document keeps the rows of this one.
  pub removal_of_other :
      (now t : ℕ) (require : Bytes) (extra : List Op) (s : kv.State)
      → same64 t d ≡ false
      → Avoids k extra
      → kv.get (delete_email_atomically db now a 2 t require extra s).1 k ≡ kv.get s k
  unfolding delete_email_atomically delete_email_txn document_key blob_link_key meta_blob_gc_key
      quota_key counter_key change_log_key compare_bytes
  removal_of_other now t require extra s h e =
      let rows = ops.scan (begin s) (document_key a 2 t) in
      with_txn-keeps db (delete_email_txn ops now a 2 t require extra) s k (
        checked_rows-OnOk ops a (λ (_, t'). ops.get t' k ≡ ops.get (begin s) k) now 2 t require
          extra (begin s) rows
          (OnOk-map _ (λ (_, t'). ops.get t' k ≡ ops.get (begin s) k)
            (remove_rows ops now a 2 t rows (scan_fields nothing_scanned rows) extra (begin s))
            (remove_rows-apart ops a now 2 t rows (scan_fields nothing_scanned rows) extra (begin s)
              k (λ id. (refl, refl)) refl refl (λ id. refl) e)
            λ x held.
              held
              ∙ get-deletions ops (begin s) (document_key a 2 t) k
              ∙ ap (λ (b : Bool). if b then none else ops.get (begin s) k)
                  (document_key-other a 2 t d r ∙ h)))

-- The flags of a document lack `\Deleted`.
abbrev pub Unmarked : (kv : Kv) → ℕ → ℕ → kv.State → Type 0
Unmarked kv a d s =
    has_list_token (scan_fields nothing_scanned (kv.scan s (document_key a 2 d))).flags flag_deleted
    ≡ false

module _ (db : TxnKv) (a d : ℕ) where
  open db use {kv, ops, begin, commit}

  pub checked_unmarked :
      (now t : ℕ) (extra : List Op) (s : ops.State) (rows : List Entry)
      → has_list_token (scan_fields nothing_scanned rows).flags flag_deleted ≡ false
      → OnOk (λ _. ⊥) (checked_rows ops now a 2 t flag_deleted extra s rows)
  unfolding lacks_flag compare_bytes
  checked_unmarked now t extra s [] h = tt
  checked_unmarked now t extra s (row ∷ rows) h = rw h tt

  -- The removal of the document itself is refused.
  pub removal_refused :
      (now t : ℕ) (extra : List Op) (s : kv.State) (k : Bytes)
      → same64 t d ≡ true
      → Unmarked kv a d s
      → kv.get (delete_email_atomically db now a 2 t flag_deleted extra s).1 k ≡ kv.get s k
  unfolding delete_email_atomically delete_email_txn
  removal_refused now t extra s k h u =
      let rows = ops.scan (begin s) (document_key a 2 t) in
      let same : rows ≡ kv.scan s (document_key a 2 d) =
        scan-begin db s (document_key a 2 t) ∙ ap (kv.scan s) (document_key-same a 2 t d h) in
      with_txn-keeps db (delete_email_txn ops now a 2 t flag_deleted extra) s k (
        OnOk-map _ _ (checked_rows ops now a 2 t flag_deleted extra (begin s) rows)
          (checked_unmarked now t extra (begin s) rows
            (ap (λ l. has_list_token (scan_fields nothing_scanned l).flags flag_deleted) same ∙ u))
          λ x e. absurd e)
