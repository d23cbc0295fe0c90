-- ===== src/Store/Range.antt =====
-- `ScanRange` of an engine (`internal/store/kv.go`), and what reads by it: the changes after a cursor
-- (`internal/store/log.go`) and a run of documents (`internal/store/doc.go`).
pub mod Cursor
use mailezine.Prelude.{
  ℕ, ◌+◌, ◌^◌, ◌≡◌, Bool, List, [], ◌∷◌, Option, none, some, if◌then◌else◌, length, ltb, ◌==◌, ◌-◌,
}
use mailezine.Prelude.NatMap
use mailezine.Bytes.{Bytes}
use mailezine.Bytes.Assoc
use mailezine.Bytes.Assoc.{IsSorted}
use mailezine.Store.Key.{
  change_id_from_log_key, change_log_key, change_log_prefix, collection_key,
  document_id_from_field_key, document_key, field_meta,
}
use mailezine.Store.Kv.{Kv, Entry}
use mailezine.Store.MemKv.{in_range, scan_range, mem_kv, scan_range-exact}
use mailezine.Store.PrefixEnd.{prefix_end}
use mailezine.Store.Txn.{Result, ok, err, corrupt}
use mailezine.Store.Counters.{next}
use mailezine.Store.ChangeLog.{Change, decode_change}
use mailezine.Store.Documents.{Fields, last_byte}

-- An engine with range scans; an absent end is open.
pub record RangeKv : Type 1 where
  pub kv : Kv
  pub scan_range : kv.State → Bytes → Option Bytes → List Entry
  pub scan_range-IsSorted :
      (s : kv.State) (start : Bytes) (end : Option Bytes) → IsSorted (scan_range s start end)
  pub get-scan_range :
      (s : kv.State) (start : Bytes) (end : Option Bytes) (k : Bytes)
      → Assoc.get k (scan_range s start end) ≡ (if in_range start end k then kv.get s k else none)

abbrev pub mem_range : RangeKv
mem_range = record {
  kv = mem_kv;
  scan_range = scan_range;
  scan_range-IsSorted = λ s start end. (scan_range-exact s start end).0;
  get-scan_range = λ s start end. (scan_range-exact s start end).1;
}

-- A change with its number.
abbrev pub Logged : Type 0
Logged = ℕ × Change

abbrev pub cons_change : ℕ → Option Change → List Logged → List Logged
cons_change id none rest = rest
cons_change id (some ch) rest = (id, ch) ∷ rest

-- The callback of `ChangesSince` on each row.
unfoldable pub collect_changes : List Entry → List Logged
unfolding decode_change change_id_from_log_key
collect_changes [] = []
collect_changes ((k, v) ∷ rows) =
    cons_change (change_id_from_log_key k) (decode_change v) (collect_changes rows)

-- The callback of `ScanDocumentRange`: the documents that are complete, the open one last. A
-- document without the meta field is passed over.
abbrev pub flush : ℕ → Fields → List (ℕ × Fields) → List (ℕ × Fields)
flush id fields rest = elim (NatMap.get field_meta fields) [
  | none ↦ rest
  | some _ ↦ (id, fields) ∷ rest
]

abbrev pub flush_open : Option (ℕ × Fields) → List (ℕ × Fields) → List (ℕ × Fields)
flush_open none rest = rest
flush_open (some (id, fields)) rest = flush id fields rest

abbrev pub is_open_at : Option (ℕ × Fields) → ℕ → Bool
is_open_at none id = Bool.false
is_open_at (some (cur, _)) id = cur == id

abbrev pub open_fields : Option (ℕ × Fields) → Fields
open_fields none = []
open_fields (some (_, fields)) = fields

unfoldable pub collect_documents :
    Option (ℕ × Fields) → List Entry → List (ℕ × Fields) × Result (Unit {0})
unfolding NatMap.get NatMap.put document_id_from_field_key
collect_documents cur [] = (flush_open cur [], ok tt)
collect_documents cur ((k, v) ∷ rows) = elim (ltb (length k) 15) [
  | Bool.true ↦ ([], err corrupt)
  | Bool.false ↦
      let id = document_id_from_field_key k in
      (elim (is_open_at cur id) [
        | Bool.true ↦
            collect_documents (some (id, NatMap.put (last_byte k) v (open_fields cur))) rows
        | Bool.false ↦
            let (rest, r) = collect_documents (some (id, (last_byte k, v) ∷ [])) rows in
            (flush_open cur rest, r)
      ])
]

module _ (db : RangeKv) where
  open db use {kv}

  -- `ChangesSince`
  unfoldable pub changes_since : ℕ → ℕ → ℕ → kv.State → List Logged
  unfolding collect_changes prefix_end
  changes_since account_id collection after s = collect_changes (
      db.scan_range s (change_log_key account_id collection (next after))
        (prefix_end (change_log_prefix account_id collection)))

  abbrev pub document_range_end : ℕ → ℕ → ℕ → Option Bytes
  document_range_end account_id collection end =
      if end == 2 ^ 64 - 1
      then prefix_end (collection_key account_id collection)
      else some (document_key account_id collection (end + 1))

  -- `ScanDocumentRange` with a callback that never fails: the documents that it visits.
  unfoldable pub scan_document_range :
      ℕ → ℕ → ℕ → ℕ → kv.State → List (ℕ × Fields) × Result (Unit {0})
  unfolding collect_documents prefix_end
  scan_document_range account_id collection start end s =
      if ltb end start
      then ([], ok tt)
      else collect_documents none (
          db.scan_range s (document_key account_id collection start)
            (document_range_end account_id collection end))
