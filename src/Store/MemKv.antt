-- ===== src/Store/MemKv.antt =====
-- `internal/store/memkv.go`: the in-memory engine over a Go map, and its own transactions.
pub mod Txn
use mailezine.Prelude.{
  ℕ, ◌≡◌, refl, ap, ◌∙◌, Bool, true, false, List, [], ◌∷◌, ◌++◌, Option, none, some, if◌then◌else◌,
  length, arith, not, ◌&&◌,
}
use mailezine.Bytes.{Bytes, bytes_eq, bytes_lt, has_prefix}
use mailezine.Bytes.Assoc
use mailezine.Bytes.Assoc.{IsSorted}
use mailezine.Store.Kv.{Op, Entry, Kv, after_op, after_ops}
use mailezine.Store.WriteBuf.{Result, ok, err, op_at, set_op}

-- `k.m`
abbrev pub MemoryKv : Type 0
MemoryKv = List Entry

unfoldable pub get : MemoryKv → Bytes → Option Bytes
get m k = Assoc.get k m

unfoldable pub put : MemoryKv → Bytes → Bytes → MemoryKv
put m k v = Assoc.put k v m

unfoldable pub delete : MemoryKv → Bytes → MemoryKv
delete m k = Assoc.delete k m

unfoldable pub scan : MemoryKv → Bytes → List Entry
scan m prefix = Assoc.sort_by_key (Assoc.filter_keys (has_prefix prefix) m)

-- The guard of `ScanRange`: `start ≤ key`, and `key < end` where an end is given.
unfoldable pub in_range : Bytes → Option Bytes → Bytes → Bool
in_range start none k = not (bytes_lt k start)
in_range start (some end) k = not (bytes_lt k start) && bytes_lt k end

unfoldable pub scan_range : MemoryKv → Bytes → Option Bytes → List Entry
scan_range m start end = Assoc.sort_by_key (Assoc.filter_keys (in_range start end) m)

-- One round of the loop of `Batch`.
unfoldable pub apply : MemoryKv → Op → MemoryKv
apply m op = if op.delete then Assoc.delete op.key m else Assoc.put op.key op.value m

unfoldable pub batch : MemoryKv → List Op → MemoryKv
unfolding apply
batch m [] = m
batch m (op ∷ ops) = batch (apply m op) ops

get-apply : (m : MemoryKv) (op : Op) (k : Bytes) → get (apply m op) k ≡ after_op op k (get m k)
unfolding get apply
get-apply m op k = ground (arith, Assoc.get-delete op.key k m, Assoc.get-put op.key k op.value m)

-- A batch acts on every key as its last operation on it.
pub get-batch :
    (m : MemoryKv) (ops : List Op) (k : Bytes) → get (batch m ops) k ≡ after_ops ops k (get m k)
unfolding batch after_ops
get-batch m [] k = refl
get-batch m (op ∷ ops) k = get-batch (apply m op) ops k ∙ ap (after_ops ops k) (get-apply m op k)

-- A range scan visits, in ascending order, exactly the keys of the range with their values.
pub scan_range-exact :
    (m : MemoryKv) (start : Bytes) (end : Option Bytes)
    → IsSorted (scan_range m start end)
      × ((k : Bytes)
          → Assoc.get k (scan_range m start end) ≡ (if in_range start end k then get m k else none))
unfolding scan_range get
scan_range-exact m start end = (
  Assoc.sort_by_key-IsSorted _,
  λ k. Assoc.get-sort_by_key k _ ∙ Assoc.get-filter_keys (in_range start end) k m,
)

pub scan-IsSorted : (m : MemoryKv) (p : Bytes) → IsSorted (scan m p)
unfolding scan
scan-IsSorted m p = Assoc.sort_by_key-IsSorted _

pub get-scan :
    (m : MemoryKv) (p k : Bytes)
    → Assoc.get k (scan m p) ≡ (if has_prefix p k then get m k else none)
unfolding scan get
get-scan m p k = Assoc.get-sort_by_key k _ ∙ Assoc.get-filter_keys (has_prefix p) k m

-- The in-memory engine meets the contract.
abbrev pub mem_kv : Kv
mem_kv = record {
  State = MemoryKv;
  get = get;
  scan = scan;
  batch = batch;
  get-batch = get-batch;
  scan-IsSorted = scan-IsSorted;
  get-scan = get-scan;
}
