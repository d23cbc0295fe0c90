-- ===== src/Store/Kv.antt =====
-- `internal/store/kv.go`: one mutation, and the contract of an ordered key-value engine. A client
-- of a `Kv` sees its operations and laws; `Store.MemKv` fills them for the in-memory engine.
use mailezine.Prelude.{◌≡◌, Bool, true, List, [], ◌∷◌, Option, none, some, if◌then◌else◌}
use mailezine.Bytes.{Bytes, bytes_eq, has_prefix}
use mailezine.Bytes.Assoc
use mailezine.Bytes.Assoc.{IsSorted}

pub record Op : Type 0 where
  pub key : Bytes
  pub value : Bytes
  pub delete : Bool

abbrev pub Entry : Type 0
Entry = Bytes × Bytes

abbrev pub put_op : Bytes → Bytes → Op
put_op k v = record { key = k; value = v; delete = Bool.false }

abbrev pub delete_op : Bytes → Op
delete_op k = record { key = k; value = []; delete = true }

-- What a key holds after one mutation.
abbrev pub after_op : Op → Bytes → Option Bytes → Option Bytes
after_op op k held = if bytes_eq op.key k then (if op.delete then none else some op.value) else held

-- What a key holds after a sequence of mutations: the last one that names the key decides.
unfoldable pub after_ops : List Op → Bytes → Option Bytes → Option Bytes
after_ops [] k held = held
after_ops (op ∷ ops) k held = after_ops ops k (after_op op k held)

pub record Kv : Type 1 where
  pub State : Type 0
  pub get : State → Bytes → Option Bytes
  pub scan : State → Bytes → List Entry
  pub batch : State → List Op → State
  pub get-batch :
      (s : State) (ops : List Op) (k : Bytes) → get (batch s ops) k ≡ after_ops ops k (get s k)
  pub scan-IsSorted : (s : State) (p : Bytes) → IsSorted (scan s p)
  pub get-scan :
      (s : State) (p k : Bytes)
      → Assoc.get k (scan s p) ≡ (if has_prefix p k then get s k else none)
