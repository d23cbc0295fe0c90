-- ===== src/Store/WriteBuf/Staging.antt =====
-- The list of staged operations of `internal/store/txn.go`: the first operation on a key, and what
-- replacing or appending one changes.
use mailezine.Prelude.{
  ℕ, zero, suc, ◌≡◌, refl, false, Bool-cases, List, [], ◌∷◌, ◌++◌, Option, none, some,
  if◌then◌else◌, length, arith, inl, inr,
}
use mathlib.Core.Option
use mailezine.Bytes.{Bytes, bytes_eq, has_prefix, bytes_eq_iff}
use mailezine.Store.Kv.{Op, after_op, after_ops}
use mailezine.Bytes.Assoc
use mailezine.Store.WriteBuf.{op_at, set_op, is_staged, staged_puts}

-- The position of the first operation on a key.
unfoldable pub find_op : Bytes → List Op → Option ℕ
find_op k [] = none
find_op k (op ∷ ops) = if bytes_eq op.key k then some 0 else Option.map suc (find_op k ops)

-- What a key holds in the engine after the operations, when no key is named twice: its own
-- operation decides.
unfoldable pub op_of : Bytes → List Op → Option Op
op_of k [] = none
op_of k (op ∷ ops) = if bytes_eq op.key k then some op else op_of k ops

-- No key is named twice.
abbrev pub IsCollapsed : List Op → Type 0
IsCollapsed [] = Unit
IsCollapsed (op ∷ ops) = (op_of op.key ops ≡ none) × IsCollapsed ops

abbrev pub held_by : Option Op → Option Bytes → Option Bytes
held_by none held = held
held_by (some op) held = if op.delete then none else some op.value

after_ops_absent :
    (ops : List Op) (k : Bytes) (held : Option Bytes)
    → op_of k ops ≡ none
    → after_ops ops k held ≡ held
unfolding after_ops op_of
after_ops_absent [] k held h = refl
after_ops_absent (op ∷ ops) k held h = ground (arith, after_ops_absent ops k held)

pub after_ops_collapsed :
    (ops : List Op) (k : Bytes) (held : Option Bytes)
    → IsCollapsed ops
    → after_ops ops k held ≡ held_by (op_of k ops) held
unfolding after_ops op_of
after_ops_collapsed [] k held c = refl
after_ops_collapsed (op ∷ ops) k held c = ground (
  arith,
  bytes_eq_iff op.key k,
  after_ops_collapsed ops k held c.1,
  after_ops_absent ops k none,
  after_ops_absent ops k (some op.value),
)

pub after_ops-append :
    (ops : List Op) (op : Op) (k : Bytes) (held : Option Bytes)
    → after_ops (ops ++ op ∷ []) k held ≡ after_op op k (after_ops ops k held)
unfolding after_ops
after_ops-append [] op k held = refl
after_ops-append (o ∷ ops) op k held = after_ops-append ops op k (after_op o k held)

pub op_of_absent : (k : Bytes) (ops : List Op) → find_op k ops ≡ none → op_of k ops ≡ none
unfolding find_op op_of
op_of_absent k [] h = refl
op_of_absent k (op ∷ ops) h = ground (arith, op_of_absent k ops)

pub op_at-find_op :
    (k : Bytes) (ops : List Op) (i : ℕ) → find_op k ops ≡ some i → op_at ops i ≡ op_of k ops
unfolding find_op op_of
op_at-find_op k [] i h = cc
op_at-find_op k (op ∷ ops) zero h = ground (arith, op_at-find_op k ops zero)
op_at-find_op k (op ∷ ops) (suc i) h = ground (arith, op_at-find_op k ops i)

pub find_op-set_op :
    (op : Op) (j : Bytes) (ops : List Op) (i : ℕ)
    → find_op op.key ops ≡ some i
    → find_op j (set_op ops i op) ≡ find_op j ops
unfolding find_op
find_op-set_op op j [] i h = refl
find_op-set_op op j (o ∷ ops) zero h = ground (arith, bytes_eq_iff o.key op.key)
find_op-set_op op j (o ∷ ops) (suc i) h = ground (arith, find_op-set_op op j ops i)

pub op_of-set_op :
    (op : Op) (j : Bytes) (ops : List Op) (i : ℕ)
    → find_op op.key ops ≡ some i
    → op_of j (set_op ops i op) ≡ (if bytes_eq op.key j then some op else op_of j ops)
unfolding find_op op_of
op_of-set_op op j [] i h = cc
op_of-set_op op j (o ∷ ops) zero h = ground (arith, bytes_eq_iff o.key op.key)
op_of-set_op op j (o ∷ ops) (suc i) h = ground (
  arith,
  op_of-set_op op j ops i,
  bytes_eq_iff o.key j,
  bytes_eq_iff op.key j,
  bytes_eq_iff o.key op.key,
)

pub set_op-IsCollapsed :
    (op : Op) (ops : List Op) (i : ℕ)
    → find_op op.key ops ≡ some i
    → IsCollapsed ops
    → IsCollapsed (set_op ops i op)
unfolding find_op op_of
set_op-IsCollapsed op [] i h c = tt
set_op-IsCollapsed op (o ∷ ops) zero h c = ground (arith, bytes_eq_iff o.key op.key)
set_op-IsCollapsed op (o ∷ ops) (suc i) h c = ground (
  arith,
  op_of-set_op op o.key ops i,
  set_op-IsCollapsed op ops i,
  bytes_eq_iff op.key o.key,
  bytes_eq_iff o.key op.key,
  c,
)

pub find_op-append :
    (op : Op) (j : Bytes) (ops : List Op)
    → find_op op.key ops ≡ none
    → find_op j (ops ++ op ∷ []) ≡ (if bytes_eq op.key j then some (length ops) else find_op j ops)
unfolding find_op
find_op-append op j [] h = refl
find_op-append op j (o ∷ ops) h = ground (
  arith,
  find_op-append op j ops,
  bytes_eq_iff o.key op.key,
  bytes_eq_iff o.key j,
  bytes_eq_iff op.key j,
)

pub op_of-append :
    (op : Op) (j : Bytes) (ops : List Op)
    → find_op op.key ops ≡ none
    → op_of j (ops ++ op ∷ []) ≡ (if bytes_eq op.key j then some op else op_of j ops)
unfolding find_op op_of
op_of-append op j [] h = refl
op_of-append op j (o ∷ ops) h = ground (
  arith,
  op_of-append op j ops,
  bytes_eq_iff o.key op.key,
  bytes_eq_iff o.key j,
  bytes_eq_iff op.key j,
)

pub append-IsCollapsed :
    (op : Op) (ops : List Op)
    → find_op op.key ops ≡ none
    → IsCollapsed ops
    → IsCollapsed (ops ++ op ∷ [])
unfolding find_op op_of
append-IsCollapsed op [] h c = (refl, tt)
append-IsCollapsed op (o ∷ ops) h c = ground (
  arith,
  append-IsCollapsed op ops,
  op_of-append op o.key ops,
  bytes_eq_iff o.key op.key,
  bytes_eq_iff op.key o.key,
  c,
)

pub op_of_present :
    (k : Bytes) (ops : List Op) (i : ℕ)
    → find_op k ops ≡ some i
    → (op : Op) × (op_of k ops ≡ some op)
unfolding find_op op_of
op_of_present k [] i h = absurd (cc)
op_of_present k (op ∷ ops) zero h = elim (Bool-cases (bytes_eq op.key k)) [
  | inl e ↦ (op, rw e)
  | inr e ↦ let (o, f) = op_of_present k ops zero (ground arith) in (o, rw e f)
]
op_of_present k (op ∷ ops) (suc i) h = elim (Bool-cases (bytes_eq op.key k)) [
  | inl e ↦ (op, rw e)
  | inr e ↦ let (o, f) = op_of_present k ops i (ground arith) in (o, rw e f)
]

pub is_staged_absent :
    (p k : Bytes) (ops : List Op) → op_of k ops ≡ none → is_staged p ops k ≡ false
unfolding is_staged op_of
is_staged_absent p k [] h = refl
is_staged_absent p k (op ∷ ops) h = ground (arith, is_staged_absent p k ops)

is_staged_outside :
    (p k : Bytes) (ops : List Op) → has_prefix p k ≡ false → is_staged p ops k ≡ false
unfolding is_staged
is_staged_outside p k [] h = refl
is_staged_outside p k (op ∷ ops) h =
    ground (arith, is_staged_outside p k ops h, bytes_eq_iff op.key k)

pub is_staged_present :
    (p k : Bytes) (ops : List Op) (op : Op)
    → op_of k ops ≡ some op
    → is_staged p ops k ≡ has_prefix p k
unfolding is_staged op_of
is_staged_present p k [] op h = cc
is_staged_present p k (o ∷ ops) op h =
    ground (arith, is_staged_present p k ops op, bytes_eq_iff o.key k, is_staged_outside p k ops)

-- What `Scan` collects of the buffer under its prefix.
pub get-staged_puts :
    (p k : Bytes) (ops : List Op)
    → IsCollapsed ops
    → Assoc.get k (staged_puts p ops)
      ≡ (if has_prefix p k then held_by (op_of k ops) none else none)
unfolding staged_puts op_of Assoc.get
get-staged_puts p k [] c = ground arith
get-staged_puts p k (op ∷ ops) c =
    ground (arith, get-staged_puts p k ops c.1, bytes_eq_iff op.key k, c)
