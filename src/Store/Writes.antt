-- ===== src/Store/Writes.antt =====
-- Lists of operations on the keys of `internal/store/key.go` taken as data: which one decides a key
-- follows from the parts of the keys alone.
use mailezine.Prelude.{
  ℕ, ◌≡◌, refl, ap, false, List, [], ◌∷◌, ◌++◌, Option, none, some, if◌then◌else◌,
}
use mailezine.Bytes.{Bytes}
use mailezine.Store.Key.Typed.{StoreKey, encode, same_key, bytes_eq-encode, field}
use mailezine.Store.Kv.{Op, put_op, delete_op, after_ops}
use mailezine.Store.Documents.{Fields, ordered_field_ops}

-- A key and what it holds from then on.
abbrev pub Write : Type 0
Write = StoreKey × Option Bytes

abbrev pub op_of_write : Write → Op
op_of_write (k, some v) = put_op (encode k) v
op_of_write (k, none) = delete_op (encode k)

abbrev pub encode_writes : List Write → List Op
encode_writes [] = []
encode_writes (w ∷ ws) = op_of_write w ∷ encode_writes ws

-- What a key holds after the writes.
unfoldable pub after : List Write → StoreKey → Option Bytes → Option Bytes
after [] k held = held
after ((j, v) ∷ ws) k held = after ws k (if same_key j k then v else held)

pub after_ops-encode_writes :
    (ws : List Write) (k : StoreKey) (held : Option Bytes)
    → after_ops (encode_writes ws) (encode k) held ≡ after ws k held
unfolding after_ops after
after_ops-encode_writes [] k held = refl
after_ops-encode_writes ((j, some v) ∷ ws) k held =
    rw (bytes_eq-encode j k, after_ops) (after_ops-encode_writes ws k _)
after_ops-encode_writes ((j, none) ∷ ws) k held =
    rw (bytes_eq-encode j k, after_ops) (after_ops-encode_writes ws k _)

pub encode_writes-append :
    (a b : List Write) → encode_writes (a ++ b) ≡ encode_writes a ++ encode_writes b
encode_writes-append [] b = refl
encode_writes-append (w ∷ a) b = ap (◌∷◌ (op_of_write w)) (encode_writes-append a b)

pub after-append :
    (a b : List Write) (k : StoreKey) (held : Option Bytes)
    → after (a ++ b) k held ≡ after b k (after a k held)
unfolding after
after-append [] b k held = refl
after-append ((j, v) ∷ a) b k held = after-append a b k _

-- The fields of one document.
abbrev pub field_writes : ℕ → ℕ → ℕ → Fields → List Write
field_writes a c d [] = []
field_writes a c d ((f, v) ∷ fields) = (field a c d f, some v) ∷ field_writes a c d fields

pub encode_writes-field_writes :
    (a c d : ℕ) (fields : Fields)
    → encode_writes (field_writes a c d fields) ≡ ordered_field_ops a c d fields
encode_writes-field_writes a c d [] = refl
encode_writes-field_writes a c d ((f, v) ∷ fields) =
    ap (◌∷◌ (put_op (encode (field a c d f)) v)) (encode_writes-field_writes a c d fields)

-- A key that is no field of the document keeps what it holds.
pub after-field_writes_apart :
    (a c d : ℕ) (fields : Fields) (k : StoreKey) (held : Option Bytes)
    → ((f : ℕ) → same_key (field a c d f) k ≡ false)
    → after (field_writes a c d fields) k held ≡ held
unfolding after
after-field_writes_apart a c d [] k held h = refl
after-field_writes_apart a c d ((f, v) ∷ fields) k held h =
    rw (h f, after) (after-field_writes_apart a c d fields k held h)
