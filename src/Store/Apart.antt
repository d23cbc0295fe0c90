-- ===== src/Store/Apart.antt =====
-- Operations that leave a key alone (`internal/store/key.go`): keys that differ in a part are two.
use mailezine.Prelude.{ℕ, ◌≡◌, refl, ◌∙◌, false, List, [], ◌∷◌, ◌++◌, arith, length, suc}
use mailezine.Bytes.{Bytes, bytes_eq, compare_bytes}
use mailezine.Store.Key.{field_key}
use mailezine.Store.Key.Typed.{StoreKey, encode, same_key, bytes_eq-encode}
use mailezine.Store.Kv.{Op}
use mailezine.Store.Documents.{Fields, ordered_field_ops}
use mailezine.Store.View.{Avoids}

pub apart : (k j : StoreKey) → same_key k j ≡ false → bytes_eq (encode k) (encode j) ≡ false
apart k j h = bytes_eq-encode k j ∙ h

pub Avoids-append : (k : Bytes) (a b : List Op) → Avoids k a → Avoids k b → Avoids k (a ++ b)
Avoids-append k [] b h g = g
Avoids-append k (op ∷ a) b h g = (h.0, Avoids-append k a b h.1 g)

pub ordered_field_ops-Avoids :
    (a c d : ℕ) (fields : Fields) (k : Bytes)
    → ((f : ℕ) → bytes_eq (field_key a c d f) k ≡ false)
    → Avoids k (ordered_field_ops a c d fields)
ordered_field_ops-Avoids a c d [] k h = tt
ordered_field_ops-Avoids a c d ((f, v) ∷ fields) k h =
    (h f, ordered_field_ops-Avoids a c d fields k h)

pub nonempty : (n : ℕ) (l : Bytes) → length l ≡ suc n → bytes_eq l [] ≡ false
unfolding compare_bytes
nonempty n [] h = absurd (omega arith)
nonempty n (b ∷ l) h = refl
