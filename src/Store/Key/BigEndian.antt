-- ===== src/Store/Key/BigEndian.antt =====
-- Big-endian numbers of a fixed width (Go's `encoding/binary`), their order and their value.
use mailezine.Prelude.{
  ℕ, zero, suc, ◌+◌, ◌*◌, ◌/◌, ◌%◌, ◌^◌, ◌<◌, ◌≡◌, refl, ◌∙◌, [], ◌∷◌, ◌++◌, arith, length,
  length-append, ◌==◌, if◌then◌else◌, sym, false,
}
use Prim.Native.Nat.{compare, Ordering}
use mathlib.Core.List.{append-nil}
use native.Mathlib.Nat.{pow-suc}
use mailezine.Bytes.{Bytes, compare_bytes, bytes_eq, has_prefix}

-- The low `n` bytes of `x`, the highest first.
unfoldable pub be : ℕ → ℕ → Bytes
be zero x = []
be (suc n) x = be n (x / 256) ++ x % 256 ∷ []

-- The number that bytes stand for, after those that have given `acc`.
unfoldable pub be_value : ℕ → Bytes → ℕ
be_value acc [] = acc
be_value acc (b ∷ bs) = be_value (acc * 256 + b) bs

pub length-be : (n x : ℕ) → length (be n x) ≡ n
unfolding be
length-be zero x = refl
length-be (suc n) x =
    omega (arith, length-be n (x / 256), length-append (be n (x / 256)) (x % 256 ∷ []))

be_value-snoc : (acc b : ℕ) (bs : Bytes) → be_value acc (bs ++ b ∷ []) ≡ be_value acc bs * 256 + b
unfolding be_value
be_value-snoc acc b [] = refl
be_value-snoc acc b (c ∷ bs) = be_value-snoc (acc * 256 + c) b bs

div_lt_pow : (n x : ℕ) → x < 256 ^ suc n → x / 256 < 256 ^ n
div_lt_pow n x h = omega (arith, pow-suc 256 n)

-- Decoding gives back every number of the width.
pub be_value-be : (n x : ℕ) → x < 256 ^ n → be_value 0 (be n x) ≡ x
unfolding be be_value
be_value-be zero x h = omega arith
be_value-be (suc n) x h =
    be_value-snoc 0 (x % 256) (be n (x / 256))
    ∙ omega (arith, be_value-be n (x / 256) (div_lt_pow n x h))

-- Sequences of one length compare by their first parts, and then by the rest.
compare_bytes-append_same :
    (a b c d : Bytes)
    → length a ≡ length b
    → compare_bytes (a ++ c) (b ++ d) ≡ elim (compare_bytes a b) [
      | Ordering.lt ↦ Ordering.lt
      | Ordering.gt ↦ Ordering.gt
      | Ordering.eq ↦ compare_bytes c d
    ]
unfolding compare_bytes
compare_bytes-append_same [] [] c d h = refl
compare_bytes-append_same [] (y ∷ b) c d h = absurd (omega arith)
compare_bytes-append_same (x ∷ a) [] c d h = absurd (omega arith)
compare_bytes-append_same (x ∷ a) (y ∷ b) c d h =
    ground (arith, compare_bytes-append_same a b c d (omega arith))

compare_digits :
    (x y : ℕ)
    → elim (compare (x / 256) (y / 256)) [
      | Ordering.lt ↦ Ordering.lt
      | Ordering.gt ↦ Ordering.gt
      | Ordering.eq ↦ compare (x % 256) (y % 256)
    ]
      ≡ compare x y
compare_digits x y = ground arith

-- Numbers of the width compare as their bytes do.
pub compare_bytes-be :
    (n x y : ℕ) → x < 256 ^ n → y < 256 ^ n → compare_bytes (be n x) (be n y) ≡ compare x y
unfolding be
compare_bytes-be zero x y h k = unfold compare_bytes in ground arith
compare_bytes-be (suc n) x y h k =
    compare_bytes-append_same (be n (x / 256)) (be n (y / 256)) (x % 256 ∷ []) (y % 256 ∷ [])
      (length-be n (x / 256) ∙ sym (length-be n (y / 256)))
    ∙ rw (compare_bytes-be n (x / 256) (y / 256) (div_lt_pow n x h) (div_lt_pow n y k))
        (unfold compare_bytes in ground (arith, compare_digits x y))

-- With more bytes behind, the rest decides between equal numbers only.
pub compare_bytes-be_append :
    (n x y : ℕ) (c d : Bytes)
    → x < 256 ^ n
    → y < 256 ^ n
    → compare_bytes (be n x ++ c) (be n y ++ d) ≡ elim (compare x y) [
      | Ordering.lt ↦ Ordering.lt
      | Ordering.gt ↦ Ordering.gt
      | Ordering.eq ↦ compare_bytes c d
    ]
compare_bytes-be_append n x y c d h k =
    compare_bytes-append_same (be n x) (be n y) c d (length-be n x ∙ sym (length-be n y))
    ∙ rw (compare_bytes-be n x y h k)

has_prefix-append_same :
    (a b c d : Bytes)
    → length a ≡ length b
    → has_prefix (a ++ c) (b ++ d) ≡ (if bytes_eq a b then has_prefix c d else false)
unfolding has_prefix compare_bytes
has_prefix-append_same [] [] c d h = refl
has_prefix-append_same [] (y ∷ b) c d h = absurd (omega arith)
has_prefix-append_same (x ∷ a) [] c d h = absurd (omega arith)
has_prefix-append_same (x ∷ a) (y ∷ b) c d h =
    ground (arith, has_prefix-append_same a b c d (omega arith))

-- A key that carries a number lies under a prefix that carries one if the numbers agree and the
-- rest of the key lies under the rest of the prefix.
pub has_prefix-be :
    (n x y : ℕ) (c d : Bytes)
    → x < 256 ^ n
    → y < 256 ^ n
    → has_prefix (be n x ++ c) (be n y ++ d) ≡ (if x == y then has_prefix c d else false)
has_prefix-be n x y c d h k =
    has_prefix-append_same (be n x) (be n y) c d (length-be n x ∙ sym (length-be n y))
    ∙ ground (arith, compare_bytes-be n x y h k)

pub has_prefix-be_end :
    (n x y : ℕ) (d : Bytes)
    → x < 256 ^ n
    → y < 256 ^ n
    → has_prefix (be n x) (be n y ++ d) ≡ (x == y)
unfolding has_prefix
has_prefix-be_end n x y d h k =
    rw (← append-nil (be n x)) (has_prefix-be n x y [] d h k ∙ ground arith)

-- Only the low bytes of a number are written.
pub be4_mod : (x : ℕ) → be 4 (x % 2 ^ 32) ≡ be 4 x
unfolding be
be4_mod x = ground arith

pub be8_mod : (x : ℕ) → be 8 (x % 2 ^ 64) ≡ be 8 x
unfolding be
be8_mod x = ground arith
