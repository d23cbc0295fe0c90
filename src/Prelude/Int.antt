-- ===== src/Prelude/Int.antt =====
-- Signed settings (`time.Duration`, `int`): `negsuc n` is -(n + 1).
use Prim.Native.Nat.{ℕ}
use mailezine.Prelude.Tests.{◌==◌, if◌then◌else◌}

pub data ℤ : Type 0 where
  pos : ℕ → ℤ
  negsuc : ℕ → ℤ

-- `if v <= 0 { v = d }`
abbrev pub positive_or : ℤ → ℕ → ℕ
positive_or (pos n) d = if n == 0 then d else n
positive_or (negsuc n) d = d

-- `if v == 0 { v = d }`
abbrev pub nonzero_or : ℤ → ℤ → ℤ
nonzero_or (pos n) d = if n == 0 then d else pos n
nonzero_or (negsuc n) d = negsuc n
