-- ===== src/Base/Int.antt =====
-- Signed integers over the native numbers, under the library's names.
use Prim.Native.Nat.{ℕ, suc, ◌-◌}
use mathlib.Core.Bool.{Bool}
use hyperliquid_exporter.Base.Tests.{leb, if◌then◌else◌}

-- `negsuc n` is -(n + 1).
pub data ℤ : Type 0 where
  pos : ℕ → ℤ
  negsuc : ℕ → ℤ

-- i + 1
abbrev pub inc : ℤ → ℤ
inc (pos n) = pos (suc n)
inc (negsuc ℕ.zero) = pos 0
inc (negsuc (suc n)) = negsuc n

-- i - 1
abbrev pub dec : ℤ → ℤ
dec (pos ℕ.zero) = negsuc 0
dec (pos (suc n)) = pos n
dec (negsuc n) = negsuc (suc n)

-- `i == 1`
abbrev pub is_one : ℤ → Bool
is_one (pos (suc ℕ.zero)) = mathlib.Core.Bool.true
is_one _ = mathlib.Core.Bool.false

-- i - j of two numbers
unfoldable pub minus : ℕ → ℕ → ℤ
minus m n = if leb n m then pos (m - n) else negsuc (n - m - 1)
