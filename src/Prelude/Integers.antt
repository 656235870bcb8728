-- ===== src/Prelude/Integers.antt =====
-- Signed numbers over the native ones: `pos n` is n, `negsuc n` is -(n + 1).
use nativepg.Prelude.Tests.{ltb}
use Prim.Native.Nat.{ℕ}
use mathlib.Core.Bool.{Bool, true, false}

pub data ℤ : Type 0 where
  pos negsuc : ℕ → ℤ

abbrev pub is_negative : ℤ → Bool
is_negative (pos n) = false
is_negative (negsuc n) = true

abbrev pub is_positive : ℤ → Bool
is_positive (pos n) = ltb 0 n
is_positive (negsuc n) = false
