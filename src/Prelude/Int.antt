-- ===== src/Prelude/Int.antt =====
-- Integers, as Python prints them.
use Prim.Native.Nat.{ℕ, ◌+◌}
use mathlib.Core.List.{◌∷◌}
use mathlib.Core.Bool.{Bool, false}
use stage.Prelude.Tests.{◌==◌}
use stage.Prelude.Texts.{Text}
use stage.Prelude.Decimal.{str}

-- `negsuc n` is -(n + 1).
pub data ℤ : Type 0 where
  pos : ℕ → ℤ
  negsuc : ℕ → ℤ

abbrev pub is_zero : ℤ → Bool
is_zero (pos n) = n == 0
is_zero (negsuc n) = false

unfoldable pub str_int : ℤ → Text
unfolding str
str_int (pos n) = str n
str_int (negsuc n) = 45 ∷ str (n + 1)
