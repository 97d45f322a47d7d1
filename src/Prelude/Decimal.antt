-- ===== src/Prelude/Decimal.antt =====
-- Decimal numerals, as `str(n)` prints them.
use Prim.Native.Nat.{ℕ, zero, suc, ◌+◌, ◌-◌, ◌*◌, ◌/◌, ◌%◌, ◌<◌}
use mathlib.Core.Path.{◌≡◌, sym, ap, ◌∙◌}
use mathlib.Core.Logic.{inl, inr}
use mathlib.Core.List.{[], ◌∷◌}
use native.Mathlib.Omega.{arith}
use stage.Prelude.Tests.{ltb, if◌then◌else◌, Bool-cases}
use stage.Prelude.Texts.{Text}

-- The digits of n before those already written; more than n rounds are enough.
print_digits : ℕ → ℕ → Text → Text
print_digits zero n written = written
print_digits (suc f) n written =
    let more = print_digits f (n / 10) ((48 + n % 10) ∷ written) in
    if ltb n 10 then (48 + n) ∷ written else more

unfoldable pub str : ℕ → Text
unfolding print_digits
str n = print_digits (suc n) n []

-- The number that digits stand for, behind a number already read.
read_digits : ℕ → Text → ℕ
read_digits n [] = n
read_digits n (c ∷ s) = read_digits (n * 10 + (c - 48)) s

read_digits-print_digits :
    (f n : ℕ) (written : Text)
    → n < f
    → read_digits 0 (print_digits f n written) ≡ read_digits n written
unfolding print_digits read_digits
read_digits-print_digits zero n written h = absurd (omega arith)
read_digits-print_digits (suc f) n written h = elim (Bool-cases (ltb n 10)) [
  | inl small ↦ rw small (
      ap (λ (m : ℕ). read_digits m written) (let e : 0 * 10 + (48 + n - 48) ≡ n = omega arith in e))
  | inr big ↦ rw big (
      read_digits-print_digits f (n / 10) ((48 + n % 10) ∷ written) (ground arith)
      ∙ ap (λ (m : ℕ). read_digits m written)
          (let e : n / 10 * 10 + (48 + n % 10 - 48) ≡ n = omega arith in e))
]

-- What is printed can be read back, so different numbers print differently.
pub str_injective : (m n : ℕ) → str m ≡ str n → m ≡ n
unfolding str read_digits
str_injective m n e =
    sym (read_digits-print_digits (suc m) m [] (omega arith))
    ∙ ap (read_digits 0) e
    ∙ read_digits-print_digits (suc n) n [] (omega arith)
