-- ===== src/Common/Decimal.antt =====
-- The decimal digits of a number, as the loops of shell.rs, network.rs and game.rs take them.
use mathlib.Core.List.{[], ◌∷◌, reverse, foldl, foldl-append, reverse-cons}
use mathlib.Core.Path.{◌≡◌, refl, ◌∙◌}
use mathlib.Core.Logic.{inl, inr}
use Prim.Native.Nat.{ℕ, zero, suc, ◌+◌, ◌-◌, ◌*◌, ◌/◌, ◌%◌, ◌≤◌}
use native.Mathlib.Omega.{arith}
use alilu_os.Common.Tests.{Bool-cases, ◌==◌, if◌then◌else◌}
use alilu_os.Common.Strings.{Text}

-- The loop `while temp > 0`, lowest digit first, on fuel.
unfoldable pub digits : ℕ → ℕ → Text
digits zero temp = []
digits (suc fuel) temp =
    let rest = digits fuel (temp / 10) in if temp == 0 then [] else (b'0' + temp % 10) ∷ rest

-- `temp` rounds are enough: each divides by ten.
unfoldable pub decimal : ℕ → Text
unfolding digits
decimal n = if n == 0 then b'0' ∷ [] else reverse (digits n n)

-- What a text of digits stands for.
abbrev pub value : Text → ℕ
value = foldl (λ acc c. acc * 10 + (c - b'0')) 0

value-reverse-cons :
    (c : ℕ) (s : Text) → value (reverse (c ∷ s)) ≡ value (reverse s) * 10 + (c - b'0')
value-reverse-cons c s = rw (reverse-cons, foldl-append) refl

value-digits : (fuel n : ℕ) → n ≤ fuel → value (reverse (digits fuel n)) ≡ n
unfolding digits
value-digits zero n h = omega arith
value-digits (suc fuel) n h = elim (Bool-cases (n == 0)) [
  | inl none_left ↦ rw none_left (ground arith)
  | inr some_left ↦ rw some_left (
      value-reverse-cons (b'0' + n % 10) (digits fuel (n / 10))
      ∙ omega (arith, value-digits fuel (n / 10) (ground arith)))
]

-- A number printed in decimal reads back as itself.
pub value-decimal : (n : ℕ) → value (decimal n) ≡ n
unfolding decimal
value-decimal n = elim (Bool-cases (n == 0)) [
  | inl nought ↦ rw nought (ground arith)
  | inr other ↦ rw other (value-digits n n (omega arith))
]
