-- ===== src/Base/Bits/Step.antt =====
-- What `&` and `|` do to the lowest binary digit. The native operations stand for a recursion on
-- digits that carries fuel; any two amounts of fuel that suffice agree.
use Prim.Native.Nat.{
  ℕ, zero, suc, ◌+◌, ◌*◌, ◌/◌, ◌%◌, ◌≤◌, min, max, digits, bit_and, bit_or, bit_and-bitwise,
  bit_or-bitwise,
}
use native.Mathlib.Omega.{arith}
use mathlib.Core.Path.{◌≡◌, refl}

module _ (rest : ℕ → ℕ) (digit : ℕ → ℕ → ℕ) where
  abbrev fueled : ℕ → ℕ → ℕ → ℕ
  fueled fuel x y = digits rest digit fuel x y

  fueled_agree : (x p q y : ℕ) → x ≤ p → x ≤ q → fueled p x y ≡ fueled q x y
  fueled_agree x zero q y h k = let e : x ≡ 0 = omega arith in rw e (at_zero q y)
    where
      at_zero : (fuel y : ℕ) → fueled 0 0 y ≡ fueled fuel 0 y
      at_zero zero y = refl
      at_zero (suc fuel) y = refl
  fueled_agree zero (suc p) zero y h k = refl
  fueled_agree zero (suc p) (suc q) y h k = refl
  fueled_agree (suc x) (suc p) zero y h k = absurd (omega arith)
  fueled_agree (suc x) (suc p) (suc q) y h k =
      omega (arith, fueled_agree (suc x / 2) p q (y / 2) (omega arith) (omega arith))

pub bit_or_step : (x y : ℕ) → bit_or x y ≡ bit_or (x / 2) (y / 2) * 2 + max (x % 2) (y % 2)
bit_or_step zero y = omega (arith, bit_or-bitwise 0 y, bit_or-bitwise 0 (y / 2))
bit_or_step (suc x) y = omega (
  arith,
  bit_or-bitwise (suc x) y,
  bit_or-bitwise (suc x / 2) (y / 2),
  fueled_agree (λ n. n) max (suc x / 2) x (suc x / 2) (y / 2) (omega arith) (omega arith),
)

pub bit_and_step : (x y : ℕ) → bit_and x y ≡ bit_and (x / 2) (y / 2) * 2 + min (x % 2) (y % 2)
bit_and_step zero y = omega (arith, bit_and-bitwise 0 y, bit_and-bitwise 0 (y / 2))
bit_and_step (suc x) y = omega (
  arith,
  bit_and-bitwise (suc x) y,
  bit_and-bitwise (suc x / 2) (y / 2),
  fueled_agree (λ n. 0) min (suc x / 2) x (suc x / 2) (y / 2) (omega arith) (omega arith),
)
