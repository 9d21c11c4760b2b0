-- ===== src/Base/Bits.antt =====
-- `|` and `&` of words as arithmetic on their fields, at every width.
mod Step
use Step.{bit_or_step, bit_and_step}
use Prim.Native.Nat.{
  ℕ, zero, suc, ◌+◌, ◌-◌, ◌*◌, ◌/◌, ◌%◌, ◌^◌, ◌≤◌, ◌<◌, min, max, bit_and, bit_or,
}
use mathlib.Core.Path.{◌≡◌, refl, ap}
use native.Mathlib.Nat.{pow-suc, one-le-pow}
use native.Mathlib.Omega.{arith}

-- An operation that works digit by digit works field by field.
module _ (op digit : ℕ → ℕ → ℕ) (op_zero : op 0 0 ≡ 0)
    (op_step : (x y : ℕ) → op x y ≡ op (x / 2) (y / 2) * 2 + digit (x % 2) (y % 2)) where
  fieldwise :
      (k a b c d : ℕ)
      → b < 2 ^ k
      → d < 2 ^ k
      → op (a * 2 ^ k + b) (c * 2 ^ k + d) ≡ op a c * 2 ^ k + op b d
  fieldwise zero a b c d hb hd =
      let eb : b ≡ 0 = omega arith in
      let ed : d ≡ 0 = omega arith in
      let ea : a * 2 ^ 0 + b ≡ a = omega arith in
      let ec : c * 2 ^ 0 + d ≡ c = omega arith in rw (ea, ec, eb, ed, op_zero) (omega arith)
  fieldwise (suc k) a b c d hb hd = ground (
    arith,
    pow-suc 2 k,
    ap (λ (t : ℕ). a * t) (pow-suc 2 k),
    ap (λ (t : ℕ). c * t) (pow-suc 2 k),
    ap (λ (t : ℕ). op a c * t) (pow-suc 2 k),
    op_step (a * 2 ^ suc k + b) (c * 2 ^ suc k + d),
    op_step b d,
    fieldwise k a (b / 2) c (d / 2) (omega arith) (omega arith),
  )

pub bit_or_fieldwise :
    (k a b c d : ℕ)
    → b < 2 ^ k
    → d < 2 ^ k
    → bit_or (a * 2 ^ k + b) (c * 2 ^ k + d) ≡ bit_or a c * 2 ^ k + bit_or b d
bit_or_fieldwise = fieldwise bit_or max refl bit_or_step

pub bit_and_fieldwise :
    (k a b c d : ℕ)
    → b < 2 ^ k
    → d < 2 ^ k
    → bit_and (a * 2 ^ k + b) (c * 2 ^ k + d) ≡ bit_and a c * 2 ^ k + bit_and b d
bit_and_fieldwise = fieldwise bit_and min refl bit_and_step

-- The laws at zero: the bound `n` falls as the digits do.
bit_or-zero_below : (n x : ℕ) → x ≤ n → (bit_or x 0 ≡ x) × (bit_or 0 x ≡ x)
bit_or-zero_below n zero h = (refl, refl)
bit_or-zero_below zero (suc x) h = absurd (omega arith)
bit_or-zero_below (suc n) (suc x) h = omega (
  arith,
  bit_or_step (suc x) 0,
  bit_or_step 0 (suc x),
  bit_or-zero_below n (suc x / 2) (omega arith),
)

pub bit_or-zero : (x : ℕ) → (bit_or x 0 ≡ x) × (bit_or 0 x ≡ x)
bit_or-zero x = bit_or-zero_below x x (omega arith)

bit_and-zero_below : (n x : ℕ) → x ≤ n → bit_and x 0 ≡ 0
bit_and-zero_below n zero h = refl
bit_and-zero_below zero (suc x) h = absurd (omega arith)
bit_and-zero_below (suc n) (suc x) h =
    omega (arith, bit_and_step (suc x) 0, bit_and-zero_below n (suc x / 2) (omega arith))

pub bit_and-zero : (x : ℕ) → bit_and x 0 ≡ 0
bit_and-zero x = bit_and-zero_below x x (omega arith)

-- A word of `k` digits is its own meet with `k` ones.
bit_and_ones : (k x : ℕ) → x < 2 ^ k → bit_and x (2 ^ k - 1) ≡ x
bit_and_ones zero x h = rw (bit_and-zero x) (omega arith)
bit_and_ones (suc k) x h = ground (
  arith,
  pow-suc 2 k,
  one-le-pow k 2,
  bit_and_step x (2 ^ suc k - 1),
  bit_and_ones k (x / 2) (omega (arith, pow-suc 2 k)),
)

-- `(q << k) | r` is a sum when `r` has at most `k` digits.
pub bit_or_sum : (k q r : ℕ) → r < 2 ^ k → bit_or (q * 2 ^ k) r ≡ q * 2 ^ k + r
bit_or_sum k q r h = ground (
  arith,
  bit_or_fieldwise k q 0 0 r (omega (arith, one-le-pow k 2)) h,
  ap (λ (t : ℕ). t * 2 ^ k) (bit_or-zero q).0,
  bit_or-zero r,
)

-- `x & (2 ^ k - 1)` is a remainder.
pub bit_and_low : (k x : ℕ) → bit_and x (2 ^ k - 1) ≡ x % 2 ^ k
bit_and_low k x = ground (
  arith,
  one-le-pow k 2,
  bit_and_fieldwise k (x / 2 ^ k) (x % 2 ^ k) 0 (2 ^ k - 1),
  ap (λ (t : ℕ). t * 2 ^ k) (bit_and-zero (x / 2 ^ k)),
  bit_and_ones k (x % 2 ^ k),
)

-- `x & (m << k)` clears the low `k` digits.
pub bit_and_high : (k x m : ℕ) → bit_and x (m * 2 ^ k) ≡ bit_and (x / 2 ^ k) m * 2 ^ k
bit_and_high k x m = ground (
  arith,
  one-le-pow k 2,
  bit_and_fieldwise k (x / 2 ^ k) (x % 2 ^ k) m 0,
  bit_and-zero (x % 2 ^ k),
)

-- Four bytes in a word.
pub bit_or_bytes :
    (a b c d : ℕ)
    → b < 256
    → c < 256
    → d < 256
    → bit_or (bit_or (bit_or (a * 2 ^ 24) (b * 2 ^ 16)) (c * 2 ^ 8)) d
      ≡ ((a * 256 + b) * 256 + c) * 256 + d
bit_or_bytes a b c d hb hc hd =
    let two : a * 2 ^ 24 + b * 2 ^ 16 ≡ (a * 256 + b) * 2 ^ 16 = omega arith in
    let three : (a * 256 + b) * 2 ^ 16 + c * 2 ^ 8 ≡ ((a * 256 + b) * 256 + c) * 2 ^ 8 =
      omega arith in
    rw
      (
        bit_or_sum 24 a (b * 2 ^ 16) (omega arith),
        two,
        bit_or_sum 16 (a * 256 + b) (c * 2 ^ 8) (omega arith),
        three,
        bit_or_sum 8 ((a * 256 + b) * 256 + c) d (omega arith),
      )
      (omega arith)

-- The two masks of PREFIX0.
pub bit_and_but_low : (p : ℕ) → p < 2 ^ 32 → bit_and p 0xffffff00 ≡ p / 256 * 256
bit_and_but_low p h = ground (arith, bit_and_high 8 p 0xffffff, bit_and_low 24 (p / 256))

pub bit_and_but_second : (p : ℕ) → p < 2 ^ 32 → bit_and p 0xffff00ff ≡ p / 65536 * 65536 + p % 256
bit_and_but_second p h = ground (
  arith,
  bit_and_fieldwise 16 (p / 65536) (p % 65536) 0xffff 0xff,
  bit_and_low 16 (p / 65536),
  bit_and_low 8 (p % 65536),
)
