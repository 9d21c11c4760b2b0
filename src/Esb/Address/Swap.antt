-- ===== src/Esb/Address/Swap.antt =====
-- The bit order: what `swap_bits` and `bytewise_bitswap` compute.
use crazyradio2_firmware.Base.{
  ℕ, zero, suc, ◌+◌, ◌-◌, ◌*◌, ◌/◌, ◌%◌, ◌^◌, ◌<◌, ◌≡◌, refl, sym, ap, ◌∙◌, Bool, true, ◌&&◌, arith,
  ◌==◌, ==_iff, ltb, ltb→lt,
}
use crazyradio2_firmware.Base.Bits.{bit_and_low, bit_or_bytes}
use crazyradio2_firmware.Esb.Address.{swap_bits_loop, swap_bits, bytewise_bitswap}

-- All values of a byte, one after the other.
all_below : ℕ → (ℕ → Bool) → Bool
all_below zero p = true
all_below (suc n) p = p n && all_below n p

at_below : (n : ℕ) (p : ℕ → Bool) (x : ℕ) → x < n → all_below n p ≡ true → p x ≡ true
unfolding all_below
at_below zero p x h all = absurd (omega arith)
at_below (suc n) p x h all = ground (arith, at_below n p x)

swap_bits-low_byte : (x : ℕ) → swap_bits x ≡ swap_bits (x % 256)
unfolding swap_bits
swap_bits-low_byte x =
    rw (bit_and_low 8 x, bit_and_low 8 (x % 256)) (ap (λ y. swap_bits_loop 8 0 y 0) (omega arith))

abbrev mirrors : ℕ → ℕ → Bool
mirrors x i = swap_bits x / 2 ^ i % 2 == x / 2 ^ (7 - i) % 2

mirror_table : all_below 256 (λ x. all_below 8 (mirrors x)) ≡ true
unfolding all_below swap_bits
mirror_table = refl

lt_table : all_below 256 (λ x. ltb (swap_bits x) 256) ≡ true
unfolding all_below swap_bits
lt_table = refl

twice_table : all_below 256 (λ x. swap_bits (swap_bits x) == x) ≡ true
unfolding all_below swap_bits
twice_table = refl

pub swap_bits-lt : (x : ℕ) → swap_bits x < 256
swap_bits-lt x =
    rw (swap_bits-low_byte x)
      (ltb→lt _ _ (at_below 256 (λ y. ltb (swap_bits y) 256) (x % 256) (omega arith) lt_table))

-- For `i` below 8, bit `i` of the result is bit `7 - i` of the lowest byte.
pub swap_bits_mirrors : (x i : ℕ) → i < 8 → swap_bits x / 2 ^ i % 2 ≡ x % 256 / 2 ^ (7 - i) % 2
swap_bits_mirrors x i h = rw (swap_bits-low_byte x) (
    (==_iff _ _).0 (
      at_below 8 (mirrors (x % 256)) i h
        (at_below 256 (λ y. all_below 8 (mirrors y)) (x % 256) (omega arith) mirror_table)))

pub swap_bits_twice : (x : ℕ) → swap_bits (swap_bits x) ≡ x % 256
swap_bits_twice x = rw (swap_bits-low_byte x) (
    (==_iff _ _).0
      (at_below 256 (λ y. swap_bits (swap_bits y) == y) (x % 256) (omega arith) twice_table))

-- The four bytes of a word, each mirrored in its place.
pub bytewise_bitswap_sum :
    (x : ℕ)
    → bytewise_bitswap x
      ≡ ((swap_bits (x / 2 ^ 24) * 256 + swap_bits (x / 2 ^ 16)) * 256 + swap_bits (x / 2 ^ 8))
          * 256
        + swap_bits x
unfolding bytewise_bitswap
bytewise_bitswap_sum x =
    bit_or_bytes (swap_bits (x / 2 ^ 24)) (swap_bits (x / 2 ^ 16)) (swap_bits (x / 2 ^ 8))
      (swap_bits x) (swap_bits-lt _) (swap_bits-lt _) (swap_bits-lt _)

-- The bytes of a joined word, as `swap_bits` reads them.
pub swap_bits-word :
    (a b c d : ℕ)
    → b < 256
    → c < 256
    → d < 256
    → let w = ((a * 256 + b) * 256 + c) * 256 + d in
      (swap_bits (w / 2 ^ 24) ≡ swap_bits a)
      × (swap_bits (w / 2 ^ 16) ≡ swap_bits b)
      × (swap_bits (w / 2 ^ 8) ≡ swap_bits c)
      × (swap_bits w ≡ swap_bits d)
swap_bits-word a b c d hb hc hd = (
  ap swap_bits (omega arith),
  same _ b (omega arith),
  same _ c (omega arith),
  same _ d (omega arith),
)
  where
    same : (x y : ℕ) → x % 256 ≡ y % 256 → swap_bits x ≡ swap_bits y
    same x y e = swap_bits-low_byte x ∙ ap swap_bits e ∙ sym (swap_bits-low_byte y)

-- A word of mirrored bytes, mirrored byte by byte.
pub swap_bits_back :
    (a b c d : ℕ)
    → let w = ((swap_bits a * 256 + swap_bits b) * 256 + swap_bits c) * 256 + swap_bits d in
      (swap_bits (w / 2 ^ 24) ≡ a % 256)
      × (swap_bits (w / 2 ^ 16) ≡ b % 256)
      × (swap_bits (w / 2 ^ 8) ≡ c % 256)
      × (swap_bits w ≡ d % 256)
swap_bits_back a b c d =
    let bytes =
      swap_bits-word (swap_bits a) (swap_bits b) (swap_bits c) (swap_bits d) (swap_bits-lt b)
        (swap_bits-lt c) (swap_bits-lt d) in
    (
      bytes.0 ∙ swap_bits_twice a,
      bytes.1 ∙ swap_bits_twice b,
      bytes.2 ∙ swap_bits_twice c,
      bytes.3 ∙ swap_bits_twice d,
    )

-- Mirroring the bytes of a 32-bit word twice gives the word back.
pub bytewise_bitswap_twice : (x : ℕ) → x < 2 ^ 32 → bytewise_bitswap (bytewise_bitswap x) ≡ x
bytewise_bitswap_twice x h =
    rw (bytewise_bitswap_sum x) (
      omega (arith, bytewise_bitswap_sum _, swap_bits_back (x / 2 ^ 24) (x / 2 ^ 16) (x / 2 ^ 8) x))
