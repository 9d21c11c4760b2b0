-- ===== src/Esb/Address/Registers.antt =====
-- What the address registers hold after an address is set, read back by the radio's own rule: each
-- byte goes out with its bits in the other order.
use crazyradio2_firmware.Base.{ℕ, ◌+◌, ◌*◌, ◌/◌, ◌%◌, ◌^◌, ◌<◌, ◌≡◌, refl, ap, ◌∙◌, arith, some}
use crazyradio2_firmware.Base.Bits.{
  bit_and_low, bit_or_fieldwise, bit_or-zero, bit_or_sum, bit_or_bytes, bit_and_but_low,
  bit_and_but_second,
}
use crazyradio2_firmware.Platform.Trace.{last_base0, last_base1, last_prefix0}
use crazyradio2_firmware.Esb.State.{Esb, Address}
use crazyradio2_firmware.Esb.Address.{
  swap_bits, bytewise_bitswap, base_word, with_prefix0, with_prefix1, esb_set_address,
  esb_set_address_pipe1,
}
use crazyradio2_firmware.Esb.Address.Swap.{
  swap_bits-lt, swap_bits_twice, bytewise_bitswap_sum, swap_bits_back,
}

pub record IsAddress (a : Address) : Type 0 where
  pub byte0 : a.a0 < 256
  pub byte1 : a.a1 < 256
  pub byte2 : a.a2 < 256
  pub byte3 : a.a3 < 256
  pub byte4 : a.a4 < 256

-- The address that a base register and a prefix byte stand for on the air.
abbrev pub on_air : ℕ → ℕ → Address
on_air base prefix = record {
  a0 = swap_bits prefix;
  a1 = swap_bits (base / 2 ^ 24);
  a2 = swap_bits (base / 2 ^ 16);
  a3 = swap_bits (base / 2 ^ 8);
  a4 = swap_bits base;
}

base_word_sum :
    (a : Address) → IsAddress a → base_word a ≡ ((a.a1 * 256 + a.a2) * 256 + a.a3) * 256 + a.a4
unfolding base_word
base_word_sum a h = bit_or_bytes a.a1 a.a2 a.a3 a.a4 h.byte2 h.byte3 h.byte4

pub with_prefix0_sum :
    (p : ℕ) (a : Address) → p < 2 ^ 32 → with_prefix0 p a ≡ p / 256 * 256 + swap_bits a.a0
unfolding with_prefix0
with_prefix0_sum p a h =
    rw (bit_and_but_low p h, bit_and_low 8 (swap_bits a.a0))
      (rw (bit_or_sum 8 (p / 256) (swap_bits a.a0 % 256) (omega arith))
        (omega (arith, swap_bits-lt a.a0)))

pub with_prefix1_sum :
    (p : ℕ) (a : Address)
    → p < 2 ^ 32
    → with_prefix1 p a ≡ p / 65536 * 65536 + swap_bits a.a0 * 256 + p % 256
unfolding with_prefix1
with_prefix1_sum p a h =
    rw (bit_and_but_second p h, bit_and_low 8 (swap_bits a.a0))
      (ground (
        arith,
        swap_bits-lt a.a0,
        bit_or_fieldwise 8 (p / 65536 * 256) (p % 256) (swap_bits a.a0) 0,
        bit_or_fieldwise 8 (p / 65536) 0 0 (swap_bits a.a0),
        bit_or-zero (p % 256),
        bit_or-zero (p / 65536),
        bit_or-zero (swap_bits a.a0),
      ))

on_air-base_word :
    (a : Address) (prefix : ℕ)
    → IsAddress a
    → swap_bits prefix ≡ a.a0
    → on_air (bytewise_bitswap (base_word a)) prefix ≡ a
on_air-base_word a prefix h e =
    let w = base_word a in
    ground (
      arith,
      bytewise_bitswap_sum w,
      base_word_sum a h,
      swap_bits_back (w / 2 ^ 24) (w / 2 ^ 16) (w / 2 ^ 8) w,
    )

-- The base and the prefix that are written for pipe 0.
pub on_air-with_prefix0 :
    (a : Address) (p : ℕ)
    → IsAddress a
    → p < 2 ^ 32
    → on_air (bytewise_bitswap (base_word a)) (with_prefix0 p a % 256) ≡ a
on_air-with_prefix0 a p h fits =
    let low : with_prefix0 p a % 256 ≡ swap_bits a.a0 =
      omega (arith, with_prefix0_sum p a fits, swap_bits-lt a.a0) in
    on_air-base_word a _ h (ap swap_bits low ∙ swap_bits_twice a.a0 ∙ omega (arith, h))

-- After `esb_set_address` BASE0 and the low byte of PREFIX0 stand for exactly the given address on
-- the air, whatever it is, and the prefixes of the other pipes keep the values that were read.
pub esb_set_address-on_air :
    (a : Address) (p : ℕ) (s : Esb)
    → IsAddress a
    → p < 2 ^ 32
    → let t = (esb_set_address a p s).calls in
      (base : ℕ) × (prefix : ℕ) × (last_base0 t ≡ some base)
      × (last_prefix0 t ≡ some prefix)
      × (on_air base (prefix % 256) ≡ a)
      × (prefix / 256 ≡ p / 256)
      × (last_base1 t ≡ last_base1 s.calls)
unfolding esb_set_address
esb_set_address-on_air a p s h fits = (
  bytewise_bitswap (base_word a),
  with_prefix0 p a,
  refl,
  refl,
  on_air-with_prefix0 a p h fits,
  omega (arith, with_prefix0_sum p a fits, swap_bits-lt a.a0),
  refl,
)

-- After `esb_set_address_pipe1` BASE1 and the second byte of PREFIX0 stand for the given address;
-- pipe 0 keeps its base register and its prefix, and so do the pipes from 2 on.
pub esb_set_address_pipe1-on_air :
    (a : Address) (p : ℕ) (s : Esb)
    → IsAddress a
    → p < 2 ^ 32
    → let t = (esb_set_address_pipe1 a p s).calls in
      (base : ℕ) × (prefix : ℕ) × (last_base1 t ≡ some base)
      × (last_prefix0 t ≡ some prefix)
      × (on_air base (prefix / 256 % 256) ≡ a)
      × (prefix % 256 ≡ p % 256)
      × (prefix / 65536 ≡ p / 65536)
      × (last_base0 t ≡ last_base0 s.calls)
unfolding esb_set_address_pipe1
esb_set_address_pipe1-on_air a p s h fits = (
  bytewise_bitswap (base_word a),
  with_prefix1 p a,
  refl,
  refl,
  on_air-base_word a _ h (ap swap_bits second ∙ swap_bits_twice a.a0 ∙ omega (arith, h)),
  omega (arith, with_prefix1_sum p a fits, swap_bits-lt a.a0),
  omega (arith, with_prefix1_sum p a fits, swap_bits-lt a.a0),
  refl,
)
  where
    second : with_prefix1 p a / 256 % 256 ≡ swap_bits a.a0
    second = omega (arith, with_prefix1_sum p a fits, swap_bits-lt a.a0)
