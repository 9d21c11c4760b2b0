-- ===== src/Esb/Address.antt =====
-- Addresses in src/esb.c: the bit order of the radio, and the two pipes' registers.
pub mod Swap
pub mod Registers
use crazyradio2_firmware.Base.{ℕ, zero, suc, ◌+◌, ◌-◌, ◌*◌, ◌/◌, ◌^◌, bit_and, bit_or, ◌<<<◌, ◌>>>◌}
use crazyradio2_firmware.Platform.{
  Calls, ◌▹◌, ◌▸◌, radio_busy, mutex_lock, mutex_unlock, base0_set, base1_set, prefix0_set,
}
use crazyradio2_firmware.Esb.State.{Esb, Address, ◌▹▹◌}

-- The loop of `swap_bits` at bit `i`, with `left` rounds to go.
unfoldable pub swap_bits_loop : (left i inp retval : ℕ) → ℕ
swap_bits_loop zero i inp retval = retval
swap_bits_loop (suc left) i inp retval =
    swap_bits_loop left (i + 1) inp (bit_or retval (bit_and (inp >>> i) 0x01 <<< (7 - i)))

unfoldable pub swap_bits : ℕ → ℕ
unfolding swap_bits_loop
swap_bits inp = swap_bits_loop 8 0 (bit_and inp 0xff) 0

unfoldable pub bytewise_bitswap : ℕ → ℕ
bytewise_bitswap inp =
    bit_or
      (bit_or (bit_or (swap_bits (inp >>> 24) <<< 24) (swap_bits (inp >>> 16) <<< 16))
        (swap_bits (inp >>> 8) <<< 8))
      (swap_bits inp)

-- `address[1]<<24 | address[2]<<16 | address[3]<<8 | address[4]`
unfoldable pub base_word : Address → ℕ
base_word a = bit_or (bit_or (bit_or (a.a1 <<< 24) (a.a2 <<< 16)) (a.a3 <<< 8)) a.a4

-- The new value of PREFIX0 for pipe 0, from the one that is read.
unfoldable pub with_prefix0 : ℕ → Address → ℕ
with_prefix0 prefix0 a = bit_or (bit_and prefix0 0xffffff00) (bit_and (swap_bits a.a0) 0x0ff)

-- For pipe 1.
unfoldable pub with_prefix1 : ℕ → Address → ℕ
with_prefix1 prefix0 a = bit_or (bit_and prefix0 0xffff00ff) (bit_and (swap_bits a.a0) 0xff <<< 8)

-- `set_pipe0_address_nolock`; `prefix0` is what the read of PREFIX0 answers.
unfoldable pub set_pipe0_address_nolock : Address → ℕ → Calls → Calls
set_pipe0_address_nolock a prefix0 t =
    t ▸ base0_set (bytewise_bitswap (base_word a)) ▸ prefix0_set (with_prefix0 prefix0 a)

unfoldable pub esb_set_address : Address → ℕ → Esb → Esb
esb_set_address a prefix0 s = record s {
  current_pipe0_address = a;
  calls =
      s.calls
      ▹ mutex_lock radio_busy
      ▸ base0_set (bytewise_bitswap (base_word a))
      ▸ prefix0_set (with_prefix0 prefix0 a)
      ▹ mutex_unlock radio_busy;
}

unfoldable pub esb_set_address_pipe1 : Address → ℕ → Esb → Esb
esb_set_address_pipe1 a prefix0 s = s ▹▹ λ t.
    t
    ▹ mutex_lock radio_busy
    ▸ base1_set (bytewise_bitswap (base_word a))
    ▸ prefix0_set (with_prefix1 prefix0 a)
    ▹ mutex_unlock radio_busy
