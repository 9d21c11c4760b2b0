-- ===== src/Boot/Ready.antt =====
-- The state that `main` hands over.
use crazyradio2_firmware.Base.{ℕ, ◌+◌, ◌*◌, ◌/◌, ◌%◌, ◌^◌, ◌<◌, ◌≡◌, false, some, arith, refl, ap}
use crazyradio2_firmware.Base.Bits.{bit_or_sum}
use crazyradio2_firmware.Platform.Trace.{
  tx_line, rx_line, last_base0, last_prefix0, last_rxaddresses, last_packet_conf, last_mode,
  last_frequency, last_bcd_device,
}
use crazyradio2_firmware.Led.{
  led_init, led_set_red, led_set_green, led_set_blue, led_pulse_green, led_pulse_red,
  led_pulse_blue,
}
use crazyradio2_firmware.Platform.{nrf_2mbit}
use crazyradio2_firmware.Fem.{
  fem_init, fem_txen_set, fem_rxen_set, fem_is_pa_enabled, fem_is_lna_enabled, read_register,
}
use crazyradio2_firmware.Esb.Config.{esb_init, radio_config}
use crazyradio2_firmware.Esb.Send.{refuses}
use crazyradio2_firmware.Esb.Api.Invariant.{Inv}
use crazyradio2_firmware.Esb.Address.{base_word, bytewise_bitswap, swap_bits, with_prefix0}
use crazyradio2_firmware.Usb.State.{initial}
use crazyradio2_firmware.Usb.Invariant.{UsbInv}
use crazyradio2_firmware.Boot.{
  start_hf_clock, test_fem, main, Version, usb_bcd_app_drn, set_usb_app_version,
}

-- What Zephyr documents of `USB_DEC_TO_BCD`, and versions of two digits.
pub record IsVersion (v : Version) : Type 0 where
  pub converts : (n : ℕ) → n < 100 → v.usb_dec_to_bcd n ≡ n / 10 * 16 + n % 10
  pub major_digits : v.app_version_major < 100
  pub minor_digits : v.app_version_minor < 100

-- The four decimal digits of the version as hexadecimal digits.
abbrev pub digits : Version → ℕ
digits v =
    v.app_version_major / 10 * 4096
    + v.app_version_major % 10 * 256
    + v.app_version_minor / 10 * 16
    + v.app_version_minor % 10

usb_bcd_app_drn-digits : (v : Version) → IsVersion v → usb_bcd_app_drn v % 2 ^ 16 ≡ digits v
unfolding usb_bcd_app_drn
usb_bcd_app_drn-digits v h =
    let major = h.converts v.app_version_major h.major_digits in
    let minor = h.converts v.app_version_minor h.minor_digits in
    let low : v.usb_dec_to_bcd v.app_version_minor < 2 ^ 8 = omega (arith, minor, h.minor_digits) in
    omega (
      arith,
      major,
      minor,
      h.major_digits,
      h.minor_digits,
      bit_or_sum 8 (v.usb_dec_to_bcd v.app_version_major) (v.usb_dec_to_bcd v.app_version_minor)
          low,
    )

-- What the front end answers to its test does not matter: after `main` the invariants of the radio
-- and of the USB side hold, packets are let through, both lines of the front end are off, and the
-- radio is on channel 42 in the mode of 2 Mbit/s, on the address registers of the variable
-- `current_pipe0_address`, with pipe 0 alone and packets of up to 32
-- bytes. The release number that the host reads shows a version of two digits each in hexadecimal.
pub main-ready :
    (version : Version) (pa lna rssi arc_counter : ℕ)
    → IsVersion version
    → let s = main version pa lna in
      Inv s
      × UsbInv (initial s rssi arc_counter)
      × (refuses s ≡ false)
      × (tx_line s.calls ≡ some 0)
      × (rx_line s.calls ≡ some 0)
      × (last_frequency s.calls ≡ some (2400 + (initial s rssi arc_counter).channel))
      × (last_mode s.calls ≡ some nrf_2mbit)
      × (last_base0 s.calls ≡ some (bytewise_bitswap (base_word s.current_pipe0_address)))
      × (last_prefix0 s.calls ≡ some (with_prefix0 0 s.current_pipe0_address))
      × (last_rxaddresses s.calls ≡ some 0x01)
      × (last_packet_conf s.calls ≡ some (radio_config 32))
      × (last_bcd_device s.calls ≡ some (digits version))
unfolding main start_hf_clock led_init led_set_red led_set_green led_set_blue led_pulse_green
    led_pulse_red led_pulse_blue esb_init fem_init test_fem fem_txen_set fem_rxen_set
    fem_is_pa_enabled fem_is_lna_enabled read_register bytewise_bitswap swap_bits base_word
    with_prefix0 set_usb_app_version
main-ready version pa lna rssi arc_counter v = (
  ground arith,
  ground arith,
  refl,
  refl,
  refl,
  refl,
  refl,
  refl,
  refl,
  refl,
  refl,
  ap some (usb_bcd_app_drn-digits version v),
)
