-- ===== src/Boot.antt =====
-- `main` of src/main.c, lines 45 to 115, up to its idle loop.
pub mod Ready
pub mod Whole
mod Examples
use crazyradio2_firmware.Base.{ℕ, ◌%◌, ◌^◌, Bool, true, false, bit_or, ◌<<<◌}
use crazyradio2_firmware.Platform.{Calls, ◌▹◌, hfclk_start, sleep_ms, usb_enable, bcd_device_set}
use crazyradio2_firmware.Fem.{
  fem_init, fem_txen_set, fem_rxen_set, fem_is_pa_enabled, fem_is_lna_enabled,
}
use crazyradio2_firmware.Led.{led_init, led_pulse_green, led_pulse_red, led_pulse_blue}
use crazyradio2_firmware.Esb.State.{Esb, statics, ◌▹▹◌}
use crazyradio2_firmware.Esb.Config.{esb_init}

unfoldable pub start_hf_clock : Calls → Calls
start_hf_clock t = t ▹ hfclk_start

-- Lines 74 to 86: the test of the front end, of which the results are only logged. `pa` and `lna`
-- are the bytes that the SPI reads back.
unfoldable pub test_fem : (pa lna : ℕ) → Calls → Calls
unfolding fem_txen_set fem_rxen_set fem_is_pa_enabled fem_is_lna_enabled
test_fem pa lna t =
    let (sending, _) = fem_is_pa_enabled pa (fem_txen_set true t ▹ sleep_ms 10) in
    let receiving = fem_rxen_set true (fem_txen_set false sending) ▹ sleep_ms 10 in
    let (tested, _) = fem_is_lna_enabled lna receiving in fem_rxen_set false tested

-- The version is written by the build; `usb_dec_to_bcd` is the macro of Zephyr.
pub record Version : Type 0 where
  pub app_version_major : ℕ
  pub app_version_minor : ℕ
  pub usb_dec_to_bcd : ℕ → ℕ

unfoldable pub usb_bcd_app_drn : Version → ℕ
usb_bcd_app_drn v =
    bit_or (v.usb_dec_to_bcd v.app_version_major <<< 8) (v.usb_dec_to_bcd v.app_version_minor)

unfoldable pub set_usb_app_version : Version → Calls → Calls
unfolding usb_bcd_app_drn
set_usb_app_version v t = t ▹ bcd_device_set (usb_bcd_app_drn v % 2 ^ 16)

-- What `usb_enable` answers only decides whether `main` returns or idles.
unfoldable pub main : Version → (pa lna : ℕ) → Esb
unfolding start_hf_clock led_init led_pulse_green led_pulse_red led_pulse_blue esb_init fem_init
    test_fem set_usb_app_version
main version pa lna =
    let lit = statics ▹▹ λ t.
    led_pulse_blue 500 (led_pulse_red 500 (led_pulse_green 500 (led_init (start_hf_clock t)))) in
    esb_init lit ▹▹ (λ t. set_usb_app_version version (test_fem pa lna (fem_init t)) ▹ usb_enable)
