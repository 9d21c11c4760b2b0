-- ===== src/Fem.antt =====
-- src/fem.c: the front-end module, its two enable lines and its SPI registers, as built for the
-- nRF21540 of the Crazyradio 2.0 board (all its pins are in the device tree).
pub mod Build
mod Examples
use crazyradio2_firmware.Base.{ℕ, u8, Bool, bit, bit_and, bit_or, ◌==◌, ◌<<<◌, [], ◌∷◌}
use crazyradio2_firmware.Platform.{
  Calls, ◌▹◌, tx_en, rx_en, pdn, fem_mode, ant_sel, gpio_configure, gpio_set, spi_write,
  spi_transceive,
}

-- What the SPI answers is only logged.
unfoldable pub fem_init : Calls → Calls
fem_init t =
    t
    ▹ gpio_configure tx_en
    ▹ gpio_set tx_en 0
    ▹ gpio_configure rx_en
    ▹ gpio_set rx_en 0
    ▹ gpio_configure pdn
    ▹ gpio_set pdn 1
    ▹ gpio_configure fem_mode
    ▹ gpio_set fem_mode 0
    ▹ gpio_configure ant_sel
    ▹ gpio_set ant_sel 0
    ▹ spi_transceive (0x96 ∷ 0x00 ∷ [])

unfoldable pub fem_txen_set : Bool → Calls → Calls
fem_txen_set enable t = t ▹ gpio_set tx_en (bit enable)

unfoldable pub fem_rxen_set : Bool → Calls → Calls
fem_rxen_set enable t = t ▹ gpio_set rx_en (bit enable)

unfoldable pub write_register : ℕ → ℕ → Calls → Calls
write_register address value t =
    t ▹ spi_write (u8 (bit_or 0xc0 (bit_and address 0x3f)) ∷ value ∷ [])

unfoldable pub fem_set_power : ℕ → Calls → Calls
unfolding write_register
fem_set_power power t =
    let tx_gain = bit_and power 0x1f in write_register 0x00 (u8 (tx_gain <<< 2)) t

-- `answer` is the second byte that the transfer reads back.
unfoldable pub read_register : ℕ → ℕ → Calls → Calls × ℕ
read_register address answer t =
    (t ▹ spi_transceive (u8 (bit_or 0x80 (bit_and address 0x3f)) ∷ 0x00 ∷ []), answer)

unfoldable pub fem_set_antenna : ℕ → Calls → Calls
fem_set_antenna antenna t = t ▹ gpio_set ant_sel antenna

unfoldable pub fem_is_lna_enabled : ℕ → Calls → Calls × Bool
unfolding read_register
fem_is_lna_enabled answer t =
    let (t', confreg1) = read_register 0x01 answer t in (t', bit_and confreg1 0x01 == 0x01)

unfoldable pub fem_is_pa_enabled : ℕ → Calls → Calls × Bool
unfolding read_register
fem_is_pa_enabled answer t =
    let (t', confreg0) = read_register 0x00 answer t in (t', bit_and confreg0 0x01 == 0x01)
