-- ===== src/Fem/Build/Pins.antt =====
-- Which nodes src/fem.c builds with.
use crazyradio2_firmware.Base.{ℕ, Bool, false, not, ◌&&◌, ◌||◌, ◌≡◌, Option, none, some, arith}
use crazyradio2_firmware.Fem.Build.{
  generic_fem_two_ctrl_pins, nordic_nrf21540_fem, other_fem, GpioProp, FemNode, generic_macros,
  nrf21540_macros, fem_macros, specs_exist, builds,
}

-- A generic pin that src/fem.c can use, with its settle time and the property of the nRF21540's name.
abbrev pub usable : GpioProp → Option ℕ → GpioProp → Bool
usable pin (some settle) twin = not pin.present || twin.present
usable pin none twin = not pin.present

-- The nodes that src/fem.c should build with.
abbrev pub usable_node : FemNode → Bool
usable_node n = elim n.compat [
  | nordic_nrf21540_fem ↦ n.okay && (n.spi_if && (n.cs_gpios.present && n.ant_sel_gpios.present))
  | generic_fem_two_ctrl_pins ↦
      n.okay
      && (usable n.ctx_gpios n.ctx_settle_time_us n.tx_en_gpios
          && usable n.crx_gpios n.crx_settle_time_us n.rx_en_gpios)
  | other_fem ↦ false
]

-- src/fem.c builds with an nRF21540 node exactly if the node is okay, its SPI device has a chip
-- select, and it has an antenna pin. It builds with a generic node exactly if the node is okay and
-- each of its two pins, where it is there, has a settle time and beside it the pin property of the
-- nRF21540's name, which is the one that src/fem.c reads. It builds with no other node.
pub builds_iff : (n : FemNode) → builds n ≡ usable_node n
unfolding builds fem_macros generic_macros nrf21540_macros specs_exist
builds_iff n = ground arith
