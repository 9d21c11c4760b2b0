-- ===== src/Fem/Examples.antt =====
-- The front end of the Crazyradio 2.0 board, and one with two pins.
use crazyradio2_firmware.Base.{◌≡◌, true, false, none, some}
use crazyradio2_firmware.Fem.Build.{
  GpioProp, FemNode, generic_fem_two_ctrl_pins, nordic_nrf21540_fem, builds,
}
use crazyradio2_firmware.Fem.Build.Pins.{usable_node, builds_iff}

abbrev pin : GpioProp
pin = record { present = true; active_low = false }

abbrev no_pin : GpioProp
no_pin = record { present = false; active_low = false }

abbrev board : FemNode
board = record {
  compat = nordic_nrf21540_fem;
  okay = true;
  ctx_gpios = no_pin;
  crx_gpios = no_pin;
  ctx_settle_time_us = none;
  crx_settle_time_us = none;
  tx_en_gpios = pin;
  rx_en_gpios = pin;
  tx_en_settle_time_us = 11;
  rx_en_settle_time_us = 11;
  pdn_gpios = pin;
  mode_gpios = pin;
  ant_sel_gpios = pin;
  spi_if = true;
  cs_gpios = record pin { active_low = true };
}

-- The two control pins of a generic front end.
abbrev two_pins : FemNode
two_pins = record board {
  compat = generic_fem_two_ctrl_pins;
  ctx_gpios = pin;
  crx_gpios = pin;
  ctx_settle_time_us = some 10;
  crx_settle_time_us = some 10;
  tx_en_gpios = no_pin;
  rx_en_gpios = no_pin;
  ant_sel_gpios = no_pin;
}

builds_iff_example : builds two_pins ≡ usable_node two_pins
builds_iff_example = builds_iff two_pins

board-builds : builds board ≡ true
board-builds = builds_iff board

two_pins-not_built : builds two_pins ≡ false
two_pins-not_built = builds_iff two_pins
