-- ===== src/Fem/Build.antt =====
-- What the preprocessor makes of the front end's node in the device tree: the macros of
-- src/radio_nrf5_fem.h, src/radio_nrf5_fem_generic.h and src/radio_nrf5_fem_nrf21540.h, and whether
-- src/fem.c builds with them.
pub mod Pins
use crazyradio2_firmware.Base.{
  ℕ, Bool, true, false, not, ◌&&◌, ◌||◌, bit, Option, none, some, [], ◌∷◌, if◌then◌else◌,
}

pub data Compatible : Type 0 where
  generic_fem_two_ctrl_pins nordic_nrf21540_fem other_fem : Compatible

-- A property that holds a pin: is it there, and is the pin active low?
pub record GpioProp : Type 0 where
  pub present : Bool
  pub active_low : Bool

-- `FEM_NODE`. The settle times of the nRF21540 have defaults, so they are always there.
pub record FemNode : Type 0 where
  pub compat : Compatible
  pub okay : Bool
  pub ctx_gpios : GpioProp
  pub crx_gpios : GpioProp
  pub ctx_settle_time_us : Option ℕ
  pub crx_settle_time_us : Option ℕ
  pub tx_en_gpios : GpioProp
  pub rx_en_gpios : GpioProp
  pub tx_en_settle_time_us : ℕ
  pub rx_en_settle_time_us : ℕ
  pub pdn_gpios : GpioProp
  pub mode_gpios : GpioProp
  pub ant_sel_gpios : GpioProp
  pub spi_if : Bool
  pub cs_gpios : GpioProp  -- of the node that `spi_if` points at

-- The macros; a macro with no value that is not defined is `false`.
pub record FemMacros : Type 0 where
  pub is_nrf21540 : Bool
  pub have_pa_pin : Bool
  pub have_lna_pin : Bool
  pub pa_offset : Option ℕ
  pub lna_offset : Option ℕ
  pub pa_offset_missing : Bool
  pub lna_offset_missing : Bool
  pub pa_pol_inv : Bool
  pub lna_pol_inv : Bool
  pub pdn_pol_inv : Bool
  pub has_csn : Bool
  pub csn_pol_inv : Bool

abbrev is_missing : Option ℕ → Bool
is_missing none = true
is_missing (some n) = false

-- `DT_PROP_OR(FEM_NODE, ..., 0)`
abbrev prop_or_zero : Option ℕ → ℕ
prop_or_zero none = 0
prop_or_zero (some n) = n

-- src/radio_nrf5_fem_generic.h, and the polarities of src/radio_nrf5_fem.h.
unfoldable pub generic_macros : FemNode → FemMacros
generic_macros n = record {
  is_nrf21540 = false;
  have_pa_pin = n.ctx_gpios.present;
  have_lna_pin = n.crx_gpios.present;
  pa_offset = if n.ctx_gpios.present then some (prop_or_zero n.ctx_settle_time_us) else none;
  lna_offset = if n.crx_gpios.present then some (prop_or_zero n.crx_settle_time_us) else none;
  pa_offset_missing = n.ctx_gpios.present && is_missing n.ctx_settle_time_us;
  lna_offset_missing = n.crx_gpios.present && is_missing n.crx_settle_time_us;
  pa_pol_inv = n.ctx_gpios.present && n.ctx_gpios.active_low;
  lna_pol_inv = n.crx_gpios.present && n.crx_gpios.active_low;
  pdn_pol_inv = false;
  has_csn = false;
  csn_pol_inv = false;
}

-- src/radio_nrf5_fem_nrf21540.h, and the polarities of src/radio_nrf5_fem.h.
unfoldable pub nrf21540_macros : FemNode → FemMacros
nrf21540_macros n = record {
  is_nrf21540 = true;
  have_pa_pin = n.tx_en_gpios.present;
  have_lna_pin = n.rx_en_gpios.present;
  pa_offset = if n.tx_en_gpios.present then some n.tx_en_settle_time_us else none;
  lna_offset = if n.rx_en_gpios.present then some n.rx_en_settle_time_us else none;
  pa_offset_missing = false;
  lna_offset_missing = false;
  pa_pol_inv = n.tx_en_gpios.present && n.tx_en_gpios.active_low;
  lna_pol_inv = n.rx_en_gpios.present && n.rx_en_gpios.active_low;
  pdn_pol_inv = n.pdn_gpios.present && n.pdn_gpios.active_low;
  has_csn = n.spi_if && n.cs_gpios.present;
  csn_pol_inv = n.spi_if && (n.cs_gpios.present && n.cs_gpios.active_low);
}

-- Lines 41 to 67 of src/radio_nrf5_fem.h; `none` is the `#error`, or a node that is there and is not
-- okay, whose macros nothing defines although src/fem.c asserts on them.
unfoldable pub fem_macros : FemNode → Option FemMacros
fem_macros n = if not n.okay then none else elim n.compat [
  | generic_fem_two_ctrl_pins ↦ some (generic_macros n)
  | nordic_nrf21540_fem ↦ some (nrf21540_macros n)
  | other_fem ↦ none
]

-- Every variable of lines 103 to 131 of src/fem.c that a `GPIO_DT_SPEC_GET` initialises names a
-- property that the node has, and every variable that a function uses is there.
unfoldable pub specs_exist : FemNode → FemMacros → Bool
specs_exist n m =
    (not m.have_pa_pin || n.tx_en_gpios.present)
    && ((not m.have_lna_pin || n.rx_en_gpios.present)
        && (not m.is_nrf21540 || (m.has_csn && n.ant_sel_gpios.present)))

-- Does src/fem.c build with this node? The first two tests are the assertions of lines 85 to 95.
unfoldable pub builds : FemNode → Bool
builds n = elim (fem_macros n) [
  | none ↦ false
  | some m ↦ not m.pa_offset_missing && (not m.lna_offset_missing && specs_exist n m)
]
