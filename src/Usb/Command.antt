-- ===== src/Usb/Command.antt =====
-- `handle_vendor_command` of src/legacy_usb.c, lines 620 to 708.
pub mod Settings
pub mod Power
use crazyradio2_firmware.Base.{
  ℕ, ◌+◌, u8, min, Bool, true, false, not, ◌&&◌, List, [], ◌∷◌, bit_and, ltb, leb, ◌==◌,
  if◌then◌else◌, get_or,
}
use crazyradio2_firmware.Platform.{◌▹◌, msgq_purge}
use crazyradio2_firmware.Fem.{fem_set_power}
use crazyradio2_firmware.Led.{led_set_blue}
use crazyradio2_firmware.Esb.State.{Esb, Address, ◌▹▹◌}
use crazyradio2_firmware.Esb.Isr.{Irq}
use crazyradio2_firmware.Esb.Address.{esb_set_address, esb_set_address_pipe1}
use crazyradio2_firmware.Esb.Config.{
  esb_set_arc, esb_set_ack_enabled, esb_set_channel, esb_set_bitrate, bitrate_1m, bitrate_2m,
  esb_set_packet_loss_simulation, esb_set_continuous_carrier,
}
use crazyradio2_firmware.Esb.Sniffer.{esb_sniffer_start, esb_sniffer_stop}
use crazyradio2_firmware.Usb.State.{Usb, SetupPacket, SetupCommand, ◌▹▹▹◌}

-- The vendor requests.
abbrev pub set_radio_channel : ℕ
set_radio_channel = 0x01

abbrev pub set_radio_address : ℕ
set_radio_address = 0x02

abbrev pub set_data_rate : ℕ
set_data_rate = 0x03

abbrev pub set_radio_power : ℕ
set_radio_power = 0x04

abbrev pub set_radio_ard : ℕ
set_radio_ard = 0x05

abbrev pub set_radio_arc : ℕ
set_radio_arc = 0x06

abbrev pub ack_enable : ℕ
ack_enable = 0x10

abbrev pub set_cont_carrier : ℕ
set_cont_carrier = 0x20

abbrev pub channel_scann : ℕ
channel_scann = 0x21

abbrev pub set_mode : ℕ
set_mode = 0x22

abbrev pub set_inline_mode : ℕ
set_inline_mode = 0x23

abbrev pub set_radio_mode : ℕ
set_radio_mode = 0x24

abbrev pub set_sniffer_address : ℕ
set_sniffer_address = 0x25

abbrev pub get_sniffer_drop_count : ℕ
get_sniffer_drop_count = 0x26

abbrev pub set_packet_loss_simulation : ℕ
set_packet_loss_simulation = 0x30

abbrev pub reset_to_bootloader : ℕ
reset_to_bootloader = 0xff

abbrev pub inline_mode_on_with_rssi : ℕ
inline_mode_on_with_rssi = 2

-- `power_mapping`
abbrev pub power_mapping : List ℕ
power_mapping = 1 ∷ 10 ∷ 20 ∷ 31 ∷ []

-- The five bytes that a command carries from index `i` on.
abbrev pub address_at : List ℕ → ℕ → Address
address_at bytes i = record {
  a0 = get_or bytes i 0;
  a1 = get_or bytes (i + 1) 0;
  a2 = get_or bytes (i + 2) 0;
  a3 = get_or bytes (i + 3) 0;
  a4 = get_or bytes (i + 4) 0;
}

abbrev on_radio : (Esb → Esb) → Usb → Usb
on_radio f u = record u { radio = f u.radio }

-- Lines 623 to 630.
unfoldable pub change_channel : ℕ → Usb → Usb
change_channel w_value u = record u {
  radio = if leb w_value 100 then esb_set_channel (u8 w_value) u.radio else u.radio;
  channel = u8 w_value;
  inline_mode = false;
}

-- Lines 637 to 648.
unfoldable pub change_datarate : ℕ → Usb → Usb
change_datarate datarate u = record u {
  radio =
      if datarate == 1
      then esb_set_bitrate bitrate_1m u.radio
      else if datarate == 2
      then esb_set_bitrate bitrate_2m u.radio
      else u.radio;
  datarate = u8 datarate;
  inline_mode = false;
}

-- Lines 660 to 666.
unfoldable pub change_ack : Bool → Usb → Usb
change_ack enabled u = record u {
  ack_enabled = enabled;
  radio = esb_set_ack_enabled enabled u.radio;
  inline_mode = false;
  inline_rssi_mode = false;
}

-- Lines 676 to 683.
unfoldable pub enter_sniffer : Usb → Usb
enter_sniffer u = record u {
  sniffer_mode = true;
  inline_mode = false;
  inline_rssi_mode = false;
  sniffer_drop_count = 0;
  radio = esb_sniffer_start true (u.radio ▹▹ (λ t. t ▹ msgq_purge)) ▹▹ led_set_blue true;
}

-- Lines 685 to 688; `irqs` are the interrupts while the sniffer stops.
unfoldable pub leave_sniffer : List Irq → Usb → Usb
leave_sniffer irqs u = record u {
  radio = esb_sniffer_stop irqs u.radio ▹▹ led_set_blue false;
  sniffer_mode = false;
}

-- Is it this request, with so many bytes of data?
abbrev pub asks : SetupPacket → (request w_length : ℕ) → Bool
asks p request w_length = p.b_request == request && p.w_length == w_length

-- A request that starts the sniffer, by lines 675 to 683.
abbrev pub is_entering : SetupCommand → Bool
is_entering c = asks c.setup_packet set_radio_mode 0 && c.setup_packet.w_value == 1

-- `prefix0` is what a read of PREFIX0 answers.
unfoldable pub handle_vendor_command : (prefix0 : ℕ) → List Irq → SetupCommand → Usb → Usb
handle_vendor_command prefix0 irqs setup u =
    let p = setup.setup_packet in
    let value = p.w_value in
    if asks p set_radio_channel 0
    then change_channel value u
    else if asks p set_radio_address 5
    then record u {
      radio = esb_set_address (address_at setup.bytes 0) prefix0 u.radio;
      inline_mode = false;
    }
    else if asks p set_data_rate 0 && ltb value 3
    then change_datarate value u
    else if asks p set_radio_power 0
    then u ▹▹▹ fem_set_power (get_or power_mapping (min value 3) 0)
    else if asks p set_radio_ard 0
    then u
    else if asks p set_radio_arc 0
    then on_radio (esb_set_arc (bit_and value 0x0f)) u
    else if asks p ack_enable 0
    then change_ack (not (value == 0)) u
    else if asks p set_cont_carrier 0
    then on_radio (λ s. (esb_set_continuous_carrier (not (value == 0)) s).0) u
    else if asks p set_mode 0
    then u
    else if asks p set_radio_mode 0
    then (if value == 1 then enter_sniffer u else if value == 0 then leave_sniffer irqs u else u)
    else if asks p set_sniffer_address 5
    then (if value == 0
        then on_radio (esb_set_address (address_at setup.bytes 0) prefix0) u
        else if value == 1
        then on_radio (esb_set_address_pipe1 (address_at setup.bytes 0) prefix0) u
        else u)
    else if asks p set_inline_mode 0
    then record u {
      inline_mode = not (value == 0);
      inline_rssi_mode = value == inline_mode_on_with_rssi;
    }
    else if asks p set_packet_loss_simulation 2
    then on_radio (esb_set_packet_loss_simulation (get_or setup.bytes 0 0) (get_or setup.bytes 1 0))
        u
    else u
