-- ===== src/Usb/Invariant.antt =====
-- What every handler of src/legacy_usb.c keeps.
pub mod Sends
pub mod Commands
pub mod Data
pub mod Rounds
pub mod Carried
use crazyradio2_firmware.Base.{ℕ, ◌≤◌, ◌≡◌, Option, some, List, length}
use crazyradio2_firmware.Esb.State.{EsbPacket}
use crazyradio2_firmware.Esb.Api.Invariant.{Inv}
use crazyradio2_firmware.Esb.Send.{Air}
use crazyradio2_firmware.Esb.Send.Buffers.{Receives}
use crazyradio2_firmware.Usb.State.{Usb, DataCommand}

-- The array `data` of a packet.
abbrev pub HasRoom : EsbPacket → Type 0
HasRoom p = length p.bytes ≡ 63

-- The radio keeps its invariant, the arrays keep their sizes, and the scan stays in its array.
pub record UsbInv (u : Usb) : Type 0 where
  pub radio_inv : Inv u.radio
  pub packet_room : HasRoom u.packet
  pub ack_room : HasRoom u.ack
  pub scan_packet_room : HasRoom u.scan_packet
  pub scan_ack_room : HasRoom u.scan_ack
  pub answer_room : length u.usb_answer ≡ 128
  pub scan_room : length u.scan_result ≡ 63
  pub scan_count : u.scan_result_length ≤ 63

-- A command as `crazyradio_out_cb` makes it.
pub record IsCommand (c : DataCommand) : Type 0 where
  pub payload_room : length c.payload ≡ 128
  pub counted : c.length ≤ 128
