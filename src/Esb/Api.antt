-- ===== src/Esb/Api.antt =====
-- The functions that src/esb.h offers, as calls that a client makes in any order after `esb_init`.
pub mod Invariant
use crazyradio2_firmware.Base.{ℕ, ◌+◌, Bool, Option, none, some, List, [], ◌∷◌}
use crazyradio2_firmware.Esb.State.{Esb, EsbPacket, Address}
use crazyradio2_firmware.Esb.Isr.{Irq, radio_isr}
use crazyradio2_firmware.Esb.Address.{esb_set_address, esb_set_address_pipe1}
use crazyradio2_firmware.Esb.Config.{
  esb_deinit, esb_set_arc, esb_set_ack_enabled, esb_set_channel, esb_set_bitrate,
  esb_set_packet_loss_simulation, esb_set_continuous_carrier,
}
use crazyradio2_firmware.Esb.Send.{Air, Sent, esb_send_packet}
use crazyradio2_firmware.Esb.Sniffer.{
  SnifferAir, esb_sniffer_start, esb_sniffer_send, esb_sniffer_stop,
}

-- Each call with its arguments, and with what the world does during it; or an interrupt between two
-- calls.
pub data ApiCall : Type 0 where
  interrupted : Irq → ApiCall
  deinit : List Irq → ApiCall
  set_arc set_channel set_bitrate : ℕ → ApiCall
  set_ack_enabled set_continuous_carrier : Bool → ApiCall
  set_address set_address_pipe1 : Address → ℕ → ApiCall
  set_packet_loss_simulation : ℕ → ℕ → ApiCall
  send_packet : Air → (packet ack : EsbPacket) → (rssi retry : ℕ) → ApiCall
  sniffer_start : Bool → ApiCall
  sniffer_send : SnifferAir → EsbPacket → Address → ApiCall
  sniffer_stop : List Irq → ApiCall

-- The state that a call of `esb_send_packet` leaves.
abbrev pub sent_state : Esb → Option Sent → Esb
sent_state s none = s
sent_state s (some r) = r.esb

unfoldable pub step : ApiCall → Esb → Esb
step (interrupted q) s = radio_isr q s
step (deinit irqs) s = esb_deinit irqs s
step (set_arc value) s = esb_set_arc value s
step (set_channel channel) s = esb_set_channel channel s
step (set_bitrate bitrate) s = esb_set_bitrate bitrate s
step (set_ack_enabled enabled) s = esb_set_ack_enabled enabled s
step (set_continuous_carrier enable) s = (esb_set_continuous_carrier enable s).0
step (set_address a prefix0) s = esb_set_address a prefix0 s
step (set_address_pipe1 a prefix0) s = esb_set_address_pipe1 a prefix0 s
step (set_packet_loss_simulation packet_loss ack_loss) s =
    esb_set_packet_loss_simulation packet_loss ack_loss s
step (send_packet air packet ack rssi retry) s =
    sent_state s (esb_send_packet air (s.arc + 1) packet ack rssi retry s)
step (sniffer_start callback) s = esb_sniffer_start callback s
step (sniffer_send air packet address) s = (esb_sniffer_send air packet address s).0
step (sniffer_stop irqs) s = esb_sniffer_stop irqs s

unfoldable pub run : List ApiCall → Esb → Esb
run [] s = s
run (c ∷ cs) s = run cs (step c s)
