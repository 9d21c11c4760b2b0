-- ===== src/Usb/Firmware/Heard.antt =====
-- From a packet that the radio hears in the sniffer mode, through the sniffer's queue and the thread,
-- to what the host reads.
use crazyradio2_firmware.Base.{
  ℕ, ◌≡◌, refl, sym, ◌∙◌, true, ◌==◌, Option, none, some, List, [], ◌∷◌, length, arith,
  if◌then◌else◌,
}
use crazyradio2_firmware.Platform.Trace.{writes}
use crazyradio2_firmware.Esb.State.{Esb, SnifferPacket}
use crazyradio2_firmware.Esb.Unnoticed.{Unnoticed}
use crazyradio2_firmware.Usb.State.{Usb}
use crazyradio2_firmware.Usb.Queue.{MsgQueue}
use crazyradio2_firmware.Usb.Data.{UsbCommand}
use crazyradio2_firmware.Usb.Stream.Packets.{IsStreamed}
use crazyradio2_firmware.Usb.Firmware.{Firmware, get_command}

-- Between two rounds of the sniffer mode: both queues are empty, and the callback has no packet.
pub record IsListening {cq : MsgQueue UsbCommand} {sq : MsgQueue SnifferPacket} (f : Firmware cq sq)
    : Type 0 where
  pub in_mode : f.vendor.usb.sniffer_mode ≡ true
  pub hears : f.vendor.usb.radio.sniffer_active ≡ true
  pub calls_back : f.vendor.usb.radio.sniffer_callback ≡ true
  pub settled : f.vendor.usb.radio.delivered ≡ []
  pub no_commands : cq.contents f.commands ≡ []
  pub no_sniffs : sq.contents f.sniffs ≡ []

module _ {cq : MsgQueue UsbCommand} {sq : MsgQueue SnifferPacket} where
  -- The packet is alone in the sniffer's queue.
  record Waits (p : SnifferPacket) (u : Usb) (f : Firmware cq sq) : Type 0 where
    alone : sq.contents f.sniffs ≡ p ∷ []
    none_taken : cq.contents f.commands ≡ []
    mode_same : f.vendor.usb.sniffer_mode ≡ u.sniffer_mode
    answer_same : f.vendor.usb.usb_answer ≡ u.usb_answer
    writes_same : writes f.vendor.usb.radio.calls ≡ writes u.radio.calls

  pub get_command-none :
      (f : Firmware cq sq)
      → cq.contents f.commands ≡ []
      → (o : Option (UsbCommand × cq.Q)) → cq.get f.commands ≡ o
      → get_command f o ≡ (none, f)
  get_command-none f empty none e = refl
  get_command-none f empty (some r) e =
      let first : [] ≡ r.0 ∷ cq.contents r.1 = sym empty ∙ cq.get_some f.commands r e in
      absurd (ground arith)

  -- What the host reads of the packet, after what it had been written before.
  abbrev pub Streams : SnifferPacket → Usb → Firmware cq sq → Type 0
  Streams p u f =
      (bytes : List ℕ) × IsStreamed p bytes
      × (writes f.vendor.usb.radio.calls ≡ (
          if length bytes == 64
          then [] ∷ bytes ∷ writes u.radio.calls
          else bytes ∷ writes u.radio.calls))
