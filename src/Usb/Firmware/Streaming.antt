-- ===== src/Usb/Firmware/Streaming.antt =====
-- The packets that wait in the sniffer's queue, on their way through the thread to the host.
use crazyradio2_firmware.Base.{
  ℕ, ◌^◌, ◌<◌, ◌≡◌, refl, sym, ap, ◌∙◌, true, ◌==◌, Option, none, some, List, [], ◌∷◌, map, length,
  arith, if◌then◌else◌, if_rule,
}
use crazyradio2_firmware.Platform.Trace.{writes}
use crazyradio2_firmware.Esb.State.{SnifferPacket}
use crazyradio2_firmware.Esb.Unnoticed.{all_fit}
use crazyradio2_firmware.Usb.State.{Usb, memcpy, Gives, Gives-bind, Gives-mono}
use crazyradio2_firmware.Usb.State.Partial.{Allows, Gives-and, Gives-both}
use crazyradio2_firmware.Usb.Queue.{MsgQueue}
use crazyradio2_firmware.Usb.Data.{UsbCommand}
use crazyradio2_firmware.Usb.Stream.{stream_packet}
use crazyradio2_firmware.Usb.Stream.Packets.{IsStreamed, stream_packet-IsStreamed}
use crazyradio2_firmware.Usb.Invariant.Rounds.{IsSniffed}
use crazyradio2_firmware.Usb.Firmware.{
  Firmware, World, turned, take_command, get_packet, poll_sniffer, thread_round, happen, run_all,
}
use crazyradio2_firmware.Usb.Firmware.Kept.{FirmwareInv, poll_sniffer-FirmwareInv}
use crazyradio2_firmware.Usb.Firmware.Heard.{get_command-none}

-- What has been written, newest first, once these bytes are: an empty transfer ends one of 64.
abbrev pub transferring : List ℕ → List (List ℕ) → List (List ℕ)
transferring bytes before = if length bytes == 64 then [] ∷ bytes ∷ before else bytes ∷ before

-- From `before` to `after` the host reads these packets, in this order, and nothing else.
abbrev pub ReadsAll : List SnifferPacket → (before after : List (List ℕ)) → Type 0
ReadsAll [] before after = after ≡ before
ReadsAll (p ∷ ps) before after =
    (bytes : List ℕ) × IsStreamed p bytes × ReadsAll ps (transferring bytes before) after

abbrev pub AllStamped : List SnifferPacket → Type 0
AllStamped [] = Unit
AllStamped (p ∷ ps) = (p.timestamp_us < 2 ^ 32) × AllStamped ps

stream_packet-mode :
    (p : SnifferPacket) (u : Usb)
    → Allows (λ u'. u'.sniffer_mode ≡ u.sniffer_mode) (stream_packet p u)
unfolding stream_packet memcpy
stream_packet-mode p u = ground arith

module _ {cq : MsgQueue UsbCommand} {sq : MsgQueue SnifferPacket} where
  -- In the sniffer mode, with no command and these packets in the queues.
  pub record HoldsPackets (ps : List SnifferPacket) (f : Firmware cq sq) : Type 0 where
    pub in_mode : f.vendor.usb.sniffer_mode ≡ true
    pub no_commands : cq.contents f.commands ≡ []
    pub sniffed : sq.contents f.sniffs ≡ ps

  -- The host has read the packet, and the others still wait.
  abbrev Reads : SnifferPacket → List SnifferPacket → Firmware cq sq → Firmware cq sq → Type 0
  Reads p ps f f' =
      HoldsPackets ps f'
      × ((bytes : List ℕ) × IsStreamed p bytes
          × (writes f'.vendor.usb.radio.calls
              ≡ transferring bytes (writes f.vendor.usb.radio.calls)))

  get_packet-Reads :
      (p : SnifferPacket) (ps : List SnifferPacket) (f : Firmware cq sq)
      → FirmwareInv f
      → p.timestamp_us < 2 ^ 32
      → HoldsPackets (p ∷ ps) f
      → (o : Option (SnifferPacket × sq.Q)) → sq.get f.sniffs ≡ o
      → Gives (Reads p ps f) (get_packet f o)
  get_packet-Reads p ps f v stamp h none e =
      let first : p ∷ ps ≡ [] = sym h.sniffed ∙ sq.get_none f.sniffs e in absurd (ground arith)
  get_packet-Reads p ps f v stamp h (some r) e =
      let u = f.vendor.usb in
      let first : p ∷ ps ≡ r.0 ∷ sq.contents r.1 = sym h.sniffed ∙ sq.get_some f.sniffs r e in
      let same : r.0 ≡ p = ground arith in
      let rest : sq.contents r.1 ≡ ps = ground arith in
      let fit : all_fit (p ∷ ps) ≡ true = ap all_fit (sym h.sniffed) ∙ v.conserved.queue_fits in
      let good : IsSniffed p = record {
        bytes_room = ground (arith, fit);
        capped = ground (arith, fit);
      } in
      let Read : Usb → Type 0 = λ u'.
        (bytes : List ℕ) × IsStreamed p bytes
        × (writes u'.radio.calls ≡ transferring bytes (writes u.radio.calls)) in
      let Q : Usb → Type 0 = λ u'. Read u' × (u'.sniffer_mode ≡ u.sniffer_mode) in
      let streams : Gives Q (stream_packet p u) =
        Gives-and Read (λ u'. u'.sniffer_mode ≡ u.sniffer_mode) _
          (stream_packet-IsStreamed p u good stamp v.vendor_inv.usb_inv.answer_room)
          (stream_packet-mode p u) in
      Gives-bind Q (Reads p ps f) (stream_packet r.0 u) _ (rw same streams) (λ u' w.
        (record { in_mode = w.1 ∙ h.in_mode; no_commands = h.no_commands; sniffed = rest }, w.0))

  turned-Reads :
      (w : World) (p : SnifferPacket) (ps : List SnifferPacket) (f : Firmware cq sq)
      → FirmwareInv f
      → p.timestamp_us < 2 ^ 32
      → HoldsPackets (p ∷ ps) f
      → Gives (λ f'. FirmwareInv f' × Reads p ps f f') (happen (turned w) f)
  unfolding happen thread_round take_command
  turned-Reads w p ps f v stamp h =
      let Q : Firmware cq sq → Type 0 = λ f'. FirmwareInv f' × Reads p ps f f' in
      let weaker : Gives (Reads p ps f) (poll_sniffer f) =
        unfold poll_sniffer in get_packet-Reads p ps f v stamp h (sq.get f.sniffs) refl in
      let polled : Gives Q (poll_sniffer f) =
        Gives-both FirmwareInv (Reads p ps f) _ (poll_sniffer-FirmwareInv f v) weaker in
      rw (get_command-none f h.no_commands (cq.get f.commands) refl) (
        if_rule (Gives Q) f.vendor.usb.sniffer_mode _ _ (λ _. polled)
          (λ off. let on = h.in_mode in absurd (ground arith)))

  -- In the sniffer mode, from a sound state with no command waiting: as many rounds of the thread as
  -- packets wait in the sniffer's queue empty it, and the host reads those packets, in their order and
  -- nothing else: each in one transfer, with its length, RSSI, pipe and timestamp, followed by an
  -- empty one exactly if it fills 64 bytes. The timestamps are of 32 bits.
  pub run_all-ReadsAll :
      (ws : List World) (ps : List SnifferPacket) (f : Firmware cq sq)
      → FirmwareInv f
      → AllStamped ps
      → HoldsPackets ps f
      → length ws ≡ length ps
      → Gives
          (λ f'.
            HoldsPackets [] f'
            × ReadsAll ps (writes f.vendor.usb.radio.calls) (writes f'.vendor.usb.radio.calls))
          (run_all (map turned ws) f)
  unfolding run_all
  run_all-ReadsAll [] [] f v stamps h e = (h, refl)
  run_all-ReadsAll [] (p ∷ ps) f v stamps h e = absurd (omega (arith, e))
  run_all-ReadsAll (w ∷ ws) [] f v stamps h e = absurd (omega (arith, e))
  run_all-ReadsAll (w ∷ ws) (p ∷ ps) f v stamps h e =
      Gives-bind (λ g. FirmwareInv g × Reads p ps f g) _ (happen (turned w) f) _
        (turned-Reads w p ps f v stamps.0 h)
        (λ g r.
          Gives-mono
            (λ f'.
              HoldsPackets [] f'
              × ReadsAll ps (writes g.vendor.usb.radio.calls) (writes f'.vendor.usb.radio.calls))
            _ _ (λ f' k. (k.0, (r.1.1.0, r.1.1.1, rw (← r.1.1.2) k.1)))
            (run_all-ReadsAll ws ps g r.0 stamps.1 r.1.0 (omega (arith, e))))
