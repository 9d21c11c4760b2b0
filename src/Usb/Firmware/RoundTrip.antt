-- ===== src/Usb/Firmware/RoundTrip.antt =====
-- From a bulk transfer of the host, through the command queue, the thread and the radio, to what the
-- host reads back.
use crazyradio2_firmware.Base.{
  ℕ, ◌/◌, ◌%◌, ◌≤◌, ◌<◌, ◌≡◌, refl, sym, ap, ◌∙◌, u8, bit, true, false, min, ltb, none, some, List,
  [], ◌∷◌, ◌++◌, take, take-min, take-take, arith, if_rule,
}
use crazyradio2_firmware.Platform.{◌▹◌, mutex_lock, usb_radio_mutex}
use crazyradio2_firmware.Platform.Trace.{last_write, last_packetptr, at_last_tx}
use crazyradio2_firmware.Esb.State.{EsbPacket, SnifferPacket}
use crazyradio2_firmware.Esb.Send.Buffers.{Receives}
use crazyradio2_firmware.Esb.Send.Exchange.{Exchange, answered, with_exchanges}
use crazyradio2_firmware.Usb.State.{Usb, DataCommand, ok, Gives, Gives-bind, Gives-mono, ◌▹▹▹◌}
use crazyradio2_firmware.Usb.Queue.{MsgQueue}
use crazyradio2_firmware.Usb.Out.Reassembly.{IsGathered, flat, run}
use crazyradio2_firmware.Usb.Data.{UsbCommand, data_command, normal_round, handle_data}
use crazyradio2_firmware.Usb.Data.Delivery.{IsSending, handle_data-delivers}
use crazyradio2_firmware.Usb.Data.Sending.{Holds, sent_bytes, handle_data-sends}
use crazyradio2_firmware.Usb.Data.Aim.{handle_data-IsAimed}
use crazyradio2_firmware.Usb.State.Partial.{Gives-and, Gives-both}
use crazyradio2_firmware.Esb.Send.OnAir.{IsAimed}
use crazyradio2_firmware.Usb.Invariant.{UsbInv, HasRoom}
use crazyradio2_firmware.Usb.Invariant.Data.{stays_inside}
use crazyradio2_firmware.Usb.Session.Safety.{IsTame}
use crazyradio2_firmware.Usb.Firmware.{
  Firmware, World, transferred, turned, with_usb, get_command, take_command, purged, command_round,
  round_with, thread_round, bulk_transfer, unless_blocked, happen, run_all,
}
use crazyradio2_firmware.Usb.Firmware.Kept.{FirmwareInv}
use crazyradio2_firmware.Usb.Firmware.Transfers.{IsTameTransfer, gathered-IsTame}
use crazyradio2_firmware.Usb.Firmware.Steps.{bulk_transfer-Queued, get_command-alone, settle-keeps}

-- The host reads a status byte that says `k` retries, and the packet that answered.
abbrev pub ReadsBack : (rssi k : ℕ) → EsbPacket → Usb → Type 0
ReadsBack rssi k p u =
    (h : ℕ) × (last_write u.radio.calls ≡ some (h ∷ take (min 32 p.length) p.bytes))
    × (h % 2 ≡ 1)
    × (h / 2 % 2 ≡ bit (ltb rssi 64))
    × (h / 16 ≡ k)

gathered-sent :
    (bytes : List ℕ) (c : DataCommand)
    → IsGathered bytes c
    → sent_bytes false true c ≡ take 32 bytes
gathered-sent bytes c g =
    let n = min 32 c.length in
    sym (take-take n c.length c.payload (omega arith))
    ∙ ap (take n) g.gathered
    ∙ take-take n 128 bytes (omega arith)
    ∙ ap (λ m. take m bytes) (omega (arith, g.counted))
    ∙ take-min 32 bytes

-- A round in which the radio answers transmission `k` first, with `p`.
abbrev pub answering : World → (ℕ → Exchange) → World
answering w x = record w { air = with_exchanges w.air x }

pub record Answers (w : World) (x : ℕ → Exchange) (k : ℕ) (p : EsbPacket) (arc : ℕ) : Type 0 where
  pub in_time : k ≤ arc
  pub missed : (j : ℕ) → j < k → answered (x j) ≡ false
  pub hit : answered (x k) ≡ true
  pub got : (x k).received ≡ some p
  pub room : HasRoom p
  pub whole_buffers : Receives HasRoom w.first × Receives HasRoom (with_exchanges w.air x)

-- What the thread's state is to show: the host has read the answer, the packet holds `bytes`, and the
-- last transmission was started with the radio pointed at the packet.
abbrev pub RoundTrip : (rssi k : ℕ) → EsbPacket → List ℕ → Usb → Type 0
RoundTrip rssi k p bytes u = ReadsBack rssi k p u × (Holds bytes u.packet × IsAimed u.radio.calls)

module _ (w : World) (x : ℕ → Exchange) (k : ℕ) (p : EsbPacket) (c : DataCommand) where
  handle_data-RoundTrip :
      (u : Usb)
      → IsTame (some (data_command c))
      → UsbInv u
      → IsSending (with_exchanges w.air x) u
      → Answers w x k p u.radio.arc
      → Gives
          (RoundTrip (u8 w.air.rssi_sample) k p (sent_bytes false true c))
          (handle_data w.first (with_exchanges w.air x) w.prefix0 c u)
  handle_data-RoundTrip u tame v s a =
      let inside : stays_inside c u ≡ true = ground (arith, tame, s) in
      let wanted : sent_bytes u.inline_mode u.ack_enabled c ≡ sent_bytes false true c =
        ap (λ b. sent_bytes b u.ack_enabled c) s.no_inline
        ∙ ap (λ b. sent_bytes false b c) s.acks in
      let goes = with_exchanges w.air x in
      let bytes = sent_bytes false true c in
      let handled = handle_data w.first goes w.prefix0 c u in
      let Q : Usb → Type 0 = λ u'. Holds bytes u'.packet in
      let holds : Gives Q handled =
        Gives-mono _ Q handled (λ u' h. rw (← wanted) h.0)
          (handle_data-sends w.first goes w.prefix0 c u tame.0 v a.whole_buffers.0 a.whole_buffers.1
            tame.3 inside) in
      Gives-both (ReadsBack (u8 w.air.rssi_sample) k p) (λ u'. Q u' × IsAimed u'.radio.calls)
        handled
        (handle_data-delivers w.air x u s w.first w.prefix0 c k p tame.0 v.packet_room a.room
          a.in_time a.missed a.hit a.got)
        (Gives-and Q (λ u'. IsAimed u'.radio.calls) handled holds
          (handle_data-IsAimed w.first w.prefix0 c u goes s tame.0 v.packet_room))

  normal_round-RoundTrip :
      (u : Usb)
      → IsTame (some (data_command c))
      → UsbInv u
      → IsSending (with_exchanges w.air x) u
      → Answers w x k p u.radio.arc
      → Gives
          (RoundTrip (u8 w.air.rssi_sample) k p (sent_bytes false true c))
          (normal_round w.first (with_exchanges w.air x) w.prefix0 w.irqs (data_command c) u)
  unfolding normal_round
  normal_round-RoundTrip u tame v s a =
      let locked = u ▹▹▹ (λ t. t ▹ mutex_lock usb_radio_mutex) in
      let P : Usb → Type 0 = RoundTrip (u8 w.air.rssi_sample) k p (sent_bytes false true c) in
      Gives-bind P P (handle_data w.first (with_exchanges w.air x) w.prefix0 c locked) _
        (handle_data-RoundTrip locked tame (ground (arith, v, v.radio_inv))
          (ground (arith, s, s.is_ready)) a)
        (λ u' h. h)

module _ {cq : MsgQueue UsbCommand} {sq : MsgQueue SnifferPacket} where
  command_round-RoundTrip :
      (w : World) (x : ℕ → Exchange) (k : ℕ) (p : EsbPacket) (c : DataCommand) (f : Firmware cq sq)
      → IsTame (some (data_command c))
      → UsbInv f.vendor.usb
      → f.vendor.usb.sniffer_mode ≡ false
      → IsSending (with_exchanges w.air x) f.vendor.usb
      → Answers w x k p f.vendor.usb.radio.arc
      → Gives
          (λ f'. RoundTrip (u8 w.air.rssi_sample) k p (sent_bytes false true c) f'.vendor.usb)
          (command_round (answering w x) (data_command c) f)
  unfolding command_round purged
  command_round-RoundTrip w x k p c f tame v off s a =
      let P : Usb → Type 0 = RoundTrip (u8 w.air.rssi_sample) k p (sent_bytes false true c) in
      let Q : Firmware cq sq → Type 0 = λ f'. P f'.vendor.usb in
      if_rule (Gives Q) f.vendor.usb.sniffer_mode _ _ (λ on. absurd (ground arith))
        (λ _.
          Gives-bind P Q
            (normal_round w.first (with_exchanges w.air x) w.prefix0 w.irqs (data_command c)
              f.vendor.usb)
            _ (normal_round-RoundTrip w x k p c f.vendor.usb tame v s a)
            (λ u' h.
              let kept = settle-keeps (with_usb u' f) in
              (
                (h.0.0, ap last_write kept.0 ∙ h.0.1, h.0.2, h.0.3, h.0.4),
                (rw kept.1 h.1.0, ap last_packetptr (ap at_last_tx kept.0) ∙ h.1.1),
              )))

  -- The host hands over a bulk transfer while the thread is idle, out of the inline and the sniffer
  -- mode, with acks, settings that the radio has and no simulated losses, and the thread takes a
  -- turn: if transmission `k` is the first that the radio answers, with the packet `p`, and `k` is
  -- at most `arc`, then the last transmission was started with the radio pointed at the thread's
  -- packet, which holds the first 32 bytes of the transfer, and the host reads a status byte that
  -- says `k` retries and the first 32 bytes of `p`. The transfer is of fewer than 128 bytes and
  -- starts with a byte of at least 8, which leaves out the packets whose first byte is 0 to 7; the
  -- radio fills whole buffers.
  pub transfer-RoundTrip :
      (full : List (List ℕ)) (last : List ℕ) (w : World) (x : ℕ → Exchange) (k : ℕ) (p : EsbPacket)
      (f : Firmware cq sq)
      → FirmwareInv f
      → 0 < cq.max_msgs
      → cq.contents f.commands ≡ []
      → f.blocked ≡ none
      → IsTameTransfer full last
      → f.vendor.usb.sniffer_mode ≡ false
      → IsSending (with_exchanges w.air x) f.vendor.usb
      → Answers w x k p f.vendor.usb.radio.arc
      → Gives
          (λ f'. RoundTrip (u8 w.air.rssi_sample) k p (take 32 (flat full ++ last)) f'.vendor.usb)
          (run_all (transferred full last ∷ turned (answering w x) ∷ []) f)
  unfolding run_all happen thread_round take_command
  transfer-RoundTrip full last w x k p f v room empty free tame off s a =
      let c = (run (full ++ last ∷ []) f.out).0.command in
      let (made, queued) =
        bulk_transfer-Queued full last f room empty free v.out_fresh tame.0 tame.1 in
      let g = bulk_transfer full last f in
      let sends : IsTame (some (data_command c)) =
        gathered-IsTame (flat full ++ last) c made tame.2 tame.3 tame.4 in
      let Q : Firmware cq sq → Type 0 =
        λ f'. RoundTrip (u8 w.air.rssi_sample) k p (sent_bytes false true c) f'.vendor.usb in
      let passes : unless_blocked f.blocked (ok g) f ≡ ok g =
        ap (λ b. unless_blocked b (ok g) f) free in
      let turn : Gives Q (round_with (answering w x) (get_command g (cq.get g.commands))) =
        get_command-alone (λ r. Gives Q (round_with (answering w x) r)) (data_command c) g
          queued.alone queued.free
          (λ f' e.
            let same : f'.vendor ≡ f.vendor = e ∙ queued.vendor_same in
            command_round-RoundTrip w x k p c f' sends (rw same v.vendor_inv.usb_inv) (rw same off)
              (rw same s) (rw same a))
          (cq.get g.commands) refl in
      rw (← gathered-sent (flat full ++ last) c made, passes) (Gives-bind Q Q _ _ turn (λ f' h. h))
