-- ===== src/Usb/Data/Delivery.antt =====
-- From a command of the host to what it reads back, through the radio.
use crazyradio2_firmware.Base.{
  ℕ, ◌+◌, ◌/◌, ◌%◌, ◌≤◌, ◌<◌, ◌≡◌, u8, bit, Bool, true, false, not, ◌&&◌, min, leb, ltb, ◌==◌, some,
  List, ◌∷◌, length, take, blit, arith, if◌then◌else◌, if_rule, refl, ap, ◌∙◌,
}
use crazyradio2_firmware.Platform.Trace.{last_write}
use crazyradio2_firmware.Esb.State.{EsbPacket}
use crazyradio2_firmware.Esb.Send.{Air}
use crazyradio2_firmware.Esb.Send.Exchange.{Exchange, answered, with_exchanges, IsReady}
use crazyradio2_firmware.Esb.Send.Answers.{esb_send_packet-first_answer}
use crazyradio2_firmware.Usb.State.{
  Usb, DataCommand, ok, memcpy-fits, Gives, Gives-bind, Gives-mono,
}
use crazyradio2_firmware.Usb.Data.{thread_send, load_packet, prepare, handle_data}
use crazyradio2_firmware.Usb.Data.Replies.{IsPlain, PlainReply, answer_sent-PlainReply}
use crazyradio2_firmware.Usb.Invariant.{HasRoom, IsCommand}

-- A thread that sends: out of the inline mode, with acks, on settings that the radio has.
pub record IsSending (air : Air) (u : Usb) : Type 0 where
  pub no_inline : u.inline_mode ≡ false
  pub acks : u.ack_enabled ≡ true
  pub radio_acks : u.radio.ack_enabled ≡ true
  pub has_rate : (u.datarate == 0) ≡ false
  pub has_channel : u.channel ≤ 100
  pub few_retries : u.radio.arc ≤ 15
  pub is_ready : IsReady air u.radio

-- The packet as it is loaded.
abbrev pub loaded : DataCommand → Usb → Usb
loaded c u =
    let n = if ltb 32 c.length then 32 else c.length in
    record u {
      packet = record u.packet { length = u8 n; bytes = blit 0 (take n c.payload) u.packet.bytes };
    }

pub prepare-loaded :
    (first : Air) (prefix0 : ℕ) (c : DataCommand) (u : Usb)
    → IsCommand c
    → HasRoom u.packet
    → u.inline_mode ≡ false
    → u.ack_enabled ≡ true
    → prepare first prefix0 c u ≡ ok (loaded c u)
unfolding prepare load_packet
prepare-loaded first prefix0 c u command room plain acks =
    let n = if ltb 32 c.length then 32 else c.length in
    let small : n ≤ 32 = ground arith in
    let there : n ≤ length c.payload = ground (arith, command) in
    if_rule (λ o. o ≡ ok (loaded c u)) u.inline_mode _ _ (λ h. absurd (ground arith))
      (λ _.
        if_rule (λ o. o ≡ ok (loaded c u)) (not u.ack_enabled && ltb 32 c.length) _ _
          (λ h. absurd (ground arith))
          (λ _.
            rw (memcpy-fits u.packet.bytes 0 c.payload n (omega (arith, small, room)) there) refl))

-- What a send leaves in the thread's variables.
record Delivered (u : Usb) (count : ℕ) (p : EsbPacket) (rssi : ℕ) (r : Usb × Bool) : Type 0 where
  came : r.1 ≡ true
  ack_is : r.0.ack ≡ p
  rssi_is : r.0.rssi ≡ rssi
  retries : r.0.arc_counter + 1 ≡ count
  inline_same : r.0.inline_mode ≡ u.inline_mode
  acks_same : r.0.ack_enabled ≡ u.ack_enabled

module _ (air : Air) (x : ℕ → Exchange) (u : Usb) (s : IsSending (with_exchanges air x) u) where
  thread_send-Delivered :
      (packet : EsbPacket) (k : ℕ) (p : EsbPacket)
      → k ≤ u.radio.arc
      → ((j : ℕ) → j < k → answered (x j) ≡ false)
      → answered (x k) ≡ true
      → (x k).received ≡ some p
      → Gives
          (Delivered u (k + 1) p (u8 air.rssi_sample))
          (thread_send (with_exchanges air x) (record u { packet = packet }))
  unfolding thread_send
  thread_send-Delivered packet k p le miss hit got = ground (
    arith,
    esb_send_packet-first_answer air x (u.radio.arc + 1) packet u.ack u.rssi u.arc_counter u.radio
        s.is_ready (omega arith) s.radio_acks k p le miss hit got,
  )

  -- Out of the inline mode, with acks enabled, settings that the radio has, no simulated losses and
  -- at most 15 retries: if transmission `k` is the first that is answered, and `k` is at most
  -- `arc`, then the host that has sent a command reads a status byte, with the ack in bit 0,
  -- whether the RSSI sample is below 64 in bit 1 and `k` in the upper four bits, and behind it the
  -- first 32 bytes of the packet that answered.
  pub handle_data-delivers :
      (first : Air) (prefix0 : ℕ) (c : DataCommand) (k : ℕ) (p : EsbPacket)
      → IsCommand c
      → HasRoom u.packet
      → HasRoom p
      → k ≤ u.radio.arc
      → ((j : ℕ) → j < k → answered (x j) ≡ false)
      → answered (x k) ≡ true
      → (x k).received ≡ some p
      → Gives
          (λ u'.
            (h : ℕ) × (last_write u'.radio.calls ≡ some (h ∷ take (min 32 p.length) p.bytes))
            × (h % 2 ≡ 1)
            × (h / 2 % 2 ≡ bit (ltb (u8 air.rssi_sample) 64))
            × (h / 16 ≡ k))
          (handle_data first (with_exchanges air x) prefix0 c u)
  unfolding handle_data
  handle_data-delivers first prefix0 c k p command room has le miss hit got =
      let valid : (not (u.datarate == 0) && leb u.channel 100) ≡ true = ground (arith, s) in
      rw (prepare-loaded first prefix0 c u command room s.no_inline s.acks, valid)
        (Gives-bind (Delivered u (k + 1) p (u8 air.rssi_sample)) _
          (thread_send (with_exchanges air x) (loaded c u)) _
          (thread_send-Delivered (loaded c u).packet k p le miss hit got)
          (λ r d.
            let plain : IsPlain r.0 = record {
              no_inline = d.inline_same ∙ s.no_inline;
              acks = d.acks_same ∙ s.acks;
              ack_room = ap (λ a. length a.bytes) d.ack_is ∙ has;
            } in
            let same : take (min 32 r.0.ack.length) r.0.ack.bytes ≡ take (min 32 p.length) p.bytes =
              ap (λ a. take (min 32 a.length) a.bytes) d.ack_is in
            let small : k < 16 = omega (arith, le, s.few_retries) in
            rw d.came (
              Gives-mono
                (λ u'.
                  (bytes : List ℕ) × (last_write u'.radio.calls ≡ some bytes)
                  × PlainReply true r.0 bytes)
                _ _
                (λ u' w.
                  let reads = w.2.2 in
                  (
                    w.2.0,
                    w.1 ∙ ap some (w.2.1 ∙ ap (λ rest. w.2.0 ∷ rest) same),
                    reads.0,
                    reads.1 ∙ ap (λ n. bit (ltb n 64)) d.rssi_is,
                    omega (arith, reads.2, d.retries, small),
                  ))
                (answer_sent-PlainReply true r.0 plain))))
