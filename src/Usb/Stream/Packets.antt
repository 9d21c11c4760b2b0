-- ===== src/Usb/Stream/Packets.antt =====
-- What the host reads in the sniffer mode.
use crazyradio2_firmware.Base.{
  ℕ, ◌+◌, ◌*◌, ◌^◌, ◌<◌, ◌≡◌, u8, List, [], ◌∷◌, ◌++◌, append-nil, length, arith, take, drop, blit,
  take-blit, length-blit, length-take, ltb, ◌==◌, get_or, if◌then◌else◌, if_rule, refl, ap, ◌∙◌,
  sym,
}
use crazyradio2_firmware.Platform.Trace.{writes}
use crazyradio2_firmware.Led.{led_pulse_green}
use crazyradio2_firmware.Esb.State.{SnifferPacket}
use crazyradio2_firmware.Usb.State.{Usb, memcpy-fits, Gives, Gives-bind, Gives-mono}
use crazyradio2_firmware.Usb.Stream.{stream_header, stream_packet}
use crazyradio2_firmware.Usb.Invariant.Rounds.{IsSniffed}

-- What the host reads of a packet: its own length, the RSSI, the pipe, the timestamp in
-- little-endian order, and the payload.
pub record IsStreamed (p : SnifferPacket) (bytes : List ℕ) : Type 0 where
  pub counts : get_or bytes 0 0 ≡ length bytes
  pub whole : length bytes ≡ 7 + p.length
  pub rssi : get_or bytes 1 0 ≡ p.rssi
  pub pipe : get_or bytes 2 0 ≡ p.pipe
  pub timestamp :
      get_or bytes 3 0
        + get_or bytes 4 0 * 2 ^ 8
        + get_or bytes 5 0 * 2 ^ 16
        + get_or bytes 6 0 * 2 ^ 24
      ≡ p.timestamp_us
  pub payload : drop 7 bytes ≡ take p.length p.bytes

-- The bytes that are written for a packet.
abbrev streamed : SnifferPacket → List ℕ
streamed p = stream_header p ++ take p.length p.bytes

streamed-IsStreamed :
    (p : SnifferPacket) → IsSniffed p → p.timestamp_us < 2 ^ 32 → IsStreamed p (streamed p)
unfolding stream_header
streamed-IsStreamed p s word =
    let size : length (take p.length p.bytes) ≡ p.length =
      omega (arith, s, length-take p.length p.bytes) in
    record {
      counts = omega (arith, s, size);
      whole = omega (arith, size);
      rssi = refl;
      pipe = refl;
      timestamp = omega arith;
      payload = refl;
    }

stream_packet-writes :
    (p : SnifferPacket) (u : Usb)
    → IsSniffed p
    → length u.usb_answer ≡ 128
    → Gives
        (λ u'. writes u'.radio.calls ≡ (
          if 7 + p.length == 64
          then [] ∷ streamed p ∷ writes u.radio.calls
          else streamed p ∷ writes u.radio.calls))
        (stream_packet p u)
unfolding stream_packet led_pulse_green
stream_packet-writes p u s room =
    let front = stream_header p in
    let with_header = blit 0 front u.usb_answer in
    let with_room = length-blit 0 front u.usb_answer (unfold stream_header in omega arith) in
    let total : u8 (7 + p.length) ≡ 7 + p.length = omega (arith, s) in
    let size : length (take p.length p.bytes) ≡ p.length =
      omega (arith, s, length-take p.length p.bytes) in
    let starts : take 7 with_header ≡ front =
      take-blit 0 7 front u.usb_answer (unfold stream_header in omega arith)
        (unfold stream_header in refl) in
    Gives-bind (λ a. take (u8 (7 + p.length)) a ≡ streamed p) _ _ _
      (if_rule (Gives (λ a. take (u8 (7 + p.length)) a ≡ streamed p)) (ltb 0 p.length) _ _
        (λ filled.
          rw
            (memcpy-fits with_header 7 p.bytes p.length (omega (arith, with_room, s))
              (omega (arith, s)))
            (take-blit 7 (u8 (7 + p.length)) (take p.length p.bytes) with_header
                (omega (arith, with_room, size, s)) (omega (arith, total, size))
              ∙ ap (λ xs. xs ++ take p.length p.bytes) starts))
        (λ bare.
          let seven : u8 (7 + p.length) ≡ 7 = ground (arith, total) in
          let none_left : 0 ≡ p.length = ground arith in
          ap (λ k. take k with_header) seven
          ∙ starts
          ∙ sym (append-nil front)
          ∙ ap (λ k. front ++ take k p.bytes) none_left))
      (λ a e. ground (arith, e, total))

-- A packet of the sniffer's queue goes to the host as one transfer from which the host reads the
-- packet back; it is followed by an empty one exactly if it fills the endpoint's 64 bytes.
pub stream_packet-IsStreamed :
    (p : SnifferPacket) (u : Usb)
    → IsSniffed p
    → p.timestamp_us < 2 ^ 32
    → length u.usb_answer ≡ 128
    → Gives
        (λ u'.
          (bytes : List ℕ) × IsStreamed p bytes
          × (writes u'.radio.calls ≡ (
              if length bytes == 64
              then [] ∷ bytes ∷ writes u.radio.calls
              else bytes ∷ writes u.radio.calls)))
        (stream_packet p u)
stream_packet-IsStreamed p u s word room =
    let good = streamed-IsStreamed p s word in
    Gives-mono
      (λ u'. writes u'.radio.calls ≡ (
        if 7 + p.length == 64
        then [] ∷ streamed p ∷ writes u.radio.calls
        else streamed p ∷ writes u.radio.calls))
      _ (stream_packet p u) (λ u' w. (streamed p, good, rw good.whole w))
      (stream_packet-writes p u s room)
