-- ===== src/Usb/Scan/Channels.antt =====
-- What a scan finds.
use crazyradio2_firmware.Base.{
  ℕ, zero, suc, ◌+◌, ◌-◌, ◌≤◌, ◌<◌, u8, ◌≡◌, refl, ap, ◌∙◌, inl, inr, Bool, List, [], ◌∷◌, ◌++◌,
  append_assoc, append-nil, arith, ltb, leb, min, if◌then◌else◌, take, length, length-append,
  length-blit, take-blit, take_all, Bool-cases, take-append,
}
use crazyradio2_firmware.Led.{led_pulse_green, led_pulse_red}
use crazyradio2_firmware.Esb.Config.{esb_set_channel}
use crazyradio2_firmware.Esb.Send.{Air}
use crazyradio2_firmware.Esb.Send.Exchange.{Exchange, with_exchanges}
use crazyradio2_firmware.Usb.State.{Usb, Outcome, ok, memcpy-fits, Gives, Gives-bind, ◌▹▹▹◌}
use crazyradio2_firmware.Usb.Scan.{scan_send, store_channel, scan_loop, fw_scan}
use crazyradio2_firmware.Usb.Scan.Probe.{
  any_answered, HasPackets, IsListening, Probed, scan_send-Probed,
}

-- The channels from `channel` on, `left` of them, that answer one of `tries` transmissions.
unfoldable pub heard : (xs : ℕ → ℕ → Exchange) → (tries left channel : ℕ) → List ℕ
heard xs tries zero channel = []
heard xs tries (suc left) channel =
    let rest = heard xs tries left (channel + 1) in
    if any_answered tries (xs channel) then channel ∷ rest else rest

-- The result holds these channels.
pub record Holds (channels : List ℕ) (u : Usb) : Type 0 where
  pub room : length u.scan_result ≡ 63
  pub count : u.scan_result_length ≡ length channels
  pub stored : take u.scan_result_length u.scan_result ≡ channels

-- A scan that has found `channels`, with sends of up to `tries` transmissions.
record Midway (tries : ℕ) (channels : List ℕ) (u : Usb) : Type 0 where
  holds : Holds channels u
  listening : IsListening u.radio
  tries_same : u.radio.arc + 1 ≡ tries

store_channel-Holds :
    (channels : List ℕ) (channel : ℕ) (u : Usb)
    → channel < 256
    → length channels < 63
    → Holds channels u
    → Holds (channels ++ channel ∷ []) (store_channel channel u)
unfolding store_channel
store_channel-Holds channels channel u byte space h =
    let same : u8 channel ≡ channel = omega arith in
    record {
      room =
          length-blit u.scan_result_length (u8 channel ∷ []) u.scan_result (omega (arith, h))
          ∙ h.room;
      count = omega (arith, h, length-append channels (channel ∷ []));
      stored =
          take-blit u.scan_result_length (u.scan_result_length + 1) (u8 channel ∷ []) u.scan_result
            (omega (arith, h)) refl
          ∙ ap (λ xs. xs ++ u8 channel ∷ []) h.stored
          ∙ ap (λ c. channels ++ c ∷ []) same;
    }

Holds-take :
    (channels : List ℕ) (u : Usb)
    → length channels ≤ 63
    → Holds channels u
    → Holds (take 63 channels) u
Holds-take channels u small h = rw (take_all 63 channels small) h

-- The loop is full after `channels`.
Holds-full :
    (channels later : List ℕ) (u : Usb)
    → length channels ≡ 63
    → Holds channels u
    → Holds (take 63 (channels ++ later)) u
Holds-full channels later u full h =
    rw (take-append 63 channels later (omega arith)) (Holds-take channels u (omega arith) h)

tune-Midway :
    (tries channel : ℕ) (channels : List ℕ) (u : Usb)
    → Midway tries channels u
    → Midway tries channels (record u { radio = esb_set_channel channel u.radio })
unfolding esb_set_channel
tune-Midway tries channel channels u m = ground (arith, m)

Probed-Midway :
    (tries : ℕ) (channels : List ℕ) (u : Usb) (b : Bool) (r : Usb × Bool)
    → Midway tries channels u
    → Probed u b r
    → Midway tries channels r.0
Probed-Midway tries channels u b r m w = ground (arith, m, w)

pulse-Midway :
    (tries : ℕ) (channels : List ℕ) (u : Usb)
    → Midway tries channels u
    → Midway tries channels (u ▹▹▹ led_pulse_red 50)
unfolding led_pulse_red
pulse-Midway tries channels u m = ground (arith, m)

store-Midway :
    (tries channel : ℕ) (channels : List ℕ) (u : Usb)
    → channel < 256
    → length channels < 63
    → Midway tries channels u
    → Midway tries (channels ++ channel ∷ []) (store_channel channel (u ▹▹▹ led_pulse_green 50))
unfolding led_pulse_green
store-Midway tries channel channels u byte space m =
    let lit = u ▹▹▹ led_pulse_green 50 in
    let lit_holds : Holds channels lit = ground (arith, m) in
    record {
      holds = store_channel-Holds channels channel lit byte space lit_holds;
      listening = unfold store_channel in ground (arith, m);
      tries_same = unfold store_channel in ground (arith, m);
    }

-- After an answer on `channel`.
scan_loop-found :
    (tries channel : ℕ) (channels later : List ℕ) (u : Usb) (next : Usb → Outcome Usb)
    → channel < 256
    → length channels < 63
    → Midway tries channels u
    → ((v : Usb)
        → length (channels ++ channel ∷ []) < 63
        → Midway tries (channels ++ channel ∷ []) v
        → Gives (Holds (take 63 ((channels ++ channel ∷ []) ++ later))) (next v))
    → let stored = store_channel channel (u ▹▹▹ led_pulse_green 50) in
      Gives
        (Holds (take 63 (channels ++ channel ∷ later)))
        (if leb 63 stored.scan_result_length then ok stored else next stored)
scan_loop-found tries channel channels later u next byte space m go =
    let stored = store_channel channel (u ▹▹▹ led_pulse_green 50) in
    let m' = store-Midway tries channel channels u byte space m in
    let longer = length-append channels (channel ∷ []) in
    rw (← append_assoc channels (channel ∷ []) later)
      (elim (Bool-cases (leb 63 stored.scan_result_length)) [
        | inl full ↦ rw full (
            Holds-full (channels ++ channel ∷ []) later stored
              (ground (arith, full, m'.holds, longer)) m'.holds)
        | inr more ↦ rw more (go stored (ground (arith, more, m'.holds, longer)) m')
      ])

scan_loop-Holds :
    (air : Air) (xs : ℕ → ℕ → Exchange) (tries left channel : ℕ) (channels : List ℕ) (u : Usb)
    → ((c : ℕ) → HasPackets (xs c))
    → channel + left ≤ 256
    → length channels < 63
    → Midway tries channels u
    → Gives
        (Holds (take 63 (channels ++ heard xs tries left channel)))
        (scan_loop (λ c. with_exchanges air (xs c)) left channel u)
unfolding scan_loop heard
scan_loop-Holds air xs tries zero channel channels u has bytes space m =
    rw (append-nil channels) (Holds-take channels u (omega arith) m.holds)
scan_loop-Holds air xs tries (suc left) channel channels u has bytes space m =
    let tuned = record u { radio = esb_set_channel (u8 channel) u.radio } in
    let tuned_midway = tune-Midway tries (u8 channel) channels u m in
    let later = heard xs tries left (channel + 1) in
    Gives-bind (Probed tuned (any_answered tries (xs channel))) _
      (scan_send (with_exchanges air (xs channel)) tuned) _
      (rw (← tuned_midway.tries_same)
        (scan_send-Probed air (xs channel) tuned tuned_midway.listening (has channel)))
      (λ sent w.
        let m' = Probed-Midway tries channels tuned _ sent tuned_midway w in
        elim (Bool-cases (any_answered tries (xs channel))) [
          | inl answers ↦
              rw (w.result, answers)
                (scan_loop-found tries channel channels later sent.0 _ (omega arith) space m'
                  (λ v short n.
                    scan_loop-Holds air xs tries left (channel + 1) (channels ++ channel ∷ []) v has
                      (omega arith) short n))
          | inr silent ↦
              rw (w.result, silent)
                (scan_loop-Holds air xs tries left (channel + 1) channels
                  (sent.0 ▹▹▹ led_pulse_red 50) has (omega arith) space
                  (pulse-Midway tries channels sent.0 m'))
        ])

-- `fw_scan` without simulated losses, with acks enabled and at most 15 retries: after a scan from
-- `start` to `stop`, the result holds the channels, in ascending order and the first 63 of them, on
-- which one of the `arc + 1` transmissions was answered; if `stop` is below `start` it is empty.
-- Packets are let through, `stop` is a byte, and the data is there. Every channel of the range is
-- gone through, at any data rate. What answers is what answers while the scan is at a channel; the
-- frequency, which `esb_set_channel` leaves alone above 100, is not part of the statement.
pub fw_scan-Holds :
    (air : Air) (xs : ℕ → ℕ → Exchange) (start stop : ℕ) (bytes : List ℕ) (data_length : ℕ)
    (u : Usb)
    → ((c : ℕ) → HasPackets (xs c))
    → stop < 256
    → min 32 data_length ≤ length bytes
    → length u.scan_packet.bytes ≡ 63
    → length u.scan_result ≡ 63
    → IsListening u.radio
    → Gives
        (Holds (take 63 (heard xs (u.radio.arc + 1) (stop + 1 - start) start)))
        (fw_scan (λ c. with_exchanges air (xs c)) start stop bytes data_length u)
unfolding fw_scan
fw_scan-Holds air xs start stop bytes data_length u has byte enough room result_room l =
    let n = if ltb 32 data_length then 32 else data_length in
    let n_small : n ≤ min 32 data_length = ground arith in
    elim (Bool-cases (ltb stop start)) [
      | inl above ↦
          let e : stop + 1 - start ≡ 0 = ground arith in
          rw (above, e) (unfold heard in record { room = result_room; count = refl; stored = refl })
      | inr below ↦
          rw
            (
              below,
              memcpy-fits u.scan_packet.bytes 0 bytes n (omega (arith, n_small))
                  (omega (arith, n_small)),
            )
            (scan_loop-Holds air xs (u.radio.arc + 1) (stop + 1 - start) start [] _ has
              (ground arith) (omega arith)
              (record {
                holds = record { room = result_room; count = refl; stored = refl };
                listening = l;
                tries_same = refl;
              }))
    ]
