-- ===== src/Usb/Invariant/Sends.antt =====
-- The sends of the thread and of the scan keep the invariant.
use crazyradio2_firmware.Base.{
  ℕ, zero, suc, ◌+◌, ◌-◌, ◌≤◌, ◌<◌, ◌≡◌, u8, min, Bool-cases, inl, inr, List, [], ◌∷◌, length,
  arith, take, length-blit, length-take, leb, ltb, if◌then◌else◌,
}
use crazyradio2_firmware.Led.{led_pulse_green, led_pulse_red}
use crazyradio2_firmware.Esb.Config.{esb_set_channel}
use crazyradio2_firmware.Esb.Send.{Air}
use crazyradio2_firmware.Esb.Send.Bounds.{esb_send_packet-SentWell}
use crazyradio2_firmware.Esb.Send.Buffers.{Receives, esb_send_packet-Buffers}
use crazyradio2_firmware.Usb.State.{Usb, memcpy-fits, Gives, Gives-bind, ◌▹▹▹◌}
use crazyradio2_firmware.Usb.Scan.{scan_send, scan_loop, fw_scan, store_channel}
use crazyradio2_firmware.Usb.Data.{thread_send}
use crazyradio2_firmware.Usb.Invariant.{UsbInv, HasRoom}

pub thread_send-UsbInv :
    (air : Air) (u : Usb)
    → Receives HasRoom air
    → UsbInv u
    → Gives (λ r. UsbInv r.0) (thread_send air u)
unfolding thread_send
thread_send-UsbInv air u got v =
    let r = v.radio_inv in
    let well =
      esb_send_packet-SentWell air (u.radio.arc + 1) u.packet u.ack u.rssi u.arc_counter u.radio
        (omega (arith, r.arc_capped)) (omega arith) r.released r.is_guarded in
    let buffers =
      esb_send_packet-Buffers HasRoom air (u.radio.arc + 1) u.packet u.ack u.rssi u.arc_counter
        u.radio (λ p h. h) got v.ack_room in
    ground (arith, well, buffers, v)

scan_send-UsbInv :
    (air : Air) (u : Usb)
    → Receives HasRoom air
    → UsbInv u
    → Gives (λ r. UsbInv r.0 × (r.0.scan_result_length ≡ u.scan_result_length)) (scan_send air u)
unfolding scan_send
scan_send-UsbInv air u got v =
    let r = v.radio_inv in
    let well =
      esb_send_packet-SentWell air (u.radio.arc + 1) u.scan_packet u.scan_ack 0 0 u.radio
        (omega (arith, r.arc_capped)) (omega arith) r.released r.is_guarded in
    let buffers =
      esb_send_packet-Buffers HasRoom air (u.radio.arc + 1) u.scan_packet u.scan_ack 0 0 u.radio
        (λ p h. h) got v.scan_ack_room in
    ground (arith, well, buffers, v)

store_channel-UsbInv :
    (channel : ℕ) (u : Usb)
    → u.scan_result_length < 63
    → UsbInv u
    → UsbInv (store_channel channel (u ▹▹▹ led_pulse_green 50))
unfolding store_channel led_pulse_green
store_channel-UsbInv channel u space v = ground (
  arith,
  v,
  length-blit u.scan_result_length (u8 channel ∷ []) u.scan_result (omega (arith, v.scan_room)),
)

tune-UsbInv :
    (channel : ℕ) (u : Usb)
    → UsbInv u
    → UsbInv (record u { radio = esb_set_channel channel u.radio })
unfolding esb_set_channel
tune-UsbInv channel u v = ground (arith, v, v.radio_inv)

pulse-UsbInv : (u : Usb) → UsbInv u → UsbInv (u ▹▹▹ led_pulse_red 50)
unfolding led_pulse_red
pulse-UsbInv u v = ground (arith, v, v.radio_inv)

-- Below its 63 places the loop goes on.
scan_loop-UsbInv :
    (airs : ℕ → Air) (left channel : ℕ) (u : Usb)
    → ((c : ℕ) → Receives HasRoom (airs c))
    → u.scan_result_length < 63
    → UsbInv u
    → Gives UsbInv (scan_loop airs left channel u)
unfolding scan_loop
scan_loop-UsbInv airs zero channel u got space v = v
scan_loop-UsbInv airs (suc left) channel u got space v =
    let tuned = record u { radio = esb_set_channel (u8 channel) u.radio } in
    Gives-bind (λ r. UsbInv r.0 × (r.0.scan_result_length ≡ u.scan_result_length)) _
      (scan_send (airs channel) tuned) _
      (scan_send-UsbInv (airs channel) tuned (got channel) (tune-UsbInv (u8 channel) u v))
      (λ sent w.
        let stored = store_channel-UsbInv channel sent.0 (omega (arith, w)) w.0 in
        elim (Bool-cases sent.1) [
          | inl found ↦
              rw found
                (elim (Bool-cases (
                  leb 63
                    (store_channel channel (sent.0 ▹▹▹ led_pulse_green 50)).scan_result_length)) [
                      | inl full ↦ rw full stored
                      | inr more ↦
                          rw more
                            (scan_loop-UsbInv airs left (channel + 1) _ got (ground arith) stored)
                    ])
          | inr silent ↦ rw silent (
              scan_loop-UsbInv airs left (channel + 1) (sent.0 ▹▹▹ led_pulse_red 50) got
                (omega (arith, w)) (pulse-UsbInv sent.0 w.0))
        ])

-- A scan whose data holds the bytes that are sent ends without a fault and stays in its array,
-- whatever the radio does.
pub fw_scan-UsbInv :
    (airs : ℕ → Air) (start stop : ℕ) (bytes : List ℕ) (data_length : ℕ) (u : Usb)
    → ((c : ℕ) → Receives HasRoom (airs c))
    → min 32 data_length ≤ length bytes
    → UsbInv u
    → Gives UsbInv (fw_scan airs start stop bytes data_length u)
unfolding fw_scan
fw_scan-UsbInv airs start stop bytes data_length u got enough v =
    let n = if ltb 32 data_length then 32 else data_length in
    let n_small : n ≤ min 32 data_length = ground arith in
    elim (Bool-cases (ltb stop start)) [
      | inl above ↦ rw above (ground (arith, v))
      | inr below ↦
          rw
            (
              below,
              memcpy-fits u.scan_packet.bytes 0 bytes n (omega (arith, n_small, v))
                  (omega (arith, n_small)),
            )
            (scan_loop-UsbInv airs (stop + 1 - start) start _ got (omega arith) (
              ground (
                arith,
                v,
                length-blit 0 (take n bytes) u.scan_packet.bytes
                    (omega (arith, n_small, v, length-take n bytes)),
              )))
    ]
