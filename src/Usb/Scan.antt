-- ===== src/Usb/Scan.antt =====
-- `fw_scan` of src/legacy_usb.c, lines 587 to 618.
pub mod Probe
pub mod Channels
use crazyradio2_firmware.Base.{
  ℕ, zero, suc, ◌+◌, ◌-◌, u8, Bool, true, false, Option, none, some, List, [], ◌∷◌, ltb, leb,
  if◌then◌else◌, blit,
}
use crazyradio2_firmware.Led.{led_pulse_green, led_pulse_red}
use crazyradio2_firmware.Esb.State.{Esb, EsbPacket, esb_max_payload_length}
use crazyradio2_firmware.Esb.Config.{esb_set_channel}
use crazyradio2_firmware.Esb.Send.{Air, Sent, esb_send_packet}
use crazyradio2_firmware.Usb.State.{Usb, Outcome, ok, fault, out_of_fuel, ◌>>=◌, memcpy, ◌▹▹▹◌}

-- A send from the packet and the ack buffer of `fw_scan`; `rssi` and `retry` are not read.
unfoldable pub scan_send : Air → Usb → Outcome (Usb × Bool)
scan_send air u =
    elim (esb_send_packet air (u.radio.arc + 1) u.scan_packet u.scan_ack 0 0 u.radio) [
      | none ↦ out_of_fuel
      | some r ↦ ok (record u { radio = r.esb; scan_packet = r.packet; scan_ack = r.ack }, r.result)
    ]

-- `state.scan_result[state.scan_result_length++] = channel`
unfoldable pub store_channel : ℕ → Usb → Usb
store_channel channel u = record u {
  scan_result = blit u.scan_result_length (u8 channel ∷ []) u.scan_result;
  scan_result_length = u.scan_result_length + 1;
}

-- The loop at `channel`, with `left` channels to go. `airs` is what the world does on each channel.
unfoldable pub scan_loop : (airs : ℕ → Air) → (left channel : ℕ) → Usb → Outcome Usb
scan_loop airs zero channel u = ok u
scan_loop airs (suc left) channel u =
    let tuned = record u { radio = esb_set_channel (u8 channel) u.radio } in
    let next = scan_loop airs left (channel + 1) in
    scan_send (airs channel) tuned >>= λ sent.
    if sent.1
    then (let stored = store_channel channel (sent.0 ▹▹▹ led_pulse_green 50) in
        if leb esb_max_payload_length stored.scan_result_length then ok stored else next stored)
    else next (sent.0 ▹▹▹ led_pulse_red 50)

unfoldable pub fw_scan :
    (airs : ℕ → Air) → (start stop : ℕ) → (bytes : List ℕ) → (data_length : ℕ) → Usb → Outcome Usb
fw_scan airs start stop bytes data_length u =
    let cleared = record u { scan_result_length = 0 } in
    let n = if ltb 32 data_length then 32 else data_length in
    if ltb stop start
    then ok cleared
    else (memcpy u.scan_packet.bytes 0 bytes n >>= λ copied.
        scan_loop airs (stop + 1 - start) start
          (record cleared { scan_packet = record u.scan_packet { length = u8 n; bytes = copied } }))
