-- ===== src/Usb/Vendor/Carried.antt =====
-- The control requests leave the drop counter alone.
use crazyradio2_firmware.Base.{
  ℕ, zero, suc, ◌+◌, ◌-◌, u8, not, ◌&&◌, ◌==◌, List, ltb, leb, if◌then◌else◌, if_rule, arith,
}
use crazyradio2_firmware.Platform.{◌▹◌, mutex_lock, usb_radio_mutex}
use crazyradio2_firmware.Platform.Trace.{unlocked, by_usb}
use crazyradio2_firmware.Led.{led_pulse_green, led_pulse_red}
use crazyradio2_firmware.System.{system_reset_to_uf2}
use crazyradio2_firmware.Esb.State.{esb_max_payload_length}
use crazyradio2_firmware.Esb.Config.{esb_set_channel}
use crazyradio2_firmware.Esb.Send.{Air}
use crazyradio2_firmware.Esb.Unnoticed.{esb_send_packet-Unnoticed}
use crazyradio2_firmware.Usb.State.{Usb, SetupPacket, Outcome, memcpy, ◌▹▹▹◌}
use crazyradio2_firmware.Usb.State.Partial.{Allows, Allows-bind, Allows-mono}
use crazyradio2_firmware.Usb.State.Carries.{
  Carries, Carries-refl, Carries-trans, Carrying, any_result,
}
use crazyradio2_firmware.Usb.Scan.{scan_send, store_channel, scan_loop, fw_scan}
use crazyradio2_firmware.Usb.Command.{channel_scann, get_sniffer_drop_count, reset_to_bootloader}
use crazyradio2_firmware.Usb.Vendor.{
  VendorState, Reply, is_queued_request, queue_command, start_scan, crazyradio_vendor_handler,
}

scan_send-Carries :
    (air : Air) (u : Usb) → Allows (λ r. Carries by_usb by_usb u r.0) (scan_send air u)
unfolding scan_send
scan_send-Carries air u =
    ground
      (arith, esb_send_packet-Unnoticed air (u.radio.arc + 1) u.scan_packet u.scan_ack 0 0 u.radio)

scan_loop-Carries :
    (airs : ℕ → Air) (left channel : ℕ) (u : Usb)
    → Carrying by_usb by_usb u (scan_loop airs left channel u)
unfolding scan_loop store_channel led_pulse_green led_pulse_red esb_set_channel
scan_loop-Carries airs zero channel u = Carries-refl u
scan_loop-Carries airs (suc left) channel u =
    let tuned = record u { radio = esb_set_channel (u8 channel) u.radio } in
    Allows-bind (λ r. Carries by_usb by_usb tuned r.0) _ (scan_send (airs channel) tuned) _
      (scan_send-Carries (airs channel) tuned)
      (λ sent h.
        let next : (w : Usb)
            → Carries by_usb by_usb sent.0 w
            → Carrying by_usb by_usb u (scan_loop airs left (channel + 1) w) =
          λ w k.
            Allows-mono (Carries by_usb by_usb w) _ _
              (λ u' l.
                Carries-trans u sent.0 u' (ground (arith, h)) (Carries-trans sent.0 w u' k l))
              (scan_loop-Carries airs left (channel + 1) w) in
        let stored = store_channel channel (sent.0 ▹▹▹ led_pulse_green 50) in
        if_rule (Carrying by_usb by_usb u) sent.1 _ _
          (λ _.
            if_rule (Carrying by_usb by_usb u)
              (leb esb_max_payload_length stored.scan_result_length) _ _ (λ _. ground (arith, h))
              (λ _. next stored (ground arith)))
          (λ _. next (sent.0 ▹▹▹ led_pulse_red 50) (ground arith)))

fw_scan-Carries :
    (airs : ℕ → Air) (start stop : ℕ) (bytes : List ℕ) (data_length : ℕ) (u : Usb)
    → Carrying by_usb by_usb u (fw_scan airs start stop bytes data_length u)
unfolding fw_scan
fw_scan-Carries airs start stop bytes data_length u =
    let n = if ltb 32 data_length then 32 else data_length in
    if_rule (Carrying by_usb by_usb u) (ltb stop start) _ _ (λ _. ground arith)
      (λ _.
        Allows-bind (λ _. Unit) _ (memcpy u.scan_packet.bytes 0 bytes n) _ (any_result _)
          (λ copied _.
            Allows-mono (Carries by_usb by_usb _) _ _ (λ u' h. ground (arith, h))
              (scan_loop-Carries airs (stop + 1 - start) start _)))

-- What a request carries on.
abbrev Requested : Usb → Outcome (VendorState × Reply) → Type 0
Requested u = Allows (λ r. Carries unlocked unlocked u r.0.usb)

queue_command-Carries :
    (p : SetupPacket) (len : ℕ) (bytes : List ℕ) (v : VendorState)
    → Requested v.usb (queue_command p len bytes v)
unfolding queue_command memcpy
queue_command-Carries p len bytes v = ground arith

start_scan-Carries :
    (airs : ℕ → Air) (p : SetupPacket) (bytes : List ℕ) (v : VendorState)
    → Requested v.usb (start_scan airs p bytes v)
unfolding start_scan
start_scan-Carries airs p bytes v =
    let locked = v.usb ▹▹▹ (λ t. t ▹ mutex_lock usb_radio_mutex) in
    Allows-bind (Carries by_usb by_usb locked) _
      (fw_scan airs (u8 p.w_value) (u8 p.w_index) bytes p.w_length locked) _
      (fw_scan-Carries airs (u8 p.w_value) (u8 p.w_index) bytes p.w_length locked)
      (λ u h. ground (arith, h))

pub crazyradio_vendor_handler-Carries :
    (airs : ℕ → Air) (p : SetupPacket) (len : ℕ) (bytes : List ℕ) (v : VendorState)
    → Requested v.usb (crazyradio_vendor_handler airs p len bytes v)
unfolding crazyradio_vendor_handler system_reset_to_uf2
crazyradio_vendor_handler-Carries airs p len bytes v =
    let same = Carries-refl v.usb in
    let P = Requested v.usb in
    if_rule P (not p.is_vendor) _ _ (λ _. same)
      (λ _.
        if_rule P (is_queued_request p) _ _ (λ _. queue_command-Carries p len bytes v)
          (λ _.
            if_rule P (p.b_request == channel_scann && not p.to_host) _ _
              (λ _. start_scan-Carries airs p bytes v)
              (λ _.
                if_rule P (p.b_request == channel_scann && p.to_host) _ _ (λ _. same)
                  (λ _.
                    if_rule P (p.b_request == get_sniffer_drop_count && p.to_host) _ _ (λ _. same)
                      (λ _.
                        if_rule P (p.b_request == reset_to_bootloader) _ _ (λ _. ground arith)
                          (λ _. same))))))
