-- ===== src/Usb/Vendor.antt =====
-- `crazyradio_vendor_handler` of src/legacy_usb.c, lines 257 to 327: the control requests.
pub mod Requests
pub mod Reading
pub mod Carried
use crazyradio2_firmware.Base.{
  ℕ, ◌+◌, min, u8, Bool, true, false, not, ◌&&◌, ◌||◌, List, [], ◌∷◌, ltb, leb, ◌==◌, if◌then◌else◌,
  take, le_bytes,
}
use crazyradio2_firmware.Platform.{◌▹◌, mutex_lock, mutex_unlock, usb_radio_mutex}
use crazyradio2_firmware.System.{system_reset_to_uf2}
use crazyradio2_firmware.Esb.Send.{Air}
use crazyradio2_firmware.Usb.State.{
  Usb, SetupPacket, SetupCommand, Outcome, ok, fault, out_of_fuel, ◌>>=◌, memcpy, ◌▹▹▹◌,
}
use crazyradio2_firmware.Usb.Scan.{fw_scan}
use crazyradio2_firmware.Usb.Command.{
  set_radio_channel, set_radio_address, set_data_rate, set_radio_power, set_radio_ard,
  set_radio_arc, ack_enable, set_cont_carrier, channel_scann, set_mode, set_inline_mode,
  set_radio_mode, set_sniffer_address, get_sniffer_drop_count, set_packet_loss_simulation,
  reset_to_bootloader, inline_mode_on_with_rssi,
}

-- What becomes of a request: a command for the queue, a scan, an answer, a reset, -ENOTSUP (which
-- stalls the endpoint), or nothing.
pub data Reply : Type 0 where
  queued : SetupCommand → Reply
  answered : List ℕ → Reply
  scanned resetting not_supported ignored : Reply

-- The state, and the static `command`, whose old bytes stay where nothing is copied over them.
pub record VendorState : Type 0 where
  pub usb : Usb
  pub command : SetupCommand

-- The condition of lines 269 to 281.
unfoldable pub is_queued_request : SetupPacket → Bool
is_queued_request p =
    p.b_request == set_radio_channel
    || (p.b_request == set_radio_address
        || (p.b_request == set_data_rate
            || (p.b_request == set_radio_power
                || (p.b_request == set_radio_ard
                    || (p.b_request == set_radio_arc
                        || (p.b_request == ack_enable
                            || (p.b_request == set_cont_carrier
                                || (p.b_request == set_mode
                                    || ((p.b_request == set_inline_mode
                                          && leb p.w_value inline_mode_on_with_rssi)
                                        || (p.b_request == set_sniffer_address
                                            || ((p.b_request == set_radio_mode && leb p.w_value 1)
                                                || p.b_request
                                                  == set_packet_loss_simulation)))))))))))

-- Lines 286 to 297; `bytes` are the `len` bytes that `*data` points at.
unfoldable pub queue_command :
    SetupPacket → (len : ℕ) → List ℕ → VendorState → Outcome (VendorState × Reply)
queue_command p len bytes v =
    let n = if ltb 16 len then 16 else len in
    let named : SetupCommand = record v.command { setup_packet = p } in
    if not p.to_host && ltb 0 n
    then (memcpy v.command.bytes 0 bytes n >>= λ copied.
        let c : SetupCommand = record named { length = n; bytes = copied } in
        ok (record v { command = c }, queued c))
    else ok (record v { command = named }, queued named)

-- Lines 300 to 304.
unfoldable pub start_scan :
    (ℕ → Air) → SetupPacket → List ℕ → VendorState → Outcome (VendorState × Reply)
start_scan airs p bytes v =
    fw_scan airs (u8 p.w_value) (u8 p.w_index) bytes p.w_length
      (v.usb ▹▹▹ (λ t. t ▹ mutex_lock usb_radio_mutex))
    >>= λ u. ok (record v { usb = u ▹▹▹ (λ t. t ▹ mutex_unlock usb_radio_mutex) }, scanned)

unfoldable pub crazyradio_vendor_handler :
    (ℕ → Air) → SetupPacket → (len : ℕ) → List ℕ → VendorState → Outcome (VendorState × Reply)
unfolding is_queued_request queue_command start_scan
crazyradio_vendor_handler airs p len bytes v =
    if not p.is_vendor
    then ok (v, ignored)
    else if is_queued_request p
    then queue_command p len bytes v
    else if p.b_request == channel_scann && not p.to_host
    then start_scan airs p bytes v
    else if p.b_request == channel_scann && p.to_host
    then ok (v, answered (take (min v.usb.scan_result_length p.w_length) v.usb.scan_result))
    else if p.b_request == get_sniffer_drop_count && p.to_host
    then ok (v, answered (take (min 4 p.w_length) (le_bytes v.usb.sniffer_drop_count)))
    else if p.b_request == reset_to_bootloader
    then ok (record v { usb = v.usb ▹▹▹ system_reset_to_uf2 }, resetting)
    else ok (v, not_supported)
