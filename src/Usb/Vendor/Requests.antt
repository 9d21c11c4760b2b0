-- ===== src/Usb/Vendor/Requests.antt =====
-- The control requests: which are refused, and that the others are served within their arrays.
use crazyradio2_firmware.Base.{
  ℕ, ◌≤◌, ◌<◌, ◌≡◌, u8, min, true, not, ◌&&◌, List, length, arith, take, length-blit, length-take,
  ltb, ◌==◌, if◌then◌else◌, if_rule, le_bytes, ◌∙◌,
}
use crazyradio2_firmware.Platform.{◌▹◌, mutex_lock, mutex_unlock, usb_radio_mutex}
use crazyradio2_firmware.System.{system_reset_to_uf2}
use crazyradio2_firmware.Esb.Send.{Air}
use crazyradio2_firmware.Esb.Send.Buffers.{Receives}
use crazyradio2_firmware.Usb.State.{SetupPacket, Outcome, ok, memcpy-fits, Gives, Gives-bind, ◌▹▹▹◌}
use crazyradio2_firmware.Usb.Scan.{fw_scan}
use crazyradio2_firmware.Usb.Command.{
  channel_scann, get_sniffer_drop_count, set_inline_mode, set_radio_mode,
}
use crazyradio2_firmware.Usb.Vendor.{
  Reply, queued, answered, not_supported, VendorState, is_queued_request, queue_command, start_scan,
  crazyradio_vendor_handler,
}
use crazyradio2_firmware.Usb.Invariant.{UsbInv, HasRoom}
use crazyradio2_firmware.Usb.Invariant.Sends.{fw_scan-UsbInv}

-- What holds of a handler's state.
pub record VendorInv (v : VendorState) : Type 0 where
  pub usb_inv : UsbInv v.usb
  pub command_room : length v.command.bytes ≡ 16

-- What the host or the queue gets fits.
abbrev pub Fits : SetupPacket → Reply → Type 0
Fits p (queued c) = length c.bytes ≡ 16
Fits p (answered bytes) = length bytes ≤ p.w_length
Fits p _ = Unit

module _ (airs : ℕ → Air) (p : SetupPacket) (bytes : List ℕ) (v : VendorState)
    (inv : VendorInv v) where
  queue_command-VendorInv :
      (len : ℕ)
      → len ≤ length bytes
      → Gives (λ r. VendorInv r.0 × Fits p r.1) (queue_command p len bytes v)
  unfolding queue_command
  queue_command-VendorInv len there =
      let n = if ltb 16 len then 16 else len in
      let small : n ≤ 16 = ground arith in
      let enough : n ≤ length bytes = ground arith in
      if_rule (Gives (λ r. VendorInv r.0 × Fits p r.1)) (not p.to_host && ltb 0 n) _ _
        (λ copies. rw (memcpy-fits v.command.bytes 0 bytes n (omega (arith, inv, small)) enough) (
          let room =
            length-blit 0 (take n bytes) v.command.bytes
              (omega (arith, inv, small, length-take n bytes)) in
          (
            record { usb_inv = inv.usb_inv; command_room = room ∙ inv.command_room },
            room ∙ inv.command_room,
          )))
        (λ bare.
          (record { usb_inv = inv.usb_inv; command_room = inv.command_room }, inv.command_room))

  start_scan-VendorInv :
      ((c : ℕ) → Receives HasRoom (airs c))
      → min 32 p.w_length ≤ length bytes
      → Gives (λ r. VendorInv r.0 × Fits p r.1) (start_scan airs p bytes v)
  unfolding start_scan
  start_scan-VendorInv got there =
      let locked : UsbInv (v.usb ▹▹▹ (λ t. t ▹ mutex_lock usb_radio_mutex)) =
        ground (arith, inv.usb_inv, inv.usb_inv.radio_inv) in
      Gives-bind UsbInv _
        (fw_scan airs (u8 p.w_value) (u8 p.w_index) bytes p.w_length
          (v.usb ▹▹▹ (λ t. t ▹ mutex_lock usb_radio_mutex)))
        _ (fw_scan-UsbInv airs (u8 p.w_value) (u8 p.w_index) bytes p.w_length _ got there locked)
        (λ u w.
          let unlocked : UsbInv (u ▹▹▹ (λ t. t ▹ mutex_unlock usb_radio_mutex)) =
            ground (arith, w, w.radio_inv) in
          (record { usb_inv = unlocked; command_room = inv.command_room }, tt))

  -- A control request whose data is there ends without a fault, keeps the invariant of the whole
  -- state, and hands the host no more bytes than it asked for, or the queue a command of 16 bytes.
  pub crazyradio_vendor_handler-VendorInv :
      (len : ℕ)
      → ((c : ℕ) → Receives HasRoom (airs c))
      → len ≤ length bytes
      → min 32 p.w_length ≤ length bytes
      → Gives (λ r. VendorInv r.0 × Fits p r.1) (crazyradio_vendor_handler airs p len bytes v)
  unfolding crazyradio_vendor_handler
  crazyradio_vendor_handler-VendorInv len got there scan_there =
      let u = v.usb in
      let P : Outcome (VendorState × Reply) → Type 0 = Gives (λ r. VendorInv r.0 × Fits p r.1) in
      if_rule P (not p.is_vendor) _ _ (λ _. (inv, tt))
        (λ _.
          if_rule P (is_queued_request p) _ _ (λ _. queue_command-VendorInv len there)
            (λ _.
              if_rule P (p.b_request == channel_scann && not p.to_host) _ _
                (λ _. start_scan-VendorInv got scan_there)
                (λ _.
                  if_rule P (p.b_request == channel_scann && p.to_host) _ _
                    (λ _. (
                      inv,
                      omega
                          (arith, length-take (min u.scan_result_length p.w_length) u.scan_result),
                    ))
                    (λ _.
                      if_rule P (p.b_request == get_sniffer_drop_count && p.to_host) _ _
                        (λ _. (
                          inv,
                          omega (
                            arith,
                            length-take (min 4 p.w_length) (le_bytes u.sniffer_drop_count),
                          ),
                        ))
                        (λ _.
                          if_rule P (p.b_request == 0xff) _ _
                            (λ _. (
                              record {
                                usb_inv =
                                    unfold system_reset_to_uf2 in
                                    ground (arith, inv.usb_inv, inv.usb_inv.radio_inv);
                                command_room = inv.command_room;
                              },
                              tt,
                            ))
                            (λ _. (inv, tt)))))))

-- An inline mode above 2 and a radio mode above 1 are refused with an error, and change nothing; up
-- to there they are queued.
pub vendor_handler-refuses :
    (airs : ℕ → Air) (p : SetupPacket) (len : ℕ) (bytes : List ℕ) (v : VendorState)
    → p.is_vendor ≡ true
    → (p.b_request ≡ set_inline_mode
        → 2 < p.w_value
        → crazyradio_vendor_handler airs p len bytes v ≡ ok (v, not_supported))
      × (p.b_request ≡ set_radio_mode
          → 1 < p.w_value
          → crazyradio_vendor_handler airs p len bytes v ≡ ok (v, not_supported))
      × (p.b_request ≡ set_inline_mode
          → p.w_value ≤ 2
          → crazyradio_vendor_handler airs p len bytes v ≡ queue_command p len bytes v)
      × (p.b_request ≡ set_radio_mode
          → p.w_value ≤ 1
          → crazyradio_vendor_handler airs p len bytes v ≡ queue_command p len bytes v)
unfolding crazyradio_vendor_handler is_queued_request
vendor_handler-refuses airs p len bytes v vendor = (
  (λ r h. rw (vendor, r) (ground arith)),
  (λ r h. rw (vendor, r) (ground arith)),
  (λ r h. rw (vendor, r) (ground arith)),
  (λ r h. rw (vendor, r) (ground arith)),
)
