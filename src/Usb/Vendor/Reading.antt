-- ===== src/Usb/Vendor/Reading.antt =====
-- A scan and the request that reads its result.
use crazyradio2_firmware.Base.{
  ℕ, zero, suc, ◌+◌, ◌-◌, ◌≤◌, ◌≡◌, refl, ap, ◌∙◌, sym, u8, min, Bool, true, false, List, [], ◌∷◌,
  length, take, arith,
}
use crazyradio2_firmware.Platform.{◌▹◌, mutex_lock, mutex_unlock, usb_radio_mutex}
use crazyradio2_firmware.Esb.Send.{Air}
use crazyradio2_firmware.Esb.Send.Exchange.{Exchange, with_exchanges}
use crazyradio2_firmware.Usb.State.{SetupPacket, ok, Gives, Gives-bind, ◌▹▹▹◌}
use crazyradio2_firmware.Usb.Command.{channel_scann}
use crazyradio2_firmware.Usb.Scan.{fw_scan}
use crazyradio2_firmware.Usb.Scan.Probe.{HasPackets, IsListening}
use crazyradio2_firmware.Usb.Scan.Channels.{heard, fw_scan-Holds}
use crazyradio2_firmware.Usb.Vendor.{
  VendorState, answered, scanned, start_scan, is_queued_request, crazyradio_vendor_handler,
}
use crazyradio2_firmware.Usb.Vendor.Requests.{VendorInv}

take-nil : (n : ℕ) → take {A = ℕ} n [] ≡ []
take-nil zero = refl
take-nil (suc n) = refl

take-take : (n m : ℕ) (xs : List ℕ) → take (min n m) xs ≡ take m (take n xs)
take-take zero m xs = let e : min 0 m ≡ 0 = omega arith in rw e (sym (take-nil m))
take-take (suc n) zero xs = let e : min (suc n) 0 ≡ 0 = omega arith in rw e refl
take-take (suc n) (suc m) [] = take-nil (min (suc n) (suc m))
take-take (suc n) (suc m) (x ∷ xs) =
    let e : min (suc n) (suc m) ≡ suc (min n m) = omega arith in
    rw e (ap (λ ys. x ∷ ys) (take-take n m xs))

-- A control request with this direction and number.
pub record Asks (request : ℕ) (to_host : Bool) (p : SetupPacket) : Type 0 where
  pub vendor : p.is_vendor ≡ true
  pub number : p.b_request ≡ request
  pub direction : p.to_host ≡ to_host

scan_request :
    (airs : ℕ → Air) (p : SetupPacket) (len : ℕ) (bytes : List ℕ) (v : VendorState)
    → Asks channel_scann false p
    → crazyradio_vendor_handler airs p len bytes v ≡ start_scan airs p bytes v
unfolding crazyradio_vendor_handler is_queued_request
scan_request airs p len bytes v a = rw (a.vendor, a.number, a.direction) refl

read_request :
    (airs : ℕ → Air) (p : SetupPacket) (len : ℕ) (bytes : List ℕ) (v : VendorState)
    → Asks channel_scann true p
    → crazyradio_vendor_handler airs p len bytes v
      ≡ ok (v, answered (take (min v.usb.scan_result_length p.w_length) v.usb.scan_result))
unfolding crazyradio_vendor_handler is_queued_request
read_request airs p len bytes v a = rw (a.vendor, a.number, a.direction) refl

-- A host that asks for a scan and then for its result, while acks are enabled, no losses are
-- simulated, packets are let through and at most 15 retries are made, reads the channels of the range
-- on which one of the `arc + 1` transmissions was answered: in ascending order, the first 63 of them,
-- and no more bytes than it asks for. Every channel of the range is gone through, at any data rate;
-- the frequency, which `esb_set_channel` leaves alone above 100, is not part of the statement. The state is sound, and the data of the request is there.
pub scan-read :
    (air : Air) (xs : ℕ → ℕ → Exchange) (airs : ℕ → Air) (p q : SetupPacket) (len len' : ℕ)
    (bytes bytes' : List ℕ) (v : VendorState)
    → Asks channel_scann false p
    → Asks channel_scann true q
    → ((c : ℕ) → HasPackets (xs c))
    → min 32 p.w_length ≤ length bytes
    → VendorInv v
    → IsListening v.usb.radio
    → let start = u8 p.w_value in
      let stop = u8 p.w_index in
      let found = take 63 (heard xs (v.usb.radio.arc + 1) (stop + 1 - start) start) in
      Gives
        (λ r.
          (r.1 ≡ scanned)
          × (crazyradio_vendor_handler airs q len' bytes' r.0
              ≡ ok (r.0, answered (take q.w_length found))))
        (crazyradio_vendor_handler (λ c. with_exchanges air (xs c)) p len bytes v)
unfolding start_scan
scan-read air xs airs p q len len' bytes bytes' v a b has there inv l =
    let locked = v.usb ▹▹▹ (λ t. t ▹ mutex_lock usb_radio_mutex) in
    let listening : IsListening locked.radio = ground (arith, l) in
    let u = inv.usb_inv in
    rw (scan_request (λ c. with_exchanges air (xs c)) p len bytes v a) (
      Gives-bind _ _
        (fw_scan (λ c. with_exchanges air (xs c)) (u8 p.w_value) (u8 p.w_index) bytes p.w_length
          locked)
        _
        (fw_scan-Holds air xs (u8 p.w_value) (u8 p.w_index) bytes p.w_length locked has
          (omega arith) there u.scan_packet_room u.scan_room listening)
        (λ w h.
          let scanned_state : VendorState = record v {
            usb = w ▹▹▹ (λ t. t ▹ mutex_unlock usb_radio_mutex);
          } in
          (
            refl,
            read_request airs q len' bytes' _ b
                ∙ ap (λ found. ok (scanned_state, answered found))
                    (take-take w.scan_result_length q.w_length w.scan_result
                      ∙ ap (λ ys. take q.w_length ys) h.stored),
          )))
