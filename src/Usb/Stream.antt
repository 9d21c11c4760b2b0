-- ===== src/Usb/Stream.antt =====
-- The sniffer mode of src/legacy_usb.c: `sniffer_rx_callback`, lines 156 to 161, and the rounds of
-- `usb_thread` in that mode, lines 370 to 420.
pub mod Packets
pub mod Carried
pub mod Broadcast
use crazyradio2_firmware.Base.{
  ℕ, ◌+◌, ◌-◌, ◌^◌, u8, u32, Bool, true, false, Option, none, some, List, [], ◌∷◌, ◌++◌, ltb, ◌==◌,
  if◌then◌else◌, take, drop, le_bytes, blit,
}
use crazyradio2_firmware.Platform.{◌▹◌, usb_write, mutex_lock, mutex_unlock, usb_radio_mutex}
use crazyradio2_firmware.Led.{led_pulse_green}
use crazyradio2_firmware.Esb.State.{Esb, EsbPacket, SnifferPacket, esb_max_payload_length}
use crazyradio2_firmware.Esb.Isr.{Irq}
use crazyradio2_firmware.Esb.Sniffer.{SnifferAir, esb_sniffer_send}
use crazyradio2_firmware.Usb.State.{
  Usb, DataCommand, SetupCommand, Outcome, ok, fault, out_of_fuel, ◌>>=◌, memcpy, ◌▹▹▹◌,
  crazyradio_bulk_ep_mps,
}
use crazyradio2_firmware.Usb.Command.{address_at, handle_vendor_command}
use crazyradio2_firmware.Usb.Data.{UsbCommand, data_command, setup_command, normal_round}
use crazyradio2_firmware.Esb.Send.{Air}

-- `put` is whether `k_msgq_put` found room for the packet.
unfoldable pub sniffer_rx_callback : (put : Bool) → Usb → Usb
sniffer_rx_callback put u =
    if put then u else record u { sniffer_drop_count = u32 (u.sniffer_drop_count + 1) }

-- Lines 379 to 396: a data command is an address of five bytes, then what is sent there.
unfoldable pub sniffer_broadcast : SnifferAir → DataCommand → Usb → Outcome Usb
sniffer_broadcast air c u =
    let wanted = u8 (c.length - 5) in
    let n = if ltb esb_max_payload_length wanted then esb_max_payload_length else wanted in
    if ltb c.length 6
    then ok u
    else (memcpy u.packet.bytes 0 (drop 5 c.payload) n >>= λ copied.
        let loaded : EsbPacket = record u.packet { length = n; bytes = copied } in
        let locked = u ▹▹▹ (λ t. t ▹ mutex_lock usb_radio_mutex) in
        let (radio', packet', _) =
          esb_sniffer_send air loaded (address_at c.payload 0) locked.radio in
        ok (
          record u { radio = radio'; packet = packet' }
          ▹▹▹ (λ t. led_pulse_green 50 (t ▹ mutex_unlock usb_radio_mutex))))

-- Lines 403 to 408.
unfoldable pub stream_header : SnifferPacket → List ℕ
stream_header p = u8 (7 + p.length) ∷ p.rssi ∷ p.pipe ∷ le_bytes p.timestamp_us

-- Lines 403 to 417: a packet of the queue goes to the host.
unfoldable pub stream_packet : SnifferPacket → Usb → Outcome Usb
unfolding stream_header
stream_packet p u =
    let total_length = u8 (7 + p.length) in
    let with_header = blit 0 (stream_header p) u.usb_answer in
    let whole = if ltb 0 p.length then memcpy with_header 7 p.bytes p.length else ok with_header in
    whole >>= λ answer. ok (
      record u { usb_answer = answer } ▹▹▹ λ t.
      let written = t ▹ usb_write (take total_length answer) in
      led_pulse_green 50
        (if total_length == crazyradio_bulk_ep_mps then written ▹ usb_write [] else written))

-- A command of the queue in the sniffer mode.
unfoldable pub sniffer_command :
    SnifferAir → (prefix0 : ℕ) → List Irq → UsbCommand → Usb → Outcome Usb
sniffer_command air prefix0 irqs (data_command c) u = sniffer_broadcast air c u
sniffer_command air prefix0 irqs (setup_command c) u =
    let locked = u ▹▹▹ (λ t. t ▹ mutex_lock usb_radio_mutex) in
    ok (handle_vendor_command prefix0 irqs c locked ▹▹▹ (λ t. t ▹ mutex_unlock usb_radio_mutex))

-- Is it a data command too short to send, after which the round ends?
unfoldable pub is_skipped : Option UsbCommand → Bool
is_skipped none = false
is_skipped (some (data_command c)) = ltb c.length 6
is_skipped (some (setup_command c)) = false

-- One round in the sniffer mode, with what the two queues hand out.
unfoldable pub sniffer_round :
    SnifferAir
    → (prefix0 : ℕ) → List Irq
    → Option UsbCommand
    → Option SnifferPacket
    → Usb
    → Outcome Usb
unfolding is_skipped
sniffer_round air prefix0 irqs command received u =
    let commanded : Outcome Usb = elim command [
      | none ↦ ok u
      | some c ↦ sniffer_command air prefix0 irqs c u
    ] in
    if is_skipped command
    then commanded
    else (commanded >>= λ u'. elim received [ none ↦ ok u' | some p ↦ stream_packet p u' ])
