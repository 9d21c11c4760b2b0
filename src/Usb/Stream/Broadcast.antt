-- ===== src/Usb/Stream/Broadcast.antt =====
-- What a data command sends in the sniffer mode, and where to.
use crazyradio2_firmware.Base.{
  ◌+◌, ◌-◌, ◌^◌, ◌≤◌, ◌<◌, ◌≡◌, sym, ap, ◌∙◌, u8, true, min, ltb, length, take, drop, blit, arith,
  if◌then◌else◌, if_rule, length-drop, length-take, take-blit,
}
use crazyradio2_firmware.Platform.{◌▹◌, mutex_lock, usb_radio_mutex}
use crazyradio2_firmware.Led.{led_pulse_green}
use crazyradio2_firmware.Esb.State.{EsbPacket, esb_max_payload_length}
use crazyradio2_firmware.Esb.Address.Registers.{IsAddress}
use crazyradio2_firmware.Esb.Send.OnAir.{IsAimed}
use crazyradio2_firmware.Esb.Sniffer.{SnifferAir, esb_sniffer_send}
use crazyradio2_firmware.Esb.Sniffer.OnAir.{
  IsSentTo, esb_sniffer_send-IsAimed, esb_sniffer_send-on_air, esb_sniffer_send-keeps,
}
use crazyradio2_firmware.Usb.State.{Usb, DataCommand, memcpy-fits, Gives, ◌▹▹▹◌}
use crazyradio2_firmware.Usb.Command.{address_at}
use crazyradio2_firmware.Usb.Data.Sending.{Holds}
use crazyradio2_firmware.Usb.Stream.{sniffer_broadcast}
use crazyradio2_firmware.Usb.Invariant.{HasRoom, IsCommand}

-- The five bytes of the address are bytes.
abbrev pub StartsWithAddress : DataCommand → Type 0
StartsWithAddress c = IsAddress (address_at c.payload 0)

-- A command of at least six bytes, while the radio's sniffer is active: whatever the radio does, the
-- packet holds what follows the first five bytes of the command, at most 63 bytes of it, and the
-- last transmission was started with the radio pointed at that packet and the address registers
-- standing for those five bytes. The packet's array has its 63 bytes, and the first five bytes of the
-- command are bytes.
pub sniffer_broadcast-on_air :
    (air : SnifferAir) (c : DataCommand) (u : Usb)
    → IsCommand c
    → HasRoom u.packet
    → 6 ≤ c.length
    → u.radio.sniffer_active ≡ true
    → StartsWithAddress c
    → air.prefix0_before < 2 ^ 32
    → Gives
        (λ u'.
          Holds (take (min 63 (c.length - 5)) (drop 5 c.payload)) u'.packet
          × IsSentTo (address_at c.payload 0) u'.radio.calls
          × IsAimed u'.radio.calls)
        (sniffer_broadcast air c u)
unfolding sniffer_broadcast led_pulse_green
sniffer_broadcast-on_air air c u command room long on address fits =
    let wanted = u8 (c.length - 5) in
    let n = if ltb esb_max_payload_length wanted then esb_max_payload_length else wanted in
    let bytes = drop 5 c.payload in
    let counts : n ≡ min 63 (c.length - 5) = ground (arith, command) in
    let enough : n ≤ length bytes = omega (arith, counts, length-drop 5 c.payload, command) in
    let size : length (take n bytes) ≡ n = omega (arith, enough, length-take n bytes) in
    let inside : 0 + length (take n bytes) ≤ length u.packet.bytes =
      omega (arith, size, counts, room) in
    let loaded : EsbPacket = record u.packet {
      length = n;
      bytes = blit 0 (take n bytes) u.packet.bytes;
    } in
    let locked = u ▹▹▹ (λ t. t ▹ mutex_lock usb_radio_mutex) in
    let sent =
      esb_sniffer_send-on_air air loaded (address_at c.payload 0) locked.radio on address fits in
    let aimed = esb_sniffer_send-IsAimed air loaded (address_at c.payload 0) locked.radio on in
    let sent_packet = (esb_sniffer_send air loaded (address_at c.payload 0) locked.radio).1 in
    let kept = esb_sniffer_send-keeps air loaded (address_at c.payload 0) locked.radio in
    let counts_taken : n ≡ length (take (min 63 (c.length - 5)) bytes) =
      sym size ∙ ap (λ m. length (take m bytes)) counts in
    if_rule (Gives _) (ltb c.length 6) _ _ (λ short. absurd (ground arith))
      (λ _. rw (memcpy-fits u.packet.bytes 0 bytes n (omega (arith, counts, room)) enough) (
        record {
          counted = kept.1 ∙ counts_taken;
          held =
              ap (λ m. take m sent_packet.bytes) kept.1
              ∙ ap (take n) kept.0
              ∙ take-blit 0 n (take n bytes) u.packet.bytes inside (omega (arith, size))
              ∙ ap (λ m. take m bytes) counts;
        },
        sent,
        aimed,
      ))
