-- ===== src/Usb/Stream/Carried.antt =====
-- The rounds of the sniffer mode leave the drop counter alone.
use crazyradio2_firmware.Base.{◌-◌, u8, ltb, if◌then◌else◌, if_rule, drop, arith}
use crazyradio2_firmware.Platform.{◌▹◌, mutex_lock, usb_radio_mutex}
use crazyradio2_firmware.Platform.Trace.{unlocked}
use crazyradio2_firmware.Led.{led_pulse_green}
use crazyradio2_firmware.Esb.State.{EsbPacket, SnifferPacket, esb_max_payload_length}
use crazyradio2_firmware.Esb.Sniffer.{SnifferAir}
use crazyradio2_firmware.Esb.Unnoticed.Modes.{esb_sniffer_send-Unnoticed}
use crazyradio2_firmware.Usb.State.{Usb, DataCommand, memcpy, ◌▹▹▹◌}
use crazyradio2_firmware.Usb.State.Partial.{Allows-bind}
use crazyradio2_firmware.Usb.State.Carries.{Carries-refl, Carrying, any_result}
use crazyradio2_firmware.Usb.Command.{address_at}
use crazyradio2_firmware.Usb.Stream.{sniffer_broadcast, stream_packet}

pub sniffer_broadcast-Carries :
    (air : SnifferAir) (c : DataCommand) (u : Usb)
    → Carrying unlocked unlocked u (sniffer_broadcast air c u)
unfolding sniffer_broadcast led_pulse_green
sniffer_broadcast-Carries air c u =
    let wanted = u8 (c.length - 5) in
    let n = if ltb esb_max_payload_length wanted then esb_max_payload_length else wanted in
    let locked = u ▹▹▹ (λ t. t ▹ mutex_lock usb_radio_mutex) in
    if_rule (Carrying unlocked unlocked u) (ltb c.length 6) _ _ (λ _. Carries-refl u)
      (λ _.
        Allows-bind (λ _. Unit) _ (memcpy u.packet.bytes 0 (drop 5 c.payload) n) _ (any_result _)
          (λ copied _.
            let loaded : EsbPacket = record u.packet { length = n; bytes = copied } in
            let sent =
              esb_sniffer_send-Unnoticed air loaded (address_at c.payload 0) locked.radio in
            ground (arith, sent)))

pub stream_packet-Carries :
    (p : SnifferPacket) (u : Usb) → Carrying unlocked unlocked u (stream_packet p u)
unfolding stream_packet led_pulse_green memcpy
stream_packet-Carries p u = ground arith
