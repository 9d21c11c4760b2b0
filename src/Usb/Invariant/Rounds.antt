-- ===== src/Usb/Invariant/Rounds.antt =====
-- Whole rounds of the thread and whole control requests.
use crazyradio2_firmware.Base.{
  ℕ, ◌-◌, ◌≤◌, ◌<◌, ◌≡◌, u8, true, false, Option, none, some, List, length, arith, take, drop, blit,
  length-blit, length-take, length-drop, ltb, get_or, if◌then◌else◌, if_rule,
}
use crazyradio2_firmware.Led.{led_pulse_green}
use crazyradio2_firmware.Platform.{◌▹◌, mutex_lock, mutex_unlock, usb_radio_mutex}
use crazyradio2_firmware.Esb.State.{Esb, Address, EsbPacket, SnifferPacket, esb_max_payload_length}
use crazyradio2_firmware.Esb.Isr.{Irq}
use crazyradio2_firmware.Esb.Api.{sniffer_send, step}
use crazyradio2_firmware.Esb.Api.Invariant.{Inv, step-Inv}
use crazyradio2_firmware.Esb.Send.{Air}
use crazyradio2_firmware.Esb.Send.Buffers.{Receives}
use crazyradio2_firmware.Esb.Sniffer.{SnifferAir, esb_sniffer_send}
use crazyradio2_firmware.Usb.State.{Usb, DataCommand, ok, memcpy-fits, Gives, Gives-bind, ◌▹▹▹◌}
use crazyradio2_firmware.Usb.Command.{address_at}
use crazyradio2_firmware.Usb.Data.{UsbCommand, data_command, setup_command, normal_round}
use crazyradio2_firmware.Usb.Stream.{
  sniffer_broadcast, stream_packet, stream_header, sniffer_command, is_skipped, sniffer_round,
}
use crazyradio2_firmware.Usb.Invariant.{UsbInv, HasRoom, IsCommand}
use crazyradio2_firmware.Usb.Invariant.Commands.{handle_vendor_command-UsbInv}
use crazyradio2_firmware.Usb.Invariant.Data.{stays_inside, handle_data-UsbInv}

-- A command that a round handles without a fault.
abbrev pub IsSafe : UsbCommand → Usb → Type 0
IsSafe (data_command c) u = IsCommand c × (get_or c.payload 0 0 < 256) × (stays_inside c u ≡ true)
IsSafe (setup_command c) u = Unit

lock-UsbInv : (u : Usb) → UsbInv u → UsbInv (u ▹▹▹ (λ t. t ▹ mutex_lock usb_radio_mutex))
lock-UsbInv u v = ground (arith, v, v.radio_inv)

unlock-UsbInv : (u : Usb) → UsbInv u → UsbInv (u ▹▹▹ (λ t. t ▹ mutex_unlock usb_radio_mutex))
unlock-UsbInv u v = ground (arith, v, v.radio_inv)

-- A round out of the sniffer mode, with a command that stays inside the arrays, ends without a
-- fault and keeps the invariant, whatever the radio does.
pub normal_round-UsbInv :
    (first air : Air) (prefix0 : ℕ) (irqs : List Irq) (command : UsbCommand) (u : Usb)
    → Receives HasRoom first
    → Receives HasRoom air
    → IsSafe command u
    → UsbInv u
    → Gives UsbInv (normal_round first air prefix0 irqs command u)
unfolding normal_round
normal_round-UsbInv first air prefix0 irqs (data_command c) u got got' safe v =
    Gives-bind UsbInv _ _ _
      (handle_data-UsbInv first air prefix0 c _ safe.0 (lock-UsbInv u v) got got' safe.1 safe.2)
      unlock-UsbInv
normal_round-UsbInv first air prefix0 irqs (setup_command c) u got got' safe v =
    unlock-UsbInv _ (handle_vendor_command-UsbInv _ (lock-UsbInv u v) prefix0 irqs c)

-- A packet of the sniffer's queue has as many bytes as it counts, at most 63.
pub record IsSniffed (p : SnifferPacket) : Type 0 where
  pub bytes_room : p.length ≤ length p.bytes
  pub capped : p.length ≤ 63

sniffer_send-HasRoom :
    (air : SnifferAir) (packet : EsbPacket) (a : Address) (s : Esb)
    → HasRoom packet
    → HasRoom (esb_sniffer_send air packet a s).1
unfolding esb_sniffer_send
sniffer_send-HasRoom air packet a s h = ground (arith, h)

sniffer_send-UsbInv :
    (air : SnifferAir) (packet : EsbPacket) (a : Address) (u : Usb)
    → HasRoom packet
    → UsbInv u
    → let sent = esb_sniffer_send air packet a u.radio in
      UsbInv (record u { radio = sent.0; packet = sent.1 })
unfolding step
sniffer_send-UsbInv air packet a u h v =
    let kept : Inv (esb_sniffer_send air packet a u.radio).0 =
      step-Inv (sniffer_send air packet a) u.radio v.radio_inv in
    ground (arith, v, kept, sniffer_send-HasRoom air packet a u.radio h)

pulse-UsbInv :
    (u : Usb)
    → UsbInv u
    → UsbInv (u ▹▹▹ (λ t. led_pulse_green 50 (t ▹ mutex_unlock usb_radio_mutex)))
unfolding led_pulse_green
pulse-UsbInv u v = ground (arith, v, v.radio_inv)

sniffer_broadcast-UsbInv :
    (air : SnifferAir) (c : DataCommand) (u : Usb)
    → IsCommand c
    → UsbInv u
    → Gives UsbInv (sniffer_broadcast air c u)
unfolding sniffer_broadcast
sniffer_broadcast-UsbInv air c u command v =
    let wanted = u8 (c.length - 5) in
    let n = if ltb esb_max_payload_length wanted then esb_max_payload_length else wanted in
    let small : n ≤ 63 = ground arith in
    let there : ltb c.length 6 ≡ false → n ≤ length (drop 5 c.payload) =
      λ long. ground (arith, command, length-drop 5 c.payload) in
    let copied_room : (src : List ℕ) → length src ≤ 63 → length (blit 0 src u.packet.bytes) ≡ 63 =
      λ src fits. omega (arith, v, length-blit 0 src u.packet.bytes (omega (arith, v))) in
    if_rule (Gives UsbInv) (ltb c.length 6) _ _ (λ short. v)
      (λ long.
        rw
          (memcpy-fits u.packet.bytes 0 (drop 5 c.payload) n (omega (arith, small, v)) (there long))
          (pulse-UsbInv _ (
            sniffer_send-UsbInv air _ (address_at c.payload 0) _
              (copied_room _ (omega (arith, small, length-take n (drop 5 c.payload))))
              (lock-UsbInv u v))))

pub stream_packet-UsbInv :
    (p : SnifferPacket) (u : Usb) → IsSniffed p → UsbInv u → Gives UsbInv (stream_packet p u)
unfolding stream_packet led_pulse_green
stream_packet-UsbInv p u s v =
    let with_header = blit 0 (stream_header p) u.usb_answer in
    let room = length-blit 0 (stream_header p) u.usb_answer (omega (arith, v)) in
    Gives-bind (λ a. length a ≡ 128) UsbInv _ _
      (if_rule (Gives (λ a. length a ≡ 128)) (ltb 0 p.length) _ _
        (λ filled.
          rw
            (memcpy-fits with_header 7 p.bytes p.length (omega (arith, v, s, room))
              (omega (arith, s)))
            (omega (
              arith,
              v,
              room,
              length-blit 7 (take p.length p.bytes) with_header
                  (omega (arith, v, s, room, length-take p.length p.bytes)),
            )))
        (λ bare. omega (arith, v, room)))
      (λ a e. ground (arith, v, v.radio_inv, e))

-- A command in the sniffer mode is sound.
abbrev pub IsSound : Option UsbCommand → Type 0
IsSound (some (data_command c)) = IsCommand c
IsSound _ = Unit

pub sniffer_command-UsbInv :
    (air : SnifferAir) (prefix0 : ℕ) (irqs : List Irq) (command : UsbCommand) (u : Usb)
    → IsSound (some command)
    → UsbInv u
    → Gives UsbInv (sniffer_command air prefix0 irqs command u)
unfolding sniffer_command
sniffer_command-UsbInv air prefix0 irqs (data_command c) u sound v =
    sniffer_broadcast-UsbInv air c u sound v
sniffer_command-UsbInv air prefix0 irqs (setup_command c) u sound v =
    unlock-UsbInv _ (handle_vendor_command-UsbInv _ (lock-UsbInv u v) prefix0 irqs c)

abbrev pub AllSniffed : Option SnifferPacket → Type 0
AllSniffed none = Unit
AllSniffed (some p) = IsSniffed p

-- The end of a round.
poll :
    (received : Option SnifferPacket) (u : Usb)
    → AllSniffed received
    → UsbInv u
    → Gives UsbInv (elim received [ none ↦ ok u | some p ↦ stream_packet p u ])
poll none u sniffed v = v
poll (some p) u sniffed v = stream_packet-UsbInv p u sniffed v

-- A round in the sniffer mode ends without a fault and keeps the invariant, whatever command and
-- whatever received packet the queues hand out, and whatever the radio does.
pub sniffer_round-UsbInv :
    (air : SnifferAir) (prefix0 : ℕ) (irqs : List Irq) (command : Option UsbCommand)
    (received : Option SnifferPacket) (u : Usb)
    → IsSound command
    → AllSniffed received
    → UsbInv u
    → Gives UsbInv (sniffer_round air prefix0 irqs command received u)
unfolding sniffer_round
sniffer_round-UsbInv air prefix0 irqs none none u sound sniffed v = v
sniffer_round-UsbInv air prefix0 irqs none (some p) u sound sniffed v =
    stream_packet-UsbInv p u sniffed v
sniffer_round-UsbInv air prefix0 irqs (some c) received u sound sniffed v =
    let commanded = sniffer_command-UsbInv air prefix0 irqs c u sound v in
    if_rule (Gives UsbInv) (is_skipped (some c)) _ _ (λ _. commanded)
      (λ _.
        Gives-bind UsbInv _ (sniffer_command air prefix0 irqs c u) _ commanded
          (λ u' w. poll received u' sniffed w))
