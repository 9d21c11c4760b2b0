-- ===== src/Usb/Examples/Delivery.antt =====
-- A packet from the host to the radio and back, at concrete inputs.
use crazyradio2_firmware.Base.{
  ◌+◌, ◌-◌, ◌≡◌, u8, refl, true, some, [], ◌∷◌, ◌++◌, take, drop, min, get_or, arith,
}
use crazyradio2_firmware.Platform.Trace.{at_last_tx, last_frequency}
use crazyradio2_firmware.Esb.Address.Registers.{IsAddress}
use crazyradio2_firmware.Esb.Sniffer.OnAir.{IsSentTo}
use crazyradio2_firmware.Usb.Command.{address_at}
use crazyradio2_firmware.Usb.Stream.{sniffer_broadcast}
use crazyradio2_firmware.Usb.Stream.Broadcast.{StartsWithAddress, sniffer_broadcast-on_air}
use crazyradio2_firmware.Usb.Data.Aim.{Aims}
use crazyradio2_firmware.Esb.Send.OnAir.{IsAimed}
use crazyradio2_firmware.Usb.Data.OnAir.{handle_data-on_air}
use crazyradio2_firmware.Usb.State.{Usb, Gives}
use crazyradio2_firmware.Usb.Data.{handle_data}
use crazyradio2_firmware.Usb.Data.Sending.{Holds, sent_bytes, handle_data-sends}
use crazyradio2_firmware.Usb.Invariant.{UsbInv}
use crazyradio2_firmware.Usb.Out.Reassembly.{flat}
use crazyradio2_firmware.Usb.Firmware.{transferred, turned, run_all}
use crazyradio2_firmware.Usb.Firmware.RoundTrip.{answering, Answers, RoundTrip, transfer-RoundTrip}
use crazyradio2_firmware.Usb.Examples.{idle, air, pong, receiver, idle-UsbInv, air-Receives}
use crazyradio2_firmware.Usb.Examples.Thread.{
  inline_command, inline_command-IsCommand, sniffer_air, idle-IsSending, miss_before_third,
}
use crazyradio2_firmware.Usb.Examples.Queues.{
  world, booted, booted-FirmwareInv, short_packet, short-IsTameTransfer,
}

abbrev inline : Usb
inline = record idle { inline_mode = true }

inline-UsbInv : UsbInv inline
inline-UsbInv = ground (arith, idle-UsbInv)

handle_data-sends_example :
    Gives
      (λ u'. Holds (sent_bytes true true inline_command) u'.packet × Aims inline u')
      (handle_data air air 0 inline_command inline)
handle_data-sends_example =
    handle_data-sends air air 0 inline_command inline inline_command-IsCommand inline-UsbInv
      air-Receives air-Receives (omega arith) refl

-- The third transmission is answered.
third-Answers : Answers world (receiver 43) 2 pong booted.vendor.usb.radio.arc
third-Answers = record {
  in_time = omega arith;
  missed = miss_before_third;
  hit = refl;
  got = refl;
  room = refl;
  whole_buffers = (air-Receives, λ k. air-Receives k);
}

transfer-RoundTrip_example :
    Gives
      (λ f. RoundTrip (u8 45) 2 pong (take 32 (flat [] ++ short_packet)) f.vendor.usb)
      (run_all (transferred [] short_packet ∷ turned (answering world (receiver 43)) ∷ []) booted)
transfer-RoundTrip_example =
    transfer-RoundTrip [] short_packet world (receiver 43) 2 pong booted booted-FirmwareInv
      (omega arith) refl refl short-IsTameTransfer refl idle-IsSending third-Answers

inline-IsAddress : IsAddress (address_at inline_command.payload 3)
inline-IsAddress = record {
  byte0 = omega arith;
  byte1 = omega arith;
  byte2 = omega arith;
  byte3 = omega arith;
  byte4 = omega arith;
}

handle_data-on_air_example :
    Gives
      (λ u'.
        IsSentTo (address_at inline_command.payload 3) u'.radio.calls
        × (last_frequency (at_last_tx u'.radio.calls)
            ≡ some (2400 + get_or inline_command.payload 2 0)))
      (handle_data air air 0 inline_command inline)
handle_data-on_air_example =
    handle_data-on_air air air 0 inline_command inline inline_command-IsCommand inline-UsbInv
      air-Receives air-Receives (omega arith) refl refl (omega arith) (omega arith) refl refl
      inline-IsAddress (omega arith)

-- The same bytes in the sniffer mode: their first five are the address.
abbrev sniffing : Usb
sniffing = record idle { radio = record idle.radio { sniffer_active = true } }

broadcast-IsAddress : StartsWithAddress inline_command
broadcast-IsAddress = record {
  byte0 = omega arith;
  byte1 = omega arith;
  byte2 = omega arith;
  byte3 = omega arith;
  byte4 = omega arith;
}

sniffer_broadcast-on_air_example :
    Gives
      (λ u'.
        Holds (take (min 63 (12 - 5)) (drop 5 inline_command.payload)) u'.packet
        × IsSentTo (address_at inline_command.payload 0) u'.radio.calls
        × IsAimed u'.radio.calls)
      (sniffer_broadcast sniffer_air inline_command sniffing)
sniffer_broadcast-on_air_example =
    sniffer_broadcast-on_air sniffer_air inline_command sniffing inline_command-IsCommand refl
      (omega arith) refl broadcast-IsAddress (omega arith)
