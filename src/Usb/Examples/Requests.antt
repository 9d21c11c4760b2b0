-- ===== src/Usb/Examples/Requests.antt =====
-- Control requests and their answers at concrete inputs.
use crazyradio2_firmware.Base.{
  ◌+◌, ◌-◌, ◌*◌, ◌≤◌, ◌≡◌, refl, true, false, [], ◌∷◌, take, replicate, arith,
}
use crazyradio2_firmware.Platform.{◌▹◌, spi_write}
use crazyradio2_firmware.Esb.Send.Exchange.{with_exchanges}
use crazyradio2_firmware.Usb.State.{Usb, DataCommand, SetupPacket, SetupCommand, ok, Gives, ◌▹▹▹◌}
use crazyradio2_firmware.Usb.Command.{handle_vendor_command}
use crazyradio2_firmware.Usb.Command.Power.{gain, power_request}
use crazyradio2_firmware.Usb.Data.{handle_data}
use crazyradio2_firmware.Usb.Data.Answers.{IsAnswered, handle_data-IsAnswered}
use crazyradio2_firmware.Usb.Invariant.{UsbInv, IsCommand}
use crazyradio2_firmware.Usb.Scan.Channels.{heard}
use crazyradio2_firmware.Usb.Vendor.{scanned, answered, crazyradio_vendor_handler}
use crazyradio2_firmware.Usb.Vendor.Reading.{Asks, scan-read}
use crazyradio2_firmware.Usb.Examples.{
  idle, irq, air, receiver, request, vendor_state, inline_header, idle-UsbInv, air-Receives,
  vendor_state-VendorInv, receiver-HasPackets, ready-IsListening,
}

-- Channels 42 to 44, of which 43 is answered.
abbrev scan : SetupPacket
scan = record (request 0x21 42 1 false) { w_index = 44 }

abbrev read : SetupPacket
read = request 0x21 0 63 true

scan-Asks : Asks 0x21 false scan
scan-Asks = record { vendor = refl; number = refl; direction = refl }

read-Asks : Asks 0x21 true read
read-Asks = record { vendor = refl; number = refl; direction = refl }

scan-read_example :
    Gives
      (λ r.
        (r.1 ≡ scanned)
        × (crazyradio_vendor_handler (λ c. air) read 0 [] r.0
            ≡ ok (r.0, answered (take 63 (take 63 (heard receiver 4 (44 + 1 - 42) 42))))))
      (crazyradio_vendor_handler
        (λ c. with_exchanges air (receiver c))
        scan
        1
        (0xff ∷ [])
        vendor_state)
scan-read_example =
    scan-read air receiver (λ c. air) scan read 1 0 (0xff ∷ []) [] vendor_state scan-Asks read-Asks
      receiver-HasPackets (omega arith) vendor_state-VendorInv ready-IsListening

abbrev power : SetupCommand
power = record { setup_packet = request 0x04 2 0 false; length = 0; bytes = replicate 16 0 }

power_request_example :
    (handle_vendor_command 0 (irq ∷ []) power idle
      ≡ (idle ▹▹▹ (λ t. t ▹ spi_write (0xc0 ∷ gain 2 * 4 ∷ []))))
    × (gain 2 ≤ 31)
    × (gain 2 ≤ gain 5)
power_request_example = power_request 0 (irq ∷ []) power idle 5 refl (omega arith)

-- A packet of 12 bytes in the inline mode.
abbrev command : DataCommand
command = record { payload = inline_header; length = 12 }

abbrev inline : Usb
inline = record idle { inline_mode = true }

command-IsCommand : IsCommand command
command-IsCommand = record { payload_room = refl; counted = omega arith }

inline-UsbInv : UsbInv inline
inline-UsbInv = ground (arith, idle-UsbInv)

handle_data-IsAnswered_example :
    Gives (IsAnswered 0xe7 command inline) (handle_data air air 0xe7 command inline)
handle_data-IsAnswered_example =
    handle_data-IsAnswered air air 0xe7 command inline command-IsCommand inline-UsbInv air-Receives
      air-Receives (omega arith) refl
