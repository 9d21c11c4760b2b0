-- ===== src/Usb/Examples/Heard.antt =====
-- A packet that is heard in the sniffer mode, at a concrete input.
use crazyradio2_firmware.Base.{List, ◌<◌, ◌^◌, refl, true, [], ◌∷◌, map, replicate, arith}
use crazyradio2_firmware.Esb.State.{SnifferPacket}
use crazyradio2_firmware.Esb.Isr.{Irq, sniffed}
use crazyradio2_firmware.Usb.State.{Usb, Gives}
use crazyradio2_firmware.Usb.Data.{UsbCommand}
use crazyradio2_firmware.Usb.Invariant.{UsbInv}
use crazyradio2_firmware.Usb.Firmware.{Firmware, turned, run_all}
use crazyradio2_firmware.Usb.Firmware.Kept.{FirmwareInv}
use crazyradio2_firmware.Platform.Trace.{writes}
use crazyradio2_firmware.Usb.Firmware.Streaming.{HoldsPackets, ReadsAll, run_all-ReadsAll}
use crazyradio2_firmware.Usb.Examples.{idle, irq, pong, vendor_state, idle-UsbInv}
use crazyradio2_firmware.Usb.Examples.Queues.{list_queue, world, booted, booted-FirmwareInv}

abbrev listening : Usb
listening = record idle {
  sniffer_mode = true;
  radio = record idle.radio { sniffer_active = true; sniffer_callback = true };
}

listening-UsbInv : UsbInv listening
listening-UsbInv = ground (arith, idle-UsbInv)

abbrev quiet : Firmware (list_queue 10 UsbCommand) (list_queue 8 SnifferPacket)
quiet = record booted { vendor = record vendor_state { usb = listening } }

quiet-FirmwareInv : FirmwareInv quiet
quiet-FirmwareInv = record {
  vendor_inv = record { usb_inv = listening-UsbInv; command_room = refl };
  out_fresh = booted-FirmwareInv.out_fresh;
  ordered = booted-FirmwareInv.ordered;
  conserved = booted-FirmwareInv.conserved;
  is_unlocked = refl;
}

abbrev heard : Irq
heard = record irq { received = pong }

abbrev two_packets : List SnifferPacket
two_packets = sniffed heard ∷ sniffed heard ∷ []

abbrev filled : Firmware (list_queue 10 UsbCommand) (list_queue 8 SnifferPacket)
filled = record quiet { sniffs = two_packets; accepted = two_packets }

filled-FirmwareInv : FirmwareInv filled
unfolding sniffed
filled-FirmwareInv = record {
  vendor_inv = quiet-FirmwareInv.vendor_inv;
  out_fresh = quiet-FirmwareInv.out_fresh;
  ordered = quiet-FirmwareInv.ordered;
  conserved = record {
    in_order = refl;
    counted = refl;
    bounded = omega arith;
    queue_fits = refl;
    delivered_fits = refl;
  };
  is_unlocked = refl;
}

filled-HoldsPackets : HoldsPackets two_packets filled
filled-HoldsPackets = record { in_mode = refl; no_commands = refl; sniffed = refl }

heard_stamp : (sniffed heard).timestamp_us < 2 ^ 32
unfolding sniffed
heard_stamp = omega arith

run_all-ReadsAll_example :
    Gives
      (λ f.
        HoldsPackets [] f
        × ReadsAll two_packets
            (writes filled.vendor.usb.radio.calls)
            (writes f.vendor.usb.radio.calls))
      (run_all (map turned (replicate 2 world)) filled)
run_all-ReadsAll_example =
    run_all-ReadsAll (replicate 2 world) two_packets filled filled-FirmwareInv
      (heard_stamp, (heard_stamp, tt)) filled-HoldsPackets refl
