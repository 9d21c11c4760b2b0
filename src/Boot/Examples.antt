-- ===== src/Boot/Examples.antt =====
-- The boot at a concrete answer of the front end.
use crazyradio2_firmware.Base.{◌+◌, ◌*◌, ◌/◌, ◌%◌, ◌≡◌, refl, arith, false, some, []}
use crazyradio2_firmware.Platform.{nrf_2mbit}
use crazyradio2_firmware.Platform.Trace.{
  tx_line, rx_line, last_base0, last_prefix0, last_rxaddresses, last_packet_conf, last_mode,
  last_frequency, last_bcd_device,
}
use crazyradio2_firmware.Esb.Address.{base_word, bytewise_bitswap, with_prefix0}
use crazyradio2_firmware.Esb.Config.{radio_config}
use crazyradio2_firmware.Esb.Send.{refuses}
use crazyradio2_firmware.Esb.Api.Invariant.{Inv}
use crazyradio2_firmware.Usb.State.{initial}
use crazyradio2_firmware.Usb.Invariant.{UsbInv}
use crazyradio2_firmware.Esb.State.{SnifferPacket}
use crazyradio2_firmware.Usb.State.{Gives}
use crazyradio2_firmware.Usb.Data.{UsbCommand}
use crazyradio2_firmware.Usb.Vendor.Requests.{VendorInv}
use crazyradio2_firmware.Usb.Firmware.{run_all}
use crazyradio2_firmware.Usb.Firmware.Kept.{IsOrdered, IsConserved, IsUnlocked}
use crazyradio2_firmware.Usb.Examples.Queues.{list_queue, story, story-AllSane}
use crazyradio2_firmware.Boot.Whole.{powered_on, run_all-powered_on}
use crazyradio2_firmware.Boot.{main, Version}
use crazyradio2_firmware.Boot.Ready.{main-ready, IsVersion}

-- Version 3.12.
abbrev version : Version
version = record {
  app_version_major = 3;
  app_version_minor = 12;
  usb_dec_to_bcd = λ n. n / 10 * 16 + n % 10;
}

version-IsVersion : IsVersion version
version-IsVersion = record {
  converts = λ n h. refl;
  major_digits = omega arith;
  minor_digits = omega arith;
}

main-ready_example :
    let s = main version 1 1 in
    Inv s
    × UsbInv (initial s 0 0)
    × (refuses s ≡ false)
    × (tx_line s.calls ≡ some 0)
    × (rx_line s.calls ≡ some 0)
    × (last_frequency s.calls ≡ some (2400 + (initial s 0 0).channel))
    × (last_mode s.calls ≡ some nrf_2mbit)
    × (last_base0 s.calls ≡ some (bytewise_bitswap (base_word s.current_pipe0_address)))
    × (last_prefix0 s.calls ≡ some (with_prefix0 0 s.current_pipe0_address))
    × (last_rxaddresses s.calls ≡ some 0x01)
    × (last_packet_conf s.calls ≡ some (radio_config 32))
    × (last_bcd_device s.calls ≡ some 0x0312)
main-ready_example = main-ready version 1 1 0 0 version-IsVersion

run_all-powered_on_example :
    Gives
      (λ f. VendorInv f.vendor × IsOrdered f × IsConserved f × IsUnlocked f)
      (run_all story (
        powered_on {cq = list_queue 10 UsbCommand} {sq = list_queue 8 SnifferPacket} version 1 1 0 0
          [] []))
run_all-powered_on_example =
    run_all-powered_on (list_queue 10 UsbCommand) (list_queue 8 SnifferPacket) version 1 1 0 0 [] []
      refl refl story story-AllSane
