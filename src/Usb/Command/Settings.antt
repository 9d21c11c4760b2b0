-- ===== src/Usb/Command/Settings.antt =====
-- What the channel and data rate settings make of the radio, and what they do not.
use crazyradio2_firmware.Base.{ℕ, ◌%◌, ◌≡◌, some, List, get_or, arith}
use crazyradio2_firmware.Platform.{nrf_1mbit, nrf_2mbit}
use crazyradio2_firmware.Platform.Trace.{last_mode}
use crazyradio2_firmware.Esb.Config.{esb_set_channel, esb_set_bitrate, esb_set_ack_enabled}
use crazyradio2_firmware.Esb.Address.{esb_set_address, set_pipe0_address_nolock}
use crazyradio2_firmware.Usb.State.{Usb}
use crazyradio2_firmware.Usb.Command.{change_datarate}
use crazyradio2_firmware.Usb.Data.{apply_inline_header}

-- The data rate of a request and the one of an inline header are noted alike, 1 for 1 Mbit/s and 2
-- for 2 Mbit/s. The request puts the radio into that mode, but the header does not: with 1 it puts
-- the radio into the mode of 2 Mbit/s, and with 2 it leaves the mode as it was.
pub datarate-modes :
    (prefix0 : ℕ) (payload : List ℕ) (u : Usb)
    → let rate = get_or payload 1 0 % 4 in
      let requested = change_datarate rate u in
      let inline = apply_inline_header prefix0 payload u in
      (requested.datarate ≡ inline.datarate)
      × (rate ≡ 1
          → (last_mode requested.radio.calls ≡ some nrf_1mbit)
            × (last_mode inline.radio.calls ≡ some nrf_2mbit))
      × (rate ≡ 2
          → (last_mode requested.radio.calls ≡ some nrf_2mbit)
            × (last_mode inline.radio.calls ≡ last_mode u.radio.calls))
unfolding change_datarate apply_inline_header esb_set_channel esb_set_bitrate esb_set_ack_enabled
    esb_set_address set_pipe0_address_nolock
datarate-modes prefix0 payload u = ground arith
