-- ===== src/Esb/Config.antt =====
-- The functions of src/esb.c that set the radio up: lines 161 to 266, 303 to 309, 432 to 463.
use crazyradio2_firmware.Base.{
  ℕ, ◌+◌, Bool, true, false, not, ◌||◌, bit_and, leb, ◌==◌, if◌then◌else◌, List, [], ◌∷◌,
}
use crazyradio2_firmware.Platform.{
  Calls, ◌▹◌, ◌▸◌, PacketConf, nrf_1mbit, nrf_2mbit, radio_busy, mutex_lock, mutex_unlock,
  timer_setup, timer_task, task_clear, task_start, task_stop, power_set, txpower_set_0dbm,
  packet_configure, mode_set, frequency_set, base0_set, prefix0_set, txaddress_set, rxaddresses_set,
  crc_configure, crcinit_set, shorts_enable, address_rssistart, disabled_rssistop, irq_connect,
  irq_enable, irq_disable, task_trigger, task_txen, task_disable, sleep_us, event_clear,
  event_disabled, sem_reset,
}
use crazyradio2_firmware.Fem.{fem_init, fem_txen_set}
use crazyradio2_firmware.Esb.State.{Esb, ◌▹▹◌}
use crazyradio2_firmware.Esb.Isr.{Irq, interrupts}

-- `radioConfig`, with the maximal length that it is given.
abbrev pub radio_config : ℕ → PacketConf
radio_config maxlen = record {
  lflen = 6;
  s0len = 0;
  s1len = 3;
  maxlen = maxlen;
  statlen = 0;
  balen = 4;
  big_endian = true;
  whiteen = false;
}

unfoldable pub esb_init : Esb → Esb
unfolding fem_init
esb_init s = record s {
  is_init = true;
  ack_enabled = true;
  arc = 3;
  calls = fem_init (
      s.calls
      ▹ timer_setup
      ▹ timer_task task_clear
      ▹ timer_task task_start
      ▸ power_set true
      ▸ txpower_set_0dbm
      ▸ packet_configure (radio_config 32)
      ▸ mode_set nrf_2mbit
      ▸ frequency_set 2442
      ▸ base0_set 0xe7e7e7e7
      ▸ prefix0_set 0x000000e7
      ▸ txaddress_set 0
      ▸ rxaddresses_set 0x01
      ▸ crc_configure 2 0x11021
      ▸ crcinit_set 0xffff
      ▸ shorts_enable (address_rssistart ∷ disabled_rssistop ∷ [])
      ▹ irq_connect
      ▹ irq_enable);
}

-- `irqs` are the interrupts of the sleep.
unfoldable pub esb_deinit : List Irq → Esb → Esb
esb_deinit irqs s =
    let stopping = record s {
      is_init = false;
      calls = s.calls ▹ mutex_lock radio_busy ▸ task_trigger task_disable ▹ sleep_us 200;
    } in
    interrupts irqs stopping ▹▹ λ t.
    t
    ▸ event_clear event_disabled
    ▹ timer_task task_stop
    ▸ power_set false
    ▹ irq_disable
    ▹ sem_reset
    ▹ mutex_unlock radio_busy

-- What a function does between the lock and the unlock of `radio_busy`.
abbrev pub locked : (Calls → Calls) → Calls → Calls
locked f t = f (t ▹ mutex_lock radio_busy) ▹ mutex_unlock radio_busy

unfoldable pub esb_set_arc : ℕ → Esb → Esb
esb_set_arc value s = record s { arc = bit_and value 0x0f; calls = locked (λ t. t) s.calls }

unfoldable pub esb_set_ack_enabled : Bool → Esb → Esb
esb_set_ack_enabled enabled s = record s { ack_enabled = enabled; calls = locked (λ t. t) s.calls }

unfoldable pub esb_set_channel : ℕ → Esb → Esb
esb_set_channel channel s =
    s ▹▹ locked λ t. if leb channel 100 then t ▸ frequency_set (2400 + channel) else t

-- `esbBitrate_t` is an integer: 0 is `radioBitrate1M`, 1 is `radioBitrate2M`, and the switch has no
-- case for another.
abbrev pub bitrate_1m : ℕ
bitrate_1m = 0

abbrev pub bitrate_2m : ℕ
bitrate_2m = 1

unfoldable pub esb_set_bitrate : ℕ → Esb → Esb
esb_set_bitrate bitrate s =
    s
    ▹▹ locked λ t.
      if bitrate == bitrate_1m
      then t ▸ mode_set nrf_1mbit
      else if bitrate == bitrate_2m
      then t ▸ mode_set nrf_2mbit
      else t

unfoldable pub esb_set_packet_loss_simulation : ℕ → ℕ → Esb → Esb
esb_set_packet_loss_simulation packet_loss ack_loss s = record s {
  packet_loss_percent = packet_loss;
  ack_loss_percent = ack_loss;
  calls = locked (λ t. t) s.calls;
}

abbrev eq_bool : Bool → Bool → Bool
eq_bool true b = b
eq_bool false b = not b

unfoldable pub esb_set_continuous_carrier : Bool → Esb → Esb × Bool
unfolding fem_txen_set
esb_set_continuous_carrier enable s =
    if not s.is_init || (s.sniffer_active || eq_bool enable s.continuous_carrier_enabled)
    then (s, false)
    else (
      record s {
        continuous_carrier_enabled = enable;
        calls =
            locked
              (λ t.
                if enable
                then fem_txen_set true t ▸ task_trigger task_txen
                else fem_txen_set false (t ▸ task_trigger task_disable))
              s.calls;
      },
      true,
    )
