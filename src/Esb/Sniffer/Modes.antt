-- ===== src/Esb/Sniffer/Modes.antt =====
-- Going into and out of the sniffer mode, and what the modes exclude.
use crazyradio2_firmware.Base.{ℕ, ◌≡◌, ◌||◌, Bool, true, false, not, some, [], ◌∷◌, arith}
use crazyradio2_firmware.Platform.{
  Calls, address_rssistart, disabled_rssistop, task_rxen, sniffer_rx_buffer, ◌▹◌, ◌▸◌, mutex_lock,
  radio_busy, shorts_disable, disabled_rxen, task_trigger, task_disable, sleep_us,
}
use crazyradio2_firmware.Platform.Trace.{
  rx_line, last_rxaddresses, last_packet_conf, last_base0, last_base1, last_prefix0, last_frequency,
  last_mode, last_task, last_packetptr, last_shorts, int_enabled,
}
use crazyradio2_firmware.Esb.State.{Esb, EsbPacket, ◌▹▹◌}
use crazyradio2_firmware.Esb.Config.{radio_config, esb_set_continuous_carrier}
use crazyradio2_firmware.Esb.Send.{Air, esb_send_packet}
use crazyradio2_firmware.Esb.Sniffer.{rx_shorts, esb_sniffer_start}

-- A radio that is idle: pipe 0 alone, short packets, the shortcuts for the RSSI alone, and its
-- interrupt disabled.
pub record IsIdle (s : Esb) : Type 0 where
  pub off : s.sniffer_active ≡ false
  pub no_callback : s.sniffer_callback ≡ false
  pub pipe0_only : last_rxaddresses s.calls ≡ some 0x01
  pub short_packets : last_packet_conf s.calls ≡ some (radio_config 32)
  pub quiet : int_enabled s.calls ≡ false
  pub rssi_shorts : last_shorts s.calls ≡ some (address_rssistart ∷ disabled_rssistop ∷ [])

-- A radio that receives on pipes 0 and 1, packets of up to 63 bytes into the sniffer's buffer, one
-- after the other.
pub record IsSniffing (s : Esb) : Type 0 where
  pub on : s.sniffer_active ≡ true
  pub both_pipes : last_rxaddresses s.calls ≡ some 0x03
  pub long_packets : last_packet_conf s.calls ≡ some (radio_config 63)
  pub receives : rx_line s.calls ≡ some 1
  pub listens : last_task s.calls ≡ some task_rxen
  pub into_buffer : last_packetptr s.calls ≡ some sniffer_rx_buffer
  pub goes_on : last_shorts s.calls ≡ some rx_shorts
  pub interrupts_on : int_enabled s.calls ≡ true

-- The state in which `esb_sniffer_stop` sleeps.
abbrev stopping : Esb → Esb
stopping s = s ▹▹ λ t.
    t
    ▹ mutex_lock radio_busy
    ▸ shorts_disable (disabled_rxen ∷ [])
    ▸ task_trigger task_disable
    ▹ sleep_us 200

-- The settings that the modes keep.
pub record KeepsSettings (s s' : Esb) : Type 0 where
  pub is_init : s'.is_init ≡ s.is_init
  pub arc : s'.arc ≡ s.arc
  pub pid : s'.pid ≡ s.pid
  pub ack_enabled : s'.ack_enabled ≡ s.ack_enabled
  pub carrier : s'.continuous_carrier_enabled ≡ s.continuous_carrier_enabled
  pub pipe0 : s'.current_pipe0_address ≡ s.current_pipe0_address

-- The addresses, the channel and the rate in the registers are as they were.
pub record KeepsRegisters (t t' : Calls) : Type 0 where
  pub base0 : last_base0 t' ≡ last_base0 t
  pub base1 : last_base1 t' ≡ last_base1 t
  pub prefix0 : last_prefix0 t' ≡ last_prefix0 t
  pub frequency : last_frequency t' ≡ last_frequency t
  pub mode : last_mode t' ≡ last_mode t

-- The sniffer starts over a running carrier, and from then on the carrier cannot be turned off:
-- the request is refused and changes nothing until the sniffer is stopped.
pub sniffer_over_carrier :
    (callback : Bool) (s : Esb)
    → s.is_init ≡ true
    → s.continuous_carrier_enabled ≡ true
    → s.sniffer_active ≡ false
    → let both = esb_sniffer_start callback s in
      (both.sniffer_active ≡ true)
      × (both.continuous_carrier_enabled ≡ true)
      × (esb_set_continuous_carrier false both ≡ (both, false))
unfolding esb_sniffer_start esb_set_continuous_carrier
sniffer_over_carrier callback s init carrier off = ground arith

-- In the sniffer mode, under a carrier, or before `esb_init`, a packet is refused: the call returns
-- false and touches neither the radio nor anything that its pointers show.
pub esb_send_packet-refused :
    (air : Air) (fuel : ℕ) (packet ack : EsbPacket) (rssi retry : ℕ) (s : Esb)
    → (not s.is_init || (s.continuous_carrier_enabled || s.sniffer_active)) ≡ true
    → esb_send_packet air fuel packet ack rssi retry s
      ≡ some (record {
        esb = s;
        packet = packet;
        ack = ack;
        rssi = rssi;
        retry = retry;
        result = false;
      })
unfolding esb_send_packet
esb_send_packet-refused air fuel packet ack rssi retry s refused = rw refused
