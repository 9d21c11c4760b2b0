-- ===== src/Esb/Unnoticed/Modes.antt =====
-- The settings of the radio and its sniffer mode, as the USB side notices them.
use crazyradio2_firmware.Base.{
  if_rule, ℕ, Bool, not, false, List, [], ◌∷◌, inl, inr, Bool-cases, arith,
}
use crazyradio2_firmware.Platform.{
  ◌▹◌, ◌▸◌, mutex_lock, radio_busy, shorts_disable, disabled_rxen, task_trigger, task_disable,
  sleep_us, sem_take,
}
use crazyradio2_firmware.Platform.Trace.{by_usb, by_both}
use crazyradio2_firmware.Esb.State.{Esb, EsbPacket, Address, ◌▹▹◌}
use crazyradio2_firmware.Esb.Isr.{Irq, interrupts}
use crazyradio2_firmware.Esb.Config.{
  esb_set_channel, esb_set_bitrate, esb_set_ack_enabled, esb_set_arc,
  esb_set_packet_loss_simulation, esb_set_continuous_carrier,
}
use crazyradio2_firmware.Esb.Address.{
  esb_set_address, esb_set_address_pipe1, set_pipe0_address_nolock,
}
use crazyradio2_firmware.Esb.Sniffer.{
  SnifferAir, stop_rx, start_tx, await_tx, restart_rx, esb_sniffer_start, esb_sniffer_send,
  esb_sniffer_stop,
}
use crazyradio2_firmware.Esb.Unnoticed.{
  Unnoticed, Unnoticed-refl, Unnoticed-trans, interrupts-Unnoticed,
}

module _ (s : Esb) where
  pub esb_set_channel-Unnoticed :
      (channel : ℕ) → Unnoticed by_usb by_usb s (esb_set_channel channel s)
  unfolding esb_set_channel
  esb_set_channel-Unnoticed channel = ground arith

  pub esb_set_bitrate-Unnoticed :
      (bitrate : ℕ) → Unnoticed by_usb by_usb s (esb_set_bitrate bitrate s)
  unfolding esb_set_bitrate
  esb_set_bitrate-Unnoticed bitrate = ground arith

  pub esb_set_ack_enabled-Unnoticed :
      (enabled : Bool) → Unnoticed by_usb by_usb s (esb_set_ack_enabled enabled s)
  unfolding esb_set_ack_enabled
  esb_set_ack_enabled-Unnoticed enabled = ground arith

  pub esb_set_arc-Unnoticed : (value : ℕ) → Unnoticed by_usb by_usb s (esb_set_arc value s)
  unfolding esb_set_arc
  esb_set_arc-Unnoticed value = ground arith

  pub esb_set_address-Unnoticed :
      (a : Address) (prefix0 : ℕ) → Unnoticed by_usb by_usb s (esb_set_address a prefix0 s)
  unfolding esb_set_address
  esb_set_address-Unnoticed a prefix0 = ground arith

  pub esb_set_address_pipe1-Unnoticed :
      (a : Address) (prefix0 : ℕ) → Unnoticed by_usb by_usb s (esb_set_address_pipe1 a prefix0 s)
  unfolding esb_set_address_pipe1
  esb_set_address_pipe1-Unnoticed a prefix0 = ground arith

  pub esb_set_packet_loss_simulation-Unnoticed :
      (packet_loss ack_loss : ℕ)
      → Unnoticed by_usb by_usb s (esb_set_packet_loss_simulation packet_loss ack_loss s)
  unfolding esb_set_packet_loss_simulation
  esb_set_packet_loss_simulation-Unnoticed packet_loss ack_loss = ground arith

  pub esb_set_continuous_carrier-Unnoticed :
      (enable : Bool) → Unnoticed by_usb by_usb s (esb_set_continuous_carrier enable s).0
  unfolding esb_set_continuous_carrier
  esb_set_continuous_carrier-Unnoticed enable = ground arith

  pub esb_sniffer_start-Unnoticed :
      (callback : Bool) → Unnoticed by_usb by_usb s (esb_sniffer_start callback s)
  unfolding esb_sniffer_start
  esb_sniffer_start-Unnoticed callback = ground arith

  stop_rx-Unnoticed : (qs : List Irq) → Unnoticed by_usb by_both s (stop_rx qs s)
  unfolding stop_rx
  stop_rx-Unnoticed qs =
      let stopping = record s {
        sniffer_active = false;
        calls =
            s.calls
            ▹ mutex_lock radio_busy
            ▸ shorts_disable (disabled_rxen ∷ [])
            ▸ task_trigger task_disable
            ▹ sleep_us 200;
      } in
      let enters : Unnoticed by_usb by_both s stopping = ground arith in
      let slept = Unnoticed-trans s stopping _ enters (interrupts-Unnoticed qs stopping) in
      ground (arith, slept)

  await_tx-Unnoticed : (air : SnifferAir) → Unnoticed by_both by_both s (await_tx air s)
  unfolding await_tx
  await_tx-Unnoticed air =
      let sent : Unnoticed by_both by_both s (interrupts air.sending s) =
        interrupts-Unnoticed air.sending s in
      elim (Bool-cases air.taken) [
        | inl taken ↦ rw taken (ground (arith, sent))
        | inr late ↦
            let waited =
              interrupts air.sending s
              ▹▹ (λ t. t ▹ sem_take false ▸ task_trigger task_disable ▹ sleep_us 200) in
            let before : Unnoticed by_both by_both s waited = ground (arith, sent) in
            let recovered =
              Unnoticed-trans s waited _ before (interrupts-Unnoticed air.recovering waited) in
            rw late (ground (arith, recovered))
      ]

  pub esb_sniffer_stop-Unnoticed :
      (qs : List Irq) → Unnoticed by_usb by_usb s (esb_sniffer_stop qs s)
  unfolding esb_sniffer_stop
  esb_sniffer_stop-Unnoticed qs =
      let stopping = s ▹▹ λ t.
      t
      ▹ mutex_lock radio_busy
      ▸ shorts_disable (disabled_rxen ∷ [])
      ▸ task_trigger task_disable
      ▹ sleep_us 200 in
      let enters : Unnoticed by_usb by_both s stopping = ground arith in
      let slept = Unnoticed-trans s stopping _ enters (interrupts-Unnoticed qs stopping) in
      if_rule (Unnoticed by_usb by_usb s) (not s.sniffer_active) _ _ (λ _. Unnoticed-refl s)
        (λ _. ground (arith, slept))

start_tx-Unnoticed :
    (a : Address) (prefix0 : ℕ) (s : Esb) → Unnoticed by_both by_both s (start_tx a prefix0 s)
unfolding start_tx set_pipe0_address_nolock
start_tx-Unnoticed a prefix0 s = ground arith

restart_rx-Unnoticed :
    (a : Address) (prefix0 : ℕ) (s : Esb) → Unnoticed by_both by_both s (restart_rx a prefix0 s)
unfolding restart_rx set_pipe0_address_nolock
restart_rx-Unnoticed a prefix0 s = ground arith

pub esb_sniffer_send-Unnoticed :
    (air : SnifferAir) (packet : EsbPacket) (a : Address) (s : Esb)
    → Unnoticed by_usb by_usb s (esb_sniffer_send air packet a s).0
unfolding esb_sniffer_send
esb_sniffer_send-Unnoticed air packet a s =
    let stopped = stop_rx air.stopping s in
    let started = start_tx a air.prefix0_before stopped in
    let sent = await_tx air started in
    let restarted = restart_rx s.current_pipe0_address air.prefix0_after sent in
    let all : Unnoticed by_usb by_both s restarted =
      Unnoticed-trans s stopped restarted (stop_rx-Unnoticed s air.stopping) (
        Unnoticed-trans stopped started restarted (start_tx-Unnoticed a air.prefix0_before stopped)
          (Unnoticed-trans started sent restarted (await_tx-Unnoticed started air)
            (restart_rx-Unnoticed s.current_pipe0_address air.prefix0_after sent))) in
    if_rule (λ (r : Esb × EsbPacket × Bool). Unnoticed by_usb by_usb s r.0) (not s.sniffer_active) _
      _ (λ _. Unnoticed-refl s) (λ _. ground (arith, all))
