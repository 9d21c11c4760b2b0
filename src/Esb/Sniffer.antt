-- ===== src/Esb/Sniffer.antt =====
-- The sniffer mode of src/esb.c, lines 476 to 668.
pub mod Modes
pub mod Transmit
pub mod OnAir
use crazyradio2_firmware.Base.{
  ℕ, ◌+◌, u8, Bool, true, false, not, ◌&&◌, ◌||◌, List, [], ◌∷◌, if◌then◌else◌,
}
use crazyradio2_firmware.Platform.{
  Calls, ◌▹◌, ◌▸◌, Short, tx_packet, sniffer_rx_buffer, ready_start, end_disable, disabled_rxen,
  address_rssistart, disabled_rssistop, radio_busy, mutex_lock, mutex_unlock, event_clear,
  event_disabled, int_enable, int_disable, shorts_set, shorts_disable, packetptr_set,
  packet_configure, txaddress_set, rxaddresses_set, task_trigger, task_txen, task_rxen,
  task_disable, sleep_us, sem_take, sem_reset, timer_task, task_clear,
}
use crazyradio2_firmware.Fem.{fem_txen_set, fem_rxen_set}
use crazyradio2_firmware.Esb.State.{Esb, EsbPacket, Address, esb_max_payload_length, ◌▹▹◌}
use crazyradio2_firmware.Esb.Isr.{Irq, interrupts}
use crazyradio2_firmware.Esb.Address.{set_pipe0_address_nolock}
use crazyradio2_firmware.Esb.Config.{radio_config}
use crazyradio2_firmware.Esb.Send.{s1_field}

-- Continuous reception.
abbrev pub rx_shorts : List Short
rx_shorts = ready_start ∷ end_disable ∷ disabled_rxen ∷ address_rssistart ∷ disabled_rssistop ∷ []

unfoldable pub esb_sniffer_start : (callback : Bool) → Esb → Esb
unfolding fem_rxen_set
esb_sniffer_start callback s = if not s.is_init || s.sniffer_active then s else record s {
  sniffer_active = true;
  sniffer_callback = callback;
  calls =
      fem_rxen_set true (
        s.calls
        ▹ mutex_lock radio_busy
        ▸ packet_configure (radio_config esb_max_payload_length)
        ▸ rxaddresses_set 0x03
        ▸ packetptr_set sniffer_rx_buffer
        ▸ shorts_set rx_shorts
        ▸ event_clear event_disabled
        ▸ int_enable)
      ▹ timer_task task_clear
      ▸ task_trigger task_rxen
      ▹ mutex_unlock radio_busy;
}

-- What the world does during `esb_sniffer_send`: the interrupts of the first sleep, those before
-- `k_sem_take` returns, its answer, those of the sleep after a timeout, and the two values that
-- PREFIX0 is read at.
pub record SnifferAir : Type 0 where
  pub stopping : List Irq
  pub sending : List Irq
  pub taken : Bool
  pub recovering : List Irq
  pub prefix0_before : ℕ
  pub prefix0_after : ℕ

-- Lines 551 to 561.
unfoldable pub stop_rx : List Irq → Esb → Esb
unfolding fem_rxen_set
stop_rx irqs s =
    let stopping = record s {
      sniffer_active = false;
      calls =
          s.calls
          ▹ mutex_lock radio_busy
          ▸ shorts_disable (disabled_rxen ∷ [])
          ▸ task_trigger task_disable
          ▹ sleep_us 200;
    } in
    interrupts irqs stopping ▹▹ λ t.
    fem_rxen_set false (t ▸ int_disable ▸ event_clear event_disabled) ▹ sem_reset

-- Lines 563 to 579.
unfoldable pub start_tx : Address → ℕ → Esb → Esb
unfolding fem_txen_set
start_tx address prefix0 s = record s {
  pid = u8 (s.pid + 1);
  calls =
      fem_txen_set true (
        set_pipe0_address_nolock address prefix0 s.calls
        ▸ txaddress_set 0
        ▸ shorts_set (ready_start ∷ end_disable ∷ [])
        ▸ packetptr_set tx_packet
        ▸ event_clear event_disabled
        ▸ int_enable)
      ▸ task_trigger task_txen;
}

-- Lines 581 to 586.
unfoldable pub await_tx : SnifferAir → Esb → Esb
await_tx air s =
    let waited = interrupts air.sending s ▹▹ (λ t. t ▹ sem_take air.taken) in
    if air.taken
    then waited
    else interrupts air.recovering (waited ▹▹ (λ t. t ▸ task_trigger task_disable ▹ sleep_us 200))
      ▹▹ (λ t. t ▹ sem_reset)

-- Lines 588 to 613.
unfoldable pub restart_rx : Address → ℕ → Esb → Esb
unfolding fem_txen_set fem_rxen_set
restart_rx saved prefix0 s = record s {
  sniffer_active = true;
  calls =
      fem_rxen_set true (
        set_pipe0_address_nolock saved prefix0
          (fem_txen_set false (s.calls ▸ int_disable ▸ shorts_set []) ▸ event_clear event_disabled)
        ▸ packetptr_set sniffer_rx_buffer
        ▸ shorts_set rx_shorts
        ▸ event_clear event_disabled
        ▸ int_enable)
      ▸ task_trigger task_rxen;
}

unfoldable pub esb_sniffer_send : SnifferAir → EsbPacket → Address → Esb → Esb × EsbPacket × Bool
esb_sniffer_send air packet address s =
    let saved = s.current_pipe0_address in
    let sent = await_tx air (start_tx address air.prefix0_before (stop_rx air.stopping s)) in
    if not s.sniffer_active then (s, packet, false) else (
      restart_rx saved air.prefix0_after sent ▹▹ (λ t. t ▹ mutex_unlock radio_busy),
      record packet { s1 = s1_field s.pid 0 },
      true,
    )

-- `irqs` are the interrupts of the sleep.
unfoldable pub esb_sniffer_stop : List Irq → Esb → Esb
unfolding fem_rxen_set
esb_sniffer_stop irqs s =
    let slept = interrupts irqs (
      s ▹▹ λ t.
      t
      ▹ mutex_lock radio_busy
      ▸ shorts_disable (disabled_rxen ∷ [])
      ▸ task_trigger task_disable
      ▹ sleep_us 200) in
    if not s.sniffer_active then s else record slept {
      sniffer_active = false;
      sniffer_callback = false;
      calls =
          fem_rxen_set false (
            slept.calls
            ▸ shorts_set (address_rssistart ∷ disabled_rssistop ∷ [])
            ▸ int_disable
            ▸ event_clear event_disabled)
          ▸ rxaddresses_set 0x01
          ▸ packet_configure (radio_config 32)
          ▹ mutex_unlock radio_busy;
    }

unfoldable pub esb_sniffer_is_active : Esb → Bool
esb_sniffer_is_active s = s.sniffer_active
