-- ===== src/Esb/Isr.antt =====
-- `radio_isr` of src/esb.c, lines 65 to 143.
use crazyradio2_firmware.Base.{
  ℕ, ◌+◌, ◌%◌, ◌^◌, u32, Bool, true, false, ◌&&◌, List, [], ◌∷◌, ltb, if◌then◌else◌, take,
  replicate, ◌++◌,
}
use crazyradio2_firmware.Platform.{
  Calls, ◌▹◌, ◌▸◌, event_clear, event_disabled, event_end, timer_task, task_capture3, packetptr_set,
  sniffer_rx_buffer, timer_cc_set, ppi_enable, ppi_disable, shorts_disable, disabled_rxen, sem_give,
  timer_compare1_clear, handler_enters, handler_exits,
}
use crazyradio2_firmware.Fem.{fem_txen_set, fem_rxen_set}
use crazyradio2_firmware.Esb.State.{Esb, EsbPacket, SnifferPacket, esb_max_payload_length, ◌▹▹◌}

-- What the hardware answers the handler: the packet in the sniffer's buffer, whether its CRC is
-- right, the sampled RSSI, the pipe that matched, the captured times, and whether TIMER0 has
-- reached compare register 1.
pub record Irq : Type 0 where
  pub received : EsbPacket
  pub crc_ok : Bool
  pub rssi : ℕ
  pub pipe : ℕ
  pub capture3 : ℕ
  pub end_time : ℕ
  pub compare1 : Bool

abbrev clear_events : Calls → Calls
clear_events t = t ▸ event_clear event_disabled ▸ event_clear event_end

-- Lines 74 to 86: the packet that the callback is given. The buffer's array is of 63 bytes; those
-- that `received` does not have are 0.
unfoldable pub sniffed : Irq → SnifferPacket
sniffed q =
    let length =
      if ltb esb_max_payload_length q.received.length
      then esb_max_payload_length
      else q.received.length in
    record {
      length = length;
      rssi = q.rssi % 2 ^ 8;
      pipe = q.pipe % 2 ^ 8;
      timestamp_us = q.capture3;
      bytes = take length (q.received.bytes ++ replicate length 0);
    }

-- Lines 70 to 95.
unfoldable pub sniffer_isr : Irq → Esb → Esb
unfolding sniffed
sniffer_isr q s =
    if q.crc_ok && s.sniffer_callback
    then record s {
      delivered = sniffed q ∷ s.delivered;
      calls = s.calls ▹ timer_task task_capture3 ▸ packetptr_set sniffer_rx_buffer;
    }
    else record s { calls = s.calls ▸ packetptr_set sniffer_rx_buffer }

-- Lines 97 to 128: the packet is sent.
unfoldable pub sent_isr : Irq → Esb → Esb
unfolding fem_txen_set fem_rxen_set
sent_isr q s =
    if s.ack_enabled
    then record s {
      sending = false;
      timeout = false;
      calls =
          fem_rxen_set true (fem_txen_set false s.calls)
          ▸ packetptr_set s.ack_buffer
          ▹ timer_cc_set 1 (u32 (q.end_time + 500))
          ▹ ppi_disable 27
          ▹ ppi_enable 26
          ▹ ppi_enable 22
          ▸ shorts_disable (disabled_rxen ∷ []);
    }
    else s ▹▹ (λ t. t ▹ sem_give)

-- Lines 129 to 142: a packet is received, or the wait for it has timed out.
unfoldable pub received_isr : Irq → Esb → Esb
unfolding fem_rxen_set
received_isr q s = record s {
  timeout = q.compare1;
  calls =
      fem_rxen_set false s.calls
      ▹ timer_compare1_clear
      ▹ ppi_disable 26
      ▹ ppi_disable 22
      ▹ sem_give;
}

unfoldable pub radio_isr : Irq → Esb → Esb
unfolding sniffer_isr sent_isr received_isr
radio_isr q s =
    let s' = s ▹▹ (λ t. clear_events (t ▹ handler_enters)) in
    let handled =
      if s.sniffer_active
      then sniffer_isr q s'
      else if s.sending
      then sent_isr q s'
      else received_isr q s' in
    handled ▹▹ (λ t. t ▹ handler_exits)

-- The interrupts that come while the thread waits.
unfoldable pub interrupts : List Irq → Esb → Esb
interrupts [] s = s
interrupts (q ∷ qs) s = interrupts qs (radio_isr q s)
