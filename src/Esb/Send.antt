-- ===== src/Esb/Send.antt =====
-- `esb_send_packet` of src/esb.c, lines 311 to 430.
pub mod Frame
pub mod Exchange
pub mod Bounds
pub mod OnAir
pub mod Answers
pub mod Buffers
pub mod Semaphore
use crazyradio2_firmware.Base.{
  ℕ, zero, suc, ◌+◌, ◌-◌, ◌*◌, ◌%◌, ◌^◌, u8, Bool, true, false, not, ◌&&◌, ◌||◌, Option, none, some,
  List, [], ◌∷◌, bit_and, bit_or, ◌<<<◌, ltb, leb, ◌==◌, if◌then◌else◌,
}
use crazyradio2_firmware.Platform.{
  Calls, ◌▹◌, ◌▸◌, Buffer, tx_packet, ack_packet, ready_start, end_disable, disabled_rxen,
  radio_busy, mutex_lock, mutex_unlock, event_clear, event_disabled, int_enable, int_disable,
  shorts_enable, shorts_disable, ppi_enable, ppi_disable, packetptr_set, task_trigger, task_txen,
  task_disable, sem_take, sem_reset, irq_enable, irq_disable,
}
use crazyradio2_firmware.Platform.Trace.{last_packetptr}
use crazyradio2_firmware.Fem.{fem_txen_set}
use crazyradio2_firmware.Esb.State.{Esb, EsbPacket, ◌▹▹◌}
use crazyradio2_firmware.Esb.Isr.{Irq, interrupts}

-- What the world does during one transmission: the interrupts before `k_sem_take` returns, whether
-- it took the semaphore, what the radio received, and the CRC status.
pub record Attempt : Type 0 where
  pub irqs : List Irq
  pub taken : Bool
  pub received : Option EsbPacket
  pub crc_ok : Bool

-- What it does during one call: the two random draws, each attempt, and the RSSI sample.
pub record Air : Type 0 where
  pub loss_draw : ℕ
  pub ack_loss_draw : ℕ
  pub attempt : ℕ → Attempt
  pub rssi_sample : ℕ

-- Lines 343 to 363.
unfoldable pub start_attempt : Esb → Esb
unfolding fem_txen_set
start_attempt s =
    let ready =
      s.calls
      ▸ event_clear event_disabled
      ▸ int_enable
      ▸ shorts_enable (ready_start ∷ end_disable ∷ []) in
    let chained = if s.ack_enabled then ready ▸ shorts_enable (disabled_rxen ∷ []) else ready in
    record s {
      ack_buffer = ack_packet;
      sending = true;
      calls =
          fem_txen_set true (chained ▹ ppi_enable 27 ▹ ppi_enable 26 ▸ packetptr_set tx_packet)
          ▸ task_trigger task_txen;
    }

-- Lines 383 to 387.
unfoldable pub reset_stuck : Esb → Esb
reset_stuck s = s ▹▹ λ t.
    t ▹ irq_disable ▸ task_trigger task_disable ▹ sem_reset ▹ mutex_unlock radio_busy ▹ irq_enable

-- Lines 392 to 402.
unfoldable pub clean_up : Esb → Esb
clean_up s =
    let stopped = s.calls ▸ int_disable ▸ shorts_disable (ready_start ∷ end_disable ∷ []) in
    let unchained =
      if s.ack_enabled then stopped ▸ shorts_disable (disabled_rxen ∷ []) else stopped in
    record s { calls = unchained ▹ ppi_disable 27 ▹ ppi_disable 26 }

-- The ack buffer: emptied by line 356, then what the radio writes.
abbrev pub is_ack_buffer : Option Buffer → Bool
is_ack_buffer (some ack_packet) = true
is_ack_buffer _ = false

-- What the radio writes is in the ack buffer if the radio is pointed at it.
unfoldable pub landed : Attempt → Calls → Option EsbPacket
landed a t = if is_ack_buffer (last_packetptr t) then a.received else none

abbrev pub ack_after : Option EsbPacket → EsbPacket → EsbPacket
ack_after none ack = record ack { length = 0 }
ack_after (some p) ack = p

-- The state when `k_sem_take` returns.
unfoldable pub transmit : Attempt → Esb → Esb
unfolding start_attempt
transmit a s = interrupts a.irqs (start_attempt s) ▹▹ (λ t. t ▹ sem_take a.taken)

-- How the loop ends: stuck at the return of line 389, or past it with the ack buffer,
-- `ack_received` and `arc_counter`.
pub data LoopEnd : Type 0 where
  stuck : Esb → EsbPacket → LoopEnd
  done : Esb → EsbPacket → Bool → ℕ → LoopEnd
  out_of_fuel : LoopEnd

unfoldable pub send_loop : Air → (fuel arc_counter : ℕ) → Esb → EsbPacket → LoopEnd
send_loop air zero arc_counter s ack = out_of_fuel
send_loop air (suc fuel) arc_counter s ack =
    let a = air.attempt arc_counter in
    let s' = transmit a s in
    let ack' = ack_after (landed a s'.calls) ack in
    let cleaned = clean_up s' in
    let ack_received = not s'.timeout && a.crc_ok && s'.ack_enabled in
    let again = send_loop air fuel (arc_counter + 1) cleaned ack' in
    if not a.taken
    then stuck (reset_stuck s') ack'
    else if ack_received || not s'.ack_enabled
    then done cleaned ack' ack_received (arc_counter + 1)
    else if leb (arc_counter + 1) s'.arc
    then again
    else done cleaned ack' ack_received (arc_counter + 1)

-- The state, and what the caller's four pointers show, after the call.
pub record Sent : Type 0 where
  pub esb : Esb
  pub packet : EsbPacket
  pub ack : EsbPacket
  pub rssi : ℕ
  pub retry : ℕ
  pub result : Bool

abbrev unlock : Esb → Esb
unlock s = s ▹▹ (λ t. t ▹ mutex_unlock radio_busy)

-- Lines 416 to 428, from the way the loop ended.
unfoldable pub finish_send : Air → EsbPacket → (rssi retry : ℕ) → LoopEnd → Option Sent
finish_send air packet rssi retry (stuck s ack) =
    some
      (record { esb = s; packet = packet; ack = ack; rssi = rssi; retry = retry; result = false })
finish_send air packet rssi retry (done s ack ack_received arc_counter) = some (record {
  esb = unlock s;
  packet = packet;
  ack = ack;
  rssi = u8 air.rssi_sample;
  retry = u8 (arc_counter - 1);
  result =
      if not (s.ack_loss_percent == 0) && ltb (air.ack_loss_draw % 100) s.ack_loss_percent
      then false
      else ack_received;
})
finish_send air packet rssi retry out_of_fuel = none

-- S1 is the PID in two bits and a flag.
unfoldable pub s1_field : (pid flag : ℕ) → ℕ
s1_field pid flag = bit_or (bit_and pid 0x03 <<< 1) flag

-- Is the packet lost before it is sent?
abbrev pub simulated_loss : Air → Esb → Bool
simulated_loss air s =
    not (s.packet_loss_percent == 0) && ltb (air.loss_draw % 100) s.packet_loss_percent

-- Is the radio in a mode that sends no packets?
abbrev pub refuses : Esb → Bool
refuses s = not s.is_init || (s.continuous_carrier_enabled || s.sniffer_active)

-- `none` is the fuel running out.
unfoldable pub esb_send_packet :
    Air → (fuel : ℕ) → (packet ack : EsbPacket) → (rssi retry : ℕ) → Esb → Option Sent
esb_send_packet air fuel packet ack rssi retry s =
    let refused : Option Sent = some (record {
      esb = s;
      packet = packet;
      ack = ack;
      rssi = rssi;
      retry = retry;
      result = false;
    }) in
    let entered = s ▹▹ (λ t. t ▹ mutex_lock radio_busy) in
    let lost : Option Sent = some (record {
      esb = unlock entered;
      packet = packet;
      ack = ack;
      rssi = rssi;
      retry = retry;
      result = false;
    }) in
    let numbered = record packet { s1 = s1_field s.pid 1 } in
    if refuses s
    then refused
    else if simulated_loss air s
    then lost
    else finish_send air numbered rssi retry
        (send_loop air fuel 0 (record entered { pid = u8 (s.pid + 1) }) ack)
