-- ===== src/Esb/Sniffer/Transmit.antt =====
-- A broadcast out of the sniffer mode.
use crazyradio2_firmware.Base.{ℕ, ◌+◌, ◌%◌, ◌^◌, ◌<◌, ◌≡◌, true, false, some, List, [], ◌∷◌, arith}
use crazyradio2_firmware.Platform.{
  ◌▹◌, ◌▸◌, mutex_lock, radio_busy, shorts_disable, disabled_rxen, task_trigger, task_disable,
  sleep_us, sem_take, task_rxen, task_txen, tx_packet, sniffer_rx_buffer,
}
use crazyradio2_firmware.Platform.Trace.{
  last_task, last_packetptr, last_shorts, int_enabled, gives, held, guarded, transmissions,
  sem_available, tx_line, rx_line, last_base0, last_prefix0,
}
use crazyradio2_firmware.Esb.State.{Esb, EsbPacket, Address, ◌▹▹◌}
use crazyradio2_firmware.Esb.Isr.{Irq, radio_isr, interrupts}
use crazyradio2_firmware.Esb.Send.Frame.{interrupts-SameSettings, interrupts-Quiet}
use crazyradio2_firmware.Esb.Address.{
  bytewise_bitswap, base_word, with_prefix0, set_pipe0_address_nolock,
}
use crazyradio2_firmware.Esb.Sniffer.{
  rx_shorts, SnifferAir, stop_rx, start_tx, await_tx, restart_rx, esb_sniffer_send,
}

-- With exactly one interrupt while the reception stops and one when the packet is out: as the
-- transmission starts, the radio's interrupt is enabled, the radio is pointed at the packet to send
-- and the semaphore is clear; and when the handler has run for its end, the semaphore is available
-- and was given once, whatever state the handler was left in.
pub sniffer_send-wakes :
    (q q' : Irq) (address : Address) (prefix0 : ℕ) (s : Esb)
    → let ready = start_tx address prefix0 (stop_rx (q ∷ []) s) in
      (int_enabled ready.calls ≡ true)
      × (last_packetptr ready.calls ≡ some tx_packet)
      × (last_task ready.calls ≡ some task_txen)
      × (sem_available ready.calls ≡ false)
      × (gives (interrupts (q' ∷ []) ready).calls ≡ gives ready.calls + 1)
      × (sem_available (interrupts (q' ∷ []) ready).calls ≡ true)
unfolding start_tx stop_rx interrupts radio_isr set_pipe0_address_nolock
sniffer_send-wakes q q' address prefix0 s = ground arith

-- A stage of the broadcast that runs under the lock.
record Stage (sent used : ℕ) (s s' : Esb) : Type 0 where
  is_held : held s'.calls ≡ true
  is_guarded : guarded s'.calls ≡ true
  sends : transmissions s'.calls ≡ transmissions s.calls + sent
  numbers : s'.pid ≡ (s.pid + used) % 2 ^ 8
  pipe0 : s'.current_pipe0_address ≡ s.current_pipe0_address
  arc_same : s'.arc ≡ s.arc

-- The state in which the first sleep begins.
abbrev stopping : Esb → Esb
stopping s = record s {
  sniffer_active = false;
  calls =
      s.calls
      ▹ mutex_lock radio_busy
      ▸ shorts_disable (disabled_rxen ∷ [])
      ▸ task_trigger task_disable
      ▹ sleep_us 200;
}

stop_rx-Stage :
    (irqs : List Irq) (s : Esb)
    → s.pid < 256
    → held s.calls ≡ false
    → guarded s.calls ≡ true
    → Stage 0 0 s (stop_rx irqs s)
unfolding stop_rx
stop_rx-Stage irqs s byte h g =
    ground (arith, interrupts-SameSettings irqs (stopping s), interrupts-Quiet irqs (stopping s))

start_tx-Stage :
    (address : Address) (prefix0 : ℕ) (s : Esb)
    → held s.calls ≡ true
    → guarded s.calls ≡ true
    → Stage 1 1 s (start_tx address prefix0 s)
unfolding start_tx set_pipe0_address_nolock
start_tx-Stage address prefix0 s h g = ground arith

-- The state in which the sleep after a timeout begins.
abbrev recovering : List Irq → Esb → Esb
recovering irqs s =
    interrupts irqs s
    ▹▹ (λ t. t ▹ sem_take false)
    ▹▹ (λ t. t ▸ task_trigger task_disable ▹ sleep_us 200)

await_tx-Stage :
    (air : SnifferAir) (s : Esb)
    → s.pid < 256
    → held s.calls ≡ true
    → guarded s.calls ≡ true
    → Stage 0 0 s (await_tx air s)
unfolding await_tx
await_tx-Stage air s byte h g = ground (
  arith,
  interrupts-SameSettings air.sending s,
  interrupts-Quiet air.sending s,
  interrupts-SameSettings air.recovering (recovering air.sending s),
  interrupts-Quiet air.recovering (recovering air.sending s),
)

-- Whatever the radio does, a broadcast in the sniffer mode answers true, also when it times out,
-- and ends in the sniffer mode: the radio was last told to receive, pointed at the sniffer's buffer,
-- with the shortcuts of continuous reception set, its interrupt enabled and the front end receiving;
-- the lock is given back, and was held throughout by whatever is not the interrupt handler; pipe 0's
-- registers are written from the saved address, one packet ID is used, and `arc` is as it was.
pub esb_sniffer_send-resumes :
    (air : SnifferAir) (packet : EsbPacket) (address : Address) (s : Esb)
    → s.pid < 256
    → held s.calls ≡ false
    → guarded s.calls ≡ true
    → s.sniffer_active ≡ true
    → let (s', packet', ok) = esb_sniffer_send air packet address s in
      (ok ≡ true)
      × (s'.sniffer_active ≡ true)
      × (held s'.calls ≡ false)
      × (guarded s'.calls ≡ true)
      × (tx_line s'.calls ≡ some 0)
      × (rx_line s'.calls ≡ some 1)
      × (last_task s'.calls ≡ some task_rxen)
      × (last_packetptr s'.calls ≡ some sniffer_rx_buffer)
      × (last_shorts s'.calls ≡ some rx_shorts)
      × (int_enabled s'.calls ≡ true)
      × (transmissions s'.calls ≡ transmissions s.calls + 1)
      × (s'.current_pipe0_address ≡ s.current_pipe0_address)
      × (last_base0 s'.calls ≡ some (bytewise_bitswap (base_word s.current_pipe0_address)))
      × (last_prefix0 s'.calls ≡ some (with_prefix0 air.prefix0_after s.current_pipe0_address))
      × (s'.pid ≡ (s.pid + 1) % 2 ^ 8)
      × (s'.arc ≡ s.arc)
unfolding esb_sniffer_send restart_rx set_pipe0_address_nolock
esb_sniffer_send-resumes air packet address s byte h g on =
    let stopped = stop_rx air.stopping s in
    let started = start_tx address air.prefix0_before stopped in
    let first = stop_rx-Stage air.stopping s byte h g in
    let second = start_tx-Stage address air.prefix0_before stopped first.is_held first.is_guarded in
    ground (
      arith,
      first,
      second,
      await_tx-Stage air started (omega (arith, second)) second.is_held second.is_guarded,
    )

-- Out of the sniffer mode a broadcast is refused, and changes nothing.
pub esb_sniffer_send-refused :
    (air : SnifferAir) (packet : EsbPacket) (address : Address) (s : Esb)
    → s.sniffer_active ≡ false
    → esb_sniffer_send air packet address s ≡ (s, packet, false)
unfolding esb_sniffer_send
esb_sniffer_send-refused air packet address s off = rw off
