-- ===== src/Esb/Send/Semaphore.antt =====
-- The semaphore `radioXferDone` between the handler and `esb_send_packet`.
use crazyradio2_firmware.Base.{
  ℕ, zero, suc, ◌+◌, ◌<◌, u8, ◌≡◌, Bool-cases, inl, inr, true, false, arith, Option, none, some, [],
  ◌∷◌, Returns, Returns-mono,
}
use crazyradio2_firmware.Platform.{◌▹◌, mutex_lock, radio_busy, sem_take}
use crazyradio2_firmware.Platform.Trace.{held, guarded, sem_available, sem_consistent}
use crazyradio2_firmware.Esb.State.{Esb, EsbPacket}
use crazyradio2_firmware.Esb.Isr.{Irq, radio_isr, interrupts}
use crazyradio2_firmware.Esb.Send.{
  Attempt, Air, LoopEnd, stuck, done, out_of_fuel, start_attempt, transmit, clean_up, reset_stuck,
  ack_after, landed, send_loop, Sent, finish_send, s1_field, esb_send_packet, refuses,
  simulated_loss,
}
use crazyradio2_firmware.Esb.Send.Bounds.{SentWell, esb_send_packet-SentWell}
use crazyradio2_firmware.Esb.Send.Buffers.{AtMost}
use crazyradio2_firmware.Esb.Send.Exchange.{Exchange, to_attempt, with_exchanges}

-- The semaphore is not given, and all its answers so far are right.
pub record IsSettled (s : Esb) : Type 0 where
  pub not_given : sem_available s.calls ≡ false
  pub consistent : sem_consistent s.calls ≡ true

-- With the modes of a send that waits for acks.
record Waits (s : Esb) : Type 0 where
  settled : IsSettled s
  acks : s.ack_enabled ≡ true
  passive : s.sniffer_active ≡ false

round-Waits : (x : Exchange) (s : Esb) → Waits s → Waits (clean_up (transmit (to_attempt x) s))
unfolding transmit clean_up interrupts radio_isr start_attempt
round-Waits x s w = ground (arith, w)

abbrev EndsSettled : LoopEnd → Type 0
EndsSettled (stuck s ack) = ⊥
EndsSettled (done s ack ok arc_counter) = IsSettled s
EndsSettled out_of_fuel = Unit

send_loop-EndsSettled :
    (air : Air) (x : ℕ → Exchange) (fuel n : ℕ) (s : Esb) (ack : EsbPacket)
    → Waits s
    → EndsSettled (send_loop (with_exchanges air x) fuel n s ack)
unfolding send_loop
send_loop-EndsSettled air x zero n s ack w = tt
send_loop-EndsSettled air x (suc fuel) n s ack w =
    let a = to_attempt (x n) in
    let w' = round-Waits (x n) s w in
    let again =
      send_loop-EndsSettled air x fuel (n + 1) (clean_up (transmit a s))
        (ack_after (landed a (transmit a s).calls) ack) w' in
    ground (arith, w', again)

finish_send-IsSettled :
    (air : Air) (packet : EsbPacket) (rssi retry : ℕ) (e : LoopEnd)
    → EndsSettled e
    → AtMost (λ r. IsSettled r.esb) (finish_send air packet rssi retry e)
unfolding finish_send
finish_send-IsSettled air packet rssi retry (stuck s ack) h = absurd h
finish_send-IsSettled air packet rssi retry (done s ack ok k) h = ground (arith, h)
finish_send-IsSettled air packet rssi retry out_of_fuel h = tt

sent-IsSettled :
    (air : Air) (x : ℕ → Exchange) (fuel : ℕ) (packet ack : EsbPacket) (rssi retry : ℕ) (s : Esb)
    → s.ack_enabled ≡ true
    → IsSettled s
    → AtMost
        (λ r. IsSettled r.esb)
        (esb_send_packet (with_exchanges air x) fuel packet ack rssi retry s)
unfolding esb_send_packet
sent-IsSettled air x fuel packet ack rssi retry s acks settled =
    let entered = record s { pid = u8 (s.pid + 1); calls = s.calls ▹ mutex_lock radio_busy } in
    elim (Bool-cases (refuses s)) [
      | inl refused ↦ rw refused settled
      | inr allowed ↦ elim (Bool-cases (simulated_loss (with_exchanges air x) s)) [
        | inl lost ↦ rw (allowed, lost) (ground (arith, settled))
        | inr kept ↦
            let waits : Waits entered = ground (arith, settled, allowed) in
            rw (allowed, kept)
              (finish_send-IsSettled (with_exchanges air x)
                (record packet { s1 = s1_field s.pid 1 }) rssi retry _
                (send_loop-EndsSettled air x fuel 0 entered ack waits))
      ]
    ]

Returns-and :
    (P Q : Sent → Type 0) (o : Option Sent) → Returns P o → AtMost Q o → Returns (λ r. P r × Q r) o
Returns-and P Q none p q = p
Returns-and P Q (some r) p q = (p, q)

-- With acks enabled and a radio that interrupts once when a packet is out and once when the wait
-- for the ack ends, every wait of a call finds the semaphore given, by the interrupt of its own
-- attempt; the call returns and leaves the semaphore taken for the next one.
pub esb_send_packet-IsSettled :
    (air : Air) (x : ℕ → Exchange) (fuel : ℕ) (packet ack : EsbPacket) (rssi retry : ℕ) (s : Esb)
    → s.arc < 255
    → s.arc < fuel
    → held s.calls ≡ false
    → guarded s.calls ≡ true
    → s.ack_enabled ≡ true
    → IsSettled s
    → Returns
        (λ r. IsSettled r.esb)
        (esb_send_packet (with_exchanges air x) fuel packet ack rssi retry s)
esb_send_packet-IsSettled air x fuel packet ack rssi retry s small enough h g acks settled =
    Returns-mono (λ r. SentWell s retry r × IsSettled r.esb) _ _ (λ r w. w.1)
      (Returns-and (SentWell s retry) _ _
        (esb_send_packet-SentWell (with_exchanges air x) fuel packet ack rssi retry s small enough h
          g)
        (sent-IsSettled air x fuel packet ack rssi retry s acks settled))

-- The attempt whose ack or timeout never comes: one interrupt, and the wait of 200 ms ends.
abbrev pub unanswered : Irq → Attempt
unanswered q = record { irqs = q ∷ []; taken = false; received = none; crc_ok = false }

-- When a call has given up waiting, the interrupt that its `TASK_DISABLE` raises gives the semaphore
-- after `k_sem_reset` has cleared it. Nothing takes it before the next packet is started, whose wait
-- finds it given although the packet is still being sent.
pub reset_stuck-stale :
    (q late : Irq) (s : Esb)
    → s.ack_enabled ≡ true
    → s.sniffer_active ≡ false
    → IsSettled s
    → let reset = reset_stuck (transmit (unanswered q) s) in
      let next = start_attempt (radio_isr late reset) in
      (sem_available reset.calls ≡ false)
      × (sem_available next.calls ≡ true)
      × (next.sending ≡ true)
      × (sem_consistent (next.calls ▹ sem_take true) ≡ true)
unfolding transmit reset_stuck interrupts radio_isr start_attempt
reset_stuck-stale q late s acks passive settled = ground (arith, settled)
