-- ===== src/Esb/Send/Answers.antt =====
-- What `esb_send_packet` answers, in terms of which transmissions are answered.
use crazyradio2_firmware.Base.{
  ℕ, suc, ◌+◌, ◌%◌, ◌*◌, ◌≤◌, ◌<◌, u8, Returns, Returns-mono, ◌≡◌, ◌≢◌, refl, Bool, true, false,
  some, [], ◌∷◌, arith,
}
use crazyradio2_firmware.Base.Bits.{bit_and_low, bit_or_sum}
use crazyradio2_firmware.Platform.{◌▹◌, mutex_lock, radio_busy}
use crazyradio2_firmware.Platform.Trace.{held, guarded, transmissions, tx_line, rx_line}
use crazyradio2_firmware.Esb.State.{Esb, EsbPacket}
use crazyradio2_firmware.Esb.Isr.{Irq, radio_isr, interrupts}
use crazyradio2_firmware.Esb.Send.{
  Attempt, Air, LoopEnd, stuck, done, out_of_fuel, transmit, clean_up, ack_after, landed, send_loop,
  Sent, finish_send, s1_field, esb_send_packet, refuses, simulated_loss,
}
use crazyradio2_firmware.Esb.Send.Bounds.{SentWell, esb_send_packet-SentWell}
use crazyradio2_firmware.Esb.Send.Exchange.{
  Exchange, to_attempt, EndsWith-at, answered, with_exchanges, IsReady, EndsWith, send_loop-first,
  send_loop-none,
}

abbrev entered : Esb → Esb
entered s = record s { pid = u8 (s.pid + 1); calls = s.calls ▹ mutex_lock radio_busy }

abbrev numbered : EsbPacket → Esb → EsbPacket
numbered packet s = record packet { s1 = s1_field s.pid 1 }

s1_field_sum : (pid : ℕ) → s1_field pid 1 ≡ pid % 4 * 2 + 1
unfolding s1_field
s1_field_sum pid = rw (bit_and_low 2 pid) (bit_or_sum 1 (pid % 4) 1 (omega arith))

-- A call that is let through is its loop and what follows it.
pub esb_send_packet-ready :
    (air : Air) (fuel : ℕ) (packet ack : EsbPacket) (rssi retry : ℕ) (s : Esb)
    → refuses s ≡ false
    → simulated_loss air s ≡ false
    → esb_send_packet air fuel packet ack rssi retry s
      ≡ finish_send air (numbered packet s) rssi retry (send_loop air fuel 0 (entered s) ack)
unfolding esb_send_packet
esb_send_packet-ready air fuel packet ack rssi retry s allowed kept = rw (allowed, kept)

-- The outcome of a call in which `count` transmissions are made.
pub record Outcome (air : Air) (s : Esb) (count : ℕ) (ok : Bool) (P : EsbPacket → Type 0) (r : Sent)
    : Type 0 where
  pub result : r.result ≡ ok
  pub retries : r.retry + 1 ≡ count
  pub sampled : r.rssi ≡ u8 air.rssi_sample
  pub acked : P r.ack
  pub sends : transmissions r.esb.calls ≡ transmissions s.calls + count
  pub tx_off : tx_line r.esb.calls ≡ some 0
  pub rx_off : rx_line r.esb.calls ≡ some 0

finish_send-Outcome :
    (air : Air) (attempt : ℕ → Attempt) (packet : EsbPacket) (rssi retry : ℕ) (s : Esb) (count : ℕ)
    (ok : Bool) (P : EsbPacket → Type 0) (e : LoopEnd)
    → count ≤ 255
    → 0 < count
    → EndsWith count (transmissions s.calls + count) 0 ok P e
    → Returns
        (Outcome air s count ok P)
        (finish_send (record air { attempt = attempt }) packet rssi retry e)
unfolding finish_send
finish_send-Outcome air attempt packet rssi retry s count ok P (stuck s' ack) small pos h = absurd h
finish_send-Outcome air attempt packet rssi retry s count ok P (done s' ack acked k) small pos h =
    record {
      result = ground (arith, h.0);
      retries = ground (arith, h.0);
      sampled = refl;
      acked = h.1;
      sends = ground (arith, h.0);
      tx_off = ground (arith, h.0);
      rx_off = ground (arith, h.0);
    }
finish_send-Outcome air attempt packet rssi retry s count ok P out_of_fuel small pos h = absurd h

module _ (air : Air) (x : ℕ → Exchange) (fuel : ℕ) (packet ack : EsbPacket) (rssi retry : ℕ)
    (s : Esb) (ready : IsReady (with_exchanges air x) s) (enough : s.arc < fuel)
    (acks : s.ack_enabled ≡ true) where
  passive : s.sniffer_active ≡ false
  passive = let allowed = ready.allowed in ground arith

  -- With acks enabled, in a call that is let through, with no loss of packets or acks simulated: if
  -- every transmission ends with an interrupt, and so does the wait for its ack, transmission `k` is
  -- the first that is answered, and `k` is at most `arc`, the call returns true after `k + 1` transmissions, with `k` retries, the RSSI sample and the
  -- packet that answered in the ack buffer, and leaves both lines of the front end off.
  pub esb_send_packet-first_answer :
      (k : ℕ) (p : EsbPacket)
      → k ≤ s.arc
      → ((j : ℕ) → j < k → answered (x j) ≡ false)
      → answered (x k) ≡ true
      → (x k).received ≡ some p
      → Returns
          (Outcome air s (k + 1) true (λ ack'. ack' ≡ p))
          (esb_send_packet (with_exchanges air x) fuel packet ack rssi retry s)
  esb_send_packet-first_answer k p le miss hit got =
      rw
        (esb_send_packet-ready (with_exchanges air x) fuel packet ack rssi retry s ready.allowed
          ready.kept)
        (finish_send-Outcome air (λ j. to_attempt (x j)) _ rssi retry s (k + 1) true
          (λ ack'. ack' ≡ p) _ (omega (arith, ready.small)) (omega arith)
          (EndsWith-at true (λ ack'. ack' ≡ p) _ refl (omega arith) ready.no_ack_loss
            (send_loop-first air x k fuel 0 k (entered s) ack (omega arith) (omega arith) le acks
              passive (λ j a b. miss j b) hit p got)))

  -- With acks enabled, in a call that is let through, with no loss of packets or acks simulated: if
  -- every transmission ends with an interrupt, and so does the wait for its ack, and none of the
  -- `arc + 1` transmissions is answered, the call returns false after making all of them, reports `arc` retries, and leaves the front end off.
  pub esb_send_packet-no_answer :
      ((j : ℕ) → j ≤ s.arc → answered (x j) ≡ false)
      → Returns
          (Outcome air s (s.arc + 1) false (λ _. Unit))
          (esb_send_packet (with_exchanges air x) fuel packet ack rssi retry s)
  esb_send_packet-no_answer miss =
      rw
        (esb_send_packet-ready (with_exchanges air x) fuel packet ack rssi retry s ready.allowed
          ready.kept)
        (finish_send-Outcome air (λ j. to_attempt (x j)) _ rssi retry s (s.arc + 1) false
          (λ _. Unit) _ (omega (arith, ready.small)) (omega arith)
          (EndsWith-at false (λ _. Unit) _ refl (omega arith) ready.no_ack_loss
            (send_loop-none air x s.arc fuel 0 (entered s) ack (omega arith) enough acks passive
              (λ j a b. miss j b))))

record Broadcast (s s' : Esb) : Type 0 where
  disabled : s'.ack_enabled ≡ false
  sends_one : transmissions s'.calls ≡ transmissions s.calls + 1
  tx_on : tx_line s'.calls ≡ some 1

transmit-Broadcast :
    (a : Attempt) (q : Irq) (s : Esb)
    → a.irqs ≡ q ∷ []
    → s.ack_enabled ≡ false
    → s.sniffer_active ≡ false
    → Broadcast s (transmit a s) × Broadcast s (clean_up (transmit a s))
unfolding transmit clean_up interrupts radio_isr
transmit-Broadcast a q s e off passive = rw e (ground arith)

send_loop-broadcast :
    (air : Air) (q : Irq) (fuel : ℕ) (s : Esb) (ack : EsbPacket)
    → (air.attempt 0).irqs ≡ q ∷ []
    → (air.attempt 0).taken ≡ true
    → s.ack_enabled ≡ false
    → s.sniffer_active ≡ false
    → send_loop air (suc fuel) 0 s ack
      ≡ done
          (clean_up (transmit (air.attempt 0) s))
          (ack_after (landed (air.attempt 0) (transmit (air.attempt 0) s).calls) ack)
          false
          1
unfolding send_loop
send_loop-broadcast air q fuel s ack irqs taken off passive =
    ground (arith, transmit-Broadcast (air.attempt 0) q s irqs off passive)

-- With acks disabled, in a call that is let through and whose packet is not lost by simulation, and
-- with one interrupt before the semaphore is taken, the packet is sent once, whatever `arc` is: the
-- call returns false with no retries, and leaves the amplifier's line of the front end on.
pub esb_send_packet-broadcast :
    (air : Air) (q : Irq) (fuel : ℕ) (packet ack : EsbPacket) (rssi retry : ℕ) (s : Esb)
    → refuses s ≡ false
    → simulated_loss air s ≡ false
    → s.ack_enabled ≡ false
    → (air.attempt 0).irqs ≡ q ∷ []
    → (air.attempt 0).taken ≡ true
    → Returns
        (λ r.
          (r.result ≡ false)
          × (r.retry ≡ 0)
          × (transmissions r.esb.calls ≡ transmissions s.calls + 1)
          × (tx_line r.esb.calls ≡ some 1))
        (esb_send_packet air (suc fuel) packet ack rssi retry s)
esb_send_packet-broadcast air q fuel packet ack rssi retry s allowed kept off irqs taken =
    rw (esb_send_packet-ready air (suc fuel) packet ack rssi retry s allowed kept) (
      rw (send_loop-broadcast air q fuel (entered s) ack irqs taken off (ground arith)) (
        unfold finish_send in
        ground (arith, transmit-Broadcast (air.attempt 0) q (entered s) irqs off (ground arith))))

-- A call that transmits puts the packet ID into S1, beside the bit that asks for an ack, and counts
-- the ID on modulo four, so that the next packet carries another one.
pub esb_send_packet-numbering :
    (air : Air) (fuel : ℕ) (packet ack : EsbPacket) (rssi retry : ℕ) (s : Esb)
    → s.arc < 255
    → s.arc < fuel
    → held s.calls ≡ false
    → guarded s.calls ≡ true
    → Returns
        (λ r.
          transmissions r.esb.calls ≢ transmissions s.calls
          → (r.packet.s1 ≡ s.pid % 4 * 2 + 1)
            × (r.esb.pid % 4 ≡ (s.pid + 1) % 4)
            × (s1_field r.esb.pid 1 ≢ r.packet.s1))
        (esb_send_packet air fuel packet ack rssi retry s)
esb_send_packet-numbering air fuel packet ack rssi retry s small enough h g =
    Returns-mono (SentWell s retry) _ _
      (λ r w sends. ground (arith, s1_field_sum s.pid, s1_field_sum r.esb.pid, w.numbering))
      (esb_send_packet-SentWell air fuel packet ack rssi retry s small enough h g)
