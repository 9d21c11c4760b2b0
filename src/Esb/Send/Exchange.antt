-- ===== src/Esb/Send/Exchange.antt =====
-- Calls of `esb_send_packet` in which the radio does its part: each transmission ends with an
-- interrupt, and so does the wait for the ack, by an ack or by the timeout of TIMER0.
use crazyradio2_firmware.Base.{
  ℕ, zero, suc, ◌+◌, ◌≤◌, ◌<◌, ◌≡◌, refl, ap, Bool, true, false, not, ◌&&◌, Option, some, [], ◌∷◌,
  arith,
}
use crazyradio2_firmware.Platform.{Calls, ack_packet, tx_packet, task_txen}
use crazyradio2_firmware.Platform.Trace.{
  sem_available, transmissions, tx_line, rx_line, last_packetptr, gives, int_enabled, last_task,
}
use crazyradio2_firmware.Esb.State.{Esb, EsbPacket}
use crazyradio2_firmware.Esb.Isr.{Irq, radio_isr, interrupts}
use crazyradio2_firmware.Esb.Send.{
  Attempt, Air, LoopEnd, stuck, done, out_of_fuel, start_attempt, transmit, clean_up, ack_after,
  landed, send_loop, refuses, simulated_loss,
}

-- One transmission: the interrupts at its end and at the end of the wait, and what was received.
pub record Exchange : Type 0 where
  pub sent : Irq
  pub ended : Irq
  pub received : Option EsbPacket
  pub crc_ok : Bool

abbrev pub to_attempt : Exchange → Attempt
to_attempt x = record {
  irqs = x.sent ∷ x.ended ∷ [];
  taken = true;
  received = x.received;
  crc_ok = x.crc_ok;
}

abbrev pub answered : Exchange → Bool
answered x = not x.ended.compare1 && x.crc_ok

-- The draws and the sample of `air`, with these transmissions.
abbrev pub with_exchanges : Air → (ℕ → Exchange) → Air
with_exchanges air x = record air { attempt = λ k. to_attempt (x k) }

-- The call is let through, and its answer too.
pub record IsReady (air : Air) (s : Esb) : Type 0 where
  pub allowed : refuses s ≡ false
  pub kept : simulated_loss air s ≡ false
  pub no_ack_loss : s.ack_loss_percent ≡ 0
  pub small : s.arc < 255

-- With acks enabled and out of the sniffer mode, an attempt points the radio at the packet to send,
-- with its interrupt enabled and the amplifier on, and starts it. The handler then makes the rest of
-- the attempt, of two interrupts: after the first the radio is pointed at the ack buffer, the front
-- end is switched over, and the semaphore is as it was and has not been given; after the second the
-- front end is off, the semaphore is available and has been given once, and `timeout` says whether
-- TIMER0 ended the wait.
pub radio_isr-exchange :
    (q q' : Irq) (s : Esb)
    → s.ack_enabled ≡ true
    → s.sniffer_active ≡ false
    → let t = start_attempt s in
      let listening = radio_isr q t in
      let ended = radio_isr q' listening in
      (last_packetptr t.calls ≡ some tx_packet)
      × (last_task t.calls ≡ some task_txen)
      × (int_enabled t.calls ≡ true)
      × (tx_line t.calls ≡ some 1)
      × (last_packetptr listening.calls ≡ some ack_packet)
      × (gives listening.calls ≡ gives s.calls)
      × (listening.sending ≡ false)
      × (tx_line listening.calls ≡ some 0)
      × (rx_line listening.calls ≡ some 1)
      × (sem_available listening.calls ≡ sem_available s.calls)
      × (tx_line ended.calls ≡ some 0)
      × (rx_line ended.calls ≡ some 0)
      × (sem_available ended.calls ≡ true)
      × (gives ended.calls ≡ gives s.calls + 1)
      × (ended.timeout ≡ q'.compare1)
unfolding radio_isr start_attempt
radio_isr-exchange q q' s e n = ground arith

pub record Exchanged (x : Exchange) (s s' : Esb) : Type 0 where
  pub timed : s'.timeout ≡ x.ended.compare1
  pub sends_one : transmissions s'.calls ≡ transmissions s.calls + 1
  pub enabled : s'.ack_enabled ≡ true
  pub passive : s'.sniffer_active ≡ false
  pub arc_same : s'.arc ≡ s.arc
  pub loss_same : s'.ack_loss_percent ≡ s.ack_loss_percent
  pub tx_off : tx_line s'.calls ≡ some 0
  pub rx_off : rx_line s'.calls ≡ some 0
  pub points : last_packetptr s'.calls ≡ some ack_packet

transmit-Exchanged :
    (x : Exchange) (s : Esb)
    → s.ack_enabled ≡ true
    → s.sniffer_active ≡ false
    → Exchanged x s (transmit (to_attempt x) s)
      × Exchanged x s (clean_up (transmit (to_attempt x) s))
unfolding transmit clean_up interrupts radio_isr
transmit-Exchanged x s e n = ground arith

landed-points :
    (a : Attempt) (t : Calls) → last_packetptr t ≡ some ack_packet → landed a t ≡ a.received
unfolding landed
landed-points a t h = rw h

-- What answers an exchange is in the ack buffer.
transmit-landed :
    (x : Exchange) (s : Esb)
    → s.ack_enabled ≡ true
    → s.sniffer_active ≡ false
    → landed (to_attempt x) (transmit (to_attempt x) s).calls ≡ x.received
transmit-landed x s e n = landed-points (to_attempt x) _ (transmit-Exchanged x s e n).0.points

-- How a loop ends: with this answer after `count` rounds and `total` transmissions, the front end
-- off.
pub record Ended (count total loss : ℕ) (ok : Bool) (s' : Esb) (acked : Bool) (arc_counter : ℕ)
    : Type 0 where
  pub result : acked ≡ ok
  pub counted : arc_counter ≡ count
  pub totalled : transmissions s'.calls ≡ total
  pub loss_same : s'.ack_loss_percent ≡ loss
  pub tx_off : tx_line s'.calls ≡ some 0
  pub rx_off : rx_line s'.calls ≡ some 0

abbrev pub EndsWith : (count total loss : ℕ) → Bool → (EsbPacket → Type 0) → LoopEnd → Type 0
EndsWith count total loss ok P (stuck s' ack) = ⊥
EndsWith count total loss ok P (done s' ack acked arc_counter) =
    Ended count total loss ok s' acked arc_counter × P ack
EndsWith count total loss ok P out_of_fuel = ⊥

pub EndsWith-at :
    {c c' t t' l l' : ℕ} (ok : Bool) (P : EsbPacket → Type 0) (e : LoopEnd)
    → c ≡ c'
    → t ≡ t'
    → l ≡ l'
    → EndsWith c t l ok P e
    → EndsWith c' t' l' ok P e
EndsWith-at ok P e ec et el w = rw (← ec, ← et, ← el) w

module _ (air : Air) (x : ℕ → Exchange) where
  -- One round that is not answered, with rounds left.
  send_loop-unanswered :
      (fuel n : ℕ) (s : Esb) (ack : EsbPacket)
      → s.ack_enabled ≡ true
      → s.sniffer_active ≡ false
      → n < s.arc
      → answered (x n) ≡ false
      → send_loop (with_exchanges air x) (suc fuel) n s ack
        ≡ send_loop
            (with_exchanges air x)
            fuel
            (n + 1)
            (clean_up (transmit (to_attempt (x n)) s))
            (ack_after (landed (to_attempt (x n)) (transmit (to_attempt (x n)) s).calls) ack)
  unfolding send_loop
  send_loop-unanswered fuel n s ack e p lt miss = ground (arith, transmit-Exchanged (x n) s e p)

  send_loop-answered :
      (fuel n : ℕ) (s : Esb) (ack : EsbPacket)
      → s.ack_enabled ≡ true
      → s.sniffer_active ≡ false
      → answered (x n) ≡ true
      → send_loop (with_exchanges air x) (suc fuel) n s ack
        ≡ done
            (clean_up (transmit (to_attempt (x n)) s))
            (ack_after (landed (to_attempt (x n)) (transmit (to_attempt (x n)) s).calls) ack)
            true
            (n + 1)
  unfolding send_loop
  send_loop-answered fuel n s ack e p hit = ground (arith, transmit-Exchanged (x n) s e p)

  send_loop-exhausted :
      (fuel n : ℕ) (s : Esb) (ack : EsbPacket)
      → s.ack_enabled ≡ true
      → s.sniffer_active ≡ false
      → n ≡ s.arc
      → answered (x n) ≡ false
      → send_loop (with_exchanges air x) (suc fuel) n s ack
        ≡ done
            (clean_up (transmit (to_attempt (x n)) s))
            (ack_after (landed (to_attempt (x n)) (transmit (to_attempt (x n)) s).calls) ack)
            false
            (n + 1)
  unfolding send_loop
  send_loop-exhausted fuel n s ack e p last miss = ground (arith, transmit-Exchanged (x n) s e p)

  pub send_loop-first :
      (d fuel n k : ℕ) (s : Esb) (ack : EsbPacket)
      → n + d ≡ k
      → d < fuel
      → k ≤ s.arc
      → s.ack_enabled ≡ true
      → s.sniffer_active ≡ false
      → ((j : ℕ) → n ≤ j → j < k → answered (x j) ≡ false)
      → answered (x k) ≡ true
      → (p : EsbPacket) → (x k).received ≡ some p
      → EndsWith
          (k + 1)
          (transmissions s.calls + d + 1)
          s.ack_loss_percent
          true
          (λ ack'. ack' ≡ p)
          (send_loop (with_exchanges air x) fuel n s ack)
  send_loop-first d zero n k s ack at enough le e q miss hit p got = absurd (omega arith)
  send_loop-first zero (suc fuel) n k s ack at enough le e q miss hit p got =
      let here : k ≡ n = omega arith in
      let hit_here : answered (x n) ≡ true = rw (← here) hit in
      let got_here : (x n).received ≡ some p = rw (← here) got in
      rw (send_loop-answered fuel n s ack e q hit_here)
        (ground (arith, transmit-Exchanged (x n) s e q, transmit-landed (x n) s e q))
  send_loop-first (suc d) (suc fuel) n k s ack at enough le e q miss hit p got =
      let s' = clean_up (transmit (to_attempt (x n)) s) in
      let one = (transmit-Exchanged (x n) s e q).1 in
      let total : transmissions s'.calls + d + 1 ≡ transmissions s.calls + suc d + 1 =
        omega (arith, one.sends_one) in
      rw (send_loop-unanswered fuel n s ack e q (omega arith) (miss n (omega arith) (omega arith)))
        (EndsWith-at _ _ _ refl total one.loss_same (
          send_loop-first d fuel (n + 1) k s' _ (omega arith) (omega arith)
            (omega (arith, one.arc_same, le)) one.enabled one.passive
            (λ j a b. miss j (omega arith) b) hit p got))

  pub send_loop-none :
      (d fuel n : ℕ) (s : Esb) (ack : EsbPacket)
      → n + d ≡ s.arc
      → d < fuel
      → s.ack_enabled ≡ true
      → s.sniffer_active ≡ false
      → ((j : ℕ) → n ≤ j → j ≤ s.arc → answered (x j) ≡ false)
      → EndsWith
          (s.arc + 1)
          (transmissions s.calls + d + 1)
          s.ack_loss_percent
          false
          (λ _. Unit)
          (send_loop (with_exchanges air x) fuel n s ack)
  send_loop-none d zero n s ack at enough e q miss = absurd (omega arith)
  send_loop-none zero (suc fuel) n s ack at enough e q miss =
      rw (send_loop-exhausted fuel n s ack e q (omega arith) (miss n (omega arith) (omega arith)))
        (ground (arith, transmit-Exchanged (x n) s e q))
  send_loop-none (suc d) (suc fuel) n s ack at enough e q miss =
      let s' = clean_up (transmit (to_attempt (x n)) s) in
      let one = (transmit-Exchanged (x n) s e q).1 in
      let total : transmissions s'.calls + d + 1 ≡ transmissions s.calls + suc d + 1 =
        omega (arith, one.sends_one) in
      rw (send_loop-unanswered fuel n s ack e q (omega arith) (miss n (omega arith) (omega arith)))
        (EndsWith-at _ _ _ (ap (λ t. t + 1) one.arc_same) total one.loss_same (
          send_loop-none d fuel (n + 1) s' _ (omega (arith, one.arc_same, at)) (omega arith)
            one.enabled one.passive
            (λ j a b. miss j (omega arith) (omega (arith, one.arc_same, b)))))
