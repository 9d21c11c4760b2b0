-- ===== src/Esb/Send/Bounds.antt =====
-- What holds of a call of `esb_send_packet` whatever the radio does: any interrupts, any answers.
use crazyradio2_firmware.Base.{
  ℕ, zero, suc, ◌+◌, ◌≤◌, ◌<◌, u8, Returns, Bool-cases, ◌≡◌, refl, ◌⊎◌, inl, inr, Bool, true, false,
  not, ◌&&◌, arith, leb,
}
use crazyradio2_firmware.Platform.{◌▹◌, mutex_lock, radio_busy}
use crazyradio2_firmware.Platform.Trace.{held, guarded, transmissions}
use crazyradio2_firmware.Esb.State.{Esb, EsbPacket}
use crazyradio2_firmware.Esb.Send.{
  Attempt, Air, LoopEnd, stuck, done, out_of_fuel, transmit, clean_up, reset_stuck, ack_after,
  landed, send_loop, Sent, finish_send, s1_field, esb_send_packet, refuses, simulated_loss,
}
use crazyradio2_firmware.Esb.Send.Frame.{SameSettings, transmit-OneMore, clean_up-OneMore}

-- The loop was left stuck, with the lock given back.
record StuckWell (s : Esb) (n : ℕ) (s' : Esb) : Type 0 where
  settings : SameSettings s s'
  some_sent : transmissions s'.calls + n ≤ transmissions s.calls + s.arc + 1
  released : held s'.calls ≡ false
  is_guarded : guarded s'.calls ≡ true

-- The loop ran its course, with the lock still held.
record DoneWell (s : Esb) (n : ℕ) (s' : Esb) (ok : Bool) (arc_counter : ℕ) : Type 0 where
  acked_enabled : ok ≡ true → s.ack_enabled ≡ true
  settings : SameSettings s s'
  counted : transmissions s'.calls + n ≡ transmissions s.calls + arc_counter
  some_sent : n < arc_counter
  few_sent : arc_counter ≤ s.arc + 1
  still_held : held s'.calls ≡ true
  is_guarded : guarded s'.calls ≡ true

abbrev EndsWell : Esb → ℕ → LoopEnd → Type 0
EndsWell s n (stuck s' ack) = StuckWell s n s'
EndsWell s n (done s' ack ok arc_counter) = DoneWell s n s' ok arc_counter
EndsWell s n out_of_fuel = ⊥

-- From the next round to this one.
EndsWell-step :
    (a : Attempt) (s : Esb) (n : ℕ) (e : LoopEnd)
    → held s.calls ≡ true
    → guarded s.calls ≡ true
    → EndsWell (clean_up (transmit a s)) (n + 1) e
    → EndsWell s n e
EndsWell-step a s n (stuck s' ack) h g w = ground (arith, clean_up-OneMore a s)
EndsWell-step a s n (done s' ack ok k) h g w = ground (arith, clean_up-OneMore a s)
EndsWell-step a s n out_of_fuel h g w = w

stuck-EndsWell :
    (a : Attempt) (s : Esb) (n : ℕ)
    → n ≤ s.arc
    → held s.calls ≡ true
    → guarded s.calls ≡ true
    → StuckWell s n (reset_stuck (transmit a s))
unfolding reset_stuck
stuck-EndsWell a s n le h g = ground (arith, transmit-OneMore a s)

done-EndsWell :
    (a : Attempt) (s : Esb) (n : ℕ) (ok : Bool)
    → (ok ≡ true → s.ack_enabled ≡ true)
    → n ≤ s.arc
    → held s.calls ≡ true
    → guarded s.calls ≡ true
    → DoneWell s n (clean_up (transmit a s)) ok (n + 1)
done-EndsWell a s n ok e le h g = ground (arith, clean_up-OneMore a s)

send_loop-EndsWell :
    (air : Air) (fuel n : ℕ) (s : Esb) (ack : EsbPacket)
    → n ≤ s.arc
    → s.arc < fuel + n
    → held s.calls ≡ true
    → guarded s.calls ≡ true
    → EndsWell s n (send_loop air fuel n s ack)
unfolding send_loop
send_loop-EndsWell air zero n s ack le enough h g = absurd (omega arith)
send_loop-EndsWell air (suc fuel) n s ack le enough h g =
    let a = air.attempt n in
    let s' = clean_up (transmit a s) in
    let one = clean_up-OneMore a s in
    let again : leb (n + 1) s.arc ≡ true
        → EndsWell s n
            (send_loop air fuel (n + 1) s' (ack_after (landed a (transmit a s).calls) ack)) =
      λ more. EndsWell-step a s n _ h g (
        send_loop-EndsWell air fuel (n + 1) s' _ (ground (arith, one)) (ground (arith, one))
          (one.held_on h) (one.keeps_guarded h g)) in
    ground (
      arith,
      transmit-OneMore a s,
      again,
      stuck-EndsWell a s n le h g,
      done-EndsWell a s n (not (transmit a s).timeout && a.crc_ok && (transmit a s).ack_enabled)
          (λ e. ground (arith, transmit-OneMore a s)) le h g,
    )

-- The end of a call that was let through.
pub record SentWell (s : Esb) (retry : ℕ) (r : Sent) : Type 0 where
  pub released : held r.esb.calls ≡ false
  pub is_guarded : guarded r.esb.calls ≡ true
  pub few_sent : transmissions r.esb.calls ≤ transmissions s.calls + s.arc + 1
  pub acked_enabled : r.result ≡ true → s.ack_enabled ≡ true
  pub numbering :
      ((r.esb.pid ≡ s.pid) × (transmissions r.esb.calls ≡ transmissions s.calls))
      ⊎ ((r.esb.pid ≡ u8 (s.pid + 1)) × (r.packet.s1 ≡ s1_field s.pid 1))
  pub arc_same : r.esb.arc ≡ s.arc
  pub mode_same : refuses r.esb ≡ refuses s
  pub acks_same : r.esb.ack_enabled ≡ s.ack_enabled
  pub loss_same : r.esb.packet_loss_percent ≡ s.packet_loss_percent
  pub ack_loss_same : r.esb.ack_loss_percent ≡ s.ack_loss_percent

-- The state when the loop is entered.
abbrev entered : Esb → Esb
entered s = record s { pid = u8 (s.pid + 1); calls = s.calls ▹ mutex_lock radio_busy }

finish_send-SentWell :
    (air : Air) (packet : EsbPacket) (rssi retry : ℕ) (s : Esb) (e : LoopEnd)
    → s.arc < 255
    → packet.s1 ≡ s1_field s.pid 1
    → EndsWell (entered s) 0 e
    → Returns (SentWell s retry) (finish_send air packet rssi retry e)
unfolding finish_send
finish_send-SentWell air packet rssi retry s (stuck s' ack) h n w = ground arith
finish_send-SentWell air packet rssi retry s (done s' ack ok k) h n w = ground arith
finish_send-SentWell air packet rssi retry s out_of_fuel h n w = absurd w

-- Whatever the radio does, with more fuel than `arc` a call returns; it gives `radio_busy` back and
-- touches the radio, outside the interrupt handler, only while it holds it; it transmits at most
-- `arc + 1` times; it either transmits nothing and keeps the packet ID, or counts the ID on and puts
-- the old one into the packet; the answer is true only if acks are enabled; the settings that decide
-- whether packets are sent do not change. The mutex was free and `arc` is below 255.
pub esb_send_packet-SentWell :
    (air : Air) (fuel : ℕ) (packet ack : EsbPacket) (rssi retry : ℕ) (s : Esb)
    → s.arc < 255
    → s.arc < fuel
    → held s.calls ≡ false
    → guarded s.calls ≡ true
    → Returns (SentWell s retry) (esb_send_packet air fuel packet ack rssi retry s)
unfolding esb_send_packet
esb_send_packet-SentWell air fuel packet ack rssi retry s small enough h g =
    elim (Bool-cases (refuses s)) [
      | inl refused ↦ rw refused (ground arith)
      | inr allowed ↦ elim (Bool-cases (simulated_loss air s)) [
        | inl lost ↦ rw (allowed, lost) (ground arith)
        | inr kept ↦
            rw (allowed, kept)
              (finish_send-SentWell air _ rssi retry s _ small refl (
                send_loop-EndsWell air fuel 0 (entered s) ack (omega arith) (omega arith) refl
                  (ground arith)))
      ]
    ]
