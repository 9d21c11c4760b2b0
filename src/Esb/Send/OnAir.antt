-- ===== src/Esb/Send/OnAir.antt =====
-- What the address and frequency registers hold whenever `esb_send_packet` starts a transmission.
use crazyradio2_firmware.Base.{
  ℕ, zero, suc, ◌+◌, u8, ◌≡◌, refl, ap, ◌∙◌, ◌⊎◌, inl, inr, Bool-cases, false, not, ◌&&◌, ◌||◌,
  arith, Option, some, List, [], ◌∷◌, leb, if_rule,
}
use crazyradio2_firmware.Platform.{Calls, ◌▹◌, mutex_lock, radio_busy, tx_packet}
use crazyradio2_firmware.Platform.Trace.{
  last_packetptr, at_last_tx, last_base0, last_prefix0, last_frequency,
}
use crazyradio2_firmware.Esb.State.{Esb, EsbPacket}
use crazyradio2_firmware.Esb.Isr.{Irq, radio_isr, interrupts}
use crazyradio2_firmware.Esb.Send.{
  Attempt, Air, LoopEnd, stuck, done, out_of_fuel, start_attempt, transmit, clean_up, reset_stuck,
  ack_after, landed, send_loop, Sent, finish_send, s1_field, esb_send_packet, refuses,
  simulated_loss,
}
use crazyradio2_firmware.Esb.Send.Buffers.{AtMost, AtMost-mono}

-- The registers of `t'` are those of `t`.
pub record SameRegisters (t t' : Calls) : Type 0 where
  pub base0_same : last_base0 t' ≡ last_base0 t
  pub prefix0_same : last_prefix0 t' ≡ last_prefix0 t
  pub frequency_same : last_frequency t' ≡ last_frequency t

SameRegisters-trans : (t u v : Calls) → SameRegisters t u → SameRegisters u v → SameRegisters t v
SameRegisters-trans t u v h k = record {
  base0_same = k.base0_same ∙ h.base0_same;
  prefix0_same = k.prefix0_same ∙ h.prefix0_same;
  frequency_same = k.frequency_same ∙ h.frequency_same;
}

-- An interrupt writes none of them, and starts no transmission.
record Passive (t t' : Calls) : Type 0 where
  registers : SameRegisters t t'
  tx_same : at_last_tx t' ≡ at_last_tx t

radio_isr-Passive : (q : Irq) (s : Esb) → Passive s.calls (radio_isr q s).calls
unfolding radio_isr
radio_isr-Passive q s = ground arith

interrupts-Passive : (qs : List Irq) (s : Esb) → Passive s.calls (interrupts qs s).calls
unfolding interrupts
interrupts-Passive [] s = ground arith
interrupts-Passive (q ∷ qs) s =
    let first = radio_isr-Passive q s in
    let rest = interrupts-Passive qs (radio_isr q s) in
    record {
      registers =
          SameRegisters-trans s.calls (radio_isr q s).calls _ first.registers rest.registers;
      tx_same = rest.tx_same ∙ first.tx_same;
    }

-- The last transmission of `t'` was started with the registers of `t`, which are still the same, and
-- with the radio pointed at the packet to send.
pub record SentWith (t t' : Calls) : Type 0 where
  pub at_start : SameRegisters t (at_last_tx t')
  pub at_end : SameRegisters t t'
  pub points : last_packetptr (at_last_tx t') ≡ some tx_packet

start_attempt-SentWith : (s : Esb) → SentWith s.calls (start_attempt s).calls
unfolding start_attempt
start_attempt-SentWith s = ground arith

-- What starts no transmission comes after one.
SentWith-Passive : (t u v : Calls) → SentWith t u → Passive u v → SentWith t v
SentWith-Passive t u v h k = record {
  at_start = record {
    base0_same = ap last_base0 k.tx_same ∙ h.at_start.base0_same;
    prefix0_same = ap last_prefix0 k.tx_same ∙ h.at_start.prefix0_same;
    frequency_same = ap last_frequency k.tx_same ∙ h.at_start.frequency_same;
  };
  at_end = SameRegisters-trans t u v h.at_end k.registers;
  points = ap last_packetptr k.tx_same ∙ h.points;
}

transmit-SentWith : (a : Attempt) (s : Esb) → SentWith s.calls (transmit a s).calls
unfolding transmit
transmit-SentWith a s =
    let started = start_attempt s in
    let sent =
      SentWith-Passive s.calls started.calls (interrupts a.irqs started).calls
        (start_attempt-SentWith s) (interrupts-Passive a.irqs started) in
    record {
      at_start = record {
        base0_same = sent.at_start.base0_same;
        prefix0_same = sent.at_start.prefix0_same;
        frequency_same = sent.at_start.frequency_same;
      };
      at_end = record {
        base0_same = sent.at_end.base0_same;
        prefix0_same = sent.at_end.prefix0_same;
        frequency_same = sent.at_end.frequency_same;
      };
      points = sent.points;
    }

clean_up-Passive : (s : Esb) → Passive s.calls (clean_up s).calls
unfolding clean_up
clean_up-Passive s = ground arith

reset_stuck-Passive : (s : Esb) → Passive s.calls (reset_stuck s).calls
unfolding reset_stuck
reset_stuck-Passive s = ground arith

-- An attempt after others, on the same registers.
SentWith-later : (t u v : Calls) → SameRegisters t u → SentWith u v → SentWith t v
SentWith-later t u v h k = record {
  at_start = SameRegisters-trans t u _ h k.at_start;
  at_end = SameRegisters-trans t u v h k.at_end;
  points = k.points;
}

abbrev EndsSentWith : Calls → LoopEnd → Type 0
EndsSentWith t (stuck s ack) = SentWith t s.calls
EndsSentWith t (done s ack ok arc_counter) = SentWith t s.calls
EndsSentWith t out_of_fuel = Unit

EndsSentWith-later :
    (t u : Calls) (e : LoopEnd) → SameRegisters t u → EndsSentWith u e → EndsSentWith t e
EndsSentWith-later t u (stuck s ack) h k = SentWith-later t u s.calls h k
EndsSentWith-later t u (done s ack ok n) h k = SentWith-later t u s.calls h k
EndsSentWith-later t u out_of_fuel h k = tt

send_loop-EndsSentWith :
    (air : Air) (fuel n : ℕ) (s : Esb) (ack : EsbPacket)
    → EndsSentWith s.calls (send_loop air fuel n s ack)
unfolding send_loop
send_loop-EndsSentWith air zero n s ack = tt
send_loop-EndsSentWith air (suc fuel) n s ack =
    let a = air.attempt n in
    let s' = transmit a s in
    let ack' = ack_after (landed a s'.calls) ack in
    let received = not s'.timeout && a.crc_ok && s'.ack_enabled in
    let sent = transmit-SentWith a s in
    let cleaned = SentWith-Passive s.calls s'.calls _ sent (clean_up-Passive s') in
    let again =
      EndsSentWith-later s.calls (clean_up s').calls _ cleaned.at_end
        (send_loop-EndsSentWith air fuel (n + 1) (clean_up s') ack') in
    if_rule (EndsSentWith s.calls) (not a.taken) _ _
      (λ _. SentWith-Passive s.calls s'.calls _ sent (reset_stuck-Passive s'))
      (λ _.
        if_rule (EndsSentWith s.calls) (received || not s'.ack_enabled) _ _ (λ _. cleaned)
          (λ _.
            if_rule (EndsSentWith s.calls) (leb (n + 1) s'.arc) _ _ (λ _. again) (λ _. cleaned)))

finish_send-SentWith :
    (air : Air) (packet : EsbPacket) (rssi retry : ℕ) (t : Calls) (e : LoopEnd)
    → EndsSentWith t e
    → AtMost (λ r. SentWith t r.esb.calls) (finish_send air packet rssi retry e)
unfolding finish_send
finish_send-SentWith air packet rssi retry t (stuck s ack) h = h
finish_send-SentWith air packet rssi retry t (done s ack ok k) h = ground (arith, h)
finish_send-SentWith air packet rssi retry t out_of_fuel h = tt

-- A call that is let through starts its transmissions with the registers as they are.
pub esb_send_packet-SentWith :
    (air : Air) (fuel : ℕ) (packet ack : EsbPacket) (rssi retry : ℕ) (s : Esb)
    → refuses s ≡ false
    → simulated_loss air s ≡ false
    → AtMost (λ r. SentWith s.calls r.esb.calls) (esb_send_packet air fuel packet ack rssi retry s)
unfolding esb_send_packet
esb_send_packet-SentWith air fuel packet ack rssi retry s allowed kept =
    let entered = record s { pid = u8 (s.pid + 1); calls = s.calls ▹ mutex_lock radio_busy } in
    let enters : SameRegisters s.calls entered.calls = ground arith in
    let Sends : Option Sent → Type 0 = AtMost (λ r. SentWith s.calls r.esb.calls) in
    if_rule Sends (refuses s) _ _ (λ h. absurd (ground arith))
      (λ _.
        if_rule Sends (simulated_loss air s) _ _ (λ h. absurd (ground arith))
          (λ _.
            finish_send-SentWith air (record packet { s1 = s1_field s.pid 1 }) rssi retry s.calls _
              (EndsSentWith-later s.calls entered.calls _ enters
                (send_loop-EndsSentWith air fuel 0 entered ack))))

-- If the last transmission of `t'` is not that of `t`, the radio was pointed at the packet to send
-- when it was started.
abbrev pub IsAimed : Calls → Type 0
IsAimed t = last_packetptr (at_last_tx t) ≡ some tx_packet

abbrev pub AimsFrom : Calls → Calls → Type 0
AimsFrom t t' = (at_last_tx t' ≡ at_last_tx t) ⊎ IsAimed t'

pub AimsFrom-trans : (t u v : Calls) → AimsFrom t u → AimsFrom u v → AimsFrom t v
AimsFrom-trans t u v h k = elim k [
  | inl same ↦ elim h [
    | inl before ↦ inl (same ∙ before)
    | inr aimed ↦ inr (ap last_packetptr same ∙ aimed)
  ]
  | inr aimed ↦ inr aimed
]

pub esb_send_packet-AimsFrom :
    (air : Air) (fuel : ℕ) (packet ack : EsbPacket) (rssi retry : ℕ) (s : Esb)
    → AtMost (λ r. AimsFrom s.calls r.esb.calls) (esb_send_packet air fuel packet ack rssi retry s)
esb_send_packet-AimsFrom air fuel packet ack rssi retry s =
    let Sends : Option Sent → Type 0 = AtMost (λ r. AimsFrom s.calls r.esb.calls) in
    elim (Bool-cases (refuses s)) [
      | inl refused ↦ unfold esb_send_packet in rw refused (inl refl)
      | inr allowed ↦ elim (Bool-cases (simulated_loss air s)) [
        | inl lost ↦ unfold esb_send_packet in rw (allowed, lost) (inl refl)
        | inr kept ↦
            AtMost-mono (λ r. SentWith s.calls r.esb.calls) _ _ (λ r h. inr h.points)
              (esb_send_packet-SentWith air fuel packet ack rssi retry s allowed kept)
      ]
    ]
