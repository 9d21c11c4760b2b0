-- ===== src/Esb/Unnoticed.antt =====
-- What the USB side notices of the operations of the radio of src/esb.c: what is written to the host,
-- the packets that the sniffer's callback is handed, and the two mutexes.
pub mod Modes
use crazyradio2_firmware.Base.{
  ℕ, zero, suc, ◌+◌, u8, ◌≡◌, refl, ap, ◌∙◌, Bool-cases, inl, inr, Bool, true, false, not, ◌&&◌,
  ◌++◌, arith, Option, none, some, List, [], ◌∷◌, length, leb, ltb, take, replicate, length-take,
  length-append, length-replicate, if◌then◌else◌, if_rule, ◌||◌,
}
use crazyradio2_firmware.Platform.{◌▹◌, mutex_lock, mutex_unlock, radio_busy}
use crazyradio2_firmware.Platform.Trace.{writes, LockState, by_usb, by_both, lock_state}
use crazyradio2_firmware.Esb.State.{Esb, EsbPacket, SnifferPacket, Address, ◌▹▹◌}
use crazyradio2_firmware.Esb.Isr.{Irq, sniffed, radio_isr, interrupts}
use crazyradio2_firmware.Esb.Send.{
  Attempt, Air, LoopEnd, stuck, done, out_of_fuel, start_attempt, transmit, clean_up, reset_stuck,
  ack_after, landed, send_loop, Sent, finish_send, s1_field, esb_send_packet, refuses,
  simulated_loss,
}
use crazyradio2_firmware.Esb.Send.Buffers.{AtMost, AtMost-mono}
use crazyradio2_firmware.Esb.Sniffer.{
  SnifferAir, stop_rx, start_tx, await_tx, restart_rx, esb_sniffer_start, esb_sniffer_send,
  esb_sniffer_stop,
}

-- A packet of at most 63 bytes has as many bytes as it counts.
abbrev pub fits : SnifferPacket → Bool
fits p = leb p.length (length p.bytes) && leb p.length 63

abbrev pub all_fit : List SnifferPacket → Bool
all_fit [] = true
all_fit (p ∷ ps) = fits p && all_fit ps

-- From `s` to `s'`, with the mutexes going from `l` to `l'`.
pub record Unnoticed (l l' : LockState) (s s' : Esb) : Type 0 where
  pub writes_same : writes s'.calls ≡ writes s.calls
  pub fit_kept : all_fit s.delivered ≡ true → all_fit s'.delivered ≡ true
  pub locks_move : lock_state s.calls ≡ l → lock_state s'.calls ≡ l'

pub Unnoticed-refl : {l : LockState} (s : Esb) → Unnoticed l l s s
Unnoticed-refl s = record { writes_same = refl; fit_kept = λ h. h; locks_move = λ h. h }

pub Unnoticed-trans :
    {l l' l'' : LockState} (s t u : Esb)
    → Unnoticed l l' s t
    → Unnoticed l' l'' t u
    → Unnoticed l l'' s u
Unnoticed-trans s t u h k = record {
  writes_same = k.writes_same ∙ h.writes_same;
  fit_kept = λ e. k.fit_kept (h.fit_kept e);
  locks_move = λ e. k.locks_move (h.locks_move e);
}

pub sniffed-fits : (q : Irq) → fits (sniffed q) ≡ true
unfolding sniffed
sniffed-fits q =
    let n = (sniffed q).length in
    let bytes = q.received.bytes ++ replicate n 0 in
    ground (
      arith,
      length-take n bytes,
      length-append q.received.bytes (replicate n 0),
      length-replicate {A = ℕ} n 0,
    )

pub radio_isr-Unnoticed : {l : LockState} (q : Irq) (s : Esb) → Unnoticed l l s (radio_isr q s)
unfolding radio_isr
radio_isr-Unnoticed q s = ground (arith, sniffed-fits q)

pub interrupts-Unnoticed :
    {l : LockState} (qs : List Irq) (s : Esb) → Unnoticed l l s (interrupts qs s)
unfolding interrupts
interrupts-Unnoticed [] s = Unnoticed-refl s
interrupts-Unnoticed (q ∷ qs) s =
    Unnoticed-trans s (radio_isr q s) _ (radio_isr-Unnoticed q s)
      (interrupts-Unnoticed qs (radio_isr q s))

start_attempt-Unnoticed : {l : LockState} (s : Esb) → Unnoticed l l s (start_attempt s)
unfolding start_attempt
start_attempt-Unnoticed s = ground arith

transmit-Unnoticed : {l : LockState} (a : Attempt) (s : Esb) → Unnoticed l l s (transmit a s)
unfolding transmit
transmit-Unnoticed a s =
    let sent =
      Unnoticed-trans s (start_attempt s) _ (start_attempt-Unnoticed s)
        (interrupts-Unnoticed a.irqs (start_attempt s)) in
    record {
      writes_same = sent.writes_same;
      fit_kept = sent.fit_kept;
      locks_move = sent.locks_move;
    }

clean_up-Unnoticed : {l : LockState} (s : Esb) → Unnoticed l l s (clean_up s)
unfolding clean_up
clean_up-Unnoticed s = ground arith

reset_stuck-Unnoticed : (s : Esb) → Unnoticed by_both by_usb s (reset_stuck s)
unfolding reset_stuck
reset_stuck-Unnoticed s = ground arith

-- The loop ends with both mutexes held, or has given one back.
abbrev EndsUnnoticed : Esb → LoopEnd → Type 0
EndsUnnoticed s (stuck s' ack) = Unnoticed by_both by_usb s s'
EndsUnnoticed s (done s' ack ok arc_counter) = Unnoticed by_both by_both s s'
EndsUnnoticed s out_of_fuel = Unit

EndsUnnoticed-after :
    (s t : Esb) (e : LoopEnd)
    → Unnoticed by_both by_both s t
    → EndsUnnoticed t e
    → EndsUnnoticed s e
EndsUnnoticed-after s t (stuck s' ack) h k = Unnoticed-trans s t s' h k
EndsUnnoticed-after s t (done s' ack ok n) h k = Unnoticed-trans s t s' h k
EndsUnnoticed-after s t out_of_fuel h k = tt

send_loop-EndsUnnoticed :
    (air : Air) (fuel n : ℕ) (s : Esb) (ack : EsbPacket)
    → EndsUnnoticed s (send_loop air fuel n s ack)
unfolding send_loop
send_loop-EndsUnnoticed air zero n s ack = tt
send_loop-EndsUnnoticed air (suc fuel) n s ack =
    let a = air.attempt n in
    let s' = transmit a s in
    let ack' = ack_after (landed a s'.calls) ack in
    let received = not s'.timeout && a.crc_ok && s'.ack_enabled in
    let sent : Unnoticed by_both by_both s s' = transmit-Unnoticed a s in
    let cleaned : Unnoticed by_both by_both s (clean_up s') =
      Unnoticed-trans s s' _ sent (clean_up-Unnoticed s') in
    let again =
      EndsUnnoticed-after s (clean_up s') _ cleaned
        (send_loop-EndsUnnoticed air fuel (n + 1) (clean_up s') ack') in
    if_rule (EndsUnnoticed s) (not a.taken) _ _
      (λ _. Unnoticed-trans s s' _ sent (reset_stuck-Unnoticed s'))
      (λ _.
        if_rule (EndsUnnoticed s) (received || not s'.ack_enabled) _ _ (λ _. cleaned)
          (λ _. if_rule (EndsUnnoticed s) (leb (n + 1) s'.arc) _ _ (λ _. again) (λ _. cleaned)))

finish_send-Unnoticed :
    (air : Air) (packet : EsbPacket) (rssi retry : ℕ) (s : Esb) (e : LoopEnd)
    → EndsUnnoticed s e
    → AtMost (λ r. Unnoticed by_both by_usb s r.esb) (finish_send air packet rssi retry e)
unfolding finish_send
finish_send-Unnoticed air packet rssi retry s (stuck s' ack) h = h
finish_send-Unnoticed air packet rssi retry s (done s' ack ok k) h = ground (arith, h)
finish_send-Unnoticed air packet rssi retry s out_of_fuel h = tt

-- Under the mutex of the USB side, every operation of the radio takes its own and gives it back.
pub esb_send_packet-Unnoticed :
    (air : Air) (fuel : ℕ) (packet ack : EsbPacket) (rssi retry : ℕ) (s : Esb)
    → AtMost
        (λ r. Unnoticed by_usb by_usb s r.esb)
        (esb_send_packet air fuel packet ack rssi retry s)
unfolding esb_send_packet
esb_send_packet-Unnoticed air fuel packet ack rssi retry s =
    let entered = record s { pid = u8 (s.pid + 1); calls = s.calls ▹ mutex_lock radio_busy } in
    let enters : Unnoticed by_usb by_both s entered = ground arith in
    let ends =
      finish_send-Unnoticed air (record packet { s1 = s1_field s.pid 1 }) rssi retry entered _
        (send_loop-EndsUnnoticed air fuel 0 entered ack) in
    let Sends : Option Sent → Type 0 = AtMost (λ r. Unnoticed by_usb by_usb s r.esb) in
    if_rule Sends (refuses s) _ _ (λ _. Unnoticed-refl s)
      (λ _.
        if_rule Sends (simulated_loss air s) _ _ (λ _. ground arith)
          (λ _.
            AtMost-mono (λ r. Unnoticed by_both by_usb entered r.esb) _ _
              (λ r h. Unnoticed-trans s entered r.esb enters h) ends))
