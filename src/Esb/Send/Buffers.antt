-- ===== src/Esb/Send/Buffers.antt =====
-- The two packet buffers of a call: the sent one keeps its bytes, the ack is one that was received.
use crazyradio2_firmware.Base.{
  ℕ, zero, suc, ◌+◌, u8, Bool-cases, ◌≡◌, refl, inl, inr, Option, none, some, arith, if_rule,
}
use crazyradio2_firmware.Platform.{Calls, ◌▹◌, mutex_lock, radio_busy}
use crazyradio2_firmware.Platform.Trace.{last_packetptr}
use crazyradio2_firmware.Esb.State.{Esb, EsbPacket}
use crazyradio2_firmware.Esb.Send.{
  Air, LoopEnd, stuck, done, out_of_fuel, transmit, clean_up, ack_after, landed, is_ack_buffer,
  Attempt, send_loop, Sent, finish_send, s1_field, esb_send_packet, refuses, simulated_loss,
}

-- What the radio receives satisfies `P`.
abbrev pub Receives : (EsbPacket → Type 0) → Air → Type 0
Receives P air = (k : ℕ) (p : EsbPacket) → (air.attempt k).received ≡ some p → P p

-- `P` does not depend on the length byte, which the call clears.
abbrev pub IgnoresLength : (EsbPacket → Type 0) → Type 0
IgnoresLength P = (p : EsbPacket) → P p → P (record p { length = 0 })

abbrev AckEnds : (EsbPacket → Type 0) → LoopEnd → Type 0
AckEnds P (stuck s ack) = P ack
AckEnds P (done s ack ok arc_counter) = P ack
AckEnds P out_of_fuel = Unit

-- What is in the ack buffer was received.
landed-holds :
    (P : EsbPacket → Type 0) (a : Attempt) (t : Calls)
    → ((p : EsbPacket) → a.received ≡ some p → P p)
    → (p : EsbPacket) → landed a t ≡ some p
    → P p
unfolding landed
landed-holds P a t got =
    let Q : Option EsbPacket → Type 0 = λ o. (p : EsbPacket) → o ≡ some p → P p in
    if_rule Q (is_ack_buffer (last_packetptr t)) a.received none (λ _. got)
      (λ _ p e. absurd (ground arith))

module _ (P : EsbPacket → Type 0) (clears : IgnoresLength P) where
  ack_after-holds :
      (received : Option EsbPacket) (ack : EsbPacket)
      → ((p : EsbPacket) → received ≡ some p → P p)
      → P ack
      → P (ack_after received ack)
  ack_after-holds none ack got h = clears ack h
  ack_after-holds (some p) ack got h = got p refl

  send_loop-AckEnds :
      (air : Air) (fuel n : ℕ) (s : Esb) (ack : EsbPacket)
      → Receives P air
      → P ack
      → AckEnds P (send_loop air fuel n s ack)
  unfolding send_loop
  send_loop-AckEnds air zero n s ack got h = tt
  send_loop-AckEnds air (suc fuel) n s ack got h =
      let a = air.attempt n in
      let t = (transmit a s).calls in
      let ack' = ack_after-holds (landed a t) ack (landed-holds P a t (got n)) h in
      let again = send_loop-AckEnds air fuel (n + 1) (clean_up (transmit a s)) _ got ack' in
      ground (arith, ack', again)

-- What the call leaves in the two buffers.
pub record Buffers (P : EsbPacket → Type 0) (packet : EsbPacket) (r : Sent) : Type 0 where
  pub ack_kept : P r.ack
  pub bytes_same : r.packet.bytes ≡ packet.bytes
  pub length_same : r.packet.length ≡ packet.length

-- If there is a result, it satisfies `P`.
abbrev pub AtMost : (Sent → Type 0) → Option Sent → Type 0
AtMost P none = Unit
AtMost P (some r) = P r

pub AtMost-mono :
    (P Q : Sent → Type 0) (o : Option Sent) → ((r : Sent) → P r → Q r) → AtMost P o → AtMost Q o
AtMost-mono P Q none f h = tt
AtMost-mono P Q (some r) f h = f r h

finish_send-Buffers :
    (P : EsbPacket → Type 0) (air : Air) (packet numbered : EsbPacket) (rssi retry : ℕ)
    (e : LoopEnd)
    → numbered.bytes ≡ packet.bytes
    → numbered.length ≡ packet.length
    → AckEnds P e
    → AtMost (Buffers P packet) (finish_send air numbered rssi retry e)
unfolding finish_send
finish_send-Buffers P air packet numbered rssi retry (stuck s ack) b l h = ground (arith, h)
finish_send-Buffers P air packet numbered rssi retry (done s ack ok k) b l h = ground (arith, h)
finish_send-Buffers P air packet numbered rssi retry out_of_fuel b l h = tt

pub esb_send_packet-Buffers :
    (P : EsbPacket → Type 0) (air : Air) (fuel : ℕ) (packet ack : EsbPacket) (rssi retry : ℕ)
    (s : Esb)
    → IgnoresLength P
    → Receives P air
    → P ack
    → AtMost (Buffers P packet) (esb_send_packet air fuel packet ack rssi retry s)
unfolding esb_send_packet
esb_send_packet-Buffers P air fuel packet ack rssi retry s clears got h =
    let entered = record s { pid = u8 (s.pid + 1); calls = s.calls ▹ mutex_lock radio_busy } in
    let numbered = record packet { s1 = s1_field s.pid 1 } in
    let ends = send_loop-AckEnds P clears air fuel 0 entered ack got h in
    elim (Bool-cases (refuses s)) [
      | inl refused ↦ rw refused (ground arith)
      | inr allowed ↦ elim (Bool-cases (simulated_loss air s)) [
        | inl lost ↦ rw (allowed, lost) (ground arith)
        | inr kept ↦
            rw (allowed, kept)
              (finish_send-Buffers P air packet numbered rssi retry _ refl refl ends)
      ]
    ]
