-- ===== src/Usb/Scan/Probe.antt =====
-- One send of a scan: whether a channel answers.
use crazyradio2_firmware.Base.{
  ℕ, zero, suc, ◌+◌, ◌≤◌, ◌<◌, Returns, Returns-mono, ◌≡◌, refl, sym, ◌∙◌, ◌⊎◌, inl, inr, Bool,
  true, false, ◌||◌, some, arith, Bool-cases,
}
use crazyradio2_firmware.Platform.Trace.{held, guarded}
use crazyradio2_firmware.Esb.State.{Esb, EsbPacket}
use crazyradio2_firmware.Esb.Send.{Air, refuses, esb_send_packet}
use crazyradio2_firmware.Esb.Send.Bounds.{esb_send_packet-SentWell}
use crazyradio2_firmware.Esb.Send.Exchange.{Exchange, answered, with_exchanges, IsReady}
use crazyradio2_firmware.Esb.Send.Answers as Sends
use crazyradio2_firmware.Esb.Send.Answers.{esb_send_packet-first_answer, esb_send_packet-no_answer}
use crazyradio2_firmware.Usb.State.{Usb, Gives}
use crazyradio2_firmware.Usb.Scan.{scan_send}

-- Is one of the first `n` transmissions answered?
abbrev pub any_answered : ℕ → (ℕ → Exchange) → Bool
any_answered zero x = false
any_answered (suc n) x = any_answered n x || answered (x n)

-- An ack of which the radio says that its CRC is right is in the buffer.
abbrev pub HasPackets : (ℕ → Exchange) → Type 0
HasPackets x = (k : ℕ) → answered (x k) ≡ true → (p : EsbPacket) × ((x k).received ≡ some p)

below_or_at : (j n : ℕ) → j < suc n → (j < n) ⊎ (j ≡ n)
below_or_at j n h = omega arith

-- There is a first one, or there is none.
any_answered-cases :
    (n : ℕ) (x : ℕ → Exchange)
    → ((any_answered n x ≡ true)
        × ((k : ℕ) × (k < n)
            × (answered (x k) ≡ true)
            × ((j : ℕ) → j < k → answered (x j) ≡ false)))
      ⊎ ((any_answered n x ≡ false) × ((j : ℕ) → j < n → answered (x j) ≡ false))
any_answered-cases zero x = inr (refl, λ j h. absurd (omega arith))
any_answered-cases (suc n) x = elim (any_answered-cases n x) [
  | inl (found, (k, lt, hit, miss)) ↦ inl (rw found refl, (k, omega arith, hit, miss))
  | inr (none_yet, miss) ↦ elim (Bool-cases (answered (x n))) [
    | inl hit ↦ inl (rw (none_yet, hit) refl, (n, omega arith, hit, miss))
    | inr silent ↦ inr (
      rw (none_yet, silent) refl,
      λ j h. elim (below_or_at j n h) [ inl lt ↦ miss j lt | inr e ↦ rw e silent ],
    )
  ]
]

-- A radio that sends and waits for acks, with no simulated losses.
pub record IsListening (s : Esb) : Type 0 where
  pub allowed : refuses s ≡ false
  pub acks : s.ack_enabled ≡ true
  pub no_loss : s.packet_loss_percent ≡ 0
  pub no_ack_loss : s.ack_loss_percent ≡ 0
  pub small : s.arc ≤ 15
  pub released : held s.calls ≡ false
  pub is_guarded : guarded s.calls ≡ true

-- One send of the scan answers whether one of the transmissions is answered.
esb_send_packet-any :
    (air : Air) (x : ℕ → Exchange) (packet ack : EsbPacket) (s : Esb)
    → IsListening s
    → HasPackets x
    → Returns
        (λ r. r.result ≡ any_answered (s.arc + 1) x)
        (esb_send_packet (with_exchanges air x) (s.arc + 1) packet ack 0 0 s)
esb_send_packet-any air x packet ack s l has =
    let ready : IsReady (with_exchanges air x) s = ground (arith, l) in
    elim (any_answered-cases (s.arc + 1) x) [
      | inl (found, (k, lt, hit, miss)) ↦
          let (p, got) = has k hit in
          Returns-mono (Sends.Outcome air s (k + 1) true (λ ack'. ack' ≡ p)) _ _
            (λ r o. o.result ∙ sym found)
            (esb_send_packet-first_answer air x (s.arc + 1) packet ack 0 0 s ready (omega arith)
              l.acks k p (omega arith) miss hit got)
      | inr (none_found, miss) ↦
          Returns-mono (Sends.Outcome air s (s.arc + 1) false (λ _. Unit)) _ _
            (λ r o. o.result ∙ sym none_found)
            (esb_send_packet-no_answer air x (s.arc + 1) packet ack 0 0 s ready (omega arith) l.acks
              (λ j h. miss j (omega arith)))
    ]

-- A send of the scan from `u`, with the answer `b`.
pub record Probed (u : Usb) (b : Bool) (r : Usb × Bool) : Type 0 where
  pub result : r.1 ≡ b
  pub listening : IsListening r.0.radio
  pub arc_same : r.0.radio.arc ≡ u.radio.arc
  pub results_same : r.0.scan_result ≡ u.scan_result
  pub count_same : r.0.scan_result_length ≡ u.scan_result_length

pub scan_send-Probed :
    (air : Air) (x : ℕ → Exchange) (u : Usb)
    → IsListening u.radio
    → HasPackets x
    → Gives (Probed u (any_answered (u.radio.arc + 1) x)) (scan_send (with_exchanges air x) u)
unfolding scan_send
scan_send-Probed air x u l has =
    let well =
      esb_send_packet-SentWell (with_exchanges air x) (u.radio.arc + 1) u.scan_packet u.scan_ack 0 0
        u.radio (omega (arith, l.small)) (omega arith) l.released l.is_guarded in
    let answer = esb_send_packet-any air x u.scan_packet u.scan_ack u.radio l has in
    ground (arith, well, answer, l)
