-- ===== src/Usb/Data/Replies.antt =====
-- What the host reads back from the IN endpoint.
use crazyradio2_firmware.Base.{
  ℕ, ◌+◌, ◌*◌, ◌/◌, ◌%◌, ◌^◌, ◌≤◌, ◌<◌, ◌≡◌, min, bit, bit_and, bit_or, Bool, true, false, some,
  List, [], ◌∷◌, length, arith, take, ltb, if◌then◌else◌, refl, ◌∙◌,
}
use crazyradio2_firmware.Base.Bits.{bit_and_low, bit_or_sum}
use crazyradio2_firmware.Platform.Trace.{last_write}
use crazyradio2_firmware.Led.{led_pulse_green, led_pulse_red}
use crazyradio2_firmware.Usb.State.{Usb, Gives, Gives-mono}
use crazyradio2_firmware.Usb.Data.{status_byte, answer_plain, answer_sent}

pub bit_bound : (b : Bool) → bit b < 2
bit_bound true = omega arith
bit_bound false = omega arith

-- The three fields do not overlap.
status_byte_sum :
    (acked : Bool) (arc_counter rssi : ℕ)
    → status_byte acked arc_counter rssi ≡ arc_counter % 16 * 16 + bit (ltb rssi 64) * 2 + bit acked
unfolding status_byte
status_byte_sum acked arc_counter rssi =
    let a = bit acked in
    let w = bit (ltb rssi 64) in
    let q = arc_counter % 16 in
    let a_small : a < 2 = bit_bound acked in
    let w_small : w < 2 = bit_bound (ltb rssi 64) in
    let masked : bit_and arc_counter 0x0f ≡ q = bit_and_low 4 arc_counter in
    let upper : bit_or (q * 2 ^ 4) (w * 2 ^ 1) ≡ (q * 8 + w) * 2 ^ 1 =
      bit_or_sum 4 q (w * 2 ^ 1) (omega (arith, w_small)) ∙ omega arith in
    let whole = bit_or_sum 1 (q * 8 + w) a (omega (arith, a_small)) in
    rw (masked, upper, whole) (omega (arith, a_small, w_small))

read-status_byte :
    (acked : Bool) (arc_counter rssi : ℕ)
    → let h = status_byte acked arc_counter rssi in
      (h % 2 ≡ bit acked) × (h / 2 % 2 ≡ bit (ltb rssi 64)) × (h / 16 ≡ arc_counter % 16)
read-status_byte acked arc_counter rssi =
    let sum = status_byte_sum acked arc_counter rssi in
    let a = bit_bound acked in
    let w = bit_bound (ltb rssi 64) in
    (omega (arith, sum, a, w), omega (arith, sum, a, w), omega (arith, sum, a, w))

-- A thread out of the inline mode, with the settings that it sends with.
pub record IsPlain (u : Usb) : Type 0 where
  pub no_inline : u.inline_mode ≡ false
  pub acks : u.ack_enabled ≡ true
  pub ack_room : length u.ack.bytes ≡ 63

answer_sent-writes :
    (acked : Bool) (u : Usb)
    → IsPlain u
    → Gives
        (λ u'.
          last_write u'.radio.calls
          ≡ some (
              if acked
              then status_byte true u.arc_counter u.rssi ∷ take (min 32 u.ack.length) u.ack.bytes
              else 0 ∷ []))
        (answer_sent acked u)
unfolding answer_sent answer_plain led_pulse_green led_pulse_red
answer_sent-writes acked u p =
    let uncapped : u.ack.length ≤ 32 → min 32 u.ack.length ≡ u.ack.length = λ h. omega arith in
    let capped : 32 < u.ack.length → min 32 u.ack.length ≡ 32 = λ h. omega arith in
    ground (arith, p, uncapped, capped)

-- What the host reads in a status byte: the ack in bit 0, whether the signal was above -64 dBm in
-- bit 1, and the retries in the upper four bits.
abbrev pub StatusReads : (h rssi arc_counter : ℕ) → Type 0
StatusReads h rssi arc_counter =
    (h % 2 ≡ 1) × (h / 2 % 2 ≡ bit (ltb rssi 64)) × (h / 16 ≡ arc_counter % 16)

-- What the host reads out of the inline mode: a status byte and the first 32 bytes of the ack, or a
-- single zero.
abbrev pub PlainReply : Bool → Usb → List ℕ → Type 0
PlainReply true u bytes =
    (h : ℕ) × (bytes ≡ h ∷ take (min 32 u.ack.length) u.ack.bytes)
    × StatusReads h u.rssi u.arc_counter
PlainReply false u bytes = bytes ≡ 0 ∷ []

-- Out of the inline mode, with acks enabled, the host reads after an acked packet a status byte,
-- with the ack in bit 0, whether the signal was above -64 dBm in bit 1 and the number of retries in
-- the upper four bits, and then the first 32 bytes of the ack; otherwise it reads a single zero.
pub answer_sent-PlainReply :
    (acked : Bool) (u : Usb)
    → IsPlain u
    → Gives
        (λ u'.
          (bytes : List ℕ) × (last_write u'.radio.calls ≡ some bytes) × PlainReply acked u bytes)
        (answer_sent acked u)
answer_sent-PlainReply true u p =
    Gives-mono _ _ (answer_sent true u)
      (λ u' w. (
        _,
        w,
        (status_byte true u.arc_counter u.rssi, refl, read-status_byte true u.arc_counter u.rssi),
      ))
      (answer_sent-writes true u p)
answer_sent-PlainReply false u p =
    Gives-mono _ _ (answer_sent false u) (λ u' w. (_, w, refl)) (answer_sent-writes false u p)
