-- ===== src/Usb/Data/Answers.antt =====
-- How many answers a data command gets, and how long they are.
use crazyradio2_firmware.Base.{
  ℕ, ◌+◌, ap, length-blit, ◌≤◌, ◌<◌, ◌≡◌, refl, ◌∙◌, u8, Bool, true, false, not, ◌&&◌, ◌||◌, arith,
  List, [], ◌∷◌, length, length-take, take, leb, ltb, ◌==◌, if◌then◌else◌, if_rule, get_or, blit,
}
use crazyradio2_firmware.Platform.Trace.{writes}
use crazyradio2_firmware.Led.{led_pulse_green, led_pulse_red}
use crazyradio2_firmware.Esb.Send.{Air}
use crazyradio2_firmware.Esb.Send.Buffers.{Receives}
use crazyradio2_firmware.Usb.State.Partial.{
  Allows, Allows-bind, Allows-mono, Gives-and, memcpy-length,
}
use crazyradio2_firmware.Usb.State.{Usb, DataCommand, Outcome, Gives, Gives-mono, ◌▹▹▹◌}
use crazyradio2_firmware.Usb.Data.{
  thread_send, prepare, sent_flags, inline_flags, status_byte, answer_inline, answer_plain, cap_ack,
  answer_by_mode, answer_sent, answer_invalid, handle_data,
}
use crazyradio2_firmware.Usb.Invariant.{UsbInv, HasRoom, IsCommand}
use crazyradio2_firmware.Usb.Invariant.Data.{stays_inside, handle_data-UsbInv}
use crazyradio2_firmware.Usb.Data.Settings.{
  Same, Same-refl, thread_send-Same, prepare-Same, with_header, with_header-writes,
}

-- Is it a broadcast that the host gets no answer to?
abbrev pub is_unanswered : Usb → Bool
is_unanswered u =
    not u.inline_mode && (not u.ack_enabled && (not (u.datarate == 0) && leb u.channel 100))

-- One answer of 1 to 35 bytes has been written, or none.
record Written (silent : Bool) (u u' : Usb) : Type 0 where
  answer : List ℕ
  some_bytes : 0 < length answer
  few_bytes : length answer ≤ 35
  all_written :
      writes u'.radio.calls
      ≡ (if silent then writes u.radio.calls else answer ∷ writes u.radio.calls)

answer_inline-Written :
    (size : ℕ) (header : List ℕ) (acked : Bool) (u : Usb)
    → length header + 1 ≡ size
    → 2 ≤ size
    → size ≤ 3
    → u.ack.length ≤ 32
    → length u.usb_answer ≡ 128
    → Allows (Written false u) (answer_inline size header acked u)
unfolding answer_inline
answer_inline-Written size header acked u counts large small capped room =
    let n = u.ack.length in
    let front = u8 (n + size) ∷ header in
    let headed = blit 0 front u.usb_answer in
    let headed_room = length-blit 0 front u.usb_answer (omega arith) in
    Allows-bind (λ a. length a ≡ 128) _ _ _
      (if_rule (Allows (λ a. length a ≡ 128)) (acked && ltb 0 n) _ _
        (λ _. memcpy-length headed size u.ack.bytes n (headed_room ∙ room))
        (λ _. headed_room ∙ room))
      (λ a e. record {
        answer = take (u8 (n + size)) a;
        some_bytes = omega (arith, length-take (u8 (n + size)) a);
        few_bytes = omega (arith, length-take (u8 (n + size)) a);
        all_written = refl;
      })

answer_plain-Written :
    (acked : Bool) (u : Usb) → Allows (Written (not u.ack_enabled) u) (answer_plain acked u)
unfolding answer_plain led_pulse_green
answer_plain-Written acked u =
    if_rule (Allows (Written (not u.ack_enabled) u)) (not u.ack_enabled) _ _
      (λ silent. record {
        answer = 0 ∷ [];
        some_bytes = omega arith;
        few_bytes = omega arith;
        all_written = rw silent refl;
      })
      (λ speaks.
        if_rule (Allows (Written (not u.ack_enabled) u)) (acked && leb u.ack.length 32) _ _
          (λ fits.
            let short : u.ack.length ≤ 32 = ground arith in
            record {
              answer = status_byte true u.arc_counter u.rssi ∷ take u.ack.length u.ack.bytes;
              some_bytes = omega arith;
              few_bytes = omega (arith, length-take u.ack.length u.ack.bytes);
              all_written = rw speaks refl;
            })
          (λ _. record {
            answer = 0 ∷ [];
            some_bytes = omega arith;
            few_bytes = omega arith;
            all_written = rw speaks refl;
          }))

-- Whether nothing is written after a send.
abbrev no_answer : Usb → Bool
no_answer u = not u.inline_mode && not u.ack_enabled

answer_by_mode-Written :
    (acked : Bool) (u : Usb)
    → u.ack.length ≤ 32
    → length u.usb_answer ≡ 128
    → Allows (Written (no_answer u) u) (answer_by_mode acked u)
unfolding answer_by_mode
answer_by_mode-Written acked u capped room =
    let P : Outcome Usb → Type 0 = Allows (Written (no_answer u) u) in
    let spoken : u.inline_mode ≡ true → (o : Outcome Usb) → Allows (Written false u) o → P o =
      λ h o w. (let e : no_answer u ≡ false = ground arith in rw e w) in
    if_rule P (u.inline_mode && not u.inline_rssi_mode) _ _
      (λ h. spoken (ground arith) _ (
        answer_inline-Written 2 (sent_flags acked u ∷ []) acked u refl (omega arith) (omega arith)
          capped room))
      (λ h.
        if_rule P (u.inline_mode && u.inline_rssi_mode) _ _
          (λ h'. spoken (ground arith) _ (
            answer_inline-Written 3 (sent_flags acked u ∷ u.rssi ∷ []) acked u refl (omega arith)
              (omega arith) capped room))
          (λ h'.
            let plain : no_answer u ≡ not u.ack_enabled = ground arith in
            rw plain (answer_plain-Written acked u)))

answer_sent-Written :
    (acked : Bool) (u : Usb)
    → length u.usb_answer ≡ 128
    → Allows (Written (no_answer u) u) (answer_sent acked u)
unfolding answer_sent cap_ack led_pulse_green led_pulse_red
answer_sent-Written acked u room =
    let v =
      cap_ack
        (if acked || not u.ack_enabled then u ▹▹▹ led_pulse_green 50 else u ▹▹▹ led_pulse_red 50) in
    let small : v.ack.length ≤ 32 = ground arith in
    let v_room : length v.usb_answer ≡ 128 = ground arith in
    let same : (no_answer v ≡ no_answer u) × (writes v.radio.calls ≡ writes u.radio.calls) =
      ground arith in
    Allows-mono (Written (no_answer v) v) _ _
      (λ u' w. record {
        answer = w.answer;
        some_bytes = w.some_bytes;
        few_bytes = w.few_bytes;
        all_written = rw (← same.0, ← same.1) w.all_written;
      })
      (answer_by_mode-Written acked v small v_room)

answer_invalid-Written : (u : Usb) → Written false u (answer_invalid u)
unfolding answer_invalid led_pulse_red
answer_invalid-Written u = record {
  answer =
      if u.inline_mode && not u.inline_rssi_mode
      then 2 ∷ inline_flags false false true 0 ∷ []
      else if u.inline_mode && u.inline_rssi_mode
      then 3 ∷ inline_flags false false true 0 ∷ 0 ∷ []
      else 0 ∷ [];
  some_bytes = ground arith;
  few_bytes = ground arith;
  all_written = refl;
}

-- A data command gets one answer of 1 to 35 bytes, which fits a packet of the endpoint, or none if
-- it is a plain broadcast.
pub record IsAnswered (prefix0 : ℕ) (c : DataCommand) (u u' : Usb) : Type 0 where
  pub answer : List ℕ
  pub some_bytes : 0 < length answer
  pub few_bytes : length answer ≤ 35
  pub all_written : writes u'.radio.calls ≡ (
      if is_unanswered (with_header prefix0 c u)
      then writes u.radio.calls
      else answer ∷ writes u.radio.calls)

Written-IsAnswered :
    (prefix0 : ℕ) (c : DataCommand) (u prepared v u' : Usb) (silent : Bool)
    → Same (with_header prefix0 c u) prepared
    → Same prepared v
    → is_unanswered prepared ≡ silent
    → Written silent v u'
    → IsAnswered prefix0 c u u'
Written-IsAnswered prefix0 c u prepared v u' silent d e q w =
    let before = with_header-writes prefix0 c u in
    let same : is_unanswered (with_header prefix0 c u) ≡ silent = ground (arith, d, q) in
    let old : writes v.radio.calls ≡ writes u.radio.calls =
      e.writes_same ∙ d.writes_same ∙ before.0 in
    record {
      answer = w.answer;
      some_bytes = w.some_bytes;
      few_bytes = w.few_bytes;
      all_written = rw (same, ← old) w.all_written;
    }

handle_data-writes :
    (first air : Air) (prefix0 : ℕ) (c : DataCommand) (u : Usb)
    → length u.usb_answer ≡ 128
    → Allows (IsAnswered prefix0 c u) (handle_data first air prefix0 c u)
unfolding handle_data
handle_data-writes first air prefix0 c u room =
    let P : Outcome Usb → Type 0 = Allows (IsAnswered prefix0 c u) in
    Allows-bind (Same (with_header prefix0 c u)) _ (prepare first prefix0 c u) _
      (prepare-Same first prefix0 c u)
      (λ prepared d.
        if_rule P (not (prepared.datarate == 0) && leb prepared.channel 100) _ _
          (λ valid.
            Allows-bind (λ r. Same prepared r.0) _ (thread_send air prepared) _
              (thread_send-Same air prepared)
              (λ sent e.
                let answer_room : length sent.0.usb_answer ≡ 128 =
                  ap length (e.answer_same ∙ d.answer_same ∙ (with_header-writes prefix0 c u).1)
                  ∙ room in
                Allows-mono (Written (no_answer sent.0) sent.0) _ _
                  (λ u' w.
                    Written-IsAnswered prefix0 c u prepared sent.0 u' (no_answer sent.0) d e
                      (ground (arith, e, valid)) w)
                  (answer_sent-Written sent.1 sent.0 answer_room)))
          (λ invalid.
            Written-IsAnswered prefix0 c u prepared prepared _ false d (Same-refl prepared)
              (ground (arith, invalid)) (answer_invalid-Written prepared)))

-- A data command that stays inside the arrays is handled to its end and gets exactly one answer, of
-- 1 to 35 bytes; only a broadcast that is sent out of the inline mode, with acks disabled and with
-- settings that the radio has, gets none. In the inline mode the settings are those of the
-- command's own header, and a command is answered also with acks disabled. The thread's state is
-- sound, the radio fills whole buffers, and the first byte of the command is a byte.
pub handle_data-IsAnswered :
    (first air : Air) (prefix0 : ℕ) (c : DataCommand) (u : Usb)
    → IsCommand c
    → UsbInv u
    → Receives HasRoom first
    → Receives HasRoom air
    → get_or c.payload 0 0 < 256
    → stays_inside c u ≡ true
    → Gives (IsAnswered prefix0 c u) (handle_data first air prefix0 c u)
handle_data-IsAnswered first air prefix0 c u command v got got' byte safe =
    Gives-mono (λ u'. UsbInv u' × IsAnswered prefix0 c u u') _ _ (λ u' w. w.1)
      (Gives-and UsbInv (IsAnswered prefix0 c u) _
        (handle_data-UsbInv first air prefix0 c u command v got got' byte safe)
        (handle_data-writes first air prefix0 c u v.answer_room))
