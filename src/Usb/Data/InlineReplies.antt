-- ===== src/Usb/Data/InlineReplies.antt =====
-- What the host reads back in the inline mode.
use crazyradio2_firmware.Base.{
  ℕ, ◌+◌, ◌/◌, ◌%◌, ◌≤◌, ◌<◌, ◌≡◌, u8, min, bit, Bool, true, false, not, ◌&&◌, ◌||◌, Bool-cases,
  inl, inr, some, List, [], ◌∷◌, ◌++◌, append-nil, length, arith, take, drop, blit, take-blit,
  length-blit, length-take, ltb, ◌==◌, get_or, if◌then◌else◌, if_rule, refl, ap, ◌∙◌, sym,
}
use crazyradio2_firmware.Platform.Trace.{last_write}
use crazyradio2_firmware.Led.{led_pulse_green}
use crazyradio2_firmware.Usb.State.{Usb, memcpy-fits, Gives, Gives-mono, ◌▹▹▹◌}
use crazyradio2_firmware.Usb.Data.{
  inline_flags, sent_flags, answer_inline, answer_sent, cap_ack, answer_by_mode,
}
use crazyradio2_firmware.Usb.Data.Replies.{bit_bound}

-- The flags of an inline answer.
inline_flags-reads :
    (acked rssi_lt_64dbm invalid : Bool) (arc_counter : ℕ)
    → let h = inline_flags acked rssi_lt_64dbm invalid arc_counter in
      (h % 2 ≡ bit acked)
      × (h / 2 % 2 ≡ bit rssi_lt_64dbm)
      × (h / 4 % 2 ≡ bit invalid)
      × (h / 16 ≡ arc_counter % 16)
unfolding inline_flags
inline_flags-reads acked rssi_lt_64dbm invalid arc_counter =
    let a = bit_bound acked in
    let w = bit_bound rssi_lt_64dbm in
    let i = bit_bound invalid in
    (omega (arith, a, w, i), omega (arith, a, w, i), omega (arith, a, w, i), omega (arith, a, w, i))

-- An inline answer to an acked send: a header of `size` bytes, whose first is the length of the
-- whole, then the ack.
answer_inline-writes :
    (size : ℕ) (header : List ℕ) (u : Usb)
    → length header + 1 ≡ size
    → size < 4
    → u.ack.length ≤ 32
    → length u.ack.bytes ≡ 63
    → length u.usb_answer ≡ 128
    → Gives
        (λ u'.
          last_write u'.radio.calls
          ≡ some (((u.ack.length + size) ∷ header) ++ take u.ack.length u.ack.bytes))
        (answer_inline size header true u)
unfolding answer_inline
answer_inline-writes size header u counts few capped ack_room room =
    let n = u.ack.length in
    let front = u8 (n + size) ∷ header in
    let exact : u8 (n + size) ≡ n + size = omega arith in
    let with_header = blit 0 front u.usb_answer in
    let with_room = length-blit 0 front u.usb_answer (omega arith) in
    let payload = take n u.ack.bytes in
    let payload_length : length payload ≡ n = omega (arith, length-take n u.ack.bytes) in
    let starts : take size with_header ≡ front =
      take-blit 0 size front u.usb_answer (omega arith) (omega arith) in
    elim (Bool-cases (ltb 0 n)) [
      | inl filled ↦
          rw
            (
              filled,
              memcpy-fits with_header size u.ack.bytes n (omega (arith, with_room)) (omega arith),
            )
            (ap some (
              take-blit size (u8 (n + size)) payload with_header
                (omega (arith, with_room, payload_length)) (omega (arith, payload_length))
              ∙ ap (λ xs. xs ++ payload) starts
              ∙ ap (λ k. (k ∷ header) ++ payload) exact))
      | inr bare ↦
          let nothing : n ≡ 0 = ground arith in
          let nothing_back : 0 ≡ n = omega arith in
          let only : u8 (n + size) ≡ size = omega arith in
          rw bare (
            ap some (
              ap (λ k. take k with_header) only
              ∙ starts
              ∙ ap (λ k. k ∷ header) exact
              ∙ sym (append-nil ((n + size) ∷ header))
              ∙ ap (λ k. ((n + size) ∷ header) ++ take k u.ack.bytes) nothing_back))
    ]

-- What the host reads in the inline mode after an ack: the length of the whole, the flags, the RSSI
-- sample if that is asked for, and the first 32 bytes of the ack. The flags hold the ack, whether
-- the signal was above -64 dBm, whether the settings are invalid, and the retries; the signal and
-- the retries are 0 if acks are disabled.
pub record InlineReply (u : Usb) (bytes : List ℕ) : Type 0 where
  pub counts : get_or bytes 0 0 ≡ length bytes
  pub flag_acked : get_or bytes 1 0 % 2 ≡ 1
  pub flag_signal : get_or bytes 1 0 / 2 % 2 ≡ bit (u.ack_enabled && ltb u.rssi 64)
  pub flag_invalid : get_or bytes 1 0 / 4 % 2 ≡ bit (u.datarate == 0 || ltb 100 u.channel)
  pub flag_retries : get_or bytes 1 0 / 16 ≡ (if u.ack_enabled then u.arc_counter % 16 else 0)
  pub sampled : u.inline_rssi_mode ≡ true → get_or bytes 2 0 ≡ u.rssi
  pub carries :
      drop (if u.inline_rssi_mode then 3 else 2) bytes ≡ take (min 32 u.ack.length) u.ack.bytes

answer_by_mode-short :
    (acked : Bool) (u : Usb)
    → u.inline_mode ≡ true
    → u.inline_rssi_mode ≡ false
    → answer_by_mode acked u ≡ answer_inline 2 (sent_flags acked u ∷ []) acked u
unfolding answer_by_mode
answer_by_mode-short acked u inline off =
    if_rule (λ o. o ≡ answer_inline 2 (sent_flags acked u ∷ []) acked u)
      (u.inline_mode && not u.inline_rssi_mode) _ _ (λ _. refl) (λ h. absurd (ground arith))

answer_by_mode-with_rssi :
    (acked : Bool) (u : Usb)
    → u.inline_mode ≡ true
    → u.inline_rssi_mode ≡ true
    → answer_by_mode acked u ≡ answer_inline 3 (sent_flags acked u ∷ u.rssi ∷ []) acked u
unfolding answer_by_mode
answer_by_mode-with_rssi acked u inline on =
    if_rule (λ o. o ≡ answer_inline 3 (sent_flags acked u ∷ u.rssi ∷ []) acked u)
      (u.inline_mode && not u.inline_rssi_mode) _ _ (λ h. absurd (ground arith))
      (λ _.
        if_rule (λ o. o ≡ answer_inline 3 (sent_flags acked u ∷ u.rssi ∷ []) acked u)
          (u.inline_mode && u.inline_rssi_mode) _ _ (λ _. refl) (λ h. absurd (ground arith)))

module _ (u : Usb) (capped : u.ack.length ≤ 32) (room : length u.ack.bytes ≡ 63) where
  payload_length : length (take u.ack.length u.ack.bytes) ≡ u.ack.length
  payload_length = omega (arith, length-take u.ack.length u.ack.bytes)

  InlineReply-of :
      u.inline_rssi_mode ≡ false
      → InlineReply u
          (((u.ack.length + 2) ∷ sent_flags true u ∷ []) ++ take u.ack.length u.ack.bytes)
  InlineReply-of off =
      let reads =
        inline_flags-reads true (u.ack_enabled && ltb u.rssi 64)
          (u.datarate == 0 || ltb 100 u.channel) (if u.ack_enabled then u.arc_counter else 0) in
      record {
        counts = omega (arith, payload_length);
        flag_acked = reads.0;
        flag_signal = reads.1;
        flag_invalid = reads.2;
        flag_retries = ground (arith, reads.3);
        sampled = λ on. absurd (ground arith);
        carries = rw off (ap (λ k. take k u.ack.bytes) (omega arith));
      }

  InlineReply-with_rssi :
      u.inline_rssi_mode ≡ true
      → InlineReply u
          (((u.ack.length + 3) ∷ sent_flags true u ∷ u.rssi ∷ []) ++ take u.ack.length u.ack.bytes)
  InlineReply-with_rssi on =
      let reads =
        inline_flags-reads true (u.ack_enabled && ltb u.rssi 64)
          (u.datarate == 0 || ltb 100 u.channel) (if u.ack_enabled then u.arc_counter else 0) in
      record {
        counts = omega (arith, payload_length);
        flag_acked = reads.0;
        flag_signal = reads.1;
        flag_invalid = reads.2;
        flag_retries = ground (arith, reads.3);
        sampled = λ _. refl;
        carries = rw on (ap (λ k. take k u.ack.bytes) (omega arith));
      }

  -- In the inline mode, after an acked packet with an ack of at most 32 bytes, the host reads one
  -- transfer whose first byte is its length; then the flags, of which bit 0 is the ack, bit 1 that
  -- the RSSI sample is below 64, bit 2 that the settings are invalid and the upper four bits the retries,
  -- signal and retries being 0 if acks are disabled; then the RSSI sample, if the mode asks for it;
  -- and then the bytes of the ack.
  pub answer_sent-InlineReply :
      u.inline_mode ≡ true
      → length u.usb_answer ≡ 128
      → Gives
          (λ u'. (bytes : List ℕ) × (last_write u'.radio.calls ≡ some bytes) × InlineReply u bytes)
          (answer_sent true u)
  unfolding answer_sent cap_ack
  answer_sent-InlineReply inline answer_room =
      let lit = u ▹▹▹ led_pulse_green 50 in
      let keeps : cap_ack lit ≡ lit = ground arith in
      elim (Bool-cases u.inline_rssi_mode) [
        | inl on ↦
            rw (keeps, answer_by_mode-with_rssi true lit inline on)
              (Gives-mono
                (λ u'.
                  last_write u'.radio.calls
                  ≡ some (
                      ((u.ack.length + 3) ∷ sent_flags true u ∷ u.rssi ∷ [])
                      ++ take u.ack.length u.ack.bytes))
                _ _ (λ u' w. (_, w, InlineReply-with_rssi on))
                (answer_inline-writes 3 (sent_flags true u ∷ u.rssi ∷ []) lit refl (omega arith)
                  capped room answer_room))
        | inr off ↦
            rw (keeps, answer_by_mode-short true lit inline off)
              (Gives-mono
                (λ u'.
                  last_write u'.radio.calls
                  ≡ some (
                      ((u.ack.length + 2) ∷ sent_flags true u ∷ [])
                      ++ take u.ack.length u.ack.bytes))
                _ _ (λ u' w. (_, w, InlineReply-of off))
                (answer_inline-writes 2 (sent_flags true u ∷ []) lit refl (omega arith) capped room
                  answer_room))
      ]
