-- ===== src/Usb/Invariant/Data.antt =====
-- The data commands: which of them copy past an array, and that all others keep the invariant.
use crazyradio2_firmware.Base.{
  ℕ, ◌+◌, ◌-◌, ◌/◌, ◌≤◌, ◌<◌, ◌≡◌, ◌⊎◌, u8, min, Bool, true, false, not, ◌&&◌, ◌||◌, Bool-cases,
  inl, inr, List, ◌∷◌, length, arith, take, drop, blit, length-blit, length-take, length-drop, leb,
  ltb, ◌==◌, get_or, if◌then◌else◌, if_rule, refl,
}
use crazyradio2_firmware.Led.{led_pulse_green, led_pulse_red}
use crazyradio2_firmware.Esb.Address.{esb_set_address}
use crazyradio2_firmware.Esb.Config.{esb_set_channel, esb_set_bitrate, esb_set_ack_enabled}
use crazyradio2_firmware.Esb.Send.{Air}
use crazyradio2_firmware.Esb.Send.Buffers.{Receives}
use crazyradio2_firmware.Usb.State.{
  Usb, DataCommand, fault, memcpy-fits, memcpy-fault, Gives, Gives-bind, fault-bind, ◌▹▹▹◌,
}
use crazyradio2_firmware.Usb.Data.{
  thread_send, load_packet, inline_payload_length, apply_inline_header, prepare, answer_inline,
  answer_plain, answer_sent, answer_invalid, handle_data,
}
use crazyradio2_firmware.Usb.Invariant.{UsbInv, HasRoom, IsCommand}
use crazyradio2_firmware.Usb.Invariant.Sends.{thread_send-UsbInv}

-- A command whose copies stay in their arrays: in the inline mode the header counts itself; else,
-- without acks, the command is short enough to be halved.
abbrev pub stays_inside : DataCommand → Usb → Bool
stays_inside c u =
    if u.inline_mode then leb 8 (get_or c.payload 0 0) else u.ack_enabled || ltb c.length 128

load_packet-UsbInv :
    (src : List ℕ) (n : ℕ) (u : Usb)
    → n ≤ 63
    → n ≤ length src
    → UsbInv u
    → Gives UsbInv (load_packet src n u)
unfolding load_packet
load_packet-UsbInv src n u small enough v =
    rw (memcpy-fits u.packet.bytes 0 src n (omega (arith, v)) enough) (
      ground
        (arith, v, length-blit 0 (take n src) u.packet.bytes (omega (arith, v, length-take n src))))

load_packet-fault :
    (src : List ℕ) (n : ℕ) (u : Usb)
    → (63 < n) ⊎ (length src < n)
    → UsbInv u
    → load_packet src n u ≡ fault
unfolding load_packet
load_packet-fault src n u (inl h) v =
    rw (memcpy-fault u.packet.bytes 0 src n (inl (omega (arith, v)))) refl
load_packet-fault src n u (inr h) v = rw (memcpy-fault u.packet.bytes 0 src n (inr h)) refl

-- At most 40 for a header that counts itself, and far above every array for one that does not.
inline_payload_length-small : (n : ℕ) → 8 ≤ n → n < 256 → inline_payload_length n ≡ min 40 (n - 8)
unfolding inline_payload_length
inline_payload_length-small n h byte = ground arith

inline_payload_length-wraps : (n : ℕ) → n < 8 → 128 < inline_payload_length n
unfolding inline_payload_length
inline_payload_length-wraps n h = ground arith

apply_inline_header-UsbInv :
    (prefix0 : ℕ) (payload : List ℕ) (u : Usb)
    → UsbInv u
    → UsbInv (apply_inline_header prefix0 payload u)
unfolding apply_inline_header esb_set_address esb_set_ack_enabled esb_set_bitrate esb_set_channel
apply_inline_header-UsbInv prefix0 payload u v = ground (arith, v, v.radio_inv)

module _ (first : Air) (prefix0 : ℕ) (c : DataCommand) (u : Usb) (command : IsCommand c)
    (v : UsbInv u) where
  prepare-UsbInv :
      Receives HasRoom first
      → get_or c.payload 0 0 < 256
      → stays_inside c u ≡ true
      → Gives UsbInv (prepare first prefix0 c u)
  unfolding prepare
  prepare-UsbInv got byte safe =
      let header = get_or c.payload 0 0 in
      let n = inline_payload_length header in
      let behind = length-drop 8 c.payload in
      let half = c.length / 2 in
      if_rule (Gives UsbInv) u.inline_mode _ _
        (λ inline.
          let counts : 8 ≤ header = ground arith in
          load_packet-UsbInv (drop 8 c.payload) n _
            (omega (arith, inline_payload_length-small header counts byte))
            (omega (arith, inline_payload_length-small header counts byte, behind, command))
            (apply_inline_header-UsbInv prefix0 c.payload u v))
        (λ plain.
          if_rule (Gives UsbInv) (not u.ack_enabled && ltb 32 c.length) _ _
            (λ double.
              let short : c.length < 128 = ground arith in
              Gives-bind UsbInv _ (load_packet c.payload half u) _
                (load_packet-UsbInv c.payload half u (omega arith) (omega (arith, command)) v)
                (λ loaded w.
                  Gives-bind (λ r. UsbInv r.0) _ (thread_send first loaded) _
                    (thread_send-UsbInv first loaded got w)
                    (λ sent x.
                      load_packet-UsbInv (drop half c.payload) half sent.0 (omega arith)
                        (omega (arith, command, length-drop half c.payload)) x)))
            (λ single.
              load_packet-UsbInv c.payload (if ltb 32 c.length then 32 else c.length) u
                (ground arith) (ground (arith, command)) v))

  prepare-fault : stays_inside c u ≡ false → prepare first prefix0 c u ≡ fault
  unfolding prepare
  prepare-fault unsafe =
      let header = get_or c.payload 0 0 in
      let half = c.length / 2 in
      if_rule (λ o. o ≡ fault) u.inline_mode _ _
        (λ inline.
          let short : header < 8 = ground arith in
          load_packet-fault (drop 8 c.payload) (inline_payload_length header) _
            (inl (omega (arith, inline_payload_length-wraps header short)))
            (apply_inline_header-UsbInv prefix0 c.payload u v))
        (λ plain.
          if_rule (λ o. o ≡ fault) (not u.ack_enabled && ltb 32 c.length) _ _
            (λ double.
              let long : 63 < half = ground (arith, command) in
              fault-bind _ _ (load_packet-fault c.payload half u (inl long) v))
            (λ single. absurd (ground arith)))

answer_inline-UsbInv :
    (size : ℕ) (header : List ℕ) (acked : Bool) (u : Usb)
    → length header < 4
    → size < 4
    → u.ack.length ≤ 32
    → UsbInv u
    → Gives UsbInv (answer_inline size header acked u)
unfolding answer_inline
answer_inline-UsbInv size header acked u small few capped v =
    let with_header = blit 0 (u8 (u.ack.length + size) ∷ header) u.usb_answer in
    let room = length-blit 0 (u8 (u.ack.length + size) ∷ header) u.usb_answer (omega (arith, v)) in
    elim (Bool-cases (acked && ltb 0 u.ack.length)) [
      | inl copies ↦
          rw
            (
              copies,
              memcpy-fits with_header size u.ack.bytes u.ack.length (omega (arith, v, room))
                  (omega (arith, v)),
            )
            (ground (
              arith,
              v,
              v.radio_inv,
              room,
              length-blit size (take u.ack.length u.ack.bytes) with_header
                  (omega (arith, v, room, length-take u.ack.length u.ack.bytes)),
            ))
      | inr bare ↦ rw bare (ground (arith, v, v.radio_inv, room))
    ]

answer_plain-UsbInv : (acked : Bool) (u : Usb) → UsbInv u → Gives UsbInv (answer_plain acked u)
unfolding answer_plain led_pulse_green
answer_plain-UsbInv acked u v = ground (arith, v, v.radio_inv)

answer_sent-UsbInv : (acked : Bool) (u : Usb) → UsbInv u → Gives UsbInv (answer_sent acked u)
unfolding answer_sent led_pulse_green led_pulse_red
answer_sent-UsbInv acked u v =
    let lit =
      if acked || not u.ack_enabled then u ▹▹▹ led_pulse_green 50 else u ▹▹▹ led_pulse_red 50 in
    let capped =
      if ltb 32 lit.ack.length then record lit { ack = record lit.ack { length = 32 } } else lit in
    let capped_inv : UsbInv capped = ground (arith, v, v.radio_inv) in
    let small : capped.ack.length ≤ 32 = ground arith in
    if_rule (Gives UsbInv) (capped.inline_mode && not capped.inline_rssi_mode) _ _
      (λ _. answer_inline-UsbInv 2 _ acked capped (omega arith) (omega arith) small capped_inv)
      (λ _.
        if_rule (Gives UsbInv) (capped.inline_mode && capped.inline_rssi_mode) _ _
          (λ _. answer_inline-UsbInv 3 _ acked capped (omega arith) (omega arith) small capped_inv)
          (λ _. answer_plain-UsbInv acked capped capped_inv))

answer_invalid-UsbInv : (u : Usb) → UsbInv u → UsbInv (answer_invalid u)
unfolding answer_invalid led_pulse_red
answer_invalid-UsbInv u v = ground (arith, v, v.radio_inv)

module _ (first air : Air) (prefix0 : ℕ) (c : DataCommand) (u : Usb) (command : IsCommand c)
    (v : UsbInv u) where
  -- A data command that stays inside the arrays is handled to its end, whatever the radio does, and
  -- keeps the invariant.
  pub handle_data-UsbInv :
      Receives HasRoom first
      → Receives HasRoom air
      → get_or c.payload 0 0 < 256
      → stays_inside c u ≡ true
      → Gives UsbInv (handle_data first air prefix0 c u)
  unfolding handle_data
  handle_data-UsbInv got got' byte safe =
      Gives-bind UsbInv _ (prepare first prefix0 c u) _
        (prepare-UsbInv first prefix0 c u command v got byte safe)
        (λ prepared w.
          if_rule (Gives UsbInv) (not (prepared.datarate == 0) && leb prepared.channel 100) _ _
            (λ _.
              Gives-bind (λ r. UsbInv r.0) _ (thread_send air prepared) _
                (thread_send-UsbInv air prepared got' w)
                (λ sent x. answer_sent-UsbInv sent.1 sent.0 x))
            (λ _. answer_invalid-UsbInv prepared w))

  -- Every other data command copies past an array: an inline header whose length does not count the
  -- header, or a broadcast of 128 bytes, of which each half is longer than a packet.
  pub handle_data-fault : stays_inside c u ≡ false → handle_data first air prefix0 c u ≡ fault
  unfolding handle_data
  handle_data-fault unsafe = fault-bind _ _ (prepare-fault first prefix0 c u command v unsafe)
