-- ===== src/Usb/Data/Sending.antt =====
-- Which bytes of a command go on the air: what the packet holds that the radio is pointed at.
use crazyradio2_firmware.Base.{
  ℕ, ◌+◌, ◌-◌, ◌/◌, ◌≤◌, ◌<◌, ◌≡◌, sym, ap, ◌∙◌, u8, Bool, true, false, not, ◌&&◌, ◌||◌, min, leb,
  ltb, ◌==◌, List, ◌∷◌, [], length, take, drop, get_or, arith, if◌then◌else◌, if_rule, length-take,
  length-blit, take-blit,
}
use crazyradio2_firmware.Led.{led_pulse_green, led_pulse_red}
use crazyradio2_firmware.Esb.State.{EsbPacket}
use crazyradio2_firmware.Esb.Send.{Air}
use crazyradio2_firmware.Esb.Send.Buffers.{Receives, esb_send_packet-Buffers}
use crazyradio2_firmware.Usb.State.{
  Usb, DataCommand, Outcome, ok, memcpy, Gives, Gives-mono, ◌>>=◌, ◌▹▹▹◌,
}
use crazyradio2_firmware.Usb.State.Partial.{Allows, Allows-bind, Allows-mono, Gives-and}
use crazyradio2_firmware.Usb.Data.{
  thread_send, load_packet, inline_payload_length, apply_inline_header, prepare, answer_inline,
  answer_plain, cap_ack, answer_by_mode, answer_sent, answer_invalid, sent_flags, handle_data,
}
use crazyradio2_firmware.Usb.Data.Aim.{Aims, handle_data-Aims}
use crazyradio2_firmware.Usb.Invariant.{UsbInv, HasRoom, IsCommand}
use crazyradio2_firmware.Usb.Invariant.Data.{stays_inside, handle_data-UsbInv}

-- The bytes of a command that its last packet carries: in the inline mode those behind the header,
-- as many as it counts; without acks the second half of a command of more than 32 bytes; else the
-- first 32 bytes.
abbrev pub sent_bytes : (inline acks : Bool) → DataCommand → List ℕ
sent_bytes true acks c = take (min 40 (get_or c.payload 0 0 - 8)) (drop 8 c.payload)
sent_bytes false true c = take (min 32 c.length) c.payload
sent_bytes false false c =
    if ltb 32 c.length
    then take (c.length / 2) (drop (c.length / 2) c.payload)
    else take c.length c.payload

pub record Holds (bytes : List ℕ) (p : EsbPacket) : Type 0 where
  pub counted : p.length ≡ length bytes
  pub held : take p.length p.bytes ≡ bytes

-- The packet keeps its array and has been loaded with `bytes`.
abbrev Loads : List ℕ → Usb → Type 0
Loads bytes u = Holds bytes u.packet × HasRoom u.packet

load_packet-Holds :
    (src : List ℕ) (n : ℕ) (u : Usb)
    → HasRoom u.packet
    → Allows (Loads (take n src)) (load_packet src n u)
unfolding load_packet memcpy
load_packet-Holds src n u room =
    if_rule
      (λ o. Allows (Loads (take n src)) (
        o >>= λ copied.
        ok (record u { packet = record u.packet { length = u8 n; bytes = copied } })))
      (leb (0 + n) (length u.packet.bytes) && leb n (length src)) _ _
      (λ fits.
        let small : n ≤ 63 = ground (arith, room) in
        let enough : n ≤ length src = ground arith in
        let size : length (take n src) ≡ n = omega (arith, enough, length-take n src) in
        let inside : 0 + length (take n src) ≤ length u.packet.bytes =
          omega (arith, size, small, room) in
        (
          record {
            counted = omega (arith, size, small);
            held =
                take-blit 0 (u8 n) (take n src) u.packet.bytes inside (omega (arith, size, small));
          },
          length-blit 0 (take n src) u.packet.bytes inside ∙ room,
        ))
      (λ _. tt)

thread_send-keeps :
    (air : Air) (u : Usb)
    → Allows
        (λ r. (r.0.packet.bytes ≡ u.packet.bytes) × (r.0.packet.length ≡ u.packet.length))
        (thread_send air u)
unfolding thread_send
thread_send-keeps air u = ground (
  arith,
  esb_send_packet-Buffers (λ _. Unit) air (u.radio.arc + 1) u.packet u.ack u.rssi u.arc_counter
      u.radio (λ _ _. tt) (λ _ _ _. tt) tt,
)

thread_send-Loads :
    (air : Air) (bytes : List ℕ) (u : Usb)
    → Loads bytes u
    → Allows (λ r. Loads bytes r.0) (thread_send air u)
thread_send-Loads air bytes u h =
    Allows-mono _ (λ r. Loads bytes r.0) (thread_send air u)
      (λ r same. (
        record {
          counted = same.1 ∙ h.0.counted;
          held =
              ap (λ n. take n r.0.packet.bytes) same.1
              ∙ ap (λ xs. take u.packet.length xs) same.0
              ∙ h.0.held;
        },
        ap length same.0 ∙ h.1,
      ))
      (thread_send-keeps air u)

inline_payload_length-capped :
    (header : ℕ) → 8 ≤ header → header < 256 → inline_payload_length header ≡ min 40 (header - 8)
unfolding inline_payload_length
inline_payload_length-capped header counts byte = ground arith

-- The bytes may be told otherwise.
told :
    (bytes bytes' : List ℕ) (o : Outcome Usb)
    → bytes' ≡ bytes
    → Allows (Loads bytes) o
    → Allows (Loads bytes') o
told bytes bytes' o e h = rw e h

module _ (first : Air) (prefix0 : ℕ) (c : DataCommand) (u : Usb) (room : HasRoom u.packet) where
  prepare-Loads :
      get_or c.payload 0 0 < 256
      → stays_inside c u ≡ true
      → Allows (Loads (sent_bytes u.inline_mode u.ack_enabled c)) (prepare first prefix0 c u)
  unfolding prepare apply_inline_header
  prepare-Loads byte safe =
      let header = get_or c.payload 0 0 in
      let n = inline_payload_length header in
      let half = c.length / 2 in
      let whole = if ltb 32 c.length then 32 else c.length in
      let wanted = sent_bytes u.inline_mode u.ack_enabled c in
      if_rule (Allows (Loads wanted)) u.inline_mode _ _
        (λ inline.
          let counts : 8 ≤ header = ground arith in
          let capped = inline_payload_length-capped header counts byte in
          told (take n (drop 8 c.payload)) wanted _
            (ap (λ b. sent_bytes b u.ack_enabled c) inline
              ∙ ap (λ k. take k (drop 8 c.payload)) (sym capped))
            (load_packet-Holds (drop 8 c.payload) n (apply_inline_header prefix0 c.payload u) room))
        (λ plain.
          if_rule (Allows (Loads wanted)) (not u.ack_enabled && ltb 32 c.length) _ _
            (λ halved.
              Allows-bind (Loads (take half c.payload)) _ (load_packet c.payload half u) _
                (load_packet-Holds c.payload half u room)
                (λ loaded h.
                  Allows-bind (λ r. Loads (take half c.payload) r.0) _ (thread_send first loaded) _
                    (thread_send-Loads first (take half c.payload) loaded h)
                    (λ sent k.
                      told (take half (drop half c.payload)) wanted _ (ground arith)
                        (load_packet-Holds (drop half c.payload) half sent.0 k.1))))
            (λ whole_sent.
              told (take whole c.payload) wanted _ (ground arith)
                (load_packet-Holds c.payload whole u room)))

answer_inline-packet :
    (size : ℕ) (header : List ℕ) (acked : Bool) (u : Usb)
    → Allows (λ u'. u'.packet ≡ u.packet) (answer_inline size header acked u)
unfolding answer_inline memcpy
answer_inline-packet size header acked u = ground arith

answer_plain-packet :
    (acked : Bool) (u : Usb) → Allows (λ u'. u'.packet ≡ u.packet) (answer_plain acked u)
unfolding answer_plain
answer_plain-packet acked u = ground arith

answer_sent-packet :
    (acked : Bool) (u : Usb) → Allows (λ u'. u'.packet ≡ u.packet) (answer_sent acked u)
unfolding answer_sent cap_ack answer_by_mode
answer_sent-packet acked u =
    let v =
      cap_ack
        (if acked || not u.ack_enabled then u ▹▹▹ led_pulse_green 50 else u ▹▹▹ led_pulse_red 50) in
    let same : v.packet ≡ u.packet = ground arith in
    let P : Outcome Usb → Type 0 = Allows (λ u'. u'.packet ≡ u.packet) in
    let kept : (o : Outcome Usb) → Allows (λ u'. u'.packet ≡ v.packet) o → P o =
      λ o. Allows-mono (λ u'. u'.packet ≡ v.packet) _ o (λ u' e. e ∙ same) in
    if_rule P (v.inline_mode && not v.inline_rssi_mode) _ _
      (λ _. kept _ (answer_inline-packet 2 (sent_flags acked v ∷ []) acked v))
      (λ _.
        if_rule P (v.inline_mode && v.inline_rssi_mode) _ _
          (λ _. kept _ (answer_inline-packet 3 (sent_flags acked v ∷ v.rssi ∷ []) acked v))
          (λ _. kept _ (answer_plain-packet acked v)))

-- When a data command that stays inside the arrays has been handled, whatever the radio does, the
-- thread's packet holds the command's bytes: in the inline mode those behind the header, as many as
-- it counts and at most 40; without acks the second half of a command of more than 32 bytes; else
-- the first 32 bytes. If the handler has started a transmission, the last one was started with the
-- radio pointed at that packet. The thread's state is sound, the radio fills whole buffers, and the
-- first byte of the command is a byte.
pub handle_data-sends :
    (first air : Air) (prefix0 : ℕ) (c : DataCommand) (u : Usb)
    → IsCommand c
    → UsbInv u
    → Receives HasRoom first
    → Receives HasRoom air
    → get_or c.payload 0 0 < 256
    → stays_inside c u ≡ true
    → Gives
        (λ u'. Holds (sent_bytes u.inline_mode u.ack_enabled c) u'.packet × Aims u u')
        (handle_data first air prefix0 c u)
unfolding handle_data answer_invalid
handle_data-sends first air prefix0 c u command v got got' byte safe =
    let bytes = sent_bytes u.inline_mode u.ack_enabled c in
    let P : Usb → Type 0 = λ u'. Holds bytes u'.packet in
    let allowed : Allows P (handle_data first air prefix0 c u) =
      Allows-bind (Loads bytes) P (prepare first prefix0 c u) _
        (prepare-Loads first prefix0 c u v.packet_room byte safe)
        (λ prepared h.
          if_rule (Allows P) (not (prepared.datarate == 0) && leb prepared.channel 100) _ _
            (λ _.
              Allows-bind (λ r. Loads bytes r.0) P (thread_send air prepared) _
                (thread_send-Loads air bytes prepared h)
                (λ sent k.
                  Allows-mono (λ u'. u'.packet ≡ sent.0.packet) P _ (λ u' e. rw e k.0)
                    (answer_sent-packet sent.1 sent.0)))
            (λ _. h.0)) in
    Gives-and P (Aims u) _
      (Gives-mono (λ u'. UsbInv u' × P u') P _ (λ u' w. w.1)
        (Gives-and UsbInv P _
          (handle_data-UsbInv first air prefix0 c u command v got got' byte safe) allowed))
      (handle_data-Aims first prefix0 c u air)
