-- ===== src/Usb/Data.antt =====
-- The data path of `usb_thread` in src/legacy_usb.c, lines 422 to 584: a command from the queue is
-- sent by radio and answered on the IN endpoint.
pub mod Replies
pub mod InlineReplies
pub mod Delivery
pub mod Sending
pub mod Aim
pub mod OnAir
pub mod Settings
pub mod Answers
use crazyradio2_firmware.Base.{
  ℕ, ◌+◌, ◌-◌, ◌*◌, ◌/◌, ◌%◌, ◌^◌, u8, u32, bit, Bool, true, false, not, ◌&&◌, ◌||◌, Option, none,
  some, List, [], ◌∷◌, ltb, leb, ◌==◌, if◌then◌else◌, take, drop, get_or, blit, bit_and, bit_or,
  ◌<<<◌,
}
use crazyradio2_firmware.Platform.{◌▹◌, usb_write, mutex_lock, mutex_unlock, usb_radio_mutex}
use crazyradio2_firmware.Led.{led_pulse_green, led_pulse_red}
use crazyradio2_firmware.Esb.State.{Esb, EsbPacket, Address}
use crazyradio2_firmware.Esb.Isr.{Irq}
use crazyradio2_firmware.Esb.Address.{esb_set_address}
use crazyradio2_firmware.Esb.Config.{esb_set_channel, esb_set_bitrate, esb_set_ack_enabled}
use crazyradio2_firmware.Esb.Send.{Air, Sent, esb_send_packet}
use crazyradio2_firmware.Usb.State.{
  Usb, DataCommand, SetupCommand, Outcome, ok, fault, out_of_fuel, ◌>>=◌, memcpy, ◌▹▹▹◌,
}
use crazyradio2_firmware.Usb.Command.{address_at, handle_vendor_command}

-- A send from the thread's variables.
unfoldable pub thread_send : Air → Usb → Outcome (Usb × Bool)
thread_send air u =
    elim (esb_send_packet air (u.radio.arc + 1) u.packet u.ack u.rssi u.arc_counter u.radio) [
      | none ↦ out_of_fuel
      | some r ↦ ok (
        record u {
          radio = r.esb;
          packet = r.packet;
          ack = r.ack;
          rssi = r.rssi;
          arc_counter = r.retry;
        },
        r.result,
      )
    ]

-- `memcpy(packet.data, src, n); packet.length = n`
unfoldable pub load_packet : List ℕ → ℕ → Usb → Outcome Usb
load_packet src n u = memcpy u.packet.bytes 0 src n >>= λ copied.
    ok (record u { packet = record u.packet { length = u8 n; bytes = copied } })

-- `int payload_length`: the length byte less the 8 of the header. Below 8 the difference wraps in
-- `size_t`, and is a negative `int`, which the cap of line 439 lets pass.
unfoldable pub inline_payload_length : ℕ → ℕ
inline_payload_length header_length =
    let wrapped = u32 (header_length + 2 ^ 32 - 8) in
    if ltb wrapped (2 ^ 31) && ltb (32 + 8) wrapped then 32 + 8 else wrapped

-- `inline_mode_out_header`, lines 83 to 92. Its second byte holds the data rate in bits 0 and 1, and
-- in bit 4 whether acks are enabled.
pub record InlineModeOutHeader : Type 0 where
  pub length : ℕ
  pub datarate : ℕ
  pub ack_enabled : ℕ
  pub channel : ℕ
  pub address : Address

-- The header at the start of a payload.
abbrev pub inline_mode_out_header : List ℕ → InlineModeOutHeader
inline_mode_out_header payload = record {
  length = get_or payload 0 0;
  datarate = get_or payload 1 0 % 4;
  ack_enabled = get_or payload 1 0 / 16 % 2;
  channel = get_or payload 2 0;
  address = address_at payload 3;
}

-- The settings of an inline header, lines 429 to 436.
unfoldable pub apply_inline_header : (prefix0 : ℕ) → List ℕ → Usb → Usb
apply_inline_header prefix0 payload u =
    let header = inline_mode_out_header payload in
    let acks = header.ack_enabled == 1 in
    record u {
      channel = header.channel;
      datarate = header.datarate;
      ack_enabled = acks;
      radio = esb_set_address header.address prefix0 (
          esb_set_ack_enabled acks
            (esb_set_bitrate header.datarate (esb_set_channel header.channel u.radio)));
    }

-- Lines 427 to 464. `first` is what the world does while the first half of a double broadcast is
-- sent.
unfoldable pub prepare : (first : Air) → (prefix0 : ℕ) → DataCommand → Usb → Outcome Usb
prepare first prefix0 c u =
    if u.inline_mode
    then load_packet (drop 8 c.payload)
        (inline_payload_length (inline_mode_out_header c.payload).length)
        (apply_inline_header prefix0 c.payload u)
    else if not u.ack_enabled && ltb 32 c.length
    then (load_packet c.payload (c.length / 2) u >>= λ loaded. thread_send first loaded >>= λ sent.
        load_packet (drop (c.length / 2) c.payload) (c.length / 2) sent.0)
    else load_packet c.payload (if ltb 32 c.length then 32 else c.length) u

-- The second byte of `inline_mode_in_header`, lines 94 to 102.
unfoldable pub inline_flags : (acked rssi_lt_64dbm invalid : Bool) → (arc_counter : ℕ) → ℕ
inline_flags acked rssi_lt_64dbm invalid arc_counter =
    bit acked + bit rssi_lt_64dbm * 2 + bit invalid * 4 + arc_counter % 16 * 16

-- The flags of lines 487 to 490 and 505 to 508.
abbrev pub sent_flags : Bool → Usb → ℕ
sent_flags acked u =
    inline_flags acked (u.ack_enabled && ltb u.rssi 64) (u.datarate == 0 || ltb 100 u.channel)
      (if u.ack_enabled then u.arc_counter else 0)

-- Lines 482 to 518: `header` is what stands behind the length in the header, `size` its size.
unfoldable pub answer_inline : (size : ℕ) → (header : List ℕ) → Bool → Usb → Outcome Usb
answer_inline size header acked u =
    let length = u8 (u.ack.length + size) in
    let with_header = blit 0 (length ∷ header) u.usb_answer in
    let whole =
      if acked && ltb 0 u.ack.length
      then memcpy with_header size u.ack.bytes u.ack.length
      else ok with_header in
    whole >>= λ answer.
    ok (record u { usb_answer = answer } ▹▹▹ (λ t. t ▹ usb_write (take length answer)))

-- Line 524.
unfoldable pub status_byte : Bool → (arc_counter rssi : ℕ) → ℕ
status_byte acked arc_counter rssi =
    u8 (bit_or (bit_or (bit_and arc_counter 0x0f <<< 4) (bit (ltb rssi 64) <<< 1)) (bit acked))

-- Lines 520 to 536.
unfoldable pub answer_plain : Bool → Usb → Outcome Usb
unfolding status_byte
answer_plain acked u =
    if not u.ack_enabled
    then ok (u ▹▹▹ led_pulse_green 50)
    else if acked && leb u.ack.length 32
    then ok (
        u ▹▹▹ λ t.
        t ▹ usb_write (status_byte true u.arc_counter u.rssi ∷ take u.ack.length u.ack.bytes))
    else ok (u ▹▹▹ (λ t. t ▹ usb_write (0 ∷ [])))

-- Lines 477 to 480.
unfoldable pub cap_ack : Usb → Usb
cap_ack u = if ltb 32 u.ack.length then record u { ack = record u.ack { length = 32 } } else u

-- Lines 482 to 537.
unfoldable pub answer_by_mode : Bool → Usb → Outcome Usb
answer_by_mode acked u =
    if u.inline_mode && not u.inline_rssi_mode
    then answer_inline 2 (sent_flags acked u ∷ []) acked u
    else if u.inline_mode && u.inline_rssi_mode
    then answer_inline 3 (sent_flags acked u ∷ u.rssi ∷ []) acked u
    else answer_plain acked u

-- Lines 471 to 537, with the answer of the send.
unfoldable pub answer_sent : Bool → Usb → Outcome Usb
unfolding cap_ack answer_by_mode
answer_sent acked u = answer_by_mode acked (
    cap_ack
      (if acked || not u.ack_enabled then u ▹▹▹ led_pulse_green 50 else u ▹▹▹ led_pulse_red 50))

-- Lines 540 to 578.
unfoldable pub answer_invalid : Usb → Usb
unfolding inline_flags
answer_invalid u =
    let answer =
      if u.inline_mode && not u.inline_rssi_mode
      then 2 ∷ inline_flags false false true 0 ∷ []
      else if u.inline_mode && u.inline_rssi_mode
      then 3 ∷ inline_flags false false true 0 ∷ 0 ∷ []
      else 0 ∷ [] in
    u ▹▹▹ λ t. led_pulse_red 50 (t ▹ usb_write answer)

-- Lines 425 to 578.
unfoldable pub handle_data : (first air : Air) → (prefix0 : ℕ) → DataCommand → Usb → Outcome Usb
handle_data first air prefix0 c u = prepare first prefix0 c u >>= λ prepared.
    if not (prepared.datarate == 0) && leb prepared.channel 100
    then (thread_send air prepared >>= λ sent. answer_sent sent.1 sent.0)
    else ok (answer_invalid prepared)

-- `struct usb_command`
pub data UsbCommand : Type 0 where
  data_command : DataCommand → UsbCommand
  setup_command : SetupCommand → UsbCommand

-- One round of the thread out of the sniffer mode, with the command that `k_msgq_get` hands out.
unfoldable pub normal_round :
    (first air : Air) → (prefix0 : ℕ) → List Irq → UsbCommand → Usb → Outcome Usb
normal_round first air prefix0 irqs command u =
    let locked = u ▹▹▹ (λ t. t ▹ mutex_lock usb_radio_mutex) in
    let handled : Outcome Usb = elim command [
      | data_command c ↦ handle_data first air prefix0 c locked
      | setup_command c ↦ ok (handle_vendor_command prefix0 irqs c locked)
    ] in
    handled >>= λ u'. ok (u' ▹▹▹ (λ t. t ▹ mutex_unlock usb_radio_mutex))
