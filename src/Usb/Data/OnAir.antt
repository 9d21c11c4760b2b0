-- ===== src/Usb/Data/OnAir.antt =====
-- Where a packet of the inline mode goes: the address and the frequency when it is transmitted.
use crazyradio2_firmware.Base.{
  ℕ, ◌+◌, ◌%◌, ◌^◌, ◌≤◌, ◌<◌, ◌≡◌, ap, ◌∙◌, Bool, true, false, not, ◌&&◌, ◌||◌, leb, ltb, ◌==◌,
  some, List, [], ◌∷◌, get_or, arith, if◌then◌else◌, if_rule,
}
use crazyradio2_firmware.Platform.Trace.{at_last_tx, last_base0, last_prefix0, last_frequency}
use crazyradio2_firmware.Led.{led_pulse_green, led_pulse_red}
use crazyradio2_firmware.Esb.Address.{esb_set_address, bytewise_bitswap, base_word, with_prefix0}
use crazyradio2_firmware.Esb.Address.Registers.{IsAddress, on_air-with_prefix0}
use crazyradio2_firmware.Esb.Config.{esb_set_channel, esb_set_bitrate, esb_set_ack_enabled}
use crazyradio2_firmware.Esb.Send.{Air, refuses, simulated_loss}
use crazyradio2_firmware.Esb.Send.Buffers.{Receives}
use crazyradio2_firmware.Esb.Send.OnAir.{SentWith, esb_send_packet-SentWith}
use crazyradio2_firmware.Esb.Sniffer.OnAir.{IsSentTo}
use crazyradio2_firmware.Usb.State.{Usb, DataCommand, Outcome, memcpy, Gives, Gives-mono, ◌▹▹▹◌}
use crazyradio2_firmware.Usb.State.Partial.{Allows, Allows-bind, Allows-mono, Gives-and}
use crazyradio2_firmware.Usb.Command.{address_at}
use crazyradio2_firmware.Usb.Data.{
  thread_send, load_packet, apply_inline_header, prepare, answer_inline, answer_plain, cap_ack,
  answer_by_mode, answer_sent, sent_flags, handle_data,
}
use crazyradio2_firmware.Usb.Invariant.{UsbInv, HasRoom, IsCommand}
use crazyradio2_firmware.Usb.Invariant.Data.{stays_inside, handle_data-UsbInv}

-- An answer starts no transmission.
abbrev pub StartsNone : Usb → Outcome Usb → Type 0
StartsNone u = Allows (λ u'. at_last_tx u'.radio.calls ≡ at_last_tx u.radio.calls)

answer_inline-StartsNone :
    (size : ℕ) (header : List ℕ) (acked : Bool) (u : Usb)
    → StartsNone u (answer_inline size header acked u)
unfolding answer_inline memcpy
answer_inline-StartsNone size header acked u = ground arith

answer_plain-StartsNone : (acked : Bool) (u : Usb) → StartsNone u (answer_plain acked u)
unfolding answer_plain led_pulse_green
answer_plain-StartsNone acked u = ground arith

pub answer_sent-StartsNone : (acked : Bool) (u : Usb) → StartsNone u (answer_sent acked u)
unfolding answer_sent cap_ack answer_by_mode led_pulse_green led_pulse_red
answer_sent-StartsNone acked u =
    let v =
      cap_ack
        (if acked || not u.ack_enabled then u ▹▹▹ led_pulse_green 50 else u ▹▹▹ led_pulse_red 50) in
    let same : at_last_tx v.radio.calls ≡ at_last_tx u.radio.calls = ground arith in
    let kept : (o : Outcome Usb) → StartsNone v o → StartsNone u o = λ o.
      Allows-mono (λ u'. at_last_tx u'.radio.calls ≡ at_last_tx v.radio.calls) _ o
        (λ u' e. e ∙ same) in
    if_rule (StartsNone u) (v.inline_mode && not v.inline_rssi_mode) _ _
      (λ _. kept _ (answer_inline-StartsNone 2 (sent_flags acked v ∷ []) acked v))
      (λ _.
        if_rule (StartsNone u) (v.inline_mode && v.inline_rssi_mode) _ _
          (λ _. kept _ (answer_inline-StartsNone 3 (sent_flags acked v ∷ v.rssi ∷ []) acked v))
          (λ _. kept _ (answer_plain-StartsNone acked v)))

pub thread_send-SentWith :
    (air : Air) (u : Usb)
    → refuses u.radio ≡ false
    → simulated_loss air u.radio ≡ false
    → Allows (λ r. SentWith u.radio.calls r.0.radio.calls) (thread_send air u)
unfolding thread_send
thread_send-SentWith air u allowed kept = ground (
  arith,
  esb_send_packet-SentWith air (u.radio.arc + 1) u.packet u.ack u.rssi u.arc_counter u.radio allowed
      kept,
)

-- What `prepare` makes of the radio in the inline mode.
abbrev Prepared : (prefix0 : ℕ) → DataCommand → Usb → Usb → Type 0
Prepared prefix0 c u u' =
    let header = apply_inline_header prefix0 c.payload u in
    (u'.radio ≡ header.radio) × (u'.datarate ≡ header.datarate) × (u'.channel ≡ header.channel)

module _ (prefix0 : ℕ) (c : DataCommand) (u : Usb) where
  prepare-Prepared :
      (first : Air)
      → u.inline_mode ≡ true
      → Allows (Prepared prefix0 c u) (prepare first prefix0 c u)
  unfolding prepare load_packet memcpy
  prepare-Prepared first inline =
      if_rule (Allows (Prepared prefix0 c u)) u.inline_mode _ _ (λ _. ground arith)
        (λ h. absurd (ground arith))

  header_registers :
      get_or c.payload 2 0 ≤ 100
      → let w = apply_inline_header prefix0 c.payload u in
        let s = w.radio in
        (last_base0 s.calls ≡ some (bytewise_bitswap (base_word (address_at c.payload 3))))
        × (last_prefix0 s.calls ≡ some (with_prefix0 prefix0 (address_at c.payload 3)))
        × (last_frequency s.calls ≡ some (2400 + get_or c.payload 2 0))
        × (refuses s ≡ refuses u.radio)
        × (s.packet_loss_percent ≡ u.radio.packet_loss_percent)
        × (w.datarate ≡ get_or c.payload 1 0 % 4)
        × (w.channel ≡ get_or c.payload 2 0)
  unfolding apply_inline_header esb_set_address esb_set_ack_enabled esb_set_bitrate esb_set_channel
  header_registers tuned = ground arith

-- A command of the inline mode whose header names a data rate and a channel of the radio, in a radio
-- that lets packets through and simulates no loss: whatever else the radio does, it is sent with the
-- address registers standing for the address of the header, on the channel of the header. The
-- command stays inside the arrays.
pub handle_data-on_air :
    (first air : Air) (prefix0 : ℕ) (c : DataCommand) (u : Usb)
    → IsCommand c
    → UsbInv u
    → Receives HasRoom first
    → Receives HasRoom air
    → get_or c.payload 0 0 < 256
    → stays_inside c u ≡ true
    → u.inline_mode ≡ true
    → 0 < get_or c.payload 1 0 % 4
    → get_or c.payload 2 0 ≤ 100
    → refuses u.radio ≡ false
    → simulated_loss air u.radio ≡ false
    → IsAddress (address_at c.payload 3)
    → prefix0 < 2 ^ 32
    → Gives
        (λ u'.
          IsSentTo (address_at c.payload 3) u'.radio.calls
          × (last_frequency (at_last_tx u'.radio.calls) ≡ some (2400 + get_or c.payload 2 0)))
        (handle_data first air prefix0 c u)
unfolding handle_data
handle_data-on_air first air prefix0 c u command v got got' byte safe inline rate tuned allowed kept
      address fits =
    let a = address_at c.payload 3 in
    let w = apply_inline_header prefix0 c.payload u in
    let set = header_registers prefix0 c u tuned in
    let P : Usb → Type 0 = λ u'.
      IsSentTo a u'.radio.calls
      × (last_frequency (at_last_tx u'.radio.calls) ≡ some (2400 + get_or c.payload 2 0)) in
    let sends : (u' : Usb) → SentWith w.radio.calls u'.radio.calls → P u' = λ u' h. (
      (
        bytewise_bitswap (base_word a),
        with_prefix0 prefix0 a,
        h.at_start.base0_same ∙ set.0,
        h.at_start.prefix0_same ∙ set.1,
        on_air-with_prefix0 a prefix0 address fits,
      ),
      h.at_start.frequency_same ∙ set.2,
    ) in
    let done : Allows P (handle_data first air prefix0 c u) =
      Allows-bind (Prepared prefix0 c u) P (prepare first prefix0 c u) _
        (prepare-Prepared prefix0 c u first inline)
        (λ prepared h.
          let through : refuses prepared.radio ≡ false = ap refuses h.0 ∙ set.3 ∙ allowed in
          let no_loss : simulated_loss air prepared.radio ≡ false =
            ap (simulated_loss air) h.0
            ∙ ap (λ n. not (n == 0) && ltb (air.loss_draw % 100) n) set.4
            ∙ kept in
          if_rule (Allows P) (not (prepared.datarate == 0) && leb prepared.channel 100) _ _
            (λ _.
              Allows-bind (λ r. SentWith prepared.radio.calls r.0.radio.calls) P
                (thread_send air prepared) _ (thread_send-SentWith air prepared through no_loss)
                (λ sent k.
                  Allows-mono (λ u'. at_last_tx u'.radio.calls ≡ at_last_tx sent.0.radio.calls) P _
                    (λ u' e. rw e (sends sent.0 (rw (← h.0) k)))
                    (answer_sent-StartsNone sent.1 sent.0)))
            (λ no. absurd (ground (arith, no, h.1, h.2, set.5, set.6, rate, tuned)))) in
    Gives-mono (λ u'. UsbInv u' × P u') P _ (λ u' w. w.1)
      (Gives-and UsbInv P _ (handle_data-UsbInv first air prefix0 c u command v got got' byte safe)
        done)
