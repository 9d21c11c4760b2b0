-- ===== src/Usb/Data/Aim.antt =====
-- What the radio is pointed at when a data command starts a transmission.
use crazyradio2_firmware.Base.{
  ℕ, ◌+◌, ◌/◌, ◌≡◌, ap, ◌∙◌, inl, true, not, ◌&&◌, List, drop, leb, ltb, ◌==◌, arith, if◌then◌else◌,
  if_rule,
}
use crazyradio2_firmware.Platform.Trace.{at_last_tx, last_packetptr}
use crazyradio2_firmware.Led.{led_pulse_red}
use crazyradio2_firmware.Esb.Address.{esb_set_address}
use crazyradio2_firmware.Esb.Config.{esb_set_channel, esb_set_bitrate, esb_set_ack_enabled}
use crazyradio2_firmware.Esb.Send.{Air}
use crazyradio2_firmware.Esb.Send.OnAir.{
  IsAimed, AimsFrom, AimsFrom-trans, SentWith, esb_send_packet-AimsFrom,
}
use crazyradio2_firmware.Usb.State.{Usb, DataCommand, memcpy}
use crazyradio2_firmware.Usb.State.Partial.{Allows, Allows-bind, Allows-mono}
use crazyradio2_firmware.Usb.Data.{
  thread_send, load_packet, inline_payload_length, inline_mode_out_header, apply_inline_header,
  prepare, answer_invalid, handle_data,
}
use crazyradio2_firmware.Usb.Data.Delivery.{IsSending, loaded, prepare-loaded}
use crazyradio2_firmware.Usb.Data.OnAir.{answer_sent-StartsNone, thread_send-SentWith}
use crazyradio2_firmware.Usb.Invariant.{HasRoom, IsCommand}

abbrev pub Aims : Usb → Usb → Type 0
Aims u u' = AimsFrom u.radio.calls u'.radio.calls

Aims-trans : (u v w : Usb) → Aims u v → Aims v w → Aims u w
Aims-trans u v w h k = AimsFrom-trans u.radio.calls v.radio.calls w.radio.calls h k

load_packet-same :
    (src : List ℕ) (n : ℕ) (u : Usb)
    → Allows (λ u'. u'.radio.calls ≡ u.radio.calls) (load_packet src n u)
unfolding load_packet memcpy
load_packet-same src n u = ground arith

load_packet-Aims : (src : List ℕ) (n : ℕ) (u : Usb) → Allows (Aims u) (load_packet src n u)
load_packet-Aims src n u =
    Allows-mono (λ u'. u'.radio.calls ≡ u.radio.calls) (Aims u) _ (λ u' e. inl (ap at_last_tx e))
      (load_packet-same src n u)

thread_send-Aims : (air : Air) (u : Usb) → Allows (λ r. Aims u r.0) (thread_send air u)
unfolding thread_send
thread_send-Aims air u = ground (
  arith,
  esb_send_packet-AimsFrom air (u.radio.arc + 1) u.packet u.ack u.rssi u.arc_counter u.radio,
)

apply_inline_header-Aims :
    (prefix0 : ℕ) (payload : List ℕ) (u : Usb) → Aims u (apply_inline_header prefix0 payload u)
unfolding apply_inline_header esb_set_address esb_set_ack_enabled esb_set_bitrate esb_set_channel
apply_inline_header-Aims prefix0 payload u = inl (ground arith)

answer_invalid-StartsNone :
    (u : Usb) → at_last_tx (answer_invalid u).radio.calls ≡ at_last_tx u.radio.calls
unfolding answer_invalid led_pulse_red
answer_invalid-StartsNone u = ground arith

module _ (first : Air) (prefix0 : ℕ) (c : DataCommand) (u : Usb) where
  prepare-Aims : Allows (Aims u) (prepare first prefix0 c u)
  unfolding prepare
  prepare-Aims =
      let half = c.length / 2 in
      if_rule (Allows (Aims u)) u.inline_mode _ _
        (λ _.
          let v = apply_inline_header prefix0 c.payload u in
          Allows-mono (Aims v) (Aims u) _
            (λ u' h. Aims-trans u v u' (apply_inline_header-Aims prefix0 c.payload u) h)
            (load_packet-Aims (drop 8 c.payload)
              (inline_payload_length (inline_mode_out_header c.payload).length) v))
        (λ _.
          if_rule (Allows (Aims u)) (not u.ack_enabled && ltb 32 c.length) _ _
            (λ _.
              Allows-bind (Aims u) (Aims u) (load_packet c.payload half u) _
                (load_packet-Aims c.payload half u)
                (λ v h.
                  Allows-bind (λ r. Aims v r.0) (Aims u) (thread_send first v) _
                    (thread_send-Aims first v)
                    (λ sent k.
                      Allows-mono (Aims sent.0) (Aims u) _
                        (λ u' l. Aims-trans u v u' h (Aims-trans v sent.0 u' k l))
                        (load_packet-Aims (drop half c.payload) half sent.0))))
            (λ _. load_packet-Aims c.payload (if ltb 32 c.length then 32 else c.length) u))

  -- If the last transmission is one that the handler started, it was started with the radio pointed
  -- at the thread's packet.
  pub handle_data-Aims : (air : Air) → Allows (Aims u) (handle_data first air prefix0 c u)
  unfolding handle_data
  handle_data-Aims air =
      Allows-bind (Aims u) (Aims u) (prepare first prefix0 c u) _ prepare-Aims (λ v h.
        if_rule (Allows (Aims u)) (not (v.datarate == 0) && leb v.channel 100) _ _
          (λ _.
            Allows-bind (λ r. Aims v r.0) (Aims u) (thread_send air v) _ (thread_send-Aims air v)
              (λ sent k.
                Allows-mono _ (Aims u) _
                  (λ u' e. Aims-trans u v u' h (Aims-trans v sent.0 u' k (inl e)))
                  (answer_sent-StartsNone sent.1 sent.0)))
          (λ _. Aims-trans u v (answer_invalid v) h (inl (answer_invalid-StartsNone v))))

  -- A thread that sends starts a transmission, with the radio pointed at its packet.
  pub handle_data-IsAimed :
      (air : Air)
      → IsSending air u
      → IsCommand c
      → HasRoom u.packet
      → Allows (λ u'. IsAimed u'.radio.calls) (handle_data first air prefix0 c u)
  unfolding handle_data
  handle_data-IsAimed air s command room =
      let valid : (not (u.datarate == 0) && leb u.channel 100) ≡ true = ground (arith, s) in
      let v = loaded c u in
      rw (prepare-loaded first prefix0 c u command room s.no_inline s.acks, valid)
        (Allows-bind (λ r. SentWith v.radio.calls r.0.radio.calls) _ (thread_send air v) _
          (thread_send-SentWith air v s.is_ready.allowed s.is_ready.kept)
          (λ sent k.
            Allows-mono _ (λ u'. IsAimed u'.radio.calls) _ (λ u' e. ap last_packetptr e ∙ k.points)
              (answer_sent-StartsNone sent.1 sent.0)))
