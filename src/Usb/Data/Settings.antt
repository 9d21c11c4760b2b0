-- ===== src/Usb/Data/Settings.antt =====
-- The settings that a data command of src/legacy_usb.c is sent with, up to its answer.
use crazyradio2_firmware.Base.{
  ℕ, ◌+◌, ◌/◌, ap, ◌≡◌, Bool-cases, inl, inr, true, false, not, ◌&&◌, arith, List, ltb,
  if◌then◌else◌, if_rule, get_or, drop,
}
use crazyradio2_firmware.Platform.Trace.{writes, by_usb}
use crazyradio2_firmware.Esb.Address.{esb_set_address}
use crazyradio2_firmware.Esb.Config.{esb_set_channel, esb_set_bitrate, esb_set_ack_enabled}
use crazyradio2_firmware.Esb.Send.{Air}
use crazyradio2_firmware.Esb.Unnoticed.{esb_send_packet-Unnoticed}
use crazyradio2_firmware.Usb.State.Carries.{Carries, Carries-refl, Carries-trans}
use crazyradio2_firmware.Usb.State.Partial.{Allows, Allows-bind, Allows-mono}
use crazyradio2_firmware.Usb.State.{Usb, DataCommand, memcpy}
use crazyradio2_firmware.Usb.Data.{
  thread_send, load_packet, inline_payload_length, apply_inline_header, prepare,
}

-- The settings that decide on the answer, and what has been written so far.
pub record Same (u u' : Usb) : Type 0 where
  pub inline_same : u'.inline_mode ≡ u.inline_mode
  pub rssi_mode_same : u'.inline_rssi_mode ≡ u.inline_rssi_mode
  pub acks_same : u'.ack_enabled ≡ u.ack_enabled
  pub datarate_same : u'.datarate ≡ u.datarate
  pub channel_same : u'.channel ≡ u.channel
  pub answer_same : u'.usb_answer ≡ u.usb_answer
  pub carried : Carries by_usb by_usb u u'
  pub writes_same : writes u'.radio.calls ≡ writes u.radio.calls

pub Same-refl : (u : Usb) → Same u u
Same-refl u = ground (arith, Carries-refl {l = by_usb} u)

pub Same-trans : (u v w : Usb) → Same u v → Same v w → Same u w
Same-trans u v w h k = ground (arith, h, k, Carries-trans u v w h.carried k.carried)

pub thread_send-Same : (air : Air) (u : Usb) → Allows (λ r. Same u r.0) (thread_send air u)
unfolding thread_send
thread_send-Same air u = ground (
  arith,
  esb_send_packet-Unnoticed air (u.radio.arc + 1) u.packet u.ack u.rssi u.arc_counter u.radio,
)

load_packet-Same : (src : List ℕ) (n : ℕ) (u : Usb) → Allows (Same u) (load_packet src n u)
unfolding load_packet memcpy
load_packet-Same src n u = ground arith

-- The state in which the command is sent: the header of the inline mode is in force.
pub with_header : ℕ → DataCommand → Usb → Usb
with_header prefix0 c u = if u.inline_mode then apply_inline_header prefix0 c.payload u else u

with_header-inline :
    (prefix0 : ℕ) (c : DataCommand) (u : Usb)
    → u.inline_mode ≡ true
    → with_header prefix0 c u ≡ apply_inline_header prefix0 c.payload u
unfolding with_header
with_header-inline prefix0 c u h =
    ap (λ b. if b then apply_inline_header prefix0 c.payload u else u) h

with_header-plain :
    (prefix0 : ℕ) (c : DataCommand) (u : Usb) → u.inline_mode ≡ false → with_header prefix0 c u ≡ u
unfolding with_header
with_header-plain prefix0 c u h =
    ap (λ b. if b then apply_inline_header prefix0 c.payload u else u) h

pub with_header-writes :
    (prefix0 : ℕ) (c : DataCommand) (u : Usb)
    → (writes (with_header prefix0 c u).radio.calls ≡ writes u.radio.calls)
      × ((with_header prefix0 c u).usb_answer ≡ u.usb_answer)
unfolding with_header apply_inline_header esb_set_address esb_set_ack_enabled esb_set_bitrate
    esb_set_channel
with_header-writes prefix0 c u = ground arith

pub with_header-Carries :
    (prefix0 : ℕ) (c : DataCommand) (u : Usb) → Carries by_usb by_usb u (with_header prefix0 c u)
unfolding with_header apply_inline_header esb_set_address esb_set_ack_enabled esb_set_bitrate
    esb_set_channel
with_header-Carries prefix0 c u = ground arith

pub prepare-Same :
    (first : Air) (prefix0 : ℕ) (c : DataCommand) (u : Usb)
    → Allows (Same (with_header prefix0 c u)) (prepare first prefix0 c u)
unfolding prepare
prepare-Same first prefix0 c u =
    let half = c.length / 2 in
    elim (Bool-cases u.inline_mode) [
      | inl inline ↦
          let v = apply_inline_header prefix0 c.payload u in
          rw (with_header-inline prefix0 c u inline) (
            if_rule (Allows (Same v)) u.inline_mode _ _
              (λ _.
                load_packet-Same (drop 8 c.payload) (inline_payload_length (get_or c.payload 0 0))
                  v)
              (λ h. absurd (ground arith)))
      | inr plain ↦ rw (with_header-plain prefix0 c u plain) (
          if_rule (Allows (Same u)) u.inline_mode _ _ (λ h. absurd (ground arith))
            (λ _.
              if_rule (Allows (Same u)) (not u.ack_enabled && ltb 32 c.length) _ _
                (λ _.
                  Allows-bind (Same u) _ (load_packet c.payload half u) _
                    (load_packet-Same c.payload half u)
                    (λ loaded e.
                      Allows-bind (λ r. Same u r.0) _ (thread_send first loaded) _
                        (Allows-mono (λ r. Same loaded r.0) _ _ (λ r d. Same-trans u loaded r.0 e d)
                          (thread_send-Same first loaded))
                        (λ sent f.
                          Allows-mono (Same sent.0) _ _ (λ w g. Same-trans u sent.0 w f g)
                            (load_packet-Same (drop half c.payload) half sent.0))))
                (λ _. load_packet-Same c.payload (if ltb 32 c.length then 32 else c.length) u)))
    ]
