-- ===== src/Usb/Invariant/Carried.antt =====
-- Which handlers leave the drop counter alone, and what they hand the sniffer's callback.
use crazyradio2_firmware.Base.{
  ℕ, u8, ◌≡◌, refl, Bool, true, false, not, ◌&&◌, ◌||◌, ◌==◌, List, [], ◌∷◌, arith, ltb, leb,
  if◌then◌else◌, if_rule,
}
use crazyradio2_firmware.Platform.Trace.{by_usb, lock_state}
use crazyradio2_firmware.Fem.{fem_set_power, write_register}
use crazyradio2_firmware.Led.{led_set_blue, led_pulse_green, led_pulse_red}
use crazyradio2_firmware.Esb.Isr.{Irq}
use crazyradio2_firmware.Esb.Config.{bitrate_1m, bitrate_2m}
use crazyradio2_firmware.Esb.Send.{Air}
use crazyradio2_firmware.Esb.Sniffer.{esb_sniffer_start}
use crazyradio2_firmware.Esb.Unnoticed.{Unnoticed}
use crazyradio2_firmware.Esb.Unnoticed.Modes.{
  esb_set_channel-Unnoticed, esb_set_bitrate-Unnoticed, esb_set_ack_enabled-Unnoticed,
  esb_set_arc-Unnoticed, esb_set_address-Unnoticed, esb_set_address_pipe1-Unnoticed,
  esb_set_packet_loss_simulation-Unnoticed, esb_set_continuous_carrier-Unnoticed,
  esb_sniffer_stop-Unnoticed,
}
use crazyradio2_firmware.Usb.State.{Usb, DataCommand, SetupCommand, memcpy, ◌▹▹▹◌}
use crazyradio2_firmware.Usb.State.Partial.{Allows-bind, Allows-mono}
use crazyradio2_firmware.Usb.State.Carries.{Carrying, Carries, Carries-refl, Carries-trans}
use crazyradio2_firmware.Usb.Command.{
  set_radio_channel, set_radio_address, set_data_rate, set_radio_power, set_radio_ard,
  set_radio_arc, ack_enable, set_cont_carrier, set_mode, set_inline_mode, set_sniffer_address,
  address_at, set_packet_loss_simulation, asks, set_radio_mode, change_channel, change_datarate,
  change_ack, enter_sniffer, leave_sniffer, is_entering, handle_vendor_command,
}
use crazyradio2_firmware.Usb.Data.{
  thread_send, prepare, answer_inline, answer_plain, cap_ack, answer_by_mode, answer_sent,
  sent_flags, answer_invalid, handle_data,
}
use crazyradio2_firmware.Usb.Data.Settings.{
  Same, thread_send-Same, prepare-Same, with_header, with_header-Carries,
}

module _ (u : Usb) where
  -- Other settings leave both as they are.
  setting-Carries :
      (u' : Usb)
      → u'.sniffer_drop_count ≡ u.sniffer_drop_count
      → Unnoticed by_usb by_usb u.radio u'.radio
      → Carries by_usb by_usb u u'
  setting-Carries u' d h = record {
    drops_same = d;
    fit_kept = h.fit_kept;
    locks_move = h.locks_move;
  }

  change_channel-Carries : (value : ℕ) → Carries by_usb by_usb u (change_channel value u)
  unfolding change_channel
  change_channel-Carries value =
      setting-Carries _ refl (ground (arith, esb_set_channel-Unnoticed u.radio (u8 value)))

  change_datarate-Carries : (value : ℕ) → Carries by_usb by_usb u (change_datarate value u)
  unfolding change_datarate
  change_datarate-Carries value = setting-Carries _ refl (
      ground (
        arith,
        esb_set_bitrate-Unnoticed u.radio bitrate_1m,
        esb_set_bitrate-Unnoticed u.radio bitrate_2m,
      ))

  change_ack-Carries : (enabled : Bool) → Carries by_usb by_usb u (change_ack enabled u)
  unfolding change_ack
  change_ack-Carries enabled =
      setting-Carries _ refl (esb_set_ack_enabled-Unnoticed u.radio enabled)

  set_power-Carries : (power : ℕ) → Carries by_usb by_usb u (u ▹▹▹ fem_set_power power)
  unfolding fem_set_power write_register
  set_power-Carries power = setting-Carries _ refl (ground arith)

  leave_sniffer-Carries : (irqs : List Irq) → Carries by_usb by_usb u (leave_sniffer irqs u)
  unfolding leave_sniffer led_set_blue
  leave_sniffer-Carries irqs =
      setting-Carries _ refl (ground (arith, esb_sniffer_stop-Unnoticed u.radio irqs))

  pub handle_vendor_command-Carries :
      (prefix0 : ℕ) (irqs : List Irq) (c : SetupCommand)
      → is_entering c ≡ false
      → Carries by_usb by_usb u (handle_vendor_command prefix0 irqs c u)
  unfolding handle_vendor_command
  handle_vendor_command-Carries prefix0 irqs c other =
      let p = c.setup_packet in
      let value = p.w_value in
      let s = u.radio in
      let a = address_at c.bytes 0 in
      let same : Carries by_usb by_usb u u = Carries-refl u in
      let either : (b : Bool) (x y : Usb)
          → Carries by_usb by_usb u x
          → Carries by_usb by_usb u y
          → Carries by_usb by_usb u (if b then x else y) =
        λ b x y h k. if_rule (Carries by_usb by_usb u) b x y (λ _. h) (λ _. k) in
      either (asks p set_radio_channel 0) _ _ (change_channel-Carries value) (
        either (asks p set_radio_address 5) _ _
          (setting-Carries _ refl (esb_set_address-Unnoticed s a prefix0))
          (either (asks p set_data_rate 0 && ltb value 3) _ _ (change_datarate-Carries value) (
            either (asks p set_radio_power 0) _ _ (set_power-Carries _) (
              either (asks p set_radio_ard 0) _ _ same (
                either (asks p set_radio_arc 0) _ _
                  (setting-Carries _ refl (esb_set_arc-Unnoticed s _))
                  (either (asks p ack_enable 0) _ _ (change_ack-Carries (not (value == 0))) (
                    either (asks p set_cont_carrier 0) _ _
                      (setting-Carries _ refl
                        (esb_set_continuous_carrier-Unnoticed s (not (value == 0))))
                      (either (asks p set_mode 0) _ _ same (
                        if_rule (Carries by_usb by_usb u) (asks p set_radio_mode 0) _ _
                          (λ moded.
                            if_rule (Carries by_usb by_usb u) (value == 1) _ _
                              (λ entering. absurd (ground (arith, other, moded, entering)))
                              (λ _. either (value == 0) _ _ (leave_sniffer-Carries irqs) same))
                          (λ _.
                            either (asks p set_sniffer_address 5) _ _
                              (either (value == 0) _ _
                                (setting-Carries _ refl (esb_set_address-Unnoticed s a prefix0))
                                (either (value == 1) _ _
                                  (setting-Carries _ refl
                                    (esb_set_address_pipe1-Unnoticed s a prefix0))
                                  same))
                              (either (asks p set_inline_mode 0) _ _
                                (setting-Carries _ refl (record {
                                  writes_same = refl;
                                  fit_kept = λ h. h;
                                  locks_move = λ h. h;
                                }))
                                (either (asks p set_packet_loss_simulation 2) _ _
                                  (setting-Carries _ refl
                                    (esb_set_packet_loss_simulation-Unnoticed s _ _))
                                  same))))))))))))

-- Starting the sniffer clears the counter, and hands nothing over.
pub handle_vendor_command-enters :
    (prefix0 : ℕ) (irqs : List Irq) (c : SetupCommand) (u : Usb)
    → is_entering c ≡ true
    → let u' = handle_vendor_command prefix0 irqs c u in
      (u'.sniffer_drop_count ≡ 0)
      × (u'.radio.delivered ≡ u.radio.delivered)
      × (lock_state u.radio.calls ≡ by_usb → lock_state u'.radio.calls ≡ by_usb)
unfolding handle_vendor_command enter_sniffer esb_sniffer_start led_set_blue
handle_vendor_command-enters prefix0 irqs c u enters = ground (arith, enters)

answer_inline-Carries :
    (size : ℕ) (header : List ℕ) (acked : Bool) (u : Usb)
    → Carrying by_usb by_usb u (answer_inline size header acked u)
unfolding answer_inline memcpy
answer_inline-Carries size header acked u = ground arith

answer_plain-Carries : (acked : Bool) (u : Usb) → Carrying by_usb by_usb u (answer_plain acked u)
unfolding answer_plain led_pulse_green
answer_plain-Carries acked u = ground arith

answer_by_mode-Carries :
    (acked : Bool) (u : Usb) → Carrying by_usb by_usb u (answer_by_mode acked u)
unfolding answer_by_mode
answer_by_mode-Carries acked u =
    if_rule (Carrying by_usb by_usb u) (u.inline_mode && not u.inline_rssi_mode) _ _
      (λ _. answer_inline-Carries 2 (sent_flags acked u ∷ []) acked u)
      (λ _.
        if_rule (Carrying by_usb by_usb u) (u.inline_mode && u.inline_rssi_mode) _ _
          (λ _. answer_inline-Carries 3 (sent_flags acked u ∷ u.rssi ∷ []) acked u)
          (λ _. answer_plain-Carries acked u))

answer_sent-Carries : (acked : Bool) (u : Usb) → Carrying by_usb by_usb u (answer_sent acked u)
unfolding answer_sent cap_ack led_pulse_green led_pulse_red
answer_sent-Carries acked u =
    let v =
      cap_ack
        (if acked || not u.ack_enabled then u ▹▹▹ led_pulse_green 50 else u ▹▹▹ led_pulse_red 50) in
    let before : Carries by_usb by_usb u v = ground arith in
    Allows-mono (Carries by_usb by_usb v) _ _ (λ u' h. Carries-trans u v u' before h)
      (answer_by_mode-Carries acked v)

answer_invalid-Carries : (u : Usb) → Carries by_usb by_usb u (answer_invalid u)
unfolding answer_invalid led_pulse_red
answer_invalid-Carries u = ground arith

pub handle_data-Carries :
    (first air : Air) (prefix0 : ℕ) (c : DataCommand) (u : Usb)
    → Carrying by_usb by_usb u (handle_data first air prefix0 c u)
unfolding handle_data
handle_data-Carries first air prefix0 c u =
    let start = with_header-Carries prefix0 c u in
    Allows-bind (Same (with_header prefix0 c u)) _ (prepare first prefix0 c u) _
      (prepare-Same first prefix0 c u)
      (λ prepared d.
        let carried = Carries-trans u _ prepared start d.carried in
        if_rule (Carrying by_usb by_usb u)
          (not (prepared.datarate == 0) && leb prepared.channel 100) _ _
          (λ _.
            Allows-bind (λ r. Same prepared r.0) _ (thread_send air prepared) _
              (thread_send-Same air prepared)
              (λ sent e.
                let carried' = Carries-trans u prepared sent.0 carried e.carried in
                Allows-mono (Carries by_usb by_usb sent.0) _ _
                  (λ u' h. Carries-trans u sent.0 u' carried' h)
                  (answer_sent-Carries sent.1 sent.0)))
          (λ _. Carries-trans u prepared _ carried (answer_invalid-Carries prepared)))
