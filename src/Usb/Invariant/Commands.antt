-- ===== src/Usb/Invariant/Commands.antt =====
-- The setup commands keep the invariant.
use crazyradio2_firmware.Base.{
  ℕ, Bool, true, false, not, List, arith, if◌then◌else◌, bit_and, ◌==◌, get_or, min, ltb, ◌&&◌,
}
use crazyradio2_firmware.Esb.State.{Esb}
use crazyradio2_firmware.Esb.Isr.{Irq}
use crazyradio2_firmware.Esb.Config.{esb_set_channel, esb_set_bitrate, esb_set_ack_enabled}
use crazyradio2_firmware.Esb.Sniffer.{esb_sniffer_start, esb_sniffer_stop}
use crazyradio2_firmware.Esb.Api.{
  ApiCall, set_arc, set_continuous_carrier, set_address, set_address_pipe1,
  set_packet_loss_simulation, sniffer_stop, step,
}
use crazyradio2_firmware.Esb.Api.Invariant.{Inv, step-Inv}
use crazyradio2_firmware.Fem.{fem_set_power, write_register}
use crazyradio2_firmware.Led.{led_set_blue}
use crazyradio2_firmware.Usb.State.{Usb, SetupCommand, ◌▹▹▹◌}
use crazyradio2_firmware.Usb.Command
use crazyradio2_firmware.Usb.Command.{
  change_channel, change_datarate, change_ack, address_at, power_mapping, inline_mode_on_with_rssi,
  asks, set_radio_channel, set_radio_address, set_data_rate, set_radio_power, set_radio_ard,
  set_radio_arc, ack_enable, set_cont_carrier, set_mode, set_inline_mode, set_radio_mode,
  set_sniffer_address, enter_sniffer, leave_sniffer, handle_vendor_command,
}
use crazyradio2_firmware.Usb.Invariant.{UsbInv}

-- Both ways of a test keep the invariant.
if_both : (b : Bool) (x y : Usb) → UsbInv x → UsbInv y → UsbInv (if b then x else y)
if_both true x y p q = p
if_both false x y p q = q

-- A call of the radio's interface.
radio_call : (c : ApiCall) (u : Usb) → UsbInv u → Inv (step c u.radio)
radio_call c u v = step-Inv c u.radio v.radio_inv

-- The radio changes, and the arrays do not.
with_radio : (e : Esb) (u : Usb) → UsbInv u → Inv e → UsbInv (record u { radio = e })
with_radio e u v w = ground (arith, v, w)

module _ (u : Usb) (v : UsbInv u) where
  change_channel-UsbInv : (w_value : ℕ) → UsbInv (change_channel w_value u)
  unfolding change_channel esb_set_channel
  change_channel-UsbInv w_value = ground (arith, v, v.radio_inv)

  change_datarate-UsbInv : (datarate : ℕ) → UsbInv (change_datarate datarate u)
  unfolding change_datarate esb_set_bitrate
  change_datarate-UsbInv datarate = ground (arith, v, v.radio_inv)

  change_ack-UsbInv : (enabled : Bool) → UsbInv (change_ack enabled u)
  unfolding change_ack esb_set_ack_enabled
  change_ack-UsbInv enabled = ground (arith, v, v.radio_inv)

  enter_sniffer-UsbInv : UsbInv (enter_sniffer u)
  unfolding enter_sniffer esb_sniffer_start led_set_blue
  enter_sniffer-UsbInv = ground (arith, v, v.radio_inv)

  leave_sniffer-UsbInv : (irqs : List Irq) → UsbInv (leave_sniffer irqs u)
  unfolding leave_sniffer led_set_blue step
  leave_sniffer-UsbInv irqs =
      let stopped : Inv (esb_sniffer_stop irqs u.radio) = radio_call (sniffer_stop irqs) u v in
      ground (arith, v, stopped)

  power-UsbInv : (value : ℕ) → UsbInv (u ▹▹▹ fem_set_power (get_or power_mapping (min value 3) 0))
  unfolding fem_set_power write_register
  power-UsbInv value = ground (arith, v, v.radio_inv)

  pub handle_vendor_command-UsbInv :
      (prefix0 : ℕ) (irqs : List Irq) (c : SetupCommand)
      → UsbInv (handle_vendor_command prefix0 irqs c u)
  unfolding handle_vendor_command step
  handle_vendor_command-UsbInv prefix0 irqs c =
      let p = c.setup_packet in
      let value = p.w_value in
      let a = address_at c.bytes 0 in
      let call : (k : ApiCall) → UsbInv (record u { radio = step k u.radio }) =
        λ k. with_radio _ u v (radio_call k u v) in
      let without_inline : (e : Esb)
          → UsbInv (record u { radio = e })
          → UsbInv (record u { radio = e; inline_mode = false }) =
        λ e w. ground (arith, w) in
      let with_modes : (m r : Bool) → UsbInv (record u { inline_mode = m; inline_rssi_mode = r }) =
        λ m r. ground (arith, v) in
      if_both (asks p set_radio_channel 0) _ _ (change_channel-UsbInv value) (
        if_both (asks p set_radio_address 5) _ _ (without_inline _ (call (set_address a prefix0))) (
          if_both (asks p set_data_rate 0 && ltb value 3) _ _ (change_datarate-UsbInv value) (
            if_both (asks p set_radio_power 0) _ _ (power-UsbInv value) (
              if_both (asks p set_radio_ard 0) _ _ v (
                if_both (asks p set_radio_arc 0) _ _ (call (set_arc (bit_and value 0x0f))) (
                  if_both (asks p ack_enable 0) _ _ (change_ack-UsbInv (not (value == 0))) (
                    if_both (asks p set_cont_carrier 0) _ _
                      (call (set_continuous_carrier (not (value == 0))))
                      (if_both (asks p set_mode 0) _ _ v (
                        if_both (asks p set_radio_mode 0) _ _
                          (if_both (value == 1) _ _ enter_sniffer-UsbInv
                            (if_both (value == 0) _ _ (leave_sniffer-UsbInv irqs) v))
                          (if_both (asks p set_sniffer_address 5) _ _
                            (if_both (value == 0) _ _ (call (set_address a prefix0))
                              (if_both (value == 1) _ _ (call (set_address_pipe1 a prefix0)) v))
                            (if_both (asks p set_inline_mode 0) _ _
                              (with_modes (not (value == 0)) (value == inline_mode_on_with_rssi))
                              (if_both (asks p Command.set_packet_loss_simulation 2) _ _
                                (call (
                                  set_packet_loss_simulation (get_or c.bytes 0 0)
                                    (get_or c.bytes 1 0)))
                                v))))))))))))
