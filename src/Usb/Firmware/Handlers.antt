-- ===== src/Usb/Firmware/Handlers.antt =====
-- What the commands make of the drop counter and of what the callback is given.
use crazyradio2_firmware.Base.{ℕ, List, arith}
use crazyradio2_firmware.Platform.{◌▹◌, mutex_lock, mutex_unlock, usb_radio_mutex}
use crazyradio2_firmware.Platform.Trace.{unlocked, by_usb}
use crazyradio2_firmware.Esb.Isr.{Irq}
use crazyradio2_firmware.Esb.Send.{Air}
use crazyradio2_firmware.Esb.Sniffer.{SnifferAir}
use crazyradio2_firmware.Usb.State.{Usb, SetupCommand, ◌▹▹▹◌}
use crazyradio2_firmware.Usb.State.Partial.{Allows, Allows-bind}
use crazyradio2_firmware.Usb.State.Carries.{Carries}
use crazyradio2_firmware.Usb.Command.{handle_vendor_command}
use crazyradio2_firmware.Usb.Data.{
  UsbCommand, data_command, setup_command, normal_round, handle_data,
}
use crazyradio2_firmware.Usb.Stream.{sniffer_command}
use crazyradio2_firmware.Usb.Stream.Carried.{sniffer_broadcast-Carries}
use crazyradio2_firmware.Usb.Invariant.Carried.{
  handle_data-Carries, handle_vendor_command-Carries, handle_vendor_command-enters,
}
use crazyradio2_firmware.Usb.Firmware.Kept.{Commanded}

-- What a setup command makes of the counter, under the mutex.
vendor_command-Commanded :
    (prefix0 : ℕ) (irqs : List Irq) (c : SetupCommand) (u : Usb)
    → Commanded (setup_command c) u (
        handle_vendor_command prefix0 irqs c (u ▹▹▹ (λ t. t ▹ mutex_lock usb_radio_mutex))
        ▹▹▹ (λ t. t ▹ mutex_unlock usb_radio_mutex))
vendor_command-Commanded prefix0 irqs c u =
    let locked = u ▹▹▹ (λ t. t ▹ mutex_lock usb_radio_mutex) in
    (
      (λ stays.
          let kept = handle_vendor_command-Carries locked prefix0 irqs c stays in
          ground (arith, kept)),
      (λ enters. ground (arith, handle_vendor_command-enters prefix0 irqs c locked enters)),
    )

pub sniffer_command-Commanded :
    (air : SnifferAir) (prefix0 : ℕ) (irqs : List Irq) (c : UsbCommand) (u : Usb)
    → Allows (Commanded c u) (sniffer_command air prefix0 irqs c u)
unfolding sniffer_command
sniffer_command-Commanded air prefix0 irqs (data_command c) u = sniffer_broadcast-Carries air c u
sniffer_command-Commanded air prefix0 irqs (setup_command c) u =
    vendor_command-Commanded prefix0 irqs c u

pub normal_round-Commanded :
    (first air : Air) (prefix0 : ℕ) (irqs : List Irq) (c : UsbCommand) (u : Usb)
    → Allows (Commanded c u) (normal_round first air prefix0 irqs c u)
unfolding normal_round
normal_round-Commanded first air prefix0 irqs (data_command c) u =
    let locked = u ▹▹▹ (λ t. t ▹ mutex_lock usb_radio_mutex) in
    Allows-bind (Carries by_usb by_usb locked) (Carries unlocked unlocked u)
      (handle_data first air prefix0 c locked) _ (handle_data-Carries first air prefix0 c locked)
      (λ u' h. ground (arith, h))
normal_round-Commanded first air prefix0 irqs (setup_command c) u =
    vendor_command-Commanded prefix0 irqs c u
