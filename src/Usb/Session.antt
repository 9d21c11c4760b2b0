-- ===== src/Usb/Session.antt =====
-- The USB side as a whole: `usb_thread` of src/legacy_usb.c, one round of its loop at a time, with
-- control requests and sniffed packets between the rounds, in any order.
pub mod Safety
use crazyradio2_firmware.Base.{ℕ, if◌then◌else◌, Bool, Option, none, some, List, [], ◌∷◌}
use crazyradio2_firmware.Esb.State.{SnifferPacket}
use crazyradio2_firmware.Esb.Isr.{Irq}
use crazyradio2_firmware.Esb.Send.{Air}
use crazyradio2_firmware.Esb.Sniffer.{SnifferAir}
use crazyradio2_firmware.Usb.State.{Usb, SetupPacket, Outcome, ok, fault, out_of_fuel, ◌>>=◌}
use crazyradio2_firmware.Usb.Vendor.{VendorState, crazyradio_vendor_handler}
use crazyradio2_firmware.Usb.Data.{UsbCommand, normal_round}
use crazyradio2_firmware.Usb.Stream.{sniffer_rx_callback, sniffer_round}

-- What the world does during one round of the loop, and what the two queues hand out.
pub record Turn : Type 0 where
  pub first : Air
  pub air : Air
  pub sniffer_air : SnifferAir
  pub prefix0 : ℕ
  pub irqs : List Irq
  pub command : Option UsbCommand
  pub received : Option SnifferPacket

-- One round of the loop. Out of the sniffer mode it waits for a command.
unfoldable pub usb_thread_round : Turn → Usb → Outcome Usb
usb_thread_round t u =
    if u.sniffer_mode
    then sniffer_round t.sniffer_air t.prefix0 t.irqs t.command t.received u
    else elim t.command [ none ↦ ok u | some c ↦ normal_round t.first t.air t.prefix0 t.irqs c u ]

pub data Event : Type 0 where
  round : Turn → Event
  request : (ℕ → Air) → SetupPacket → (len : ℕ) → List ℕ → Event
  sniffed_packet : (put : Bool) → Event

unfoldable pub handle : Event → VendorState → Outcome VendorState
handle (round t) v = usb_thread_round t v.usb >>= λ u. ok (record v { usb = u })
handle (request airs p len bytes) v = crazyradio_vendor_handler airs p len bytes v >>= λ r. ok r.0
handle (sniffed_packet put) v = ok (record v { usb = sniffer_rx_callback put v.usb })

unfoldable pub run_events : List Event → VendorState → Outcome VendorState
run_events [] v = ok v
run_events (e ∷ es) v = handle e v >>= λ v'. run_events es v'
