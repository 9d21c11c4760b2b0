-- ===== src/Usb/Session/Safety.antt =====
-- No sequence of rounds, requests and sniffed packets leads to a fault.
use crazyradio2_firmware.Base.{
  ℕ, ◌≤◌, ◌<◌, ◌≡◌, true, min, Option, none, some, List, [], ◌∷◌, length, arith, get_or, if_rule,
}
use crazyradio2_firmware.Esb.Send.Buffers.{Receives}
use crazyradio2_firmware.Usb.State.{Usb, ok, Gives, Gives-bind}
use crazyradio2_firmware.Usb.Vendor.{VendorState, crazyradio_vendor_handler}
use crazyradio2_firmware.Usb.Vendor.Requests.{VendorInv, Fits, crazyradio_vendor_handler-VendorInv}
use crazyradio2_firmware.Usb.Data.{UsbCommand, data_command, setup_command, normal_round}
use crazyradio2_firmware.Usb.Stream.{sniffer_rx_callback}
use crazyradio2_firmware.Usb.Invariant.{UsbInv, HasRoom, IsCommand}
use crazyradio2_firmware.Usb.Invariant.Data.{stays_inside}
use crazyradio2_firmware.Usb.Invariant.Rounds.{
  IsSafe, IsSound, AllSniffed, normal_round-UsbInv, sniffer_round-UsbInv,
}
use crazyradio2_firmware.Usb.Session.{
  Turn, usb_thread_round, Event, round, request, sniffed_packet, handle, run_events,
}

-- A command that stays inside the arrays in every mode: no transfer of 128 bytes, and a first byte
-- that counts the inline header.
abbrev pub IsTame : Option UsbCommand → Type 0
IsTame none = Unit
IsTame (some (setup_command c)) = Unit
IsTame (some (data_command c)) =
    IsCommand c × (c.length < 128) × (8 ≤ get_or c.payload 0 0) × (get_or c.payload 0 0 < 256)

-- What the radio writes into a buffer has the buffer's size, and a request's data is there.
abbrev pub IsSane : Event → Type 0
IsSane (round t) =
    Receives HasRoom t.first × Receives HasRoom t.air × IsTame t.command × AllSniffed t.received
IsSane (request airs p len bytes) =
    ((c : ℕ) → Receives HasRoom (airs c))
    × (len ≤ length bytes)
    × (min 32 p.w_length ≤ length bytes)
IsSane (sniffed_packet put) = Unit

abbrev pub AllSane : List Event → Type 0
AllSane [] = Unit
AllSane (e ∷ es) = IsSane e × AllSane es

pub IsTame-IsSound : (command : Option UsbCommand) → IsTame command → IsSound command
IsTame-IsSound none h = tt
IsTame-IsSound (some (setup_command c)) h = tt
IsTame-IsSound (some (data_command c)) h = h.0

pub IsTame-IsSafe : (c : UsbCommand) (u : Usb) → IsTame (some c) → IsSafe c u
IsTame-IsSafe (setup_command c) u h = tt
IsTame-IsSafe (data_command c) u h =
    let inside : stays_inside c u ≡ true = ground (arith, h) in (h.0, h.3, inside)

waiting-UsbInv :
    (t : Turn) (command : Option UsbCommand) (u : Usb)
    → Receives HasRoom t.first
    → Receives HasRoom t.air
    → IsTame command
    → UsbInv u
    → Gives UsbInv
        (elim command [ none ↦ ok u | some c ↦ normal_round t.first t.air t.prefix0 t.irqs c u ])
waiting-UsbInv t none u got got' tame v = v
waiting-UsbInv t (some c) u got got' tame v =
    normal_round-UsbInv t.first t.air t.prefix0 t.irqs c u got got' (IsTame-IsSafe c u tame) v

usb_thread_round-UsbInv :
    (t : Turn) (u : Usb) → IsSane (round t) → UsbInv u → Gives UsbInv (usb_thread_round t u)
unfolding usb_thread_round
usb_thread_round-UsbInv t u sane v =
    if_rule (Gives UsbInv) u.sniffer_mode _ _
      (λ _.
        sniffer_round-UsbInv t.sniffer_air t.prefix0 t.irqs t.command t.received u
          (IsTame-IsSound t.command sane.2) sane.3 v)
      (λ _. waiting-UsbInv t t.command u sane.0 sane.1 sane.2 v)

handle-VendorInv :
    (e : Event) (v : VendorState) → IsSane e → VendorInv v → Gives VendorInv (handle e v)
unfolding handle sniffer_rx_callback
handle-VendorInv (round t) v sane inv =
    Gives-bind UsbInv _ (usb_thread_round t v.usb) _
      (usb_thread_round-UsbInv t v.usb sane inv.usb_inv)
      (λ u w. record { usb_inv = w; command_room = inv.command_room })
handle-VendorInv (request airs p len bytes) v sane inv =
    Gives-bind (λ r. VendorInv r.0 × Fits p r.1) _ (crazyradio_vendor_handler airs p len bytes v) _
      (crazyradio_vendor_handler-VendorInv airs p bytes v inv len sane.0 sane.1 sane.2) (λ r w. w.0)
handle-VendorInv (sniffed_packet put) v sane inv = ground (arith, inv, inv.usb_inv)

-- After any sequence of rounds of the thread, control requests and sniffed packets, in any modes
-- and whatever the radio does, nothing has copied past an array, no send has run out of fuel, and
-- the invariant holds, given that no command is of 128 bytes or has a first byte below 8, that the
-- radio fills whole buffers, and that the data of a request is there.
pub run_events-VendorInv :
    (es : List Event) (v : VendorState)
    → AllSane es
    → VendorInv v
    → Gives VendorInv (run_events es v)
unfolding run_events
run_events-VendorInv [] v sane inv = inv
run_events-VendorInv (e ∷ es) v sane inv =
    Gives-bind VendorInv _ (handle e v) _ (handle-VendorInv e v sane.0 inv)
      (λ v' inv'. run_events-VendorInv es v' sane.1 inv')
