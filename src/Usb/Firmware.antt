-- ===== src/Usb/Firmware.antt =====
-- src/legacy_usb.c as a whole: the callbacks of the USB stack, `usb_thread` and the interrupt
-- handler, with the two queues between them. Handlers run one after the other, in any order.
pub mod Commands
pub mod Packets
pub mod Kept
pub mod Taking
pub mod Handlers
pub mod Transfers
pub mod Runs
pub mod Unmoved
pub mod Draining
pub mod Sides
pub mod Interleaving
pub mod Moments
pub mod Steps
pub mod RoundTrip
pub mod Heard
pub mod Streaming
use crazyradio2_firmware.Base.{
  ℕ, if◌then◌else◌, Bool, true, false, Option, none, some, List, [], ◌∷◌, ◌++◌,
}
use crazyradio2_firmware.Esb.State.{Esb, SnifferPacket}
use crazyradio2_firmware.Esb.Isr.{Irq, radio_isr}
use crazyradio2_firmware.Esb.Send.{Air}
use crazyradio2_firmware.Esb.Sniffer.{SnifferAir}
use crazyradio2_firmware.Usb.State.{
  Usb, DataCommand, SetupPacket, Outcome, ok, fault, out_of_fuel, ◌>>=◌,
}
use crazyradio2_firmware.Usb.Queue.{MsgQueue}
use crazyradio2_firmware.Usb.Out.{OutState}
use crazyradio2_firmware.Usb.Out.Reassembly.{run}
use crazyradio2_firmware.Usb.Vendor.{VendorState, Reply, queued, crazyradio_vendor_handler}
use crazyradio2_firmware.Usb.Data.{UsbCommand, data_command, setup_command, normal_round}
use crazyradio2_firmware.Usb.Stream.{
  sniffer_rx_callback, sniffer_command, is_skipped, stream_packet,
}
use crazyradio2_firmware.Usb.Command.{is_entering}

-- The state with the two queues. `blocked` is the command of a callback that waits in `k_msgq_put`
-- for room. The other fields are logs, oldest first: the commands that the callbacks have made and
-- those that the thread has taken; and since the sniffer mode was entered, the packets that the
-- queue has taken, those that it had no room for, and those that the thread has taken out of it to
-- stream.
pub record Firmware (cq : MsgQueue UsbCommand) (sq : MsgQueue SnifferPacket) : Type 0 where
  pub vendor : VendorState
  pub out : OutState
  pub commands : cq.Q
  pub sniffs : sq.Q
  pub blocked : Option UsbCommand
  pub issued : List UsbCommand
  pub taken : List UsbCommand
  pub accepted : List SnifferPacket
  pub lost : List SnifferPacket
  pub streamed : List SnifferPacket

-- What the world does during one round of the thread.
pub record World : Type 0 where
  pub first : Air
  pub air : Air
  pub sniffer_air : SnifferAir
  pub prefix0 : ℕ
  pub irqs : List Irq

-- A bulk transfer, with its full packets and the short one that ends it, a control request, an interrupt between two rounds, and a
-- round of the thread.
pub data Happening : Type 0 where
  transferred : (full : List (List ℕ)) → (last : List ℕ) → Happening
  requested : (ℕ → Air) → SetupPacket → (len : ℕ) → List ℕ → Happening
  interrupted : Irq → Happening
  turned : World → Happening

module _ {cq : MsgQueue UsbCommand} {sq : MsgQueue SnifferPacket} where
  abbrev pub with_usb : Usb → Firmware cq sq → Firmware cq sq
  with_usb u f = record f { vendor = record f.vendor { usb = u } }

  -- What `k_msgq_put(&command_queue, &command, K_FOREVER)` does, from what the queue says.
  abbrev pub put_command : UsbCommand → Firmware cq sq → Option cq.Q → Firmware cq sq
  put_command c f none = record f { blocked = some c; issued = f.issued ++ c ∷ [] }
  put_command c f (some q) = record f { commands = q; issued = f.issued ++ c ∷ [] }

  -- Lines 185, 205 and 297.
  unfoldable pub issue : UsbCommand → Firmware cq sq → Firmware cq sq
  issue c f = put_command c f (cq.put c f.commands)

  -- A callback that waits for room goes on once there is some.
  abbrev pub put_blocked : Firmware cq sq → Option cq.Q → Firmware cq sq
  put_blocked f none = f
  put_blocked f (some q) = record f { commands = q; blocked = none }

  abbrev pub resume : Firmware cq sq → Option UsbCommand → Firmware cq sq
  resume f none = f
  resume f (some c) = put_blocked f (cq.put c f.commands)

  -- `k_msgq_get(&command_queue, &command, ...)`, lines 372 and 422.
  abbrev pub get_command :
      Firmware cq sq → Option (UsbCommand × cq.Q) → Option UsbCommand × Firmware cq sq
  get_command f none = (none, f)
  get_command f (some r) =
      (some r.0, resume (record f { commands = r.1; taken = f.taken ++ r.0 ∷ [] }) f.blocked)

  unfoldable pub take_command : Firmware cq sq → Option UsbCommand × Firmware cq sq
  take_command f = get_command f (cq.get f.commands)

  -- `sniffer_rx_callback` with its `k_msgq_put(&sniffer_queue, pkt, K_NO_WAIT)`.
  abbrev pub put_packet : SnifferPacket → Firmware cq sq → Option sq.Q → Firmware cq sq
  put_packet p f none = record (with_usb (sniffer_rx_callback false f.vendor.usb) f) {
    lost = f.lost ++ p ∷ [];
  }
  put_packet p f (some q) = record (with_usb (sniffer_rx_callback true f.vendor.usb) f) {
    sniffs = q;
    accepted = f.accepted ++ p ∷ [];
  }

  unfoldable pub receive : SnifferPacket → Firmware cq sq → Firmware cq sq
  receive p f = put_packet p f (sq.put p f.sniffs)

  -- The callback is given these packets, the last of the list first.
  unfoldable pub receive_all : List SnifferPacket → Firmware cq sq → Firmware cq sq
  receive_all [] f = f
  receive_all (p ∷ ps) f = receive p (receive_all ps f)

  -- What the radio's part has noted for the callback is handed to it.
  unfoldable pub settle : Firmware cq sq → Firmware cq sq
  settle f =
      let u = f.vendor.usb in
      receive_all u.radio.delivered
        (with_usb (record u { radio = record u.radio { delivered = [] } }) f)

  -- The purge of line 680.
  unfoldable pub purged : UsbCommand → Firmware cq sq → Firmware cq sq
  purged (data_command c) f = f
  purged (setup_command c) f =
      if is_entering c
      then record f { sniffs = sq.purge f.sniffs; accepted = []; lost = []; streamed = [] }
      else f

  -- Lines 400 to 418.
  abbrev pub get_packet : Firmware cq sq → Option (SnifferPacket × sq.Q) → Outcome (Firmware cq sq)
  get_packet f none = ok f
  get_packet f (some r) = stream_packet r.0 f.vendor.usb >>= λ u.
      ok (record (with_usb u f) { sniffs = r.1; streamed = f.streamed ++ r.0 ∷ [] })

  unfoldable pub poll_sniffer : Firmware cq sq → Outcome (Firmware cq sq)
  poll_sniffer f = get_packet f (sq.get f.sniffs)

  -- A round with a command, and one of the sniffer mode without.
  unfoldable pub command_round : World → UsbCommand → Firmware cq sq → Outcome (Firmware cq sq)
  command_round w c f =
      let u = f.vendor.usb in
      if u.sniffer_mode
      then (sniffer_command w.sniffer_air w.prefix0 w.irqs c u >>= λ u'.
          let done = settle (purged c (with_usb u' f)) in
          if is_skipped (some c) then ok done else poll_sniffer done)
      else (normal_round w.first w.air w.prefix0 w.irqs c u >>= λ u'.
          ok (settle (purged c (with_usb u' f))))

  abbrev pub round_with : World → Option UsbCommand × Firmware cq sq → Outcome (Firmware cq sq)
  round_with w (none, f) = if f.vendor.usb.sniffer_mode then poll_sniffer f else ok f
  round_with w (some c, f) = command_round w c f

  unfoldable pub thread_round : World → Firmware cq sq → Outcome (Firmware cq sq)
  thread_round w f = round_with w (take_command f)

  -- An interrupt between two rounds.
  unfoldable pub interrupt : Irq → Firmware cq sq → Firmware cq sq
  interrupt q f =
      let u = f.vendor.usb in settle (with_usb (record u { radio = radio_isr q u.radio }) f)

  abbrev pub reply_issues : Reply → Firmware cq sq → Firmware cq sq
  reply_issues (queued c) f = issue (setup_command c) f
  reply_issues _ f = f

  -- The callback is called for each packet of a transfer.
  abbrev pub issue_all : List DataCommand → Firmware cq sq → Firmware cq sq
  issue_all [] f = f
  issue_all (c ∷ cs) f = issue_all cs (issue (data_command c) f)

  unfoldable pub bulk_transfer : List (List ℕ) → List ℕ → Firmware cq sq → Firmware cq sq
  bulk_transfer full last f =
      let done = run (full ++ last ∷ []) f.out in issue_all done.1 (record f { out = done.0 })

  -- A control request, with the command that the handler makes of it.
  unfoldable pub control_request :
      (ℕ → Air) → SetupPacket → (len : ℕ) → List ℕ → Firmware cq sq → Outcome (Firmware cq sq)
  control_request airs p len bytes f = crazyradio_vendor_handler airs p len bytes f.vendor >>= λ r.
      ok (reply_issues r.1 (record f { vendor = r.0 }))

  -- While a callback waits, the USB stack makes no other.
  abbrev pub unless_blocked :
      Option UsbCommand → Outcome (Firmware cq sq) → Firmware cq sq → Outcome (Firmware cq sq)
  unless_blocked none o f = o
  unless_blocked (some c) o f = ok f

  unfoldable pub happen : Happening → Firmware cq sq → Outcome (Firmware cq sq)
  happen (transferred full last) f = unless_blocked f.blocked (ok (bulk_transfer full last f)) f
  happen (requested airs p len bytes) f =
      unless_blocked f.blocked (control_request airs p len bytes f) f
  happen (interrupted q) f = ok (interrupt q f)
  happen (turned w) f = thread_round w f

  unfoldable pub run_all : List Happening → Firmware cq sq → Outcome (Firmware cq sq)
  run_all [] f = ok f
  run_all (h ∷ hs) f = happen h f >>= λ f'. run_all hs f'
