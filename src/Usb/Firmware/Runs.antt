-- ===== src/Usb/Firmware/Runs.antt =====
-- Everything that can happen to the firmware keeps its queues in order.
use crazyradio2_firmware.Base.{
  ℕ, ◌≤◌, ◌≡◌, refl, ◌∙◌, min, Option, none, some, List, [], ◌∷◌, length, arith, if_rule,
}
use crazyradio2_firmware.Platform.Trace.{unlocked}
use crazyradio2_firmware.Esb.State.{SnifferPacket}
use crazyradio2_firmware.Esb.Isr.{Irq, radio_isr}
use crazyradio2_firmware.Esb.Send.{Air}
use crazyradio2_firmware.Esb.Send.Frame.{radio_isr-SameSettings, radio_isr-Quiet}
use crazyradio2_firmware.Esb.Send.Buffers.{Receives}
use crazyradio2_firmware.Esb.Unnoticed.{Unnoticed, radio_isr-Unnoticed}
use crazyradio2_firmware.Usb.State.{Usb, SetupPacket, Outcome, Gives, Gives-bind, Gives-mono}
use crazyradio2_firmware.Usb.State.Partial.{Gives-and}
use crazyradio2_firmware.Usb.State.Carries.{Carries}
use crazyradio2_firmware.Usb.Queue.{MsgQueue}
use crazyradio2_firmware.Usb.Vendor.{
  Reply, queued, answered, scanned, resetting, not_supported, ignored, crazyradio_vendor_handler,
}
use crazyradio2_firmware.Usb.Vendor.Requests.{VendorInv, Fits, crazyradio_vendor_handler-VendorInv}
use crazyradio2_firmware.Usb.Vendor.Carried.{crazyradio_vendor_handler-Carries}
use crazyradio2_firmware.Usb.Data.{UsbCommand, setup_command}
use crazyradio2_firmware.Usb.Stream.{is_skipped}
use crazyradio2_firmware.Usb.Invariant.{UsbInv, HasRoom}
use crazyradio2_firmware.Usb.Invariant.Rounds.{normal_round-UsbInv, sniffer_command-UsbInv}
use crazyradio2_firmware.Usb.Session.Safety.{IsTame, IsTame-IsSafe, IsTame-IsSound}
use crazyradio2_firmware.Usb.Firmware.{
  Firmware, World, Happening, transferred, requested, interrupted, turned, with_usb, take_command,
  settle, purged, command_round, round_with, thread_round, interrupt, reply_issues, control_request,
  unless_blocked, happen, run_all,
}
use crazyradio2_firmware.Usb.Firmware.Kept.{
  Commanded, IsOrdered, IsConserved, IsUnlocked, FirmwareInv, issue-FirmwareInv, settle-FirmwareInv,
  purged-FirmwareInv, poll_sniffer-FirmwareInv,
}
use crazyradio2_firmware.Usb.Firmware.Taking.{TakesTame, take_command-TakesTame}
use crazyradio2_firmware.Usb.Firmware.Transfers.{IsTameTransfer, bulk_transfer-FirmwareInv}
use crazyradio2_firmware.Usb.Firmware.Handlers.{sniffer_command-Commanded, normal_round-Commanded}

-- What happens is sane: the radio fills whole buffers, a bulk transfer is tame, and the data of a
-- request is there.
abbrev pub IsSane : Happening → Type 0
IsSane (transferred full last) = IsTameTransfer full last
IsSane (requested airs p len bytes) =
    ((c : ℕ) → Receives HasRoom (airs c))
    × (len ≤ length bytes)
    × (min 32 p.w_length ≤ length bytes)
IsSane (interrupted q) = Unit
IsSane (turned w) = Receives HasRoom w.first × Receives HasRoom w.air

abbrev pub AllSane : List Happening → Type 0
AllSane [] = Unit
AllSane (h ∷ hs) = IsSane h × AllSane hs

module _ {cq : MsgQueue UsbCommand} {sq : MsgQueue SnifferPacket} where
  command_round-FirmwareInv :
      (w : World) (c : UsbCommand) (f : Firmware cq sq)
      → IsSane (turned w)
      → IsTame (some c)
      → FirmwareInv f
      → Gives FirmwareInv (command_round w c f)
  unfolding command_round
  command_round-FirmwareInv w c f sane tame v =
      let u = f.vendor.usb in
      let inv = v.vendor_inv.usb_inv in
      let settled : (u' : Usb)
          → UsbInv u' × Commanded c u u'
          → FirmwareInv (settle (purged c (with_usb u' f))) =
        λ u' h. settle-FirmwareInv _ (purged-FirmwareInv c u' f v h.0 h.1) in
      if_rule (Gives FirmwareInv) u.sniffer_mode _ _
        (λ _.
          Gives-bind (λ u'. UsbInv u' × Commanded c u u') FirmwareInv _ _
            (Gives-and UsbInv (Commanded c u) _
              (sniffer_command-UsbInv w.sniffer_air w.prefix0 w.irqs c u
                (IsTame-IsSound (some c) tame) inv)
              (sniffer_command-Commanded w.sniffer_air w.prefix0 w.irqs c u))
            (λ u' h.
              if_rule (Gives FirmwareInv) (is_skipped (some c)) _ _ (λ _. settled u' h)
                (λ _. poll_sniffer-FirmwareInv _ (settled u' h))))
        (λ _.
          Gives-bind (λ u'. UsbInv u' × Commanded c u u') FirmwareInv _ _
            (Gives-and UsbInv (Commanded c u) _
              (normal_round-UsbInv w.first w.air w.prefix0 w.irqs c u sane.0 sane.1
                (IsTame-IsSafe c u tame) inv)
              (normal_round-Commanded w.first w.air w.prefix0 w.irqs c u))
            settled)

  round_with-FirmwareInv :
      (w : World) (r : Option UsbCommand × Firmware cq sq)
      → IsSane (turned w)
      → TakesTame r
      → Gives FirmwareInv (round_with w r)
  round_with-FirmwareInv w (none, f) sane t =
      if_rule (Gives FirmwareInv) f.vendor.usb.sniffer_mode _ _
        (λ _. poll_sniffer-FirmwareInv f t.1) (λ _. t.1)
  round_with-FirmwareInv w (some c, f) sane t = command_round-FirmwareInv w c f sane t.0 t.1

  interrupt-FirmwareInv :
      (q : Irq) (f : Firmware cq sq) → FirmwareInv f → FirmwareInv (interrupt q f)
  unfolding interrupt
  interrupt-FirmwareInv q f v =
      let s = f.vendor.usb.radio in
      let w = v.vendor_inv.usb_inv in
      let heard : Unnoticed unlocked unlocked s (radio_isr q s) = radio_isr-Unnoticed q s in
      settle-FirmwareInv _ (record {
        out_fresh = v.out_fresh;
        vendor_inv = record {
          usb_inv = ground (arith, w, w.radio_inv, radio_isr-SameSettings q s, radio_isr-Quiet q s);
          command_room = v.vendor_inv.command_room;
        };
        ordered = v.ordered;
        conserved = record {
          in_order = v.conserved.in_order;
          counted = v.conserved.counted;
          bounded = v.conserved.bounded;
          queue_fits = v.conserved.queue_fits;
          delivered_fits = heard.fit_kept v.conserved.delivered_fits;
        };
        is_unlocked = heard.locks_move v.is_unlocked;
      })

  reply_issues-FirmwareInv :
      (r : Reply) (f : Firmware cq sq)
      → f.blocked ≡ none
      → FirmwareInv f
      → FirmwareInv (reply_issues r f)
  reply_issues-FirmwareInv (queued c) f free v = issue-FirmwareInv (setup_command c) f tt free v
  reply_issues-FirmwareInv (answered bytes) f free v = v
  reply_issues-FirmwareInv scanned f free v = v
  reply_issues-FirmwareInv resetting f free v = v
  reply_issues-FirmwareInv not_supported f free v = v
  reply_issues-FirmwareInv ignored f free v = v

  control_request-FirmwareInv :
      (airs : ℕ → Air) (p : SetupPacket) (len : ℕ) (bytes : List ℕ) (f : Firmware cq sq)
      → IsSane (requested airs p len bytes)
      → f.blocked ≡ none
      → FirmwareInv f
      → Gives FirmwareInv (control_request airs p len bytes f)
  unfolding control_request
  control_request-FirmwareInv airs p len bytes f sane free v =
      Gives-bind
        (λ r. (VendorInv r.0 × Fits p r.1) × Carries unlocked unlocked f.vendor.usb r.0.usb)
        FirmwareInv (crazyradio_vendor_handler airs p len bytes f.vendor) _
        (Gives-and (λ r. VendorInv r.0 × Fits p r.1)
          (λ r. Carries unlocked unlocked f.vendor.usb r.0.usb) _
          (crazyradio_vendor_handler-VendorInv airs p bytes f.vendor v.vendor_inv len sane.0 sane.1
            sane.2)
          (crazyradio_vendor_handler-Carries airs p len bytes f.vendor))
        (λ r h. reply_issues-FirmwareInv r.1 _ free (record {
          out_fresh = v.out_fresh;
          vendor_inv = h.0.0;
          ordered = v.ordered;
          conserved = record {
            in_order = v.conserved.in_order;
            counted = h.1.drops_same ∙ v.conserved.counted;
            bounded = v.conserved.bounded;
            queue_fits = v.conserved.queue_fits;
            delivered_fits = h.1.fit_kept v.conserved.delivered_fits;
          };
          is_unlocked = h.1.locks_move v.is_unlocked;
        }))

  unless_blocked-FirmwareInv :
      (f : Firmware cq sq) (o : Outcome (Firmware cq sq))
      → FirmwareInv f
      → (f.blocked ≡ none → Gives FirmwareInv o)
      → (b : Option UsbCommand) → f.blocked ≡ b
      → Gives FirmwareInv (unless_blocked b o f)
  unless_blocked-FirmwareInv f o v k none e = k e
  unless_blocked-FirmwareInv f o v k (some c) e = v

  pub happen-FirmwareInv :
      (h : Happening) (f : Firmware cq sq)
      → IsSane h
      → FirmwareInv f
      → Gives FirmwareInv (happen h f)
  unfolding happen thread_round
  happen-FirmwareInv (transferred full last) f sane v =
      unless_blocked-FirmwareInv f _ v (λ free. bulk_transfer-FirmwareInv full last f sane free v)
        f.blocked refl
  happen-FirmwareInv (requested airs p len bytes) f sane v =
      unless_blocked-FirmwareInv f _ v
        (λ free. control_request-FirmwareInv airs p len bytes f sane free v) f.blocked refl
  happen-FirmwareInv (interrupted q) f sane v = interrupt-FirmwareInv q f v
  happen-FirmwareInv (turned w) f sane v =
      round_with-FirmwareInv w (take_command f) sane (take_command-TakesTame f v)

  pub run_all-FirmwareInv :
      (hs : List Happening) (f : Firmware cq sq)
      → AllSane hs
      → FirmwareInv f
      → Gives FirmwareInv (run_all hs f)
  unfolding run_all
  run_all-FirmwareInv [] f sane v = v
  run_all-FirmwareInv (h ∷ hs) f sane v =
      Gives-bind FirmwareInv FirmwareInv (happen h f) _ (happen-FirmwareInv h f sane.0 v)
        (λ f' v'. run_all-FirmwareInv hs f' sane.1 v')

  -- After any sequence of bulk transfers, control requests, interrupts and rounds of the thread, in
  -- any modes and whatever the radio does, nothing has copied past an array, and the thread has
  -- taken the commands in the order in which the host has sent them: what it has not taken is in
  -- the queue, in order and within its bound, and at most one more waits, only while the queue is
  -- full. A transfer is of fewer than 128 bytes and starts with a byte of at least 8, the radio
  -- fills whole buffers, and the data of a request is there.
  pub run_all-IsOrdered :
      (hs : List Happening) (f : Firmware cq sq)
      → AllSane hs
      → FirmwareInv f
      → Gives IsOrdered (run_all hs f)
  run_all-IsOrdered hs f sane v =
      Gives-mono FirmwareInv IsOrdered _ (λ f' w. w.ordered) (run_all-FirmwareInv hs f sane v)

  -- After any sequence of bulk transfers, control requests, interrupts and rounds of the thread, in
  -- any modes and whatever the radio does: the packets that the sniffer's queue has taken since the
  -- sniffer mode was entered are, in order, those that the thread has taken out of it to stream and
  -- then those still in it, which are within its bound and of at most 63 bytes; and the drop counter
  -- is the number of the packets for which it had no room, modulo 2 ^ 32. The run starts from a sound
  -- state, a transfer is of fewer than 128 bytes and starts with a byte of at least 8, the radio fills
  -- whole buffers, and the data of a request is there.
  pub run_all-IsConserved :
      (hs : List Happening) (f : Firmware cq sq)
      → AllSane hs
      → FirmwareInv f
      → Gives IsConserved (run_all hs f)
  run_all-IsConserved hs f sane v =
      Gives-mono FirmwareInv IsConserved _ (λ f' w. w.conserved) (run_all-FirmwareInv hs f sane v)

  -- After any sequence of bulk transfers, control requests, interrupts and rounds of the thread, in
  -- any modes and whatever the radio does, both mutexes are free, and they have only ever been taken
  -- in one order and given back in the reverse: `usb_radio_mutex` only while both were free, and
  -- `radio_busy` only while `usb_radio_mutex` alone was held. The run starts from a sound state, a
  -- transfer is of fewer than 128 bytes and starts with a byte of at least 8, the radio fills whole
  -- buffers, and the data of a request is there.
  pub run_all-IsUnlocked :
      (hs : List Happening) (f : Firmware cq sq)
      → AllSane hs
      → FirmwareInv f
      → Gives IsUnlocked (run_all hs f)
  run_all-IsUnlocked hs f sane v =
      Gives-mono FirmwareInv IsUnlocked _ (λ f' w. w.is_unlocked) (run_all-FirmwareInv hs f sane v)
