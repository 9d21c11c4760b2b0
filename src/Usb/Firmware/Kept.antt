-- ===== src/Usb/Firmware/Kept.antt =====
-- What every operation on the queues keeps.
use crazyradio2_firmware.Base.{
  ◌≡◌, refl, sym, ap, ◌∙◌, true, false, Option, none, some, List, [], ◌∷◌, arith, if_rule,
}
use crazyradio2_firmware.Platform.Trace.{unlocked, lock_state}
use crazyradio2_firmware.Esb.State.{SnifferPacket}
use crazyradio2_firmware.Esb.Unnoticed.{fits, all_fit}
use crazyradio2_firmware.Usb.State.{Usb, Gives, Gives-bind}
use crazyradio2_firmware.Usb.State.Partial.{Gives-and}
use crazyradio2_firmware.Usb.State.Carries.{Carries}
use crazyradio2_firmware.Usb.Queue.{MsgQueue}
use crazyradio2_firmware.Usb.Out.Reassembly.{IsFresh}
use crazyradio2_firmware.Usb.Vendor.{VendorState}
use crazyradio2_firmware.Usb.Vendor.Requests.{VendorInv}
use crazyradio2_firmware.Usb.Data.{UsbCommand, data_command, setup_command}
use crazyradio2_firmware.Usb.Stream.{sniffer_rx_callback, stream_packet}
use crazyradio2_firmware.Usb.Stream.Carried.{stream_packet-Carries}
use crazyradio2_firmware.Usb.Invariant.{UsbInv}
use crazyradio2_firmware.Usb.Invariant.Rounds.{IsSniffed, stream_packet-UsbInv}
use crazyradio2_firmware.Usb.Command.{is_entering}
use crazyradio2_firmware.Usb.Session.Safety.{IsTame}
use crazyradio2_firmware.Usb.Firmware.{
  Firmware, with_usb, issue, receive, receive_all, settle, purged, poll_sniffer, put_command,
  put_packet, get_packet,
}
use crazyradio2_firmware.Usb.Firmware.Commands.{Ordered, waits-Ordered, queued-Ordered}
use crazyradio2_firmware.Usb.Firmware.Packets.{
  Conserved, kept-Conserved, lost-Conserved, streamed-Conserved, other-Conserved, fresh-Conserved,
}

-- What a command makes of the drop counter, of the packets for the callback, and of the mutexes.
abbrev pub Commanded : UsbCommand → Usb → Usb → Type 0
Commanded (data_command c) u u' = Carries unlocked unlocked u u'
Commanded (setup_command c) u u' =
    (is_entering c ≡ false → Carries unlocked unlocked u u')
    × (is_entering c ≡ true
        → (u'.sniffer_drop_count ≡ 0)
          × (u'.radio.delivered ≡ u.radio.delivered)
          × (lock_state u.radio.calls ≡ unlocked → lock_state u'.radio.calls ≡ unlocked))

vendor_usb-VendorInv :
    (v : VendorState) (u : Usb) → VendorInv v → UsbInv u → VendorInv (record v { usb = u })
vendor_usb-VendorInv v u h k = record { usb_inv = k; command_room = h.command_room }

module _ {cq : MsgQueue UsbCommand} {sq : MsgQueue SnifferPacket} where
  -- The commands and the sniffed packets of the firmware are in order.
  abbrev pub IsOrdered : Firmware cq sq → Type 0
  IsOrdered f = Ordered cq f.commands f.blocked f.issued f.taken

  abbrev pub IsConserved : Firmware cq sq → Type 0
  IsConserved f =
      Conserved sq f.vendor.usb.sniffer_drop_count f.vendor.usb.radio.delivered f.sniffs f.accepted
        f.lost f.streamed

  -- Both mutexes are free, and have only ever been taken and given back in their order.
  abbrev pub IsUnlocked : Firmware cq sq → Type 0
  IsUnlocked f = lock_state f.vendor.usb.radio.calls ≡ unlocked

  pub record FirmwareInv (f : Firmware cq sq) : Type 0 where
    pub vendor_inv : VendorInv f.vendor
    pub out_fresh : IsFresh f.out
    pub ordered : IsOrdered f
    pub conserved : IsConserved f
    pub is_unlocked : IsUnlocked f

  put_command-FirmwareInv :
      (c : UsbCommand) (f : Firmware cq sq)
      → IsTame (some c)
      → f.blocked ≡ none
      → FirmwareInv f
      → (o : Option cq.Q) → cq.put c f.commands ≡ o
      → FirmwareInv (put_command c f o)
  put_command-FirmwareInv c f tame free v none e =
      let old : Ordered cq f.commands none f.issued f.taken = rw (← free) v.ordered in
      record {
        out_fresh = v.out_fresh;
        vendor_inv = v.vendor_inv;
        ordered = waits-Ordered c old (cq.put_none c f.commands e) tame;
        conserved = v.conserved;
        is_unlocked = v.is_unlocked;
      }
  put_command-FirmwareInv c f tame free v (some q) e =
      let old : Ordered cq f.commands none f.issued f.taken = rw (← free) v.ordered in
      let (room, last) = cq.put_some c f.commands q e in
      record {
        out_fresh = v.out_fresh;
        vendor_inv = v.vendor_inv;
        ordered = rw free (queued-Ordered c q old room last tame);
        conserved = v.conserved;
        is_unlocked = v.is_unlocked;
      }

  pub issue-FirmwareInv :
      (c : UsbCommand) (f : Firmware cq sq)
      → IsTame (some c)
      → f.blocked ≡ none
      → FirmwareInv f
      → FirmwareInv (issue c f)
  unfolding issue
  issue-FirmwareInv c f tame free v =
      put_command-FirmwareInv c f tame free v (cq.put c f.commands) refl

  put_packet-FirmwareInv :
      (p : SnifferPacket) (f : Firmware cq sq)
      → fits p ≡ true
      → FirmwareInv f
      → (o : Option sq.Q) → sq.put p f.sniffs ≡ o
      → FirmwareInv (put_packet p f o)
  unfolding sniffer_rx_callback
  put_packet-FirmwareInv p f fit v none full =
      let w = v.vendor_inv.usb_inv in
      record {
        out_fresh = v.out_fresh;
        vendor_inv = vendor_usb-VendorInv f.vendor _ v.vendor_inv (ground (arith, w, w.radio_inv));
        ordered = v.ordered;
        conserved = lost-Conserved p v.conserved;
        is_unlocked = v.is_unlocked;
      }
  put_packet-FirmwareInv p f fit v (some q) e =
      let (room, last) = sq.put_some p f.sniffs q e in
      record {
        out_fresh = v.out_fresh;
        vendor_inv = v.vendor_inv;
        ordered = v.ordered;
        conserved = kept-Conserved p q v.conserved fit room last;
        is_unlocked = v.is_unlocked;
      }

  receive-FirmwareInv :
      (p : SnifferPacket) (f : Firmware cq sq)
      → fits p ≡ true
      → FirmwareInv f
      → FirmwareInv (receive p f)
  unfolding receive
  receive-FirmwareInv p f fit v = put_packet-FirmwareInv p f fit v (sq.put p f.sniffs) refl

  receive_all-FirmwareInv :
      (ps : List SnifferPacket) (f : Firmware cq sq)
      → all_fit ps ≡ true
      → FirmwareInv f
      → FirmwareInv (receive_all ps f)
  unfolding receive_all
  receive_all-FirmwareInv [] f fit v = v
  receive_all-FirmwareInv (p ∷ ps) f fit v =
      receive-FirmwareInv p (receive_all ps f) (ground (arith, fit))
        (receive_all-FirmwareInv ps f (ground (arith, fit)) v)

  pub settle-FirmwareInv : (f : Firmware cq sq) → FirmwareInv f → FirmwareInv (settle f)
  unfolding settle
  settle-FirmwareInv f v =
      let u = f.vendor.usb in
      let w = v.vendor_inv.usb_inv in
      receive_all-FirmwareInv u.radio.delivered _ v.conserved.delivered_fits (record {
        out_fresh = v.out_fresh;
        vendor_inv = vendor_usb-VendorInv f.vendor _ v.vendor_inv (ground (arith, w, w.radio_inv));
        ordered = v.ordered;
        conserved = other-Conserved u.sniffer_drop_count [] v.conserved refl refl;
        is_unlocked = v.is_unlocked;
      })

  carried-FirmwareInv :
      (u' : Usb) (f : Firmware cq sq)
      → FirmwareInv f
      → UsbInv u'
      → Carries unlocked unlocked f.vendor.usb u'
      → FirmwareInv (with_usb u' f)
  carried-FirmwareInv u' f v w c = record {
    out_fresh = v.out_fresh;
    vendor_inv = vendor_usb-VendorInv f.vendor u' v.vendor_inv w;
    ordered = v.ordered;
    conserved =
        other-Conserved u'.sniffer_drop_count u'.radio.delivered v.conserved c.drops_same
          (c.fit_kept v.conserved.delivered_fits);
    is_unlocked = c.locks_move v.is_unlocked;
  }

  pub purged-FirmwareInv :
      (c : UsbCommand) (u' : Usb) (f : Firmware cq sq)
      → FirmwareInv f
      → UsbInv u'
      → Commanded c f.vendor.usb u'
      → FirmwareInv (purged c (with_usb u' f))
  unfolding purged
  purged-FirmwareInv (data_command c) u' f v w done = carried-FirmwareInv u' f v w done
  purged-FirmwareInv (setup_command c) u' f v w done =
      if_rule FirmwareInv (is_entering c) _ _
        (λ enters.
          let (cleared, kept, frees) = done.1 enters in
          record {
            out_fresh = v.out_fresh;
            vendor_inv = vendor_usb-VendorInv f.vendor u' v.vendor_inv w;
            ordered = v.ordered;
            conserved =
                fresh-Conserved u'.sniffer_drop_count u'.radio.delivered (sq.purge f.sniffs)
                  (sq.purge_empties f.sniffs) cleared
                  (ap all_fit kept ∙ v.conserved.delivered_fits);
            is_unlocked = frees v.is_unlocked;
          })
        (λ stays. carried-FirmwareInv u' f v w (done.0 stays))

  get_packet-FirmwareInv :
      (f : Firmware cq sq)
      → FirmwareInv f
      → (o : Option (SnifferPacket × sq.Q)) → sq.get f.sniffs ≡ o
      → Gives FirmwareInv (get_packet f o)
  get_packet-FirmwareInv f v none e = v
  get_packet-FirmwareInv f v (some r) e =
      let first = sq.get_some f.sniffs r e in
      let fit : all_fit (r.0 ∷ sq.contents r.1) ≡ true =
        ap all_fit (sym first) ∙ v.conserved.queue_fits in
      let u = f.vendor.usb in
      let sniffed : IsSniffed r.0 = record {
        bytes_room = ground (arith, fit);
        capped = ground (arith, fit);
      } in
      Gives-bind (λ u'. UsbInv u' × Carries unlocked unlocked u u') FirmwareInv
        (stream_packet r.0 u) _
        (Gives-and UsbInv (Carries unlocked unlocked u) _
          (stream_packet-UsbInv r.0 u sniffed v.vendor_inv.usb_inv) (stream_packet-Carries r.0 u))
        (λ u' w.
          let after = carried-FirmwareInv u' f v w.0 w.1 in
          record {
            out_fresh = after.out_fresh;
            vendor_inv = after.vendor_inv;
            ordered = after.ordered;
            conserved = streamed-Conserved r.0 r.1 after.conserved first;
            is_unlocked = after.is_unlocked;
          })

  pub poll_sniffer-FirmwareInv :
      (f : Firmware cq sq) → FirmwareInv f → Gives FirmwareInv (poll_sniffer f)
  unfolding poll_sniffer
  poll_sniffer-FirmwareInv f v = get_packet-FirmwareInv f v (sq.get f.sniffs) refl
