-- ===== src/Usb/Firmware/Taking.antt =====
-- The thread takes a command: the queue stays in order, and a callback that waits goes on.
use crazyradio2_firmware.Base.{◌≡◌, refl, ap, Option, none, some, [], ◌∷◌, ◌++◌, length, arith}
use crazyradio2_firmware.Esb.State.{SnifferPacket}
use crazyradio2_firmware.Usb.Queue.{MsgQueue}
use crazyradio2_firmware.Usb.Data.{UsbCommand}
use crazyradio2_firmware.Usb.Session.Safety.{IsTame}
use crazyradio2_firmware.Usb.Firmware.{Firmware, resume, take_command, put_blocked, get_command}
use crazyradio2_firmware.Usb.Firmware.Commands.{
  Ordered, taken-Ordered, resumed-Ordered, first-IsTame,
}
use crazyradio2_firmware.Usb.Firmware.Kept.{FirmwareInv}

module _ {cq : MsgQueue UsbCommand} {sq : MsgQueue SnifferPacket} where
  -- What the thread has taken is tame.
  abbrev pub TakesTame : Option UsbCommand × Firmware cq sq → Type 0
  TakesTame (c, f) = IsTame c × FirmwareInv f

  put_blocked-FirmwareInv :
      (f : Firmware cq sq) (c b : UsbCommand) (q : cq.Q)
      → FirmwareInv f
      → f.blocked ≡ some b
      → cq.contents f.commands ≡ c ∷ cq.contents q
      → (o : Option cq.Q) → cq.put b q ≡ o
      → FirmwareInv (put_blocked (record f { commands = q; taken = f.taken ++ c ∷ [] }) o)
  put_blocked-FirmwareInv f c b q v held first none e =
      absurd (omega (arith, cq.put_none b q e, v.ordered.bounded, ap length first))
  put_blocked-FirmwareInv f c b q v held first (some q') e =
      let old : Ordered cq f.commands (some b) f.issued f.taken = rw (← held) v.ordered in
      record {
        out_fresh = v.out_fresh;
        vendor_inv = v.vendor_inv;
        ordered = resumed-Ordered c b q q' old first (cq.put_some b q q' e).1;
        conserved = v.conserved;
        is_unlocked = v.is_unlocked;
      }

  resume-FirmwareInv :
      (f : Firmware cq sq) (c : UsbCommand) (q : cq.Q)
      → FirmwareInv f
      → cq.contents f.commands ≡ c ∷ cq.contents q
      → (b : Option UsbCommand) → f.blocked ≡ b
      → FirmwareInv (resume (record f { commands = q; taken = f.taken ++ c ∷ [] }) b)
  resume-FirmwareInv f c q v first none free =
      let old : Ordered cq f.commands none f.issued f.taken = rw (← free) v.ordered in
      record {
        out_fresh = v.out_fresh;
        vendor_inv = v.vendor_inv;
        ordered = rw free (taken-Ordered c q old first);
        conserved = v.conserved;
        is_unlocked = v.is_unlocked;
      }
  resume-FirmwareInv f c q v first (some b) held =
      put_blocked-FirmwareInv f c b q v held first (cq.put b q) refl

  get_command-TakesTame :
      (f : Firmware cq sq)
      → FirmwareInv f
      → (o : Option (UsbCommand × cq.Q)) → cq.get f.commands ≡ o
      → TakesTame (get_command f o)
  get_command-TakesTame f v none e = (tt, v)
  get_command-TakesTame f v (some r) e =
      let first = cq.get_some f.commands r e in
      (
        first-IsTame cq f.commands r.1 f.blocked r.0 v.ordered.tame first,
        resume-FirmwareInv f r.0 r.1 v first f.blocked refl,
      )

  pub take_command-TakesTame : (f : Firmware cq sq) → FirmwareInv f → TakesTame (take_command f)
  unfolding take_command
  take_command-TakesTame f v = get_command-TakesTame f v (cq.get f.commands) refl
