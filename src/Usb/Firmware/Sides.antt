-- ===== src/Usb/Firmware/Sides.antt =====
-- The fields of the firmware that the callbacks of the USB stack write, and those that the thread and
-- the interrupt handler write.
use crazyradio2_firmware.Base.{
  ℕ, ◌≡◌, refl, sym, ap, ◌∙◌, Bool, true, false, Option, none, some, List, [], ◌∷◌, ◌++◌,
  if◌then◌else◌, arith,
}
use crazyradio2_firmware.Esb.State.{SnifferPacket}
use crazyradio2_firmware.Usb.State.{Usb, DataCommand, Outcome, ok, fault, out_of_fuel, ◌>>=◌}
use crazyradio2_firmware.Usb.Queue.{MsgQueue}
use crazyradio2_firmware.Usb.Out.Reassembly.{run}
use crazyradio2_firmware.Usb.Data.{UsbCommand, data_command, setup_command, normal_round}
use crazyradio2_firmware.Usb.Stream.{sniffer_command, is_skipped, stream_packet}
use crazyradio2_firmware.Usb.Firmware.{
  Firmware, World, with_usb, put_command, issue, put_packet, receive, receive_all, settle, purged,
  get_packet, poll_sniffer, command_round, round_with, issue_all, bulk_transfer,
}

pub >>=-assoc {ℓ κ μ} :
    {A : Type ℓ} {B : Type κ} {C : Type μ} (o : Outcome A) (f : A → Outcome B) (g : B → Outcome C)
    → (o >>= f >>= g) ≡ (o >>= λ a. f a >>= g)
>>=-assoc (ok a) f g = refl
>>=-assoc fault f g = refl
>>=-assoc out_of_fuel f g = refl

pub >>=-cong {ℓ κ} :
    {A : Type ℓ} {B : Type κ} (o : Outcome A) (f g : A → Outcome B)
    → ((a : A) → f a ≡ g a)
    → (o >>= f) ≡ (o >>= g)
>>=-cong (ok a) f g h = h a
>>=-cong fault f g h = refl
>>=-cong out_of_fuel f g h = refl

module _ {cq : MsgQueue UsbCommand} {sq : MsgQueue SnifferPacket} where
  -- `g`, with the fields that the host's side writes taken from `f`.
  abbrev pub with_host : (f g : Firmware cq sq) → Firmware cq sq
  with_host f g = record g {
    vendor = record g.vendor { command = f.vendor.command };
    out = f.out;
    commands = f.commands;
    blocked = f.blocked;
    issued = f.issued;
  }

  put_packet-with_host :
      (p : SnifferPacket) (f g : Firmware cq sq) (o : Option sq.Q)
      → put_packet p (with_host f g) o ≡ with_host f (put_packet p g o)
  put_packet-with_host p f g none = refl
  put_packet-with_host p f g (some q) = refl

  receive_all-with_host :
      (ps : List SnifferPacket) (f g : Firmware cq sq)
      → receive_all ps (with_host f g) ≡ with_host f (receive_all ps g)
  unfolding receive_all receive
  receive_all-with_host [] f g = refl
  receive_all-with_host (p ∷ ps) f g =
      let rest = receive_all ps g in
      ap (λ x. put_packet p x (sq.put p x.sniffs)) (receive_all-with_host ps f g)
      ∙ put_packet-with_host p f rest (sq.put p rest.sniffs)

  settle-with_host : (f g : Firmware cq sq) → settle (with_host f g) ≡ with_host f (settle g)
  unfolding settle
  settle-with_host f g = receive_all-with_host g.vendor.usb.radio.delivered f _

  purged-with_host :
      (c : UsbCommand) (f g : Firmware cq sq) → purged c (with_host f g) ≡ with_host f (purged c g)
  unfolding purged
  purged-with_host (data_command c) f g = refl
  purged-with_host (setup_command c) f g = ground arith

  get_packet-with_host :
      (f g : Firmware cq sq) (o : Option (SnifferPacket × sq.Q))
      → get_packet (with_host f g) o ≡ (get_packet g o >>= λ x. ok (with_host f x))
  get_packet-with_host f g none = refl
  get_packet-with_host f g (some r) = sym (>>=-assoc (stream_packet r.0 g.vendor.usb) _ _)

  poll_sniffer-with_host :
      (f g : Firmware cq sq)
      → poll_sniffer (with_host f g) ≡ (poll_sniffer g >>= λ x. ok (with_host f x))
  unfolding poll_sniffer
  poll_sniffer-with_host f g = get_packet-with_host f g (sq.get g.sniffs)

  -- A test on both sides of a bind.
  if_bind :
      (b : Bool) (k : Firmware cq sq → Outcome (Firmware cq sq))
      (x x' y y' : Outcome (Firmware cq sq))
      → x' ≡ (x >>= k)
      → y' ≡ (y >>= k)
      → (if b then x' else y') ≡ ((if b then x else y) >>= k)
  if_bind true k x x' y y' h e = h
  if_bind false k x x' y y' h e = e

  settled-with_host :
      (c : UsbCommand) (u : Usb) (f g : Firmware cq sq)
      → settle (purged c (with_usb u (with_host f g)))
        ≡ with_host f (settle (purged c (with_usb u g)))
  settled-with_host c u f g =
      ap settle (purged-with_host c f (with_usb u g)) ∙ settle-with_host f (purged c (with_usb u g))

  command_round-with_host :
      (w : World) (c : UsbCommand) (f g : Firmware cq sq)
      → command_round w c (with_host f g) ≡ (command_round w c g >>= λ x. ok (with_host f x))
  unfolding command_round
  command_round-with_host w c f g =
      let u = g.vendor.usb in
      let k : Firmware cq sq → Outcome (Firmware cq sq) = λ x. ok (with_host f x) in
      let sniffed = sniffer_command w.sniffer_air w.prefix0 w.irqs c u in
      let sent = normal_round w.first w.air w.prefix0 w.irqs c u in
      if_bind u.sniffer_mode k _ _ _ _
        (>>=-cong sniffed _ _ (λ u'.
            let done = settle (purged c (with_usb u' g)) in
            let e = settled-with_host c u' f g in
            if_bind (is_skipped (some c)) k (ok done) _ (poll_sniffer done) _ (ap ok e)
              (ap poll_sniffer e ∙ poll_sniffer-with_host f done))
          ∙ sym (>>=-assoc sniffed _ k))
        (>>=-cong sent _ _ (λ u'. ap ok (settled-with_host c u' f g)) ∙ sym (>>=-assoc sent _ k))

  -- The rest of a round, once a command has been taken or none was there.
  pub round_with-with_host :
      (w : World) (c : Option UsbCommand) (f g : Firmware cq sq)
      → round_with w (c, with_host f g) ≡ (round_with w (c, g) >>= λ x. ok (with_host f x))
  round_with-with_host w none f g =
      if_bind g.vendor.usb.sniffer_mode (λ x. ok (with_host f x)) _ _ _ _
        (poll_sniffer-with_host f g) refl
  round_with-with_host w (some c) f g = command_round-with_host w c f g

  put_command-with_host :
      (c : UsbCommand) (f g : Firmware cq sq) (o : Option cq.Q)
      → put_command c (with_host f g) o ≡ with_host (put_command c f o) g
  put_command-with_host c f g none = refl
  put_command-with_host c f g (some q) = refl

  pub issue-with_host :
      (c : UsbCommand) (f g : Firmware cq sq) → issue c (with_host f g) ≡ with_host (issue c f) g
  unfolding issue
  issue-with_host c f g = put_command-with_host c f g (cq.put c f.commands)

  issue_all-with_host :
      (cs : List DataCommand) (f g : Firmware cq sq)
      → issue_all cs (with_host f g) ≡ with_host (issue_all cs f) g
  issue_all-with_host [] f g = refl
  issue_all-with_host (c ∷ cs) f g =
      ap (issue_all cs) (issue-with_host (data_command c) f g)
      ∙ issue_all-with_host cs (issue (data_command c) f) g

  pub bulk_transfer-with_host :
      (full : List (List ℕ)) (last : List ℕ) (f g : Firmware cq sq)
      → bulk_transfer full last (with_host f g) ≡ with_host (bulk_transfer full last f) g
  unfolding bulk_transfer
  bulk_transfer-with_host full last f g = issue_all-with_host (run (full ++ last ∷ []) f.out).1 _ g
