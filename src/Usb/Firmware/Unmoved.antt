-- ===== src/Usb/Firmware/Unmoved.antt =====
-- What a command does to the firmware leaves the command queue alone.
use crazyradio2_firmware.Base.{◌≡◌, refl, ◌∙◌, Option, none, some, List, [], ◌∷◌, if_rule}
use crazyradio2_firmware.Esb.State.{SnifferPacket}
use crazyradio2_firmware.Usb.State.{Usb}
use crazyradio2_firmware.Usb.State.Partial.{Allows, Allows-bind, Allows-mono}
use crazyradio2_firmware.Usb.State.Carries.{any_result}
use crazyradio2_firmware.Usb.Queue.{MsgQueue}
use crazyradio2_firmware.Usb.Data.{UsbCommand, data_command, setup_command, normal_round}
use crazyradio2_firmware.Usb.Stream.{sniffer_command, is_skipped, stream_packet}
use crazyradio2_firmware.Usb.Command.{is_entering}
use crazyradio2_firmware.Usb.Firmware.{
  Firmware, World, with_usb, put_packet, receive, receive_all, settle, purged, get_packet,
  poll_sniffer, command_round,
}

module _ {cq : MsgQueue UsbCommand} {sq : MsgQueue SnifferPacket} where
  -- Only the commands are looked at.
  pub record SameCommands (f f' : Firmware cq sq) : Type 0 where
    pub commands_same : f'.commands ≡ f.commands
    pub blocked_same : f'.blocked ≡ f.blocked
    pub issued_same : f'.issued ≡ f.issued

  SameCommands-trans :
      (f g h : Firmware cq sq) → SameCommands f g → SameCommands g h → SameCommands f h
  SameCommands-trans f g h s t = record {
    commands_same = t.commands_same ∙ s.commands_same;
    blocked_same = t.blocked_same ∙ s.blocked_same;
    issued_same = t.issued_same ∙ s.issued_same;
  }

  same :
      (f f' : Firmware cq sq)
      → f'.commands ≡ f.commands
      → f'.blocked ≡ f.blocked
      → f'.issued ≡ f.issued
      → SameCommands f f'
  same f f' a b c = record { commands_same = a; blocked_same = b; issued_same = c }

  put_packet-SameCommands :
      (p : SnifferPacket) (f : Firmware cq sq) (o : Option sq.Q) → SameCommands f (put_packet p f o)
  put_packet-SameCommands p f none = same f _ refl refl refl
  put_packet-SameCommands p f (some q) = same f _ refl refl refl

  receive_all-SameCommands :
      (ps : List SnifferPacket) (f : Firmware cq sq) → SameCommands f (receive_all ps f)
  unfolding receive_all receive
  receive_all-SameCommands [] f = same f f refl refl refl
  receive_all-SameCommands (p ∷ ps) f =
      SameCommands-trans f (receive_all ps f) _ (receive_all-SameCommands ps f)
        (put_packet-SameCommands p (receive_all ps f) (sq.put p (receive_all ps f).sniffs))

  purged-SameCommands : (c : UsbCommand) (f : Firmware cq sq) → SameCommands f (purged c f)
  unfolding purged
  purged-SameCommands (data_command c) f = same f f refl refl refl
  purged-SameCommands (setup_command c) f =
      if_rule (SameCommands f) (is_entering c) _ _ (λ _. same f _ refl refl refl)
        (λ _. same f f refl refl refl)

  settled-SameCommands :
      (c : UsbCommand) (u : Usb) (f : Firmware cq sq)
      → SameCommands f (settle (purged c (with_usb u f)))
  unfolding settle
  settled-SameCommands c u f =
      let g = purged c (with_usb u f) in
      let kept = purged-SameCommands c (with_usb u f) in
      let rest = receive_all-SameCommands g.vendor.usb.radio.delivered (
        with_usb (record g.vendor.usb { radio = record g.vendor.usb.radio { delivered = [] } })
          g) in
      SameCommands-trans f g _ (same f g kept.commands_same kept.blocked_same kept.issued_same)
        (same g _ rest.commands_same rest.blocked_same rest.issued_same)

  get_packet-SameCommands :
      (f : Firmware cq sq) (o : Option (SnifferPacket × sq.Q))
      → Allows (SameCommands f) (get_packet f o)
  get_packet-SameCommands f none = same f f refl refl refl
  get_packet-SameCommands f (some r) =
      Allows-bind (λ _. Unit) (SameCommands f) (stream_packet r.0 f.vendor.usb) _ (any_result _)
        (λ u _. same f _ refl refl refl)

  pub poll_sniffer-SameCommands : (f : Firmware cq sq) → Allows (SameCommands f) (poll_sniffer f)
  unfolding poll_sniffer
  poll_sniffer-SameCommands f = get_packet-SameCommands f (sq.get f.sniffs)

  pub command_round-SameCommands :
      (w : World) (c : UsbCommand) (f : Firmware cq sq)
      → Allows (SameCommands f) (command_round w c f)
  unfolding command_round
  command_round-SameCommands w c f =
      let u = f.vendor.usb in
      let P = Allows (SameCommands f) in
      if_rule P u.sniffer_mode _ _
        (λ _.
          Allows-bind (λ _. Unit) (SameCommands f)
            (sniffer_command w.sniffer_air w.prefix0 w.irqs c u) _ (any_result _)
            (λ u' _.
              let done = settled-SameCommands c u' f in
              if_rule P (is_skipped (some c)) _ _ (λ _. done)
                (λ _.
                  Allows-mono (SameCommands _) (SameCommands f) _
                    (λ g s. SameCommands-trans f _ g done s) (poll_sniffer-SameCommands _))))
        (λ _.
          Allows-bind (λ _. Unit) (SameCommands f) (normal_round w.first w.air w.prefix0 w.irqs c u)
            _ (any_result _) (λ u' _. settled-SameCommands c u' f))
