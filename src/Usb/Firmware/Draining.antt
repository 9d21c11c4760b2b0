-- ===== src/Usb/Firmware/Draining.antt =====
-- The thread comes to the end of the commands that wait for it.
use crazyradio2_firmware.Base.{
  ◌-◌, ◌≤◌, ◌<◌, ◌≡◌, refl, ap, sym, ◌∙◌, inl, inr, Option, none, some, List, [], ◌∷◌, ◌++◌, map,
  append-nil, length, length-append, arith, if_rule,
}
use crazyradio2_firmware.Esb.State.{SnifferPacket}
use crazyradio2_firmware.Usb.State.{Gives, Gives-bind, Gives-mono}
use crazyradio2_firmware.Usb.State.Partial.{Allows, Allows-mono, Gives-and}
use crazyradio2_firmware.Usb.Queue.{MsgQueue}
use crazyradio2_firmware.Usb.Data.{UsbCommand}
use crazyradio2_firmware.Usb.Firmware.{
  Firmware, World, turned, put_blocked, resume, get_command, take_command, round_with, thread_round,
  happen, run_all,
}
use crazyradio2_firmware.Usb.Firmware.Commands.{pending}
use crazyradio2_firmware.Usb.Firmware.Kept.{FirmwareInv}
use crazyradio2_firmware.Usb.Firmware.Runs.{AllSane, happen-FirmwareInv}
use crazyradio2_firmware.Usb.Firmware.Unmoved.{
  SameCommands, poll_sniffer-SameCommands, command_round-SameCommands,
}

module _ {cq : MsgQueue UsbCommand} {sq : MsgQueue SnifferPacket} where
  -- The commands that the thread has not taken.
  abbrev pub waiting : Firmware cq sq → List UsbCommand
  waiting f = cq.contents f.commands ++ pending f.blocked

  -- One command fewer waits, if any did, and none has come.
  abbrev Progress : Firmware cq sq → Firmware cq sq → Type 0
  Progress f f' = (f'.issued ≡ f.issued) × (length (waiting f') ≤ length (waiting f) - 1)

  put_blocked-Progress :
      (f : Firmware cq sq) (c b : UsbCommand) (q : cq.Q)
      → FirmwareInv f
      → f.blocked ≡ some b
      → cq.contents f.commands ≡ c ∷ cq.contents q
      → (o : Option cq.Q) → cq.put b q ≡ o
      → Progress f (put_blocked (record f { commands = q; taken = f.taken ++ c ∷ [] }) o)
  put_blocked-Progress f c b q v held first none e =
      absurd (omega (arith, cq.put_none b q e, v.ordered.bounded, ap length first))
  put_blocked-Progress f c b q v held first (some q') e = (
    refl,
    omega (
      arith,
      ap length first,
      ap length (cq.put_some b q q' e).1,
      length-append (cq.contents q) (b ∷ []),
      length-append (cq.contents q') [],
      length-append (cq.contents f.commands) (pending f.blocked),
      ap (λ o. length (pending o)) held,
    ),
  )

  resume-Progress :
      (f : Firmware cq sq) (c : UsbCommand) (q : cq.Q)
      → FirmwareInv f
      → cq.contents f.commands ≡ c ∷ cq.contents q
      → (b : Option UsbCommand) → f.blocked ≡ b
      → Progress f (resume (record f { commands = q; taken = f.taken ++ c ∷ [] }) b)
  resume-Progress f c q v first none free = (
    refl,
    omega (
      arith,
      ap length first,
      length-append (cq.contents q) (pending f.blocked),
      length-append (cq.contents f.commands) (pending f.blocked),
    ),
  )
  resume-Progress f c q v first (some b) held =
      put_blocked-Progress f c b q v held first (cq.put b q) refl

  get_command-Progress :
      (f : Firmware cq sq)
      → 0 < cq.max_msgs
      → FirmwareInv f
      → (o : Option (UsbCommand × cq.Q)) → cq.get f.commands ≡ o
      → Progress f (get_command f o).1
  get_command-Progress f room v none e =
      let empty = cq.get_none f.commands e in
      let free : length (pending f.blocked) ≡ 0 = elim v.ordered.full_if_blocked [
        | inl none_waits ↦ ap (λ o. length (pending o)) none_waits
        | inr full ↦ absurd (omega (arith, full, ap length empty))
      ] in
      (
        refl,
        omega (
          arith,
          free,
          ap length empty,
          length-append (cq.contents f.commands) (pending f.blocked),
        ),
      )
  get_command-Progress f room v (some r) e =
      resume-Progress f r.0 r.1 v (cq.get_some f.commands r e) f.blocked refl

  after_command : (f g h : Firmware cq sq) → Progress f g → SameCommands g h → Progress f h
  after_command f g h p s =
      let fewer : waiting h ≡ waiting g =
        ap (λ q. cq.contents q ++ pending h.blocked) s.commands_same
        ∙ ap (λ o. cq.contents g.commands ++ pending o) s.blocked_same in
      (s.issued_same ∙ p.0, omega (arith, p.1, ap length fewer))

  round_with-Progress :
      (w : World) (f : Firmware cq sq) (r : Option UsbCommand × Firmware cq sq)
      → Progress f r.1
      → Allows (Progress f) (round_with w r)
  round_with-Progress w f (none, g) p =
      if_rule (Allows (Progress f)) g.vendor.usb.sniffer_mode _ _
        (λ _.
          Allows-mono (SameCommands g) (Progress f) _ (λ h s. after_command f g h p s)
            (poll_sniffer-SameCommands g))
        (λ _. p)
  round_with-Progress w f (some c, g) p =
      Allows-mono (SameCommands g) (Progress f) _ (λ h s. after_command f g h p s)
        (command_round-SameCommands w c g)

  turned-Progress :
      (w : World) (f : Firmware cq sq)
      → 0 < cq.max_msgs
      → FirmwareInv f
      → Allows (Progress f) (happen (turned w) f)
  unfolding happen thread_round take_command
  turned-Progress w f room v =
      round_with-Progress w f (take_command f)
        (get_command-Progress f room v (cq.get f.commands) refl)

  none_left : (f : Firmware cq sq) → length (waiting f) ≡ 0 → waiting f ≡ []
  none_left f e =
      let nothing : (cs : List UsbCommand) → length cs ≡ 0 → cs ≡ [] = λ cs h. ground arith in
      nothing _ e

  all_taken : (f : Firmware cq sq) → FirmwareInv f → length (waiting f) ≡ 0 → f.taken ≡ f.issued
  all_taken f v e =
      sym (append-nil f.taken)
      ∙ ap (λ cs. f.taken ++ cs) (sym (none_left f e))
      ∙ sym v.ordered.in_order

  -- Once no more commands come in, after as many rounds of the thread as commands waited, none waits
  -- any more, neither in the queue nor in a callback, and the thread has taken every command that was
  -- made, in the order in which they were made. The commands that wait are of fewer than 128 bytes
  -- and start with a byte of at least 8, the queue has room for one, the firmware's state is sound,
  -- and the radio fills whole buffers; what else it does is free.
  pub run_all-drains :
      (ws : List World) (f : Firmware cq sq)
      → AllSane (map turned ws)
      → 0 < cq.max_msgs
      → length (waiting f) ≤ length ws
      → FirmwareInv f
      → Gives (λ f'. (waiting f' ≡ []) × (f'.taken ≡ f.issued)) (run_all (map turned ws) f)
  unfolding run_all
  run_all-drains [] f sane room enough v =
      let over : length (waiting f) ≡ 0 = omega (arith, enough) in
      (none_left f over, all_taken f v over)
  run_all-drains (w ∷ ws) f sane room enough v =
      Gives-bind (λ g. FirmwareInv g × Progress f g)
        (λ f'. (waiting f' ≡ []) × (f'.taken ≡ f.issued)) (happen (turned w) f) _
        (Gives-and FirmwareInv (Progress f) _ (happen-FirmwareInv (turned w) f sane.0 v)
          (turned-Progress w f room v))
        (λ g p.
          Gives-mono (λ f'. (waiting f' ≡ []) × (f'.taken ≡ g.issued)) _ _
            (λ f' e. (e.0, e.1 ∙ p.1.0))
            (run_all-drains ws g sane.1 room (omega (arith, enough, p.1.1)) p.0))
