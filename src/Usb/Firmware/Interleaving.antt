-- ===== src/Usb/Firmware/Interleaving.antt =====
-- The thread and the callbacks of the USB stack run at once: what the host sends while the thread
-- handles a command, against what it sends afterwards.
use crazyradio2_firmware.Base.{
  ℕ, ◌≤◌, ◌≡◌, refl, sym, ap, ◌∙◌, true, not, ◌&&◌, Option, none, some, List, [], ◌∷◌, ◌++◌, length,
  take, blit, ltb, if◌then◌else◌, arith, length-blit, length-take,
}
use crazyradio2_firmware.Esb.State.{SnifferPacket}
use crazyradio2_firmware.Esb.Send.{Air}
use crazyradio2_firmware.Usb.State.{
  DataCommand, SetupCommand, SetupPacket, Outcome, ok, ◌>>=◌, memcpy-fits,
}
use crazyradio2_firmware.Usb.Queue.{MsgQueue}
use crazyradio2_firmware.Usb.Out.Reassembly.{run}
use crazyradio2_firmware.Usb.Vendor.{
  VendorState, queued, is_queued_request, queue_command, crazyradio_vendor_handler,
}
use crazyradio2_firmware.Usb.Data.{UsbCommand, data_command, setup_command}
use crazyradio2_firmware.Usb.Firmware.{
  Firmware, World, Happening, transferred, requested, interrupted, turned, put_command, issue,
  round_with, take_command, thread_round, issue_all, bulk_transfer, control_request, unless_blocked,
  happen, run_all, reply_issues, resume, put_blocked, get_command,
}
use crazyradio2_firmware.Usb.Firmware.Sides.{
  >>=-assoc, >>=-cong, with_host, round_with-with_host, bulk_transfer-with_host, issue-with_host,
}

-- What the host sends without waiting for the radio: a bulk transfer, or a request that becomes a
-- command, with its data there.
abbrev pub IsSent : Happening → Type 0
IsSent (transferred full last) = Unit
IsSent (requested airs p len bytes) =
    (p.is_vendor ≡ true) × (is_queued_request p ≡ true) × (len ≤ length bytes)
IsSent (interrupted q) = ⊥
IsSent (turned w) = ⊥

abbrev pub AllSent : List Happening → Type 0
AllSent [] = Unit
AllSent (h ∷ hs) = IsSent h × AllSent hs

-- What such a request leaves in the handler's variable, and puts into the queue.
abbrev queued_of : SetupPacket → (len : ℕ) → List ℕ → SetupCommand → SetupCommand
queued_of p len bytes c =
    let n = if ltb 16 len then 16 else len in
    if not p.to_host && ltb 0 n
    then record c { setup_packet = p; length = n; bytes = blit 0 (take n bytes) c.bytes }
    else record c { setup_packet = p }

crazyradio_vendor_handler-queues :
    (airs : ℕ → Air) (p : SetupPacket) (len : ℕ) (bytes : List ℕ) (v : VendorState)
    → p.is_vendor ≡ true
    → is_queued_request p ≡ true
    → len ≤ length bytes
    → length v.command.bytes ≡ 16
    → let c = queued_of p len bytes v.command in
      crazyradio_vendor_handler airs p len bytes v ≡ ok (record v { command = c }, queued c)
unfolding crazyradio_vendor_handler queue_command
crazyradio_vendor_handler-queues airs p len bytes v vendor queues there room =
    let n = if ltb 16 len then 16 else len in
    let small : n ≤ 16 = ground arith in
    let enough : n ≤ length bytes = ground arith in
    ground (arith, memcpy-fits v.command.bytes 0 bytes n (omega (arith, room, small)) enough)

queued_of-room :
    (p : SetupPacket) (len : ℕ) (bytes : List ℕ) (c : SetupCommand)
    → length c.bytes ≡ 16
    → length (queued_of p len bytes c).bytes ≡ 16
queued_of-room p len bytes c room =
    let n = if ltb 16 len then 16 else len in
    let small : n ≤ 16 = ground arith in
    ground (
      arith,
      length-blit 0 (take n bytes) c.bytes (omega (arith, room, small, length-take n bytes)),
    )

module _ {cq : MsgQueue UsbCommand} {sq : MsgQueue SnifferPacket} where
  abbrev HasCommandRoom : Firmware cq sq → Type 0
  HasCommandRoom f = length f.vendor.command.bytes ≡ 16

  -- The host's side goes from `f` to `after`, whatever the rest is.
  record Sends (o : Firmware cq sq → Outcome (Firmware cq sq)) (f : Firmware cq sq) : Type 0 where
    after : Firmware cq sq
    sends : (g : Firmware cq sq) → o (with_host f g) ≡ ok (with_host after g)
    has_room : HasCommandRoom after

  unblocked-Sends :
      (o : Firmware cq sq → Outcome (Firmware cq sq)) (f : Firmware cq sq)
      → HasCommandRoom f
      → Sends o f
      → (b : Option UsbCommand) → f.blocked ≡ b
      → Sends (λ g. unless_blocked g.blocked (o g) g) f
  unblocked-Sends o f room s none e = record {
    after = s.after;
    sends = λ g. ap (λ b. unless_blocked b (o (with_host f g)) (with_host f g)) e ∙ s.sends g;
    has_room = s.has_room;
  }
  unblocked-Sends o f room s (some c) e = record {
    after = f;
    sends = λ g. ap (λ b. unless_blocked b (o (with_host f g)) (with_host f g)) e;
    has_room = room;
  }

  put_command-vendor :
      (c : UsbCommand) (f : Firmware cq sq) (o : Option cq.Q)
      → (put_command c f o).vendor ≡ f.vendor
  put_command-vendor c f none = refl
  put_command-vendor c f (some q) = refl

  issue-vendor : (c : UsbCommand) (f : Firmware cq sq) → (issue c f).vendor ≡ f.vendor
  unfolding issue
  issue-vendor c f = put_command-vendor c f (cq.put c f.commands)

  issue_all-vendor :
      (cs : List DataCommand) (f : Firmware cq sq) → (issue_all cs f).vendor ≡ f.vendor
  issue_all-vendor [] f = refl
  issue_all-vendor (c ∷ cs) f =
      issue_all-vendor cs (issue (data_command c) f) ∙ issue-vendor (data_command c) f

  bulk_transfer-Sends :
      (full : List (List ℕ)) (last : List ℕ) (f : Firmware cq sq)
      → HasCommandRoom f
      → Sends (λ g. ok (bulk_transfer full last g)) f
  unfolding bulk_transfer
  bulk_transfer-Sends full last f room = record {
    after = bulk_transfer full last f;
    sends = λ g. ap ok (bulk_transfer-with_host full last f g);
    has_room =
        ap (λ v. length v.command.bytes) (issue_all-vendor (run (full ++ last ∷ []) f.out).1 _)
        ∙ room;
  }

  control_request-Sends :
      (airs : ℕ → Air) (p : SetupPacket) (len : ℕ) (bytes : List ℕ) (f : Firmware cq sq)
      → IsSent (requested airs p len bytes)
      → HasCommandRoom f
      → Sends (control_request airs p len bytes) f
  unfolding control_request
  control_request-Sends airs p len bytes f (vendor, queues, there) room =
      let c = queued_of p len bytes f.vendor.command in
      let f' = record f { vendor = record f.vendor { command = c } } in
      record {
        after = issue (setup_command c) f';
        sends = λ g.
            ap (λ o. o >>= λ r. ok (reply_issues r.1 (record (with_host f g) { vendor = r.0 })))
              (crazyradio_vendor_handler-queues airs p len bytes (with_host f g).vendor vendor
                queues there room)
            ∙ ap ok (issue-with_host (setup_command c) f' g);
        has_room =
            ap (λ v. length v.command.bytes) (issue-vendor (setup_command c) f')
            ∙ queued_of-room p len bytes f.vendor.command room;
      }

  happen-Sends :
      (h : Happening) (f : Firmware cq sq) → IsSent h → HasCommandRoom f → Sends (happen h) f
  unfolding happen
  happen-Sends (transferred full last) f s room =
      unblocked-Sends _ f room (bulk_transfer-Sends full last f room) f.blocked refl
  happen-Sends (requested airs p len bytes) f s room =
      unblocked-Sends _ f room (control_request-Sends airs p len bytes f s room) f.blocked refl
  happen-Sends (interrupted q) f s room = absurd s
  happen-Sends (turned w) f s room = absurd s

  run_all-Sends :
      (hs : List Happening) (f : Firmware cq sq)
      → AllSent hs
      → HasCommandRoom f
      → Sends (run_all hs) f
  unfolding run_all
  run_all-Sends [] f s room = record { after = f; sends = λ g. refl; has_room = room }
  run_all-Sends (h ∷ hs) f s room =
      let first = happen-Sends h f s.0 room in
      let rest = run_all-Sends hs first.after s.1 first.has_room in
      record {
        after = rest.after;
        sends = λ g. ap (λ o. o >>= run_all hs) (first.sends g) ∙ rest.sends g;
        has_room = rest.has_room;
      }

  put_blocked-vendor : (f : Firmware cq sq) (o : Option cq.Q) → (put_blocked f o).vendor ≡ f.vendor
  put_blocked-vendor f none = refl
  put_blocked-vendor f (some q) = refl

  resume-vendor : (f : Firmware cq sq) (b : Option UsbCommand) → (resume f b).vendor ≡ f.vendor
  resume-vendor f none = refl
  resume-vendor f (some c) = put_blocked-vendor f (cq.put c f.commands)

  get_command-vendor :
      (f : Firmware cq sq) (o : Option (UsbCommand × cq.Q)) → (get_command f o).1.vendor ≡ f.vendor
  get_command-vendor f none = refl
  get_command-vendor f (some r) = resume-vendor _ f.blocked

  take_command-vendor : (f : Firmware cq sq) → (take_command f).1.vendor ≡ f.vendor
  unfolding take_command
  take_command-vendor f = get_command-vendor f (cq.get f.commands)

  -- A round of the thread in which the host sends `hs` after the thread has taken its command, and
  -- before it handles it.
  unfoldable pub overlapped_round :
      World → List Happening → Firmware cq sq → Outcome (Firmware cq sq)
  overlapped_round w hs f =
      let taken = take_command f in run_all hs taken.1 >>= λ g. round_with w (taken.0, g)

  -- What the host sends while the thread handles the command that it has taken, bulk transfers and
  -- requests that become commands, has the same effect before the handling as after it: the
  -- callbacks may cut in on a round, and the result is that of a round that runs whole.
  pub overlapped_round-atomic :
      (w : World) (hs : List Happening) (f : Firmware cq sq)
      → AllSent hs
      → length f.vendor.command.bytes ≡ 16
      → overlapped_round w hs f ≡ (thread_round w f >>= run_all hs)
  unfolding overlapped_round thread_round
  overlapped_round-atomic w hs f sent room =
      let c = (take_command f).0 in
      let g = (take_command f).1 in
      let s =
        run_all-Sends hs g sent (ap (λ v. length v.command.bytes) (take_command-vendor f) ∙ room) in
      let before = ap (λ o. o >>= λ x. round_with w (c, x)) (s.sends g) in
      let kept = round_with-with_host w c g g in
      let during = round_with-with_host w c s.after g in
      let after =
        >>=-cong (round_with w (c, g)) (λ x. ok (with_host s.after x))
          (λ x. run_all hs (with_host g x)) (λ x. sym (s.sends x)) in
      before
      ∙ during
      ∙ after
      ∙ sym (ap (λ o. o >>= run_all hs) kept ∙ >>=-assoc (round_with w (c, g)) _ (run_all hs))
