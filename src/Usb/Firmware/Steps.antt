-- ===== src/Usb/Firmware/Steps.antt =====
-- Single steps of the firmware: a bulk transfer into the empty queue, the thread that takes it out, and
-- what handing packets to the sniffer's callback leaves alone.
use crazyradio2_firmware.Base.{
  ℕ, ◌<◌, ◌≡◌, refl, sym, ap, ◌∙◌, Option, none, some, List, [], ◌∷◌, ◌++◌, length, arith,
}
use crazyradio2_firmware.Esb.State.{SnifferPacket}
use crazyradio2_firmware.Usb.Queue.{MsgQueue}
use crazyradio2_firmware.Usb.Out.Reassembly.{
  IsFresh, IsGathered, AllFull, flat, run, run-IsTransferred,
}
use crazyradio2_firmware.Usb.Data.{UsbCommand, data_command}
use crazyradio2_firmware.Usb.Stream.{sniffer_rx_callback}
use crazyradio2_firmware.Usb.Firmware.{
  Firmware, with_usb, put_command, issue, get_command, put_packet, receive, receive_all, settle,
  resume, bulk_transfer,
}

module _ {cq : MsgQueue UsbCommand} {sq : MsgQueue SnifferPacket} where
  -- A command has been put into the empty queue.
  pub record Queued (c : UsbCommand) (f f' : Firmware cq sq) : Type 0 where
    pub alone : cq.contents f'.commands ≡ c ∷ []
    pub free : f'.blocked ≡ none
    pub vendor_same : f'.vendor ≡ f.vendor

  put_command-Queued :
      (c : UsbCommand) (f : Firmware cq sq)
      → 0 < cq.max_msgs
      → cq.contents f.commands ≡ []
      → f.blocked ≡ none
      → (o : Option cq.Q) → cq.put c f.commands ≡ o
      → Queued c f (put_command c f o)
  put_command-Queued c f room empty free none e =
      absurd (omega (arith, room, cq.put_none c f.commands e, ap length empty))
  put_command-Queued c f room empty free (some q) e = record {
    alone = (cq.put_some c f.commands q e).1 ∙ ap (λ cs. cs ++ c ∷ []) empty;
    free = free;
    vendor_same = refl;
  }

  pub bulk_transfer-Queued :
      (full : List (List ℕ)) (last : List ℕ) (f : Firmware cq sq)
      → 0 < cq.max_msgs
      → cq.contents f.commands ≡ []
      → f.blocked ≡ none
      → IsFresh f.out
      → AllFull full
      → length last < 64
      → let c = (run (full ++ last ∷ []) f.out).0.command in
        IsGathered (flat full ++ last) c × Queued (data_command c) f (bulk_transfer full last f)
  unfolding bulk_transfer issue
  bulk_transfer-Queued full last f room empty free fresh filled short =
      let done = run (full ++ last ∷ []) f.out in
      let made = run-IsTransferred full last f.out fresh filled short in
      let c = done.0.command in
      let f' = record f { out = done.0 } in
      let queued =
        put_command-Queued (data_command c) f' room empty free (cq.put (data_command c) f.commands)
          refl in
      (
        made.holds_bytes,
        rw made.one_command
            (record { alone = queued.alone; free = queued.free; vendor_same = queued.vendor_same }),
      )

  -- The thread takes the only command of the queue.
  pub get_command-alone :
      (P : Option UsbCommand × Firmware cq sq → Type 0) (c : UsbCommand) (f : Firmware cq sq)
      → cq.contents f.commands ≡ c ∷ []
      → f.blocked ≡ none
      → ((f' : Firmware cq sq) → f'.vendor ≡ f.vendor → P (some c, f'))
      → (o : Option (UsbCommand × cq.Q)) → cq.get f.commands ≡ o
      → P (get_command f o)
  get_command-alone P c f alone free k none e =
      let first : c ∷ [] ≡ [] = sym alone ∙ cq.get_none f.commands e in absurd (ground arith)
  get_command-alone P c f alone free k (some r) e =
      let first : c ∷ [] ≡ r.0 ∷ cq.contents r.1 = sym alone ∙ cq.get_some f.commands r e in
      let same : r.0 ≡ c = ground arith in
      let g = record f { commands = r.1; taken = f.taken ++ r.0 ∷ [] } in
      let taken : get_command f (some r) ≡ (some c, g) =
        ap (λ x. (some x, resume g f.blocked)) same ∙ ap (λ b. (some c, resume g b)) free in
      rw taken (k g refl)

  put_packet-keeps :
      (p : SnifferPacket) (f : Firmware cq sq) (o : Option sq.Q)
      → let g = put_packet p f o in
        (g.vendor.usb.radio ≡ f.vendor.usb.radio) × (g.vendor.usb.packet ≡ f.vendor.usb.packet)
  unfolding sniffer_rx_callback
  put_packet-keeps p f none = (refl, refl)
  put_packet-keeps p f (some q) = (refl, refl)

  receive_all-keeps :
      (ps : List SnifferPacket) (f : Firmware cq sq)
      → let g = receive_all ps f in
        (g.vendor.usb.radio ≡ f.vendor.usb.radio) × (g.vendor.usb.packet ≡ f.vendor.usb.packet)
  unfolding receive_all receive
  receive_all-keeps [] f = (refl, refl)
  receive_all-keeps (p ∷ ps) f =
      let g = receive_all ps f in
      let rest = receive_all-keeps ps f in
      let now = put_packet-keeps p g (sq.put p g.sniffs) in (now.0 ∙ rest.0, now.1 ∙ rest.1)

  pub settle-keeps :
      (f : Firmware cq sq)
      → let g = settle f in
        (g.vendor.usb.radio.calls ≡ f.vendor.usb.radio.calls)
        × (g.vendor.usb.packet ≡ f.vendor.usb.packet)
  unfolding settle
  settle-keeps f =
      let u = f.vendor.usb in
      let kept =
        receive_all-keeps u.radio.delivered
          (with_usb (record u { radio = record u.radio { delivered = [] } }) f) in
      (ap (λ s. s.calls) kept.0, kept.1)
