-- ===== src/Usb/Firmware/Commands.antt =====
-- The order of the commands: nothing between the host and the thread is lost or overtaken.
use crazyradio2_firmware.Base.{
  ◌≤◌, ◌<◌, ◌≡◌, refl, sym, ap, ◌∙◌, ◌⊎◌, inl, inr, Option, none, some, List, [], ◌∷◌, ◌++◌,
  append_assoc, append-nil, length, length-append, arith,
}
use crazyradio2_firmware.Usb.Queue.{MsgQueue}
use crazyradio2_firmware.Usb.Data.{UsbCommand}
use crazyradio2_firmware.Usb.Session.Safety.{IsTame}

abbrev pub pending : Option UsbCommand → List UsbCommand
pending none = []
pending (some c) = c ∷ []

abbrev pub AllTame : List UsbCommand → Type 0
AllTame [] = Unit
AllTame (c ∷ cs) = IsTame (some c) × AllTame cs

AllTame-snoc :
    (cs : List UsbCommand) (c : UsbCommand) → AllTame cs → IsTame (some c) → AllTame (cs ++ c ∷ [])
AllTame-snoc [] c h k = (k, tt)
AllTame-snoc (d ∷ cs) c h k = (h.0, AllTame-snoc cs c h.1 k)

-- The commands that were made are those that were taken, then those in the queue, then the one that
-- waits for room, which waits only while the queue is full.
pub record Ordered (cq : MsgQueue UsbCommand) (q : cq.Q) (blocked : Option UsbCommand)
    (issued taken : List UsbCommand) : Type 0 where
  pub in_order : issued ≡ taken ++ (cq.contents q ++ pending blocked)
  pub bounded : length (cq.contents q) ≤ cq.max_msgs
  pub full_if_blocked : (blocked ≡ none) ⊎ (length (cq.contents q) ≡ cq.max_msgs)
  pub tame : AllTame (cq.contents q ++ pending blocked)

AllTame-nil : (cs : List UsbCommand) → AllTame (cs ++ []) → AllTame cs
AllTame-nil [] h = h
AllTame-nil (c ∷ cs) h = (h.0, AllTame-nil cs h.1)

AllTame-bare : (cs : List UsbCommand) → AllTame cs → AllTame (cs ++ [])
AllTame-bare [] h = h
AllTame-bare (c ∷ cs) h = (h.0, AllTame-bare cs h.1)

AllTame-same : (cs ds : List UsbCommand) → cs ≡ ds → AllTame cs → AllTame ds
AllTame-same cs ds e h = rw (← e) h

-- A new command goes to the end of what waits.
appended :
    (xs ys zs : List UsbCommand) (c : UsbCommand)
    → zs ≡ xs ++ (ys ++ [])
    → zs ++ c ∷ [] ≡ xs ++ (ys ++ c ∷ [])
appended xs ys zs c e =
    ap (λ cs. cs ++ c ∷ []) (e ∙ ap (λ cs. xs ++ cs) (append-nil ys)) ∙ append_assoc xs ys (c ∷ [])

-- The first command leaves the queue.
moved :
    (xs ys ys' rest zs : List UsbCommand) (c : UsbCommand)
    → zs ≡ xs ++ (ys ++ rest)
    → ys ≡ c ∷ ys'
    → zs ≡ xs ++ c ∷ [] ++ (ys' ++ rest)
moved xs ys ys' rest zs c e first =
    e ∙ ap (λ cs. xs ++ (cs ++ rest)) first ∙ sym (append_assoc xs (c ∷ []) (ys' ++ rest))

module _ {cq : MsgQueue UsbCommand} {q : cq.Q} {issued taken : List UsbCommand} where
  pub waits-Ordered :
      (c : UsbCommand)
      → Ordered cq q none issued taken
      → cq.max_msgs ≤ length (cq.contents q)
      → IsTame (some c)
      → Ordered cq q (some c) (issued ++ c ∷ []) taken
  waits-Ordered c o full tame = record {
    in_order = appended taken (cq.contents q) issued c o.in_order;
    bounded = o.bounded;
    full_if_blocked = inr (omega (arith, o.bounded));
    tame = AllTame-snoc (cq.contents q) c (AllTame-nil _ o.tame) tame;
  }

  pub queued-Ordered :
      (c : UsbCommand) (q' : cq.Q)
      → Ordered cq q none issued taken
      → length (cq.contents q) < cq.max_msgs
      → cq.contents q' ≡ cq.contents q ++ c ∷ []
      → IsTame (some c)
      → Ordered cq q' none (issued ++ c ∷ []) taken
  queued-Ordered c q' o room e tame =
      let all_tame = AllTame-snoc (cq.contents q) c (AllTame-nil _ o.tame) tame in
      record {
        in_order =
            appended taken (cq.contents q) issued c o.in_order
            ∙ ap (λ cs. taken ++ cs) (sym (append-nil _) ∙ ap (λ cs. cs ++ []) (sym e));
        bounded = omega (arith, length-append (cq.contents q) (c ∷ []), ap length e);
        full_if_blocked = inl refl;
        tame = AllTame-bare _ (AllTame-same _ _ (sym e) all_tame);
      }

  pub taken-Ordered :
      (c : UsbCommand) (q' : cq.Q)
      → Ordered cq q none issued taken
      → cq.contents q ≡ c ∷ cq.contents q'
      → Ordered cq q' none issued (taken ++ c ∷ [])
  taken-Ordered c q' o first =
      let tame : AllTame (c ∷ cq.contents q' ++ []) =
        AllTame-same _ _ (ap (λ cs. cs ++ []) first) o.tame in
      record {
        in_order = moved taken (cq.contents q) (cq.contents q') [] issued c o.in_order first;
        bounded = omega (arith, o.bounded, ap length first);
        full_if_blocked = inl refl;
        tame = tame.1;
      }

  pub resumed-Ordered :
      (c b : UsbCommand) (q' q'' : cq.Q)
      → Ordered cq q (some b) issued taken
      → cq.contents q ≡ c ∷ cq.contents q'
      → cq.contents q'' ≡ cq.contents q' ++ b ∷ []
      → Ordered cq q'' none issued (taken ++ c ∷ [])
  resumed-Ordered c b q' q'' o first last =
      let tame : AllTame (c ∷ cq.contents q' ++ b ∷ []) =
        AllTame-same _ _ (ap (λ cs. cs ++ b ∷ []) first) o.tame in
      let tame' = AllTame-same _ _ (sym last) tame.1 in
      record {
        in_order =
            moved taken (cq.contents q) (cq.contents q') (b ∷ []) issued c o.in_order first
            ∙ ap (λ cs. taken ++ c ∷ [] ++ cs) (sym last ∙ sym (append-nil _));
        bounded = omega (
          arith,
          o.bounded,
          ap length first,
          ap length last,
          length-append (cq.contents q') (b ∷ []),
        );
        full_if_blocked = inl refl;
        tame = AllTame-bare _ tame';
      }

-- The command that was taken is tame.
pub first-IsTame :
    (cq : MsgQueue UsbCommand) (q q' : cq.Q) (blocked : Option UsbCommand) (c : UsbCommand)
    → AllTame (cq.contents q ++ pending blocked)
    → cq.contents q ≡ c ∷ cq.contents q'
    → IsTame (some c)
first-IsTame cq q q' blocked c tame first =
    let all : AllTame (c ∷ cq.contents q' ++ pending blocked) =
      AllTame-same _ _ (ap (λ cs. cs ++ pending blocked) first) tame in
    all.0
