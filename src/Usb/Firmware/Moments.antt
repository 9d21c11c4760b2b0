-- ===== src/Usb/Firmware/Moments.antt =====
-- Runs in which the callbacks of the USB stack cut in on the rounds of the thread.
use crazyradio2_firmware.Base.{◌≡◌, refl, sym, ap, ◌∙◌, List, [], ◌∷◌, ◌++◌}
use crazyradio2_firmware.Esb.State.{SnifferPacket}
use crazyradio2_firmware.Usb.State.{Outcome, ok, fault, out_of_fuel, ◌>>=◌, Gives}
use crazyradio2_firmware.Usb.Queue.{MsgQueue}
use crazyradio2_firmware.Usb.Data.{UsbCommand}
use crazyradio2_firmware.Usb.Firmware.{Firmware, World, Happening, turned, happen, run_all}
use crazyradio2_firmware.Usb.Firmware.Kept.{FirmwareInv}
use crazyradio2_firmware.Usb.Firmware.Runs.{AllSane, run_all-FirmwareInv}
use crazyradio2_firmware.Usb.Firmware.Sides.{>>=-assoc, >>=-cong}
use crazyradio2_firmware.Usb.Firmware.Interleaving.{
  AllSent, overlapped_round, overlapped_round-atomic,
}

-- Something that runs whole, or a round of the thread that the host cuts in on with `sent`.
pub data Moment : Type 0 where
  whole : Happening → Moment
  overlapped : World → (sent : List Happening) → Moment

-- The order in which the same things happen one after the other.
abbrev pub in_turn : Moment → List Happening
in_turn (whole h) = h ∷ []
in_turn (overlapped w sent) = turned w ∷ sent

abbrev pub all_in_turn : List Moment → List Happening
all_in_turn [] = []
all_in_turn (m ∷ ms) = in_turn m ++ all_in_turn ms

abbrev pub OnlySends : Moment → Type 0
OnlySends (whole h) = Unit
OnlySends (overlapped w sent) = AllSent sent

abbrev pub AllOnlySend : List Moment → Type 0
AllOnlySend [] = Unit
AllOnlySend (m ∷ ms) = OnlySends m × AllOnlySend ms

>>=-ok {ℓ} : {A : Type ℓ} (o : Outcome A) → (o >>= ok) ≡ o
>>=-ok (ok a) = refl
>>=-ok fault = refl
>>=-ok out_of_fuel = refl

Gives-cong {ℓ κ} :
    {A : Type ℓ} {B : Type κ} (P : A → Type 0) (o : Outcome A) (f g : A → Outcome B)
    → Gives P o
    → ((a : A) → P a → f a ≡ g a)
    → (o >>= f) ≡ (o >>= g)
Gives-cong P (ok a) f g h k = k a h
Gives-cong P fault f g h k = refl
Gives-cong P out_of_fuel f g h k = refl

AllSane-append : (hs ks : List Happening) → AllSane (hs ++ ks) → AllSane hs × AllSane ks
AllSane-append [] ks s = (tt, s)
AllSane-append (h ∷ hs) ks s = let r = AllSane-append hs ks s.1 in ((s.0, r.0), r.1)

module _ {cq : MsgQueue UsbCommand} {sq : MsgQueue SnifferPacket} where
  run_all-append :
      (hs ks : List Happening) (f : Firmware cq sq)
      → run_all (hs ++ ks) f ≡ (run_all hs f >>= run_all ks)
  unfolding run_all
  run_all-append [] ks f = refl
  run_all-append (h ∷ hs) ks f =
      >>=-cong (happen h f) _ _ (λ g. run_all-append hs ks g)
      ∙ sym (>>=-assoc (happen h f) (run_all hs) (run_all ks))

  unfoldable pub pass : Moment → Firmware cq sq → Outcome (Firmware cq sq)
  pass (whole h) f = happen h f
  pass (overlapped w sent) f = overlapped_round w sent f

  unfoldable pub run_moments : List Moment → Firmware cq sq → Outcome (Firmware cq sq)
  run_moments [] f = ok f
  run_moments (m ∷ ms) f = pass m f >>= run_moments ms

  pass-in_turn :
      (m : Moment) (f : Firmware cq sq)
      → OnlySends m
      → FirmwareInv f
      → pass m f ≡ run_all (in_turn m) f
  unfolding pass run_all happen
  pass-in_turn (whole h) f s v = sym (>>=-ok (happen h f))
  pass-in_turn (overlapped w sent) f s v =
      overlapped_round-atomic w sent f s v.vendor_inv.command_room

  -- A run in which bulk transfers, and requests that become commands, cut in on rounds of the thread,
  -- after it has taken its command and before it handles it, ends as the run does in which each of
  -- those rounds comes whole, and what cut in on it after it. The run starts from a sound state, a
  -- transfer is of fewer than 128 bytes and starts with a byte of at least 8, the radio fills whole
  -- buffers, and the data of a request is there.
  pub run_moments-in_turn :
      (ms : List Moment) (f : Firmware cq sq)
      → AllOnlySend ms
      → AllSane (all_in_turn ms)
      → FirmwareInv f
      → run_moments ms f ≡ run_all (all_in_turn ms) f
  unfolding run_moments run_all
  run_moments-in_turn [] f s sane v = refl
  run_moments-in_turn (m ∷ ms) f s sane v =
      let (now, later) = AllSane-append (in_turn m) (all_in_turn ms) sane in
      let given = run_all-FirmwareInv (in_turn m) f now v in
      ap (λ o. o >>= run_moments ms) (pass-in_turn m f s.0 v)
      ∙ Gives-cong FirmwareInv (run_all (in_turn m) f) (run_moments ms) (run_all (all_in_turn ms))
          given (λ g w. run_moments-in_turn ms g s.1 later w)
      ∙ sym (run_all-append (in_turn m) (all_in_turn ms) f)
