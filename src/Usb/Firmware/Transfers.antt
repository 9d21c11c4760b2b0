-- ===== src/Usb/Firmware/Transfers.antt =====
-- A bulk transfer of fewer than 128 bytes becomes a command that stays inside the arrays.
use crazyradio2_firmware.Base.{
  ℕ, suc, ◌-◌, ◌≤◌, ◌<◌, ◌≡◌, refl, ap, ◌∙◌, sym, List, [], ◌∷◌, ◌++◌, some, length, take, get_or,
  arith, none,
}
use crazyradio2_firmware.Esb.State.{SnifferPacket}
use crazyradio2_firmware.Usb.State.{DataCommand}
use crazyradio2_firmware.Usb.Out.Reassembly.{IsGathered, flat, AllFull, run, run-IsTransferred}
use crazyradio2_firmware.Usb.Queue.{MsgQueue}
use crazyradio2_firmware.Usb.Data.{UsbCommand, data_command}
use crazyradio2_firmware.Usb.Session.Safety.{IsTame}
use crazyradio2_firmware.Usb.Firmware.{Firmware, issue_all, bulk_transfer}
use crazyradio2_firmware.Usb.Firmware.Kept.{FirmwareInv, issue-FirmwareInv}

-- A transfer of fewer than 128 bytes that starts with a byte of at least 8.
abbrev pub IsTameTransfer : List (List ℕ) → List ℕ → Type 0
IsTameTransfer full last =
    let bytes = flat full ++ last in
    AllFull full
    × (length last < 64)
    × (length bytes < 128)
    × (8 ≤ get_or bytes 0 0)
    × (get_or bytes 0 0 < 256)

first-take :
    (n m : ℕ) (xs ys : List ℕ) → take (suc n) xs ≡ take (suc m) ys → get_or xs 0 0 ≡ get_or ys 0 0
first-take n m [] [] e = refl
first-take n m [] (y ∷ ys) e = absurd (ground arith)
first-take n m (x ∷ xs) [] e = absurd (ground arith)
first-take n m (x ∷ xs) (y ∷ ys) e = ap (λ zs. get_or zs 0 0) e

gathered-first :
    (bytes : List ℕ) (c : DataCommand)
    → IsGathered bytes c
    → 8 ≤ get_or bytes 0 0
    → get_or c.payload 0 0 ≡ get_or bytes 0 0
gathered-first [] c g h = absurd (omega (arith, h))
gathered-first (b ∷ bytes) c g h =
    let some_bytes : c.length ≡ suc (c.length - 1) = omega (arith, g.counted) in
    first-take (c.length - 1) 127 c.payload (b ∷ bytes)
      (ap (λ k. take k c.payload) (sym some_bytes) ∙ g.gathered)

pub gathered-IsTame :
    (bytes : List ℕ) (c : DataCommand)
    → IsGathered bytes c
    → length bytes < 128
    → 8 ≤ get_or bytes 0 0
    → get_or bytes 0 0 < 256
    → IsTame (some (data_command c))
gathered-IsTame bytes c g short large byte =
    let first = gathered-first bytes c g large in
    (
      record { payload_room = g.room; counted = omega (arith, g.counted) },
      omega (arith, g.counted, short),
      omega (arith, first, large),
      omega (arith, first, byte),
    )

module _ {cq : MsgQueue UsbCommand} {sq : MsgQueue SnifferPacket} where
  issue_all-FirmwareInv :
      (c : DataCommand) (cs : List DataCommand) (f : Firmware cq sq)
      → cs ≡ c ∷ []
      → IsTame (some (data_command c))
      → f.blocked ≡ none
      → FirmwareInv f
      → FirmwareInv (issue_all cs f)
  issue_all-FirmwareInv c cs f e tame free v =
      rw e (issue-FirmwareInv (data_command c) f tame free v)

  pub bulk_transfer-FirmwareInv :
      (full : List (List ℕ)) (last : List ℕ) (f : Firmware cq sq)
      → IsTameTransfer full last
      → f.blocked ≡ none
      → FirmwareInv f
      → FirmwareInv (bulk_transfer full last f)
  unfolding bulk_transfer
  bulk_transfer-FirmwareInv full last f t free v =
      let done = run (full ++ last ∷ []) f.out in
      let made = run-IsTransferred full last f.out v.out_fresh t.0 t.1 in
      issue_all-FirmwareInv done.0.command done.1 _ made.one_command
        (gathered-IsTame (flat full ++ last) done.0.command made.holds_bytes t.2 t.3 t.4) free
        (record {
          vendor_inv = v.vendor_inv;
          out_fresh = made.ready_again;
          ordered = v.ordered;
          conserved = v.conserved;
          is_unlocked = v.is_unlocked;
        })
