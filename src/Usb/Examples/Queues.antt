-- ===== src/Usb/Examples/Queues.antt =====
-- The firmware with its queues as lists, at concrete inputs.
use crazyradio2_firmware.Base.{
  ℕ, zero, suc, map, replicate, ◌≤◌, ◌<◌, ◌≡◌, refl, inl, false, Option, none, some, List, [], ◌∷◌,
  ◌++◌, length, ltb, if◌then◌else◌, arith, inr,
}
use crazyradio2_firmware.Usb.State.{Gives}
use crazyradio2_firmware.Usb.Out.{out_statics}
use crazyradio2_firmware.Usb.Firmware.Transfers.{IsTameTransfer}
use crazyradio2_firmware.Usb.Vendor.{is_queued_request}
use crazyradio2_firmware.Usb.Queue.{MsgQueue}
use crazyradio2_firmware.Usb.Data.{UsbCommand, data_command}
use crazyradio2_firmware.Esb.State.{SnifferPacket}
use crazyradio2_firmware.Usb.Session.Safety.{IsTame}
use crazyradio2_firmware.Usb.Firmware.{
  Firmware, World, Happening, transferred, requested, interrupted, turned, run_all,
}
use crazyradio2_firmware.Usb.Firmware.Commands.{AllTame}
use crazyradio2_firmware.Usb.Firmware.Draining.{waiting, run_all-drains}
use crazyradio2_firmware.Usb.Firmware.Kept.{IsOrdered, IsConserved, IsUnlocked, FirmwareInv}
use crazyradio2_firmware.Usb.Firmware.Runs.{
  AllSane, run_all-IsOrdered, run_all-IsConserved, run_all-IsUnlocked,
}
use crazyradio2_firmware.Usb.Firmware.Interleaving.{AllSent}
use crazyradio2_firmware.Usb.Firmware.Moments.{
  Moment, whole, overlapped, all_in_turn, run_moments, run_moments-in_turn,
}
use crazyradio2_firmware.Usb.Examples.{
  irq, air, request, vendor_state, air-Receives, vendor_state-VendorInv, out_statics-IsFresh,
}
use crazyradio2_firmware.Usb.Examples.Thread.{inline_command, sniffer_air, inline_command-IsCommand}

module _ {A : Type 0} where
  abbrev pub list_get : List A → Option (A × List A)
  list_get [] = none
  list_get (a ∷ xs) = some (a, xs)

  abbrev pub list_put : ℕ → A → List A → Option (List A)
  list_put n a xs = if ltb (length xs) n then some (xs ++ a ∷ []) else none

  pub list_put-none : (n : ℕ) (a : A) (xs : List A) → list_put n a xs ≡ none → n ≤ length xs
  list_put-none n a xs e = ground arith

  pub list_put-some :
      (n : ℕ) (a : A) (xs bs : List A)
      → list_put n a xs ≡ some bs
      → (length xs < n) × (bs ≡ xs ++ a ∷ [])
  list_put-some n a xs bs e = ground arith

  pub list_get-none : (xs : List A) → list_get xs ≡ none → xs ≡ []
  list_get-none [] e = refl
  list_get-none (a ∷ xs) e = absurd (ground arith)

  pub list_get-some : (xs : List A) (r : A × List A) → list_get xs ≡ some r → xs ≡ r.0 ∷ r.1
  list_get-some [] r e = absurd (ground arith)
  list_get-some (a ∷ xs) r e = ground arith

abbrev pub list_queue : ℕ → (A : Type 0) → MsgQueue A
list_queue n A = record {
  Q = List A;
  max_msgs = n;
  contents = λ xs. xs;
  put = list_put n;
  get = list_get;
  purge = λ xs. [];
  put_none = list_put-none n;
  put_some = list_put-some n;
  get_none = list_get-none;
  get_some = list_get-some;
  purge_empties = λ xs. refl;
}

abbrev pub booted : Firmware (list_queue 10 UsbCommand) (list_queue 8 SnifferPacket)
booted = record {
  vendor = vendor_state;
  out = out_statics;
  commands = [];
  sniffs = [];
  blocked = none;
  issued = [];
  taken = [];
  accepted = [];
  lost = [];
  streamed = [];
}

pub booted-FirmwareInv : FirmwareInv booted
booted-FirmwareInv = record {
  vendor_inv = vendor_state-VendorInv;
  out_fresh = out_statics-IsFresh;
  ordered = record {
    in_order = refl;
    bounded = omega arith;
    full_if_blocked = inl refl;
    tame = tt;
  };
  conserved = record {
    in_order = refl;
    counted = refl;
    bounded = omega arith;
    queue_fits = refl;
    delivered_fits = refl;
  };
  is_unlocked = refl;
}

abbrev pub world : World
world = record { first = air; air = air; sniffer_air = sniffer_air; prefix0 = 0; irqs = [] }

abbrev pub full_packet : List ℕ
full_packet = replicate 64 9

abbrev pub short_packet : List ℕ
short_packet = replicate 12 9

pub short-IsTameTransfer : IsTameTransfer [] short_packet
short-IsTameTransfer = (tt, omega arith, omega arith, omega arith, omega arith)

long-IsTameTransfer : IsTameTransfer (full_packet ∷ []) short_packet
long-IsTameTransfer = ((refl, tt), omega arith, omega arith, omega arith, omega arith)

-- A packet is sent, the sniffer mode is entered, a packet is heard and handed on, and one is
-- broadcast.
abbrev pub story : List Happening
story =
    transferred [] short_packet
    ∷ requested (λ c. air) (request 0x24 1 0 false) 0 []
    ∷ turned world
    ∷ turned world
    ∷ interrupted irq
    ∷ transferred (full_packet ∷ []) short_packet
    ∷ turned world
    ∷ []

pub story-AllSane : AllSane story
story-AllSane = (
  short-IsTameTransfer,
  (
    ((λ c. air-Receives), omega arith, omega arith),
    (
      (air-Receives, air-Receives),
      (
        (air-Receives, air-Receives),
        (tt, (long-IsTameTransfer, ((air-Receives, air-Receives), tt))),
      ),
    ),
  ),
)

run_all-IsOrdered_example : Gives IsOrdered (run_all story booted)
run_all-IsOrdered_example = run_all-IsOrdered story booted story-AllSane booted-FirmwareInv

run_all-IsConserved_example : Gives IsConserved (run_all story booted)
run_all-IsConserved_example = run_all-IsConserved story booted story-AllSane booted-FirmwareInv

run_all-IsUnlocked_example : Gives IsUnlocked (run_all story booted)
run_all-IsUnlocked_example = run_all-IsUnlocked story booted story-AllSane booted-FirmwareInv

-- Eleven commands wait, one of them for room in the queue.
abbrev command : UsbCommand
command = data_command inline_command

command-IsTame : IsTame (some command)
command-IsTame = (inline_command-IsCommand, omega arith, omega arith, omega arith)

abbrev crowded : Firmware (list_queue 10 UsbCommand) (list_queue 8 SnifferPacket)
crowded = record booted {
  commands = replicate 10 command;
  blocked = some command;
  issued = replicate 11 command;
}

all-tame : (n : ℕ) → AllTame (replicate n command)
all-tame zero = tt
all-tame (suc n) = (command-IsTame, all-tame n)

crowded-FirmwareInv : FirmwareInv crowded
crowded-FirmwareInv = record {
  vendor_inv = vendor_state-VendorInv;
  out_fresh = out_statics-IsFresh;
  ordered = record {
    in_order = refl;
    bounded = omega arith;
    full_if_blocked = inr refl;
    tame = all-tame 11;
  };
  conserved = booted-FirmwareInv.conserved;
  is_unlocked = refl;
}

worlds-AllSane : (n : ℕ) → AllSane (map turned (replicate n world))
worlds-AllSane zero = tt
worlds-AllSane (suc n) = ((air-Receives, air-Receives), worlds-AllSane n)

run_all-drains_example :
    Gives
      (λ f. (waiting f ≡ []) × (f.taken ≡ replicate 11 command))
      (run_all (map turned (replicate 11 world)) crowded)
run_all-drains_example =
    run_all-drains (replicate 11 world) crowded (worlds-AllSane 11) (omega arith) (omega arith)
      crowded-FirmwareInv

-- While the thread sends the first packet, the host asks for the sniffer mode and hands over another
-- packet.
abbrev cut_in : List Happening
cut_in =
    requested (λ c. air) (request 0x24 1 0 false) 0 []
    ∷ transferred (full_packet ∷ []) short_packet
    ∷ []

cut_in-AllSent : AllSent cut_in
unfolding is_queued_request
cut_in-AllSent = ((refl, refl, omega arith), (tt, tt))

abbrev moments : List Moment
moments =
    whole (transferred [] short_packet)
    ∷ overlapped world cut_in
    ∷ whole (turned world)
    ∷ overlapped world []
    ∷ []

moments-AllSane : AllSane (all_in_turn moments)
moments-AllSane = (
  short-IsTameTransfer,
  (
    (air-Receives, air-Receives),
    (
      ((λ c. air-Receives), omega arith, omega arith),
      (long-IsTameTransfer, ((air-Receives, air-Receives), ((air-Receives, air-Receives), tt))),
    ),
  ),
)

run_moments-in_turn_example : run_moments moments booted ≡ run_all (all_in_turn moments) booted
run_moments-in_turn_example =
    run_moments-in_turn moments booted (tt, (cut_in-AllSent, (tt, (tt, tt)))) moments-AllSane
      booted-FirmwareInv
