-- ===== src/Usb/State.antt =====
-- The commands and the static variables of src/legacy_usb.c, lines 16 to 118 and 224 to 255.
pub mod Partial
pub mod Carries
use crazyradio2_firmware.Base.{
  ℕ, ◌+◌, ◌≤◌, ◌<◌, ◌⊎◌, inl, inr, arith, ◌≡◌, ap, ◌&&◌, Bool, true, false, List, leb,
  if◌then◌else◌, take, length, blit, replicate,
}
use crazyradio2_firmware.Platform.{Calls}
use crazyradio2_firmware.Esb.State.{Esb, EsbPacket, ◌▹▹◌}

abbrev pub usb_answer_max_length : ℕ
usb_answer_max_length = 128

abbrev pub crazyradio_bulk_ep_mps : ℕ
crazyradio_bulk_ep_mps = 64

-- `struct data_command`; `payload` is an array of 128 bytes.
pub record DataCommand : Type 0 where
  pub payload : List ℕ
  pub length : ℕ

-- `struct usb_setup_packet` of Zephyr; `is_vendor` and `to_host` are what its macros read in
-- `bmRequestType`.
pub record SetupPacket : Type 0 where
  pub is_vendor : Bool
  pub to_host : Bool
  pub b_request : ℕ
  pub w_value : ℕ
  pub w_index : ℕ
  pub w_length : ℕ

-- `struct setup_command`; `bytes` is the array `data`, of 16 bytes.
pub record SetupCommand : Type 0 where
  pub setup_packet : SetupPacket
  pub length : ℕ
  pub bytes : List ℕ

-- `state`, with the radio below it, the variables of `usb_thread` and `fw_scan` that outlive a
-- round, and the drop counter.
pub record Usb : Type 0 where
  pub radio : Esb
  pub datarate : ℕ
  pub channel : ℕ
  pub ack_enabled : Bool
  pub scan_result : List ℕ
  pub scan_result_length : ℕ
  pub inline_mode : Bool
  pub inline_rssi_mode : Bool
  pub sniffer_mode : Bool
  pub usb_answer : List ℕ
  pub packet : EsbPacket
  pub ack : EsbPacket
  pub rssi : ℕ
  pub arc_counter : ℕ
  pub scan_packet : EsbPacket
  pub scan_ack : EsbPacket
  pub sniffer_drop_count : ℕ

abbrev pub no_packet : EsbPacket
no_packet = record { length = 0; s1 = 0; bytes = replicate 63 0 }

-- The values that the variables are declared with. `rssi` and `arc_counter` have none.
abbrev pub initial : Esb → (rssi arc_counter : ℕ) → Usb
initial radio rssi arc_counter = record {
  radio = radio;
  datarate = 2;
  channel = 42;
  ack_enabled = true;
  scan_result = replicate 63 0;
  scan_result_length = 0;
  inline_mode = false;
  inline_rssi_mode = false;
  sniffer_mode = false;
  usb_answer = replicate 128 0;
  packet = no_packet;
  ack = no_packet;
  rssi = rssi;
  arc_counter = arc_counter;
  scan_packet = no_packet;
  scan_ack = no_packet;
  sniffer_drop_count = 0;
}

-- Calls made beside the radio's own.
infixl 20 ◌▹▹▹◌
abbrev pub ◌▹▹▹◌ : Usb → (Calls → Calls) → Usb
u ▹▹▹ f = record u { radio = u.radio ▹▹ f }

-- A result, a `memcpy` that leaves its array, or a send that its fuel did not suffice for.
pub data Outcome {ℓ} (A : Type ℓ) : Type ℓ where
  ok : A → Outcome A
  fault : Outcome A
  out_of_fuel : Outcome A

infixl 5 ◌>>=◌
abbrev pub ◌>>=◌ {ℓ κ} : {A : Type ℓ} {B : Type κ} → Outcome A → (A → Outcome B) → Outcome B
ok a >>= f = f a
fault >>= f = fault
out_of_fuel >>= f = out_of_fuel

-- `memcpy(&dst[off], src, n)`
unfoldable pub memcpy : (dst : List ℕ) (off : ℕ) (src : List ℕ) (n : ℕ) → Outcome (List ℕ)
memcpy dst off src n =
    if leb (off + n) (length dst) && leb n (length src)
    then ok (blit off (take n src) dst)
    else fault

-- The result satisfies `P`; no fault, and no lack of fuel.
abbrev pub Gives {ℓ} : {A : Type ℓ} → (A → Type 0) → Outcome A → Type 0
Gives P (ok a) = P a
Gives P fault = ⊥
Gives P out_of_fuel = ⊥

pub Gives-bind {ℓ κ} :
    {A : Type ℓ} {B : Type κ} (P : A → Type 0) (Q : B → Type 0) (o : Outcome A) (f : A → Outcome B)
    → Gives P o
    → ((a : A) → P a → Gives Q (f a))
    → Gives Q (o >>= f)
Gives-bind P Q (ok a) f h k = k a h
Gives-bind P Q fault f h k = h
Gives-bind P Q out_of_fuel f h k = h

pub Gives-mono {ℓ} :
    {A : Type ℓ} (P Q : A → Type 0) (o : Outcome A) → ((a : A) → P a → Q a) → Gives P o → Gives Q o
Gives-mono P Q (ok a) f h = f a h
Gives-mono P Q fault f h = h
Gives-mono P Q out_of_fuel f h = h

-- A copy that fits both arrays leaves the rest of the destination and its length alone.
pub memcpy-fits :
    (dst : List ℕ) (off : ℕ) (src : List ℕ) (n : ℕ)
    → off + n ≤ length dst
    → n ≤ length src
    → memcpy dst off src n ≡ ok (blit off (take n src) dst)
unfolding memcpy
memcpy-fits dst off src n room enough = ground arith

-- A copy that does not is a fault.
pub memcpy-fault :
    (dst : List ℕ) (off : ℕ) (src : List ℕ) (n : ℕ)
    → (length dst < off + n) ⊎ (length src < n)
    → memcpy dst off src n ≡ fault
unfolding memcpy
memcpy-fault dst off src n (inl h) = ground arith
memcpy-fault dst off src n (inr h) = ground arith

pub fault-bind {ℓ κ} :
    {A : Type ℓ} {B : Type κ} (o : Outcome A) (f : A → Outcome B) → o ≡ fault → (o >>= f) ≡ fault
fault-bind o f e = ap (λ o'. o' >>= f) e
