-- ===== src/Esb/State.antt =====
-- The packets of src/esb.h and the static variables of src/esb.c.
use crazyradio2_firmware.Base.{ℕ, Bool, true, false, List, []}
use crazyradio2_firmware.Platform.{Calls, Buffer, null}

abbrev pub esb_max_payload_length : ℕ
esb_max_payload_length = 63

-- `struct esbPacket_s`; `bytes` is the array `data`, of 63 bytes.
pub record EsbPacket : Type 0 where
  pub length : ℕ
  pub s1 : ℕ
  pub bytes : List ℕ

-- `struct esbSnifferPacket_s`
pub record SnifferPacket : Type 0 where
  pub length : ℕ
  pub rssi : ℕ
  pub pipe : ℕ
  pub timestamp_us : ℕ
  pub bytes : List ℕ

-- `uint8_t address[5]`
pub record Address : Type 0 where
  pub a0 : ℕ
  pub a1 : ℕ
  pub a2 : ℕ
  pub a3 : ℕ
  pub a4 : ℕ

-- The static variables. The two loss counters are left out: they are only ever set to 0.
-- `sniffer_callback` says whether the pointer is set; a call through it adds its packet to
-- `delivered`, newest first.
pub record Esb : Type 0 where
  pub is_init : Bool
  pub sending : Bool
  pub timeout : Bool
  pub pid : ℕ
  pub ack_buffer : Buffer
  pub ack_enabled : Bool
  pub arc : ℕ
  pub packet_loss_percent : ℕ
  pub ack_loss_percent : ℕ
  pub continuous_carrier_enabled : Bool
  pub sniffer_active : Bool
  pub sniffer_callback : Bool
  pub current_pipe0_address : Address
  pub delivered : List SnifferPacket
  pub calls : Calls

abbrev pub default_address : Address
default_address = record { a0 = 0xe7; a1 = 0xe7; a2 = 0xe7; a3 = 0xe7; a4 = 0xe7 }

-- The values that the variables are declared with; `sending` and `timeout` start at 0.
abbrev pub statics : Esb
statics = record {
  is_init = false;
  sending = false;
  timeout = false;
  pid = 0;
  ack_buffer = null;
  ack_enabled = true;
  arc = 3;
  packet_loss_percent = 0;
  ack_loss_percent = 0;
  continuous_carrier_enabled = false;
  sniffer_active = false;
  sniffer_callback = false;
  current_pipe0_address = default_address;
  delivered = [];
  calls = [];
}

-- The calls that an operation adds, and nothing else of the state.
infixl 20 ◌▹▹◌
abbrev pub ◌▹▹◌ : Esb → (Calls → Calls) → Esb
s ▹▹ f = record s { calls = f s.calls }
