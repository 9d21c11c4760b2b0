-- ===== src/Usb/Examples/Thread.antt =====
-- The rounds of the thread at concrete inputs.
use crazyradio2_firmware.Base.{
  ℕ, zero, suc, ◌<◌, ◌≡◌, refl, true, false, some, List, [], ◌∷◌, replicate, arith,
}
use crazyradio2_firmware.Platform.Trace.{last_write}
use crazyradio2_firmware.Esb.Send.{Air}
use crazyradio2_firmware.Esb.Send.Exchange.{with_exchanges}
use crazyradio2_firmware.Esb.Sniffer.{SnifferAir}
use crazyradio2_firmware.Usb.State.{Usb, DataCommand, fault, Gives}
use crazyradio2_firmware.Usb.Data.{handle_data, answer_sent}
use crazyradio2_firmware.Usb.Data.InlineReplies.{InlineReply, answer_sent-InlineReply}
use crazyradio2_firmware.Usb.Data.Replies.{PlainReply, answer_sent-PlainReply}
use crazyradio2_firmware.Usb.Invariant.{UsbInv, IsCommand}
use crazyradio2_firmware.Usb.Invariant.Data.{handle_data-fault}
use crazyradio2_firmware.Usb.Examples.{idle, irq, air, receiver, inline_header, idle-UsbInv}
use crazyradio2_firmware.Usb.State.{SetupCommand}
use crazyradio2_firmware.Usb.Data.Delivery.{IsSending}
use crazyradio2_firmware.Esb.Send.Exchange.{answered}

-- An answer of 32 bytes after two retries.
abbrev acked : Usb
acked = record idle {
  ack = record { length = 32; s1 = 0; bytes = replicate 63 7 };
  rssi = 45;
  arc_counter = 2;
}

answer_sent-PlainReply_example :
    Gives
      (λ u'.
        (bytes : List ℕ) × (last_write u'.radio.calls ≡ some bytes) × PlainReply true acked bytes)
      (answer_sent true acked)
answer_sent-PlainReply_example =
    answer_sent-PlainReply true acked (record { no_inline = refl; acks = refl; ack_room = refl })

abbrev acked_inline : Usb
acked_inline = record acked { inline_mode = true; inline_rssi_mode = true }

answer_sent-InlineReply_example :
    Gives
      (λ u'.
        (bytes : List ℕ) × (last_write u'.radio.calls ≡ some bytes)
        × InlineReply acked_inline bytes)
      (answer_sent true acked_inline)
answer_sent-InlineReply_example = answer_sent-InlineReply acked_inline (omega arith) refl refl refl

abbrev pub inline_command : DataCommand
inline_command = record { payload = inline_header; length = 12 }

abbrev inline_idle : Usb
inline_idle = record idle { inline_mode = true }

pub inline_command-IsCommand : IsCommand inline_command
inline_command-IsCommand = record { payload_room = refl; counted = omega arith }

-- A broadcast of 128 bytes.
abbrev long_command : DataCommand
long_command = record { payload = replicate 128 1; length = 128 }

abbrev broadcasting : Usb
broadcasting = record idle { ack_enabled = false }

broadcasting-UsbInv : UsbInv broadcasting
broadcasting-UsbInv = ground (arith, idle-UsbInv)

long_command-IsCommand : IsCommand long_command
long_command-IsCommand = record { payload_room = refl; counted = omega arith }

handle_data-fault_example : handle_data air air 0 long_command broadcasting ≡ fault
handle_data-fault_example =
    handle_data-fault air air 0 long_command broadcasting long_command-IsCommand broadcasting-UsbInv
      refl

abbrev pub sniffer_air : SnifferAir
sniffer_air = record {
  stopping = irq ∷ [];
  sending = irq ∷ [];
  taken = true;
  recovering = [];
  prefix0_before = 0xe7;
  prefix0_after = 0x43;
}

abbrev pub to_sniffer : SetupCommand
to_sniffer = record {
  setup_packet = record {
    is_vendor = true;
    to_host = false;
    b_request = 0x24;
    w_value = 1;
    w_index = 0;
    w_length = 0;
  };
  length = 0;
  bytes = replicate 16 0;
}

-- The third transmission is answered.
abbrev pub channel_43 : Air
channel_43 = with_exchanges air (receiver 43)

pub idle-IsSending : IsSending channel_43 idle
idle-IsSending = record {
  no_inline = refl;
  acks = refl;
  radio_acks = refl;
  has_rate = refl;
  has_channel = omega arith;
  few_retries = omega arith;
  is_ready = ground arith;
}

pub miss_before_third : (j : ℕ) → j < 2 → answered (receiver 43 j) ≡ false
miss_before_third zero h = refl
miss_before_third (suc zero) h = refl
miss_before_third (suc (suc j)) h = absurd (omega arith)
