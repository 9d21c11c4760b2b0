-- ===== src/Usb/Examples.antt =====
-- The USB side at concrete inputs: tests, and the theorems at inputs that meet their hypotheses.
mod Thread
mod Requests
pub mod Queues
mod Delivery
mod Heard
use crazyradio2_firmware.Base.{
  ℕ, ◌+◌, ◌-◌, ◌%◌, ◌&&◌, ◌≡◌, refl, Bool, true, false, none, some, List, [], ◌∷◌, ◌++◌, length,
  take, replicate, arith, ap, sym, get_or, if◌then◌else◌, ◌==◌,
}
use crazyradio2_firmware.Platform.Trace.{last_write, writes, last_mode}
use crazyradio2_firmware.Platform.{nrf_1mbit, nrf_2mbit}
use crazyradio2_firmware.Esb.State.{Esb, EsbPacket, SnifferPacket, statics}
use crazyradio2_firmware.Esb.Isr.{Irq}
use crazyradio2_firmware.Esb.Api.Invariant.{Inv}
use crazyradio2_firmware.Esb.Send.{Air}
use crazyradio2_firmware.Esb.Send.Buffers.{Receives}
use crazyradio2_firmware.Esb.Send.Exchange.{Exchange, with_exchanges, to_attempt}
use crazyradio2_firmware.Esb.Sniffer.{SnifferAir}
use crazyradio2_firmware.Usb.State.{
  Usb, DataCommand, SetupPacket, ok, fault, Gives, no_packet, initial,
}
use crazyradio2_firmware.Usb.Out.{out_statics}
use crazyradio2_firmware.Usb.Out.Reassembly.{IsTransferred, IsFresh, flat, run, run-IsTransferred}
use crazyradio2_firmware.Usb.Command.{change_datarate, set_inline_mode, set_radio_mode}
use crazyradio2_firmware.Usb.Command.Settings.{datarate-modes}
use crazyradio2_firmware.Usb.Scan.{fw_scan}
use crazyradio2_firmware.Usb.Scan.Probe.{HasPackets, IsListening}
use crazyradio2_firmware.Usb.Scan.Channels.{heard, Holds, fw_scan-Holds}
use crazyradio2_firmware.Usb.Vendor.{
  VendorState, not_supported, queue_command, crazyradio_vendor_handler,
}
use crazyradio2_firmware.Usb.Vendor.Requests.{
  VendorInv, Fits, crazyradio_vendor_handler-VendorInv, vendor_handler-refuses,
}
use crazyradio2_firmware.Usb.Data.{
  data_command, apply_inline_header, handle_data, answer_sent, normal_round,
}
use crazyradio2_firmware.Usb.Data.InlineReplies.{InlineReply, answer_sent-InlineReply}
use crazyradio2_firmware.Usb.Data.Replies.{PlainReply, answer_sent-PlainReply}
use crazyradio2_firmware.Usb.Stream.{stream_packet, sniffer_round}
use crazyradio2_firmware.Usb.Stream.Packets.{IsStreamed, stream_packet-IsStreamed}
use crazyradio2_firmware.Usb.Invariant.{UsbInv, HasRoom, IsCommand}
use crazyradio2_firmware.Usb.Invariant.Data.{handle_data-fault}
use crazyradio2_firmware.Usb.Invariant.Rounds.{IsSniffed, normal_round-UsbInv, sniffer_round-UsbInv}

abbrev pub ready : Esb
ready = record statics { is_init = true }

abbrev pub idle : Usb
idle = initial ready 0 0

abbrev pub irq : Irq
irq = record {
  received = no_packet;
  crc_ok = true;
  rssi = 40;
  pipe = 0;
  capture3 = 5000;
  end_time = 1000;
  compare1 = false;
}

abbrev pub pong : EsbPacket
pong = record { length = 2; s1 = 0; bytes = 1 ∷ 2 ∷ replicate 61 0 }

abbrev pub reply : Exchange
reply = record { sent = irq; ended = irq; received = some pong; crc_ok = true }

abbrev pub air : Air
air = record { loss_draw = 7; ack_loss_draw = 7; attempt = λ k. to_attempt reply; rssi_sample = 45 }

-- A receiver on channel 43 answers the third transmission; everything else is noise.
abbrev pub receiver : ℕ → ℕ → Exchange
receiver c k = record reply { crc_ok = c == 43 && k == 2 }

-- A transfer of 70 bytes.
abbrev first_part : List ℕ
first_part = replicate 64 1

abbrev last_part : List ℕ
last_part = 1 ∷ 2 ∷ 3 ∷ 4 ∷ 5 ∷ 6 ∷ []

pub out_statics-IsFresh : IsFresh out_statics
out_statics-IsFresh = record { not_midway = refl; has_room = refl }

run-IsTransferred_example :
    IsTransferred
      (flat (first_part ∷ []) ++ last_part)
      (run ((first_part ∷ []) ++ last_part ∷ []) out_statics)
run-IsTransferred_example =
    run-IsTransferred (first_part ∷ []) last_part out_statics out_statics-IsFresh (refl, tt)
      (omega arith)

ready-Inv : Inv ready
ready-Inv = ground arith

pub idle-UsbInv : UsbInv idle
idle-UsbInv = record {
  radio_inv = ready-Inv;
  packet_room = refl;
  ack_room = refl;
  scan_packet_room = refl;
  scan_ack_room = refl;
  answer_room = refl;
  scan_room = refl;
  scan_count = omega arith;
}

pub air-Receives : Receives HasRoom air
air-Receives k p e = ap (λ o. length (elim o [ none ↦ [] | some q ↦ q.bytes ])) (sym e)

pub receiver-HasPackets : (c : ℕ) → HasPackets (receiver c)
receiver-HasPackets c k h = (pong, refl)

pub ready-IsListening : IsListening ready
ready-IsListening = ground arith

fw_scan-Holds_example :
    Gives
      (Holds (take 63 (heard receiver 4 (44 + 1 - 42) 42)))
      (fw_scan (λ c. with_exchanges air (receiver c)) 42 44 (0xff ∷ []) 1 idle)
fw_scan-Holds_example =
    fw_scan-Holds air receiver 42 44 (0xff ∷ []) 1 idle receiver-HasPackets (omega arith)
      (omega arith) refl refl ready-IsListening

heard_runs : heard receiver 4 3 42 ≡ 43 ∷ []
unfolding heard
heard_runs = refl

abbrev pub request : ℕ → ℕ → ℕ → Bool → SetupPacket
request b_request w_value w_length to_host = record {
  is_vendor = true;
  to_host = to_host;
  b_request = b_request;
  w_value = w_value;
  w_index = 0;
  w_length = w_length;
}

abbrev pub vendor_state : VendorState
vendor_state = record {
  usb = idle;
  command = record { setup_packet = request 0 0 0 false; length = 0; bytes = replicate 16 0 };
}

pub vendor_state-VendorInv : VendorInv vendor_state
vendor_state-VendorInv = record { usb_inv = idle-UsbInv; command_room = refl }

abbrev pub inline_header : List ℕ
inline_header = 12 ∷ 0x11 ∷ 80 ∷ 0xe7 ∷ 0xe7 ∷ 0xe7 ∷ 0xe7 ∷ 0xe7 ∷ replicate 120 0

datarate-modes_example :
    let requested = change_datarate (get_or inline_header 1 0 % 4) idle in
    let inline = apply_inline_header 0 inline_header idle in
    (requested.datarate ≡ inline.datarate)
    × (get_or inline_header 1 0 % 4 ≡ 1
        → (last_mode requested.radio.calls ≡ some nrf_1mbit)
          × (last_mode inline.radio.calls ≡ some nrf_2mbit))
    × (get_or inline_header 1 0 % 4 ≡ 2
        → (last_mode requested.radio.calls ≡ some nrf_2mbit)
          × (last_mode inline.radio.calls ≡ last_mode idle.radio.calls))
datarate-modes_example = datarate-modes 0 inline_header idle
