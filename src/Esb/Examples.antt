-- ===== src/Esb/Examples.antt =====
-- The radio at concrete inputs: tests, and the theorems at inputs that meet their hypotheses.
mod Waits
use crazyradio2_firmware.Base.{
  ℕ, zero, suc, ◌+◌, ◌/◌, ◌%◌, ◌^◌, ◌≤◌, ◌<◌, Returns, ◌≡◌, ◌≢◌, refl, true, false, none, some,
  List, [], ◌∷◌, replicate, arith,
}
use crazyradio2_firmware.Platform.{tx_packet, ack_packet, sniffer_rx_buffer, task_txen, task_rxen}
use crazyradio2_firmware.Platform.Trace.{
  last_task, last_packetptr, last_shorts, int_enabled, gives, held, guarded, transmissions, tx_line,
  rx_line, sem_available, last_base0, last_base1, last_prefix0,
}
use crazyradio2_firmware.Esb.State.{Esb, EsbPacket, Address, statics, default_address}
use crazyradio2_firmware.Esb.Isr.{Irq, radio_isr, interrupts}
use crazyradio2_firmware.Esb.Address.{
  swap_bits, bytewise_bitswap, esb_set_address, esb_set_address_pipe1, base_word, with_prefix0,
}
use crazyradio2_firmware.Esb.Address.Swap.{swap_bits_mirrors, bytewise_bitswap_twice}
use crazyradio2_firmware.Esb.Address.Registers.{
  IsAddress, on_air, esb_set_address-on_air, esb_set_address_pipe1-on_air,
}
use crazyradio2_firmware.Esb.Config.{esb_set_continuous_carrier}
use crazyradio2_firmware.Esb.Send.{Air, start_attempt, s1_field, esb_send_packet}
use crazyradio2_firmware.Esb.Send.Exchange.{
  Exchange, to_attempt, answered, with_exchanges, IsReady, radio_isr-exchange,
}
use crazyradio2_firmware.Esb.Send.Bounds.{SentWell, esb_send_packet-SentWell}
use crazyradio2_firmware.Esb.Send.Answers.{
  Outcome, esb_send_packet-first_answer, esb_send_packet-no_answer, esb_send_packet-broadcast,
  esb_send_packet-numbering,
}
use crazyradio2_firmware.Esb.Sniffer.{
  rx_shorts, SnifferAir, stop_rx, start_tx, esb_sniffer_start, esb_sniffer_send,
}
use crazyradio2_firmware.Esb.Sniffer.Modes.{sniffer_over_carrier}
use crazyradio2_firmware.Esb.Sniffer.Transmit.{sniffer_send-wakes, esb_sniffer_send-resumes}
use crazyradio2_firmware.Esb.Api.{
  ApiCall, interrupted, deinit, set_arc, set_ack_enabled, send_packet, sniffer_start, sniffer_send,
  sniffer_stop, run,
}
use crazyradio2_firmware.Esb.Api.Invariant.{Inv, run-Inv}

abbrev pub ready : Esb
ready = record statics { is_init = true }

abbrev pub empty : EsbPacket
empty = record { length = 0; s1 = 0; bytes = replicate 63 0 }

abbrev pub ping : EsbPacket
ping = record { length = 1; s1 = 0; bytes = 0xff ∷ replicate 62 0 }

abbrev pong : EsbPacket
pong = record { length = 2; s1 = 0; bytes = 1 ∷ 2 ∷ replicate 61 0 }

abbrev pub irq : Irq
irq = record {
  received = empty;
  crc_ok = true;
  rssi = 40;
  pipe = 0;
  capture3 = 5000;
  end_time = 1000;
  compare1 = false;
}

abbrev silence : Exchange
silence = record {
  sent = irq;
  ended = record irq { compare1 = true };
  received = none;
  crc_ok = false;
}

abbrev reply : Exchange
reply = record { sent = irq; ended = irq; received = some pong; crc_ok = true }

-- The first transmission is lost.
abbrev pub second_try : ℕ → Exchange
second_try zero = silence
second_try (suc k) = reply

abbrev pub air : Air
air = record {
  loss_draw = 7;
  ack_loss_draw = 7;
  attempt = λ k. to_attempt (second_try k);
  rssi_sample = 45;
}

abbrev lone : Air
lone = record air {
  attempt = λ k. record { irqs = irq ∷ []; taken = true; received = none; crc_ok = false };
}

abbrev address : Address
address = record { a0 = 0xc2; a1 = 0x34; a2 = 0x43; a3 = 0x10; a4 = 0x01 }

abbrev sniffer_air : SnifferAir
sniffer_air = record {
  stopping = irq ∷ [];
  sending = irq ∷ [];
  taken = true;
  recovering = [];
  prefix0_before = 0xe7;
  prefix0_after = 0x43;
}

address-IsAddress : IsAddress address
address-IsAddress = omega arith

ready-Inv : Inv ready
ready-Inv = ground arith

ready-IsReady : IsReady (with_exchanges air second_try) ready
ready-IsReady = ground arith

bytewise_bitswap_runs : bytewise_bitswap 0x12345678 ≡ 0x482c6a1e
unfolding bytewise_bitswap swap_bits
bytewise_bitswap_runs = refl

esb_set_address-on_air_example :
    let t = (esb_set_address address 0x2300e7 ready).calls in
    (base : ℕ) × (prefix : ℕ) × (last_base0 t ≡ some base)
    × (last_prefix0 t ≡ some prefix)
    × (on_air base (prefix % 256) ≡ address)
    × (prefix / 256 ≡ 0x2300)
    × (last_base1 t ≡ none)
esb_set_address-on_air_example =
    esb_set_address-on_air address 0x2300e7 ready address-IsAddress (omega arith)

esb_set_address_pipe1-on_air_example :
    let t = (esb_set_address_pipe1 address 0x2300e7 ready).calls in
    (base : ℕ) × (prefix : ℕ) × (last_base1 t ≡ some base)
    × (last_prefix0 t ≡ some prefix)
    × (on_air base (prefix / 256 % 256) ≡ address)
    × (prefix % 256 ≡ 0xe7)
    × (prefix / 65536 ≡ 0x23)
    × (last_base0 t ≡ none)
esb_set_address_pipe1-on_air_example =
    esb_set_address_pipe1-on_air address 0x2300e7 ready address-IsAddress (omega arith)

radio_isr-exchange_example :
    let t = start_attempt ready in
    let listening = radio_isr irq t in
    let ended = radio_isr irq listening in
    (last_packetptr t.calls ≡ some tx_packet)
    × (last_task t.calls ≡ some task_txen)
    × (int_enabled t.calls ≡ true)
    × (tx_line t.calls ≡ some 1)
    × (last_packetptr listening.calls ≡ some ack_packet)
    × (gives listening.calls ≡ 0)
    × (listening.sending ≡ false)
    × (tx_line listening.calls ≡ some 0)
    × (rx_line listening.calls ≡ some 1)
    × (sem_available listening.calls ≡ false)
    × (tx_line ended.calls ≡ some 0)
    × (rx_line ended.calls ≡ some 0)
    × (sem_available ended.calls ≡ true)
    × (gives ended.calls ≡ 1)
    × (ended.timeout ≡ false)
radio_isr-exchange_example = radio_isr-exchange irq irq ready refl refl

esb_send_packet-SentWell_example :
    Returns (SentWell ready 9) (esb_send_packet air 4 ping empty 8 9 ready)
esb_send_packet-SentWell_example =
    esb_send_packet-SentWell air 4 ping empty 8 9 ready (omega arith) (omega arith) refl refl

miss_before_second : (j : ℕ) → j < 1 → answered (second_try j) ≡ false
miss_before_second zero h = refl
miss_before_second (suc j) h = absurd (omega arith)

esb_send_packet-first_answer_example :
    Returns
      (Outcome air ready 2 true (λ p. p ≡ pong))
      (esb_send_packet (with_exchanges air second_try) 4 ping empty 8 9 ready)
esb_send_packet-first_answer_example =
    esb_send_packet-first_answer air second_try 4 ping empty 8 9 ready ready-IsReady (omega arith)
      refl 1 pong (omega arith) miss_before_second refl refl

all_silent : (j : ℕ) → j ≤ 3 → answered silence ≡ false
all_silent zero h = refl
all_silent (suc j) h = refl

silent-IsReady : IsReady (with_exchanges air (λ _. silence)) ready
silent-IsReady = ground arith

esb_send_packet-no_answer_example :
    Returns
      (Outcome air ready 4 false (λ _. Unit))
      (esb_send_packet (with_exchanges air (λ _. silence)) 4 ping empty 8 9 ready)
esb_send_packet-no_answer_example =
    esb_send_packet-no_answer air (λ _. silence) 4 ping empty 8 9 ready silent-IsReady (omega arith)
      refl all_silent

abbrev broadcasting : Esb
broadcasting = record ready { ack_enabled = false }

esb_send_packet-broadcast_example :
    Returns
      (λ r.
        (r.result ≡ false)
        × (r.retry ≡ 0)
        × (transmissions r.esb.calls ≡ 1)
        × (tx_line r.esb.calls ≡ some 1))
      (esb_send_packet lone 4 ping empty 8 9 broadcasting)
esb_send_packet-broadcast_example =
    esb_send_packet-broadcast lone irq 3 ping empty 8 9 broadcasting refl refl refl refl refl

esb_send_packet-numbering_example :
    Returns
      (λ r.
        transmissions r.esb.calls ≢ 0
        → (r.packet.s1 ≡ 1) × (r.esb.pid % 4 ≡ 1) × (s1_field r.esb.pid 1 ≢ r.packet.s1))
      (esb_send_packet air 4 ping empty 8 9 ready)
esb_send_packet-numbering_example =
    esb_send_packet-numbering air 4 ping empty 8 9 ready (omega arith) (omega arith) refl refl

abbrev carrying : Esb
carrying = record ready { continuous_carrier_enabled = true }

sniffer_over_carrier_example :
    let both = esb_sniffer_start true carrying in
    (both.sniffer_active ≡ true)
    × (both.continuous_carrier_enabled ≡ true)
    × (esb_set_continuous_carrier false both ≡ (both, false))
sniffer_over_carrier_example = sniffer_over_carrier true carrying refl refl refl

abbrev sniffing : Esb
sniffing = record ready { sniffer_active = true; sniffer_callback = true; pid = 255 }

sniffer_send-wakes_example :
    let ready_to_send = start_tx address 0xe7 (stop_rx (irq ∷ []) sniffing) in
    (int_enabled ready_to_send.calls ≡ true)
    × (last_packetptr ready_to_send.calls ≡ some tx_packet)
    × (last_task ready_to_send.calls ≡ some task_txen)
    × (sem_available ready_to_send.calls ≡ false)
    × (gives (interrupts (irq ∷ []) ready_to_send).calls ≡ gives ready_to_send.calls + 1)
    × (sem_available (interrupts (irq ∷ []) ready_to_send).calls ≡ true)
sniffer_send-wakes_example = sniffer_send-wakes irq irq address 0xe7 sniffing

esb_sniffer_send-resumes_example :
    let (s', packet', ok) = esb_sniffer_send sniffer_air ping address sniffing in
    (ok ≡ true)
    × (s'.sniffer_active ≡ true)
    × (held s'.calls ≡ false)
    × (guarded s'.calls ≡ true)
    × (tx_line s'.calls ≡ some 0)
    × (rx_line s'.calls ≡ some 1)
    × (last_task s'.calls ≡ some task_rxen)
    × (last_packetptr s'.calls ≡ some sniffer_rx_buffer)
    × (last_shorts s'.calls ≡ some rx_shorts)
    × (int_enabled s'.calls ≡ true)
    × (transmissions s'.calls ≡ 1)
    × (s'.current_pipe0_address ≡ default_address)
    × (last_base0 s'.calls ≡ some (bytewise_bitswap (base_word default_address)))
    × (last_prefix0 s'.calls ≡ some (with_prefix0 0x43 default_address))
    × (s'.pid ≡ 0)
    × (s'.arc ≡ 3)
esb_sniffer_send-resumes_example =
    esb_sniffer_send-resumes sniffer_air ping address sniffing (omega arith) refl refl refl

abbrev session : List ApiCall
session =
    set_arc 0x25
    ∷ send_packet air ping empty 0 0
    ∷ set_ack_enabled false
    ∷ send_packet lone ping empty 0 0
    ∷ sniffer_start true
    ∷ interrupted irq
    ∷ sniffer_send sniffer_air ping address
    ∷ sniffer_stop (irq ∷ [])
    ∷ deinit (irq ∷ [])
    ∷ []

run-Inv_example : Inv (run session ready)
run-Inv_example = run-Inv session ready ready-Inv
