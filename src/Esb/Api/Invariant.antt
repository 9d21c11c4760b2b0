-- ===== src/Esb/Api/Invariant.antt =====
-- What every function of the radio keeps.
use crazyradio2_firmware.Base.{
  ℕ, ◌+◌, ◌≤◌, ◌<◌, ◌≡◌, true, false, Option, none, some, List, [], ◌∷◌, arith, Bool-cases, inl,
  inr, Returns,
}
use crazyradio2_firmware.Base.Bits.{bit_and_low}
use crazyradio2_firmware.Platform.{
  ◌▹◌, ◌▸◌, mutex_lock, radio_busy, shorts_disable, disabled_rxen, task_trigger, task_disable,
  sleep_us,
}
use crazyradio2_firmware.Platform.Trace.{held, guarded}
use crazyradio2_firmware.Esb.State.{Esb, EsbPacket, Address, ◌▹▹◌}
use crazyradio2_firmware.Esb.Isr.{Irq}
use crazyradio2_firmware.Esb.Address.{esb_set_address, esb_set_address_pipe1}
use crazyradio2_firmware.Esb.Config.{
  esb_deinit, esb_set_arc, esb_set_ack_enabled, esb_set_channel, esb_set_bitrate,
  esb_set_packet_loss_simulation, esb_set_continuous_carrier,
}
use crazyradio2_firmware.Esb.Send.{Sent}
use crazyradio2_firmware.Esb.Send.Bounds.{SentWell, esb_send_packet-SentWell}
use crazyradio2_firmware.Esb.Send.Frame.{
  radio_isr-SameSettings, radio_isr-Quiet, interrupts-SameSettings, interrupts-Quiet,
}
use crazyradio2_firmware.Esb.Sniffer.{
  SnifferAir, esb_sniffer_start, esb_sniffer_send, esb_sniffer_stop,
}
use crazyradio2_firmware.Esb.Sniffer.Transmit.{esb_sniffer_send-resumes, esb_sniffer_send-refused}
use crazyradio2_firmware.Esb.Api.{
  ApiCall, interrupted, deinit, set_arc, send_packet, sniffer_send, sniffer_stop, sent_state, step,
  run,
}

-- Between calls `radio_busy` is free, and every call on the radio since `esb_init`, but for those of
-- the interrupt handler, was made under it; `arc` and the packet ID fit their fields.
pub record Inv (s : Esb) : Type 0 where
  pub released : held s.calls ≡ false
  pub is_guarded : guarded s.calls ≡ true
  pub arc_capped : s.arc ≤ 15
  pub pid_byte : s.pid < 256

esb_set_arc-Inv : (value : ℕ) (s : Esb) → Inv s → Inv (esb_set_arc value s)
unfolding esb_set_arc
esb_set_arc-Inv value s v = ground (arith, bit_and_low 4 value)

sent_state-Inv :
    (s : Esb) (retry : ℕ) (o : Option Sent)
    → Inv s
    → Returns (SentWell s retry) o
    → Inv (sent_state s o)
sent_state-Inv s retry none v w = absurd w
sent_state-Inv s retry (some r) v w = ground arith

esb_sniffer_send-Inv :
    (air : SnifferAir) (packet : EsbPacket) (address : Address) (s : Esb)
    → Inv s
    → Inv (esb_sniffer_send air packet address s).0
esb_sniffer_send-Inv air packet address s v = elim (Bool-cases s.sniffer_active) [
  | inl on ↦
      ground
        (arith, esb_sniffer_send-resumes air packet address s v.pid_byte v.released v.is_guarded on)
  | inr off ↦ ground (arith, esb_sniffer_send-refused air packet address s off)
]

esb_sniffer_stop-Inv : (irqs : List Irq) (s : Esb) → Inv s → Inv (esb_sniffer_stop irqs s)
unfolding esb_sniffer_stop
esb_sniffer_stop-Inv irqs s v =
    let stopping = s ▹▹ λ t.
    t
    ▹ mutex_lock radio_busy
    ▸ shorts_disable (disabled_rxen ∷ [])
    ▸ task_trigger task_disable
    ▹ sleep_us 200 in
    ground (arith, interrupts-SameSettings irqs stopping, interrupts-Quiet irqs stopping)

esb_deinit-Inv : (irqs : List Irq) (s : Esb) → Inv s → Inv (esb_deinit irqs s)
unfolding esb_deinit
esb_deinit-Inv irqs s v =
    let stopping = record s {
      is_init = false;
      calls = s.calls ▹ mutex_lock radio_busy ▸ task_trigger task_disable ▹ sleep_us 200;
    } in
    ground (arith, interrupts-SameSettings irqs stopping, interrupts-Quiet irqs stopping)

pub step-Inv : (c : ApiCall) (s : Esb) → Inv s → Inv (step c s)
unfolding step esb_set_ack_enabled esb_set_channel esb_set_bitrate esb_set_packet_loss_simulation
    esb_set_continuous_carrier esb_set_address esb_set_address_pipe1 esb_sniffer_start
step-Inv (interrupted q) s v = ground (arith, radio_isr-SameSettings q s, radio_isr-Quiet q s)
step-Inv (deinit irqs) s v = esb_deinit-Inv irqs s v
step-Inv (set_arc value) s v = esb_set_arc-Inv value s v
step-Inv (send_packet air packet ack rssi retry) s v = sent_state-Inv s retry _ v (
    esb_send_packet-SentWell air (s.arc + 1) packet ack rssi retry s (omega (arith, v.arc_capped))
      (omega arith) v.released v.is_guarded)
step-Inv (sniffer_send air packet address) s v = esb_sniffer_send-Inv air packet address s v
step-Inv (sniffer_stop irqs) s v = esb_sniffer_stop-Inv irqs s v
step-Inv _ s v = ground arith

-- After any sequence of calls and of interrupts between them, whatever the radio does during them:
-- `radio_busy` is free, nobody has taken it twice over or given it back unheld, nothing outside the
-- interrupt handler has touched the radio without it, `arc` is at most 15 and the packet ID is a
-- byte, if all this held before.
pub run-Inv : (cs : List ApiCall) (s : Esb) → Inv s → Inv (run cs s)
unfolding run
run-Inv [] s v = v
run-Inv (c ∷ cs) s v = run-Inv cs (step c s) (step-Inv c s v)
