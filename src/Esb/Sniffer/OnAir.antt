-- ===== src/Esb/Sniffer/OnAir.antt =====
-- Where a broadcast in the sniffer mode goes: the address registers when its transmission starts.
use crazyradio2_firmware.Base.{
  ℕ, ◌%◌, ◌^◌, ◌<◌, ◌≡◌, refl, ap, ◌∙◌, Bool, true, not, some, List, [], ◌∷◌, arith, if_rule,
}
use crazyradio2_firmware.Platform.{Calls, tx_packet}
use crazyradio2_firmware.Platform.Trace.{last_packetptr, at_last_tx, last_base0, last_prefix0}
use crazyradio2_firmware.Esb.State.{Esb, EsbPacket, Address}
use crazyradio2_firmware.Esb.Isr.{Irq, radio_isr, interrupts}
use crazyradio2_firmware.Esb.Address.{
  bytewise_bitswap, base_word, with_prefix0, set_pipe0_address_nolock,
}
use crazyradio2_firmware.Esb.Address.Registers.{IsAddress, on_air, on_air-with_prefix0}
use crazyradio2_firmware.Esb.Send.OnAir.{IsAimed}
use crazyradio2_firmware.Esb.Sniffer.{
  SnifferAir, stop_rx, start_tx, await_tx, restart_rx, esb_sniffer_send,
}

-- The last transmission was started with the address registers of pipe 0 standing for `a`.
abbrev pub IsSentTo : Address → Calls → Type 0
IsSentTo a t =
    (base : ℕ) × (prefix : ℕ) × (last_base0 (at_last_tx t) ≡ some base)
    × (last_prefix0 (at_last_tx t) ≡ some prefix)
    × (on_air base (prefix % 256) ≡ a)

radio_isr-at_last_tx : (q : Irq) (s : Esb) → at_last_tx (radio_isr q s).calls ≡ at_last_tx s.calls
unfolding radio_isr
radio_isr-at_last_tx q s = ground arith

interrupts-at_last_tx :
    (qs : List Irq) (s : Esb) → at_last_tx (interrupts qs s).calls ≡ at_last_tx s.calls
unfolding interrupts
interrupts-at_last_tx [] s = refl
interrupts-at_last_tx (q ∷ qs) s =
    interrupts-at_last_tx qs (radio_isr q s) ∙ radio_isr-at_last_tx q s

await_tx-at_last_tx :
    (air : SnifferAir) (s : Esb) → at_last_tx (await_tx air s).calls ≡ at_last_tx s.calls
unfolding await_tx
await_tx-at_last_tx air s =
    let sent = interrupts-at_last_tx air.sending s in
    if_rule (λ (t : Esb). at_last_tx t.calls ≡ at_last_tx s.calls) air.taken _ _ (λ _. sent)
      (λ _. interrupts-at_last_tx air.recovering _ ∙ sent)

restart_rx-at_last_tx :
    (saved : Address) (prefix0 : ℕ) (s : Esb)
    → at_last_tx (restart_rx saved prefix0 s).calls ≡ at_last_tx s.calls
unfolding restart_rx set_pipe0_address_nolock
restart_rx-at_last_tx saved prefix0 s = refl

start_tx-at_last_tx :
    (a : Address) (prefix0 : ℕ) (s : Esb)
    → let t = at_last_tx (start_tx a prefix0 s).calls in
      (last_base0 t ≡ some (bytewise_bitswap (base_word a)))
      × (last_prefix0 t ≡ some (with_prefix0 prefix0 a))
      × (last_packetptr t ≡ some tx_packet)
unfolding start_tx set_pipe0_address_nolock
start_tx-at_last_tx a prefix0 s = (refl, refl, refl)

-- The broadcast's transmission is the last one, and was started with the radio pointed at the packet.
pub esb_sniffer_send-IsAimed :
    (air : SnifferAir) (packet : EsbPacket) (a : Address) (s : Esb)
    → s.sniffer_active ≡ true
    → IsAimed (esb_sniffer_send air packet a s).0.calls
unfolding esb_sniffer_send
esb_sniffer_send-IsAimed air packet a s on =
    let started = start_tx a air.prefix0_before (stop_rx air.stopping s) in
    let sent = await_tx air started in
    if_rule (λ (r : Esb × EsbPacket × Bool). IsAimed r.0.calls) (not s.sniffer_active) _ _
      (λ off. absurd (ground arith))
      (λ _.
        ap last_packetptr (
          restart_rx-at_last_tx s.current_pipe0_address air.prefix0_after sent
          ∙ await_tx-at_last_tx air started)
        ∙ (start_tx-at_last_tx a air.prefix0_before (stop_rx air.stopping s)).2)

-- In the sniffer mode, whatever the radio does, the address registers stand for the given address
-- when the packet goes out, though they are put back afterwards.
pub esb_sniffer_send-on_air :
    (air : SnifferAir) (packet : EsbPacket) (a : Address) (s : Esb)
    → s.sniffer_active ≡ true
    → IsAddress a
    → air.prefix0_before < 2 ^ 32
    → IsSentTo a (esb_sniffer_send air packet a s).0.calls
unfolding esb_sniffer_send
esb_sniffer_send-on_air air packet a s on h fits =
    let started = start_tx a air.prefix0_before (stop_rx air.stopping s) in
    let sent = await_tx air started in
    let restarted = restart_rx s.current_pipe0_address air.prefix0_after sent in
    let kept : at_last_tx restarted.calls ≡ at_last_tx started.calls =
      restart_rx-at_last_tx s.current_pipe0_address air.prefix0_after sent
      ∙ await_tx-at_last_tx air started in
    let goes = start_tx-at_last_tx a air.prefix0_before (stop_rx air.stopping s) in
    if_rule (λ (r : Esb × EsbPacket × Bool). IsSentTo a r.0.calls) (not s.sniffer_active) _ _
      (λ off. absurd (ground arith))
      (λ _. (
        bytewise_bitswap (base_word a),
        with_prefix0 air.prefix0_before a,
        ap last_base0 kept ∙ goes.0,
        ap last_prefix0 kept ∙ goes.1,
        on_air-with_prefix0 a air.prefix0_before h fits,
      ))

-- The packet keeps its bytes.
pub esb_sniffer_send-keeps :
    (air : SnifferAir) (packet : EsbPacket) (a : Address) (s : Esb)
    → let p = (esb_sniffer_send air packet a s).1 in
      (p.bytes ≡ packet.bytes) × (p.length ≡ packet.length)
unfolding esb_sniffer_send
esb_sniffer_send-keeps air packet a s =
    if_rule
      (λ (r : Esb × EsbPacket × Bool). (r.1.bytes ≡ packet.bytes) × (r.1.length ≡ packet.length))
      (not s.sniffer_active) _ _ (λ _. (refl, refl)) (λ _. (refl, refl))
