-- ===== src/Usb/Firmware/Packets.antt =====
-- The sniffed packets between the handler and the thread: each is kept in order or counted as lost.
use crazyradio2_firmware.Base.{
  ℕ, ◌+◌, ◌%◌, ◌^◌, ◌≤◌, ◌<◌, ◌≡◌, sym, ap, ◌∙◌, u32, true, List, [], ◌∷◌, ◌++◌, append_assoc,
  length, length-append, arith,
}
use crazyradio2_firmware.Esb.State.{SnifferPacket}
use crazyradio2_firmware.Esb.Unnoticed.{fits, all_fit}
use crazyradio2_firmware.Usb.Queue.{MsgQueue}

all_fit-snoc :
    (ps : List SnifferPacket) (p : SnifferPacket)
    → all_fit ps ≡ true
    → fits p ≡ true
    → all_fit (ps ++ p ∷ []) ≡ true
all_fit-snoc [] p h k = ground (arith, k)
all_fit-snoc (r ∷ ps) p h k =
    let rest : all_fit ps ≡ true = ground (arith, h) in ground (arith, h, all_fit-snoc ps p rest k)

-- The packets that the queue took are those taken out to stream, then those in the queue; the drop
-- counter counts the others, modulo 2 ^ 32. `delivered` is what the callback is still to be given.
pub record Conserved (sq : MsgQueue SnifferPacket) (drop_count : ℕ) (delivered : List SnifferPacket)
    (q : sq.Q) (accepted lost streamed : List SnifferPacket) : Type 0 where
  pub in_order : accepted ≡ streamed ++ sq.contents q
  pub counted : drop_count ≡ length lost % 2 ^ 32
  pub bounded : length (sq.contents q) ≤ sq.max_msgs
  pub queue_fits : all_fit (sq.contents q) ≡ true
  pub delivered_fits : all_fit delivered ≡ true

module _ {sq : MsgQueue SnifferPacket} {n : ℕ} {ds : List SnifferPacket} {q : sq.Q}
    {accepted lost streamed : List SnifferPacket} where
  pub kept-Conserved :
      (p : SnifferPacket) (q' : sq.Q)
      → Conserved sq n ds q accepted lost streamed
      → fits p ≡ true
      → length (sq.contents q) < sq.max_msgs
      → sq.contents q' ≡ sq.contents q ++ p ∷ []
      → Conserved sq n ds q' (accepted ++ p ∷ []) lost streamed
  kept-Conserved p q' c fit room e = record {
    in_order =
        ap (λ ps. ps ++ p ∷ []) c.in_order
        ∙ append_assoc streamed (sq.contents q) (p ∷ [])
        ∙ ap (λ ps. streamed ++ ps) (sym e);
    counted = c.counted;
    bounded = omega (arith, ap length e, length-append (sq.contents q) (p ∷ []));
    queue_fits = ap all_fit e ∙ all_fit-snoc (sq.contents q) p c.queue_fits fit;
    delivered_fits = c.delivered_fits;
  }

  pub lost-Conserved :
      (p : SnifferPacket)
      → Conserved sq n ds q accepted lost streamed
      → Conserved sq (u32 (n + 1)) ds q accepted (lost ++ p ∷ []) streamed
  lost-Conserved p c = record {
    in_order = c.in_order;
    counted = omega (arith, c.counted, length-append lost (p ∷ []));
    bounded = c.bounded;
    queue_fits = c.queue_fits;
    delivered_fits = c.delivered_fits;
  }

  pub streamed-Conserved :
      (p : SnifferPacket) (q' : sq.Q)
      → Conserved sq n ds q accepted lost streamed
      → sq.contents q ≡ p ∷ sq.contents q'
      → Conserved sq n ds q' accepted lost (streamed ++ p ∷ [])
  streamed-Conserved p q' c first =
      let fit : all_fit (p ∷ sq.contents q') ≡ true = ap all_fit (sym first) ∙ c.queue_fits in
      record {
        in_order =
            c.in_order
            ∙ ap (λ ps. streamed ++ ps) first
            ∙ sym (append_assoc streamed (p ∷ []) (sq.contents q'));
        counted = c.counted;
        bounded = omega (arith, c.bounded, ap length first);
        queue_fits = ground (arith, fit);
        delivered_fits = c.delivered_fits;
      }

  -- The counter and what the callback is given have changed as the handlers change them.
  pub other-Conserved :
      (n' : ℕ) (ds' : List SnifferPacket)
      → Conserved sq n ds q accepted lost streamed
      → n' ≡ n
      → all_fit ds' ≡ true
      → Conserved sq n' ds' q accepted lost streamed
  other-Conserved n' ds' c e fit = record {
    in_order = c.in_order;
    counted = e ∙ c.counted;
    bounded = c.bounded;
    queue_fits = c.queue_fits;
    delivered_fits = fit;
  }

-- The sniffer mode is entered.
pub fresh-Conserved :
    {sq : MsgQueue SnifferPacket} (n : ℕ) (ds : List SnifferPacket) (q : sq.Q)
    → sq.contents q ≡ []
    → n ≡ 0
    → all_fit ds ≡ true
    → Conserved sq n ds q [] [] []
fresh-Conserved n ds q empty e fit = record {
  in_order = sym empty;
  counted = e;
  bounded = omega (arith, ap length empty);
  queue_fits = ap all_fit empty;
  delivered_fits = fit;
}
