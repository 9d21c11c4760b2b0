-- ===== src/Esb/Examples/Waits.antt =====
-- The semaphore at concrete inputs.
use crazyradio2_firmware.Base.{◌≡◌, refl, true, false, Returns, arith}
use crazyradio2_firmware.Platform.{◌▹◌, sem_take}
use crazyradio2_firmware.Platform.Trace.{sem_available, sem_consistent}
use crazyradio2_firmware.Esb.Isr.{radio_isr}
use crazyradio2_firmware.Esb.Send.{start_attempt, transmit, reset_stuck, esb_send_packet}
use crazyradio2_firmware.Esb.Send.Exchange.{with_exchanges}
use crazyradio2_firmware.Esb.Send.Semaphore.{
  IsSettled, unanswered, esb_send_packet-IsSettled, reset_stuck-stale,
}
use crazyradio2_firmware.Esb.Examples.{ready, empty, ping, irq, air, second_try}

ready-IsSettled : IsSettled ready
ready-IsSettled = record { not_given = refl; consistent = refl }

esb_send_packet-IsSettled_example :
    Returns
      (λ r. IsSettled r.esb)
      (esb_send_packet (with_exchanges air second_try) 4 ping empty 8 9 ready)
esb_send_packet-IsSettled_example =
    esb_send_packet-IsSettled air second_try 4 ping empty 8 9 ready (omega arith) (omega arith) refl
      refl refl ready-IsSettled

reset_stuck-stale_example :
    let reset = reset_stuck (transmit (unanswered irq) ready) in
    let next = start_attempt (radio_isr irq reset) in
    (sem_available reset.calls ≡ false)
    × (sem_available next.calls ≡ true)
    × (next.sending ≡ true)
    × (sem_consistent (next.calls ▹ sem_take true) ≡ true)
reset_stuck-stale_example = reset_stuck-stale irq irq ready refl refl ready-IsSettled
