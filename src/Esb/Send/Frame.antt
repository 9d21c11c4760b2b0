-- ===== src/Esb/Send/Frame.antt =====
-- What the parts of a transmission leave alone.
use crazyradio2_firmware.Base.{◌+◌, ◌≡◌, true, arith, List, [], ◌∷◌}
use crazyradio2_firmware.Platform.Trace.{held, guarded, transmissions}
use crazyradio2_firmware.Esb.State.{Esb}
use crazyradio2_firmware.Esb.Isr.{Irq, radio_isr, interrupts}
use crazyradio2_firmware.Esb.Send.{Attempt, start_attempt, transmit, clean_up}

-- The settings, which only the functions of the thread write.
pub record SameSettings (s s' : Esb) : Type 0 where
  pub is_init : s'.is_init ≡ s.is_init
  pub pid : s'.pid ≡ s.pid
  pub ack_enabled : s'.ack_enabled ≡ s.ack_enabled
  pub arc : s'.arc ≡ s.arc
  pub packet_loss : s'.packet_loss_percent ≡ s.packet_loss_percent
  pub ack_loss : s'.ack_loss_percent ≡ s.ack_loss_percent
  pub carrier : s'.continuous_carrier_enabled ≡ s.continuous_carrier_enabled
  pub sniffer : s'.sniffer_active ≡ s.sniffer_active
  pub callback : s'.sniffer_callback ≡ s.sniffer_callback
  pub pipe0 : s'.current_pipe0_address ≡ s.current_pipe0_address

pub SameSettings-refl : (s : Esb) → SameSettings s s
SameSettings-refl s = ground arith

pub SameSettings-trans : (s t u : Esb) → SameSettings s t → SameSettings t u → SameSettings s u
SameSettings-trans s t u h k = ground arith

pub radio_isr-SameSettings : (q : Irq) (s : Esb) → SameSettings s (radio_isr q s)
unfolding radio_isr
radio_isr-SameSettings q s = ground arith

pub interrupts-SameSettings : (qs : List Irq) (s : Esb) → SameSettings s (interrupts qs s)
unfolding interrupts
interrupts-SameSettings [] s = SameSettings-refl s
interrupts-SameSettings (q ∷ qs) s =
    SameSettings-trans s (radio_isr q s) (interrupts qs (radio_isr q s))
      (radio_isr-SameSettings q s) (interrupts-SameSettings qs (radio_isr q s))

-- The handler neither locks nor unlocks, and never starts a transmission; run while the thread
-- holds the lock, it keeps the record guarded.
pub record Quiet (s s' : Esb) : Type 0 where
  pub held_same : held s'.calls ≡ held s.calls
  pub sends_none : transmissions s'.calls ≡ transmissions s.calls
  pub guarded_same : guarded s'.calls ≡ guarded s.calls

pub radio_isr-Quiet : (q : Irq) (s : Esb) → Quiet s (radio_isr q s)
unfolding radio_isr
radio_isr-Quiet q s = ground arith

pub interrupts-Quiet : (qs : List Irq) (s : Esb) → Quiet s (interrupts qs s)
unfolding interrupts
interrupts-Quiet [] s = ground arith
interrupts-Quiet (q ∷ qs) s =
    ground (arith, radio_isr-Quiet q s, interrupts-Quiet qs (radio_isr q s))

-- One attempt: the same settings, one transmission more, the lock still held.
pub record OneMore (s s' : Esb) : Type 0 where
  pub settings : SameSettings s s'
  pub sends_one : transmissions s'.calls ≡ transmissions s.calls + 1
  pub held_on : held s.calls ≡ true → held s'.calls ≡ true
  pub keeps_guarded : held s.calls ≡ true → guarded s.calls ≡ true → guarded s'.calls ≡ true

pub transmit-OneMore : (a : Attempt) (s : Esb) → OneMore s (transmit a s)
unfolding transmit
transmit-OneMore a s = ground (
  arith,
  interrupts-SameSettings a.irqs (start_attempt s),
  interrupts-Quiet a.irqs (start_attempt s),
)

pub clean_up-OneMore : (a : Attempt) (s : Esb) → OneMore s (clean_up (transmit a s))
unfolding clean_up
clean_up-OneMore a s = ground (arith, transmit-OneMore a s)
