-- ===== src/Platform/Trace.antt =====
-- What a record of calls says: who holds a mutex, which calls touch the radio without it, how often
-- the radio was told to transmit, what was last written.
use crazyradio2_firmware.Base.{
  ℕ, suc, Bool, true, false, not, ◌&&◌, Option, none, some, List, [], ◌∷◌,
}
use crazyradio2_firmware.Platform.{
  Mutex, usb_radio_mutex, bcd_device_set, Calls, radio_busy, radio, mutex_lock, mutex_unlock,
  sem_give, sem_reset, sem_take, task_trigger, task_txen, gpio_set, tx_en, rx_en, base0_set,
  base1_set, prefix0_set, rxaddresses_set, packet_configure, mode_set, frequency_set, RadioMode,
  PacketConf, usb_write, irq_connect, Buffer, packetptr_set, RadioTask, Short, shorts_set,
  shorts_enable, shorts_disable, int_enable, int_disable, handler_enters, handler_exits,
}

-- Whether the last call on `radio_busy` locked it.
abbrev pub held : Calls → Bool
held [] = false
held (mutex_lock radio_busy ∷ t) = true
held (mutex_unlock radio_busy ∷ t) = false
held (_ ∷ t) = held t

-- The calls of the interrupt handler, which takes no mutex, are passed over.
abbrev pub guarded_from : (in_handler : Bool) → Calls → Bool
guarded_from _ [] = true
guarded_from true (handler_enters ∷ t) = guarded_from false t
guarded_from true (_ ∷ t) = guarded_from true t
guarded_from false (handler_exits ∷ t) = guarded_from true t
guarded_from false (irq_connect ∷ t) = true
guarded_from false (radio c ∷ t) = held t && guarded_from false t
guarded_from false (mutex_lock radio_busy ∷ t) = not (held t) && guarded_from false t
guarded_from false (mutex_unlock radio_busy ∷ t) = held t && guarded_from false t
guarded_from false (_ ∷ t) = guarded_from false t

-- Since `esb_init` connected the interrupt, which it does last, every radio call outside the
-- interrupt handler was made with `radio_busy` held, and nobody locked or unlocked it twice over.
abbrev pub guarded : Calls → Bool
guarded t = guarded_from false t

-- The buffer that the radio was last pointed at, the task it was last given and the shortcuts last
-- set as a whole, and whether its interrupt is enabled.
abbrev pub last_packetptr : Calls → Option Buffer
last_packetptr [] = none
last_packetptr (radio (packetptr_set b) ∷ t) = some b
last_packetptr (_ ∷ t) = last_packetptr t

abbrev pub last_task : Calls → Option RadioTask
last_task [] = none
last_task (radio (task_trigger k) ∷ t) = some k
last_task (_ ∷ t) = last_task t

abbrev pub last_shorts : Calls → Option (List Short)
last_shorts [] = none
last_shorts (radio (shorts_set l) ∷ t) = some l
last_shorts (radio (shorts_enable l) ∷ t) = none
last_shorts (radio (shorts_disable l) ∷ t) = none
last_shorts (_ ∷ t) = last_shorts t

abbrev pub int_enabled : Calls → Bool
int_enabled [] = false
int_enabled (radio int_enable ∷ t) = true
int_enabled (radio int_disable ∷ t) = false
int_enabled (_ ∷ t) = int_enabled t

-- How often the semaphore was given.
abbrev pub gives : Calls → ℕ
gives [] = 0
gives (sem_give ∷ t) = suc (gives t)
gives (_ ∷ t) = gives t

-- What the next `k_sem_take(&radioXferDone)` finds: a give that nothing has taken or reset.
abbrev pub sem_available : Calls → Bool
sem_available [] = false
sem_available (sem_give ∷ t) = true
sem_available (sem_reset ∷ t) = false
sem_available (sem_take b ∷ t) = false
sem_available (_ ∷ t) = sem_available t

abbrev eq_bool : Bool → Bool → Bool
eq_bool true b = b
eq_bool false b = not b

-- Every `k_sem_take` answered what the semaphore says: taken after a give, timed out without.
abbrev pub sem_consistent : Calls → Bool
sem_consistent [] = true
sem_consistent (sem_take b ∷ t) = eq_bool b (sem_available t) && sem_consistent t
sem_consistent (_ ∷ t) = sem_consistent t

-- How often the radio was started for transmission.
abbrev pub transmissions : Calls → ℕ
transmissions [] = 0
transmissions (radio (task_trigger task_txen) ∷ t) = suc (transmissions t)
transmissions (_ ∷ t) = transmissions t

-- The level last written to a FEM line.
abbrev pub tx_line : Calls → Option ℕ
tx_line [] = none
tx_line (gpio_set tx_en v ∷ t) = some v
tx_line (_ ∷ t) = tx_line t

abbrev pub rx_line : Calls → Option ℕ
rx_line [] = none
rx_line (gpio_set rx_en v ∷ t) = some v
rx_line (_ ∷ t) = rx_line t

-- The values last written to the radio's registers.
abbrev pub last_base0 : Calls → Option ℕ
last_base0 [] = none
last_base0 (radio (base0_set v) ∷ t) = some v
last_base0 (_ ∷ t) = last_base0 t

abbrev pub last_base1 : Calls → Option ℕ
last_base1 [] = none
last_base1 (radio (base1_set v) ∷ t) = some v
last_base1 (_ ∷ t) = last_base1 t

abbrev pub last_prefix0 : Calls → Option ℕ
last_prefix0 [] = none
last_prefix0 (radio (prefix0_set v) ∷ t) = some v
last_prefix0 (_ ∷ t) = last_prefix0 t

abbrev pub last_rxaddresses : Calls → Option ℕ
last_rxaddresses [] = none
last_rxaddresses (radio (rxaddresses_set v) ∷ t) = some v
last_rxaddresses (_ ∷ t) = last_rxaddresses t

abbrev pub last_packet_conf : Calls → Option PacketConf
last_packet_conf [] = none
last_packet_conf (radio (packet_configure v) ∷ t) = some v
last_packet_conf (_ ∷ t) = last_packet_conf t

abbrev pub last_mode : Calls → Option RadioMode
last_mode [] = none
last_mode (radio (mode_set v) ∷ t) = some v
last_mode (_ ∷ t) = last_mode t

abbrev pub last_frequency : Calls → Option ℕ
last_frequency [] = none
last_frequency (radio (frequency_set v) ∷ t) = some v
last_frequency (_ ∷ t) = last_frequency t

abbrev pub last_bcd_device : Calls → Option ℕ
last_bcd_device [] = none
last_bcd_device (bcd_device_set v ∷ t) = some v
last_bcd_device (_ ∷ t) = last_bcd_device t

-- The bytes last written to the IN endpoint.
abbrev pub last_write : Calls → Option (List ℕ)
last_write [] = none
last_write (usb_write bytes ∷ t) = some bytes
last_write (_ ∷ t) = last_write t

-- All that was written to it, newest first.
abbrev pub writes : Calls → List (List ℕ)
writes [] = []
writes (usb_write bytes ∷ t) = bytes ∷ writes t
writes (_ ∷ t) = writes t

-- Who holds the two mutexes: nobody, the USB side alone, or the radio below it. Any other order of
-- locking and unlocking is a misuse that stays.
pub data LockState : Type 0 where
  unlocked by_usb by_both misused : LockState

abbrev pub take_lock : Mutex → LockState → LockState
take_lock usb_radio_mutex unlocked = by_usb
take_lock radio_busy by_usb = by_both
take_lock _ _ = misused

abbrev pub give_lock : Mutex → LockState → LockState
give_lock radio_busy by_both = by_usb
give_lock usb_radio_mutex by_usb = unlocked
give_lock _ _ = misused

abbrev pub lock_state : Calls → LockState
lock_state [] = unlocked
lock_state (mutex_lock m ∷ t) = take_lock m (lock_state t)
lock_state (mutex_unlock m ∷ t) = give_lock m (lock_state t)
lock_state (_ ∷ t) = lock_state t

-- The record as it was when the last transmission was started.
abbrev pub at_last_tx : Calls → Calls
at_last_tx [] = []
at_last_tx (radio (task_trigger task_txen) ∷ t) = t
at_last_tx (_ ∷ t) = at_last_tx t
