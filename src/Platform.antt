-- ===== src/Platform.antt =====
-- What the firmware asks of the code that is not in the repository: Zephyr's kernel, GPIO, SPI and
-- USB, and nrfx. Each call is recorded with its arguments; what such a call answers is an argument
-- of the function that makes it.
pub mod Trace
use crazyradio2_firmware.Base.{ℕ, Bool, List, ◌∷◌}

-- The two mutexes, of src/esb.c and of src/legacy_usb.c.
pub data Mutex : Type 0 where
  radio_busy usb_radio_mutex : Mutex

-- The pins that src/fem.c and src/led.c drive.
pub data Pin : Type 0 where
  tx_en rx_en pdn fem_mode ant_sel red_led green_led blue_led : Pin

pub data Timer : Type 0 where
  red_timer green_timer blue_timer : Timer

-- The packet buffers that the radio is pointed at.
pub data Buffer : Type 0 where
  null tx_packet ack_packet sniffer_rx_buffer : Buffer

-- The shortcuts of the radio that the firmware sets.
pub data Short : Type 0 where
  ready_start end_disable disabled_rxen address_rssistart disabled_rssistop : Short

pub data RadioEvent : Type 0 where
  event_disabled event_end : RadioEvent

pub data RadioTask : Type 0 where
  task_txen task_rxen task_disable : RadioTask

pub data RadioMode : Type 0 where
  nrf_1mbit nrf_2mbit : RadioMode

pub data TimerTask : Type 0 where
  task_clear task_start task_stop task_capture3 : TimerTask

-- `nrf_radio_packet_conf_t`
pub record PacketConf : Type 0 where
  pub lflen : ℕ
  pub s0len : ℕ
  pub s1len : ℕ
  pub maxlen : ℕ
  pub statlen : ℕ
  pub balen : ℕ
  pub big_endian : Bool
  pub whiteen : Bool

-- A call of the radio peripheral.
pub data RadioCall : Type 0 where
  event_clear : RadioEvent → RadioCall
  int_enable int_disable : RadioCall
  shorts_enable shorts_disable shorts_set : List Short → RadioCall
  packetptr_set : Buffer → RadioCall
  task_trigger : RadioTask → RadioCall
  power_set : Bool → RadioCall
  txpower_set_0dbm : RadioCall
  packet_configure : PacketConf → RadioCall
  mode_set : RadioMode → RadioCall
  frequency_set base0_set base1_set prefix0_set txaddress_set rxaddresses_set : ℕ → RadioCall
  crc_configure : ℕ → ℕ → RadioCall
  crcinit_set : ℕ → RadioCall

pub data Call : Type 0 where
  radio : RadioCall → Call
  mutex_lock mutex_unlock : Mutex → Call
  sem_give sem_reset : Call
  sem_take : Bool → Call  -- with what it answered: taken, or timed out
  sleep_us sleep_ms : ℕ → Call
  timer_task : TimerTask → Call
  timer_setup : Call  -- 32 bit wide, 1 MHz
  timer_cc_set : ℕ → ℕ → Call
  timer_compare1_clear : Call
  ppi_enable ppi_disable : ℕ → Call
  irq_connect irq_enable irq_disable : Call
  gpio_configure : Pin → Call
  gpio_set : Pin → ℕ → Call
  spi_write spi_transceive : List ℕ → Call
  timer_start : Timer → ℕ → Call
  usb_write : List ℕ → Call
  usb_enable : Call
  bcd_device_set : ℕ → Call  -- the release number in the device descriptor
  msgq_purge : Call  -- of `sniffer_queue`
  hfclk_start : Call
  reset_with : ℕ → Call  -- GPREGRET, then NVIC_SystemReset
  handler_enters handler_exits : Call  -- marks around what the interrupt handler calls

-- Newest first.
abbrev pub Calls : Type 0
Calls = List Call

infixl 20 ◌▹◌ ◌▸◌
abbrev pub ◌▹◌ : Calls → Call → Calls
t ▹ c = c ∷ t

abbrev pub ◌▸◌ : Calls → RadioCall → Calls
t ▸ c = radio c ∷ t
