-- ===== src/Boot/Whole.antt =====
-- The whole firmware from power-on: `main` of src/main.c, on the values that the static variables of
-- src/legacy_usb.c start with, and then whatever happens.
use crazyradio2_firmware.Base.{
  ℕ, ◌≡◌, refl, sym, ap, ◌∙◌, append-nil, inl, false, none, List, [], replicate, arith,
}
use crazyradio2_firmware.Platform.Trace.{unlocked, lock_state}
use crazyradio2_firmware.Led.{
  led_init, led_set_red, led_set_green, led_set_blue, led_pulse_green, led_pulse_red,
  led_pulse_blue,
}
use crazyradio2_firmware.Fem.{
  fem_init, fem_txen_set, fem_rxen_set, fem_is_pa_enabled, fem_is_lna_enabled, read_register,
}
use crazyradio2_firmware.Esb.State.{SnifferPacket}
use crazyradio2_firmware.Esb.Config.{esb_init}
use crazyradio2_firmware.Esb.Unnoticed.{all_fit}
use crazyradio2_firmware.Usb.State.{Gives, Gives-mono, initial}
use crazyradio2_firmware.Usb.Queue.{MsgQueue}
use crazyradio2_firmware.Usb.Data.{UsbCommand}
use crazyradio2_firmware.Usb.Out.{out_statics}
use crazyradio2_firmware.Usb.Vendor.{VendorState}
use crazyradio2_firmware.Usb.Vendor.Requests.{VendorInv}
use crazyradio2_firmware.Usb.Firmware.{Firmware, Happening, run_all}
use crazyradio2_firmware.Usb.Firmware.Kept.{IsOrdered, IsConserved, IsUnlocked, FirmwareInv}
use crazyradio2_firmware.Usb.Firmware.Runs.{AllSane, run_all-FirmwareInv}
use crazyradio2_firmware.Boot.{Version, start_hf_clock, test_fem, set_usb_app_version, main}

-- The variable `command` of `crazyradio_vendor_handler`, and those of the rest of the file.
abbrev vendor_statics : Version → (pa lna rssi arc_counter : ℕ) → VendorState
vendor_statics version pa lna rssi arc_counter = record {
  usb = initial (main version pa lna) rssi arc_counter;
  command = record {
    setup_packet = record {
      is_vendor = false;
      to_host = false;
      b_request = 0;
      w_value = 0;
      w_index = 0;
      w_length = 0;
    };
    length = 0;
    bytes = replicate 16 0;
  };
}

main-handover :
    (version : Version) (pa lna rssi arc_counter : ℕ)
    → let s = main version pa lna in
      VendorInv (vendor_statics version pa lna rssi arc_counter)
      × (lock_state s.calls ≡ unlocked)
      × (s.delivered ≡ [])
unfolding main start_hf_clock led_init led_set_red led_set_green led_set_blue led_pulse_green
    led_pulse_red led_pulse_blue esb_init fem_init test_fem fem_txen_set fem_rxen_set
    fem_is_pa_enabled fem_is_lna_enabled read_register set_usb_app_version
main-handover version pa lna rssi arc_counter =
    (record { usb_inv = ground arith; command_room = refl }, refl, refl)

module _ {cq : MsgQueue UsbCommand} {sq : MsgQueue SnifferPacket} where
  -- `commands` and `sniffs` are the queues as `K_MSGQ_DEFINE` makes them. `rssi` and `arc_counter`
  -- are variables of the thread that start with no value.
  abbrev pub powered_on :
      Version → (pa lna rssi arc_counter : ℕ) → (commands : cq.Q) (sniffs : sq.Q) → Firmware cq sq
  powered_on version pa lna rssi arc_counter commands sniffs = record {
    vendor = vendor_statics version pa lna rssi arc_counter;
    out = out_statics;
    commands = commands;
    sniffs = sniffs;
    blocked = none;
    issued = [];
    taken = [];
    accepted = [];
    lost = [];
    streamed = [];
  }

module _ (cq : MsgQueue UsbCommand) (sq : MsgQueue SnifferPacket) (version : Version)
    (pa lna rssi arc_counter : ℕ) (commands : cq.Q) (sniffs : sq.Q)
    (no_commands : cq.contents commands ≡ []) (no_sniffs : sq.contents sniffs ≡ []) where
  powered_on-FirmwareInv :
      FirmwareInv (powered_on {cq = cq} {sq = sq} version pa lna rssi arc_counter commands sniffs)
  powered_on-FirmwareInv =
      let handed = main-handover version pa lna rssi arc_counter in
      record {
        vendor_inv = handed.0;
        out_fresh = record { not_midway = refl; has_room = refl };
        ordered = record {
          in_order = sym (append-nil (cq.contents commands) ∙ no_commands);
          bounded = rw no_commands (omega arith);
          full_if_blocked = inl refl;
          tame = rw no_commands tt;
        };
        conserved = record {
          in_order = sym no_sniffs;
          counted = refl;
          bounded = rw no_sniffs (omega arith);
          queue_fits = ap all_fit no_sniffs;
          delivered_fits = ap all_fit handed.2;
        };
        is_unlocked = handed.1;
      }

  -- From power-on, whatever the front end answers to its test, and after any sequence of bulk
  -- transfers, control requests, interrupts and rounds of the thread, in any modes and whatever
  -- the radio does: nothing has copied past an array, the commands and the sniffed packets are in
  -- order, and both mutexes are free. A transfer is of fewer than 128 bytes and starts with a byte
  -- of at least 8, the radio fills whole buffers, and the data of a request is there.
  pub run_all-powered_on :
      (hs : List Happening)
      → AllSane hs
      → Gives
          (λ f. VendorInv f.vendor × IsOrdered f × IsConserved f × IsUnlocked f)
          (run_all hs
            (powered_on {cq = cq} {sq = sq} version pa lna rssi arc_counter commands sniffs))
  run_all-powered_on hs sane =
      Gives-mono FirmwareInv _ _ (λ f v. (v.vendor_inv, v.ordered, v.conserved, v.is_unlocked))
        (run_all-FirmwareInv hs _ sane powered_on-FirmwareInv)
