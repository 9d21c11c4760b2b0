-- ===== src/Lib.antt =====
-- The firmware of the Crazyradio 2.0, a USB dongle that sends ShockBurst packets to Crazyflie
-- drones. A host hands it packets on a bulk endpoint and settings in control requests; the firmware
-- sends each packet by radio, waits for the ack, sends again if there is none, and hands the host
-- what has come back. In the sniffer mode it hands the host every packet that it hears.
--
-- The parts of the program, and the modules that model them:
--   * Base: numbers, lists, bits, C's words, and the tests on them.
--   * Platform: the calls that the firmware makes of code that is not in the repository (Zephyr's
--     kernel, GPIO, SPI and USB, nrfx). Each call is recorded with its arguments, newest first, in
--     the field `calls` of the radio's state. What such a call answers (a read register, a random
--     draw, the packet that the radio writes into a buffer, whether a semaphore was taken) is an
--     argument of the function that makes it. Two marks stand around what the interrupt handler
--     calls. Platform.Trace says what a record of calls means: who holds the mutex, how often the
--     radio was started, what a register last got. The handler takes no mutex, so what is said of
--     calls under a mutex is of those outside it.
--   * Fem, Led, System: src/fem.c, src/led.c and src/system.c, as functions on the record of calls.
--     Fem.Build has the macros of the three headers src/radio_nrf5_fem*.h, as functions of the
--     front end's node in the device tree, and whether src/fem.c builds with it.
--   * Esb: src/esb.c. Esb.State has its static variables, Esb.Isr the interrupt handler
--     `radio_isr`, Esb.Address and Esb.Config the settings, Esb.Send `esb_send_packet`, Esb.Sniffer
--     the sniffer mode, and Esb.Api the functions of src/esb.h as calls in any order. Interrupts
--     come in the waits and sleeps of the code: each is a list of runs of the handler, which an
--     argument gives. Esb.Unnoticed is what the USB side notices of an operation of the radio:
--     which packets it hands over, what becomes of the mutexes. Esb.Send.Exchange is the case of a
--     radio that does its part, with one interrupt at the end of a packet and one at the ack or the
--     timeout. Esb.Send.OnAir and Esb.Sniffer.OnAir look at the registers as they are when a
--     transmission starts. What the radio receives is in the ack buffer of a call only if the
--     radio is pointed at it.
--   * Usb: src/legacy_usb.c. Usb.State has `state` and the commands, Usb.Out `crazyradio_out_cb`,
--     Usb.Vendor `crazyradio_vendor_handler`, Usb.Scan `fw_scan`, Usb.Command
--     `handle_vendor_command`, Usb.Data a round of `usb_thread` that sends a packet, and Usb.Stream
--     a round in the sniffer mode. Usb.Session puts them together: rounds, control requests and
--     sniffed packets in any order, one after the other, with what the queues hand out as an
--     argument. Usb.Firmware has the two queues themselves, between the callbacks of the USB stack,
--     the thread and the interrupt handler; Usb.Queue says what a queue of Zephyr does, and every
--     definition over the queues takes two such queues as arguments. A callback that finds the
--     command queue full waits, and the USB stack makes no other meanwhile. Usb.Firmware.Moments
--     lets the callbacks cut in on the rounds of the thread, and Usb.Firmware.RoundTrip follows a
--     packet from the host to the radio and back, Usb.Firmware.Heard one that the radio hears, and
--     Usb.Firmware.Streaming those that wait in the sniffer's queue.
--     Usb.Invariant is what all handlers keep. Usb.Descriptor has the descriptors and the table of
--     callbacks.
--   * Boot: `main` of src/main.c, up to its idle loop. The version is an argument. Boot.Whole is
--     the whole program from power-on: `main`, the static variables, and then Usb.Firmware.
-- The USB side holds the radio's state in a field and calls Esb's functions on it. A copy with
-- `memcpy` that leaves one of its arrays is an outcome `fault` of its own.
--
-- Bounds and fuel: bytes and words are natural numbers, cut with `% 2 ^ w` where the code stores
-- them. The retry loop of `esb_send_packet` runs on fuel; `arc + 1` is enough, since the loop ends
-- when `arc` retries are made, and callers give just that. All other loops go down a counter or a
-- list.
--
-- Not modelled: log lines; the device descriptor, which is Zephyr's, but for the release number
-- that main writes into it; the status callback and the IN callback, which do nothing; a handler
-- that another one cuts in on, beyond the interrupts in its waits and the callbacks of
-- Usb.Firmware.Moments; time, beyond the timestamps that an interrupt reads; boards and the device
-- tree, beyond the node of the front end.
pub mod Base
pub mod Platform
pub mod Fem
pub mod Led
pub mod Esb
pub mod System
pub mod Usb
pub mod Boot
