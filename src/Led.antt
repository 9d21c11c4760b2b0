-- ===== src/Led.antt =====
-- src/led.c: three LEDs, each with a one-shot timer that ends a pulse. Times are in milliseconds.
use crazyradio2_firmware.Base.{ℕ, Bool, true, false, bit}
use crazyradio2_firmware.Platform.{
  Calls, ◌▹◌, red_led, green_led, blue_led, gpio_configure, gpio_set, timer_start, Timer, red_timer,
  green_timer, blue_timer,
}

unfoldable pub led_set_red : Bool → Calls → Calls
led_set_red on t = t ▹ gpio_set red_led (bit on)

unfoldable pub led_set_green : Bool → Calls → Calls
led_set_green on t = t ▹ gpio_set green_led (bit on)

unfoldable pub led_set_blue : Bool → Calls → Calls
led_set_blue on t = t ▹ gpio_set blue_led (bit on)

unfoldable pub led_init : Calls → Calls
unfolding led_set_red led_set_green led_set_blue
led_init t =
    let red = led_set_red false (t ▹ gpio_configure red_led) in
    let green = led_set_green false (red ▹ gpio_configure green_led) in
    led_set_blue false (green ▹ gpio_configure blue_led)

-- The three expiry handlers.
unfoldable pub timer_expired : Timer → Calls → Calls
unfolding led_set_red led_set_green led_set_blue
timer_expired red_timer t = led_set_red false t
timer_expired green_timer t = led_set_green false t
timer_expired blue_timer t = led_set_blue false t

unfoldable pub led_pulse_red : ℕ → Calls → Calls
unfolding led_set_red
led_pulse_red time t = led_set_red true t ▹ timer_start red_timer time

unfoldable pub led_pulse_green : ℕ → Calls → Calls
unfolding led_set_green
led_pulse_green time t = led_set_green true t ▹ timer_start green_timer time

unfoldable pub led_pulse_blue : ℕ → Calls → Calls
unfolding led_set_blue
led_pulse_blue time t = led_set_blue true t ▹ timer_start blue_timer time
