-- ===== src/Lights/Tests.antt =====
-- Inputs of liblights/lights.cpp.
use vibe_xperia.Prelude.{
  ◌≡◌, refl, true, false, [], ◌∷◌, none, arith, pos, negsuc, ltb, if◌then◌else◌,
}
use vibe_xperia.Lights.{
  LightState, rgb_to_brightness, get_max_brightness, lights_set_light_led, blink_switch,
  steady_switch, brightness, blink_times, buttons, open_lights,
}
use vibe_xperia.Lights.Led.{Channel, run_commands, byte_of, is_blinking, run_commands-set_light_led}

-- an orange that blinks
abbrev orange : LightState
orange = record {
  color = 0xFFFF8000;
  flashes = true;
  flash_on_ms = pos 500;
  flash_off_ms = pos 900;
}

abbrev dark : Channel
dark = record { level = 0; steady = false; blinks = false; times = (pos 0, pos 0) }

orange_brightness : rgb_to_brightness orange ≡ 151
unfolding rgb_to_brightness
orange_brightness = refl

orange_commands :
    lights_set_light_led orange
    ≡ brightness 0 255
      ∷ blink_times 0 (pos 500) (pos 900)
      ∷ blink_switch 0 true
      ∷ brightness 1 128
      ∷ blink_times 1 (pos 500) (pos 900)
      ∷ blink_switch 1 true
      ∷ blink_switch 2 false
      ∷ steady_switch 2 false
      ∷ []
unfolding lights_set_light_led
orange_commands = refl

no_maximum : get_max_brightness true (pos 1) 7 ≡ 255
unfolding get_max_brightness
no_maximum = refl

buttons_without_module :
    open_lights buttons
      (record { allocated = true; has_module = false; get_module = negsuc 1; vendor_open = pos 0 })
    ≡ (negsuc 21, none, false)
unfolding open_lights
buttons_without_module = refl

run_commands-set_light_led_example : run_commands 1 (lights_set_light_led orange) dark ≡ (
    if ltb 0 (byte_of 1 orange.color)
    then (if is_blinking orange
        then record dark {
          level = byte_of 1 orange.color;
          times = (orange.flash_on_ms, orange.flash_off_ms);
          blinks = true;
        }
        else record dark { level = byte_of 1 orange.color; blinks = false; steady = true })
    else record dark { blinks = false; steady = false })
run_commands-set_light_led_example = run_commands-set_light_led 1 orange dark (omega arith)
