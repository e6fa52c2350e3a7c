-- ===== src/Lights.antt =====
-- liblights/lights.cpp: the lights HAL. What it writes to sysfs is a list of commands.
pub mod Brightness
pub mod Led
mod Tests
use vibe_xperia.Prelude.{
  ℕ, ◌+◌, ◌*◌, ◌/◌, ◌%◌, ◌&&◌, ◌||◌, not, Bool, true, false, Option, none, some, List, [], ◌∷◌,
  ◌++◌, ℤ, pos, negsuc, einval, is_err, ltb, leb, ◌==◌, if◌then◌else◌,
}

-- `light_state_t`: the colour word, whether the flash mode is timed or hardware, and its times
pub record LightState : Type 0 where
  pub color : ℕ
  pub flashes : Bool
  pub flash_on_ms : ℤ
  pub flash_off_ms : ℤ

-- `color & 0x00ffffff` and its three bytes
abbrev pub rgb : ℕ → ℕ
rgb color = color % 16777216

abbrev pub red_of : ℕ → ℕ
red_of color = rgb color / 65536 % 256

abbrev pub green_of : ℕ → ℕ
green_of color = rgb color / 256 % 256

abbrev pub blue_of : ℕ → ℕ
blue_of color = rgb color % 256

unfoldable pub rgb_to_brightness : LightState → ℕ
rgb_to_brightness state =
    (77 * red_of state.color + 150 * green_of state.color + 29 * blue_of state.color) / 256

-- `get_max_brightness`: `opened` is whether the file opens, `len` what `read` returns and `parsed` what `strtol`
-- gives
unfoldable pub get_max_brightness : Bool → ℤ → ℕ → ℕ
get_max_brightness false len parsed = 255
get_max_brightness true (negsuc n) parsed = 255
get_max_brightness true (pos n) parsed = if leb n 1 then 255 else parsed

-- The value that `lights_set_light_backlight` writes to both backlight files; `lcd_min` is LCD_BRIGHTNESS_MIN and
-- `gamma` is `brightness_apply_gamma`, which works with `double`, or the identity where it is switched off.
unfoldable pub backlight_value : (ℕ → ℕ) → ℕ → ℕ → LightState → ℕ
unfolding rgb_to_brightness
backlight_value gamma lcd_min max_brightness state =
    let level = rgb_to_brightness state in
    let scaled = max_brightness * gamma level / 255 in
    if ltb 0 level then (if ltb scaled lcd_min then lcd_min else scaled) else level

-- The values written, to the first and to the second backlight file
unfoldable pub lights_set_light_backlight : (ℕ → ℕ) → ℕ → ℕ → LightState → List ℕ
unfolding backlight_value
lights_set_light_backlight gamma lcd_min max_brightness state =
    let value = backlight_value gamma lcd_min max_brightness state in value ∷ value ∷ []

-- A command of the LED's control file: `2 <led> <0|1>`, `1 <led> <0|1>`, `4 <led> <n>` and `7 <led> <on> <off>`
pub data LedCommand : Type 0 where
  blink_switch : ℕ → Bool → LedCommand
  steady_switch : ℕ → Bool → LedCommand
  brightness : ℕ → ℕ → LedCommand
  blink_times : ℕ → ℤ → ℤ → LedCommand

abbrev pub is_positive : ℤ → Bool
is_positive (pos n) = ltb 0 n
is_positive (negsuc n) = false

unfoldable pub set_led_channel : ℕ → ℕ → Bool → ℤ → ℤ → List LedCommand
set_led_channel led_id level blink on_ms off_ms =
    if leb level 0
    then blink_switch led_id false ∷ steady_switch led_id false ∷ []
    else if blink && is_positive on_ms && is_positive off_ms
    then brightness led_id level ∷ blink_times led_id on_ms off_ms ∷ blink_switch led_id true ∷ []
    else brightness led_id level ∷ blink_switch led_id false ∷ steady_switch led_id true ∷ []

unfoldable pub lights_set_light_led : LightState → List LedCommand
unfolding set_led_channel
lights_set_light_led state =
    let on_ms = if state.flashes then state.flash_on_ms else pos 0 in
    let off_ms = if state.flashes then state.flash_off_ms else pos 0 in
    set_led_channel 0 (red_of state.color) state.flashes on_ms off_ms
    ++ (set_led_channel 1 (green_of state.color) state.flashes on_ms off_ms
        ++ set_led_channel 2 (blue_of state.color) state.flashes on_ms off_ms)

-- `lights_set_light` for a button light: the state that the vendor's device is given
unfoldable pub lights_set_light : Bool → (LightState → ℤ) → LightState → ℤ
lights_set_light has_dev vendor state =
    if has_dev then vendor (record state { color = rgb state.color }) else einval

-- The light's name, by what it is compared with
pub data LightId : Type 0 where
  backlight : LightId
  notifications : LightId
  battery : LightId
  attention : LightId
  buttons : LightId
  other : LightId

-- Which function an opened light got
pub data SetLight : Type 0 where
  by_backlight : SetLight
  by_led : SetLight
  by_vendor : SetLight

-- What the platform answers while a light is opened: `malloc`, whether the vendor's module is already there,
-- `hw_get_module_by_class` and the module's `open`
pub record OpenAnswers : Type 0 where
  pub allocated : Bool
  pub has_module : Bool
  pub get_module : ℤ
  pub vendor_open : ℤ

-- -ENOMEM
abbrev pub enomem : ℤ
enomem = negsuc 11

abbrev open_vendor : OpenAnswers → ℤ × Option SetLight × Bool
open_vendor a =
    if not a.has_module && is_err a.get_module
    then (einval, none, false)
    else if is_err a.vendor_open
    then (a.vendor_open, none, false)
    else (pos 0, some by_vendor, true)

abbrev open_named : LightId → OpenAnswers → ℤ × Option SetLight × Bool
open_named backlight a = (pos 0, some by_backlight, true)
open_named notifications a = (pos 0, some by_led, true)
open_named battery a = (pos 0, some by_led, true)
open_named attention a = (pos 0, some by_led, true)
open_named buttons a = open_vendor a
open_named other a = (einval, none, false)

-- `open_lights` for a name that is not NULL: its result, the light, and whether the allocated memory is still
-- held
unfoldable pub open_lights : LightId → OpenAnswers → ℤ × Option SetLight × Bool
open_lights name a = if a.allocated then open_named name a else (enomem, none, false)
