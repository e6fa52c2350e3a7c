-- ===== src/Lights/Led.antt =====
-- The notification LED of liblights/lights.cpp, against what the LED driver does with the commands.
use mathlib.Core.List.{append-nil}
use vibe_xperia.Prelude.{
  ℕ, zero, suc, ◌/◌, ◌%◌, ◌<◌, Bool, true, false, ◌&&◌, List, [], ◌∷◌, ◌++◌, ℤ, pos, ◌≡◌, refl,
  arith, ap, sym, ◌∙◌, ltb, ◌==◌, if◌then◌else◌,
}
use vibe_xperia.Lights.{
  LightState, LedCommand, blink_switch, steady_switch, brightness, blink_times, set_led_channel,
  lights_set_light_led, red_of, green_of, blue_of, is_positive,
}

-- One colour of the LED, as the comment of the code says that the commands set it
pub record Channel : Type 0 where
  pub level : ℕ
  pub steady : Bool
  pub blinks : Bool
  pub times : ℤ × ℤ

-- A command to a channel; one with another id leaves it.
pub run_command : ℕ → LedCommand → Channel → Channel
run_command id (blink_switch led on) c = if led == id then record c { blinks = on } else c
run_command id (steady_switch led on) c = if led == id then record c { steady = on } else c
run_command id (brightness led n) c = if led == id then record c { level = n } else c
run_command id (blink_times led on off) c = if led == id then record c { times = (on, off) } else c

unfoldable pub run_commands : ℕ → List LedCommand → Channel → Channel
unfolding run_command
run_commands id [] c = c
run_commands id (m ∷ ms) c = run_commands id ms (run_command id m c)

-- The colour byte of a channel: the third of the word, which is red, for 0, the second, green, for 1, and the
-- first, blue, for 2
abbrev pub byte_of : ℕ → ℕ → ℕ
byte_of zero color = color / 65536 % 256
byte_of (suc zero) color = color / 256 % 256
byte_of (suc (suc n)) color = color % 256

bytes :
    (color : ℕ)
    → (red_of color ≡ byte_of 0 color)
      × (green_of color ≡ byte_of 1 color)
      × (blue_of color ≡ byte_of 2 color)
bytes color = (omega arith, omega arith, omega arith)

-- Whether the light is to blink with the state's own times
abbrev pub is_blinking : LightState → Bool
is_blinking s = s.flashes && is_positive s.flash_on_ms && is_positive s.flash_off_ms

-- Commands to another channel change nothing.
module _ (id : ℕ) (c : Channel) where
  other_channel :
      (led level : ℕ) (blink : Bool) (on off : ℤ) (rest : List LedCommand)
      → (led == id) ≡ false
      → run_commands id (set_led_channel led level blink on off ++ rest) c ≡ run_commands id rest c
  unfolding run_commands set_led_channel
  other_channel led level blink on off rest e = ground (arith, e)

  abbrev pub shown : ℕ → Bool → ℤ → ℤ → Channel
  shown level blink on off =
      if ltb 0 level
      then (if blink && is_positive on && is_positive off
          then record c { level = level; times = (on, off); blinks = true }
          else record c { level = level; blinks = false; steady = true })
      else record c { blinks = false; steady = false }

  own_channel :
      (level : ℕ) (blink : Bool) (on off : ℤ) (rest : List LedCommand)
      → run_commands id (set_led_channel id level blink on off ++ rest) c
        ≡ run_commands id rest (shown level blink on off)
  unfolding run_commands set_led_channel
  own_channel level blink on off rest = ground arith

abbrev on_of : LightState → ℤ
on_of s = if s.flashes then s.flash_on_ms else pos 0

abbrev off_of : LightState → ℤ
off_of s = if s.flashes then s.flash_off_ms else pos 0

abbrev channel : LightState → ℕ → List LedCommand
channel s led = set_led_channel led (byte_of led s.color) s.flashes (on_of s) (off_of s)

-- The commands of `lights_set_light_led`, with these bytes
by_bytes : (s : LightState) → lights_set_light_led s ≡ channel s 0 ++ (channel s 1 ++ channel s 2)
unfolding lights_set_light_led
by_bytes s =
    let lit = λ (r g b : ℕ).
      set_led_channel 0 r s.flashes (on_of s) (off_of s)
      ++ (set_led_channel 1 g s.flashes (on_of s) (off_of s)
          ++ set_led_channel 2 b s.flashes (on_of s) (off_of s)) in
    let (red, green, blue) = bytes s.color in
    ap (λ (r : ℕ). lit r (green_of s.color) (blue_of s.color)) red
    ∙ ap (λ (g : ℕ). lit (byte_of 0 s.color) g (blue_of s.color)) green
    ∙ ap (λ (b : ℕ). lit (byte_of 0 s.color) (byte_of 1 s.color) b) blue

-- The state that a channel ends with, by its byte
abbrev shown_for : LightState → ℕ → Channel → Channel
shown_for s led c = shown led c (byte_of led s.color) s.flashes (on_of s) (off_of s)

module _ (s : LightState) where
  last_other : (id : ℕ) (c : Channel) → (2 == id) ≡ false → run_commands id (channel s 2) c ≡ c
  unfolding run_commands
  last_other id c e =
      ap (λ (m : List LedCommand). run_commands id m c) (sym (append-nil (channel s 2)))
      ∙ other_channel id c 2 _ s.flashes (on_of s) (off_of s) [] e

  last_own : (c : Channel) → run_commands 2 (channel s 2) c ≡ shown_for s 2 c
  unfolding run_commands
  last_own c =
      ap (λ (m : List LedCommand). run_commands 2 m c) (sym (append-nil (channel s 2)))
      ∙ own_channel 2 c _ s.flashes (on_of s) (off_of s) []

  led_shown :
      (id : ℕ) (c : Channel)
      → id < 3
      → run_commands id (channel s 0 ++ (channel s 1 ++ channel s 2)) c ≡ shown_for s id c
  led_shown zero c h =
      own_channel 0 c _ s.flashes (on_of s) (off_of s) _
      ∙ other_channel 0 (shown_for s 0 c) 1 _ s.flashes (on_of s) (off_of s) _ refl
      ∙ last_other 0 (shown_for s 0 c) refl
  led_shown (suc zero) c h =
      other_channel 1 c 0 _ s.flashes (on_of s) (off_of s) _ refl
      ∙ own_channel 1 c _ s.flashes (on_of s) (off_of s) _
      ∙ last_other 1 (shown_for s 1 c) refl
  led_shown (suc (suc zero)) c h =
      other_channel 2 c 0 _ s.flashes (on_of s) (off_of s) _ refl
      ∙ other_channel 2 c 1 _ s.flashes (on_of s) (off_of s) _ refl
      ∙ last_own c
  led_shown (suc (suc (suc n))) c h = absurd (omega arith)

  shown_lem :
      (id : ℕ) (c : Channel)
      → shown_for s id c ≡ (
          if ltb 0 (byte_of id s.color)
          then (if is_blinking s
              then record c {
                level = byte_of id s.color;
                times = (s.flash_on_ms, s.flash_off_ms);
                blinks = true;
              }
              else record c { level = byte_of id s.color; blinks = false; steady = true })
          else record c { blinks = false; steady = false })
  shown_lem id c = ground arith

-- Each of the three channels ends as its own byte of the colour asks, whatever it was before: off and not
-- blinking for 0, and else at that level, blinking with the state's times where the state flashes with
-- two positive times, and steadily on where not.
pub run_commands-set_light_led :
    (id : ℕ) (s : LightState) (c : Channel)
    → id < 3
    → run_commands id (lights_set_light_led s) c ≡ (
        if ltb 0 (byte_of id s.color)
        then (if is_blinking s
            then record c {
              level = byte_of id s.color;
              times = (s.flash_on_ms, s.flash_off_ms);
              blinks = true;
            }
            else record c { level = byte_of id s.color; blinks = false; steady = true })
        else record c { blinks = false; steady = false })
run_commands-set_light_led id s c h =
    ap (λ (m : List LedCommand). run_commands id m c) (by_bytes s)
    ∙ led_shown s id c h
    ∙ shown_lem s id c
