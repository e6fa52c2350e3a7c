-- ===== src/Lights/Brightness.antt =====
-- The backlight of liblights/lights.cpp.
use native.Mathlib.Nat.{mul-le-mul_left}
use vibe_xperia.Prelude.{ℕ, ◌*◌, ◌/◌, ◌≤◌, ◌<◌, ◌≡◌, ◌⊎◌, arith}
use vibe_xperia.Lights.{LightState, rgb_to_brightness, backlight_value}

-- The brightness of a colour fits into a byte.
pub rgb_to_brightness-le : (s : LightState) → rgb_to_brightness s ≤ 255
unfolding rgb_to_brightness
rgb_to_brightness-le s = omega arith

bounded_div : (m g : ℕ) → g ≤ 255 → m * g / 255 ≤ m
bounded_div m g h = omega (arith, mul-le-mul_left m h)

module _ (gamma : ℕ → ℕ) (gamma_le : (b : ℕ) → b ≤ 255 → gamma b ≤ 255) (lcd_min max_brightness : ℕ)
    (s : LightState) (min_le : lcd_min ≤ max_brightness) where
  scaled_le : max_brightness * gamma (rgb_to_brightness s) / 255 ≤ max_brightness
  scaled_le =
      let small = gamma_le (rgb_to_brightness s) (rgb_to_brightness-le s) in
      bounded_div max_brightness (gamma (rgb_to_brightness s)) small

  -- The value for the backlight files is at most the panel's maximum brightness. It is 0 where the colour's
  -- brightness is 0, and at least the panel's minimum elsewhere: the screen is dark only where the colour
  -- asks for it.
  pub backlight_value_bounds :
      (backlight_value gamma lcd_min max_brightness s ≤ max_brightness)
      × (((rgb_to_brightness s ≡ 0) × (backlight_value gamma lcd_min max_brightness s ≡ 0))
          ⊎ ((0 < rgb_to_brightness s)
              × (lcd_min ≤ backlight_value gamma lcd_min max_brightness s)))
  unfolding backlight_value
  backlight_value_bounds = ground (arith, scaled_le)
