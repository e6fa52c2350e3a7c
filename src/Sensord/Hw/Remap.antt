-- ===== src/Sensord/Hw/Remap.antt =====
-- sensors/daemon/src/hw/hw_cntl.c, hw/a/chip/axis_remap_a.c and hw/m/chip/axis_remap_m.c: the axes of
-- a chip turned into the axes of the phone. A value stands for an `int32_t` that is not INT_MIN.
use vibe_xperia.Prelude.{
  ℕ, zero, suc, ◌<◌, ◌≡◌, refl, Bool, true, false, List, [], ◌∷◌, arith, if◌then◌else◌, ◌==◌, ℤ,
  pos, negsuc, get_or,
}

-- `sensor_data_ival_t`, its first three components
pub record Vec3 : Type 0 where
  pub x : ℤ
  pub y : ℤ
  pub z : ℤ

-- `axis_remap_t`: which component goes to an axis, and whether its sign is turned
pub record AxisRemap : Type 0 where
  pub rx : ℕ
  pub ry : ℕ
  pub rz : ℕ
  pub sx : Bool
  pub sy : Bool
  pub sz : Bool

unfoldable pub neg : ℤ → ℤ
neg (pos zero) = pos zero
neg (pos (suc n)) = negsuc n
neg (negsuc n) = pos (suc n)

-- `tmp.v[i]`; the two bits of `i` could also say 3, which no table does
abbrev pick : ℤ → ℤ → ℤ → ℕ → ℤ
pick v0 v1 v2 i = if i == 0 then v0 else if i == 1 then v1 else v2

abbrev turn : Bool → ℤ → ℤ
turn s v = if s then neg v else v

-- Between the picks the code swaps components 0 and 1, then 0 and 2.
unfoldable pub hw_remap_sensor_data : Vec3 → AxisRemap → Vec3
hw_remap_sensor_data d m = record {
  x = turn m.sx (pick d.x d.y d.z m.rx);
  y = turn m.sy (pick d.y d.x d.z m.ry);
  z = turn m.sz (pick d.z d.x d.y m.rz);
}

abbrev row : ℕ → ℕ → ℕ → Bool → Bool → Bool → AxisRemap
row rx ry rz sx sy sz = record { rx = rx; ry = ry; rz = rz; sx = sx; sy = sy; sz = sz }

-- `axis_remap_tab_a`, built with HW_ID_A_BMC050, and `axis_remap_tab_m`, built with HW_ID_M_BMC050
unfoldable pub axis_remap_tab_a : List AxisRemap
axis_remap_tab_a =
    row 1 1 0 true false false
    ∷ row 0 0 0 false false false
    ∷ row 0 0 0 true true false
    ∷ row 1 1 0 false true false
    ∷ row 0 0 0 true false true
    ∷ row 1 1 0 false false true
    ∷ row 1 1 0 true true true
    ∷ row 0 0 0 false true true
    ∷ []

unfoldable pub axis_remap_tab_m : List AxisRemap
axis_remap_tab_m =
    row 1 1 0 true false false
    ∷ row 0 0 0 false false false
    ∷ row 0 0 0 true true false
    ∷ row 1 1 0 false true false
    ∷ row 0 0 0 true false true
    ∷ row 1 1 0 false false true
    ∷ row 1 1 0 true true true
    ∷ row 0 0 0 false true true
    ∷ []

abbrev pub remap_at : List AxisRemap → ℕ → Vec3 → Vec3
remap_at tab place d = hw_remap_sensor_data d (get_or tab place (row 0 0 0 false false false))

-- the placement that turns a placement back: the two quarter turns P0 and P3 undo each other
abbrev pub opposite : ℕ → ℕ
opposite p = if p == 0 then 3 else if p == 3 then 0 else p

neg-neg : (v : ℤ) → neg (neg v) ≡ v
unfolding neg
neg-neg (pos zero) = refl
neg-neg (pos (suc n)) = refl
neg-neg (negsuc n) = refl

opposite_a :
    (p : ℕ) (d : Vec3)
    → p < 8
    → remap_at axis_remap_tab_a (opposite p) (remap_at axis_remap_tab_a p d) ≡ d
unfolding hw_remap_sensor_data axis_remap_tab_a
opposite_a zero d h = simp neg-neg
opposite_a (suc zero) d h = refl
opposite_a (suc (suc zero)) d h = simp neg-neg
opposite_a (suc (suc (suc zero))) d h = simp neg-neg
opposite_a (suc (suc (suc (suc zero)))) d h = simp neg-neg
opposite_a (suc (suc (suc (suc (suc zero))))) d h = simp neg-neg
opposite_a (suc (suc (suc (suc (suc (suc zero)))))) d h = simp neg-neg
opposite_a (suc (suc (suc (suc (suc (suc (suc zero))))))) d h = simp neg-neg
opposite_a (suc (suc (suc (suc (suc (suc (suc (suc p)))))))) d h = absurd (omega arith)

same_tables : axis_remap_tab_m ≡ axis_remap_tab_a
unfolding axis_remap_tab_a axis_remap_tab_m
same_tables = refl

-- Each of the eight placements of the acceleration sensor and of the magnetic sensor is undone by
-- `opposite` of it in the same table, for every vector.
pub remap-opposite :
    (p : ℕ) (d : Vec3)
    → p < 8
    → (remap_at axis_remap_tab_a (opposite p) (remap_at axis_remap_tab_a p d) ≡ d)
      × (remap_at axis_remap_tab_m (opposite p) (remap_at axis_remap_tab_m p d) ≡ d)
remap-opposite p d h = (opposite_a p d h, rw same_tables (opposite_a p d h))
