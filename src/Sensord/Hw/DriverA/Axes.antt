-- ===== src/Sensord/Hw/DriverA/Axes.antt =====
-- What a reading of the chip's events gives, and what the bandwidth's register gets.
use vibe_xperia.Prelude.{
  ℕ, zero, suc, ◌/◌, ◌<◌, arith, ◌∙◌, negsuc, ◌≡◌, refl, ap, Bool, true, false, List, [], ◌∷◌, ◌++◌,
  Option, none, some, if◌then◌else◌, ℤ, pos, minus_one,
}
use vibe_xperia.Sensord.Hw.Remap.{Vec3, neg, hw_remap_sensor_data, axis_remap_tab_a}
use vibe_xperia.Sensord.Hw.DriverA.{
  Axis, abs_x, abs_y, abs_z, abs_other, InputEvent, ev_abs, ev_syn, ev_other, take_axis, read_loop,
  shift_right, to_phone, hw_acc_read_xyzdata_input_ev,
}

abbrev is_x : Axis → Bool
is_x abs_x = true
is_x _ = false

abbrev is_y : Axis → Bool
is_y abs_y = true
is_y _ = false

abbrev is_z : Axis → Bool
is_z abs_z = true
is_z _ = false

-- An event before the end of a reading: the report of an axis, or an event of another type
abbrev pub Reported : Type 0
Reported = Option (Axis × ℤ)

-- the value of the last report of an axis, or the one before
abbrev pub latest : (Axis → Bool) → List Reported → ℤ → ℤ
latest p [] v = v
latest p (none ∷ xs) v = latest p xs v
latest p (some (a, n) ∷ xs) v = let rest = latest p xs (if p a then n else v) in rest

abbrev pub reports : List Reported → List (Option InputEvent)
reports [] = []
reports (none ∷ xs) = some ev_other ∷ reports xs
reports (some (a, n) ∷ xs) = some (ev_abs a n) ∷ reports xs

-- the vector of the latest values
abbrev pub latest_vec : List Reported → Vec3 → Vec3
latest_vec xs v = record { x = latest is_x xs v.x; y = latest is_y xs v.y; z = latest is_z xs v.z }

read_loop-reports :
    (xs : List Reported) (v : Vec3) (last : Option InputEvent) (rest : List (Option InputEvent))
    → read_loop (reports xs ++ last ∷ rest) v ≡ read_loop (last ∷ rest) (latest_vec xs v)
unfolding read_loop
read_loop-reports [] v last rest = refl
read_loop-reports (none ∷ xs) v last rest = read_loop-reports xs v last rest
read_loop-reports (some (abs_x, n) ∷ xs) v last rest =
    read_loop-reports xs (take_axis v abs_x n) last rest
read_loop-reports (some (abs_y, n) ∷ xs) v last rest =
    read_loop-reports xs (take_axis v abs_y n) last rest
read_loop-reports (some (abs_z, n) ∷ xs) v last rest =
    read_loop-reports xs (take_axis v abs_z n) last rest
read_loop-reports (some (abs_other, n) ∷ xs) v last rest = read_loop-reports xs v last rest

-- The greatest integer that is at most a value's 64th part
abbrev scaled : ℤ → ℤ
scaled (pos n) = pos (n / 64)
scaled (negsuc n) = negsuc (n / 64)

abbrev vec : ℤ → ℤ → ℤ → Vec3
vec x y z = record { x = x; y = y; z = z }

-- The phone's axes for each of the eight placements P0 to P7 of the chip
abbrev turned : ℕ → ℤ → ℤ → ℤ → Vec3
turned zero x y z = vec (neg y) x z
turned (suc zero) x y z = vec x y z
turned (suc (suc zero)) x y z = vec (neg x) (neg y) z
turned (suc (suc (suc zero))) x y z = vec y (neg x) z
turned (suc (suc (suc (suc zero)))) x y z = vec (neg x) y (neg z)
turned (suc (suc (suc (suc (suc zero))))) x y z = vec y x (neg z)
turned (suc (suc (suc (suc (suc (suc zero)))))) x y z = vec (neg y) (neg x) (neg z)
turned (suc (suc (suc (suc (suc (suc (suc p))))))) x y z = vec x (neg y) (neg z)

-- The phone's vector for the placement, which is not turned where none is given
abbrev pub placed : Option ℕ → Vec3 → Vec3
placed none v = vec (scaled v.x) (scaled v.y) (scaled v.z)
placed (some p) v = turned p (scaled v.x) (scaled v.y) (scaled v.z)

-- A placement, if one is given, is one of the table's.
abbrev pub InTable : Option ℕ → Type 0
InTable none = Unit
InTable (some p) = p < 8

shift_right-scaled : (n : ℤ) → shift_right n 6 ≡ scaled n
shift_right-scaled (pos n) = refl
shift_right-scaled (negsuc n) = refl

to_phone-placed : (place : Option ℕ) (v : Vec3) → InTable place → to_phone place v ≡ placed place v
unfolding to_phone hw_remap_sensor_data axis_remap_tab_a
to_phone-placed none v h = simp shift_right-scaled
to_phone-placed (some zero) v h = simp shift_right-scaled
to_phone-placed (some (suc zero)) v h = simp shift_right-scaled
to_phone-placed (some (suc (suc zero))) v h = simp shift_right-scaled
to_phone-placed (some (suc (suc (suc zero)))) v h = simp shift_right-scaled
to_phone-placed (some (suc (suc (suc (suc zero))))) v h = simp shift_right-scaled
to_phone-placed (some (suc (suc (suc (suc (suc zero)))))) v h = simp shift_right-scaled
to_phone-placed (some (suc (suc (suc (suc (suc (suc zero))))))) v h = simp shift_right-scaled
to_phone-placed (some (suc (suc (suc (suc (suc (suc (suc zero)))))))) v h = simp shift_right-scaled
to_phone-placed (some (suc (suc (suc (suc (suc (suc (suc (suc p))))))))) v h = absurd (omega arith)

-- With no placement or one of the table's, a reading takes the events up to EV_SYN and no more, those of other
-- types without effect, and gives the latest value of each axis, divided by 64 and turned to the phone by
-- the placement; if a read fails or is short before EV_SYN, the reading fails.
pub hw_acc_read_xyzdata_input_ev_lem :
    (place : Option ℕ) (xs : List Reported) (v : Vec3) (rest : List (Option InputEvent))
    → InTable place
    → (hw_acc_read_xyzdata_input_ev place (reports xs ++ some ev_syn ∷ rest) v
        ≡ some (pos 0, placed place (latest_vec xs v), rest))
      × (hw_acc_read_xyzdata_input_ev place (reports xs ++ none ∷ rest) v
          ≡ some (minus_one, latest_vec xs v, rest))
unfolding hw_acc_read_xyzdata_input_ev read_loop
hw_acc_read_xyzdata_input_ev_lem place xs v rest h = (
  ap (answer place) (read_loop-reports xs v (some ev_syn) rest)
      ∙ ap (λ (u : Vec3). some (pos 0, u, rest)) (to_phone-placed place (latest_vec xs v) h),
  ap (answer place) (read_loop-reports xs v none rest),
)
  where
    answer :
        Option ℕ
        → Option (Bool × Vec3 × List (Option InputEvent))
        → Option (ℤ × Vec3 × List (Option InputEvent))
    answer p none = none
    answer p (some (false, w, evs)) = some (minus_one, w, evs)
    answer p (some (true, w, evs)) = some (pos 0, to_phone p w, evs)
