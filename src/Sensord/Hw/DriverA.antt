-- ===== src/Sensord/Hw/DriverA.antt =====
-- sensors/daemon/src/hw/a/hw_cntl_a.c, built with HW_A_USE_INPUT_EVENT_CACHE: the driver of the
-- acceleration chip. A write to a node of sysfs is the parameter `sysfs_write_int`, which answers 0 or an
-- error; the times that it waits are left out.
pub mod Axes
use vibe_xperia.Prelude.{
  ℕ, zero, suc, ◌/◌, ◌^◌, ◌-◌, Bool, true, false, List, [], ◌∷◌, Option, none, some, ◌==◌,
  if◌then◌else◌, ℤ, pos, negsuc, is_err, einval, minus_one, get_elem?,
}
use vibe_xperia.Sensord.Hw.Remap.{Vec3, AxisRemap, hw_remap_sensor_data, axis_remap_tab_a}

-- The nodes that the driver writes
pub data Node : Type 0 where
  grange : Node
  op_mode : Node
  enable_node : Node
  delay_node : Node
  bandwidth : Node

-- `struct sensor_hw_a`, the fields that the driver sets
pub record SensorHwA : Type 0 where
  pub bw : ℕ  -- uint32_t bw:12
  pub range : ℕ  -- uint32_t range:6
  pub delay : ℤ

-- HW_A_BW_INVALID, which is -1, in 12 bits
abbrev bw_invalid : ℕ
bw_invalid = 2 ^ 12 - 1

-- `map_a_range` and `map_a_bw`; the rest of each array is zeros, which no search finds
unfoldable pub map_a_range : List (ℕ × ℕ)
map_a_range = (0, 3) ∷ (1, 5) ∷ (2, 8) ∷ (3, 12) ∷ []

unfoldable pub map_a_bw : List (ℕ × ℕ)
map_a_bw = (0, 0x08) ∷ (1, 0x09) ∷ (2, 0x0a) ∷ (3, 0x0b) ∷ (4, 0x0c) ∷ []

unfoldable pub find_value : List (ℕ × ℕ) → ℕ → Option ℕ
find_value [] l = none
find_value ((l', r) ∷ rest) l = let next = find_value rest l in if l' == l then some r else next

-- `a | b` of two results, of which it only counts whether they are 0
abbrev pub or_err : ℤ → ℤ → ℤ
or_err a b = if is_err a then a else b

module _ {S : Type 0} (sysfs_write_int : S → Node → ℤ → ℤ × S) where
  unfoldable pub hw_acc_set_grange : S → SensorHwA → ℕ → ℤ × SensorHwA × S
  hw_acc_set_grange s hw range = elim (find_value map_a_range range) [
    | none ↦ (einval, hw, s)
    | some r ↦
        let (err, s1) = sysfs_write_int s grange (pos r) in
        (err, if is_err err then hw else record hw { range = range }, s1)
  ]

  unfoldable pub hw_acc_set_opmode : S → ℕ → ℤ × S
  hw_acc_set_opmode s mode = sysfs_write_int s op_mode (pos mode)

  unfoldable pub hw_acc_set_enable_inputev : S → Bool → ℤ × S
  hw_acc_set_enable_inputev s enable =
      sysfs_write_int s enable_node (if enable then pos 1 else pos 0)

  unfoldable pub hw_acc_set_delay : S → SensorHwA → ℤ → ℤ × SensorHwA × S
  hw_acc_set_delay s hw delay =
      let (err, s1) = sysfs_write_int s delay_node delay in
      (err, if is_err err then hw else record hw { delay = delay }, s1)

  unfoldable pub hw_acc_set_bandwidth : S → SensorHwA → ℕ → ℤ × SensorHwA × S
  hw_acc_set_bandwidth s hw bw =
      if bw == hw.bw then (pos 0, hw, s) else elim (find_value map_a_bw bw) [
        | none ↦ (einval, hw, s)
        | some r ↦
            let (err, s1) = sysfs_write_int s bandwidth (pos r) in
            (err, if is_err err then hw else record hw { bw = bw }, s1)
      ]

  -- HW_A_OPMODE_NORMAL is 0, and HW_A_RANGE_2G is 0.
  unfoldable pub hw_init_a_settings : S → SensorHwA → SensorHwA × S
  hw_init_a_settings s hw =
      let (_, s1) = hw_acc_set_opmode s 0 in
      let (_, hw1, s2) = hw_acc_set_grange s1 hw 0 in (record hw1 { bw = bw_invalid }, s2)

  -- HW_A_OPMODE_SUSPEND is 2.
  unfoldable pub hw_enable_a : S → Bool → ℤ × S
  hw_enable_a s enable =
      let (err, s1) = hw_acc_set_opmode s (if enable then 0 else 2) in
      let (err', s2) = hw_acc_set_enable_inputev s1 enable in (or_err err err', s2)

-- `ev.code` of an EV_ABS
pub data Axis : Type 0 where
  abs_x : Axis
  abs_y : Axis
  abs_z : Axis
  abs_other : Axis

-- `struct input_event`
pub data InputEvent : Type 0 where
  ev_abs : Axis → ℤ → InputEvent
  ev_syn : InputEvent
  ev_other : InputEvent

abbrev pub take_axis : Vec3 → Axis → ℤ → Vec3
take_axis v abs_x n = record v { x = n }
take_axis v abs_y n = record v { y = n }
take_axis v abs_z n = record v { z = n }
take_axis v abs_other n = v

-- The loop, for what each `read` gives, which is `none` for a read that fails or is short: whether it was
-- ended by EV_SYN, the vector, and what is left to read; `none` while it waits.
unfoldable pub read_loop :
    List (Option InputEvent) → Vec3 → Option (Bool × Vec3 × List (Option InputEvent))
read_loop [] v = none
read_loop (none ∷ evs) v = some (false, v, evs)
read_loop (some ev_syn ∷ evs) v = some (true, v, evs)
read_loop (some (ev_abs axis n) ∷ evs) v = read_loop evs (take_axis v axis n)
read_loop (some ev_other ∷ evs) v = read_loop evs v

-- `>>` of an int
abbrev pub shift_right : ℤ → ℕ → ℤ
shift_right (pos n) k = pos (n / 2 ^ k)
shift_right (negsuc n) k = negsuc (n / 2 ^ k)

-- HW_A_DATA_FULLRANGE with HW_INFO_DATA_BITS_A, which is 10; `place` is `g_place_a`, `none` if negative.
unfoldable pub to_phone : Option ℕ → Vec3 → Vec3
to_phone place v =
    let w : Vec3 = record { x = shift_right v.x 6; y = shift_right v.y 6; z = shift_right v.z 6 } in
    elim place [
      | none ↦ w
      | some p ↦ elim (get_elem? axis_remap_tab_a p) [
        | none ↦ w
        | some m ↦ hw_remap_sensor_data w m
      ]
    ]

unfoldable pub hw_acc_read_xyzdata_input_ev :
    Option ℕ → List (Option InputEvent) → Vec3 → Option (ℤ × Vec3 × List (Option InputEvent))
hw_acc_read_xyzdata_input_ev place evs v = elim (read_loop evs v) [
  | none ↦ none
  | some (false, v', rest) ↦ some (minus_one, v', rest)
  | some (true, v', rest) ↦ some (pos 0, to_phone place v', rest)
]
