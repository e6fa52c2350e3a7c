-- ===== src/Sensord/Hw.antt =====
-- sensors/daemon/src/hw/hw_cntl.c: the reference counts of the sensor chips. The callbacks of a chip
-- are a `Driver` over the state `Dev` of the devices; a bit field is its bit pattern.
pub mod DriverA
pub mod RefCount
pub mod Table
pub mod Lookup
pub mod Remap
use vibe_xperia.Prelude.{
  ℕ, suc, ◌+◌, ◌-◌, ◌%◌, Bool, true, false, List, [], ◌∷◌, Option, none, some, ltb, ◌==◌, ◌&&◌,
  if◌then◌else◌, ℤ, pos, negsuc, is_err, enodev, minus_one, set,
}

-- `struct sensor_hw`, less what only the drivers read.
pub record SensorHw : Type 0 where
  pub typ : ℕ
  pub available : Bool
  pub ref : ℕ  -- int32_t ref:8
  pub enabled : Bool
  pub drdy : Bool
  pub fd_poll : ℤ
  pub ts_last_update : ℕ

-- The callbacks of the chip of each type; an optional one may be NULL.
pub record Driver (Dev : Type 0) : Type 0 where
  pub init : ℕ → Dev → ℤ × Dev
  pub enable : ℕ → Option (Bool → Dev → ℤ × Dev)
  pub restore_cfg : ℕ → Option (Dev → ℤ × Dev)

-- `g_list_hw` and the devices.
pub record HwList (Dev : Type 0) : Type 0 where
  pub list : List SensorHw
  pub dev : Dev

-- `ref > 0` of a signed 8-bit field
abbrev pub is_pos8 : ℕ → Bool
is_pos8 r = ltb 0 r && ltb r 128

-- The position and the chip.
unfoldable pub find_hw : List SensorHw → ℕ → ℕ → Option (ℕ × SensorHw)
find_hw [] id i = none
find_hw (hw ∷ rest) id i =
    let next = find_hw rest id (suc i) in
    if hw.typ == id && hw.available then some (i, hw) else next

unfoldable pub hw_get_hw_by_id : List SensorHw → ℕ → Option (ℕ × SensorHw)
hw_get_hw_by_id list id = find_hw list id 0

module _ {Dev : Type 0} (driver : Driver Dev) where
  abbrev pub call_enable : Option (Bool → Dev → ℤ × Dev) → Bool → Dev → Option (ℤ × Dev)
  call_enable none on dev = none
  call_enable (some f) on dev = some (f on dev)

  abbrev pub call_restore : Option (Dev → ℤ × Dev) → Dev → ℤ × Dev
  call_restore none dev = (pos 0, dev)
  call_restore (some f) dev = f dev

  -- `if (1 == hw->ref)` of `hw_ref_up`, after the increment
  unfoldable pub power_up : SensorHw → Dev → ℤ × SensorHw × Dev
  power_up hw dev = elim (call_enable (driver.enable hw.typ) true dev) [
    | none ↦ (pos 0, hw, dev)
    | some (err, dev1) ↦
        if is_err err
        then (err, hw, dev1)
        else (let (err2, dev2) = call_restore (driver.restore_cfg hw.typ) dev1 in
            (err2, record hw { enabled = true }, dev2))
  ]

  unfoldable pub ref_up : SensorHw → Dev → ℤ × SensorHw × Dev
  unfolding power_up
  ref_up hw dev =
      let up = record hw { ref = (hw.ref + 1) % 256 } in
      if up.ref == 1 then power_up up dev else (pos 0, up, dev)

  -- `if (1 == hw->ref)` of `hw_ref_down`, before the decrement
  unfoldable pub power_down : SensorHw → Dev → ℤ × SensorHw × Dev
  power_down hw dev = elim (call_enable (driver.enable hw.typ) false dev) [
    | none ↦ (pos 0, hw, dev)
    | some (err, dev1) ↦
        if is_err err then (err, hw, dev1) else (err, record hw { enabled = false }, dev1)
  ]

  abbrev drop_ref : SensorHw → SensorHw
  drop_ref hw = if is_pos8 hw.ref then record hw { ref = hw.ref - 1 } else hw

  unfoldable pub ref_down : SensorHw → Dev → ℤ × SensorHw × Dev
  unfolding power_down
  ref_down hw dev =
      let (err, hw1, dev1) = if hw.ref == 1 then power_down hw dev else (pos 0, hw, dev) in
      (err, drop_ref hw1, dev1)

  unfoldable pub put : HwList Dev → ℕ → ℤ × SensorHw × Dev → ℤ × HwList Dev
  put s i (err, hw, dev) = (err, record { list = set s.list i hw; dev = dev })

  unfoldable pub hw_ref_up : HwList Dev → ℕ → ℤ × HwList Dev
  unfolding put
  hw_ref_up s id = elim (hw_get_hw_by_id s.list id) [
    | none ↦ (enodev, s)
    | some (i, hw) ↦ put s i (ref_up hw s.dev)
  ]

  unfoldable pub hw_ref_down : HwList Dev → ℕ → ℤ × HwList Dev
  unfolding put
  hw_ref_down s id = elim (hw_get_hw_by_id s.list id) [
    | none ↦ (enodev, s)
    | some (i, hw) ↦ put s i (ref_down hw s.dev)
  ]

  -- The body of the loop of `hw_cntl_init`; `enable` is called with no test for NULL, and a NULL
  -- one is left out of the model.
  unfoldable pub init_hw : SensorHw → Dev → SensorHw × Dev
  init_hw hw dev =
      let (err, dev1) = driver.init hw.typ dev in
      let reset = record hw {
        available = false;
        ref = 0;
        drdy = false;
        fd_poll = minus_one;
        ts_last_update = 0;
      } in
      if is_err err then (reset, dev1) else elim (call_enable (driver.enable hw.typ) false dev1) [
        | none ↦ (record reset { available = true }, dev1)
        | some (_, dev2) ↦ (record reset { available = true }, dev2)
      ]

  unfoldable pub init_list : List SensorHw → Dev → HwList Dev
  unfolding init_hw
  init_list [] dev = record { list = []; dev = dev }
  init_list (hw ∷ rest) dev =
      let (hw1, dev1) = init_hw hw dev in
      let tail = init_list rest dev1 in record { list = hw1 ∷ tail.list; dev = tail.dev }

  unfoldable pub hw_cntl_init : HwList Dev → ℤ × HwList Dev
  hw_cntl_init s = (pos 0, init_list s.list s.dev)
