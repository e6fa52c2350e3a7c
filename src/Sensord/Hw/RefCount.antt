-- ===== src/Sensord/Hw/RefCount.antt =====
-- One chip: when its driver is called, and what its count and its `enabled` bit say.
use vibe_xperia.Prelude.{◌+◌, ◌-◌, ◌<◌, ◌≡◌, Bool, true, false, some, arith, ℤ, pos, is_err}
use vibe_xperia.Sensord.Hw.{SensorHw, Driver, ref_up, ref_down}

-- A chip is powered while and only while somebody holds it.
pub record IsPowered (hw : SensorHw) : Type 0 where
  pub in_range : hw.ref < 128
  pub held : 0 < hw.ref → hw.enabled ≡ true
  pub idle : hw.ref ≡ 0 → hw.enabled ≡ false

module _ {Dev : Type 0} (driver : Driver Dev) (on : Bool → Dev → ℤ × Dev) where
  -- With an `enable` callback that reports success `hw_ref_up` adds one holder, and the chip is
  -- powered afterwards.
  pub ref_up-IsPowered :
      (hw : SensorHw) (dev : Dev)
      → driver.enable hw.typ ≡ some on
      → is_err (on true dev).0 ≡ false
      → hw.ref < 127
      → IsPowered hw
      → let r = ref_up driver hw dev in
        IsPowered r.1 × (r.1.ref ≡ hw.ref + 1) × (r.1.enabled ≡ true)
  unfolding ref_up
  ref_up-IsPowered hw dev e ok lim v = ground arith

  -- With an `enable` callback that reports success `hw_ref_down` takes one holder away, and
  -- the chip is switched off with the last one.
  pub ref_down-IsPowered :
      (hw : SensorHw) (dev : Dev)
      → driver.enable hw.typ ≡ some on
      → is_err (on false dev).0 ≡ false
      → IsPowered hw
      → let r = ref_down driver hw dev in IsPowered r.1 × (r.1.ref ≡ hw.ref - 1)
  unfolding ref_down
  ref_down-IsPowered hw dev e ok v = ground arith

-- A chip that is held by others is not touched: `hw_ref_up` and the `hw_ref_down` after it call no
-- driver, report success, and give the chip back as it was.
pub ref_down-ref_up :
    {Dev : Type 0} (driver : Driver Dev) (hw : SensorHw) (dev : Dev)
    → 0 < hw.ref
    → hw.ref < 127
    → let (err, hw1, dev1) = ref_up driver hw dev in
      (err ≡ pos 0) × (dev1 ≡ dev) × (ref_down driver hw1 dev1 ≡ (pos 0, hw, dev))
unfolding ref_up ref_down
ref_down-ref_up driver hw dev p lim = ground arith

-- A first `hw_ref_up` whose driver reports an error leaves the holder counted. The next call then
-- reports success although it calls no driver, and the chip stays switched off.
pub ref_up_retry :
    {Dev : Type 0} (driver : Driver Dev) (on : Bool → Dev → ℤ × Dev) (hw : SensorHw) (dev : Dev)
    → driver.enable hw.typ ≡ some on
    → is_err (on true dev).0 ≡ true
    → hw.ref ≡ 0
    → hw.enabled ≡ false
    → let (err, hw1, dev1) = ref_up driver hw dev in
      let (err2, hw2, dev2) = ref_up driver hw1 dev1 in
      (err ≡ (on true dev).0)
      × (err2 ≡ pos 0)
      × (dev2 ≡ (on true dev).1)
      × (hw2.ref ≡ 2)
      × (hw2.enabled ≡ false)
unfolding ref_up
ref_up_retry driver on hw dev e fails z off = ground arith
