-- ===== src/MultiHal/Calls/Routed.antt =====
-- Calls of sensors/multihal.cpp reach the sub-module that listed the sensor.
use vibe_xperia.Prelude.{
  ℕ, Bool, true, false, Option, some, List, [], ◌∷◌, ℤ, pos, ◌≡◌, refl, ◌∙◌, get_elem?,
}
use vibe_xperia.MultiHal.Handles.{FullHandle, get_local_handle, get_module_index}
use vibe_xperia.MultiHal.Sensors.{
  Sensor, Event, Device, SubModule, SensorConstants, Globals, no_globals, Context, load_modules,
  lazy_init_modules, lazy_init_sensors_list, open_sensors,
}
use vibe_xperia.MultiHal.Sensors.Listed.{sources, sensors_of, lazy_init_sensors_list-leads}
use vibe_xperia.MultiHal.Sensors.Opened.{
  AllOpen, AllOpen-devices, opened_devices, open_sensors-devices,
}
use vibe_xperia.MultiHal.Calls.{
  Call, activated, delayed, device_at, get_device_by_handle, activate, set_delay,
}

module _ {P : Type 0} (answer : Call → ℤ) (k : SensorConstants) (load : P → Option SubModule)
    (paths : List P) (memory : ℕ → Event) where
  -- The globals before the sensors are listed: `open` has come first, which is the rule, or has not.
  abbrev pub before_list : Bool → Globals
  before_list true = (open_sensors load paths memory no_globals).1
  before_list false = no_globals

  abbrev pub after_list : Bool → Globals
  after_list open_first = lazy_init_sensors_list k load paths (before_list open_first)

  -- The device that was opened before the listing, or the one that is opened after it
  abbrev pub opened : Bool → Context
  opened true = (open_sensors load paths memory no_globals).0
  opened false = (open_sensors load paths memory (after_list false)).0

  abbrev pub modules : List SubModule
  modules = load_modules load paths

  opened-devices : (open_first : Bool) → (opened open_first).sub_hw_devices ≡ opened_devices modules
  unfolding lazy_init_sensors_list lazy_init_modules
  opened-devices true = open_sensors-devices load paths memory no_globals
  opened-devices false = open_sensors-devices load paths memory (after_list false)

  module _ (open_first : Bool) (i : ℕ) (s : Sensor) (f : FullHandle) (m : SubModule) (d : Device)
      (l : ℕ) (all : AllOpen modules)
      (at : get_elem? (sensors_of (after_list open_first).global_sensors_list) i ≡ some s)
      (from : get_elem? (sources 0 modules) i ≡ some f)
      (of_module : get_elem? modules f.module_index ≡ some m) (opens : m.opened ≡ some d)
      (local : f.local_handle ≡ pos l) where
    leads :
        (get_local_handle (after_list open_first).handles s.handle ≡ pos l)
        × (get_module_index (after_list open_first).handles s.handle ≡ pos f.module_index)
    unfolding lazy_init_modules open_sensors
    leads = by_order open_first at
      where
        by_order :
            (b : Bool)
            → get_elem? (sensors_of (after_list b).global_sensors_list) i ≡ some s
            → (get_local_handle (after_list b).handles s.handle ≡ pos l)
              × (get_module_index (after_list b).handles s.handle ≡ pos f.module_index)
        by_order true e =
            let led =
              lazy_init_sensors_list-leads k load paths (before_list true) refl refl i s f e from in
            (led.2 ∙ local, led.3)
        by_order false e =
            let led = lazy_init_sensors_list-leads k load paths no_globals refl refl i s f e from in
            (led.2 ∙ local, led.3)

    found :
        get_device_by_handle (after_list open_first).handles (opened open_first) s.handle ≡ some d
    unfolding get_device_by_handle device_at
    found =
        rw (leads.1, opened-devices open_first)
          (AllOpen-devices modules f.module_index m all of_module ∙ opens)

    -- Where every sub-module opens, and from the start of the program the device is opened once and the sensors
    -- are listed, in either order: a call on the handle of any listed sensor whose own handle is not
    -- negative makes exactly one call, on the device of the sub-module that listed the sensor and with
    -- that sub-module's own handle, and returns the device's answer.
    pub activate_listed :
        (enabled ns : ℤ)
        → (activate answer (after_list open_first).handles (opened open_first) s.handle enabled
            ≡ (answer (activated d (pos l) enabled), activated d (pos l) enabled ∷ []))
          × (set_delay answer (after_list open_first).handles (opened open_first) s.handle ns
              ≡ (answer (delayed d (pos l) ns), delayed d (pos l) ns ∷ []))
    unfolding activate set_delay
    activate_listed enabled ns = (rw (leads.0, found) refl, rw (leads.0, found) refl)
