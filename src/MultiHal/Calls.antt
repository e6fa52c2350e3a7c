-- ===== src/MultiHal/Calls.antt =====
-- sensors/multihal.cpp: the calls that `sensors_poll_context_t` passes on to the sub-modules' devices.
pub mod Routed
pub mod Batch
use vibe_xperia.Prelude.{
  ℕ, suc, ◌+◌, ◌*◌, ◌&&◌, ◌||◌, not, Bool, true, false, Option, none, some, List, [], ◌∷◌, ◌++◌, ℤ,
  pos, negsuc, pos_part, neg_part, einval, minus_one, ltb_ℤ, ltb, leb, ◌==◌, if◌then◌else◌,
  get_elem?,
}
use vibe_xperia.MultiHal.Handles.{Handles, get_local_handle, get_module_index}
use vibe_xperia.MultiHal.Sensors.{Device, Event, Sensor, SensorConstants, Context}

abbrev pub eq_ℤ : ℤ → ℤ → Bool
eq_ℤ a b = pos_part a == pos_part b && neg_part a == neg_part b

-- A call of a sub-module's device
pub data Call : Type 0 where
  activated : Device → ℤ → ℤ → Call
  delayed : Device → ℤ → ℤ → Call
  batched : Device → ℤ → ℤ → ℤ → ℤ → Call
  flushed : Device → ℤ → Call
  injected : Device → Event → Call
  closed : Device → Call

-- The entry of `sub_hw_devices` for an index, `none` for NULL
unfoldable pub device_at : List Device → ℤ → Option Device
device_at devices (negsuc i) = none
device_at devices (pos i) = get_elem? devices i

unfoldable pub get_device_by_handle : Handles → Context → ℤ → Option Device
unfolding device_at get_module_index
get_device_by_handle h c handle = device_at c.sub_hw_devices (get_module_index h handle)

unfoldable pub get_device_version_by_handle : Handles → Context → ℤ → ℤ
unfolding get_device_by_handle
get_device_version_by_handle h c handle = elim (get_device_by_handle h c handle) [
  | none ↦ minus_one
  | some d ↦ pos d.version
]

unfoldable pub hal_is_api_level_compliant : Handles → Context → ℤ → ℕ → Bool
unfolding get_device_version_by_handle
hal_is_api_level_compliant h c handle level =
    let version = get_device_version_by_handle h c handle in
    not (eq_ℤ version minus_one) && not (ltb_ℤ version (pos level))

-- The loop of `batch` over the listed sensors: the first with the handle, its delays in nanoseconds
abbrev micro_to_nano : ℤ → ℤ
micro_to_nano (pos n) = pos (n * 1000)
micro_to_nano (negsuc n) = negsuc (n * 1000 + 999)

unfoldable pub find_delays : ℤ → List Sensor → ℤ × ℤ
find_delays handle [] = (pos 0, pos 0)
find_delays handle (s ∷ ss) =
    if eq_ℤ s.handle handle
    then (micro_to_nano s.min_delay, micro_to_nano s.max_delay)
    else find_delays handle ss

unfoldable pub clamp_period : ℤ → ℤ → ℤ → ℤ
clamp_period min_delay max_delay period =
    if ltb_ℤ (pos 0) min_delay && ltb_ℤ period min_delay
    then min_delay
    else if ltb_ℤ (pos 0) max_delay && ltb_ℤ max_delay period
    then max_delay
    else period

-- `answer` is what the sub-modules' devices return.
module _ (answer : Call → ℤ) where
  -- The return value of a call that is passed on, and the calls made
  abbrev pass_on : Call → ℤ × List Call
  pass_on call = (answer call, call ∷ [])

  -- The test of `local_handle >= 0 && device`, and the call if it holds
  abbrev pub to_device : ℤ → Option Device → (Device → ℤ × List Call) → ℤ × List Call
  to_device (negsuc l) d call = (einval, [])
  to_device (pos l) none call = (einval, [])
  to_device (pos l) (some d) call = call d

  module _ (h : Handles) (c : Context) where
    unfoldable pub activate : ℤ → ℤ → ℤ × List Call
    unfolding get_local_handle get_device_by_handle
    activate handle enabled =
        let local = get_local_handle h handle in
        to_device local (get_device_by_handle h c handle) (λ d. pass_on (activated d local enabled))

    unfoldable pub set_delay : ℤ → ℤ → ℤ × List Call
    unfolding get_local_handle get_device_by_handle
    set_delay handle ns =
        let local = get_local_handle h handle in
        to_device local (get_device_by_handle h c handle) (λ d. pass_on (delayed d local ns))

    module _ (k : SensorConstants) where
      -- `sensors` is `global_sensors_list`.
      unfoldable pub batch : List Sensor → ℤ → ℤ → ℤ → ℤ → ℤ × List Call
      unfolding get_local_handle get_device_by_handle hal_is_api_level_compliant find_delays
          clamp_period
      batch sensors handle flags period timeout =
          let local = get_local_handle h handle in
          let (min_delay, max_delay) = find_delays handle sensors in
          to_device local (get_device_by_handle h c handle) λ d.
            if hal_is_api_level_compliant h c handle k.api_1_1
            then pass_on (batched d local flags period timeout)
            else if ltb_ℤ period (pos 0) || ltb_ℤ timeout (pos 0)
            then (einval, [])
            else pass_on (delayed d local (clamp_period min_delay max_delay period))

      unfoldable pub flush : ℤ → ℤ × List Call
      unfolding get_local_handle get_device_by_handle hal_is_api_level_compliant
      flush handle =
          let local = get_local_handle h handle in
          to_device local (get_device_by_handle h c handle) λ d.
            if hal_is_api_level_compliant h c handle k.api_1_1
            then pass_on (flushed d local)
            else (einval, [])

      -- The event is passed on as it is, with its global handle.
      unfoldable pub inject_sensor_data : Event → ℤ × List Call
      unfolding get_local_handle get_device_by_handle hal_is_api_level_compliant
      inject_sensor_data e =
          if hal_is_api_level_compliant h c e.sensor k.api_1_4
          then to_device (get_local_handle h e.sensor) (get_device_by_handle h c e.sensor)
              (λ d. pass_on (injected d e))
          else (einval, [])

close_all : List Device → List Call
close_all [] = []
close_all (d ∷ ds) = closed d ∷ close_all ds

unfoldable pub close : Context → ℤ × List Call
unfolding close_all
close c = (pos 0, close_all c.sub_hw_devices)
