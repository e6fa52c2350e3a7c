-- ===== src/MultiHal/Tests.antt =====
-- Two sub-modules under sensors/multihal.cpp.
use vibe_xperia.Prelude.{
  ℕ, zero, suc, ◌+◌, ◌<◌, ◌≡◌, ◌⊎◌, refl, true, false, List, [], ◌∷◌, ◌++◌, Option, none, some,
  arith, ℤ, pos, length, get_elem?, subst,
}
use vibe_xperia.MultiHal.Queue.{
  SensorEventQueue, contents, span, mark_as_written, get_writable_region, IsValid, peek,
}
use vibe_xperia.MultiHal.Queue.Region.{Region}
use vibe_xperia.MultiHal.Queue.Round.{
  Round, begin, store_event, take_event, here, stores, takes, mark_as_written-order,
}
use vibe_xperia.MultiHal.Handles.{Handles, no_handles, assign_global_handle}
use vibe_xperia.MultiHal.Handles.Assigned.{Agree, no_handles-Agree, assign_global_handle-Agree}
use vibe_xperia.MultiHal.Sensors.{
  Sensor, Event, Device, SubModule, SensorConstants, Context, load_modules, lazy_init_modules,
  lazy_init_sensors_list, open_sensors,
}
use vibe_xperia.MultiHal.Sensors.Listed.{sources, sources_of}
use vibe_xperia.MultiHal.Sensors.Opened.{AllOpen}
use vibe_xperia.MultiHal.Calls.{Call, activated, delayed, activate, set_delay}
use vibe_xperia.MultiHal.Calls.Routed.{after_list, opened, activate_listed}
use vibe_xperia.MultiHal.Poll.{Scan, poll}
use vibe_xperia.MultiHal.Poll.Delivered.{Taken}
use vibe_xperia.MultiHal.Poll.Scanned.{waiting, some_inj}
use vibe_xperia.MultiHal.Poll.Ends.{Entered, Merged, poll-Merged}

-- A queue of four places with two readable events around the array's end
abbrev cells : ℕ → ℕ
cells i = i + 10

abbrev wrapped : SensorEventQueue ℕ
wrapped = record { m_capacity = 4; m_start = 3; m_size = 2; m_data = cells; broadcasts = 0 }

wrapped-IsValid : IsValid wrapped
wrapped-IsValid = record { start_lt = omega arith; size_le = omega arith }

contents-wrapped : contents wrapped ≡ 13 ∷ 10 ∷ []
unfolding contents span
contents-wrapped = refl

wrapped_region : get_writable_region wrapped (pos 36) ≡ (some 1, 2)
unfolding get_writable_region
wrapped_region = refl

region : Region wrapped (pos 36) 1 2
region = record {
  at = refl;
  positive = omega arith;
  within_request = omega arith;
  in_array = omega arith;
  free = omega arith;
}

abbrev one_stored : Round ℕ
one_stored = store_event (begin wrapped 1 2) 77

abbrev one_taken : Round ℕ
one_taken = take_event one_stored 13

mark_as_written-order_example :
    (one_taken.taken ++ contents (mark_as_written (length one_taken.written) one_taken.queue)
      ≡ contents wrapped ++ one_taken.written)
    × IsValid (mark_as_written (length one_taken.written) one_taken.queue)
unfolding peek
mark_as_written-order_example =
    mark_as_written-order wrapped (pos 36) 1 2 one_taken wrapped-IsValid region
      (takes (stores here 77 (omega arith)) 13 refl)

-- Two sub-modules, a legacy one with one sensor and one of version 1.3 with two
abbrev constants : SensorConstants
constants = record {
  api_1_1 = 11;
  api_1_3 = 13;
  api_1_4 = 14;
  proximity = 8;
  tilt_detector = 22;
  wake_up_on_change = 3;
}

abbrev sensor : ℕ → ℕ → Sensor
sensor handle type = record {
  handle = pos handle;
  type = type;
  flags = 0;
  min_delay = pos 10;
  max_delay = pos 0;
}

abbrev legacy : Device
legacy = record { id = 0; version = 0 }

abbrev modern : Device
modern = record { id = 1; version = 13 }

abbrev load_two : ℕ → Option SubModule
load_two zero = some (record { address = 100; sensors = sensor 0 1 ∷ []; opened = some legacy })
load_two (suc n) =
    some (record { address = 200; sensors = sensor 0 8 ∷ sensor 5 2 ∷ []; opened = some modern })

abbrev paths : List ℕ
paths = 0 ∷ 1 ∷ []

abbrev answer_zero : Call → ℤ
answer_zero c = pos 0

abbrev blank : ℕ → Event
blank i = record { is_meta_data = false; sensor = pos 0; meta_sensor = pos 0; payload = 0 }

-- The third listed sensor is the second of the second sub-module.
abbrev third : Sensor
third = record (sensor 5 2) { handle = pos 3 }

activate_listed_example :
    (activate answer_zero
        (after_list answer_zero constants load_two paths blank true).handles
        (opened answer_zero constants load_two paths blank true)
        (pos 3)
        (pos 1)
      ≡ (pos 0, activated modern (pos 5) (pos 1) ∷ []))
    × (set_delay answer_zero
          (after_list answer_zero constants load_two paths blank true).handles
          (opened answer_zero constants load_two paths blank true)
          (pos 3)
          (pos 20)
        ≡ (pos 0, delayed modern (pos 5) (pos 20) ∷ []))
unfolding lazy_init_sensors_list load_modules lazy_init_modules open_sensors sources sources_of
    AllOpen
activate_listed_example =
    activate_listed answer_zero constants load_two paths blank true 2 third
      (record { module_index = 1; local_handle = pos 5 })
      (record { address = 200; sensors = sensor 0 8 ∷ sensor 5 2 ∷ []; opened = some modern })
      modern 5 ((legacy, refl), ((modern, refl), tt)) refl refl refl refl refl (pos 1) (pos 20)

-- One sensor of one sub-module, and its handle
abbrev one_handle : Handles
one_handle = (assign_global_handle (record { module_index = 0; local_handle = pos 5 }) no_handles).1

one_handle-Agree : Agree one_handle
one_handle-Agree =
    assign_global_handle-Agree (record { module_index = 0; local_handle = pos 5 }) no_handles
      no_handles-Agree

abbrev one_device : Context
one_device = record { sub_hw_devices = legacy ∷ []; queues = []; next_read_index = 0 }

abbrev event : Event
event = record { is_meta_data = false; sensor = pos 5; meta_sensor = pos 0; payload = 9 }

abbrev filled : SensorEventQueue Event
filled = record { m_capacity = 4; m_start = 3; m_size = 2; m_data = λ i. event; broadcasts = 0 }

filled-Entered : Entered (filled ∷ []) 0
filled-Entered = record { all_valid = λ i q e. filled-all i q e; in_range = omega arith }
  where
    filled-all :
        (i : ℕ) (q : SensorEventQueue Event) → get_elem? (filled ∷ []) i ≡ some q → IsValid q
    filled-all zero q e =
        subst IsValid (some_inj e) (record { start_lt = omega arith; size_le = omega arith })
    filled-all (suc i) q e = cc

poll-Merged_example :
    (t : Scan) × (log : List Taken) × Merged one_handle 36 (filled ∷ []) log t
    × (((0 < length t.out)
          × (poll one_handle (pos 36) (filled ∷ []) 0 ((filled ∷ []) ∷ []) ≡ some t))
        ⊎ (((i : ℕ) → waiting t.queues i ≡ [])
            × (poll one_handle (pos 36) (filled ∷ []) 0 [] ≡ none)
            × (poll one_handle (pos 36) (filled ∷ []) 0 ((filled ∷ []) ∷ [])
                ≡ poll one_handle (pos 36) (filled ∷ []) t.next_read_index [])))
poll-Merged_example =
    poll-Merged one_handle (pos 36) (filled ∷ []) 0 (filled ∷ []) [] filled-Entered (omega arith)
