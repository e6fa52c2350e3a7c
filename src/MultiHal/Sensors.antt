-- ===== src/MultiHal/Sensors.antt =====
-- sensors/multihal.cpp: the sub-modules, the list of all sensors with their global handles, and the opening of
-- the sub-modules' devices.
pub mod Listed
pub mod Opened
use vibe_xperia.Prelude.{
  ℕ, suc, ◌+◌, ◌&&◌, ◌||◌, Bool, true, false, Option, none, some, List, [], ◌∷◌, ◌++◌, ℤ, pos,
  negsuc, ltb, ◌==◌, if◌then◌else◌,
}
use vibe_xperia.MultiHal.Handles.{FullHandle, Handles, no_handles, assign_global_handle}
use vibe_xperia.MultiHal.Queue.{SensorEventQueue, new_queue}

-- `sensor_t`, the fields that the program reads or writes; the delays are in microseconds
pub record Sensor : Type 0 where
  pub handle : ℤ
  pub type : ℕ
  pub flags : ℕ
  pub min_delay : ℤ
  pub max_delay : ℤ

-- `sensors_event_t`: whether its type is SENSOR_TYPE_META_DATA, its sensor, the sensor inside a meta-data
-- event, and the rest
pub record Event : Type 0 where
  pub is_meta_data : Bool
  pub sensor : ℤ
  pub meta_sensor : ℤ
  pub payload : ℕ

-- An opened sub-module device: which one it is and `common.version`
pub record Device : Type 0 where
  pub id : ℕ
  pub version : ℕ

-- `hw_module_t` of a sub-module: its address, its sensor list and what its `open` gives, `none` for an
-- error
pub record SubModule : Type 0 where
  pub address : ℕ
  pub sensors : List Sensor
  pub opened : Option Device

-- Constants of hardware/sensors.h
pub record SensorConstants : Type 0 where
  pub api_1_1 : ℕ
  pub api_1_3 : ℕ
  pub api_1_4 : ℕ
  pub proximity : ℕ
  pub tilt_detector : ℕ
  pub wake_up_on_change : ℕ

-- The program's globals
pub record Globals : Type 0 where
  pub sub_hw_modules : Option (List SubModule)
  pub sub_hw_versions : Option (ℕ → Option ℕ)
  pub handles : Handles
  pub global_sensors_list : Option (List Sensor)

-- The globals as the program starts
abbrev pub no_globals : Globals
no_globals = record {
  sub_hw_modules = none;
  sub_hw_versions = none;
  handles = no_handles;
  global_sensors_list = none;
}

-- The lines of the first configuration file that opens, `none` for one that does not
unfoldable pub get_so_paths {ℓ} : {P : Type ℓ} → Option (List P) → Option (List P) → List P
get_so_paths (some lines) deprecated = lines
get_so_paths none (some lines) = lines
get_so_paths none none = []

-- `load` is `dlopen` and `dlsym` of a path; a library that fails is left out.
unfoldable pub load_modules {ℓ} : {P : Type ℓ} → (P → Option SubModule) → List P → List SubModule
load_modules load [] = []
load_modules load (p ∷ ps) =
    let rest = load_modules load ps in elim (load p) [ none ↦ rest | some m ↦ m ∷ rest ]

unfoldable pub lazy_init_modules {ℓ} :
    {P : Type ℓ} → (P → Option SubModule) → List P → Globals → Globals
unfolding load_modules
lazy_init_modules load paths g = elim g.sub_hw_modules [
  | some modules ↦ g
  | none ↦ record g { sub_hw_modules = some (load_modules load paths) }
]

unfoldable pub fix_sensor_flags : SensorConstants → ℕ → Sensor → Sensor
fix_sensor_flags k version s =
    if ltb version k.api_1_3 && (s.type == k.proximity || s.type == k.tilt_detector)
    then record s { flags = k.wake_up_on_change }
    else s

-- `version` of the loop: 0 where the sub-module's is not known
unfoldable pub known_version : Option (ℕ → Option ℕ) → ℕ → ℕ
known_version none address = 0
known_version (some versions) address = elim (versions address) [ none ↦ 0 | some v ↦ v ]

-- The loop over one module's sensors
unfoldable pub add_sensors :
    SensorConstants → ℕ → ℕ → List Sensor → List Sensor → Handles → List Sensor × Handles
unfolding assign_global_handle fix_sensor_flags
add_sensors k version module_index [] out h = (out, h)
add_sensors k version module_index (s ∷ ss) out h =
    let (global, h') =
      assign_global_handle (record { module_index = module_index; local_handle = s.handle }) h in
    add_sensors k version module_index ss
      (out ++ fix_sensor_flags k version (record s { handle = pos global }) ∷ []) h'

-- The loop over the modules
unfoldable pub add_modules :
    SensorConstants
    → Option (ℕ → Option ℕ)
    → ℕ
    → List SubModule
    → List Sensor
    → Handles
    → List Sensor × Handles
unfolding add_sensors known_version
add_modules k versions index [] out h = (out, h)
add_modules k versions index (m ∷ ms) out h =
    let (out', h') = add_sensors k (known_version versions m.address) index m.sensors out h in
    add_modules k versions (suc index) ms out' h'

abbrev pub modules_of : Option (List SubModule) → List SubModule
modules_of none = []
modules_of (some ms) = ms

unfoldable pub lazy_init_sensors_list {ℓ} :
    {P : Type ℓ} → SensorConstants → (P → Option SubModule) → List P → Globals → Globals
unfolding lazy_init_modules add_modules
lazy_init_sensors_list k load paths g = elim g.global_sensors_list [
  | some sensors ↦ g
  | none ↦
      let g' = lazy_init_modules load paths g in
      let (sensors, handles) =
        add_modules k g'.sub_hw_versions 0 (modules_of g'.sub_hw_modules) [] g'.handles in
      record g' { sub_hw_versions = none; handles = handles; global_sensors_list = some sensors }
]

abbrev pub sensor_event_queue_capacity : ℕ
sensor_event_queue_capacity = 36

-- `sensors_poll_context_t`: the devices, a queue for each and where the next read starts
pub record Context : Type 0 where
  pub sub_hw_devices : List Device
  pub queues : List (SensorEventQueue Event)
  pub next_read_index : ℕ

-- `memory` is what the new queue's array holds.
unfoldable pub add_sub_hw_device : (ℕ → Event) → Device → Context → Context
unfolding new_queue
add_sub_hw_device memory d c = record c {
  sub_hw_devices = c.sub_hw_devices ++ d ∷ [];
  queues = c.queues ++ new_queue sensor_event_queue_capacity memory ∷ [];
}

-- `sub_hw_versions->insert`: a key that is there keeps its value.
abbrev pub insert_version : ℕ → ℕ → (ℕ → Option ℕ) → ℕ → Option ℕ
insert_version address v versions a = elim (versions a) [
  | some w ↦ some w
  | none ↦ if a == address then some v else none
]

-- The loop of `open_sensors`
unfoldable pub open_modules :
    (ℕ → Event) → List SubModule → Context → (ℕ → Option ℕ) → Context × (ℕ → Option ℕ)
unfolding add_sub_hw_device
open_modules memory [] c versions = (c, versions)
open_modules memory (m ∷ ms) c versions =
    let rest = open_modules memory ms in
    elim m.opened [
      | none ↦ rest c versions
      | some d ↦ rest (add_sub_hw_device memory d c) (insert_version m.address d.version versions)
    ]

unfoldable pub open_sensors {ℓ} :
    {P : Type ℓ} → (P → Option SubModule) → List P → (ℕ → Event) → Globals → Context × Globals
unfolding lazy_init_modules open_modules
open_sensors load paths memory g =
    let g' = lazy_init_modules load paths g in
    let (c, versions) =
      open_modules memory (modules_of g'.sub_hw_modules)
        (record { sub_hw_devices = []; queues = []; next_read_index = 0 }) (λ a. none) in
    (c, record g' { sub_hw_versions = some versions })
