-- ===== src/MultiHal/Sensors/Opened.antt =====
-- The devices of `open_sensors` in sensors/multihal.cpp: one for each sub-module that opens, in their order.
use mathlib.Core.List.{append-nil, append_assoc}
use vibe_xperia.Prelude.{
  ℕ, zero, suc, Option, none, some, List, [], ◌∷◌, ◌++◌, ◌≡◌, refl, arith, ◌∙◌, get_elem?,
}
use vibe_xperia.MultiHal.Sensors.{
  Device, Event, SubModule, Context, add_sub_hw_device, open_modules, modules_of, open_sensors,
  lazy_init_modules, Globals, insert_version,
}

pub opened_devices : List SubModule → List Device
opened_devices [] = []
opened_devices (m ∷ ms) = elim m.opened [
  | none ↦ opened_devices ms
  | some d ↦ d ∷ opened_devices ms
]

open_modules-devices :
    (memory : ℕ → Event) (ms : List SubModule) (c : Context) (versions : ℕ → Option ℕ)
    → (open_modules memory ms c versions).0.sub_hw_devices ≡ c.sub_hw_devices ++ opened_devices ms
unfolding open_modules opened_devices add_sub_hw_device
open_modules-devices memory [] c versions = rw append-nil refl
open_modules-devices memory (m ∷ ms) c versions =
    one m.opened (open_modules-devices memory ms c versions) (λ d.
      open_modules-devices memory ms (add_sub_hw_device memory d c)
        (insert_version m.address d.version versions)
      ∙ append_assoc c.sub_hw_devices (d ∷ []) (opened_devices ms))
  where
    one :
        (o : Option Device)
        → (open_modules memory ms c versions).0.sub_hw_devices
          ≡ c.sub_hw_devices ++ opened_devices ms
        → ((d : Device)
            → (open_modules memory ms
                (add_sub_hw_device memory d c)
                (insert_version m.address d.version versions)).0.sub_hw_devices
              ≡ c.sub_hw_devices ++ (d ∷ opened_devices ms))
        → (elim o as (λ x. Context × (ℕ → Option ℕ)) [
          | none ↦ open_modules memory ms c versions
          | some d ↦
              open_modules memory ms
                (add_sub_hw_device memory d c)
                (insert_version m.address d.version versions)
        ]).0.sub_hw_devices
          ≡ c.sub_hw_devices ++ (elim o as (λ x. List Device) [
            | none ↦ opened_devices ms
            | some d ↦ d ∷ opened_devices ms
          ])
    one none a b = a
    one (some d) a b = b d

-- Each sub-module of the list opens.
unfoldable pub AllOpen : List SubModule → Type 0
AllOpen [] = Unit
AllOpen (m ∷ ms) = ((d : Device) × (m.opened ≡ some d)) × AllOpen ms

pub AllOpen-devices :
    (ms : List SubModule) (i : ℕ) (m : SubModule)
    → AllOpen ms
    → get_elem? ms i ≡ some m
    → get_elem? (opened_devices ms) i ≡ m.opened
unfolding AllOpen opened_devices
AllOpen-devices [] i m a e = cc
AllOpen-devices (x ∷ xs) zero m ((d, o), a) e = ground (arith, o, e)
AllOpen-devices (x ∷ xs) (suc i) m ((d, o), a) e = ground (arith, o, AllOpen-devices xs i m a e)

-- `open_sensors` keeps a device for each sub-module that opens, in the order of the sub-modules.
pub open_sensors-devices :
    {P : Type 0} (load : P → Option SubModule) (paths : List P) (memory : ℕ → Event) (g : Globals)
    → (open_sensors load paths memory g).0.sub_hw_devices
      ≡ opened_devices (modules_of (lazy_init_modules load paths g).sub_hw_modules)
unfolding open_sensors
open_sensors-devices load paths memory g =
    open_modules-devices memory (modules_of (lazy_init_modules load paths g).sub_hw_modules)
      (record { sub_hw_devices = []; queues = []; next_read_index = 0 }) (λ x. none)
