-- ===== src/MultiHal/Sensors/Listed.antt =====
-- The list of all sensors of sensors/multihal.cpp: its handles lead back to the sub-modules' sensors.
use mathlib.Core.List.{append-nil, append_assoc}
use vibe_xperia.Prelude.{
  ℕ, zero, suc, Option, none, some, List, [], ◌∷◌, ◌++◌, pos, ◌≡◌, ◌⊎◌, inl, inr, refl, sym, subst,
  ap, arith, ◌∙◌, length, length-append, get_elem?,
}
use vibe_xperia.MultiHal.Handles.{
  FullHandle, Handles, no_handles, assign_global_handle, get_local_handle, get_module_index,
}
use vibe_xperia.MultiHal.Handles.Assigned.{Agree, no_handles-Agree, assign_global_handle-Agree}
use vibe_xperia.MultiHal.Sensors.{
  Sensor, SubModule, SensorConstants, Globals, fix_sensor_flags, add_sensors, add_modules,
  known_version, lazy_init_sensors_list, lazy_init_modules, modules_of,
}

-- Where the sensors of the modules stand, in the order of the list
unfoldable pub sources_of : ℕ → List Sensor → List FullHandle
sources_of index [] = []
sources_of index (s ∷ ss) =
    (record { module_index = index; local_handle = s.handle }) ∷ sources_of index ss

unfoldable pub sources : ℕ → List SubModule → List FullHandle
sources index [] = []
sources index (m ∷ ms) = sources_of index m.sensors ++ sources (suc index) ms

-- The listed sensors so far have the handles from 1 on, and each handle leads to its source.
record Listing (out : List Sensor) (from : List FullHandle) (h : Handles) : Type 0 where
  agree : Agree h
  next : h.next_global_handle ≡ suc (length out)
  as_many : length out ≡ length from
  numbered : (i : ℕ) (s : Sensor) → get_elem? out i ≡ some s → s.handle ≡ pos (suc i)
  leads : (i : ℕ) (f : FullHandle) → get_elem? from i ≡ some f → h.global_to_full (suc i) ≡ some f

-- An entry of a list with one more at the end
get_elem?-concat {ℓ} :
    {A : Type ℓ} (xs : List A) (x : A) (i : ℕ) (y : A)
    → get_elem? (xs ++ x ∷ []) i ≡ some y
    → (get_elem? xs i ≡ some y) ⊎ ((i ≡ length xs) × (y ≡ x))
get_elem?-concat [] x zero y e = inr (refl, cc)
get_elem?-concat [] x (suc i) y e = cc
get_elem?-concat (z ∷ xs) x zero y e = inl e
get_elem?-concat (z ∷ xs) x (suc i) y e = elim (get_elem?-concat xs x i y e) [
  | inl old ↦ inl old
  | inr (at, new) ↦ inr (ap suc at, new)
]

-- `memcpy`, the new handle and `fix_sensor_flags` leave the handle that was given out.
fixed_handle :
    (k : SensorConstants) (version : ℕ) (s : Sensor)
    → (fix_sensor_flags k version s).handle ≡ s.handle
unfolding fix_sensor_flags
fixed_handle k version s = ground arith

module _ (k : SensorConstants) (version : ℕ) (f : FullHandle) (s : Sensor) where
  add_one-Listing :
      {out : List Sensor} {from : List FullHandle} {h : Handles}
      → Listing out from h
      → Listing
          (out ++ fix_sensor_flags k version (record s { handle = pos h.next_global_handle }) ∷ [])
          (from ++ f ∷ [])
          (assign_global_handle f h).1
  unfolding assign_global_handle
  add_one-Listing {out} {from} {h} l =
      let new = fix_sensor_flags k version (record s { handle = pos h.next_global_handle }) in
      let new_handle = fixed_handle k version (record s { handle = pos h.next_global_handle }) in
      record {
        agree = assign_global_handle-Agree f h l.agree;
        next = omega (arith, l.next, length-append {0} out (new ∷ []));
        as_many =
            omega
              (arith, l.as_many, length-append {0} out (new ∷ []), length-append {0} from (f ∷ []));
        numbered = λ i t e. elim (get_elem?-concat out new i t e) [
          | inl old ↦ l.numbered i t old
          | inr (at, same) ↦
              ap (λ (x : Sensor). x.handle) same ∙ new_handle ∙ ap pos (l.next ∙ ap suc (sym at))
        ];
        leads = λ i g e. elim (get_elem?-concat from f i g e) [
          | inl old ↦ ground (arith, l.leads i g old, l.agree.given_out (suc i) g)
          | inr (at, same) ↦ ground (arith, l.next, l.as_many, at, same)
        ];
      }

add_sensors-Listing :
    (k : SensorConstants) (version index : ℕ) (ss : List Sensor) {out : List Sensor}
    {from : List FullHandle} {h : Handles}
    → Listing out from h
    → Listing
        (add_sensors k version index ss out h).0
        (from ++ sources_of index ss)
        (add_sensors k version index ss out h).1
unfolding add_sensors sources_of assign_global_handle
add_sensors-Listing k version index [] {from} l = rw append-nil l
add_sensors-Listing k version index (s ∷ ss) {out} {from} {h} l =
    let f : FullHandle = record { module_index = index; local_handle = s.handle } in
    subst
      (λ (x : List FullHandle).
        Listing (add_sensors k version index (s ∷ ss) out h).0 x
          (add_sensors k version index (s ∷ ss) out h).1)
      (append_assoc from (f ∷ []) (sources_of index ss))
      (add_sensors-Listing k version index ss (add_one-Listing k version f s l))

add_modules-Listing :
    (k : SensorConstants) (versions : Option (ℕ → Option ℕ)) (index : ℕ) (ms : List SubModule)
    {out : List Sensor} {from : List FullHandle} {h : Handles}
    → Listing out from h
    → Listing
        (add_modules k versions index ms out h).0
        (from ++ sources index ms)
        (add_modules k versions index ms out h).1
unfolding add_modules sources
add_modules-Listing k versions index [] {from} l = rw append-nil l
add_modules-Listing k versions index (m ∷ ms) {out} {from} {h} l =
    subst
      (λ (x : List FullHandle).
        Listing (add_modules k versions index (m ∷ ms) out h).0 x
          (add_modules k versions index (m ∷ ms) out h).1)
      (append_assoc from (sources_of index m.sensors) (sources (suc index) ms))
      (add_modules-Listing k versions (suc index) ms
        (add_sensors-Listing k (known_version versions m.address) index m.sensors l))

nothing-Listing : Listing [] [] no_handles
nothing-Listing = record {
  agree = no_handles-Agree;
  next = refl;
  as_many = refl;
  numbered = λ i s e. cc;
  leads = λ i f e. cc;
}

modules_keep_handles :
    {P : Type 0} (load : P → Option SubModule) (paths : List P) (g : Globals)
    → (lazy_init_modules load paths g).handles ≡ g.handles
unfolding lazy_init_modules
modules_keep_handles load paths g = ground arith

listed_once :
    (o : Option (List Sensor)) (old new : Globals)
    → o ≡ none
    → (elim o [ some sensors ↦ old | none ↦ new ]) ≡ new
listed_once none old new e = refl
listed_once (some s) old new e = cc

abbrev pub sensors_of : Option (List Sensor) → List Sensor
sensors_of none = []
sensors_of (some ss) = ss

module _ {out : List Sensor} {from : List FullHandle} {h : Handles} (l : Listing out from h) where
  lead_back :
      (i : ℕ) (s : Sensor) (f : FullHandle)
      → get_elem? out i ≡ some s
      → get_elem? from i ≡ some f
      → (s.handle ≡ pos (suc i))
        × (get_local_handle h s.handle ≡ f.local_handle)
        × (get_module_index h s.handle ≡ pos f.module_index)
  unfolding get_local_handle get_module_index
  lead_back i s f e d = ground (arith, l.numbered i s e, l.leads i f d)

module _ {P : Type 0} (k : SensorConstants) (load : P → Option SubModule) (paths : List P)
    (g : Globals) (listed : g.global_sensors_list ≡ none) (fresh : g.handles ≡ no_handles) where
  abbrev after : Globals
  after = lazy_init_sensors_list k load paths g

  abbrev from_modules : List FullHandle
  from_modules = sources 0 (modules_of (lazy_init_modules load paths g).sub_hw_modules)

  built :
      (sensors : List Sensor) × (h : Handles) × (after.global_sensors_list ≡ some sensors)
      × (after.handles ≡ h)
      × Listing sensors from_modules h
  unfolding lazy_init_sensors_list
  built =
      let g' = lazy_init_modules load paths g in
      let start = modules_keep_handles load paths g ∙ fresh in
      let made = add_modules k g'.sub_hw_versions 0 (modules_of g'.sub_hw_modules) [] g'.handles in
      let l : Listing made.0 from_modules made.1 =
        add_modules-Listing k g'.sub_hw_versions 0 (modules_of g'.sub_hw_modules)
          (subst (λ (h : Handles). Listing [] [] h) (sym start) nothing-Listing) in
      let done : Globals = record g' {
        sub_hw_versions = none;
        handles = made.1;
        global_sensors_list = some made.0;
      } in
      let e = listed_once g.global_sensors_list g done listed in
      (
        made.0,
        made.1,
        ap (λ (t : Globals). t.global_sensors_list) e,
        ap (λ (t : Globals). t.handles) e,
        l,
      )

  pub lazy_init_sensors_list-Agree : Agree after.handles
  lazy_init_sensors_list-Agree = let (sensors, h, e, d, l) = built in subst Agree (sym d) l.agree

  -- After the first listing there are as many sensors as the sub-modules list, in their order. The sensor at
  -- place i has the handle i + 1, and that handle leads back to the index of the sub-module and to the
  -- handle that the sub-module gave the sensor.
  pub lazy_init_sensors_list-leads :
      (i : ℕ) (s : Sensor) (f : FullHandle)
      → get_elem? (sensors_of after.global_sensors_list) i ≡ some s
      → get_elem? from_modules i ≡ some f
      → (length (sensors_of after.global_sensors_list) ≡ length from_modules)
        × (s.handle ≡ pos (suc i))
        × (get_local_handle after.handles s.handle ≡ f.local_handle)
        × (get_module_index after.handles s.handle ≡ pos f.module_index)
  lazy_init_sensors_list-leads i s f es ef =
      let (sensors, h, e, d, l) = built in
      let same : sensors_of after.global_sensors_list ≡ sensors = ap sensors_of e in
      let led = lead_back l i s f (sym (ap (λ (t : List Sensor). get_elem? t i) same) ∙ es) ef in
      (
        ap length same ∙ l.as_many,
        led.0,
        ap (λ (t : Handles). get_local_handle t s.handle) d ∙ led.1,
        ap (λ (t : Handles). get_module_index t s.handle) d ∙ led.2,
      )
