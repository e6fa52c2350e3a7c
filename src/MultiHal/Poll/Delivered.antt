-- ===== src/MultiHal/Poll/Delivered.antt =====
-- What `poll` of sensors/multihal.cpp hands out for the events that it takes.
use mathlib.Core.List.{append_assoc}
use vibe_xperia.Prelude.{
  ℕ, Option, none, some, List, [], ◌∷◌, ◌++◌, ◌≡◌, refl, sym, ap, arith, ◌∙◌, ℤ, pos, minus_one,
  Bool, true, false, if◌then◌else◌, ◌==◌,
}
use vibe_xperia.MultiHal.Handles.{Handles, get_global_handle}
use vibe_xperia.MultiHal.Calls.{eq_ℤ}
use vibe_xperia.MultiHal.Sensors.{Event}
use vibe_xperia.MultiHal.Poll.{copy_event_remap_handle, keep_event}

-- An event that was taken, with the index of its queue
abbrev pub Taken : Type 0
Taken = ℕ × Event

-- The taken events of one queue
unfoldable pub taken_from : ℕ → List Taken → List Event
taken_from i [] = []
taken_from i ((j, e) ∷ log) = if j == i then e ∷ taken_from i log else taken_from i log

-- The global handle of a sub-module's sensor by the map, -1 where it has none
abbrev handle_or_minus_one : Option ℕ → ℤ
handle_or_minus_one none = minus_one
handle_or_minus_one (some g) = pos g

abbrev with_handle : Event → Option ℕ → List Event
with_handle e none = []
with_handle e (some g) = record e { sensor = pos g } ∷ []

abbrev meta_with_handle : Event → Option ℕ → Bool → List Event
meta_with_handle e g true = []
meta_with_handle e g false = record e { meta_sensor = handle_or_minus_one g } ∷ []

-- What becomes of an event of sub-module i, described by the map from local to global handles: the sensor of
-- an event that is not meta-data becomes its global handle, and the event is dropped where there is
-- none; the sensor inside a meta-data event becomes its global handle or -1, and the event is dropped
-- only where its own sensor is -1.
unfoldable pub delivered_event : Handles → ℕ → Event → List Event
delivered_event h i e =
    let global =
      λ (local : ℤ). h.full_to_global (record { module_index = i; local_handle = local }) in
    if e.is_meta_data
    then meta_with_handle e (global e.meta_sensor) (eq_ℤ e.sensor minus_one)
    else with_handle e (global e.sensor)

-- The code does what is described.
pub keep_event-delivered :
    (h : Handles) (e : Event) (i : ℕ)
    → keep_event (copy_event_remap_handle h e i) ≡ delivered_event h i e
unfolding copy_event_remap_handle get_global_handle delivered_event
keep_event-delivered h e i = ground arith

-- The events handed out for those taken, by that description
unfoldable pub handed_out : Handles → List Taken → List Event
handed_out h [] = []
handed_out h ((j, e) ∷ log) = delivered_event h j e ++ handed_out h log

pub taken_from-append :
    (i : ℕ) (a b : List Taken) → taken_from i (a ++ b) ≡ taken_from i a ++ taken_from i b
unfolding taken_from
taken_from-append i [] b = refl
taken_from-append i ((j, e) ∷ log) b = ground (arith, taken_from-append i log b)

pub handed_out-append :
    (h : Handles) (a b : List Taken) → handed_out h (a ++ b) ≡ handed_out h a ++ handed_out h b
unfolding handed_out
handed_out-append h [] b = refl
handed_out-append h ((j, e) ∷ log) b =
    ap (λ (t : List Event). delivered_event h j e ++ t) (handed_out-append h log b)
    ∙ sym (append_assoc (delivered_event h j e) (handed_out h log) (handed_out h b))
