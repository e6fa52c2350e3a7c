-- ===== src/MultiHal/Poll/Remapped.antt =====
-- `copy_event_remap_handle` of sensors/multihal.cpp and the test that drops an event.
use vibe_xperia.Prelude.{
  ℕ, true, false, none, [], ◌∷◌, ℤ, pos, minus_one, ◌≡◌, ◌⊎◌, inl, inr, Option-cases, arith,
}
use vibe_xperia.MultiHal.Handles.{
  FullHandle, Handles, get_global_handle, get_local_handle, get_module_index,
}
use vibe_xperia.MultiHal.Handles.Assigned.{Agree}
use vibe_xperia.MultiHal.Sensors.{Event}
use vibe_xperia.MultiHal.Poll.{copy_event_remap_handle, keep_event}

module _ (h : Handles) (e : Event) (i : ℕ) where
  abbrev pub source : ℤ → FullHandle
  source local = record { module_index = i; local_handle = local }

  -- Where the handle maps agree, an event of sub-module i that is not meta-data is dropped when its local
  -- handle has no global one, and else is handed out with a global handle that leads back to sub-module i
  -- and to the local handle, and with all else as it was.
  pub keep_event-copy_event :
      Agree h
      → e.is_meta_data ≡ false
      → ((h.full_to_global (source e.sensor) ≡ none)
          × (keep_event (copy_event_remap_handle h e i) ≡ []))
        ⊎ ((g : ℕ) × (keep_event (copy_event_remap_handle h e i) ≡ record e { sensor = pos g } ∷ [])
            × (get_module_index h (pos g) ≡ pos i)
            × (get_local_handle h (pos g) ≡ e.sensor))
  unfolding copy_event_remap_handle get_global_handle get_local_handle get_module_index
  keep_event-copy_event a n = elim (Option-cases (h.full_to_global (source e.sensor))) [
    | inl unknown ↦ inl (unknown, ground (arith, n, unknown))
    | inr (g, known) ↦
        let back = a.back (source e.sensor) g known in
        inr (g, ground (arith, n, known), ground (arith, back), ground (arith, back))
  ]

  -- A meta-data event with an unknown local handle is handed out, with -1 for the sensor inside it.
  pub keep_event_meta :
      e.is_meta_data ≡ true
      → e.sensor ≡ pos 0
      → h.full_to_global (source e.meta_sensor) ≡ none
      → keep_event (copy_event_remap_handle h e i) ≡ record e { meta_sensor = minus_one } ∷ []
  unfolding copy_event_remap_handle get_global_handle
  keep_event_meta m z n = ground (arith, m, z, n)
