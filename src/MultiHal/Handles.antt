-- ===== src/MultiHal/Handles.antt =====
-- sensors/multihal.cpp: the global handles and the maps between them and the sub-modules' own handles.
pub mod Assigned
use vibe_xperia.Prelude.{
  ℕ, suc, ◌+◌, ◌&&◌, ◌||◌, not, Bool, true, false, Option, none, some, ℤ, pos, negsuc, minus_one,
  ltb, ltb_ℤ, ◌==◌, if◌then◌else◌,
}

-- `FullHandle`
pub record FullHandle : Type 0 where
  pub module_index : ℕ
  pub local_handle : ℤ

-- `operator<`
unfoldable pub full_lt : FullHandle → FullHandle → Bool
full_lt a b =
    if ltb a.module_index b.module_index
    then true
    else if ltb b.module_index a.module_index
    then false
    else ltb_ℤ a.local_handle b.local_handle

-- Keys of a `std::map` are the same when neither is below the other.
unfoldable pub same_key : FullHandle → FullHandle → Bool
unfolding full_lt
same_key a b = not (full_lt a b) && not (full_lt b a)

-- `global_to_full`, `full_to_global` and `next_global_handle`
pub record Handles : Type 0 where
  pub global_to_full : ℕ → Option FullHandle
  pub full_to_global : FullHandle → Option ℕ
  pub next_global_handle : ℕ

-- The globals as the program starts
abbrev pub no_handles : Handles
no_handles = record {
  global_to_full = λ g. none;
  full_to_global = λ f. none;
  next_global_handle = 1;
}

unfoldable pub assign_global_handle : FullHandle → Handles → ℕ × Handles
unfolding same_key
assign_global_handle full h =
    let global = h.next_global_handle in
    (
      global,
      record {
        global_to_full = λ g. if g == global then some full else h.global_to_full g;
        full_to_global = λ f. if same_key full f then some global else h.full_to_global f;
        next_global_handle = global + 1;
      },
    )

-- A lookup in `global_to_full` by any `int`; the map holds positive handles only.
abbrev pub find_full : Handles → ℤ → Option FullHandle
find_full h (pos g) = h.global_to_full g
find_full h (negsuc g) = none

unfoldable pub get_local_handle : Handles → ℤ → ℤ
get_local_handle h g = elim (find_full h g) [ none ↦ minus_one | some f ↦ f.local_handle ]

unfoldable pub get_module_index : Handles → ℤ → ℤ
get_module_index h g = elim (find_full h g) [ none ↦ minus_one | some f ↦ pos f.module_index ]

unfoldable pub get_global_handle : Handles → FullHandle → ℤ
get_global_handle h f = elim (h.full_to_global f) [ none ↦ minus_one | some g ↦ pos g ]
