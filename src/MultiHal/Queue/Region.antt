-- ===== src/MultiHal/Queue/Region.antt =====
-- `getWritableRegion`, `peek` and `dequeue` of sensors/SensorEventQueue.cpp against the readable events.
use native.Mathlib.Nat.{mod-lt, mod-eq_of_lt}
use vibe_xperia.Prelude.{
  ℕ, suc, ◌+◌, ◌-◌, ◌≤◌, ◌<◌, none, some, [], ◌∷◌, ◌≡◌, ◌⊎◌, refl, arith, ℤ, pos_part,
}
use vibe_xperia.MultiHal.Queue.{
  SensorEventQueue, span, contents, IsValid, peek, dequeue, get_writable_region, first_writable,
  cut_at_end, cut_at_start,
}
use vibe_xperia.MultiHal.Queue.Wrap.{wrap, span_wrap}

-- What a caller may do with a region
pub record Region {A : Type 0} (q : SensorEventQueue A) (requested : ℤ) (first len : ℕ)
    : Type 0 where
  pub at : first_writable q ≡ first
  pub positive : 0 < len
  pub within_request : len ≤ pos_part requested
  pub in_array : first + len ≤ q.m_capacity
  pub free : q.m_size + len ≤ q.m_capacity

less_one : (n : ℕ) → (n ≡ 0) ⊎ (n ≡ suc (n - 1))
less_one n = omega arith

module _ {A : Type 0} (q : SensorEventQueue A) (v : IsValid q) where
  -- Where there is space and the request is positive, the region starts behind the last readable event,
  -- holds at least one event and at most the request, and lies inside the array and in its free part.
  pub get_writable_region-Region :
      (requested : ℤ)
      → 0 < pos_part requested
      → q.m_size < q.m_capacity
      → (first : ℕ) × (len : ℕ) × (get_writable_region q requested ≡ (some first, len))
        × Region q requested first len
  unfolding get_writable_region
  get_writable_region-Region requested p h =
      let first = first_writable q in
      let last =
        cut_at_start q.m_start first (cut_at_end q.m_capacity (first + pos_part requested - 1)) in
      let at = wrap q.m_capacity (q.m_start + q.m_size) (ground (arith, v.start_lt)) in
      (
        first,
        last - first + 1,
        ground arith,
        record {
          at = refl;
          positive = omega arith;
          within_request = ground (arith, at, v.start_lt);
          in_array = ground (arith, at, v.start_lt);
          free = ground (arith, at, v.start_lt);
        },
      )

  pub contents-dequeue : (e : A) → peek q ≡ some e → contents q ≡ e ∷ contents (dequeue q)
  unfolding contents peek dequeue span
  contents-dequeue e h = ground (
    arith,
    mod-eq_of_lt v.start_lt,
    less_one q.m_size,
    span_wrap q.m_capacity q.m_data (q.m_start + 1) (q.m_size - 1),
  )

  pub dequeue-IsValid : IsValid (dequeue q)
  unfolding dequeue
  dequeue-IsValid = ground (arith, v, mod-lt (q.m_start + 1) {m = q.m_capacity})

pub peek-pos : {A : Type 0} (q : SensorEventQueue A) (e : A) → peek q ≡ some e → 0 < q.m_size
unfolding peek
peek-pos q e h = ground arith

pub peek-none : {A : Type 0} (q : SensorEventQueue A) → peek q ≡ none → contents q ≡ []
unfolding peek contents span
peek-none q h = ground arith
