-- ===== src/MultiHal/Queue.antt =====
-- sensors/SensorEventQueue.cpp: the circular queue between a sub-module's writer thread and the poll.
pub mod Wrap
pub mod Region
pub mod Round
use vibe_xperia.Prelude.{
  ℕ, zero, suc, ◌+◌, ◌-◌, ◌%◌, ◌≤◌, ◌<◌, ◌||◌, Bool, true, false, Option, none, some, List, [], ◌∷◌,
  ℤ, pos_part, ltb, leb, ◌==◌, if◌then◌else◌,
}

-- `SensorEventQueue`; `m_data` is the array by its index and `broadcasts` counts the calls of
-- `pthread_cond_broadcast` on the condition for space.
pub record SensorEventQueue {ℓ} (A : Type ℓ) : Type ℓ where
  pub m_capacity : ℕ
  pub m_start : ℕ
  pub m_size : ℕ
  pub m_data : ℕ → A
  pub broadcasts : ℕ

-- `lastWritable` after the two cuts, at the end of the array and at the readable region
abbrev pub cut_at_end : ℕ → ℕ → ℕ
cut_at_end capacity last = if ltb (capacity - 1) last then capacity - 1 else last

abbrev pub cut_at_start : ℕ → ℕ → ℕ → ℕ
cut_at_start start first last =
    if ltb first start then (if leb start last then start - 1 else last) else last

module _ {ℓ} {A : Type ℓ} where
  -- The constructor; `memory` is what the new array holds.
  unfoldable pub new_queue : ℕ → (ℕ → A) → SensorEventQueue A
  new_queue capacity memory = record {
    m_capacity = capacity;
    m_start = 0;
    m_size = 0;
    m_data = memory;
    broadcasts = 0;
  }

  abbrev pub first_writable : SensorEventQueue A → ℕ
  first_writable q = (q.m_start + q.m_size) % q.m_capacity

  -- The index of the region, `none` for NULL, and its length
  unfoldable pub get_writable_region : SensorEventQueue A → ℤ → Option ℕ × ℕ
  get_writable_region q requested =
      let first = first_writable q in
      let last =
        cut_at_start q.m_start first (cut_at_end q.m_capacity (first + pos_part requested - 1)) in
      if q.m_size == q.m_capacity || leb (pos_part requested) 0
      then (none, 0)
      else (some first, last - first + 1)

  unfoldable pub mark_as_written : ℕ → SensorEventQueue A → SensorEventQueue A
  mark_as_written count q = record q { m_size = q.m_size + count }

  unfoldable pub get_size : SensorEventQueue A → ℕ
  get_size q = q.m_size

  unfoldable pub peek : SensorEventQueue A → Option A
  peek q = if q.m_size == 0 then none else some (q.m_data q.m_start)

  unfoldable pub dequeue : SensorEventQueue A → SensorEventQueue A
  dequeue q = if q.m_size == 0 then q else record q {
    m_size = q.m_size - 1;
    m_start = (q.m_start + 1) % q.m_capacity;
    broadcasts = if q.m_size == q.m_capacity then q.broadcasts + 1 else q.broadcasts;
  }

  -- `waitForSpace` on the queue as it is and as each return of `pthread_cond_wait` finds it: whether it
  -- waited and the queue it ends with, or `none` while it still waits
  unfoldable pub wait_for_space :
      Bool → SensorEventQueue A → List (SensorEventQueue A) → Option (Bool × SensorEventQueue A)
  wait_for_space waited q [] = if q.m_size == q.m_capacity then none else some (waited, q)
  wait_for_space waited q (woken ∷ wakes) =
      let rest = wait_for_space true woken wakes in
      if q.m_size == q.m_capacity then rest else some (waited, q)

  -- The array with one event stored, as a sub-module's `poll` does
  abbrev pub store : ℕ → A → (ℕ → A) → ℕ → A
  store i v m j = if j == i then v else m j

  -- `n` events from position `s` on, around the array's end
  unfoldable pub span : ℕ → (ℕ → A) → ℕ → ℕ → List A
  span c m s zero = []
  span c m s (suc n) = m (s % c) ∷ span c m (s + 1) n

  -- The readable events, the oldest first
  unfoldable pub contents : SensorEventQueue A → List A
  contents q = span q.m_capacity q.m_data q.m_start q.m_size

  pub record IsValid (q : SensorEventQueue A) : Type 0 where
    pub start_lt : q.m_start < q.m_capacity
    pub size_le : q.m_size ≤ q.m_capacity
