-- ===== src/MultiHal/Poll.antt =====
-- sensors/multihal.cpp: the poll that merges the queues of the sub-modules, and what a writer thread does after
-- its own poll.
pub mod Delivered
pub mod Scanned
pub mod Ends
pub mod Remapped
use vibe_xperia.Prelude.{
  ℕ, zero, suc, ◌+◌, ◌-◌, ◌*◌, ◌%◌, ◌&&◌, Bool, true, false, Option, none, some, List, [], ◌∷◌,
  ◌++◌, ℤ, pos_part, minus_one, ltb, leb, ◌==◌, if◌then◌else◌, length, get_elem?, set,
}
use vibe_xperia.MultiHal.Handles.{FullHandle, Handles, get_global_handle}
use vibe_xperia.MultiHal.Queue.{SensorEventQueue, peek, dequeue, mark_as_written}
use vibe_xperia.MultiHal.Sensors.{Event}
use vibe_xperia.MultiHal.Calls.{eq_ℤ}

unfoldable pub copy_event_remap_handle : Handles → Event → ℕ → Event
unfolding get_global_handle
copy_event_remap_handle h e sub_index =
    let global = λ (local : ℤ).
      get_global_handle h (record { module_index = sub_index; local_handle = local }) in
    if e.is_meta_data
    then record e { meta_sensor = global e.meta_sensor }
    else record e { sensor = global e.sensor }

-- The variables of `poll`; `out` is `data` up to `eventsRead`.
pub record Scan : Type 0 where
  pub queues : List (SensorEventQueue Event)
  pub next_read_index : ℕ
  pub empties : ℕ
  pub out : List Event

-- An event whose sensor has no global handle is dropped.
abbrev pub keep_event : Event → List Event
keep_event e = if eq_ℤ e.sensor minus_one then [] else e ∷ []

-- The body of the inner loop on the queue at `nextReadIndex`, by what its `peek` gives
abbrev pub read_queue : Handles → Scan → SensorEventQueue Event → Option Event → Scan
read_queue h s q none = record s {
  empties = s.empties + 1;
  next_read_index = (s.next_read_index + 1) % length s.queues;
}
read_queue h s q (some e) = record s {
  queues = set s.queues s.next_read_index (dequeue q);
  empties = 0;
  out = s.out ++ keep_event (copy_event_remap_handle h e s.next_read_index);
  next_read_index = (s.next_read_index + 1) % length s.queues;
}

-- `none` is the exception of `at` for an index out of range.
unfoldable pub scan_step : Handles → Scan → Option Scan
unfolding copy_event_remap_handle peek dequeue
scan_step h s = elim (get_elem? s.queues s.next_read_index) [
  | none ↦ none
  | some q ↦ some (read_queue h s q (peek q))
]

abbrev pub scans : ℕ → Scan → Bool
scans max_reads s = ltb s.empties (length s.queues) && ltb (length s.out) max_reads

-- The inner loop with fuel
unfoldable pub scan : ℕ → Handles → ℕ → Scan → Option Scan
unfolding scan_step
scan zero h max_reads s = none
scan (suc fuel) h max_reads s = elim (scans max_reads s) [
  | false ↦ some s
  | true ↦ elim (scan_step h s) [ none ↦ none | some t ↦ scan fuel h max_reads t ]
]

-- The events in all queues
abbrev pub total : List (SensorEventQueue Event) → ℕ
total [] = 0
total (q ∷ qs) = q.m_size + total qs

-- Each pass of the inner loop lowers this.
abbrev pub measure : Scan → ℕ
measure s = total s.queues * (length s.queues + 1) + (length s.queues - s.empties)

unfoldable pub scan_all : Handles → ℕ → Scan → Option Scan
unfolding scan
scan_all h max_reads s = scan (suc (measure s)) h max_reads s

-- The outer loop. Each entry of `wakes` is the queues as a return of `pthread_cond_wait` finds them; `none` is
-- a poll that still waits after the last.
poll_loop : Handles → ℕ → Scan → List (List (SensorEventQueue Event)) → Option Scan
poll_loop h max_reads s [] = elim (scan_all h max_reads s) [
  | none ↦ none
  | some t ↦ if leb (length t.out) 0 then none else some t
]
poll_loop h max_reads s (woken ∷ wakes) = elim (scan_all h max_reads s) [
  | none ↦ none
  | some t ↦
      let rest = poll_loop h max_reads (record t { queues = woken; empties = 0 }) wakes in
      if leb (length t.out) 0 then rest else some t
]

unfoldable pub poll :
    Handles
    → ℤ
    → List (SensorEventQueue Event)
    → ℕ
    → List (List (SensorEventQueue Event))
    → Option Scan
unfolding poll_loop scan_all
poll h max_reads queues next_read_index =
    poll_loop h (pos_part max_reads)
      (record { queues = queues; next_read_index = next_read_index; empties = 0; out = [] })

-- What a writer thread does with the number of events that its device polled: whether it marks the queue, and
-- whether it broadcasts that data is available
unfoldable pub writer_polled : Bool → ℤ → SensorEventQueue Event → SensorEventQueue Event × Bool
unfolding mark_as_written
writer_polled waiting_for_data polled q =
    if leb (pos_part polled) 0
    then (q, false)
    else (mark_as_written (pos_part polled) q, waiting_for_data)
