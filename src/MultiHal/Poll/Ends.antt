-- ===== src/MultiHal/Poll/Ends.antt =====
-- The inner loop and the whole `poll` of sensors/multihal.cpp.
use vibe_xperia.Prelude.{
  ℕ, zero, suc, ◌≤◌, ◌<◌, true, false, none, some, List, [], ◌∷◌, ◌++◌, ℤ, pos_part, ◌≡◌, ◌⊎◌, refl,
  ap, arith, ◌∙◌, length, get_elem?, Bool-cases, inl, inr, Option-cases, dec_lt,
}
use vibe_xperia.MultiHal.Handles.{Handles}
use vibe_xperia.MultiHal.Queue.{SensorEventQueue, peek, IsValid}
use vibe_xperia.MultiHal.Sensors.{Event}
use vibe_xperia.MultiHal.Poll.{
  Scan, read_queue, scan_step, scans, scan, scan_all, measure, poll, poll_loop,
}
use vibe_xperia.MultiHal.Poll.Delivered.{Taken, taken_from, handed_out}
use vibe_xperia.MultiHal.Poll.Scanned.{
  Progress, waiting, empty-Progress, taken-Progress, taken-measure,
}

scan_stop :
    (fuel : ℕ) (h : Handles) (max : ℕ) (s : Scan)
    → scans max s ≡ false
    → scan (suc fuel) h max s ≡ some s
unfolding scan
scan_stop fuel h max s e = ground arith

scan_go :
    (fuel : ℕ) (h : Handles) (max : ℕ) (s t : Scan)
    → scans max s ≡ true
    → scan_step h s ≡ some t
    → scan (suc fuel) h max s ≡ scan fuel h max t
unfolding scan
scan_go fuel h max s t e d = ground arith

found_at {ℓ} :
    {A : Type ℓ} (xs : List A) (i : ℕ) → i < length xs → (x : A) × (get_elem? xs i ≡ some x)
found_at [] i h = elim h [ ]
found_at (x ∷ xs) zero h = (x, refl)
found_at (x ∷ xs) (suc i) h = found_at xs i (omega arith)

module _ (h : Handles) (s : Scan) (q : SensorEventQueue Event) where
  scan_step_empty :
      get_elem? s.queues s.next_read_index ≡ some q
      → peek q ≡ none
      → scan_step h s ≡ some (read_queue h s q none)
  unfolding scan_step
  scan_step_empty at e = rw (at, e, scan_step) refl

  scan_step_taken :
      (e : Event)
      → get_elem? s.queues s.next_read_index ≡ some q
      → peek q ≡ some e
      → scan_step h s ≡ some (read_queue h s q (some e))
  unfolding scan_step
  scan_step_taken e at d = rw (at, d, scan_step) refl

  go_on : (max : ℕ) → scans max s ≡ true → (s.empties < length s.queues) × (length s.out < max)
  go_on max e = ground arith

  empty-measure : s.empties < length s.queues → measure (read_queue h s q none) < measure s
  empty-measure l = ground arith

module _ {h : Handles} {max : ℕ} {start : Scan} where
  -- With fuel above the measure the loop stops by its own test and keeps what holds of each pass.
  scan-ends :
      (fuel : ℕ) (s : Scan) (log : List Taken)
      → Progress h max start log s
      → measure s < fuel
      → (t : Scan) × (more : List Taken) × (scan fuel h max s ≡ some t)
        × Progress h max start more t
        × (scans max t ≡ false)
  scan-ends zero s log p l = absurd (omega arith)
  scan-ends (suc fuel) s log p l = elim (Bool-cases (scans max s)) [
    | inr stop ↦ (s, log, scan_stop fuel h max s stop, p, stop)
    | inl go ↦
        let (q, at) = found_at s.queues s.next_read_index p.next_lt in
        let (few, room) = go_on h s q max go in
        elim (Option-cases (peek q)) [
          | inl e ↦
              let (t, more, done, pt, stop) =
                scan-ends fuel (read_queue h s q none) log (empty-Progress p q at e few)
                  (omega (arith, l, empty-measure h s q few)) in
              (t, more, scan_go fuel h max s _ go (scan_step_empty h s q at e) ∙ done, pt, stop)
          | inr (e, d) ↦
              let (t, more, done, pt, stop) =
                scan-ends fuel (read_queue h s q (some e)) (log ++ (s.next_read_index, e) ∷ [])
                  (taken-Progress p q at e d room) (omega (arith, l, taken-measure p q at e d)) in
              (t, more, scan_go fuel h max s _ go (scan_step_taken h s q e at d) ∙ done, pt, stop)
        ]
  ]

-- The queues and the index with which `poll` is entered
pub record Entered (queues : List (SensorEventQueue Event)) (next : ℕ) : Type 0 where
  pub all_valid : (i : ℕ) (q : SensorEventQueue Event) → get_elem? queues i ≡ some q → IsValid q
  pub in_range : next < length queues

abbrev pub entered : List (SensorEventQueue Event) → ℕ → Scan
entered queues next = record { queues = queues; next_read_index = next; empties = 0; out = [] }

entered-Progress :
    (h : Handles) (max : ℕ) (queues : List (SensorEventQueue Event)) (next : ℕ)
    → Entered queues next
    → Progress h max (entered queues next) [] (entered queues next)
unfolding handed_out taken_from
entered-Progress h max queues next e = record {
  valid = e.all_valid;
  next_lt = e.in_range;
  same_count = refl;
  empties_le = omega arith;
  delivered = refl;
  bounded = omega arith;
  fifo = λ i. refl;
  swept = λ i l far. absurd (ground (arith, l, far, e.in_range));
}

-- What one scan of the queues gives: `log` is what was taken, in order.
pub record Merged (h : Handles) (max : ℕ) (queues : List (SensorEventQueue Event))
    (log : List Taken) (t : Scan) : Type 0 where
  pub out_lem : t.out ≡ handed_out h log
  pub out_le : length t.out ≤ max
  pub fifo : (i : ℕ) → taken_from i log ++ waiting t.queues i ≡ waiting queues i
  pub complete : (max ≤ length t.out) ⊎ ((i : ℕ) → waiting t.queues i ≡ [])

empty_list {ℓ} : {A : Type ℓ} (xs : List A) → length xs ≡ 0 → xs ≡ []
empty_list [] e = refl
empty_list (x ∷ xs) e = absurd (omega arith)

waiting_outside : (qs : List (SensorEventQueue Event)) (i : ℕ) → length qs ≤ i → waiting qs i ≡ []
waiting_outside [] i l = refl
waiting_outside (q ∷ qs) zero l = absurd (omega arith)
waiting_outside (q ∷ qs) (suc i) l = waiting_outside qs i (omega arith)

full_or_swept :
    (max : ℕ) (t : Scan)
    → scans max t ≡ false
    → (max ≤ length t.out) ⊎ (length t.queues ≤ t.empties)
full_or_swept max t e = ground arith

all_empty :
    {h : Handles} {max : ℕ} {start : Scan} {log : List Taken} (t : Scan)
    → Progress h max start log t
    → length t.queues ≤ t.empties
    → (i : ℕ) → waiting t.queues i ≡ []
all_empty t p l i = elim (dec_lt i (length t.queues)) [
  | yes inside ↦ p.swept i inside (ground (arith, l))
  | no outside ↦ waiting_outside t.queues i (omega arith)
]

module _ (h : Handles) (max : ℕ) (queues : List (SensorEventQueue Event)) (next : ℕ)
    (e : Entered queues next) where
  scan_all-Merged :
      (t : Scan) × (log : List Taken) × (scan_all h max (entered queues next) ≡ some t)
      × Merged h max queues log t
  unfolding scan_all
  scan_all-Merged =
      let start = entered queues next in
      let (t, log, done, p, stop) =
        scan-ends (suc (measure start)) start [] (entered-Progress h max queues next e)
          (omega arith) in
      (
        t,
        log,
        done,
        record {
          out_lem = p.delivered;
          out_le = p.bounded;
          fifo = p.fifo;
          complete = elim (full_or_swept max t stop) [
            | inl full ↦ inl full
            | inr swept ↦ inr (all_empty t p swept)
          ];
        },
      )

some_read :
    (h : Handles) (max : ℕ) (s t : Scan) (wakes : List (List (SensorEventQueue Event)))
    → scan_all h max s ≡ some t
    → 0 < length t.out
    → poll_loop h max s wakes ≡ some t
unfolding poll_loop
some_read h max s t [] e l = rw (e, poll_loop) (ground arith)
some_read h max s t (w ∷ wakes) e l = rw (e, poll_loop) (ground arith)

none_read :
    (h : Handles) (max : ℕ) (s t : Scan)
    → scan_all h max s ≡ some t
    → length t.out ≡ 0
    → poll_loop h max s [] ≡ none
unfolding poll_loop
none_read h max s t e l = rw (e, poll_loop) (ground arith)

woken_again :
    (h : Handles) (max : ℕ) (s t : Scan) (woken : List (SensorEventQueue Event))
    (wakes : List (List (SensorEventQueue Event)))
    → scan_all h max s ≡ some t
    → length t.out ≡ 0
    → poll_loop h max s (woken ∷ wakes)
      ≡ poll_loop h max (record t { queues = woken; empties = 0 }) wakes
unfolding poll_loop
woken_again h max s t woken wakes e l = rw (e, poll_loop) (ground arith)

-- `poll` with a positive count on valid queues scans them once to an end. It hands out at most as many events as
-- asked for, which come from those taken, in order, by `delivered_event`: an event that is not meta-data has
-- its global handle, or is left out where its handle is unknown; a meta-data event has the global handle
-- inside it, or -1 where that is unknown. What is taken from a queue followed by what still waits there is
-- what waited there before. If an event is left to hand out, `poll` returns these without waiting.
-- Otherwise every queue is empty, and `poll` waits and then scans the queues that it wakes up to in the
-- same way.
pub poll-Merged :
    (h : Handles) (max : ℤ) (queues : List (SensorEventQueue Event)) (next : ℕ)
    (woken : List (SensorEventQueue Event)) (wakes : List (List (SensorEventQueue Event)))
    → Entered queues next
    → 0 < pos_part max
    → (t : Scan) × (log : List Taken) × Merged h (pos_part max) queues log t
      × (((0 < length t.out) × (poll h max queues next (woken ∷ wakes) ≡ some t))
          ⊎ (((i : ℕ) → waiting t.queues i ≡ [])
              × (poll h max queues next [] ≡ none)
              × (poll h max queues next (woken ∷ wakes)
                  ≡ poll h max woken t.next_read_index wakes)))
unfolding poll
poll-Merged h max queues next woken wakes e pos_max =
    let (t, log, done, m) = scan_all-Merged h (pos_part max) queues next e in
    let s = entered queues next in
    (
      t,
      log,
      m,
      elim (dec_lt 0 (length t.out)) [
        | yes l ↦ inl (l, some_read h (pos_part max) s t (woken ∷ wakes) done l)
        | no l ↦
            let nothing : length t.out ≡ 0 = omega arith in
            inr (
              elim m.complete [ inl full ↦ absurd (omega arith) | inr all ↦ all ],
              none_read h (pos_part max) s t done nothing,
              woken_again h (pos_part max) s t woken wakes done nothing
                  ∙ ap
                      (λ (o : List Event).
                        poll_loop h (pos_part max)
                          (record {
                            queues = woken;
                            next_read_index = t.next_read_index;
                            empties = 0;
                            out = o;
                          })
                          wakes)
                      (empty_list t.out nothing),
            )
      ],
    )
