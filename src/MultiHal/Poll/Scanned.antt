-- ===== src/MultiHal/Poll/Scanned.antt =====
-- One pass of the inner loop of `poll` in sensors/multihal.cpp.
use native.Mathlib.Nat.{add-mul}
use mathlib.Core.List.{append-nil, append_assoc}
use vibe_xperia.Prelude.{
  ℕ, zero, suc, ◌+◌, ◌-◌, ◌*◌, ◌%◌, ◌≤◌, ◌<◌, Option, none, some, List, [], ◌∷◌, ◌++◌, ◌≡◌, ◌≢◌,
  sym, ap, arith, ◌∙◌, true, false, ltb, if◌then◌else◌, length, length-append, length-set,
  get_elem?, set, get_elem?-set_self, get_elem?-set_ne, ◌==◌, Bool-cases, inl, inr, subst, if_then,
  if_else,
}
use vibe_xperia.MultiHal.Handles.{Handles}
use vibe_xperia.MultiHal.Queue.{SensorEventQueue, peek, dequeue, contents, IsValid}
use vibe_xperia.MultiHal.Queue.Wrap.{wrap}
use vibe_xperia.MultiHal.Queue.Region.{contents-dequeue, dequeue-IsValid, peek-none}
use vibe_xperia.MultiHal.Sensors.{Event}
use vibe_xperia.MultiHal.Poll.{
  copy_event_remap_handle, Scan, keep_event, read_queue, total, measure,
}
use vibe_xperia.MultiHal.Poll.Delivered.{
  Taken, taken_from, delivered_event, keep_event-delivered, handed_out, taken_from-append,
  handed_out-append,
}

-- The readable events of the queue at an index
abbrev pub waiting : List (SensorEventQueue Event) → ℕ → List Event
waiting qs i = elim (get_elem? qs i) [ none ↦ [] | some q ↦ contents q ]

size_of : Option (SensorEventQueue Event) → ℕ
size_of none = 0
size_of (some q) = q.m_size

contents_of : Option (SensorEventQueue Event) → List Event
contents_of none = []
contents_of (some q) = contents q

waiting_same :
    (qs rs : List (SensorEventQueue Event)) (i : ℕ)
    → get_elem? qs i ≡ get_elem? rs i
    → waiting qs i ≡ waiting rs i
unfolding contents_of
waiting_same qs rs i e = ap contents_of e

waiting_some :
    (qs : List (SensorEventQueue Event)) (i : ℕ) (q : SensorEventQueue Event)
    → get_elem? qs i ≡ some q
    → waiting qs i ≡ contents q
unfolding contents_of
waiting_some qs i q e = ap contents_of e

total-set :
    (qs : List (SensorEventQueue Event)) (i : ℕ) (q new : SensorEventQueue Event)
    → get_elem? qs i ≡ some q
    → total (set qs i new) + q.m_size ≡ total qs + new.m_size
total-set [] i q new e = cc
total-set (x ∷ xs) zero q new e = ground (arith, ap size_of e)
total-set (x ∷ xs) (suc i) q new e = omega (arith, total-set xs i q new e)

-- How many passes before the loop comes to an index
abbrev pub steps_to : ℕ → ℕ → ℕ → ℕ
steps_to count next i = if ltb i next then i + count - next else i - next

-- The loop's state against the queues it began with
pub record Progress (h : Handles) (max : ℕ) (start : Scan) (log : List Taken) (s : Scan)
    : Type 0 where
  pub valid : (i : ℕ) (q : SensorEventQueue Event) → get_elem? s.queues i ≡ some q → IsValid q
  pub next_lt : s.next_read_index < length s.queues
  pub same_count : length s.queues ≡ length start.queues
  pub empties_le : s.empties ≤ length s.queues
  pub delivered : s.out ≡ start.out ++ handed_out h log
  pub bounded : length s.out ≤ max
  pub fifo : (i : ℕ) → taken_from i log ++ waiting s.queues i ≡ waiting start.queues i
  pub swept :
      (i : ℕ)
      → i < length s.queues
      → length s.queues ≤ steps_to (length s.queues) s.next_read_index i + s.empties
      → waiting s.queues i ≡ []

same_index : (i j : ℕ) → (i == j) ≡ true → i ≡ j
same_index i j e = ground arith

other_index : (i j : ℕ) → (i == j) ≡ false → j ≢ i
other_index i j e d = ground arith

apart_index : (i j : ℕ) → (i == j) ≡ false → i ≢ j
apart_index i j e d = ground arith

pub some_inj {ℓ} : {A : Type ℓ} {a b : A} → some a ≡ some b → a ≡ b
some_inj e = cc

fewer :
    (q : SensorEventQueue Event) (e : Event) → peek q ≡ some e → (dequeue q).m_size + 1 ≡ q.m_size
unfolding peek dequeue
fewer q e h = ground arith

lower : (t t' c c' e : ℕ) → t' + 1 ≡ t → c' ≡ c → t' * (c' + 1) + (c' - 0) < t * (c + 1) + (c - e)
lower t t' c c' e h k = rw (k, ← h) (omega (arith, add-mul t' 1 (c + 1)))

module _ {h : Handles} {max : ℕ} {start s : Scan} {log : List Taken}
    (p : Progress h max start log s) (q : SensorEventQueue Event)
    (at : get_elem? s.queues s.next_read_index ≡ some q) where
  abbrev next : ℕ
  next = s.next_read_index

  next_step : (next + 1) % length s.queues ≡ (if next + 1 == length s.queues then 0 else next + 1)
  next_step = ground (arith, wrap (length s.queues) (next + 1), p.next_lt)

  waiting_at : waiting s.queues next ≡ contents q
  waiting_at = waiting_some s.queues next q at

  pub empty-Progress :
      peek q ≡ none → s.empties < length s.queues → Progress h max start log (read_queue h s q none)
  empty-Progress e l = record {
    valid = p.valid;
    next_lt = ground (arith, next_step, p.next_lt);
    same_count = p.same_count;
    empties_le = omega arith;
    delivered = p.delivered;
    bounded = p.bounded;
    fifo = p.fifo;
    swept = λ i il far. elim (Bool-cases (i == next)) [
      | inl this ↦
          ap (λ (x : ℕ). waiting s.queues x) (same_index i next this) ∙ waiting_at ∙ peek-none q e
      | inr other ↦ p.swept i il (ground (arith, next_step, far, p.next_lt, il))
    ];
  }

  module _ (e : Event) (full : peek q ≡ some e) where
    abbrev after : Scan
    after = read_queue h s q (some e)

    abbrev log' : List Taken
    log' = log ++ (next, e) ∷ []

    here : get_elem? after.queues next ≡ some (dequeue q)
    here = get_elem?-set_self s.queues next (dequeue q) p.next_lt

    elsewhere : (i : ℕ) → next ≢ i → get_elem? after.queues i ≡ get_elem? s.queues i
    elsewhere i ne = get_elem?-set_ne s.queues (dequeue q) ne

    kept-IsValid :
        (i : ℕ) (t : SensorEventQueue Event) → get_elem? after.queues i ≡ some t → IsValid t
    kept-IsValid i t ti = elim (Bool-cases (i == next)) [
      | inl this ↦
          let same : get_elem? after.queues next ≡ some t =
            ap (λ (x : ℕ). get_elem? after.queues x) (sym (same_index i next this)) ∙ ti in
          subst IsValid (some_inj (sym here ∙ same)) (dequeue-IsValid q (p.valid next q at))
      | inr other ↦ p.valid i t (sym (elsewhere i (other_index i next other)) ∙ ti)
    ]

    handed : handed_out h log' ≡ handed_out h log ++ keep_event (copy_event_remap_handle h e next)
    unfolding handed_out
    handed =
        handed_out-append h log ((next, e) ∷ [])
        ∙ ap (λ (t : List Event). handed_out h log ++ t)
            (append-nil (delivered_event h next e) ∙ sym (keep_event-delivered h e next))

    order : (i : ℕ) → taken_from i log' ++ waiting after.queues i ≡ waiting start.queues i
    unfolding taken_from
    order i = elim (Bool-cases (next == i)) [
      | inl this ↦
          let w : waiting after.queues i ≡ contents (dequeue q) =
            ap (λ (x : ℕ). waiting after.queues x) (sym (same_index next i this))
            ∙ waiting_some after.queues next (dequeue q) here in
          let before : waiting s.queues i ≡ e ∷ contents (dequeue q) =
            ap (λ (x : ℕ). waiting s.queues x) (sym (same_index next i this))
            ∙ waiting_at
            ∙ contents-dequeue q (p.valid next q at) e full in
          let more : taken_from i log' ≡ taken_from i log ++ (e ∷ []) =
            taken_from-append i log ((next, e) ∷ [])
            ∙ ap (λ (t : List Event). taken_from i log ++ t)
                (if_then (next == i) (e ∷ []) [] this) in
          ap (λ (t : List Event). t ++ waiting after.queues i) more
          ∙ append_assoc (taken_from i log) (e ∷ []) (waiting after.queues i)
          ∙ ap (λ (t : List Event). taken_from i log ++ (e ∷ t)) w
          ∙ ap (λ (t : List Event). taken_from i log ++ t) (sym before)
          ∙ p.fifo i
      | inr other ↦
          let none_more : taken_from i log' ≡ taken_from i log =
            taken_from-append i log ((next, e) ∷ [])
            ∙ ap (λ (t : List Event). taken_from i log ++ t) (if_else (next == i) (e ∷ []) [] other)
            ∙ append-nil (taken_from i log) in
          ap (λ (t : List Event). t ++ waiting after.queues i) none_more
          ∙ ap (λ (t : List Event). taken_from i log ++ t)
              (waiting_same after.queues s.queues i (elsewhere i (λ d. apart_index next i other d)))
          ∙ p.fifo i
    ]

    kept_one : length (keep_event (copy_event_remap_handle h e next)) ≤ 1
    kept_one = ground arith

    pub taken-Progress : length s.out < max → Progress h max start log' after
    taken-Progress room = record {
      valid = kept-IsValid;
      next_lt = ground (arith, next_step, p.next_lt, length-set {0} s.queues next (dequeue q));
      same_count = length-set s.queues next (dequeue q) ∙ p.same_count;
      empties_le = omega arith;
      delivered =
          ap (λ (t : List Event). t ++ keep_event (copy_event_remap_handle h e next)) p.delivered
          ∙ append_assoc start.out (handed_out h log)
              (keep_event (copy_event_remap_handle h e next))
          ∙ ap (λ (t : List Event). start.out ++ t) (sym handed);
      bounded = omega (
        arith,
        kept_one,
        length-append {0} s.out (keep_event (copy_event_remap_handle h e next)),
      );
      fifo = order;
      swept = λ i il far.
          absurd (
            ground
              (arith, next_step, far, il, p.next_lt, length-set {0} s.queues next (dequeue q)));
    }

    pub taken-measure : measure after < measure s
    taken-measure =
        lower (total s.queues) (total after.queues) (length s.queues) (length after.queues)
          s.empties (omega (arith, total-set s.queues next q (dequeue q) at, fewer q e full))
          (length-set s.queues next (dequeue q))
