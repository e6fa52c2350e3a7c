-- ===== src/MultiHal/Queue/Round.antt =====
-- One round of `writerTask` on a queue of sensors/SensorEventQueue.cpp: the sub-module's poll stores events in
-- the region without the lock, while the reader takes events; then the writer marks what it wrote.
use native.Mathlib.Nat.{mod-add-mod, add_assoc}
use mathlib.Core.List.{append_assoc}
use vibe_xperia.Prelude.{
  ℕ, ◌+◌, ◌-◌, ◌%◌, ◌≤◌, ◌<◌, some, List, [], ◌∷◌, ◌++◌, ◌≡◌, ◌≢◌, refl, ap, arith, ◌∙◌, length,
  length-append, ℤ, sym,
}
use vibe_xperia.MultiHal.Queue.{
  SensorEventQueue, store, span, contents, IsValid, peek, dequeue, mark_as_written,
}
use vibe_xperia.MultiHal.Queue.Wrap.{wrap, wrap_add, span_wrap, span_add, span-store}
use vibe_xperia.MultiHal.Queue.Region.{Region, contents-dequeue, dequeue-IsValid, peek-pos}

-- The queue, the region of the round, what was stored in it and what was read meanwhile
pub record Round (A : Type 0) : Type 0 where
  pub queue : SensorEventQueue A
  pub first : ℕ
  pub len : ℕ
  pub written : List A
  pub taken : List A

module _ {A : Type 0} where
  abbrev pub begin : SensorEventQueue A → ℕ → ℕ → Round A
  begin q first len = record { queue = q; first = first; len = len; written = []; taken = [] }

  abbrev pub store_event : Round A → A → Round A
  store_event r e =
      let q = r.queue in
      record r {
        queue = record q { m_data = store (r.first + length r.written) e q.m_data };
        written = r.written ++ e ∷ [];
      }

  abbrev pub take_event : Round A → A → Round A
  take_event r e = record r { queue = dequeue r.queue; taken = r.taken ++ e ∷ [] }

  abbrev pending_of : Round A → List A
  pending_of r =
      span r.queue.m_capacity r.queue.m_data (r.queue.m_start + r.queue.m_size) (length r.written)

  -- The sub-module's poll stores its next event in the region; the reader peeks and dequeues under the
  -- lock. The two come in any order.
  pub data Steps (r : Round A) : Round A → Type 0 where
    here : Steps r r
    stores :
        {t : Round A} → Steps r t → (e : A) → length t.written < t.len → Steps r (store_event t e)
    takes : {t : Round A} → Steps r t → (e : A) → peek t.queue ≡ some e → Steps r (take_event t e)

  record Inv (q : SensorEventQueue A) (r : Round A) : Type 0 where
    valid : IsValid r.queue
    at : (r.queue.m_start + r.queue.m_size) % r.queue.m_capacity ≡ r.first
    in_array : r.first + r.len ≤ r.queue.m_capacity
    free : r.queue.m_size + r.len ≤ r.queue.m_capacity
    few : length r.written ≤ r.len
    pending : pending_of r ≡ r.written
    order : r.taken ++ contents r.queue ≡ contents q

  begin-Inv :
      (q : SensorEventQueue A) (requested : ℤ) (first len : ℕ)
      → IsValid q
      → Region q requested first len
      → Inv q (begin q first len)
  unfolding span
  begin-Inv q requested first len v g = record {
    valid = v;
    at = g.at;
    in_array = g.in_array;
    free = g.free;
    few = omega arith;
    pending = refl;
    order = refl;
  }

-- Two positions less than a capacity apart are different places.
apart : (c s i j : ℕ) → s < c → i < j → j < c → (s + i) % c ≢ (s + j) % c
apart c s i j a b d e = ground (arith, wrap c (s + i), wrap c (s + j), e)

module _ {A : Type 0} {q : SensorEventQueue A} {r : Round A} (n : Inv q r) (e : A) where
  abbrev cap : ℕ
  cap = r.queue.m_capacity

  abbrev end : ℕ
  end = r.queue.m_start + r.queue.m_size

  abbrev stored : ℕ → A
  stored = store (r.first + length r.written) e r.queue.m_data

  module _ (h : length r.written < r.len) where
    stored_at : (end + length r.written) % cap ≡ r.first + length r.written
    stored_at =
        wrap_add cap end (length r.written) (omega (arith, n.at, n.in_array))
        ∙ ap (λ (x : ℕ). x + length r.written) n.at

    -- The place of the new event is neither readable nor pending.
    fresh :
        (i : ℕ)
        → i < r.queue.m_size + length r.written
        → (r.queue.m_start + i) % cap ≢ r.first + length r.written
    fresh i l same =
        apart cap r.queue.m_start i (r.queue.m_size + length r.written) n.valid.start_lt l
          (omega (arith, n.free))
          (same
            ∙ sym stored_at
            ∙ ap (λ (x : ℕ). x % cap) (add_assoc r.queue.m_start r.queue.m_size (length r.written)))

    readable : contents (store_event r e).queue ≡ contents r.queue
    unfolding contents
    readable =
        span-store cap r.queue.m_data r.queue.m_start r.queue.m_size _ e
          (λ i l. fresh i (omega (arith, l)))

    kept : span cap stored end (length r.written) ≡ r.written
    kept =
        span-store cap r.queue.m_data end (length r.written) _ e (λ i l same.
          fresh (r.queue.m_size + i) (omega (arith, l))
            (ap (λ (x : ℕ). x % cap) (sym (add_assoc r.queue.m_start r.queue.m_size i)) ∙ same))
        ∙ n.pending

    last : span cap stored (end + length r.written) 1 ≡ e ∷ []
    unfolding span
    last = ground (arith, stored_at)

    store_event-Inv : Inv q (store_event r e)
    store_event-Inv = record {
      valid = record { start_lt = n.valid.start_lt; size_le = n.valid.size_le };
      at = n.at;
      in_array = n.in_array;
      free = n.free;
      few = omega (arith, length-append {0} r.written (e ∷ []));
      pending =
          ap (λ (k : ℕ). span cap stored end k) (length-append r.written (e ∷ []))
          ∙ span_add cap stored end (length r.written) 1
          ∙ cc (kept, last);
      order = ap (λ (t : List A). r.taken ++ t) readable ∙ n.order;
    }

  same_place :
      0 < r.queue.m_size → ((r.queue.m_start + 1) % cap + (r.queue.m_size - 1)) % cap ≡ end % cap
  same_place h =
      mod-add-mod (r.queue.m_start + 1) cap (r.queue.m_size - 1)
      ∙ ap (λ (x : ℕ). x % cap) (omega arith)

  -- Taking an event moves the start and leaves the end of the readable events where it is.
  same_end :
      0 < r.queue.m_size
      → (k : ℕ)
      → span cap r.queue.m_data ((r.queue.m_start + 1) % cap + (r.queue.m_size - 1)) k
        ≡ span cap r.queue.m_data end k
  same_end h k =
      sym (span_wrap cap r.queue.m_data _ k)
      ∙ ap (λ (x : ℕ). span cap r.queue.m_data x k) (same_place h)
      ∙ span_wrap cap r.queue.m_data end k

  take_event-Inv : peek r.queue ≡ some e → Inv q (take_event r e)
  unfolding dequeue peek
  take_event-Inv h = record {
    valid = dequeue-IsValid r.queue n.valid;
    at = ground (arith, same_place, n.at);
    in_array = ground (arith, n.in_array);
    free = ground (arith, n.free);
    few = n.few;
    pending = ground (arith, same_end (peek-pos r.queue e h) (length r.written), n.pending);
    order =
        append_assoc r.taken (e ∷ []) (contents (dequeue r.queue))
        ∙ ap (λ (t : List A). r.taken ++ t) (sym (contents-dequeue r.queue n.valid e h))
        ∙ n.order;
  }

Steps-Inv : {A : Type 0} {q : SensorEventQueue A} {r t : Round A} → Inv q r → Steps r t → Inv q t
Steps-Inv n here = n
Steps-Inv n (stores s e h) = store_event-Inv (Steps-Inv n s) e h
Steps-Inv n (takes s e h) = take_event-Inv (Steps-Inv n s) e h

-- A whole round of the writer loses, repeats and reorders nothing: from a valid queue with a region, after
-- any interleaving of the stores with the reader's steps and `markAsWritten` of the number of stored
-- events, what the reader took followed by what is readable is what was readable before followed by what
-- was stored, and the queue is valid.
pub mark_as_written-order :
    {A : Type 0} (q : SensorEventQueue A) (requested : ℤ) (first len : ℕ) (t : Round A)
    → IsValid q
    → Region q requested first len
    → Steps (begin q first len) t
    → (t.taken ++ contents (mark_as_written (length t.written) t.queue) ≡ contents q ++ t.written)
      × IsValid (mark_as_written (length t.written) t.queue)
unfolding mark_as_written contents
mark_as_written-order q requested first len t v g s =
    let n = Steps-Inv (begin-Inv q requested first len v g) s in
    let u = t.queue in
    (
      ap (λ (x : List _). t.taken ++ x)
            (span_add u.m_capacity u.m_data u.m_start u.m_size (length t.written))
          ∙ sym (append_assoc t.taken (contents u) (pending_of t))
          ∙ cc (n.order, n.pending),
      record { start_lt = n.valid.start_lt; size_le = omega (arith, n.free, n.few) },
    )
