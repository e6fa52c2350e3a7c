-- ===== src/Gps/LinkedList/Repr.antt =====
-- The elements as a list, the head first.
use vibe_xperia.Prelude.{
  ℕ, zero, suc, ◌<◌, ◌≡◌, ◌≢◌, refl, sym, subst, ap, ◌∙◌, Bool, List, [], ◌∷◌, ◌++◌, Option, none,
  some, inl, inr, arith, if◌then◌else◌, Option-cases, length,
}
use vibe_xperia.Gps.LinkedList.{
  success, ListElement, ListState, store, set_prev, set_next, link_head, linked_list_add,
  linked_list_remove, flush_loop, linked_list_flush,
}

-- An element: its address, its data pointer and whether it is to be deallocated.
abbrev pub Cell : Type 0
Cell = ℕ × ℕ × Bool

abbrev pub NotIn : ℕ → List Cell → Type 0
NotIn a [] = Unit {0}
NotIn a ((b, _, _) ∷ xs) = (a ≢ b) × NotIn a xs

-- The elements from the pointer `p` on, up to the one before `q`: `prev` is the element before them and
-- `last` the last of all.
abbrev pub Doubly : (ℕ → Option ListElement) → Option ℕ → Option ℕ → List Cell → Option ℕ → Type 0
Doubly h prev p [] last = (p ≡ none) × (last ≡ prev)
Doubly h prev p ((a, d, f) ∷ xs) last =
    (p ≡ some a)
    × ((n : Option ℕ) × (h a ≡ some (record { next = n; prev = prev; data_ptr = d; dealloc = f }))
        × NotIn a xs
        × Doubly h (some a) n xs last)

pub Doubly-frame :
    (h h' : ℕ → Option ListElement) (prev p : Option ℕ) (xs : List Cell) (last : Option ℕ) (a : ℕ)
    → ((j : ℕ) → a ≢ j → h' j ≡ h j)
    → NotIn a xs
    → Doubly h prev p xs last
    → Doubly h' prev p xs last
Doubly-frame h h' prev p [] last a same out v = v
Doubly-frame h h' prev p ((b, d, f) ∷ xs) last a same out (e, (n, at, un, v)) =
    (e, (n, same b out.0 ∙ at, un, Doubly-frame h h' (some b) n xs last a same out.1 v))

-- The list that the state holds, the head first: the elements from `p_head` to `p_tail`.
pub record Repr (l : ListState) (xs : List Cell) : Type 0 where
  pub linked : Doubly l.heap none l.p_head xs l.p_tail

NotIn-of_free :
    (h : ℕ → Option ListElement) (prev p : Option ℕ) (xs : List Cell) (last : Option ℕ) (a : ℕ)
    → h a ≡ none
    → Doubly h prev p xs last
    → NotIn a xs
NotIn-of_free h prev p [] last a free v = tt
NotIn-of_free h prev p ((b, d, f) ∷ xs) last a free (e, (n, at, un, v)) =
    (λ q. ground (arith, ap h q), NotIn-of_free h (some b) n xs last a free v)

pub stored_at : (h : ℕ → Option ListElement) (a : ℕ) (v : Option ListElement) → store h a v a ≡ v
stored_at h a v = ground arith

pub stored_other :
    (h : ℕ → Option ListElement) (a j : ℕ) (v : Option ListElement) → a ≢ j → store h a v j ≡ h j
stored_other h a j v ne = ground arith

pub set_prev_at :
    (h : ℕ → Option ListElement) (a : ℕ) (v : Option ℕ) (e : ListElement)
    → h a ≡ some e
    → (set_prev h a v a ≡ some (record e { prev = v })) × ((j : ℕ) → a ≢ j → set_prev h a v j ≡ h j)
set_prev_at h a v e at =
    (rw (at, set_prev) (ground arith), λ j ne. rw (at, set_prev) (ground arith))

pub set_next_at :
    (h : ℕ → Option ListElement) (a : ℕ) (v : Option ℕ) (e : ListElement)
    → h a ≡ some e
    → (set_next h a v a ≡ some (record e { next = v })) × ((j : ℕ) → a ≢ j → set_next h a v j ≡ h j)
set_next_at h a v e at =
    (rw (at, set_next) (ground arith), λ j ne. rw (at, set_next) (ground arith))

-- A new element, not allocated before, is put in front of the elements of the list.
pub linked_list_add-Repr :
    (l : ListState) (d new : ℕ) (f : Bool) (xs : List Cell)
    → l.heap new ≡ none
    → Repr l xs
    → (l' : ListState) × (linked_list_add (some l) (suc d) f (some new) ≡ (success, some l'))
      × Repr l' ((new, suc d, f) ∷ xs)
unfolding linked_list_add
linked_list_add-Repr l d new f [] free v =
    (_, refl, record { linked = rw v.linked.0 (refl, (none, ground arith, tt, (refl, refl))) })
linked_list_add-Repr l d new f ((a, d', f') ∷ xs) free v =
    let (e, (n, at, un, w)) = v.linked in
    let fresh = NotIn-of_free l.heap none l.p_head ((a, d', f') ∷ xs) l.p_tail new free v.linked in
    let cell : ListElement = record {
      next = l.p_head;
      prev = none;
      data_ptr = suc d;
      dealloc = f;
    } in
    let h2 : ℕ → Option ListElement = store l.heap new (some cell) in
    let at2 : h2 a ≡ some (record { next = n; prev = none; data_ptr = d'; dealloc = f' }) =
      stored_other l.heap new a (some cell) fresh.0 ∙ at in
    let (set, others) = set_prev_at h2 a (some new) _ at2 in
    (
      _,
      refl,
      subst
          (λ p.
            Repr (link_head (record l { p_head = some new; heap = h2 }) p new)
              ((new, suc d, f) ∷ (a, d', f') ∷ xs))
          (sym e)
          (record {
            linked = (
              refl,
              (
                l.p_head,
                others new (λ q. fresh.0 (sym q)) ∙ stored_at l.heap new (some cell),
                fresh,
                (
                  e,
                  (
                    n,
                    set,
                    un,
                    Doubly-frame h2 (set_prev h2 a (some new)) (some a) n xs l.p_tail a
                        (λ j ne. others j ne) un
                        (Doubly-frame l.heap h2 (some a) n xs l.p_tail new
                          (λ j ne. stored_other l.heap new j (some cell) ne) fresh.1 w),
                  ),
                ),
              ),
            );
          }),
    )

abbrev pub end_of : ℕ → List Cell → ℕ
end_of b [] = b
end_of b ((c, _, _) ∷ xs) = end_of c xs

NotIn-append :
    (a t d : ℕ) (f : Bool) (xs : List Cell) → NotIn a (xs ++ (t, d, f) ∷ []) → NotIn a xs × (a ≢ t)
NotIn-append a t d f [] n = (tt, n.0)
NotIn-append a t d f (x ∷ xs) n = let (m, e) = NotIn-append a t d f xs n.1 in ((n.0, m), e)

NotIn-end_of : (a b : ℕ) (xs : List Cell) → a ≢ b → NotIn a xs → a ≢ end_of b xs
NotIn-end_of a b [] e n = e
NotIn-end_of a b ((c, _, _) ∷ xs) e n = NotIn-end_of a c xs n.0 n.1

cut_last :
    (h h' : ℕ → Option ListElement) (prev p last : Option ℕ) (b db t d : ℕ) (fb f : Bool)
    (xs : List Cell)
    → ((j : ℕ) → j ≢ end_of b xs → j ≢ t → h' j ≡ h j)
    → ((e : ListElement)
        → h (end_of b xs) ≡ some e
        → h' (end_of b xs) ≡ some (record e { next = none }))
    → Doubly h prev p ((b, db, fb) ∷ (xs ++ (t, d, f) ∷ [])) last
    → Doubly h' prev p ((b, db, fb) ∷ xs) (some (end_of b xs))
cut_last h h' prev p last b db t d fb f [] keep cut (e, (n, at, un, v)) =
    (e, (none, cut _ at, tt, (refl, refl)))
cut_last h h' prev p last b db t d fb f ((c, dc, fc) ∷ xs) keep cut (e, (n, at, un, v)) =
    let (m, ne) = NotIn-append b t d f ((c, dc, fc) ∷ xs) un in
    (
      e,
      (
        n,
        keep b (NotIn-end_of b c xs m.0 m.1) ne ∙ at,
        m,
        cut_last h h' (some b) n last c dc t d fc f xs keep cut v,
      ),
    )

at_last :
    (h : ℕ → Option ListElement) (prev p last : Option ℕ) (b db t d : ℕ) (fb f : Bool)
    (xs : List Cell)
    → Doubly h prev p ((b, db, fb) ∷ (xs ++ (t, d, f) ∷ [])) last
    → (last ≡ some t)
      × (h t ≡ some (record { next = none; prev = some (end_of b xs); data_ptr = d; dealloc = f }))
at_last h prev p last b db t d fb f [] (e, (n, at, un, (e2, (n2, at2, un2, (z, l))))) =
    (l, at2 ∙ rw z refl)
at_last h prev p last b db t d fb f ((c, dc, fc) ∷ xs) (e, (n, at, un, v)) =
    at_last h (some b) n last c dc t d fc f xs v

end_ne :
    (h : ℕ → Option ListElement) (prev p last : Option ℕ) (b db t d : ℕ) (fb f : Bool)
    (xs : List Cell)
    → Doubly h prev p ((b, db, fb) ∷ (xs ++ (t, d, f) ∷ [])) last
    → end_of b xs ≢ t
end_ne h prev p last b db t d fb f [] (e, (n, at, un, v)) = un.0
end_ne h prev p last b db t d fb f ((c, dc, fc) ∷ xs) (e, (n, at, un, v)) =
    end_ne h (some b) n last c dc t d fc f xs v

pub set_next_other :
    (h : ℕ → Option ListElement) (a j : ℕ) (v : Option ℕ) → a ≢ j → set_next h a v j ≡ h j
set_next_other h a j v ne = elim (Option-cases (h a)) [
  | inl e ↦ rw (e, set_next) refl
  | inr (x, e) ↦ (set_next_at h a v x e).1 j ne
]

-- The last element of the list is taken, its data pointer is handed out and the element freed.
pub linked_list_remove-Repr :
    (l : ListState) (t d : ℕ) (f : Bool) (xs : List Cell)
    → Repr l (xs ++ (t, d, f) ∷ [])
    → (l' : ListState) × (linked_list_remove (some l) ≡ (success, some d, some l'))
      × Repr l' xs
      × (l'.heap t ≡ none)
unfolding linked_list_remove
linked_list_remove-Repr l t d f [] v =
    let (e, (n, at, un, (z, last))) = v.linked in
    (
      record l { p_head = none; p_tail = none; heap = store l.heap t none },
      rw (last, at, linked_list_remove) refl,
      record { linked = (refl, refl) },
      stored_at l.heap t none,
    )
linked_list_remove-Repr l t d f ((b, db, fb) ∷ xs) v =
    let (last, at) = at_last l.heap none l.p_head l.p_tail b db t d fb f xs v.linked in
    let q = end_of b xs in
    let ne : q ≢ t = end_ne l.heap none l.p_head l.p_tail b db t d fb f xs v.linked in
    let h1 = set_next l.heap q none in
    (
      record l { p_tail = some q; heap = store h1 t none },
      rw (last, at, linked_list_remove) refl,
      record {
        linked =
            cut_last l.heap (store h1 t none) none l.p_head l.p_tail b db t d fb f xs
              (λ j nq nt.
                stored_other h1 t j none (λ k. nt (sym k))
                ∙ set_next_other l.heap q j none (λ k. nq (sym k)))
              (λ e he.
                stored_other h1 t q none (λ k. ne (sym k)) ∙ (set_next_at l.heap q none e he).0)
              v.linked;
      },
      stored_at h1 t none,
    )

-- what `dealloc_func` is called with, in front of what it was called with before
abbrev pub dealloced_by : List Cell → List ℕ → List ℕ
dealloced_by [] acc = acc
dealloced_by ((a, d, f) ∷ xs) acc = dealloced_by xs (if f then d ∷ acc else acc)

abbrev pub AllFree : (ℕ → Option ListElement) → List Cell → Type 0
AllFree h [] = Unit {0}
AllFree h ((a, d, f) ∷ xs) = (h a ≡ none) × AllFree h xs

-- what the flush leaves
record Flushed (l : ListState) (xs : List Cell) (r : ListState) : Type 0 where
  head : r.p_head ≡ none
  freed : AllFree r.heap xs
  others : (j : ℕ) → NotIn j xs → r.heap j ≡ l.heap j
  calls : r.dealloced ≡ dealloced_by xs l.dealloced

flush_end : (fuel : ℕ) (l : ListState) → l.p_head ≡ none → flush_loop (suc fuel) l ≡ l
unfolding flush_loop
flush_end fuel l e = ground arith

flush_next :
    (fuel : ℕ) (l : ListState) (a : ℕ) (e : ListElement)
    → l.p_head ≡ some a
    → l.heap a ≡ some e
    → flush_loop (suc fuel) l
      ≡ flush_loop fuel (record l {
        p_head = e.next;
        heap = store l.heap a none;
        dealloced = if e.dealloc then e.data_ptr ∷ l.dealloced else l.dealloced;
      })
unfolding flush_loop
flush_next fuel l a e head at = rw (head, at, flush_loop) refl

flush_loop-Flushed :
    (fuel : ℕ) (l : ListState) (prev last : Option ℕ) (xs : List Cell)
    → length xs < fuel
    → Doubly l.heap prev l.p_head xs last
    → Flushed l xs (flush_loop fuel l)
unfolding flush_loop
flush_loop-Flushed zero l prev last xs h v = absurd (omega arith)
flush_loop-Flushed (suc fuel) l prev last [] h (e, z) =
    subst (λ r. Flushed l [] r) (sym (flush_end fuel l e))
      (record { head = e; freed = tt; others = λ j o. refl; calls = refl })
flush_loop-Flushed (suc fuel) l prev last ((a, d, f) ∷ xs) h (e, (n, at, un, v)) =
    subst (λ r. Flushed l ((a, d, f) ∷ xs) r) (sym (flush_next fuel l a _ e at))
      (freed_first (
        flush_loop-Flushed fuel next (some a) last xs (omega arith) (
          Doubly-frame l.heap next.heap (some a) n xs last a
            (λ j ne. stored_other l.heap a j none ne) un v)))
  where
    next : ListState
    next = record l {
      p_head = n;
      heap = store l.heap a none;
      dealloced = if f then d ∷ l.dealloced else l.dealloced;
    }

    freed_first : {r : ListState} → Flushed next xs r → Flushed l ((a, d, f) ∷ xs) r
    freed_first {r} w = record {
      head = w.head;
      freed = (w.others a un ∙ stored_at l.heap a none, w.freed);
      others = λ j o. w.others j o.1 ∙ stored_other l.heap a j none (λ k. o.0 (sym k));
      calls = w.calls;
    }

-- With fuel for the whole list the flush frees every element and no other, calls `dealloc_func` on the
-- data of those that have it, the head first, and leaves an empty list.
pub linked_list_flush-Repr :
    (fuel : ℕ) (l : ListState) (xs : List Cell)
    → length xs < fuel
    → Repr l xs
    → (l' : ListState) × (linked_list_flush fuel (some l) ≡ (success, some l'))
      × Repr l' []
      × AllFree l'.heap xs
      × (l'.dealloced ≡ dealloced_by xs l.dealloced)
unfolding linked_list_flush
linked_list_flush-Repr fuel l xs h v =
    let w = flush_loop-Flushed fuel l none l.p_tail xs h v.linked in
    (
      record (flush_loop fuel l) { p_tail = none },
      refl,
      record { linked = (w.head, refl) },
      w.freed,
      w.calls,
    )
