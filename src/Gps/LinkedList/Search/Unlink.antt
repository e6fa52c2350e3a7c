-- ===== src/Gps/LinkedList/Search/Unlink.antt =====
-- An element is taken out of the middle of the list.
use vibe_xperia.Prelude.{
  ℕ, ◌≡◌, ◌≢◌, refl, sym, subst, ◌∙◌, Bool, List, [], ◌∷◌, ◌++◌, Option, none, some,
}
use vibe_xperia.Gps.LinkedList.{ListElement, ListState, store, set_prev}
use vibe_xperia.Gps.LinkedList.Repr.{
  Cell, NotIn, Doubly, Repr, Doubly-frame, stored_at, stored_other, set_prev_at, set_next_at,
  set_next_other, end_of,
}
use vibe_xperia.Gps.LinkedList.Search.{link_prev, link_next, drop_data, unlink_element}

abbrev pub first : List Cell → Option ℕ
first [] = none
first ((a, d, f) ∷ xs) = some a

abbrev pub pred_of : Option ℕ → List Cell → Option ℕ
pred_of prev [] = prev
pred_of prev ((a, d, f) ∷ xs) = pred_of (some a) xs

NotIn-split :
    (a t d : ℕ) (f : Bool) (xs ys : List Cell)
    → NotIn a (xs ++ (t, d, f) ∷ ys)
    → NotIn a (xs ++ ys) × (a ≢ t) × NotIn a ys
NotIn-split a t d f [] ys n = (n.1, n.0, n.1)
NotIn-split a t d f (x ∷ xs) ys n =
    let (m, e, k) = NotIn-split a t d f xs ys n.1 in ((n.0, m), e, k)

-- What the list says of its element `t`, which stands between `xs` and `ys`.
pub at_mid :
    (h : ℕ → Option ListElement) (prev p last : Option ℕ) (t d : ℕ) (f : Bool) (xs ys : List Cell)
    → Doubly h prev p (xs ++ (t, d, f) ∷ ys) last
    → (h t ≡ some (record { next = first ys; prev = pred_of prev xs; data_ptr = d; dealloc = f }))
      × NotIn t ys
      × Doubly h (some t) (first ys) ys last
at_mid h prev p last t d f [] [] (e, (n, at, un, v)) = (at ∙ rw v.0 refl, un, (refl, v.1))
at_mid h prev p last t d f [] ((a, da, fa) ∷ ys) (e, (n, at, un, v)) =
    (at ∙ rw v.0 refl, un, (refl, v.1))
at_mid h prev p last t d f ((b, db, fb) ∷ xs) ys (e, (n, at, un, v)) =
    at_mid h (some b) n last t d f xs ys v

at_pred :
    (h : ℕ → Option ListElement) (prev p last : Option ℕ) (b db : ℕ) (fb : Bool)
    (xs rest : List Cell)
    → Doubly h prev p ((b, db, fb) ∷ (xs ++ rest)) last
    → NotIn (end_of b xs) rest
at_pred h prev p last b db fb [] rest (e, (n, at, un, v)) = un
at_pred h prev p last b db fb ((c, dc, fc) ∷ xs) rest (e, (n, at, un, v)) =
    at_pred h (some b) n last c dc fc xs rest v

pred_of-end_of : (b : ℕ) (xs : List Cell) → pred_of (some b) xs ≡ some (end_of b xs)
pred_of-end_of b [] = refl
pred_of-end_of b ((c, d, f) ∷ xs) = pred_of-end_of c xs

NotIn-before : (a c : ℕ) (xs rest : List Cell) → a ≢ c → NotIn a (xs ++ rest) → a ≢ end_of c xs
NotIn-before a c [] rest e n = e
NotIn-before a c ((b, _, _) ∷ xs) rest e n = NotIn-before a b xs rest n.0 n.1

-- The elements up to the one before `t` stay, that one is followed by `ys`.
splice :
    (h h' : ℕ → Option ListElement) (prev p last last' : Option ℕ) (b db t d : ℕ) (fb f : Bool)
    (xs ys : List Cell)
    → ((j : ℕ) → j ≢ end_of b xs → j ≢ t → NotIn j ys → h' j ≡ h j)
    → ((e : ListElement)
        → h (end_of b xs) ≡ some e
        → h' (end_of b xs) ≡ some (record e { next = first ys }))
    → Doubly h' (some (end_of b xs)) (first ys) ys last'
    → Doubly h prev p ((b, db, fb) ∷ (xs ++ (t, d, f) ∷ ys)) last
    → Doubly h' prev p ((b, db, fb) ∷ (xs ++ ys)) last'
splice h h' prev p last last' b db t d fb f [] ys keep cut tail (e, (n, at, un, v)) =
    (e, (first ys, cut _ at, un.1, tail))
splice h h' prev p last last' b db t d fb f ((c, dc, fc) ∷ xs) ys keep cut tail
      (e, (n, at, un, v)) =
    let (m, ne, out) = NotIn-split b t d f ((c, dc, fc) ∷ xs) ys un in
    (
      e,
      (
        n,
        keep b (NotIn-before b c xs ((t, d, f) ∷ ys) un.0 un.1) ne out ∙ at,
        m,
        splice h h' (some b) n last last' c dc t d fc f xs ys keep cut tail v,
      ),
    )

-- The list after the element gets another element before it, and nothing else changes.
link_next-Doubly :
    (l : ListState) (q prev : Option ℕ) (ys : List Cell)
    → Doubly l.heap q (first ys) ys l.p_tail
    → Doubly
        (link_next l (first ys) prev).heap
        prev
        (first ys)
        ys
        (link_next l (first ys) prev).p_tail
      × ((j : ℕ) → NotIn j ys → (link_next l (first ys) prev).heap j ≡ l.heap j)
link_next-Doubly l q prev [] v = ((refl, refl), λ j o. refl)
link_next-Doubly l q prev ((a, d, f) ∷ ys) (e, (n, at, un, v)) =
    let (set, others) = set_prev_at l.heap a prev _ at in
    (
      (
        refl,
        (
          n,
          set,
          un,
          Doubly-frame l.heap (set_prev l.heap a prev) (some a) n ys l.p_tail a others un v,
        ),
      ),
      λ j o. others j (λ k. o.0 (sym k)),
    )

link_next_head : (l : ListState) (n prev : Option ℕ) → (link_next l n prev).p_head ≡ l.p_head
link_next_head l none prev = refl
link_next_head l (some n) prev = refl

abbrev pub cell : List Cell → Option ℕ → ℕ → Bool → ListElement
cell ys prev d f = record { next = first ys; prev = prev; data_ptr = d; dealloc = f }

unlink_element-first :
    (l : ListState) (data_p : Option (Option ℕ)) (t d : ℕ) (f : Bool) (ys : List Cell)
    → Repr l ((t, d, f) ∷ ys)
    → Repr (unlink_element l t (cell ys none d f) data_p) ys
unlink_element-first l data_p t d f ys v =
    let (at, un, w) = at_mid l.heap none l.p_head l.p_tail t d f [] ys v.linked in
    let l1 = link_prev l none (first ys) in
    let (r, keep) = link_next-Doubly l1 (some t) none ys w in
    let l2 = link_next l1 (first ys) none in
    record {
      linked =
          subst (λ p. Doubly (store l2.heap t none) none p ys l2.p_tail)
            (sym (link_next_head l1 (first ys) none))
            (Doubly-frame l2.heap (store l2.heap t none) none (first ys) ys l2.p_tail t
              (λ j ne. stored_other l2.heap t j none ne) un r);
    }

unlink_element-later :
    (l : ListState) (data_p : Option (Option ℕ)) (b db t d : ℕ) (fb f : Bool) (xs ys : List Cell)
    → Repr l ((b, db, fb) ∷ (xs ++ (t, d, f) ∷ ys))
    → Repr (unlink_element l t (cell ys (some (end_of b xs)) d f) data_p) ((b, db, fb) ∷ (xs ++ ys))
unlink_element-later l data_p b db t d fb f xs ys v =
    let (at, un, w) = at_mid l.heap none l.p_head l.p_tail t d f ((b, db, fb) ∷ xs) ys v.linked in
    let q = end_of b xs in
    let (ne, out) = at_pred l.heap none l.p_head l.p_tail b db fb xs ((t, d, f) ∷ ys) v.linked in
    let l1 = link_prev l (some q) (first ys) in
    let other : (j : ℕ) → q ≢ j → l1.heap j ≡ l.heap j =
      λ j k. set_next_other l.heap q j (first ys) k in
    let (r, keep) =
      link_next-Doubly l1 (some t) (some q) ys
        (Doubly-frame l.heap l1.heap (some t) (first ys) ys l.p_tail q other out w) in
    let l2 = link_next l1 (first ys) (some q) in
    let h3 = store l2.heap t none in
    record {
      linked =
          splice l.heap h3 none l2.p_head l.p_tail l2.p_tail b db t d fb f xs ys
            (λ j nq nt o.
              stored_other l2.heap t j none (λ k. nt (sym k))
              ∙ keep j o
              ∙ other j (λ k. nq (sym k)))
            (λ e he.
              stored_other l2.heap t q none (λ k. ne (sym k))
              ∙ keep q out
              ∙ (set_next_at l.heap q (first ys) e he).0)
            (Doubly-frame l2.heap h3 (some q) (first ys) ys l2.p_tail t
              (λ j k. stored_other l2.heap t j none k) un r)
            (subst (λ p. Doubly l.heap none p ((b, db, fb) ∷ (xs ++ (t, d, f) ∷ ys)) l.p_tail)
              (sym (link_next_head l1 (first ys) (some q))) v.linked);
    }

pub unlink_element-Repr :
    (l : ListState) (data_p : Option (Option ℕ)) (t d : ℕ) (f : Bool) (xs ys : List Cell)
    → Repr l (xs ++ (t, d, f) ∷ ys)
    → Repr (unlink_element l t (cell ys (pred_of none xs) d f) data_p) (xs ++ ys)
unlink_element-Repr l data_p t d f [] ys v = unlink_element-first l data_p t d f ys v
unlink_element-Repr l data_p t d f ((b, db, fb) ∷ xs) ys v =
    subst (λ q. Repr (unlink_element l t (cell ys q d f) data_p) ((b, db, fb) ∷ (xs ++ ys)))
      (sym (pred_of-end_of b xs)) (unlink_element-later l data_p b db t d fb f xs ys v)

pub unlink_element_gone :
    (l : ListState) (data_p : Option (Option ℕ)) (a : ℕ) (e : ListElement)
    → (unlink_element l a e data_p).heap a ≡ none
unlink_element_gone l data_p a e =
    stored_at (drop_data data_p e (link_next (link_prev l e.prev e.next) e.next e.prev)).heap a none

pub links_dealloced :
    (l : ListState) (next prev : Option ℕ)
    → (link_next (link_prev l prev next) next prev).dealloced ≡ l.dealloced
links_dealloced l none none = refl
links_dealloced l none (some p) = refl
links_dealloced l (some n) none = refl
links_dealloced l (some n) (some p) = refl
