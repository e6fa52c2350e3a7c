-- ===== src/Gps/LinkedList/Search/Find.antt =====
-- What `linked_list_search` finds and takes out, on the list that the state holds.
use vibe_xperia.Prelude.{
  ℕ, zero, suc, ◌<◌, ◌≡◌, refl, ap, ◌∙◌, Bool, true, false, List, [], ◌∷◌, ◌++◌, Option, none, some,
  arith, if◌then◌else◌, length, not, ◌&&◌,
}
use vibe_xperia.Gps.LinkedList.{success, ListElement, ListState}
use vibe_xperia.Gps.LinkedList.Repr.{Cell, Doubly, Repr}
use vibe_xperia.Gps.LinkedList.Search.Unlink.{
  first, pred_of, cell, at_mid, unlink_element-Repr, unlink_element_gone, links_dealloced,
}
use vibe_xperia.Gps.LinkedList.Search.{unlink_element, put, is_set, search_loop, linked_list_search}

-- No element's data is what the caller looks for.
abbrev pub NoneEqual : (ℕ → Bool) → List Cell → Type 0
NoneEqual equal [] = Unit {0}
NoneEqual equal ((a, d, f) ∷ xs) = (equal d ≡ false) × NoneEqual equal xs

search_next :
    (fuel : ℕ) (equal : ℕ → Bool) (rm : Bool) (data_p : Option (Option ℕ)) (l : ListState) (a : ℕ)
    (e : ListElement)
    → l.heap a ≡ some e
    → equal e.data_ptr ≡ false
    → search_loop (suc fuel) equal rm data_p l (some a) ≡ search_loop fuel equal rm data_p l e.next
unfolding search_loop
search_next fuel equal rm data_p l a e at miss = rw (at, miss, search_loop) refl

search_found :
    (fuel : ℕ) (equal : ℕ → Bool) (rm : Bool) (data_p : Option (Option ℕ)) (l : ListState) (a : ℕ)
    (e : ListElement)
    → l.heap a ≡ some e
    → equal e.data_ptr ≡ true
    → search_loop (suc fuel) equal rm data_p l (some a)
      ≡ (put data_p (some e.data_ptr), if rm then unlink_element l a e data_p else l)
unfolding search_loop
search_found fuel equal rm data_p l a e at hit = rw (at, hit, search_loop) refl

-- The search passes the elements that do not fit.
search_loop-pass :
    (fuel : ℕ) (equal : ℕ → Bool) (rm : Bool) (data_p : Option (Option ℕ)) (l : ListState)
    (prev p last : Option ℕ) (xs ys : List Cell)
    → length xs < fuel
    → NoneEqual equal xs
    → Doubly l.heap prev p (xs ++ ys) last
    → (k : ℕ) × (search_loop fuel equal rm data_p l p
        ≡ search_loop (suc k) equal rm data_p l (first ys))
search_loop-pass zero equal rm data_p l prev p last xs ys h miss v = absurd (omega arith)
search_loop-pass (suc fuel) equal rm data_p l prev p last [] [] h miss (e, z) =
    (fuel, ap (search_loop (suc fuel) equal rm data_p l) e)
search_loop-pass (suc fuel) equal rm data_p l prev p last [] ((a, d, f) ∷ ys) h miss (e, z) =
    (fuel, ap (search_loop (suc fuel) equal rm data_p l) e)
search_loop-pass (suc fuel) equal rm data_p l prev p last ((a, d, f) ∷ xs) ys h miss
      (e, (n, at, un, v)) =
    let (k, q) =
      search_loop-pass fuel equal rm data_p l (some a) n last xs ys (omega arith) miss.1 v in
    (
      k,
      ap (search_loop (suc fuel) equal rm data_p l) e
          ∙ search_next fuel equal rm data_p l a _ at miss.0
          ∙ q,
    )

tail_set :
    (h : ℕ → Option ListElement) (prev p last : Option ℕ) (x : Cell) (xs : List Cell)
    → Doubly h prev p (x ∷ xs) last
    → (t : ℕ) × (last ≡ some t)
tail_set h prev p last (a, d, f) [] (e, (n, at, un, v)) = (a, v.1)
tail_set h prev p last (a, d, f) (y ∷ xs) (e, (n, at, un, v)) = tail_set h (some a) n last y xs v

some_tail :
    (h : ℕ → Option ListElement) (prev p last : Option ℕ) (xs ys : List Cell) (x : Cell)
    → Doubly h prev p (xs ++ x ∷ ys) last
    → (t : ℕ) × (last ≡ some t)
some_tail h prev p last [] ys x v = tail_set h prev p last x ys v
some_tail h prev p last (y ∷ xs) ys x v = tail_set h prev p last y (xs ++ x ∷ ys) v

if_some :
    {A : Type 0} (o : Option ℕ) (t : ℕ) (x y : A)
    → o ≡ some t
    → (elim o [ none ↦ x | some _ ↦ y ]) ≡ y
if_some none t x y e = cc
if_some (some a) t x y e = refl

search_starts :
    (fuel : ℕ) (equal : ℕ → Bool) (rm : Bool) (data_p : Option (Option ℕ)) (l : ListState) (t : ℕ)
    → l.p_tail ≡ some t
    → linked_list_search fuel (some l) data_p (some equal) rm ≡ (
      success,
      (search_loop fuel equal rm (put data_p none) l l.p_head).0,
      some (search_loop fuel equal rm (put data_p none) l l.p_head).1,
    )
unfolding linked_list_search
search_starts fuel equal rm data_p l t e = if_some l.p_tail t _ _ e

-- The search on a list, of which an element fits and none before it.
search_meets :
    (fuel : ℕ) (equal : ℕ → Bool) (rm : Bool) (data_p : Option (Option ℕ)) (l : ListState) (t d : ℕ)
    (f : Bool) (xs ys : List Cell)
    → length xs < fuel
    → Repr l (xs ++ (t, d, f) ∷ ys)
    → NoneEqual equal xs
    → equal d ≡ true
    → linked_list_search fuel (some l) data_p (some equal) rm ≡ (
      success,
      put (put data_p none) (some d),
      some (if rm then unlink_element l t (cell ys (pred_of none xs) d f) (put data_p none) else l),
    )
search_meets fuel equal rm data_p l t d f xs ys h v miss hit =
    let (u, last) = some_tail l.heap none l.p_head l.p_tail xs ys (t, d, f) v.linked in
    let (k, pass) =
      search_loop-pass fuel equal rm (put data_p none) l none l.p_head l.p_tail xs ((t, d, f) ∷ ys)
        h miss v.linked in
    let (at, un, w) = at_mid l.heap none l.p_head l.p_tail t d f xs ys v.linked in
    search_starts fuel equal rm data_p l u last
    ∙ ap (λ r. (success, r.0, some r.1))
        (pass ∙ search_found k equal rm (put data_p none) l t _ at hit)

-- With fuel for the whole list, the first element that fits is found; when it is to be removed, the list
-- keeps the others in order, the element is freed, and its data is given to `dealloc_func` exactly if it
-- has one and the caller does not take the data.
pub linked_list_search-Repr :
    (fuel : ℕ) (equal : ℕ → Bool) (data_p : Option (Option ℕ)) (l : ListState) (t d : ℕ) (f : Bool)
    (xs ys : List Cell)
    → length xs < fuel
    → Repr l (xs ++ (t, d, f) ∷ ys)
    → NoneEqual equal xs
    → equal d ≡ true
    → (linked_list_search fuel (some l) data_p (some equal) false
        ≡ (success, put data_p (some d), some l))
      × ((l' : ListState) × (linked_list_search fuel (some l) data_p (some equal) true
            ≡ (success, put data_p (some d), some l'))
          × Repr l' (xs ++ ys)
          × (l'.heap t ≡ none)
          × (l'.dealloced ≡ (if not (is_set data_p) && f then d ∷ l.dealloced else l.dealloced)))
linked_list_search-Repr fuel equal none l t d f xs ys h v miss hit = (
  search_meets fuel equal false none l t d f xs ys h v miss hit,
  (
    unlink_element l t (cell ys (pred_of none xs) d f) none,
    search_meets fuel equal true none l t d f xs ys h v miss hit,
    unlink_element-Repr l none t d f xs ys v,
    unlink_element_gone l none t (cell ys (pred_of none xs) d f),
    ap (λ ds. if f then d ∷ ds else ds) (links_dealloced l (first ys) (pred_of none xs)),
  ),
)
linked_list_search-Repr fuel equal (some old) l t d f xs ys h v miss hit = (
  search_meets fuel equal false (some old) l t d f xs ys h v miss hit,
  (
    unlink_element l t (cell ys (pred_of none xs) d f) (some none),
    search_meets fuel equal true (some old) l t d f xs ys h v miss hit,
    unlink_element-Repr l (some none) t d f xs ys v,
    unlink_element_gone l (some none) t (cell ys (pred_of none xs) d f),
    links_dealloced l (first ys) (pred_of none xs),
  ),
)
