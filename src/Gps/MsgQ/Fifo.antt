-- ===== src/Gps/MsgQ/Fifo.antt =====
-- The queue as a list of messages, the latest first.
use vibe_xperia.Prelude.{
  ℕ, suc, ◌+◌, ◌≡◌, refl, ap, ◌∙◌, Bool, true, false, List, [], ◌∷◌, ◌++◌, Option, none, some,
  is_err, not, ◌&&◌,
}
use vibe_xperia.Gps.LinkedList.{ListState, linked_list_empty}
use vibe_xperia.Gps.LinkedList.Repr.{Cell, Repr, linked_list_add-Repr, linked_list_remove-Repr}
use vibe_xperia.Gps.MsgQ.{
  q_success, q_unavailable_resource, MsgQ, convert_linked_list_err_type, msg_q_snd, msg_q_rcv,
  rcv_loop, msg_q_unblock,
}

-- A queue that is open and holds the messages of the cells.
pub record Holds (q : MsgQ) (xs : List Cell) : Type 0 where
  pub open_now : q.unblocked ≡ false
  pub state : ListState
  pub list : q.msg_list ≡ some state
  pub cells : Repr state xs

pub if_open : {A : Type 0} (b : Bool) (x y : A) → b ≡ false → (elim b [ true ↦ x | false ↦ y ]) ≡ y
if_open true x y e = cc
if_open false x y e = refl

not_empty :
    (l : ListState) (c : Cell) (xs : List Cell)
    → Repr l (xs ++ c ∷ [])
    → is_err (linked_list_empty (some l)) ≡ false
unfolding linked_list_empty
not_empty l (a, d, f) [] v = rw v.linked.0 refl
not_empty l c ((a, d, f) ∷ xs) v = rw v.linked.0 refl

-- Sending a message to an open queue, with memory for its element, puts it in front of those that wait.
pub msg_q_snd-Holds :
    (q : MsgQ) (m new : ℕ) (f : Bool) (xs : List Cell)
    → (v : Holds q xs) → v.state.heap new ≡ none
    → (q' : MsgQ) × (msg_q_snd (some q) (suc m) f (some new) ≡ (q_success, some q'))
      × Holds q' ((new, suc m, f) ∷ xs)
unfolding msg_q_snd convert_linked_list_err_type
msg_q_snd-Holds q m new f xs v free =
    let (l', e, r) = linked_list_add-Repr v.state m new f xs free v.cells in
    (
      record q { msg_list = some l'; signals = q.signals + 1 },
      if_open q.unblocked _ _ v.open_now ∙ rw (v.list, e) refl,
      record { open_now = v.open_now; state = l'; list = refl; cells = r },
    )

-- Receiving from an open queue that holds messages does not wait and takes the oldest.
pub msg_q_rcv-Holds :
    (q : MsgQ) (t d : ℕ) (f : Bool) (xs : List Cell)
    → Holds q (xs ++ (t, d, f) ∷ [])
    → (q' : MsgQ) × (msg_q_rcv (some q) ≡ some (q_success, some d, some q')) × Holds q' xs
unfolding msg_q_rcv rcv_loop convert_linked_list_err_type
msg_q_rcv-Holds q t d f xs v =
    let (l', e, r, gone) = linked_list_remove-Repr v.state t d f xs v.cells in
    (
      record q { msg_list = some l' },
      if_open q.unblocked _ _ v.open_now
          ∙ if_open (is_err (linked_list_empty q.msg_list) && not q.unblocked) _ _ (
              ap (λ l. is_err (linked_list_empty l) && not q.unblocked) v.list
              ∙ ap (λ b. b && not q.unblocked) (not_empty v.state (t, d, f) xs v.cells))
          ∙ rw (v.list, e) refl,
      record { open_now = v.open_now; state = l'; list = refl; cells = r },
    )

-- After `msg_q_unblock` of an open queue both sending and receiving are refused, and the queue stays.
pub msg_q_unblock_closes :
    (q : MsgQ) (m : ℕ) (f : Bool) (malloc : Option ℕ)
    → q.unblocked ≡ false
    → (q' : MsgQ) × (msg_q_unblock (some q) ≡ (q_success, some q'))
      × (msg_q_snd (some q') (suc m) f malloc ≡ (q_unavailable_resource, some q'))
      × (msg_q_rcv (some q') ≡ some (q_unavailable_resource, none, some q'))
      × (msg_q_unblock (some q') ≡ (q_unavailable_resource, some q'))
unfolding msg_q_unblock msg_q_snd msg_q_rcv
msg_q_unblock_closes q m f malloc o = (
  record q { unblocked = true; broadcasts = q.broadcasts + 1 },
  if_open q.unblocked _ _ o,
  refl,
  refl,
  refl,
)
