-- ===== src/Gps/Tests.antt =====
-- Runs of gps/utils on lists of two elements.
use vibe_xperia.Prelude.{
  ℕ, ◌≡◌, refl, Bool, true, false, [], ◌∷◌, Option, none, some, arith, ◌==◌, if◌then◌else◌,
}
use vibe_xperia.Gps.LinkedList.{success, ListElement, ListState, linked_list_remove}
use vibe_xperia.Gps.LinkedList.Search.{linked_list_search, put}
use vibe_xperia.Gps.LinkedList.Search.Find.{linked_list_search-Repr}
use vibe_xperia.Gps.LinkedList.Repr.{Repr, linked_list_remove-Repr}
use vibe_xperia.Gps.MsgQ.{q_success, MsgQ, msg_q_rcv}
use vibe_xperia.Gps.MsgQ.Fifo.{Holds, msg_q_rcv-Holds}

abbrev element : Option ℕ → Option ℕ → ℕ → Bool → Option ListElement
element next prev d f = some (record { next = next; prev = prev; data_ptr = d; dealloc = f })

-- The data 7 and 8, at the addresses 10 and 11.
abbrev two : ListState
two = record {
  p_head = some 10;
  p_tail = some 11;
  heap = λ j.
      if j == 10
      then element (some 11) none 7 true
      else if j == 11
      then element none (some 10) 8 false
      else none;
  dealloced = [];
}

abbrev empty : ListState
empty = record { p_head = none; p_tail = none; heap = λ j. none; dealloced = [] }

two-Repr : Repr two ((10, 7, true) ∷ (11, 8, false) ∷ [])
two-Repr = record {
  linked = (refl, (some 11, refl, (omega arith, tt), (refl, (none, refl, tt, (refl, refl)))));
}

abbrev queue : ListState → MsgQ
queue l = record { msg_list = some l; unblocked = false; signals = 0; broadcasts = 0 }

abbrev two_holds : Holds (queue two) ((10, 7, true) ∷ (11, 8, false) ∷ [])
two_holds = record { open_now = refl; state = two; list = refl; cells = two-Repr }

linked_list_remove-Repr_example :
    (l' : ListState) × (linked_list_remove (some two) ≡ (success, some 8, some l'))
    × Repr l' ((10, 7, true) ∷ [])
    × (l'.heap 11 ≡ none)
linked_list_remove-Repr_example =
    linked_list_remove-Repr two 11 8 false ((10, 7, true) ∷ []) two-Repr

msg_q_rcv-Holds_example :
    (q' : MsgQ) × (msg_q_rcv (some (queue two)) ≡ some (q_success, some 8, some q'))
    × Holds q' ((10, 7, true) ∷ [])
msg_q_rcv-Holds_example = msg_q_rcv-Holds (queue two) 11 8 false ((10, 7, true) ∷ []) two_holds

abbrev is_eight : ℕ → Bool
is_eight d = d == 8

linked_list_search-Repr_example :
    (linked_list_search 2 (some two) (some none) (some is_eight) false
      ≡ (success, put (some none) (some 8), some two))
    × ((l' : ListState) × (linked_list_search 2 (some two) (some none) (some is_eight) true
          ≡ (success, put (some none) (some 8), some l'))
        × Repr l' ((10, 7, true) ∷ [])
        × (l'.heap 11 ≡ none)
        × (l'.dealloced ≡ []))
linked_list_search-Repr_example =
    linked_list_search-Repr 2 is_eight (some none) two 11 8 false ((10, 7, true) ∷ []) []
      (omega arith) two-Repr (refl, tt) refl
