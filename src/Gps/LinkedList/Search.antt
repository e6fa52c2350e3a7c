-- ===== src/Gps/LinkedList/Search.antt =====
-- `linked_list_search` of gps/utils/linked_list.c. `equal` is a test of the caller's data against an
-- element's data that does not use the list.
pub mod Unlink
pub mod Find
use vibe_xperia.Prelude.{
  ℕ, zero, suc, Bool, true, false, ◌∷◌, Option, none, some, ◌&&◌, not, if◌then◌else◌,
}
use vibe_xperia.Gps.LinkedList.{
  LinkedListErr, success, invalid_handle, unavailable_resource, ListElement, ListState, set_prev,
  set_next, free,
}

-- `if( NULL == tmp->prev ) p_head = tmp->next; else tmp->prev->next = tmp->next;`
abbrev pub link_prev : ListState → Option ℕ → Option ℕ → ListState
link_prev l none next = record l { p_head = next }
link_prev l (some p) next = record l { heap = set_next l.heap p next }

-- `if( NULL == tmp->next ) p_tail = tmp->prev; else tmp->next->prev = tmp->prev;`
abbrev pub link_next : ListState → Option ℕ → Option ℕ → ListState
link_next l none prev = record l { p_tail = prev }
link_next l (some n) prev = record l { heap = set_prev l.heap n prev }

abbrev pub is_set : Option (Option ℕ) → Bool
is_set none = false
is_set (some _) = true

-- `if( NULL == data_p && NULL != tmp->dealloc_func )`
abbrev pub drop_data : Option (Option ℕ) → ListElement → ListState → ListState
drop_data data_p e l = record l {
  dealloced = if not (is_set data_p) && e.dealloc then e.data_ptr ∷ l.dealloced else l.dealloced;
}

abbrev pub unlink_element : ListState → ℕ → ListElement → Option (Option ℕ) → ListState
unlink_element l a e data_p =
    free (drop_data data_p e (link_next (link_prev l e.prev e.next) e.next e.prev)) a

-- `if( NULL != data_p ) *data_p = v;`
abbrev pub put : Option (Option ℕ) → Option ℕ → Option (Option ℕ)
put none v = none
put (some old) v = some v

-- The loop from the element `tmp` on; the fuel bounds the elements.
unfoldable pub search_loop :
    ℕ → (ℕ → Bool) → Bool → Option (Option ℕ) → ListState → Option ℕ → Option (Option ℕ) × ListState
search_loop zero equal rm data_p l tmp = (data_p, l)
search_loop (suc f) equal rm data_p l none = (data_p, l)
search_loop (suc f) equal rm data_p l (some a) = elim (l.heap a) [
  | none ↦ (data_p, l)
  | some e ↦ elim (equal e.data_ptr) [
    | true ↦ (put data_p (some e.data_ptr), if rm then unlink_element l a e data_p else l)
    | false ↦ search_loop f equal rm data_p l e.next
  ]
]

-- `data_p` is `none` when it is NULL, or else what it points at; `equal` has its first argument `data_0`.
unfoldable pub linked_list_search :
    ℕ
    → Option ListState
    → Option (Option ℕ)
    → Option (ℕ → Bool)
    → Bool
    → LinkedListErr × Option (Option ℕ) × Option ListState
linked_list_search fuel none data_p equal rm = (invalid_handle, data_p, none)
linked_list_search fuel (some l) data_p none rm = (invalid_handle, data_p, some l)
linked_list_search fuel (some l) data_p (some equal) rm = elim l.p_tail [
  | none ↦ (unavailable_resource, data_p, some l)
  | some _ ↦
      let (found, l') = search_loop fuel equal rm (put data_p none) l l.p_head in
      (success, found, some l')
]
