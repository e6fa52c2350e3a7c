-- ===== src/Gps/LinkedList.antt =====
-- gps/utils/linked_list.c: a doubly linked list of allocated elements. The heap maps an address to the
-- element that is allocated there; `malloc` is a parameter, the address it returns or NULL. A handle that
-- is NULL is `none`. The data pointers that `dealloc_func` is called with are kept in `dealloced`.
pub mod Repr
pub mod Search
use vibe_xperia.Prelude.{
  ℕ, zero, suc, Bool, true, false, List, [], ◌∷◌, Option, none, some, ◌==◌, if◌then◌else◌, ℤ, pos,
  negsuc,
}

-- `linked_list_err_type`
pub data LinkedListErr : Type 0 where
  success : LinkedListErr
  failure_general : LinkedListErr
  invalid_parameter : LinkedListErr
  invalid_handle : LinkedListErr
  unavailable_resource : LinkedListErr
  insufficient_buffer : LinkedListErr

-- `list_element`; `dealloc` is whether `dealloc_func` is set.
pub record ListElement : Type 0 where
  pub next : Option ℕ
  pub prev : Option ℕ
  pub data_ptr : ℕ
  pub dealloc : Bool

-- `list_state`, the heap, and what has been given to `dealloc_func`, the latest first
pub record ListState : Type 0 where
  pub p_head : Option ℕ
  pub p_tail : Option ℕ
  pub heap : ℕ → Option ListElement
  pub dealloced : List ℕ

abbrev pub store : (ℕ → Option ListElement) → ℕ → Option ListElement → ℕ → Option ListElement
store h a v j = if j == a then v else h j

-- A write to a field of the element at an address; nothing where none is allocated.
abbrev pub set_prev : (ℕ → Option ListElement) → ℕ → Option ℕ → ℕ → Option ListElement
set_prev h a v = elim (h a) [ none ↦ h | some e ↦ store h a (some (record e { prev = v })) ]

abbrev pub set_next : (ℕ → Option ListElement) → ℕ → Option ℕ → ℕ → Option ListElement
set_next h a v = elim (h a) [ none ↦ h | some e ↦ store h a (some (record e { next = v })) ]

-- `if( tmp != NULL ) tmp->prev = p_head; else p_tail = p_head;`
abbrev link_head : ListState → Option ℕ → ℕ → ListState
link_head l none new = record l { p_tail = some new }
link_head l (some t) new = record l { heap = set_prev l.heap t (some new) }

-- A data pointer of 0 is NULL.
unfoldable pub linked_list_add :
    Option ListState → ℕ → Bool → Option ℕ → LinkedListErr × Option ListState
linked_list_add none data_obj dealloc malloc = (invalid_handle, none)
linked_list_add (some l) zero dealloc malloc = (invalid_parameter, some l)
linked_list_add (some l) (suc d) dealloc none = (failure_general, some l)
linked_list_add (some l) (suc d) dealloc (some new) = (
  success,
  some (
      link_head
        (record l {
          p_head = some new;
          heap =
              store l.heap new (
                some
                  (record { next = l.p_head; prev = none; data_ptr = suc d; dealloc = dealloc }));
        })
        l.p_head new),
)

-- `if( p_tail != NULL ) p_tail->next = NULL; else p_head = p_tail;`
abbrev cut_tail : ListState → Option ℕ → ListState
cut_tail l none = record l { p_head = none; p_tail = none }
cut_tail l (some t) = record l { p_tail = some t; heap = set_next l.heap t none }

abbrev pub free : ListState → ℕ → ListState
free l a = record l { heap = store l.heap a none }

-- The result, the data and the list; the output parameter is not NULL.
unfoldable pub linked_list_remove : Option ListState → LinkedListErr × Option ℕ × Option ListState
linked_list_remove none = (invalid_handle, none, none)
linked_list_remove (some l) = elim l.p_tail [
  | none ↦ (unavailable_resource, none, some l)
  | some t ↦ elim (l.heap t) [
    | none ↦ (unavailable_resource, none, some l)
    | some e ↦ (success, some e.data_ptr, some (free (cut_tail l e.prev) t))
  ]
]

abbrev is_null : Option ℕ → ℤ
is_null none = pos 1
is_null (some _) = pos 0

-- The value of `eLINKED_LIST_INVALID_HANDLE` is -3.
unfoldable pub linked_list_empty : Option ListState → ℤ
linked_list_empty none = negsuc 2
linked_list_empty (some l) = is_null l.p_head

-- The loop of `linked_list_flush`; the fuel bounds the elements.
unfoldable pub flush_loop : ℕ → ListState → ListState
flush_loop zero l = l
flush_loop (suc f) l = elim l.p_head [
  | none ↦ l
  | some a ↦ elim (l.heap a) [
    | none ↦ l
    | some e ↦ flush_loop f (record l {
      p_head = e.next;
      heap = store l.heap a none;
      dealloced = if e.dealloc then e.data_ptr ∷ l.dealloced else l.dealloced;
    })
  ]
]

unfoldable pub linked_list_flush : ℕ → Option ListState → LinkedListErr × Option ListState
linked_list_flush fuel none = (invalid_handle, none)
linked_list_flush fuel (some l) = (success, some (record (flush_loop fuel l) { p_tail = none }))

-- `list_data` is `none` when it is NULL, or else what it points at; `calloc` is whether the memory is
-- there, and `heap` holds the elements that are allocated.
unfoldable pub linked_list_init :
    Option (Option ListState)
    → Bool
    → (ℕ → Option ListElement)
    → LinkedListErr × Option (Option ListState)
linked_list_init none calloc heap = (invalid_parameter, none)
linked_list_init (some old) false heap = (failure_general, some old)
linked_list_init (some old) true heap =
    (success, some (some (record { p_head = none; p_tail = none; heap = heap; dealloced = [] })))

-- The last part is the list after the flush, before it is freed itself.
unfoldable pub linked_list_destroy :
    ℕ → Option (Option ListState) → LinkedListErr × Option (Option ListState) × Option ListState
linked_list_destroy fuel none = (invalid_handle, none, none)
linked_list_destroy fuel (some l) = (success, some none, (linked_list_flush fuel l).1)
