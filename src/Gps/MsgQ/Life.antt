-- ===== src/Gps/MsgQ/Life.antt =====
-- The life of a queue, from `msg_q_init` to `msg_q_destroy`.
use vibe_xperia.Prelude.{
  ℕ, ◌<◌, ◌≡◌, refl, ap, ◌∙◌, Bool, true, false, List, [], Option, none, some, length, ◌&&◌, inl,
  inr, ◌⊎◌,
}
use vibe_xperia.Gps.LinkedList.{ListElement, ListState, linked_list_init, linked_list_destroy}
use vibe_xperia.Gps.LinkedList.Repr.{Cell, AllFree, dealloced_by, linked_list_flush-Repr}
use vibe_xperia.Gps.MsgQ.{
  q_success, q_failure_general, MsgQ, Resources, msg_q_init, msg_q_init2, msg_q_destroy,
}
use vibe_xperia.Gps.MsgQ.Fifo.{Holds}

abbrev pub all_given : Resources → Bool
all_given r = r.calloc_queue && r.calloc_list && r.mutex_init && r.cond_init

abbrev pub fresh : (ℕ → Option ListElement) → MsgQ
fresh heap = record {
  msg_list = some (record { p_head = none; p_tail = none; heap = heap; dealloced = [] });
  unblocked = false;
  signals = 0;
  broadcasts = 0;
}

-- `msg_q_init` and `msg_q_init2` with the given resources
abbrev pub InitCases : Resources → Option MsgQ → (ℕ → Option ListElement) → Type 0
InitCases r old heap =
    ((all_given r ≡ true)
      × (msg_q_init (some old) r heap ≡ (q_success, some (some (fresh heap))))
      × (msg_q_init2 r heap ≡ some (fresh heap))
      × Holds (fresh heap) [])
    ⊎ ((all_given r ≡ false)
        × (msg_q_init (some old) r heap ≡ (q_failure_general, some old))
        × (msg_q_init2 r heap ≡ none))

init_cases :
    (queue list mutex cond : Bool) (old : Option MsgQ) (heap : ℕ → Option ListElement)
    → InitCases
        (record { calloc_queue = queue; calloc_list = list; mutex_init = mutex; cond_init = cond })
        old
        heap
unfolding msg_q_init msg_q_init2 linked_list_init
init_cases false list mutex cond old heap = inr (refl, refl, refl)
init_cases true false mutex cond old heap = inr (refl, refl, refl)
init_cases true true false cond old heap = inr (refl, refl, refl)
init_cases true true true false old heap = inr (refl, refl, refl)
init_cases true true true true old heap = inl (
  refl,
  refl,
  refl,
  record {
    open_now = refl;
    state = record { p_head = none; p_tail = none; heap = heap; dealloced = [] };
    list = refl;
    cells = record { linked = (refl, refl) };
  },
)

-- A queue is created exactly if the platform gives all that is asked of it: then it is open and empty, and
-- otherwise the caller's pointer is not written. `msg_q_init2` hands out the queue or NULL.
pub msg_q_init_lem :
    (r : Resources) (old : Option MsgQ) (heap : ℕ → Option ListElement) → InitCases r old heap
msg_q_init_lem r old heap =
    init_cases r.calloc_queue r.calloc_list r.mutex_init r.cond_init old heap

-- Destroying an open queue, with fuel for all its messages, frees every element, gives the messages that
-- have a `dealloc_func` to it, the latest first, and clears the caller's pointer.
pub msg_q_destroy-AllFree :
    (fuel : ℕ) (q : MsgQ) (xs : List Cell)
    → length xs < fuel
    → (v : Holds q xs)
    → (l' : ListState) × (msg_q_destroy fuel (some q) ≡ (q_success, some none, some l'))
      × AllFree l'.heap xs
      × (l'.dealloced ≡ dealloced_by xs v.state.dealloced)
unfolding msg_q_destroy linked_list_destroy
msg_q_destroy-AllFree fuel q xs h v =
    let (l', e, r, gone, calls) = linked_list_flush-Repr fuel v.state xs h v.cells in
    (
      l',
      ap (λ l. (q_success, some none, (linked_list_destroy fuel (some l)).2)) v.list
          ∙ ap (λ p. (q_success, some none, p.1)) e,
      gone,
      calls,
    )
