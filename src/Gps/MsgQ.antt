-- ===== src/Gps/MsgQ.antt =====
-- gps/utils/msg_q.c: the message queue on the linked list. Each operation runs under the queue's mutex and is
-- one step; the waits are answered with `none`.
pub mod Fifo
pub mod Life
use vibe_xperia.Prelude.{
  ℕ, zero, suc, ◌+◌, not, ◌&&◌, Bool, true, false, Option, none, some, ℤ, ltb, is_err,
  if◌then◌else◌,
}
use vibe_xperia.Gps.LinkedList.{
  LinkedListErr, success, failure_general, invalid_parameter, invalid_handle, unavailable_resource,
  insufficient_buffer, ListState, linked_list_add, linked_list_remove, linked_list_empty,
  linked_list_flush, ListElement, linked_list_init, linked_list_destroy,
}

-- `msq_q_err_type`
pub data MsgQErr : Type 0 where
  q_success : MsgQErr
  q_failure_general : MsgQErr
  q_invalid_parameter : MsgQErr
  q_invalid_handle : MsgQErr
  q_unavailable_resource : MsgQErr
  q_insufficient_buffer : MsgQErr

-- `msg_q`; `signals` counts the calls of `pthread_cond_signal`, `broadcasts` those of the broadcast.
pub record MsgQ : Type 0 where
  pub msg_list : Option ListState
  pub unblocked : Bool
  pub signals : ℕ
  pub broadcasts : ℕ

unfoldable pub convert_linked_list_err_type : LinkedListErr → MsgQErr
convert_linked_list_err_type success = q_success
convert_linked_list_err_type invalid_parameter = q_invalid_parameter
convert_linked_list_err_type invalid_handle = q_invalid_handle
convert_linked_list_err_type unavailable_resource = q_unavailable_resource
convert_linked_list_err_type insufficient_buffer = q_insufficient_buffer
convert_linked_list_err_type failure_general = q_failure_general

-- What the platform answers to the calls of `msg_q_init`
pub record Resources : Type 0 where
  pub calloc_queue : Bool
  pub calloc_list : Bool
  pub mutex_init : Bool
  pub cond_init : Bool

-- `*msg_q_data` of an address that is not NULL, after `linked_list_init` has answered
abbrev pub init_sync :
    Resources → Option MsgQ → LinkedListErr → Option ListState → MsgQErr × Option MsgQ
init_sync r old success l =
    if not r.mutex_init
    then (q_failure_general, old)
    else if not r.cond_init
    then (q_failure_general, old)
    else (q_success, some (record { msg_list = l; unblocked = false; signals = 0; broadcasts = 0 }))
init_sync r old err l = (q_failure_general, old)

abbrev pub created : Option (Option ListState) → Option ListState
created none = none
created (some l) = l

-- `msg_q_data` is `none` when it is NULL, or else what it points at. On a failure the list, the mutex and
-- the queue that were there already are given back, and what it points at stays.
unfoldable pub msg_q_init :
    Option (Option MsgQ) → Resources → (ℕ → Option ListElement) → MsgQErr × Option (Option MsgQ)
msg_q_init none r heap = (q_invalid_parameter, none)
msg_q_init (some old) r heap = elim r.calloc_queue [
  | false ↦ (q_failure_general, some old)
  | true ↦
      let (err, l) = linked_list_init (some none) r.calloc_list heap in
      let (q_err, q) = init_sync r old err (created l) in (q_err, some q)
]

abbrev pub if_success : MsgQErr × Option (Option MsgQ) → Option MsgQ
if_success (q_success, some q) = q
if_success (_, _) = none

unfoldable pub msg_q_init2 : Resources → (ℕ → Option ListElement) → Option MsgQ
msg_q_init2 r heap = if_success (msg_q_init (some none) r heap)

-- `none` is NULL for `msg_q_data`; what it points at is a queue, since the code does not test it. The last
-- part is the list after its flush.
unfoldable pub msg_q_destroy : ℕ → Option MsgQ → MsgQErr × Option (Option MsgQ) × Option ListState
msg_q_destroy fuel none = (q_invalid_handle, none, none)
msg_q_destroy fuel (some q) = (q_success, some none, (linked_list_destroy fuel (some q.msg_list)).2)

-- A message of 0 is NULL; `malloc` is what the list's allocation returns.
unfoldable pub msg_q_snd : Option MsgQ → ℕ → Bool → Option ℕ → MsgQErr × Option MsgQ
msg_q_snd none msg dealloc malloc = (q_invalid_handle, none)
msg_q_snd (some q) zero dealloc malloc = (q_invalid_parameter, some q)
msg_q_snd (some q) (suc m) dealloc malloc = elim q.unblocked [
  | true ↦ (q_unavailable_resource, some q)
  | false ↦
      let (err, l) = linked_list_add q.msg_list (suc m) dealloc malloc in
      (convert_linked_list_err_type err, some (record q { msg_list = l; signals = q.signals + 1 }))
]

-- The loop of `msg_q_rcv` and what follows it, entered and after each wait: the error, the message and
-- the queue, or `none` while the caller waits.
unfoldable pub rcv_loop : MsgQ → Option (MsgQErr × Option ℕ × Option MsgQ)
rcv_loop q = elim (is_err (linked_list_empty q.msg_list) && not q.unblocked) [
  | true ↦ none
  | false ↦
      let (err, msg, l) = linked_list_remove q.msg_list in
      some (convert_linked_list_err_type err, msg, some (record q { msg_list = l }))
]

-- A caller that waits in `pthread_cond_wait` since the queue's broadcasts were `seen`: it sleeps until there is
-- another one, and then goes on in the loop with the queue as it is.
unfoldable pub wake_rcv : ℕ → MsgQ → Option (MsgQErr × Option ℕ × Option MsgQ)
unfolding rcv_loop
wake_rcv seen q = elim (ltb seen q.broadcasts) [ true ↦ rcv_loop q | false ↦ none ]

unfoldable pub msg_q_rcv : Option MsgQ → Option (MsgQErr × Option ℕ × Option MsgQ)
msg_q_rcv none = some (q_invalid_handle, none, none)
msg_q_rcv (some q) = elim q.unblocked [
  | true ↦ some (q_unavailable_resource, none, some q)
  | false ↦ rcv_loop q
]

unfoldable pub msg_q_flush : ℕ → Option MsgQ → MsgQErr × Option MsgQ
msg_q_flush fuel none = (q_invalid_handle, none)
msg_q_flush fuel (some q) =
    let (err, l) = linked_list_flush fuel q.msg_list in
    (convert_linked_list_err_type err, some (record q { msg_list = l }))

unfoldable pub msg_q_unblock : Option MsgQ → MsgQErr × Option MsgQ
msg_q_unblock none = (q_invalid_handle, none)
msg_q_unblock (some q) = elim q.unblocked [
  | true ↦ (q_unavailable_resource, some q)
  | false ↦ (q_success, some (record q { unblocked = true; broadcasts = q.broadcasts + 1 }))
]
