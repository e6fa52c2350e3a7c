-- ===== src/LocApi/Agps.antt =====
-- gps/loc_api/libloc_api_50001/loc_eng_agps.cpp and loc_eng_agps.h: the state machine of the connection for
-- assisted GPS. `mSubscribers` is the list that gps/utils/linked_list.c holds, the head first; a pointer to
-- one of its subscribers is its position. What the machine sends is kept, the oldest first.
mod Subscribers
pub mod Inv
pub mod Events
pub mod Answers
pub mod Notify
pub mod Ds
use vibe_xperia.Prelude.{
  ℕ, zero, suc, ◌^◌, ◌-◌, Bool, true, false, not, ◌&&◌, ◌||◌, List, [], ◌∷◌, ◌++◌, Option, none,
  some, ◌==◌, if◌then◌else◌, length,
}
unfoldable pub use vibe_xperia.LocApi.Agps.Subscribers.*

-- `AgpsReleasedState`, `AgpsPendingState`, `AgpsAcquiredState` and `AgpsReleasingState`
pub data AgpsState : Type 0 where
  released : AgpsState
  pending : AgpsState
  acquired : AgpsState
  releasing : AgpsState

pub data AgpsStatusValue : Type 0 where
  gps_request_agps_data_conn : AgpsStatusValue
  gps_release_agps_data_conn : AgpsStatusValue

-- `sent` is told to the subscribers' clients, `requests` to the service of the connection. `freed_reads` is what
-- a read of a subscriber that has been deleted gives, which may be anything and never changes.
pub record AgpsStateMachine : Type 0 where
  pub state_ptr : AgpsState
  pub subscribers : List Subscriber
  pub enforce_single_subscriber : Bool
  pub sent : List Message
  pub requests : List AgpsStatusValue
  pub freed_reads : Subscriber

abbrev pub later : Option (ℕ × Subscriber) → Option (ℕ × Subscriber)
later none = none
later (some (i, r)) = some (suc i, r)

-- `linked_list_search` with `hasSubscriber`: the first subscriber that is meant, and its position
unfoldable pub search : Notification → List Subscriber → Option (ℕ × Subscriber)
search n [] = none
search n (s ∷ xs) = let rest = search n xs in if for_me n s then some (0, s) else later rest

abbrev pub is_found : Option (ℕ × Subscriber) → Bool
is_found none = false
is_found (some _) = true

-- The constructors of `Notification`
abbrev pub to_group : Group → AgpsRsrcStatus → Bool → Notification
to_group g st d = record { rcver = none; group_id = g; rsrc_status = st; post_notify_delete = d }

abbrev pub to_one : Subscriber → AgpsRsrcStatus → Bool → Notification
to_one s st d = record {
  rcver = some s;
  group_id = no_group;
  rsrc_status = st;
  post_notify_delete = d;
}

-- `linked_list_search` with `notifySubscriber`, which tells each subscriber that it visits: the messages,
-- and the list without the first subscriber that it returned true for, if there is one
unfoldable pub notify_search :
    Notification → List Subscriber → Bool × List Message × List Subscriber
notify_search n [] = (false, [], [])
notify_search n (s ∷ xs) =
    let (told, ms) = notify_rsrc_status n s in
    let (found, ms', rest) = notify_search n xs in
    if told && n.post_notify_delete then (true, ms, xs) else (found, ms ++ ms', s ∷ rest)

-- The notification after a search that deleted: a receiver is the deleted subscriber, so its memory is freed.
abbrev pub after_delete : Subscriber → Notification → Notification
after_delete freed n = record n { rcver = elim n.rcver [ none ↦ none | some r ↦ some freed ] }

-- The loop of `notifySubscribers`; the fuel bounds the searches.
unfoldable pub notify_loop :
    Subscriber → ℕ → Notification → List Subscriber → List Message × List Subscriber
notify_loop freed zero n xs = ([], xs)
notify_loop freed (suc f) n xs =
    let (found, ms, rest) = notify_search n xs in
    let (ms', rest') = notify_loop freed f (after_delete freed n) rest in
    if found then (ms ++ ms', rest') else (ms, rest)

unfoldable pub notify_subscribers : Notification → AgpsStateMachine → AgpsStateMachine
notify_subscribers n m =
    let (ms, rest) =
      if n.post_notify_delete
      then notify_loop m.freed_reads (suc (length m.subscribers)) n m.subscribers
      else ((notify_search n m.subscribers).1, m.subscribers) in
    record m { subscribers = rest; sent = m.sent ++ ms }

abbrev pub has_subscribers : AgpsStateMachine → Bool
has_subscribers m = elim m.subscribers [ [] ↦ false | _ ∷ _ ↦ true ]

unfoldable pub has_active_subscribers : AgpsStateMachine → Bool
has_active_subscribers m =
    is_found (search (to_group broadcast_active rsrc_status_max false) m.subscribers)

-- `clone()`, which is active
abbrev pub clone : Subscriber → Subscriber
clone s = record s { is_inactive = false }

unfoldable pub add_subscriber : Subscriber → AgpsStateMachine → AgpsStateMachine
add_subscriber s m =
    if is_found (search (to_one s rsrc_status_max false) m.subscribers)
    then m
    else record m { subscribers = clone s ∷ m.subscribers }

-- The service's result is not used; `mServicer->requestRsrc` gets the action.
unfoldable pub send_rsrc_request : AgpsStatusValue → AgpsStateMachine → AgpsStateMachine
send_rsrc_request action m = elim action [
  | gps_request_agps_data_conn ↦
      if has_active_subscribers m
      then record m { requests = m.requests ++ gps_request_agps_data_conn ∷ [] }
      else m
  | gps_release_agps_data_conn ↦
      if has_active_subscribers m
      then m
      else record m { requests = m.requests ++ gps_release_agps_data_conn ∷ [] }
]

-- `setInactive` of the subscriber at a position; that of a DSSubscriber also informs of the end.
unfoldable pub set_inactive : ℕ → List Subscriber → List Subscriber
set_inactive i [] = []
set_inactive zero (s ∷ xs) = record s { is_inactive = true } ∷ xs
set_inactive (suc i) (s ∷ xs) = s ∷ set_inactive i xs

abbrev pub informs : Subscriber → List Message
informs s = elim s.kind [
  | bit ↦ []
  | atl ↦ []
  | wifi ↦ []
  | ds ↦ inform_status rsrc_unsubscribe s.id ∷ []
]

-- The same first lines of RSRC_UNSUBSCRIBE in three of the states, for the subscriber at a position
unfoldable pub leave : ℕ → Subscriber → AgpsStateMachine → AgpsStateMachine
leave i s m =
    if wait_for_close_complete s
    then record m { subscribers = set_inactive i m.subscribers; sent = m.sent ++ informs s }
    else notify_subscribers (to_one s rsrc_unsubscribe true) m

-- The events with their data: RSRC_SUBSCRIBE a subscriber, RSRC_UNSUBSCRIBE one of the list
pub data Event : Type 0 where
  subscribe : Subscriber → Event
  unsubscribe : ℕ → Subscriber → Event
  granted : Event
  released_now : Event
  denied : Event

abbrev pub moved : AgpsState → AgpsStateMachine → AgpsStateMachine
moved st m = record m { state_ptr = st }

-- The other lines of RSRC_UNSUBSCRIBE in the states pending and acquired
abbrev pub after_leave : AgpsStateMachine → AgpsStateMachine
after_leave m =
    if not (has_subscribers m)
    then moved released (send_rsrc_request gps_release_agps_data_conn m)
    else if not (has_active_subscribers m)
    then moved releasing (send_rsrc_request gps_release_agps_data_conn m)
    else m

-- `sendRsrcRequest` of AgpsStateMachine returns 0.
unfoldable pub on_event_released : Event → AgpsStateMachine → AgpsStateMachine
on_event_released (subscribe s) m =
    moved pending (send_rsrc_request gps_request_agps_data_conn (add_subscriber s m))
on_event_released (unsubscribe i s) m = record m {
  sent = m.sent ++ (notify_rsrc_status (to_one s rsrc_unsubscribe false) s).1;
}
on_event_released granted m = m
on_event_released released_now m = m
on_event_released denied m = m

unfoldable pub on_event_pending : Event → AgpsStateMachine → AgpsStateMachine
on_event_pending (subscribe s) m = add_subscriber s m
on_event_pending (unsubscribe i s) m = after_leave (leave i s m)
on_event_pending granted m =
    moved acquired (notify_subscribers (to_group broadcast_active rsrc_granted false) m)
on_event_pending released_now m = m
on_event_pending denied m =
    moved released (notify_subscribers (to_group broadcast_all rsrc_denied true) m)

unfoldable pub on_event_acquired : Event → AgpsStateMachine → AgpsStateMachine
on_event_acquired (subscribe s) m =
    add_subscriber s
      (record m { sent = m.sent ++ (notify_rsrc_status (to_one s rsrc_granted false) s).1 })
on_event_acquired (unsubscribe i s) m = after_leave (leave i s m)
on_event_acquired granted m = m
on_event_acquired released_now m =
    moved released (notify_subscribers (to_group broadcast_all rsrc_released true) m)
on_event_acquired denied m = m

-- The end of the cases RSRC_DENIED and RSRC_RELEASED in the state releasing
abbrev pub reopen : AgpsStateMachine → AgpsStateMachine
reopen m =
    if has_active_subscribers m
    then moved pending (send_rsrc_request gps_request_agps_data_conn m)
    else moved released m

unfoldable pub on_event_releasing : Event → AgpsStateMachine → AgpsStateMachine
on_event_releasing (subscribe s) m = add_subscriber s m
on_event_releasing (unsubscribe i s) m =
    let u = leave i s m in if has_subscribers u then u else moved released u
on_event_releasing granted m = m
on_event_releasing released_now m =
    reopen (notify_subscribers (to_group broadcast_inactive rsrc_released true) m)
on_event_releasing denied m =
    reopen (notify_subscribers (to_group broadcast_inactive rsrc_denied true) m)

abbrev pub handler : AgpsState → Event → AgpsStateMachine → AgpsStateMachine
handler released = on_event_released
handler pending = on_event_pending
handler acquired = on_event_acquired
handler releasing = on_event_releasing

-- `mStatePtr->onRsrcEvent`
unfoldable pub on_event : Event → AgpsStateMachine → AgpsStateMachine
on_event e m = handler m.state_ptr e m

unfoldable pub subscribe_rsrc : Subscriber → AgpsStateMachine → AgpsStateMachine
subscribe_rsrc s m =
    if m.enforce_single_subscriber && has_subscribers m
    then record m {
      sent = m.sent ++ (notify_rsrc_status (to_group broadcast_all rsrc_denied true) s).1;
    }
    else on_event (subscribe s) m

-- The result is whether the subscriber was found.
unfoldable pub unsubscribe_rsrc : Subscriber → AgpsStateMachine → Bool × AgpsStateMachine
unsubscribe_rsrc s m = elim (search (to_one s rsrc_status_max false) m.subscribers) [
  | none ↦ (false, m)
  | some (i, r) ↦ (true, on_event (unsubscribe i r) m)
]

-- `AgpsStateMachine::onRsrcEvent`
unfoldable pub on_rsrc_event : AgpsRsrcStatus → AgpsStateMachine → AgpsStateMachine
on_rsrc_event rsrc_granted m = on_event granted m
on_rsrc_event rsrc_released m = on_event released_now m
on_rsrc_event rsrc_denied m = on_event denied m
on_rsrc_event rsrc_subscribe m = m
on_rsrc_event rsrc_unsubscribe m = m
on_rsrc_event rsrc_status_max m = m

-- The machine as it is constructed
abbrev pub new_machine : Subscriber → Bool → AgpsStateMachine
new_machine freed enforce = record {
  state_ptr = released;
  subscribers = [];
  enforce_single_subscriber = enforce;
  sent = [];
  requests = [];
  freed_reads = freed;
}
