-- ===== src/LocApi/Agps/Answers.antt =====
-- What the service's answers do to a pending connection, and to a subscription made while it is given back.
use vibe_xperia.Prelude.{
  ◌≡◌, refl, sym, ◌∙◌, ap, true, false, not, ◌&&◌, ◌||◌, List, [], ◌∷◌, ◌++◌, if_then, if_else, inl,
  inr, Bool-cases,
}
use vibe_xperia.LocApi.Agps.{
  AgpsState, released, pending, acquired, releasing, AgpsRsrcStatus, rsrc_released, rsrc_denied,
  rsrc_granted, rsrc_status_max, Subscriber, broadcast_active, broadcast_all, broadcast_inactive,
  to_group, to_one, inactive, for_me, search, is_found, AgpsStateMachine, has_subscribers,
  has_active_subscribers, add_subscriber, Event, handler, subscribe, granted, released_now, denied,
  moved, on_event_pending, on_event_releasing, reopen, on_event, subscribe_rsrc, on_rsrc_event,
}
use vibe_xperia.LocApi.Agps.Notify.{told, others, notify_delete, notify_subscribers_keep}
use vibe_xperia.LocApi.Agps.Inv.{some_active, others-all}

on_event_at :
    (st : AgpsState) (e : Event) (m : AgpsStateMachine)
    → m.state_ptr ≡ st
    → on_event e m ≡ handler st e m
unfolding on_event
on_event_at st e m q = ap (λ t. handler t e m) q

-- While a connection is pending, a grant is told to exactly the active subscribers, who stay; a denial is
-- told to all subscribers, who are removed; a release changes nothing. Nothing is asked of the service.
pub pending_answers :
    (m : AgpsStateMachine)
    → m.state_ptr ≡ pending
    → (on_rsrc_event rsrc_granted m ≡ record m {
      state_ptr = acquired;
      sent = m.sent ++ told (to_group broadcast_active rsrc_granted false) m.subscribers;
    })
      × (on_rsrc_event rsrc_denied m ≡ record m {
        state_ptr = released;
        subscribers = [];
        sent = m.sent ++ told (to_group broadcast_all rsrc_denied true) m.subscribers;
      })
      × (on_rsrc_event rsrc_released m ≡ m)
unfolding on_rsrc_event on_event on_event_pending
pending_answers m e = (
  on_event_at pending granted m e
      ∙ ap (moved acquired)
          (notify_subscribers_keep (to_group broadcast_active rsrc_granted false) m refl refl),
  on_event_at pending denied m e
      ∙ ap (moved released) (notify_delete broadcast_all rsrc_denied m refl)
      ∙ ap
          (λ xs. record m {
            state_ptr = released;
            subscribers = xs;
            sent = m.sent ++ told (to_group broadcast_all rsrc_denied true) m.subscribers;
          })
          (others-all rsrc_denied true m.subscribers),
  on_event_at pending released_now m e,
)

others-none_active :
    (st : AgpsRsrcStatus) (xs : List Subscriber)
    → some_active xs ≡ false
    → others (to_group broadcast_inactive st true) xs ≡ []
unfolding for_me
others-none_active st [] e = refl
others-none_active st (s ∷ xs) e = elim (Bool-cases (inactive s)) [
  | inl hit ↦ rw hit (others-none_active st xs (ap (λ b. not b || some_active xs) (sym hit) ∙ e))
  | inr miss ↦ cc (e, ap (λ b. not b || some_active xs) miss)
]

resubscribe_ignored :
    (s : Subscriber) (m : AgpsStateMachine)
    → m.state_ptr ≡ releasing
    → m.enforce_single_subscriber ≡ false
    → is_found (search (to_one s rsrc_status_max false) m.subscribers) ≡ true
    → subscribe_rsrc s m ≡ m
unfolding subscribe_rsrc on_event_releasing add_subscriber
resubscribe_ignored s m st single found =
    if_else (m.enforce_single_subscriber && has_subscribers m) _ _
      (ap (λ b. b && has_subscribers m) single)
    ∙ on_event_at releasing (subscribe s) m st
    ∙ if_then (is_found (search (to_one s rsrc_status_max false) m.subscribers)) _ _ found

-- the machine with nobody left, which has told those who waited
abbrev emptied : AgpsStateMachine → List Subscriber → AgpsStateMachine
emptied m xs = record m {
  subscribers = xs;
  sent = m.sent ++ told (to_group broadcast_inactive rsrc_released true) m.subscribers;
}

release_confirmed :
    (m : AgpsStateMachine)
    → m.state_ptr ≡ releasing
    → some_active m.subscribers ≡ false
    → on_rsrc_event rsrc_released m ≡ moved released (emptied m [])
unfolding on_rsrc_event on_event_releasing has_active_subscribers search
release_confirmed m st quiet =
    on_event_at releasing released_now m st
    ∙ ap reopen (notify_delete broadcast_inactive rsrc_released m refl)
    ∙ ap (λ xs. reopen (emptied m xs)) (others-none_active rsrc_released m.subscribers quiet)

-- A client that subscribes again while its connection is being given back, and all subscribers are
-- inactive, is not added: when the release is confirmed the machine forgets it without asking the service.
pub resubscribe_lost :
    (s : Subscriber) (m : AgpsStateMachine)
    → m.state_ptr ≡ releasing
    → m.enforce_single_subscriber ≡ false
    → some_active m.subscribers ≡ false
    → is_found (search (to_one s rsrc_status_max false) m.subscribers) ≡ true
    → (let u = on_rsrc_event rsrc_released (subscribe_rsrc s m) in
        (subscribe_rsrc s m ≡ m)
        × (u.state_ptr ≡ released)
        × (u.subscribers ≡ [])
        × (u.requests ≡ m.requests))
resubscribe_lost s m st single quiet found =
    let same = resubscribe_ignored s m st single found in
    let q = ap (on_rsrc_event rsrc_released) same ∙ release_confirmed m st quiet in
    (same, ap (λ u. u.state_ptr) q, ap (λ u. u.subscribers) q, ap (λ u. u.requests) q)
