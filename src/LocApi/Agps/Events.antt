-- ===== src/LocApi/Agps/Events.antt =====
-- Every event and every call of the state machine keeps the invariant.
use vibe_xperia.Prelude.{
  ℕ, ◌≡◌, refl, sym, ◌∙◌, ap, subst, Bool, true, false, not, ◌&&◌, ◌||◌, List, [], ◌∷◌, ◌++◌,
  Option, none, some, if_then, if_else, inl, inr, Bool-cases,
}
use vibe_xperia.LocApi.Agps.{
  Message, AgpsState, released, pending, acquired, releasing, AgpsRsrcStatus, rsrc_released,
  rsrc_denied, rsrc_granted, rsrc_status_max, rsrc_unsubscribe, rsrc_subscribe, Subscriber,
  broadcast_active, broadcast_all, broadcast_inactive, to_group, to_one, inactive, search, is_news,
  notify_rsrc_status, AgpsStateMachine, notify_subscribers, has_subscribers, clone, add_subscriber,
  AgpsStatusValue, gps_request_agps_data_conn, leave, Event, subscribe, unsubscribe, granted,
  released_now, denied, moved, on_event_released, on_event_pending, on_event_acquired,
  on_event_releasing, reopen, on_event, subscribe_rsrc, unsubscribe_rsrc, on_rsrc_event,
}
use vibe_xperia.LocApi.Agps.Notify.{notify_delete, notify_subscribers_keep}
use vibe_xperia.LocApi.Agps.Inv.{
  some_active, non_empty, InvAt, Inv, clone-active, send-subscribers, add_cases, leave-state,
  after_leave-Inv, others-all, others-inactive, reopen-Inv, has_subscribers_lem,
}

module _ (xs : List Subscriber) (enforce : Bool) (sent : List Message)
    (requests : List AgpsStatusValue) (freed : Subscriber) where
  abbrev machine : AgpsState → AgpsStateMachine
  machine st = record {
    state_ptr = st;
    subscribers = xs;
    enforce_single_subscriber = enforce;
    sent = sent;
    requests = requests;
    freed_reads = freed;
  }

  front_active : (s : Subscriber) → not (inactive (clone s)) || some_active xs ≡ true
  front_active s = ap (λ b. not b || some_active xs) (clone-active s)

  add-Inv :
      (s : Subscriber) (st : AgpsState)
      → InvAt st xs
      → InvAt st (clone s ∷ xs)
      → Inv (add_subscriber s (machine st))
  add-Inv s st v w = elim (add_cases s (machine st)) [
    | inl e ↦ subst Inv (sym e) v
    | inr e ↦ subst Inv (sym e) w
  ]

  leave_stays :
      (i : ℕ) (s : Subscriber) (st : AgpsState)
      → ((ys : List Subscriber) → some_active ys ≡ true → InvAt st ys)
      → (let u = leave i s (machine st) in
          some_active u.subscribers ≡ true → InvAt u.state_ptr u.subscribers)
  leave_stays i s st of_active e =
      let u = leave i s (machine st) in
      subst (λ t. InvAt t u.subscribers) (sym (leave-state i s (machine st)))
        (of_active u.subscribers e)

  pending-Inv : (e : Event) → some_active xs ≡ true → Inv (on_event_pending e (machine pending))
  unfolding on_event_pending
  pending-Inv (subscribe s) v = add-Inv s pending v (front_active s)
  pending-Inv (unsubscribe i s) v =
      after_leave-Inv (leave i s (machine pending)) (leave_stays i s pending (λ ys e. e))
  pending-Inv granted v =
      subst (λ r. Inv (moved acquired r))
        (sym (
          notify_subscribers_keep (to_group broadcast_active rsrc_granted false) (machine pending)
            refl refl))
        v
  pending-Inv released_now v = v
  pending-Inv denied v =
      let n = to_group broadcast_all rsrc_denied true in
      subst (λ r. Inv (moved released r))
        (sym (notify_delete broadcast_all rsrc_denied (machine pending) refl))
        (ap non_empty (others-all rsrc_denied true xs))

  reopened :
      (st : AgpsRsrcStatus)
      → is_news st ≡ true
      → Inv (reopen (notify_subscribers (to_group broadcast_inactive st true) (machine releasing)))
  reopened st news =
      let n = to_group broadcast_inactive st true in
      subst (λ r. Inv (reopen r))
        (sym (notify_delete broadcast_inactive st (machine releasing) news))
        (reopen-Inv _ (others-inactive st true xs))

  releasing-Inv : (e : Event) → non_empty xs ≡ true → Inv (on_event_releasing e (machine releasing))
  unfolding on_event_releasing
  releasing-Inv (subscribe s) v = add-Inv s releasing v refl
  releasing-Inv (unsubscribe i s) v =
      let u = leave i s (machine releasing) in
      elim (Bool-cases (has_subscribers u)) [
        | inl e ↦ subst Inv (sym (if_then (has_subscribers u) u (moved released u) e)) (
            subst (λ t. InvAt t u.subscribers) (sym (leave-state i s (machine releasing)))
              (sym (has_subscribers_lem u) ∙ e))
        | inr e ↦
            subst Inv (sym (if_else (has_subscribers u) u (moved released u) e))
              (sym (has_subscribers_lem u) ∙ e)
      ]
  releasing-Inv granted v = v
  releasing-Inv released_now v = reopened rsrc_released refl
  releasing-Inv denied v = reopened rsrc_denied refl

acquired-Inv :
    (e : Event) (xs : List Subscriber) (enforce : Bool) (sent : List Message)
    (requests : List AgpsStatusValue) (freed : Subscriber)
    → some_active xs ≡ true
    → Inv (on_event_acquired e (machine xs enforce sent requests freed acquired))
unfolding on_event_acquired
acquired-Inv (subscribe s) xs enforce sent requests freed v =
    let ms = (notify_rsrc_status (to_one s rsrc_granted false) s).1 in
    add-Inv xs enforce (sent ++ ms) requests freed s acquired v
      (front_active xs enforce (sent ++ ms) requests freed s)
acquired-Inv (unsubscribe i s) xs enforce sent requests freed v =
    after_leave-Inv (leave i s (machine xs enforce sent requests freed acquired))
      (leave_stays xs enforce sent requests freed i s acquired (λ ys e. e))
acquired-Inv granted xs enforce sent requests freed v = v
acquired-Inv released_now xs enforce sent requests freed v =
    let m = machine xs enforce sent requests freed acquired in
    subst (λ r. Inv (moved released r)) (sym (notify_delete broadcast_all rsrc_released m refl))
      (ap non_empty (others-all rsrc_released true xs))
acquired-Inv denied xs enforce sent requests freed v = v

add_first :
    (s : Subscriber) (enforce : Bool) (sent : List Message) (requests : List AgpsStatusValue)
    (freed : Subscriber)
    → (add_subscriber s (machine [] enforce sent requests freed released)).subscribers
      ≡ clone s ∷ []
unfolding add_subscriber search
add_first s enforce sent requests freed = refl

released-Inv :
    (e : Event) (xs : List Subscriber) (enforce : Bool) (sent : List Message)
    (requests : List AgpsStatusValue) (freed : Subscriber)
    → non_empty xs ≡ false
    → Inv (on_event_released e (machine xs enforce sent requests freed released))
unfolding on_event_released
released-Inv e (x ∷ xs) enforce sent requests freed v = cc
released-Inv (subscribe s) [] enforce sent requests freed v =
    let u = add_subscriber s (machine [] enforce sent requests freed released) in
    ap some_active
      (send-subscribers gps_request_agps_data_conn u ∙ add_first s enforce sent requests freed)
    ∙ front_active [] enforce sent requests freed s
released-Inv (unsubscribe i s) [] enforce sent requests freed v = refl
released-Inv granted [] enforce sent requests freed v = refl
released-Inv released_now [] enforce sent requests freed v = refl
released-Inv denied [] enforce sent requests freed v = refl

by_state :
    (e : Event) (xs : List Subscriber) (enforce : Bool) (sent : List Message)
    (requests : List AgpsStatusValue) (freed : Subscriber) (st : AgpsState)
    → InvAt st xs
    → Inv (on_event e (machine xs enforce sent requests freed st))
unfolding on_event
by_state e xs enforce sent requests freed released v =
    released-Inv e xs enforce sent requests freed v
by_state e xs enforce sent requests freed pending v = pending-Inv xs enforce sent requests freed e v
by_state e xs enforce sent requests freed acquired v =
    acquired-Inv e xs enforce sent requests freed v
by_state e xs enforce sent requests freed releasing v =
    releasing-Inv xs enforce sent requests freed e v

on_event-Inv : (e : Event) (m : AgpsStateMachine) → Inv m → Inv (on_event e m)
on_event-Inv e m v =
    by_state e m.subscribers m.enforce_single_subscriber m.sent m.requests m.freed_reads m.state_ptr
      v

-- The calls of the machine's clients and of the service of the connection
pub data Steps (m : AgpsStateMachine) : AgpsStateMachine → Type 0 where
  here : Steps m m
  subscribed : {u : AgpsStateMachine} (s : Subscriber) → Steps m u → Steps m (subscribe_rsrc s u)
  unsubscribed :
      {u : AgpsStateMachine} (s : Subscriber) → Steps m u → Steps m (unsubscribe_rsrc s u).1
  informed : {u : AgpsStateMachine} (st : AgpsRsrcStatus) → Steps m u → Steps m (on_rsrc_event st u)

subscribe_rsrc-Inv : (s : Subscriber) (m : AgpsStateMachine) → Inv m → Inv (subscribe_rsrc s m)
unfolding subscribe_rsrc
subscribe_rsrc-Inv s m v = elim (Bool-cases (m.enforce_single_subscriber && has_subscribers m)) [
  | inl e ↦ subst Inv (sym (if_then _ _ _ e)) v
  | inr e ↦ subst Inv (sym (if_else _ _ _ e)) (on_event-Inv (subscribe s) m v)
]

unsubscribe_rsrc-Inv :
    (s : Subscriber) (m : AgpsStateMachine) → Inv m → Inv (unsubscribe_rsrc s m).1
unfolding unsubscribe_rsrc
unsubscribe_rsrc-Inv s m v = by_search (search (to_one s rsrc_status_max false) m.subscribers)
  where
    by_search :
        (r : Option (ℕ × Subscriber))
        → Inv
            (elim r as (λ _. Bool × AgpsStateMachine) [
              | none ↦ (false, m)
              | some (i, q) ↦ (true, on_event (unsubscribe i q) m)
            ]).1
    by_search none = v
    by_search (some (i, q)) = on_event-Inv (unsubscribe i q) m v

on_rsrc_event-Inv : (st : AgpsRsrcStatus) (m : AgpsStateMachine) → Inv m → Inv (on_rsrc_event st m)
unfolding on_rsrc_event
on_rsrc_event-Inv rsrc_granted m v = on_event-Inv granted m v
on_rsrc_event-Inv rsrc_released m v = on_event-Inv released_now m v
on_rsrc_event-Inv rsrc_denied m v = on_event-Inv denied m v
on_rsrc_event-Inv rsrc_subscribe m v = v
on_rsrc_event-Inv rsrc_unsubscribe m v = v
on_rsrc_event-Inv rsrc_status_max m v = v

-- Every run keeps the invariant, which a new machine has: nobody subscribes in the state released, there is
-- an active subscriber in the states pending and acquired, and a subscriber in the state releasing.
pub Steps-InvAt : {m u : AgpsStateMachine} → Steps m u → Inv m → Inv u
Steps-InvAt here v = v
Steps-InvAt (subscribed {u = u} s run) v = subscribe_rsrc-Inv s u (Steps-InvAt run v)
Steps-InvAt (unsubscribed {u = u} s run) v = unsubscribe_rsrc-Inv s u (Steps-InvAt run v)
Steps-InvAt (informed {u = u} st run) v = on_rsrc_event-Inv st u (Steps-InvAt run v)
