-- ===== src/LocApi/Agps/Ds/Retries.antt =====
-- DSStateMachine of gps/loc_api/libloc_api_50001/loc_eng_agps.cpp: the bound on its retries.
use vibe_xperia.Prelude.{◌≤◌, arith, true, List, [], ◌∷◌, ℤ, pos, length}
use vibe_xperia.LocApi.Agps.{
  AgpsState, released, pending, acquired, releasing, Message, rsrc_subscribe, rsrc_unsubscribe,
  rsrc_granted, rsrc_status_max, rsrc_released, rsrc_denied, to_group, AgpsStateMachine,
  AgpsStatusValue, gps_request_agps_data_conn, gps_release_agps_data_conn, leave,
  notify_subscribers, broadcast_inactive, add_subscriber, Event, subscribe, unsubscribe,
  released_now, denied, moved, on_event,
}
use vibe_xperia.LocApi.Agps.Ds.{
  DsAnswer, success, engine_busy, unsupported, failed, unrecognized, Ds,
  max_start_data_call_retries, active, conn_handle, after_answer, send_request, on_machine,
  inform_status, inform_all, drop, ds_handler,
}

after_answer-retries :
    (a : DsAnswer) (conn : ℤ) (d : Ds)
    → d.retries ≤ max_start_data_call_retries
    → (after_answer a conn d).retries ≤ max_start_data_call_retries
unfolding after_answer
after_answer-retries success conn d h = h
after_answer-retries engine_busy conn d h = ground (arith, h)
after_answer-retries unsupported conn d h = omega arith
after_answer-retries failed conn d h = omega arith
after_answer-retries unrecognized conn d h = h

send_request-retries :
    (a : DsAnswer) (action : AgpsStatusValue) (d : Ds)
    → d.retries ≤ max_start_data_call_retries
    → (send_request a action d).retries ≤ max_start_data_call_retries
unfolding send_request
send_request-retries a action d h = after_answer-retries a (conn_handle (active d)) _ h

inform_all-retries :
    (ms : List Message) (d : Ds)
    → d.retries ≤ max_start_data_call_retries
    → (inform_all ms d).retries ≤ max_start_data_call_retries
unfolding inform_all inform_status
inform_all-retries [] d h = h
inform_all-retries (Message.inform_status rsrc_subscribe id ∷ ms) d h = inform_all-retries ms d h
inform_all-retries (Message.inform_status rsrc_status_max id ∷ ms) d h = inform_all-retries ms d h
inform_all-retries (Message.inform_status rsrc_unsubscribe id ∷ ms) d h =
    inform_all-retries ms (inform_status rsrc_unsubscribe (pos id) d) h
inform_all-retries (Message.inform_status rsrc_granted id ∷ ms) d h =
    inform_all-retries ms (inform_status rsrc_granted (pos id) d) h
inform_all-retries (Message.inform_status rsrc_released id ∷ ms) d h =
    inform_all-retries ms (inform_status rsrc_released (pos id) d) h
inform_all-retries (Message.inform_status rsrc_denied id ∷ ms) d h =
    inform_all-retries ms (inform_status rsrc_denied (pos id) d) (omega arith)
inform_all-retries (Message.data_conn k id st ∷ ms) d h = inform_all-retries ms d h
inform_all-retries (Message.atl_close_status id ∷ ms) d h = inform_all-retries ms d h
inform_all-retries (Message.atl_open_status id ok ∷ ms) d h = inform_all-retries ms d h

on_machine-retries :
    (f : AgpsStateMachine → AgpsStateMachine) (d : Ds)
    → d.retries ≤ max_start_data_call_retries
    → (on_machine f d).retries ≤ max_start_data_call_retries
unfolding on_machine
on_machine-retries f d h =
    inform_all-retries (drop (length d.machine.sent) (f d.machine).sent)
      (record d { machine = f d.machine }) h

-- the service asked, and the machine moved or not
sent-retries :
    (a : DsAnswer) (action : AgpsStatusValue) (f : AgpsStateMachine → AgpsStateMachine)
    (g : AgpsStateMachine → AgpsStateMachine) (d : Ds)
    → d.retries ≤ max_start_data_call_retries
    → (on_machine g (send_request a action (on_machine f d))).retries ≤ max_start_data_call_retries
sent-retries a action f g d h =
    on_machine-retries g (send_request a action (on_machine f d))
      (send_request-retries a action (on_machine f d) (on_machine-retries f d h))

-- No event takes the count of retries above its maximum, whatever the service answers.
pub ds_handler-retries :
    (a : DsAnswer) (st : AgpsState) (e : Event) (d : Ds)
    → d.retries ≤ max_start_data_call_retries
    → (ds_handler a st e d).retries ≤ max_start_data_call_retries
unfolding ds_handler
ds_handler-retries a released (subscribe s) d h =
    let f = add_subscriber s in
    let asked =
      send_request-retries a gps_request_agps_data_conn (on_machine f d)
        (on_machine-retries f d h) in
    ground (arith, asked, sent-retries a gps_request_agps_data_conn f (moved pending) d h)
ds_handler-retries a pending (unsubscribe i s) d h =
    let f = leave i s in
    ground (
      arith,
      on_machine-retries f d h,
      sent-retries a gps_release_agps_data_conn f (moved released) d h,
      sent-retries a gps_release_agps_data_conn f (moved releasing) d h,
    )
ds_handler-retries a acquired (unsubscribe i s) d h =
    let f = leave i s in
    ground (
      arith,
      on_machine-retries f d h,
      sent-retries a gps_release_agps_data_conn f (moved released) d h,
      sent-retries a gps_release_agps_data_conn f (moved releasing) d h,
    )
ds_handler-retries a releasing released_now d h =
    let n = notify_subscribers (to_group broadcast_inactive rsrc_released true) in
    ground (
      arith,
      on_machine-retries (moved released) (on_machine n d) (on_machine-retries n d h),
      sent-retries a gps_request_agps_data_conn n (moved pending) d h,
    )
ds_handler-retries a releasing denied d h =
    let n = notify_subscribers (to_group broadcast_inactive rsrc_denied true) in
    ground (
      arith,
      on_machine-retries (moved released) (on_machine n d) (on_machine-retries n d h),
      sent-retries a gps_request_agps_data_conn n (moved pending) d h,
    )
ds_handler-retries a st e d h = on_machine-retries (on_event e) d h
