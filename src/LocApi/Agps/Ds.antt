-- ===== src/LocApi/Agps/Ds.antt =====
-- DSStateMachine of gps/loc_api/libloc_api_50001/loc_eng_agps.cpp: the state machine of the data call for
-- emergency SUPL. It sends its requests itself, tries again when the engine is busy, and falls back to a
-- normal connection.
pub mod Retries
pub mod Released
use vibe_xperia.Prelude.{
  ℕ, zero, suc, ◌+◌, ◌%◌, Bool, true, false, not, ◌&&◌, Option, none, some, List, [], ◌∷◌, ◌++◌, ℤ,
  pos, negsuc, minus_one, ltb, length, if◌then◌else◌,
}
use vibe_xperia.LocApi.Agps.{
  AgpsState, released, pending, acquired, releasing, Message, AgpsRsrcStatus, rsrc_granted,
  rsrc_released, rsrc_denied, rsrc_subscribe, rsrc_unsubscribe, rsrc_status_max, rsrc_denied,
  Subscriber, broadcast_active, broadcast_inactive, to_group, to_one, AgpsStatusValue,
  gps_request_agps_data_conn, gps_release_agps_data_conn, AgpsStateMachine, search, has_subscribers,
  has_active_subscribers, add_subscriber, notify_subscribers, leave, moved, Event, subscribe,
  unsubscribe, granted, released_now, denied, on_event,
}

-- What the service's call gives: 0, LOC_API_ADAPTER_ERR_ENGINE_BUSY, LOC_API_ADAPTER_ERR_UNSUPPORTED, -1, or
-- another code
pub data DsAnswer : Type 0 where
  success : DsAnswer
  engine_busy : DsAnswer
  unsupported : DsAnswer
  failed : DsAnswer
  unrecognized : DsAnswer

-- What is asked of the adapter; the identifier of the connection is -1 without a subscriber
pub data AdapterCall : Type 0 where
  request_supl_es : ℕ → AdapterCall
  request_atl : ℤ → AdapterCall
  atl_close_status : ℤ → AdapterCall
  atl_open_status : ℤ → AdapterCall
  close_data_call : AdapterCall

-- The machine, `mRetries`, the calls of the adapter and the number of timers asked for
pub record Ds : Type 0 where
  pub machine : AgpsStateMachine
  pub retries : ℕ
  pub calls : List AdapterCall
  pub timers : ℕ

abbrev pub max_start_data_call_retries : ℕ
max_start_data_call_retries = 4

abbrev pub active : Ds → Option (ℕ × Subscriber)
active d = search (to_group broadcast_active rsrc_status_max false) d.machine.subscribers

abbrev pub conn_handle : Option (ℕ × Subscriber) → ℤ
conn_handle none = minus_one
conn_handle (some (i, s)) = pos s.id

-- `delay_callback` of a timer
unfoldable pub retry_callback : Ds → Ds
retry_callback d = elim (active d) [
  | none ↦ d
  | some (i, s) ↦ record d { calls = d.calls ++ request_supl_es s.id ∷ [] }
]

unfoldable pub inform_status : AgpsRsrcStatus → ℤ → Ds → Ds
inform_status rsrc_unsubscribe id d = record d { calls = d.calls ++ atl_close_status id ∷ [] }
inform_status rsrc_released id d = record d { calls = d.calls ++ close_data_call ∷ [] }
inform_status rsrc_denied id d = record d { retries = 0; calls = d.calls ++ request_atl id ∷ [] }
inform_status rsrc_granted id d = record d { calls = d.calls ++ atl_open_status id ∷ [] }
inform_status rsrc_subscribe id d = d
inform_status rsrc_status_max id d = d

-- `sendRsrcRequest` after the service has answered, for the connection that was found
unfoldable pub after_answer : DsAnswer → ℤ → Ds → Ds
unfolding inform_status
after_answer success conn d = d
after_answer engine_busy conn d =
    let counted = (d.retries + 1) % 256 in
    if ltb max_start_data_call_retries counted
    then inform_status rsrc_denied conn (record d { retries = counted })
    else record d { retries = counted; timers = d.timers + 1 }
after_answer unsupported conn d = inform_status rsrc_denied conn d
after_answer failed conn d = inform_status rsrc_denied conn d
after_answer unrecognized conn d = d

-- Whether the result is 0
abbrev pub is_success : DsAnswer → Bool
is_success success = true
is_success _ = false

-- The service gets every request, with or without subscribers.
unfoldable pub send_request : DsAnswer → AgpsStatusValue → Ds → Ds
unfolding after_answer
send_request answer action d =
    let m = d.machine in
    let asked = record d { machine = record m { requests = m.requests ++ action ∷ [] } } in
    after_answer answer (conn_handle (active d)) asked

-- `informStatus` for the messages of a DSSubscriber, in their order
unfoldable pub inform_all : List Message → Ds → Ds
unfolding inform_status
inform_all [] d = d
inform_all (Message.inform_status st id ∷ ms) d = inform_all ms (inform_status st (pos id) d)
inform_all (Message.data_conn k id st ∷ ms) d = inform_all ms d
inform_all (Message.atl_close_status id ∷ ms) d = inform_all ms d
inform_all (Message.atl_open_status id ok ∷ ms) d = inform_all ms d

abbrev pub drop {ℓ} : {A : Type ℓ} → ℕ → List A → List A
drop zero xs = xs
drop (suc n) [] = []
drop (suc n) (x ∷ xs) = drop n xs

-- A call on the machine, with what its new messages to DSSubscribers make of the retries and the adapter
unfoldable pub on_machine : (AgpsStateMachine → AgpsStateMachine) → Ds → Ds
unfolding inform_all
on_machine f d =
    let m = f d.machine in
    inform_all (drop (length d.machine.sent) m.sent) (record d { machine = m })

-- The end of RSRC_UNSUBSCRIBE in the states pending and acquired
abbrev after_leave : DsAnswer → Ds → Ds
after_leave answer d =
    if not (has_subscribers d.machine)
    then on_machine (moved released) (send_request answer gps_release_agps_data_conn d)
    else if not (has_active_subscribers d.machine)
    then on_machine (moved releasing) (send_request answer gps_release_agps_data_conn d)
    else d

-- The end of RSRC_RELEASED and RSRC_DENIED in the state releasing
abbrev reopen : DsAnswer → Ds → Ds
reopen answer d =
    if has_active_subscribers d.machine
    then on_machine (moved pending) (send_request answer gps_request_agps_data_conn d)
    else on_machine (moved released) d

-- The handlers that send; the others are those of the other state machine. `answer` is what the service gives
-- if it is asked.
unfoldable pub ds_handler : DsAnswer → AgpsState → Event → Ds → Ds
unfolding send_request
ds_handler answer released (subscribe s) d =
    let added = on_machine (add_subscriber s) d in
    let asked = send_request answer gps_request_agps_data_conn added in
    if is_success answer then on_machine (moved pending) asked else asked
ds_handler answer pending (unsubscribe i s) d = after_leave answer (on_machine (leave i s) d)
ds_handler answer acquired (unsubscribe i s) d = after_leave answer (on_machine (leave i s) d)
ds_handler answer releasing released_now d =
    reopen answer
      (on_machine (notify_subscribers (to_group broadcast_inactive rsrc_released true)) d)
ds_handler answer releasing denied d =
    reopen answer (on_machine (notify_subscribers (to_group broadcast_inactive rsrc_denied true)) d)
ds_handler answer state e d = on_machine (on_event e) d

unfoldable pub ds_on_event : DsAnswer → Event → Ds → Ds
unfolding ds_handler
ds_on_event answer e d = ds_handler answer d.machine.state_ptr e d

abbrev pub same_state : AgpsState → AgpsState → Bool
same_state released released = true
same_state pending pending = true
same_state acquired acquired = true
same_state releasing releasing = true
same_state _ _ = false

-- `DSStateMachine::onRsrcEvent`
unfoldable pub ds_on_rsrc_event : DsAnswer → AgpsRsrcStatus → Ds → Ds
unfolding ds_on_event
ds_on_rsrc_event answer rsrc_granted d = ds_on_event answer granted d
ds_on_rsrc_event answer rsrc_released d =
    let after = ds_on_event answer released_now d in
    if same_state after.machine.state_ptr d.machine.state_ptr
    then ds_on_event answer denied after
    else after
ds_on_rsrc_event answer rsrc_denied d = ds_on_event answer denied d
ds_on_rsrc_event answer rsrc_subscribe d = d
ds_on_rsrc_event answer rsrc_unsubscribe d = d
ds_on_rsrc_event answer rsrc_status_max d = d
