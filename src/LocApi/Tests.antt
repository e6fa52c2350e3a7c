-- ===== src/LocApi/Tests.antt =====
-- Runs of the thread helper and of the state machine of gps/loc_api/libloc_api_50001.
use vibe_xperia.Prelude.{
  ◌≤◌, ◌≡◌, refl, true, false, List, [], ◌∷◌, ◌++◌, none, arith, ℤ, pos, negsuc,
}
use vibe_xperia.LocApi.ThreadHelper.{
  Procs, at_init, Thelper, thelper_main, loc_eng_dmn_conn_unblock_thelper,
  loc_eng_dmn_conn_launch_thelper,
}
use vibe_xperia.LocApi.ThreadHelper.Run.{Steps, here, Inv}
use vibe_xperia.LocApi.ThreadHelper.Launch.{is_ended, tasks, run_main, unblock_ends}
use vibe_xperia.LocApi.Agps.{
  released, pending, releasing, rsrc_granted, rsrc_released, rsrc_status_max, wifi, atl, Subscriber,
  broadcast_inactive, to_group, to_one, AgpsStateMachine, subscribe_rsrc, unsubscribe_rsrc,
  on_rsrc_event, new_machine, search, is_found, notify_subscribers, equals, for_me,
}
use vibe_xperia.LocApi.Agps.Notify.{members, told_each, notify_subscribers_delete}
use vibe_xperia.LocApi.Agps.Events
use vibe_xperia.LocApi.Agps.Events.{Steps-InvAt}
use vibe_xperia.LocApi.Agps.Inv
use vibe_xperia.LocApi.Agps.Answers.{resubscribe_lost}

abbrev all_procs : Procs
all_procs = record { has_init = true; has_pre = true; has_proc = true; has_post = true }

abbrev idle : Thelper
idle = record {
  procs = all_procs;
  thread_exit = false;
  thread_ready = false;
  cond = false;
  mutex = false;
  at = at_init;
  calls = [];
}

abbrev launched : Thelper
launched = record idle { cond = true; mutex = true }

-- The thread has run its task once, and its owner has unblocked it before.
abbrev unblocked_run : Thelper
unblocked_run =
    thelper_main
      (thelper_main
        (loc_eng_dmn_conn_unblock_thelper (thelper_main (thelper_main idle (pos 0)) (pos 0)))
        (pos 0))
      (pos 0)

abbrev first_launch : Thelper
first_launch = (loc_eng_dmn_conn_launch_thelper idle all_procs (pos 0) (pos 0) none).1

abbrev signalled_run : Thelper
signalled_run = thelper_main (thelper_main first_launch (pos 0)) (pos 0)

abbrev answers : List ℤ
answers = pos 0 ∷ pos 0 ∷ negsuc 0 ∷ pos 0 ∷ pos 0 ∷ pos 0 ∷ []

unblock_ends_example :
    (let u = run_main answers (loc_eng_dmn_conn_unblock_thelper launched) in
      (is_ended u.at ≡ true) × (tasks u.calls ≤ 1))
unblock_ends_example = unblock_ends answers launched (omega arith)

abbrev atl_client : Subscriber
atl_client = record { kind = atl; id = 3; ipv6_addr = 0; is_inactive = false }

abbrev wifi_client : Subscriber
wifi_client = record { kind = wifi; id = 5; ipv6_addr = 0; is_inactive = false }

abbrev left_client : Subscriber
left_client = record wifi_client { is_inactive = true }

abbrev machine : AgpsStateMachine
machine = record (new_machine atl_client false) {
  state_ptr = pending;
  subscribers = left_client ∷ atl_client ∷ [];
}

abbrev closing : AgpsStateMachine
closing = record (new_machine atl_client false) {
  state_ptr = releasing;
  subscribers = left_client ∷ [];
}

abbrev granted_run : AgpsStateMachine
granted_run =
    on_rsrc_event rsrc_granted
      (unsubscribe_rsrc wifi_client
        (subscribe_rsrc atl_client (subscribe_rsrc wifi_client (new_machine atl_client false)))).1

granted_run-Steps : Events.Steps (new_machine atl_client false) granted_run
granted_run-Steps = Events.informed rsrc_granted (
    Events.unsubscribed wifi_client
      (Events.subscribed atl_client (Events.subscribed wifi_client Events.here)))

Steps-InvAt_example : Inv.Inv granted_run
Steps-InvAt_example = Steps-InvAt granted_run-Steps refl

notify_subscribers_delete_example :
    notify_subscribers (to_group broadcast_inactive rsrc_released true) machine ≡ record machine {
      subscribers = members broadcast_inactive false machine.subscribers;
      sent = [] ++ told_each rsrc_released (members broadcast_inactive true machine.subscribers);
    }
notify_subscribers_delete_example =
    notify_subscribers_delete broadcast_inactive rsrc_released machine refl

already_there :
    is_found (search (to_one wifi_client rsrc_status_max false) closing.subscribers) ≡ true
unfolding search for_me equals
already_there = refl

resubscribe_lost_example :
    (let u = on_rsrc_event rsrc_released (subscribe_rsrc wifi_client closing) in
      (subscribe_rsrc wifi_client closing ≡ closing)
      × (u.state_ptr ≡ released)
      × (u.subscribers ≡ [])
      × (u.requests ≡ []))
resubscribe_lost_example = resubscribe_lost wifi_client closing refl refl refl already_there
