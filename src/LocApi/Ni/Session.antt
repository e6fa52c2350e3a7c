-- ===== src/LocApi/Ni/Session.antt =====
-- One session of gps/loc_api/libloc_api_50001/loc_eng_ni.cpp from the request to the message.
use vibe_xperia.Prelude.{
  ℕ, ◌+◌, Bool, true, false, ◌||◌, Option, none, some, [], ◌∷◌, ◌++◌, ◌≡◌, arith, if◌then◌else◌,
}
use vibe_xperia.LocApi.Ni.{
  UserResponse, noresp, NiNotification, Ni, loc_eng_ni_request_handler, loc_eng_ni_respond,
  ni_thread_wake, ni_thread_leave, ni_thread_finish,
}

-- No request is pending and no answer is left from one.
pub record IsReady (n : Ni) : Type 0 where
  pub inited : n.inited ≡ true
  pub no_request : n.raw_request ≡ none
  pub no_answer : n.resp_recvd ≡ false

-- The thread's steps after a wake
abbrev pub thread_ends : Bool → Ni → Ni
thread_ends timed_out n =
    let (left, msg) = ni_thread_leave (ni_thread_wake timed_out n).0 in ni_thread_finish msg left

module _ (n : Ni) (ready : IsReady n) (notif notif' : NiNotification) (p q : ℕ) where
  -- the request, and one that comes while it is pending
  abbrev pub busy : Ni
  busy =
      (loc_eng_ni_request_handler notif' (some q) (loc_eng_ni_request_handler notif (some p) n).0).0

  -- A request with payload p is announced once with the current id, and one with payload q that comes while
  -- it is pending is freed without an announcement. Without a response the thread waits on. After the
  -- user's response to that id, or at the expiry of the wait, it ends: one message is sent, with payload p
  -- and with NORESP if the wait timed out, even where the response came before the thread had the lock
  -- again, and else with the response. Then the data is ready for the next request, with the next id.
  pub session_answers :
      (answered timed_out : Bool) (r : UserResponse)
      → answered || timed_out ≡ true
      → let asked = if answered then loc_eng_ni_respond n.req_id r busy else busy in
        let done = thread_ends timed_out asked in
        ((ni_thread_wake false busy).1 ≡ false)
        × ((ni_thread_wake timed_out asked).1 ≡ true)
        × (done.sent ≡ n.sent ++ ((if timed_out then noresp else r), p) ∷ [])
        × (done.notified ≡ n.notified ++ n.req_id ∷ [])
        × (done.freed ≡ n.freed ++ q ∷ [])
        × (done.req_id ≡ n.req_id + 1)
        × IsReady done
  unfolding loc_eng_ni_request_handler loc_eng_ni_respond ni_thread_wake ni_thread_leave
      ni_thread_finish
  session_answers true true r h = ground (arith, ready)
  session_answers true false r h = ground (arith, ready)
  session_answers false true r h = ground (arith, ready)
  session_answers false false r h = cc

  -- A request that comes after a thread has unlocked and before that thread counts up the id is announced
  -- with the old id: the user's response to it changes nothing.
  pub late_id_ignored :
      (msg : Option (UserResponse × ℕ)) (r : UserResponse)
      → let announced = (loc_eng_ni_request_handler notif (some p) n).0 in
        let later = ni_thread_finish msg announced in
        (announced.notified ≡ n.notified ++ n.req_id ∷ [])
        × (later.raw_request ≡ some p)
        × (loc_eng_ni_respond n.req_id r later ≡ later)
  unfolding loc_eng_ni_request_handler loc_eng_ni_respond ni_thread_finish
  late_id_ignored msg r = ground (arith, ready)
