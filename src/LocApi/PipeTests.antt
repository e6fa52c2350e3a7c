-- ===== src/LocApi/PipeTests.antt =====
-- Messages in pipes, the server and a session of the network-initiated requests of
-- gps/loc_api/libloc_api_50001.
use vibe_xperia.Prelude.{
  ℕ, zero, suc, ◌+◌, ◌≤◌, ◌≡◌, refl, ap, true, false, List, [], ◌∷◌, ◌++◌, none, some, arith, pos,
  length, map,
}
use vibe_xperia.LocApi.Pipe.{Bytes, PipeCalls, take, drop, msgsnd}
use vibe_xperia.LocApi.Pipe.Framed.{
  IsPipe, received, send_all, receive_all, AllFit, receive_all-send_all,
}
use vibe_xperia.LocApi.Server.{CtrlMsg, gpsone_loc_api_if_request}
use vibe_xperia.LocApi.Ni.{
  accept, noresp, NiNotification, Ni, loc_eng_ni_request_handler, loc_eng_ni_respond,
  ni_thread_wake, ni_thread_finish,
}
use vibe_xperia.LocApi.Ni.Owned.{
  System, here, request, wake, respond, requested, woken, places, occurs, occurs_in_sent,
  occurs_in_msgs, Steps-Owned,
}
use vibe_xperia.LocApi.Ni.Session.{IsReady, busy, thread_ends, session_answers, late_id_ignored}

-- A pipe that writes and reads all it can
abbrev plain : PipeCalls
plain = record {
  write = λ b p. (pos (length b), p ++ b);
  read = λ n p. (pos (length (take n p)), take n p, drop n p);
}

take_front : (b p : Bytes) → take (length b) (b ++ p) ≡ b
take_front [] p = refl
take_front (x ∷ b) p = ap (λ (t : Bytes). x ∷ t) (take_front b p)

drop_front : (b p : Bytes) → drop (length b) (b ++ p) ≡ p
drop_front [] p = refl
drop_front (x ∷ b) p = drop_front b p

take_le : (n : ℕ) (p : Bytes) → length (take n p) ≤ n
take_le zero p = omega arith
take_le (suc n) [] = omega arith
take_le (suc n) (b ∷ p) = omega (arith, take_le n p)

plain-IsPipe : IsPipe plain 4096
plain-IsPipe = record {
  writes = λ b p h. refl;
  reads = λ b p. rw (take_front b p, drop_front b p) refl;
}

abbrev two_messages : List Bytes
two_messages = (7 ∷ 8 ∷ []) ∷ (9 ∷ []) ∷ []

receive_all-send_all_example :
    receive_all plain 100 2 (send_all plain two_messages []) ≡ (map received two_messages, [])
unfolding AllFit
receive_all-send_all_example =
    receive_all-send_all plain 4096 100 plain-IsPipe two_messages (omega arith)

sent_bytes : (msgsnd plain (0 ∷ 0 ∷ 0 ∷ 0 ∷ 7 ∷ []) 5 []).2 ≡ 5 ∷ 0 ∷ 0 ∷ 0 ∷ 7 ∷ []
unfolding msgsnd
sent_bytes = refl

abbrev from_wifi : Bytes → CtrlMsg
from_wifi b = record {
  ctrl_type = gpsone_loc_api_if_request;
  req_type = 0;
  sender_id = 0;
  ipv4_addr = 0;
  ipv6_addr = [];
  ssid = b;
  password = [];
}

abbrev quiet : NiNotification
quiet = record { timeout = 0; privacy_override = false }

abbrev started : Ni
started = record {
  inited = true;
  resp_time_left = 0;
  resp_recvd = false;
  raw_request = none;
  req_id = 4;
  resp = noresp;
  freed = [];
  notified = [];
  muted = 0;
  sent = [];
}

started-IsReady : IsReady started
started-IsReady = record { inited = refl; no_request = refl; no_answer = refl }

session_answers_example :
    let asked = loc_eng_ni_respond 4 accept (busy started started-IsReady quiet quiet 7 8) in
    let done = thread_ends false asked in
    ((ni_thread_wake false (busy started started-IsReady quiet quiet 7 8)).1 ≡ false)
    × ((ni_thread_wake false asked).1 ≡ true)
    × (done.sent ≡ [] ++ (accept, 7) ∷ [])
    × (done.notified ≡ [] ++ 4 ∷ [])
    × (done.freed ≡ [] ++ 8 ∷ [])
    × (done.req_id ≡ 4 + 1)
    × IsReady done
session_answers_example =
    session_answers started started-IsReady quiet quiet 7 8 true false accept refl

late_id_ignored_example :
    let announced = (loc_eng_ni_request_handler quiet (some 7) started).0 in
    let later = ni_thread_finish none announced in
    (announced.notified ≡ [] ++ 4 ∷ [])
    × (later.raw_request ≡ some 7)
    × (loc_eng_ni_respond 4 accept later ≡ later)
late_id_ignored_example = late_id_ignored started started-IsReady quiet quiet 7 8 none accept

abbrev system : System
system = record { ni = started; waiting = 0; finishing = []; given = [] }

abbrev asked : System
asked = requested quiet (some 7) true system

abbrev answered : System
answered = record asked { ni = loc_eng_ni_respond 4 accept asked.ni }

Steps-Owned_example : places 7 (woken false answered) ≡ occurs 7 (woken false answered).given
unfolding occurs requested woken occurs_in_sent occurs_in_msgs loc_eng_ni_respond
Steps-Owned_example =
    Steps-Owned 7 {s = system} {t = woken false answered} refl refl
      (wake (respond (request here quiet (some 7) true) 4 accept) false (omega arith))
