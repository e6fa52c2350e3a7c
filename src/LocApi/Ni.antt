-- ===== src/LocApi/Ni.antt =====
-- gps/loc_api/libloc_api_50001/loc_eng_ni.cpp: the session of a network-initiated request. The engine's thread,
-- the framework's thread and a thread for each accepted request work on the same data.
pub mod Owned
pub mod Session
use vibe_xperia.Prelude.{
  ℕ, zero, suc, ◌+◌, ◌&&◌, ◌||◌, not, Bool, true, false, Option, none, some, List, [], ◌∷◌, ◌++◌, ℤ,
  pos, negsuc, ltb, ◌==◌, if◌then◌else◌,
}

-- `GpsUserResponseType`
pub data UserResponse : Type 0 where
  accept : UserResponse
  deny : UserResponse
  noresp : UserResponse

-- `GpsNiNotification`, the fields that the code reads
pub record NiNotification : Type 0 where
  pub timeout : ℕ
  pub privacy_override : Bool

-- `loc_eng_ni_data_s_type` and `ni_notify_cb`, and what the code did so far: the payloads that it freed, the
-- ids that it passed to `ni_notify_cb`, the sessions that it muted and the responses that it sent to the
-- adapter. A payload is named by a number; `raw_request` is `none` for NULL.
pub record Ni : Type 0 where
  pub inited : Bool
  pub resp_time_left : ℕ
  pub resp_recvd : Bool
  pub raw_request : Option ℕ
  pub req_id : ℕ
  pub resp : UserResponse
  pub freed : List ℕ
  pub notified : List ℕ
  pub muted : ℕ
  pub sent : List (UserResponse × ℕ)

abbrev pub loc_ni_no_response_time : ℕ
loc_ni_no_response_time = 20

-- The arguments are `callbacks != NULL` and `notify_cb != NULL`.
unfoldable pub loc_eng_ni_init : Bool → Bool → Ni → Ni
loc_eng_ni_init has_callbacks has_notify n =
    if has_callbacks && has_notify && not n.inited
    then record n {
      inited = true;
      resp_time_left = 0;
      resp_recvd = false;
      raw_request = none;
      req_id = 0;
    }
    else n

abbrev free_payload : Option ℕ → Ni → Ni
free_payload none n = n
free_payload (some p) n = record n { freed = n.freed ++ p ∷ [] }

abbrev is_some : Option ℕ → Bool
is_some none = false
is_some (some p) = true

-- The data after the request, and whether a thread for it was asked for; `pass_through` is `none` for NULL.
unfoldable pub loc_eng_ni_request_handler : NiNotification → Option ℕ → Ni → Ni × Bool
loc_eng_ni_request_handler notif pass_through n =
    if not n.inited
    then (n, false)
    else if is_some n.raw_request
    then (free_payload pass_through n, false)
    else (
      record n {
        raw_request = pass_through;
        muted = if notif.privacy_override then n.muted + 1 else n.muted;
        resp_time_left =
            5 + (if notif.timeout == 0 then loc_ni_no_response_time else notif.timeout);
        notified = n.notified ++ n.req_id ∷ [];
      },
      true,
    )

-- What `ni_thread_proc` does under the lock when its wait returns: whether it leaves its loop. ETIMEDOUT is
-- tested before `respRecvd`. With no timeout this is also the test before the first wait.
unfoldable pub ni_thread_wake : Bool → Ni → Ni × Bool
ni_thread_wake timed_out n =
    if timed_out then (record n { resp = noresp }, true) else (n, n.resp_recvd)

-- The rest of the locked part: the data and the message that it will send
unfoldable pub ni_thread_leave : Ni → Ni × Option (UserResponse × ℕ)
ni_thread_leave n = elim n.raw_request [
  | none ↦ (record n { resp_recvd = false }, none)
  | some p ↦ (record n { resp_recvd = false; raw_request = none }, some (n.resp, p))
]

abbrev send_msg : Option (UserResponse × ℕ) → List (UserResponse × ℕ) → List (UserResponse × ℕ)
send_msg none sent = sent
send_msg (some m) sent = sent ++ m ∷ []

-- What the thread does after it has unlocked
unfoldable pub ni_thread_finish : Option (UserResponse × ℕ) → Ni → Ni
ni_thread_finish msg n = record n {
  resp_time_left = 0;
  req_id = n.req_id + 1;
  sent = send_msg msg n.sent;
}

-- The engine restarts. The test, the `free` and the assignment are taken as one step.
unfoldable pub loc_eng_ni_reset_on_engine_restart : Ni → Ni
loc_eng_ni_reset_on_engine_restart n =
    if n.inited && is_some n.raw_request
    then record (free_payload n.raw_request n) { raw_request = none; resp_recvd = true }
    else n

unfoldable pub loc_eng_ni_respond : ℕ → UserResponse → Ni → Ni
loc_eng_ni_respond notif_id user_response n =
    if n.inited && notif_id == n.req_id && is_some n.raw_request
    then record n { resp = user_response; resp_recvd = true }
    else n
