-- ===== src/LocApi/Server.antt =====
-- gps/loc_api/libloc_api_50001/loc_eng_dmn_conn.cpp and loc_eng_dmn_conn_handler.cpp: the server that takes the
-- daemon's requests from a pipe, passes them to the engine and answers them.
pub mod Answers
use vibe_xperia.Prelude.{
  ℕ, ◌+◌, ◌&&◌, ◌||◌, not, Bool, true, false, Option, none, some, List, [], ◌∷◌, ℤ, pos, negsuc,
  minus_one, pos_part, leb, ltb_ℤ, ◌==◌, if◌then◌else◌,
}
use vibe_xperia.LocApi.Pipe.{Bytes, PipeCalls, msgsnd, msgrcv}

-- The codes of `ctrl_type` and of `sender_id`
abbrev pub gpsone_loc_api_if_request : ℕ
gpsone_loc_api_if_request = 0xF0

abbrev pub gpsone_loc_api_if_release : ℕ
gpsone_loc_api_if_release = 0xF1

abbrev pub gpsone_loc_api_response : ℕ
gpsone_loc_api_response = 0xF2

abbrev pub gpsone_unblock : ℕ
gpsone_unblock = 0xF3

-- `ctrl_msgbuf` of a request
pub record CtrlMsg : Type 0 where
  pub ctrl_type : ℕ
  pub req_type : ℕ
  pub sender_id : ℕ
  pub ipv4_addr : ℕ
  pub ipv6_addr : Bytes
  pub ssid : Bytes
  pub password : Bytes

-- `AGpsExtType` of a request
pub data RequestType : Type 0 where
  supl : RequestType
  wifi : RequestType
  any : RequestType

-- Who asks, in the order of `ctrl_if_req_sender_id_e_type`
pub data Sender : Type 0 where
  quipc : Sender
  msapm : Sender
  msapu : Sender
  gpsone_daemon : Sender

-- A message to the engine: `LocEngReqRelWifi` and `LocEngReqRelBIT`
pub data EngineMsg : Type 0 where
  req_rel_wifi : RequestType → Sender → Bytes → Bytes → Bool → EngineMsg
  req_rel_bit : RequestType → ℕ → Bytes → Bool → EngineMsg

-- The two switches of the handlers
unfoldable pub request_type : ℕ → Option RequestType
request_type code =
    if code == 0
    then some supl
    else if code == 1
    then some wifi
    else if code == 2
    then some any
    else none

unfoldable pub request_sender : ℕ → Option Sender
request_sender code =
    if code == 0
    then some quipc
    else if code == 1
    then some msapm
    else if code == 2
    then some msapu
    else if code == 3
    then some gpsone_daemon
    else none

abbrev pub engine_msg : CtrlMsg → Bool → RequestType → Sender → EngineMsg
engine_msg m request t gpsone_daemon = req_rel_bit t m.ipv4_addr m.ipv6_addr request
engine_msg m request t s = req_rel_wifi t s m.ssid m.password request

abbrev to_engine : CtrlMsg → Bool → Option RequestType → Option Sender → ℤ × List EngineMsg
to_engine m request (some t) (some s) = (pos 0, engine_msg m request t s ∷ [])
to_engine m request _ _ = (minus_one, [])

-- The return value and the messages sent; `has_handle` is whether `loc_api_handle` is set.
unfoldable pub if_request_handler : Bool → CtrlMsg → ℤ × List EngineMsg
unfolding request_type request_sender
if_request_handler has_handle m =
    if has_handle
    then to_engine m true (request_type m.req_type) (request_sender m.sender_id)
    else (pos 1, [])

unfoldable pub if_release_handler : CtrlMsg → ℤ × List EngineMsg
unfolding request_type request_sender
if_release_handler m = to_engine m false (request_type m.req_type) (request_sender m.sender_id)

unfoldable pub dispatch : Bool → CtrlMsg → List EngineMsg
unfolding if_request_handler if_release_handler
dispatch has_handle m =
    if m.ctrl_type == gpsone_loc_api_if_request
    then (if_request_handler has_handle m).1
    else if m.ctrl_type == gpsone_loc_api_if_release
    then (if_release_handler m).1
    else []

-- `layout` is how the compiler lays a received message out as a `ctrl_msgbuf`, and `buf_size` the size of the
-- buffer, 256 more than a `ctrl_msgbuf`.
module _ (os : PipeCalls) (layout : Bytes → CtrlMsg) (buf_size : ℕ) where
  -- One call of `loc_api_server_proc`: its result, what it sends to the engine and the pipe;
  -- `allocated` is whether `malloc` gave the buffer.
  unfoldable pub loc_api_server_proc : Bool → Bool → Bytes → ℤ × List EngineMsg × Bytes
  unfolding dispatch msgrcv
  loc_api_server_proc allocated has_handle pipe =
      let (length, message, pipe') = msgrcv os buf_size pipe in
      if not allocated
      then (minus_one, [], pipe)
      else if leb (pos_part length) 0
      then (pos 0, [], pipe')
      else (pos 0, dispatch has_handle (layout message), pipe')

-- The pipes that answers go to
pub record Pipes : Type 0 where
  pub quipc_q : Bytes
  pub msapm_q : Bytes
  pub msapu_q : Bytes
  pub loc_api_resp_q : Bytes

abbrev pub pipe_of : Sender → Pipes → Bytes
pipe_of quipc p = p.quipc_q
pipe_of msapm p = p.msapm_q
pipe_of msapu p = p.msapu_q
pipe_of gpsone_daemon p = p.loc_api_resp_q

abbrev pub with_pipe : Sender → Bytes → Pipes → Pipes
with_pipe quipc b p = record p { quipc_q = b }
with_pipe msapm b p = record p { msapm_q = b }
with_pipe msapu b p = record p { msapu_q = b }
with_pipe gpsone_daemon b p = record p { loc_api_resp_q = b }

-- `encode` lays out a response with a status, `msg_size` bytes long.
module _ (os : PipeCalls) (encode : ℤ → Bytes) (msg_size : ℕ) where
  abbrev respond_to : Option Sender → ℤ → Pipes → ℤ × Pipes
  respond_to none status pipes = (pos 0, pipes)
  respond_to (some s) status pipes =
      let (result, buf, pipe) = msgsnd os (encode status) msg_size (pipe_of s pipes) in
      (if ltb_ℤ result (pos 0) then minus_one else pos 0, with_pipe s pipe pipes)

  unfoldable pub loc_api_server_data_conn : ℕ → ℤ → Pipes → ℤ × Pipes
  unfolding request_sender
  loc_api_server_data_conn sender_id status pipes =
      respond_to (request_sender sender_id) status pipes
