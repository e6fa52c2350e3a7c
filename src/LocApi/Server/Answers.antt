-- ===== src/LocApi/Server/Answers.antt =====
-- Requests and answers of gps/loc_api/libloc_api_50001/loc_eng_dmn_conn.cpp.
use vibe_xperia.Prelude.{
  ℕ, ◌+◌, ◌≤◌, ◌<◌, Bool, true, false, some, List, [], ◌∷◌, ◌++◌, ℤ, pos, ◌≡◌, arith, ap, ◌∙◌, ◌&&◌,
  not, if◌then◌else◌, length,
}
use vibe_xperia.LocApi.Pipe.{Bytes, PipeCalls, size_bytes, size_mod}
use vibe_xperia.LocApi.Pipe.Framed.{IsPipe, frame, msgrcv-frame, msgsnd-frame, buffer}
use vibe_xperia.LocApi.Server.{
  CtrlMsg, RequestType, Sender, EngineMsg, request_type, request_sender, engine_msg, dispatch,
  loc_api_server_proc, Pipes, pipe_of, with_pipe, loc_api_server_data_conn,
  gpsone_loc_api_if_request, gpsone_loc_api_if_release,
}

module _ (os : PipeCalls) (whole : ℕ) (is : IsPipe os whole) (layout : Bytes → CtrlMsg)
    (buf_size : ℕ) (body rest : Bytes) (fits : size_bytes + length body ≤ buf_size)
    (small : size_bytes + length body < size_mod) (t : RequestType) (s : Sender)
    (of_type : request_type (layout (frame body)).req_type ≡ some t)
    (of_sender : request_sender (layout (frame body)).sender_id ≡ some s) where
  abbrev msg : CtrlMsg
  msg = layout (frame body)

  dispatch_request :
      (has_handle : Bool)
      → msg.ctrl_type ≡ gpsone_loc_api_if_request
      → dispatch has_handle msg ≡ (if has_handle then engine_msg msg true t s ∷ [] else [])
  unfolding dispatch
  dispatch_request has_handle c = rw (of_type, of_sender) (ground (arith, c))

  dispatch_release :
      (has_handle : Bool)
      → msg.ctrl_type ≡ gpsone_loc_api_if_release
      → dispatch has_handle msg ≡ engine_msg msg false t s ∷ []
  unfolding dispatch
  dispatch_release has_handle c = rw (of_type, of_sender) (ground (arith, c))

  received_one :
      (has_handle : Bool)
      → loc_api_server_proc os layout buf_size true has_handle (frame body ++ rest)
        ≡ (pos 0, dispatch has_handle msg, rest)
  unfolding loc_api_server_proc
  received_one has_handle =
      rw (msgrcv-frame os whole is body rest buf_size fits small) (ground arith)

  -- A request in the pipe with a known type and sender becomes exactly one message to the engine, of the
  -- same type, sender and addresses, and leaves the rest of the pipe; without the engine's handle it is
  -- dropped. A release becomes its message with or without that handle.
  pub loc_api_server_proc-message :
      (request has_handle : Bool)
      → msg.ctrl_type ≡ (if request then gpsone_loc_api_if_request else gpsone_loc_api_if_release)
      → loc_api_server_proc os layout buf_size true has_handle (frame body ++ rest)
        ≡ (pos 0, if request && not has_handle then [] else engine_msg msg request t s ∷ [], rest)
  loc_api_server_proc-message true true c =
      received_one true ∙ ap (λ (m : List EngineMsg). (pos 0, m, rest)) (dispatch_request true c)
  loc_api_server_proc-message true false c =
      received_one false ∙ ap (λ (m : List EngineMsg). (pos 0, m, rest)) (dispatch_request false c)
  loc_api_server_proc-message false h c =
      received_one h ∙ ap (λ (m : List EngineMsg). (pos 0, m, rest)) (dispatch_release h c)

module _ (os : PipeCalls) (whole : ℕ) (is : IsPipe os whole) (encode : ℤ → Bytes) (body : ℤ → Bytes)
    (status : ℤ) (pipes : Pipes) (s : Sender) (sender_id : ℕ)
    (laid_out : encode status ≡ buffer (body status))
    (fits : size_bytes + length (body status) ≤ whole)
    (known : request_sender sender_id ≡ some s) where
  -- The answer goes, with its size in front, to the end of the pipe of the sender that asked, and to no other.
  pub data_conn_answers :
      loc_api_server_data_conn os encode (size_bytes + length (body status)) sender_id status pipes
      ≡ (pos 0, with_pipe s (pipe_of s pipes ++ frame (body status)) pipes)
  unfolding loc_api_server_data_conn
  data_conn_answers =
      rw (known, laid_out, loc_api_server_data_conn)
        (rw (msgsnd-frame os whole is (body status) (pipe_of s pipes) fits) (ground arith))
