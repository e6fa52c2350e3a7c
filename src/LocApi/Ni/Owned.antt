-- ===== src/LocApi/Ni/Owned.antt =====
-- Who holds the payload of a request in gps/loc_api/libloc_api_50001/loc_eng_ni.cpp, over any interleaving of its
-- threads.
use vibe_xperia.Prelude.{
  ℕ, ◌+◌, ◌-◌, ◌<◌, Bool, true, false, Option, none, some, List, [], ◌∷◌, ◌++◌, ◌≡◌, ap, arith,
  ◌==◌, if◌then◌else◌, b2n, ◌&&◌,
}
use vibe_xperia.LocApi.Ni.{
  UserResponse, NiNotification, Ni, loc_eng_ni_request_handler, loc_eng_ni_respond, ni_thread_wake,
  ni_thread_leave, ni_thread_finish, loc_eng_ni_reset_on_engine_restart,
}

-- A message of a thread, `none` where it has none
abbrev pub Msg : Type 0
Msg = Option (UserResponse × ℕ)

-- The data, the number of threads in their loop, the messages of those that have left it, and the payloads
-- that the engine handed over
pub record System : Type 0 where
  pub ni : Ni
  pub waiting : ℕ
  pub finishing : List Msg
  pub given : List ℕ

abbrev pub payload_list : Option ℕ → List ℕ
payload_list none = []
payload_list (some p) = p ∷ []

-- `created` is whether the thread could be created.
unfoldable pub requested : NiNotification → Option ℕ → Bool → System → System
unfolding loc_eng_ni_request_handler
requested notif p created s =
    let (n, spawn) = loc_eng_ni_request_handler notif p s.ni in
    record s {
      ni = n;
      waiting = s.waiting + b2n (spawn && created);
      given = s.given ++ payload_list p;
    }

unfoldable pub woken : Bool → System → System
unfolding ni_thread_wake ni_thread_leave
woken timed_out s =
    let (n, leaves) = ni_thread_wake timed_out s.ni in
    let (n', msg) = ni_thread_leave n in
    if leaves
    then record s { ni = n'; waiting = s.waiting - 1; finishing = msg ∷ s.finishing }
    else record s { ni = n }

-- The steps of all threads, in any order
pub data Steps (s : System) : System → Type 0 where
  here : Steps s s
  request :
      {t : System}
      → Steps s t
      → (notif : NiNotification) (p : Option ℕ) (created : Bool)
      → Steps s (requested notif p created t)
  respond :
      {t : System}
      → Steps s t
      → (id : ℕ) (r : UserResponse) → Steps s (record t { ni = loc_eng_ni_respond id r t.ni })
  restart :
      {t : System} → Steps s t → Steps s (record t { ni = loc_eng_ni_reset_on_engine_restart t.ni })
  wake : {t : System} → Steps s t → (timed_out : Bool) → 0 < t.waiting → Steps s (woken timed_out t)
  finish :
      {t : System}
      → Steps s t
      → (before after : List Msg) (m : Msg) → t.finishing ≡ before ++ m ∷ after
      → Steps s (record t { ni = ni_thread_finish m t.ni; finishing = before ++ after })

module _ (p : ℕ) where
  unfoldable pub occurs : List ℕ → ℕ
  occurs [] = 0
  occurs (q ∷ qs) = b2n (q == p) + occurs qs

  unfoldable pub occurs_in_sent : List (UserResponse × ℕ) → ℕ
  occurs_in_sent [] = 0
  occurs_in_sent ((r, q) ∷ ms) = b2n (q == p) + occurs_in_sent ms

  abbrev pub in_msg : Msg → ℕ
  in_msg none = 0
  in_msg (some (r, q)) = b2n (q == p)

  unfoldable pub occurs_in_msgs : List Msg → ℕ
  occurs_in_msgs [] = 0
  occurs_in_msgs (m ∷ ms) = in_msg m + occurs_in_msgs ms

  abbrev pub in_request : Option ℕ → ℕ
  in_request none = 0
  in_request (some q) = b2n (q == p)

  -- The places where the payload is: the pending request, a thread's message, freed or sent
  abbrev pub places : System → ℕ
  places s =
      in_request s.ni.raw_request
      + occurs_in_msgs s.finishing
      + occurs s.ni.freed
      + occurs_in_sent s.ni.sent

  occurs-append : (xs ys : List ℕ) → occurs (xs ++ ys) ≡ occurs xs + occurs ys
  unfolding occurs
  occurs-append [] ys = omega arith
  occurs-append (x ∷ xs) ys = omega (arith, occurs-append xs ys)

  occurs_in_sent-append :
      (xs ys : List (UserResponse × ℕ))
      → occurs_in_sent (xs ++ ys) ≡ occurs_in_sent xs + occurs_in_sent ys
  unfolding occurs_in_sent
  occurs_in_sent-append [] ys = omega arith
  occurs_in_sent-append ((r, q) ∷ xs) ys = omega (arith, occurs_in_sent-append xs ys)

  occurs_in_msgs-append :
      (xs ys : List Msg) → occurs_in_msgs (xs ++ ys) ≡ occurs_in_msgs xs + occurs_in_msgs ys
  unfolding occurs_in_msgs
  occurs_in_msgs-append [] ys = omega arith
  occurs_in_msgs-append (m ∷ xs) ys = omega (arith, occurs_in_msgs-append xs ys)

  abbrev Owned : System → Type 0
  Owned s = (s.ni.inited ≡ true) × (places s ≡ occurs s.given)

  requested-Owned :
      (notif : NiNotification) (q : Option ℕ) (created : Bool) (s : System)
      → Owned s
      → Owned (requested notif q created s)
  unfolding requested occurs
  requested-Owned notif none created s h = ground (arith, h, occurs-append s.given [])
  requested-Owned notif (some q) created s h =
      ground (arith, h, occurs-append s.given (q ∷ []), occurs-append s.ni.freed (q ∷ []))

  woken-Owned : (timed_out : Bool) (s : System) → Owned s → Owned (woken timed_out s)
  unfolding woken occurs_in_msgs
  woken-Owned timed_out s h = ground (arith, h)

  restart-Owned :
      (s : System) → Owned s → Owned (record s { ni = loc_eng_ni_reset_on_engine_restart s.ni })
  unfolding loc_eng_ni_reset_on_engine_restart occurs
  restart-Owned s h = one s.ni.raw_request h
    where
      one :
          (o : Option ℕ)
          → Owned (record s { ni = record s.ni { raw_request = o } })
          → Owned (record s {
            ni = loc_eng_ni_reset_on_engine_restart (record s.ni { raw_request = o });
          })
      one none h = ground (arith, h)
      one (some q) h = ground (arith, h, occurs-append s.ni.freed (q ∷ []))

  respond-Owned :
      (id : ℕ) (r : UserResponse) (s : System)
      → Owned s
      → Owned (record s { ni = loc_eng_ni_respond id r s.ni })
  unfolding loc_eng_ni_respond
  respond-Owned id r s h = ground (arith, h)

  finish-Owned :
      (before after : List Msg) (m : Msg) (s : System)
      → s.finishing ≡ before ++ m ∷ after
      → Owned s
      → Owned (record s { ni = ni_thread_finish m s.ni; finishing = before ++ after })
  unfolding ni_thread_finish occurs_in_msgs occurs_in_sent
  finish-Owned before after none s e (i, h) = (
    i,
    omega (
      arith,
      h,
      ap occurs_in_msgs e,
      occurs_in_msgs-append before (none ∷ after),
      occurs_in_msgs-append before after,
    ),
  )
  finish-Owned before after (some (r, q)) s e (i, h) = (
    i,
    omega (
      arith,
      h,
      ap occurs_in_msgs e,
      occurs_in_msgs-append before (some (r, q) ∷ after),
      occurs_in_msgs-append before after,
      occurs_in_sent-append s.ni.sent ((r, q) ∷ []),
    ),
  )

  run-Owned : {s t : System} → Owned s → Steps s t → Owned t
  run-Owned h here = h
  run-Owned h (request {t} st notif q created) = requested-Owned notif q created t (run-Owned h st)
  run-Owned h (respond {t} st id r) = respond-Owned id r t (run-Owned h st)
  run-Owned h (restart {t} st) = restart-Owned t (run-Owned h st)
  run-Owned h (wake {t} st timed_out w) = woken-Owned timed_out t (run-Owned h st)
  run-Owned h (finish {t} st before after m e) = finish-Owned before after m t e (run-Owned h st)

  -- From any state after `loc_eng_ni_init` in which each payload that the engine gave is in as many places
  -- (pending, in a thread's message, freed, sent) as it was given, this stays so over any interleaving of
  -- requests, responses, restarts and the steps of the threads: no payload is lost, answered twice, or
  -- both answered and freed.
  pub Steps-Owned :
      {s t : System}
      → s.ni.inited ≡ true
      → places s ≡ occurs s.given
      → Steps s t
      → places t ≡ occurs t.given
  Steps-Owned i h st = (run-Owned (i, h) st).1

  -- Before `loc_eng_ni_init` a payload that is given is lost: it is neither kept nor freed.
  pub lost_before_init :
      (notif : NiNotification) (created : Bool) (s : System)
      → s.ni.inited ≡ false
      → places (requested notif (some p) created s) ≡ places s
  unfolding requested
  lost_before_init notif created s i = ground (arith, i)
