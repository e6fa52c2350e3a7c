-- ===== src/LocApi/Agps/Ds/Released.antt =====
-- DSStateMachine of gps/loc_api/libloc_api_50001/loc_eng_agps.cpp: the release of a data call that is still
-- pending.
use mathlib.Core.List.{append-nil, append_assoc}
use vibe_xperia.Prelude.{
  ◌≡◌, refl, sym, ap, ◌∙◌, ℕ, Bool, true, false, ◌||◌, List, [], ◌∷◌, ◌++◌, pos, length,
  if◌then◌else◌, if_then,
}
use vibe_xperia.LocApi.Agps.{
  AgpsState, released, pending, Message, messages, rsrc_released, rsrc_denied, SubscriberKind, bit,
  atl, wifi, ds, Subscriber, broadcast_all, to_group, AgpsStateMachine, Event, released_now, denied,
  on_event, on_rsrc_event,
}
use vibe_xperia.LocApi.Agps.Notify.{told, told_each, members, group_told}
use vibe_xperia.LocApi.Agps.Answers.{pending_answers}
use vibe_xperia.LocApi.Agps.Ds.{
  DsAnswer, request_atl, Ds, on_machine, AdapterCall, inform_status, inform_all, drop, ds_handler,
  ds_on_event, same_state, ds_on_rsrc_event,
}

ds_at :
    (a : DsAnswer) (st : AgpsState) (e : Event) (d : Ds)
    → d.machine.state_ptr ≡ st
    → ds_on_event a e d ≡ ds_handler a st e d
unfolding ds_on_event
ds_at a st e d q = ap (λ (t : AgpsState). ds_handler a t e d) q

drop-all {ℓ} : {A : Type ℓ} (xs : List A) → drop (length xs) xs ≡ []
drop-all [] = refl
drop-all (x ∷ xs) = drop-all xs

drop-append {ℓ} : {A : Type ℓ} (xs ys : List A) → drop (length xs) (xs ++ ys) ≡ ys
drop-append [] ys = refl
drop-append (x ∷ xs) ys = drop-append xs ys

-- A call that leaves the machine as it is
on_machine_same :
    (f : AgpsStateMachine → AgpsStateMachine) (d : Ds)
    → f d.machine ≡ d.machine
    → on_machine f d ≡ d
unfolding on_machine inform_all
on_machine_same f d e =
    ap
      (λ (m : AgpsStateMachine).
        inform_all (drop (length d.machine.sent) m.sent) (record d { machine = m }))
      e
    ∙ ap (λ (ms : List Message). inform_all ms d) (drop-all d.machine.sent)

-- A call that sends messages
on_machine_told :
    (f : AgpsStateMachine → AgpsStateMachine) (d : Ds) (m : AgpsStateMachine) (ms : List Message)
    → f d.machine ≡ record m { sent = d.machine.sent ++ ms }
    → on_machine f d ≡ inform_all ms (record d { machine = f d.machine })
unfolding on_machine
on_machine_told f d m ms e =
    ap
      (λ (sent : List Message).
        inform_all (drop (length d.machine.sent) sent) (record d { machine = f d.machine }))
      (ap (λ (t : AgpsStateMachine). t.sent) e)
    ∙ ap (λ (t : List Message). inform_all t (record d { machine = f d.machine }))
        (drop-append d.machine.sent ms)

-- The requests for a normal connection, one for each subscriber of the data services, and whether there is one
abbrev is_ds : SubscriberKind → Bool
is_ds ds = true
is_ds bit = false
is_ds atl = false
is_ds wifi = false

abbrev pub atl_requests : List Subscriber → List AdapterCall
atl_requests [] = []
atl_requests (s ∷ xs) =
    let rest = atl_requests xs in if is_ds s.kind then request_atl (pos s.id) ∷ rest else rest

abbrev pub any_ds : List Subscriber → Bool
any_ds [] = false
any_ds (s ∷ xs) = is_ds s.kind || any_ds xs

-- The machine's counts and calls after such requests
abbrev pub fallen_back : List Subscriber → Ds → Ds
fallen_back xs d = record d {
  retries = if any_ds xs then 0 else d.retries;
  calls = d.calls ++ atl_requests xs;
}

if_same {ℓ} : {A : Type ℓ} (b : Bool) (x : A) → (if b then x else x) ≡ x
if_same true x = refl
if_same false x = refl

denied_one :
    (k : SubscriberKind) (i : ℕ) (ms : List Message) (xs : List Subscriber) (d : Ds)
    → ((u : Ds) → inform_all ms u ≡ fallen_back xs u)
    → inform_all (messages k i rsrc_denied ++ ms) d ≡ record d {
      retries = if is_ds k || any_ds xs then 0 else d.retries;
      calls =
          d.calls ++ (if is_ds k then request_atl (pos i) ∷ atl_requests xs else atl_requests xs);
    }
unfolding inform_all inform_status messages
denied_one bit i ms xs d h = h d
denied_one atl i ms xs d h = h d
denied_one wifi i ms xs d h = h d
denied_one ds i ms xs d h =
    h (inform_status rsrc_denied (pos i) d)
    ∙ ap
        (λ (r : ℕ). record d {
          retries = r;
          calls = (d.calls ++ request_atl (pos i) ∷ []) ++ atl_requests xs;
        })
        (if_same (any_ds xs) 0)
    ∙ ap (λ (t : List AdapterCall). record d { retries = 0; calls = t })
        (append_assoc d.calls (request_atl (pos i) ∷ []) (atl_requests xs))

inform_all-denied :
    (xs : List Subscriber) (d : Ds) → inform_all (told_each rsrc_denied xs) d ≡ fallen_back xs d
unfolding inform_all
inform_all-denied [] d =
    ap (λ (t : List AdapterCall). record d { calls = t }) (sym (append-nil d.calls))
inform_all-denied (s ∷ xs) d =
    denied_one s.kind s.id (told_each rsrc_denied xs) xs d (inform_all-denied xs)

members_all : (xs : List Subscriber) → members broadcast_all true xs ≡ xs
members_all [] = refl
members_all (s ∷ xs) = ap (λ (t : List Subscriber). s ∷ t) (members_all xs)

told_all :
    (xs : List Subscriber)
    → told (to_group broadcast_all rsrc_denied true) xs ≡ told_each rsrc_denied xs
told_all xs = group_told broadcast_all rsrc_denied xs ∙ ap (told_each rsrc_denied) (members_all xs)

-- The machine after the denial of a data call that is pending
abbrev pub denied_machine : AgpsStateMachine → AgpsStateMachine
denied_machine m = record m {
  state_ptr = released;
  subscribers = [];
  sent = m.sent ++ told_each rsrc_denied m.subscribers;
}

-- A release while the data call is pending is handled as a denial: the machine is released, every subscriber
-- is told RSRC_DENIED, in their order, and removed, and nothing is asked of the service. For each
-- subscriber of the data services, in their order, the adapter is asked once for a normal connection with
-- the subscriber's identifier, and nothing else; if there is one, the count of retries is 0.
pub ds_released_pending :
    (a : DsAnswer) (d : Ds)
    → d.machine.state_ptr ≡ pending
    → ds_on_rsrc_event a rsrc_released d
      ≡ fallen_back d.machine.subscribers (record d { machine = denied_machine d.machine })
unfolding ds_on_rsrc_event ds_handler on_rsrc_event
ds_released_pending a d e =
    let answers = pending_answers d.machine e in
    let xs = d.machine.subscribers in
    let first : ds_on_event a released_now d ≡ d =
      ds_at a pending released_now d e ∙ on_machine_same (on_event released_now) d answers.2 in
    let same : same_state d.machine.state_ptr d.machine.state_ptr ≡ true =
      ap (λ (t : AgpsState). same_state t t) e in
    let after : on_event denied d.machine ≡ denied_machine d.machine =
      answers.1
      ∙ ap
          (λ (t : List Message). record d.machine {
            state_ptr = released;
            subscribers = [];
            sent = d.machine.sent ++ t;
          })
          (told_all xs) in
    ap
      (λ (x : Ds).
        if same_state x.machine.state_ptr d.machine.state_ptr then ds_on_event a denied x else x)
      first
    ∙ if_then (same_state d.machine.state_ptr d.machine.state_ptr) (ds_on_event a denied d) d same
    ∙ ds_at a pending denied d e
    ∙ on_machine_told (on_event denied) d (denied_machine d.machine) (told_each rsrc_denied xs)
        after
    ∙ ap
        (λ (m : AgpsStateMachine). inform_all (told_each rsrc_denied xs) (record d { machine = m }))
        after
    ∙ inform_all-denied xs (record d { machine = denied_machine d.machine })
