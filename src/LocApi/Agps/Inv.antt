-- ===== src/LocApi/Agps/Inv.antt =====
-- The invariant of the state machine: what the list of subscribers says in each state.
use vibe_xperia.Prelude.{
  ℕ, ◌≡◌, refl, sym, ◌∙◌, ap, subst, Bool, true, false, not, ◌||◌, List, [], ◌∷◌, Option, none,
  some, arith, if◌then◌else◌, if_then, if_else, inl, inr, ◌⊎◌, Bool-cases,
}
use vibe_xperia.LocApi.Agps.{
  AgpsState, released, pending, acquired, releasing, AgpsRsrcStatus, rsrc_status_max, Subscriber,
  SubscriberKind, bit, atl, wifi, ds, broadcast_active, broadcast_all, broadcast_inactive, to_group,
  to_one, inactive, for_me, search, later, is_found, AgpsStateMachine, notify_subscribers,
  has_subscribers, has_active_subscribers, clone, add_subscriber, AgpsStatusValue,
  gps_request_agps_data_conn, gps_release_agps_data_conn, send_rsrc_request, leave, after_leave,
  reopen,
}
use vibe_xperia.LocApi.Agps.Notify.{others}

abbrev pub some_active : List Subscriber → Bool
some_active [] = false
some_active (s ∷ xs) = not (inactive s) || some_active xs

abbrev pub non_empty : List Subscriber → Bool
non_empty [] = false
non_empty (s ∷ xs) = true

is_found_if :
    (b : Bool) (x : ℕ × Subscriber) (r : Option (ℕ × Subscriber))
    → is_found (if b then some x else later r) ≡ b || is_found r
is_found_if true x r = refl
is_found_if false x none = refl
is_found_if false x (some (i, s)) = refl

search-active :
    (xs : List Subscriber)
    → is_found (search (to_group broadcast_active rsrc_status_max false) xs) ≡ some_active xs
unfolding search for_me
search-active [] = refl
search-active (s ∷ xs) =
    is_found_if (not (inactive s)) (0, s) _ ∙ ap (λ b. not (inactive s) || b) (search-active xs)

pub has_active_lem : (m : AgpsStateMachine) → has_active_subscribers m ≡ some_active m.subscribers
unfolding has_active_subscribers
has_active_lem m = search-active m.subscribers

-- Nobody subscribes in the state released; in the states pending and acquired there is an active
-- subscriber, and in the state releasing a subscriber.
abbrev pub InvAt : AgpsState → List Subscriber → Type 0
InvAt released xs = non_empty xs ≡ false
InvAt pending xs = some_active xs ≡ true
InvAt acquired xs = some_active xs ≡ true
InvAt releasing xs = non_empty xs ≡ true

abbrev pub Inv : AgpsStateMachine → Type 0
Inv m = InvAt m.state_ptr m.subscribers

pub clone-active : (s : Subscriber) → inactive (clone s) ≡ false
clone-active s = by_kind s.kind
  where
    by_kind :
        (k : SubscriberKind)
        → (elim k [ bit ↦ false | atl ↦ false | wifi ↦ false | ds ↦ false ]) ≡ false
    by_kind bit = refl
    by_kind atl = refl
    by_kind wifi = refl
    by_kind ds = refl

pub send-subscribers :
    (a : AgpsStatusValue) (m : AgpsStateMachine)
    → (send_rsrc_request a m).subscribers ≡ m.subscribers
unfolding send_rsrc_request
send-subscribers gps_request_agps_data_conn m = ground arith
send-subscribers gps_release_agps_data_conn m = ground arith

-- Adding a subscriber leaves the list as it is, or puts an active one in front.
pub add_cases :
    (s : Subscriber) (m : AgpsStateMachine)
    → (add_subscriber s m ≡ m)
      ⊎ (add_subscriber s m ≡ record m { subscribers = clone s ∷ m.subscribers })
unfolding add_subscriber
add_cases s m =
    elim (Bool-cases (is_found (search (to_one s rsrc_status_max false) m.subscribers))) [
      | inl e ↦ inl (if_then _ _ _ e)
      | inr e ↦ inr (if_else _ _ _ e)
    ]

pub has_subscribers_lem : (m : AgpsStateMachine) → has_subscribers m ≡ non_empty m.subscribers
has_subscribers_lem m = by_list m.subscribers
  where
    by_list : (xs : List Subscriber) → (elim xs [ [] ↦ false | _ ∷ _ ↦ true ]) ≡ non_empty xs
    by_list [] = refl
    by_list (x ∷ xs) = refl

pub leave-state :
    (i : ℕ) (s : Subscriber) (m : AgpsStateMachine) → (leave i s m).state_ptr ≡ m.state_ptr
unfolding leave notify_subscribers
leave-state i s m = ground arith

-- The end of an unsubscription restores the invariant, whatever the list has become.
pub after_leave-Inv :
    (u : AgpsStateMachine)
    → (some_active u.subscribers ≡ true → InvAt u.state_ptr u.subscribers)
    → Inv (after_leave u)
after_leave-Inv u stays = elim (Bool-cases (has_subscribers u)) [
  | inr e ↦ subst Inv (sym (if_then (not (has_subscribers u)) _ _ (ap not e))) (
      ap non_empty (send-subscribers gps_release_agps_data_conn u)
      ∙ sym (has_subscribers_lem u)
      ∙ e)
  | inl e ↦
      subst Inv (sym (if_else (not (has_subscribers u)) _ _ (ap not e)))
        (elim (Bool-cases (has_active_subscribers u)) [
          | inr d ↦ subst Inv (sym (if_then (not (has_active_subscribers u)) _ _ (ap not d))) (
              ap non_empty (send-subscribers gps_release_agps_data_conn u)
              ∙ sym (has_subscribers_lem u)
              ∙ e)
          | inl d ↦
              subst Inv (sym (if_else (not (has_active_subscribers u)) _ _ (ap not d)))
                (stays (sym (has_active_lem u) ∙ d))
        ])
]

pub others-all :
    (st : AgpsRsrcStatus) (d : Bool) (xs : List Subscriber)
    → others (to_group broadcast_all st d) xs ≡ []
unfolding for_me
others-all st d [] = refl
others-all st d (s ∷ xs) = others-all st d xs

pub others-inactive :
    (st : AgpsRsrcStatus) (d : Bool) (xs : List Subscriber)
    → non_empty (others (to_group broadcast_inactive st d) xs)
      ≡ some_active (others (to_group broadcast_inactive st d) xs)
unfolding for_me
others-inactive st d [] = refl
others-inactive st d (s ∷ xs) =
    let rest = others-inactive st d xs in
    elim (Bool-cases (inactive s)) [ inl e ↦ rw e rest | inr e ↦ rw e (rw e refl) ]

pub reopen-Inv :
    (u : AgpsStateMachine) → non_empty u.subscribers ≡ some_active u.subscribers → Inv (reopen u)
reopen-Inv u same = elim (Bool-cases (has_active_subscribers u)) [
  | inl e ↦
      subst Inv (sym (if_then (has_active_subscribers u) _ _ e)) (
        ap some_active (send-subscribers gps_request_agps_data_conn u) ∙ sym (has_active_lem u) ∙ e)
  | inr e ↦
      subst Inv (sym (if_else (has_active_subscribers u) _ _ e)) (same ∙ sym (has_active_lem u) ∙ e)
]
