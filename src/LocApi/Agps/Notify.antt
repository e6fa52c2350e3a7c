-- ===== src/LocApi/Agps/Notify.antt =====
-- What `notifySubscribers` sends and whom it removes.
use vibe_xperia.Prelude.{
  ℕ, zero, suc, ◌<◌, ◌≡◌, refl, ◌∙◌, ap, Bool, true, false, not, ◌&&◌, List, [], ◌∷◌, ◌++◌, arith,
  length, if◌then◌else◌, inl, inr, ◌⊎◌, if_then, if_else, Bool-cases,
}
use vibe_xperia.LocApi.Agps.{
  Subscriber, SubscriberKind, bit, atl, wifi, ds, Group, broadcast_all, broadcast_active,
  broadcast_inactive, no_group, AgpsRsrcStatus, to_group, Notification, Message, is_news, messages,
  for_me, notify_rsrc_status, notify_search, notify_loop, after_delete, notify_subscribers,
  AgpsStateMachine,
}

-- the subscribers that the notification is not for
abbrev pub others : Notification → List Subscriber → List Subscriber
others n [] = []
others n (s ∷ xs) = let rest = others n xs in if for_me n s then rest else s ∷ rest

-- the messages to those that it is for, in the order of the list
abbrev pub told : Notification → List Subscriber → List Message
told n [] = []
told n (s ∷ xs) =
    let rest = told n xs in if for_me n s then messages s.kind s.id n.rsrc_status ++ rest else rest

search_other :
    (n : Notification) (s : Subscriber) (xs : List Subscriber)
    → for_me n s ≡ false
    → notify_search n (s ∷ xs)
      ≡ ((notify_search n xs).0, (notify_search n xs).1, s ∷ (notify_search n xs).2)
unfolding notify_search notify_rsrc_status
search_other n s xs e = rw e refl

search_meant :
    (n : Notification) (s : Subscriber) (xs : List Subscriber)
    → is_news n.rsrc_status ≡ true
    → n.post_notify_delete ≡ true
    → for_me n s ≡ true
    → notify_search n (s ∷ xs) ≡ (true, messages s.kind s.id n.rsrc_status, xs)
unfolding notify_search notify_rsrc_status
search_meant n s xs news del e = rw (e, news, del) refl

-- One search finds nobody and the list stays, or it tells and removes the first that is meant.
abbrev SearchCases : Notification → List Subscriber → Type 0
SearchCases n xs =
    ((notify_search n xs ≡ (false, [], xs)) × (others n xs ≡ xs) × (told n xs ≡ []))
    ⊎ ((ms : List Message) × ((rest : List Subscriber) × (notify_search n xs ≡ (true, ms, rest))
          × (others n xs ≡ others n rest)
          × (told n xs ≡ ms ++ told n rest)
          × (length xs ≡ suc (length rest))))

search_cases :
    (n : Notification) (xs : List Subscriber)
    → is_news n.rsrc_status ≡ true
    → n.post_notify_delete ≡ true
    → SearchCases n xs
unfolding notify_search
search_cases n [] news del = inl (refl, refl, refl)
search_cases n (s ∷ xs) news del = elim (Bool-cases (for_me n s)) [
  | inl e ↦ inr (_, (xs, search_meant n s xs news del e, rw e refl, rw e refl, refl))
  | inr e ↦ elim (search_cases n xs news del) [
    | inl (q, k, t) ↦
        inl (
          search_other n s xs e ∙ ap (λ r. (r.0, r.1, s ∷ r.2)) q,
          rw e (ap (λ l. s ∷ l) k),
          rw e t,
        )
    | inr (ms, (rest, q, k, t, h)) ↦ inr (
      ms,
      (
        s ∷ rest,
        search_other n s xs e ∙ ap (λ r. (r.0, r.1, s ∷ r.2)) q,
        rw e (ap (λ l. s ∷ l) k),
        rw e t,
        ap suc h,
      ),
    )
  ]
]

if_found :
    (freed : Subscriber) (f : ℕ) (n : Notification) (xs rest : List Subscriber) (ms : List Message)
    → notify_search n xs ≡ (true, ms, rest)
    → notify_loop freed (suc f) n xs ≡ (
      ms ++ (notify_loop freed f (after_delete freed n) rest).0,
      (notify_loop freed f (after_delete freed n) rest).1,
    )
unfolding notify_loop
if_found freed f n xs rest ms e = rw e refl

if_missed :
    (freed : Subscriber) (f : ℕ) (n : Notification) (xs : List Subscriber)
    → notify_search n xs ≡ (false, [], xs)
    → notify_loop freed (suc f) n xs ≡ ([], xs)
unfolding notify_loop
if_missed freed f n xs e = rw e refl

notify_loop_lem :
    (freed : Subscriber) (f : ℕ) (g : Group) (st : AgpsRsrcStatus) (xs : List Subscriber)
    → length xs < f
    → is_news st ≡ true
    → notify_loop freed f (to_group g st true) xs
      ≡ (told (to_group g st true) xs, others (to_group g st true) xs)
notify_loop_lem freed zero g st xs h news = absurd (omega arith)
notify_loop_lem freed (suc f) g st xs h news =
    let n = to_group g st true in
    elim (search_cases n xs news refl) [
      | inl (q, k, t) ↦ if_missed freed f n xs q ∙ rw (t, k) refl
      | inr (ms, (rest, q, k, t, l)) ↦
          if_found freed f n xs rest ms q
          ∙ ap (λ r. (ms ++ r.0, r.1)) (notify_loop_lem freed f g st rest (omega (arith, l)) news)
          ∙ rw (t, k) refl
    ]

-- What a notification to a group that deletes, of a status that is news, does
pub notify_delete :
    (g : Group) (st : AgpsRsrcStatus) (m : AgpsStateMachine)
    → is_news st ≡ true
    → notify_subscribers (to_group g st true) m ≡ record m {
      subscribers = others (to_group g st true) m.subscribers;
      sent = m.sent ++ told (to_group g st true) m.subscribers;
    }
unfolding notify_subscribers
notify_delete g st m news =
    let xs = m.subscribers in
    ap
      (λ (r : List Message × List Subscriber). record m { subscribers = r.1; sent = m.sent ++ r.0 })
      (notify_loop_lem m.freed_reads (suc (length xs)) g st xs (omega arith) news)

-- The clients that stay in the list while their connection is given back
abbrev can_be_inactive : SubscriberKind → Bool
can_be_inactive bit = false
can_be_inactive atl = false
can_be_inactive wifi = true
can_be_inactive ds = true

-- Whether a subscriber belongs to a group
abbrev pub belongs : Group → Subscriber → Bool
belongs broadcast_all s = true
belongs broadcast_active s = not (can_be_inactive s.kind && s.is_inactive)
belongs broadcast_inactive s = can_be_inactive s.kind && s.is_inactive
belongs no_group s = false

inactive_lem :
    (k : SubscriberKind) (b : Bool)
    → (elim k as (λ (x : SubscriberKind). Bool) [ bit ↦ false | atl ↦ false | wifi ↦ b | ds ↦ b ])
      ≡ can_be_inactive k && b
inactive_lem bit b = refl
inactive_lem atl b = refl
inactive_lem wifi b = refl
inactive_lem ds b = refl

for_me-group :
    (g : Group) (st : AgpsRsrcStatus) (s : Subscriber) → for_me (to_group g st true) s ≡ belongs g s
unfolding for_me
for_me-group broadcast_all st s = refl
for_me-group broadcast_active st s = ap not (inactive_lem s.kind s.is_inactive)
for_me-group broadcast_inactive st s = inactive_lem s.kind s.is_inactive
for_me-group no_group st s = refl

-- Those of a group, and those outside it, in the order of the list
abbrev pub members : Group → Bool → List Subscriber → List Subscriber
members g inside [] = []
members g inside (s ∷ xs) =
    let rest = members g inside xs in
    if belongs g s then (if inside then s ∷ rest else rest) else (if inside then rest else s ∷ rest)

-- The messages of a status to each of a list
abbrev pub told_each : AgpsRsrcStatus → List Subscriber → List Message
told_each st [] = []
told_each st (s ∷ xs) = messages s.kind s.id st ++ told_each st xs

group_others :
    (g : Group) (st : AgpsRsrcStatus) (xs : List Subscriber)
    → others (to_group g st true) xs ≡ members g false xs
group_others g st [] = refl
group_others g st (s ∷ xs) = rw (for_me-group g st s, group_others g st xs) refl

pub group_told :
    (g : Group) (st : AgpsRsrcStatus) (xs : List Subscriber)
    → told (to_group g st true) xs ≡ told_each st (members g true xs)
group_told g st [] = refl
group_told g st (s ∷ xs) = rw (for_me-group g st s, group_told g st xs) (ground arith)

-- A notification to a group that deletes, of a status that is news, is told to exactly the subscribers of the
-- group, in their order, and the list keeps exactly the others; the loop makes enough searches for that.
-- A notification to one receiver is not among these: the code reads its receiver after it has deleted it.
pub notify_subscribers_delete :
    (g : Group) (st : AgpsRsrcStatus) (m : AgpsStateMachine)
    → is_news st ≡ true
    → notify_subscribers (to_group g st true) m ≡ record m {
      subscribers = members g false m.subscribers;
      sent = m.sent ++ told_each st (members g true m.subscribers);
    }
notify_subscribers_delete g st m news =
    notify_delete g st m news
    ∙ ap
        (λ (r : List Message × List Subscriber). record m {
          subscribers = r.1;
          sent = m.sent ++ r.0;
        })
        (ap (λ (t : List Message). (t, others (to_group g st true) m.subscribers))
            (group_told g st m.subscribers)
          ∙ ap (λ (t : List Subscriber). (told_each st (members g true m.subscribers), t))
              (group_others g st m.subscribers))

tells :
    (n : Notification) (s : Subscriber)
    → for_me n s ≡ true
    → is_news n.rsrc_status ≡ true
    → notify_rsrc_status n s ≡ (true, messages s.kind s.id n.rsrc_status)
unfolding notify_rsrc_status
tells n s e news =
    if_then (for_me n s && is_news n.rsrc_status) _ _
      (ap (λ b. b && is_news n.rsrc_status) e ∙ news)

search_passes :
    (n : Notification) (s : Subscriber) (xs : List Subscriber)
    → is_news n.rsrc_status ≡ true
    → n.post_notify_delete ≡ false
    → for_me n s ≡ true
    → notify_search n (s ∷ xs) ≡ (
      (notify_search n xs).0,
      messages s.kind s.id n.rsrc_status ++ (notify_search n xs).1,
      s ∷ (notify_search n xs).2,
    )
unfolding notify_search notify_rsrc_status
search_passes n s xs news del e =
    let r : Bool × List Message × List Subscriber = notify_search n xs in
    let q = tells n s e news in
    if_else ((notify_rsrc_status n s).0 && n.post_notify_delete) _ _
      (ap (λ b. (notify_rsrc_status n s).0 && b) del ∙ ap (λ t. t.0 && false) q)
    ∙ ap (λ t. (r.0, t.1 ++ r.1, s ∷ r.2)) q

search_visits :
    (n : Notification) (xs : List Subscriber)
    → is_news n.rsrc_status ≡ true
    → n.post_notify_delete ≡ false
    → (notify_search n xs).1 ≡ told n xs
unfolding notify_search notify_rsrc_status
search_visits n [] news del = refl
search_visits n (s ∷ xs) news del = elim (Bool-cases (for_me n s)) [
  | inl e ↦
      ap (λ r. r.1) (search_passes n s xs news del e)
      ∙ ap (λ ms. messages s.kind s.id n.rsrc_status ++ ms) (search_visits n xs news del)
      ∙ rw e refl
  | inr e ↦ ap (λ r. r.1) (search_other n s xs e) ∙ search_visits n xs news del ∙ rw e refl
]

-- One that does not delete is told to exactly those, and the list stays.
pub notify_subscribers_keep :
    (n : Notification) (m : AgpsStateMachine)
    → is_news n.rsrc_status ≡ true
    → n.post_notify_delete ≡ false
    → notify_subscribers n m ≡ record m { sent = m.sent ++ told n m.subscribers }
unfolding notify_subscribers
notify_subscribers_keep n m news del =
    ap
      (λ (r : List Message × List Subscriber). record m { subscribers = r.1; sent = m.sent ++ r.0 })
      (if_else n.post_notify_delete _ _ del
        ∙ ap (λ ms. (ms, m.subscribers)) (search_visits n m.subscribers news del))
