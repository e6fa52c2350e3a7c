-- ===== src/LocApi/Agps/Subscribers.antt =====
-- The subscribers of the state machine, the notifications that they get and the messages that they send.
use vibe_xperia.Prelude.{
  ℕ, ◌^◌, ◌-◌, Bool, true, false, not, ◌&&◌, ◌||◌, List, [], ◌∷◌, Option, none, some, ◌==◌,
  if◌then◌else◌,
}

-- `AgpsRsrcStatus`
pub data AgpsRsrcStatus : Type 0 where
  rsrc_subscribe : AgpsRsrcStatus
  rsrc_unsubscribe : AgpsRsrcStatus
  rsrc_granted : AgpsRsrcStatus
  rsrc_released : AgpsRsrcStatus
  rsrc_denied : AgpsRsrcStatus
  rsrc_status_max : AgpsRsrcStatus

-- The classes derived from `Subscriber`
pub data SubscriberKind : Type 0 where
  bit : SubscriberKind
  atl : SubscriberKind
  wifi : SubscriberKind
  ds : SubscriberKind

-- `mIPv6Addr` of a BITSubscriber is a string, of which the comparison is all that counts.
pub record Subscriber : Type 0 where
  pub kind : SubscriberKind
  pub id : ℕ
  pub ipv6_addr : ℕ
  pub is_inactive : Bool

pub data Group : Type 0 where
  no_group : Group
  broadcast_all : Group
  broadcast_active : Group
  broadcast_inactive : Group

-- `rcver` is what a read of the receiver gives.
pub record Notification : Type 0 where
  pub rcver : Option Subscriber
  pub group_id : Group
  pub rsrc_status : AgpsRsrcStatus
  pub post_notify_delete : Bool

-- The calls that tell a subscriber's client: the data connection of the daemon (BIT and WIFI), the status
-- of an ATL, and `informStatus` of the data services
pub data Message : Type 0 where
  data_conn : SubscriberKind → ℕ → AgpsRsrcStatus → Message
  atl_close_status : ℕ → Message
  atl_open_status : ℕ → Bool → Message
  inform_status : AgpsRsrcStatus → ℕ → Message

-- `inline virtual bool isInactive()`
abbrev pub inactive : Subscriber → Bool
inactive s = elim s.kind [ bit ↦ false | atl ↦ false | wifi ↦ s.is_inactive | ds ↦ s.is_inactive ]

abbrev pub wait_for_close_complete : Subscriber → Bool
wait_for_close_complete s = elim s.kind [ bit ↦ false | atl ↦ false | wifi ↦ true | ds ↦ true ]

-- `INADDR_NONE`
abbrev inaddr_none : ℕ
inaddr_none = 2 ^ 32 - 1

unfoldable pub equals : Subscriber → Subscriber → Bool
equals s r = elim s.kind [
  | bit ↦ s.id == r.id && (not (s.id == inaddr_none) || (s.ipv6_addr == r.ipv6_addr))
  | atl ↦ s.id == r.id
  | wifi ↦ s.id == r.id
  | ds ↦ s.id == r.id
]

abbrev in_group : Subscriber → Group → Bool
in_group s no_group = false
in_group s broadcast_all = true
in_group s broadcast_active = not (inactive s)
in_group s broadcast_inactive = inactive s

unfoldable pub for_me : Notification → Subscriber → Bool
for_me n s = elim n.rcver [ some r ↦ equals s r | none ↦ in_group s n.group_id ]

-- the cases of `notifyRsrcStatus` that are not the default
abbrev pub is_news : AgpsRsrcStatus → Bool
is_news rsrc_unsubscribe = true
is_news rsrc_released = true
is_news rsrc_denied = true
is_news rsrc_granted = true
is_news rsrc_subscribe = false
is_news rsrc_status_max = false

-- What each kind sends for such a case
unfoldable pub messages : SubscriberKind → ℕ → AgpsRsrcStatus → List Message
messages bit i rsrc_unsubscribe = data_conn bit i rsrc_released ∷ []
messages bit i st = data_conn bit i st ∷ []
messages wifi i rsrc_unsubscribe = []
messages wifi i st = data_conn wifi i st ∷ []
messages ds i st = inform_status st i ∷ []
messages atl i rsrc_denied = atl_open_status i false ∷ []
messages atl i rsrc_granted = atl_open_status i true ∷ []
messages atl i st = atl_close_status i ∷ []

unfoldable pub notify_rsrc_status : Notification → Subscriber → Bool × List Message
notify_rsrc_status n s =
    if for_me n s && is_news n.rsrc_status
    then (true, messages s.kind s.id n.rsrc_status)
    else (false, [])
