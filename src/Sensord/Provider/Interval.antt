-- ===== src/Sensord/Provider/Interval.antt =====
-- The interval of the provider's thread.
use Prim.Native.Nat.{◌∣◌}
use native.Mathlib.Nat.{dvd_trans, dvd_refl}
use vibe_xperia.Prelude.{
  ℕ, zero, suc, ◌^◌, ◌≤◌, ◌<◌, ◌≡◌, refl, sym, subst, ap, ◌∙◌, Bool, true, false, List, [], ◌∷◌,
  Option, none, some, inl, inr, arith, ◌==◌, if◌then◌else◌, Bool-cases, Option-cases, ℤ, pos,
  negsuc, abs, length, get_elem?,
}
use vibe_xperia.Sensord.UtilMisc.{Memory, list_add_head, list_find_node, get_max_comm_div}
use vibe_xperia.Sensord.UtilMisc.Arith.{get_max_comm_div-IsGcd}
use vibe_xperia.Sensord.UtilMisc.Chain.{Chain}
use vibe_xperia.Sensord.Hw.{Driver}
use vibe_xperia.Sensord.Provider.State.{state_sleep, Channel, Provider, Ops, World, to_u16}
use vibe_xperia.Sensord.Provider.{
  list_fuel, clients_interval, raw_interval, sp_recalc_interval_re, sp_re_check_dep_hw, checked,
  link_ch, count_client, sp_enable_ch,
}

to_u16-lt : (z : ℤ) → to_u16 z < 2 ^ 16
to_u16-lt (pos n) = omega arith
to_u16-lt (negsuc n) = omega arith

raw_interval-lt : {S Dev : Type 0} (ops : Ops S) (w : World S Dev) → raw_interval ops w < 2 ^ 16
unfolding raw_interval
raw_interval-lt ops w = elim (Option-cases ops.get_hint_proc_interval) [
  | inl e ↦ rw (e, raw_interval) (to_u16-lt _)
  | inr (hint, e) ↦ rw (e, raw_interval) (to_u16-lt (hint w.vars))
]

-- The interval is at least 5 ms and fits its 16 bits, whatever the provider asks for.
pub sp_recalc_interval_re-bounds :
    {S Dev : Type 0} (ops : Ops S) (w : World S Dev)
    → let g = sp_recalc_interval_re ops w in (5 ≤ g.sp.interval) × (g.sp.interval < 2 ^ 16)
unfolding sp_recalc_interval_re raw_interval
sp_recalc_interval_re-bounds ops w = ground (arith, raw_interval-lt ops w)

-- The nodes are channels, and `d` divides the intervals of those that are on.
abbrev pub DividesAll : ℕ → List Channel → List ℕ → Type 0
DividesAll d chs [] = Unit {0}
DividesAll d chs (x ∷ xs) = elim (get_elem? chs x) [
  | none ↦ Unit {0}
  | some ch ↦ ((ch.state == state_sleep) ≡ false → d ∣ abs ch.interval) × DividesAll d chs xs
]

abbrev pub AllChannels : List Channel → List ℕ → Type 0
AllChannels chs [] = Unit {0}
AllChannels chs (x ∷ xs) = ((ch : Channel) × (get_elem? chs x ≡ some ch)) × AllChannels chs xs

false_of : {b : Bool} → b ≡ true → b ≡ false → ⊥
false_of t f = cc

clients_interval-next :
    (f : ℕ) (chs : List Channel) (m : Memory) (p : Option ℕ) (val : ℤ) (x : ℕ) (ch : Channel)
    → p ≡ some x
    → get_elem? chs x ≡ some ch
    → clients_interval (suc f) chs m p val
      ≡ clients_interval f chs m
          (m x)
          (if ch.state == state_sleep then val else get_max_comm_div val ch.interval)
unfolding clients_interval
clients_interval-next f chs m p val x ch c e = rw (c, e, clients_interval) refl

clients_interval_end :
    (f : ℕ) (chs : List Channel) (m : Memory) (p : Option ℕ) (val : ℤ)
    → p ≡ none
    → clients_interval f chs m p val ≡ val
unfolding clients_interval
clients_interval_end zero chs m p val e = refl
clients_interval_end (suc f) chs m p val e = rw (e, clients_interval) refl

-- With fuel for the whole list the loop over the clients ends with a common divisor of the value it
-- started from and the intervals of all clients that are on.
pub clients_interval-DividesAll :
    (fuel : ℕ) (chs : List Channel) (m : Memory) (p : Option ℕ) (val : ℤ) (xs : List ℕ)
    → length xs < fuel
    → Chain m p xs
    → AllChannels chs xs
    → let d = abs (clients_interval fuel chs m p val) in (d ∣ abs val) × DividesAll d chs xs
unfolding clients_interval
clients_interval-DividesAll zero chs m p val xs h c v = absurd (omega arith)
clients_interval-DividesAll (suc f) chs m p val [] h c v =
    rw (c, clients_interval) (dvd_refl (abs val), tt)
clients_interval-DividesAll (suc f) chs m p val (x ∷ xs) h c ((ch, e), v) =
    elim (Bool-cases (ch.state == state_sleep)) [
      | inl off ↦
          from (clients_interval f chs m (m x) val) (next ∙ rw off refl)
            (λ on. absurd (false_of off on))
            (clients_interval-DividesAll f chs m (m x) val xs (omega arith) c.1 v)
      | inr on ↦
          let g = get_max_comm_div-IsGcd val ch.interval in
          let r =
            clients_interval-DividesAll f chs m (m x) (get_max_comm_div val ch.interval) xs
              (omega arith) c.1 v in
          from (clients_interval f chs m (m x) (get_max_comm_div val ch.interval))
            (next ∙ rw on refl) (λ _. dvd_trans _ r.0 g.right) (dvd_trans _ r.0 g.left, r.1)
    ]
  where
    next :
        clients_interval (suc f) chs m p val
        ≡ clients_interval f chs m
            (m x)
            (if ch.state == state_sleep then val else get_max_comm_div val ch.interval)
    next = clients_interval-next f chs m p val x ch c.0 e

    from :
        (z : ℤ)
        → clients_interval (suc f) chs m p val ≡ z
        → ((ch.state == state_sleep) ≡ false → abs z ∣ abs ch.interval)
        → (abs z ∣ abs val) × DividesAll (abs z) chs xs
        → let d = abs (clients_interval (suc f) chs m p val) in
          (d ∣ abs val) × DividesAll d chs (x ∷ xs)
    from z q on r =
        subst (λ y. (abs y ∣ abs val) × DividesAll (abs y) chs (x ∷ xs)) (sym q)
          (rw (e, DividesAll) (r.0, (on, r.1)))

recalc_first :
    {S Dev : Type 0} (ops : Ops S) (g : World S Dev) (i : ℕ) (ch : Channel)
    → ops.get_hint_proc_interval ≡ none
    → g.sp.clients ≡ some i
    → g.links i ≡ none
    → get_elem? g.channels i ≡ some ch
    → ch.state ≡ state_sleep
    → (sp_recalc_interval_re ops g).sp.interval ≡ 1000
unfolding sp_recalc_interval_re raw_interval
recalc_first ops g i ch no_hint c l at asleep = rw (no_hint, raw_interval, loop) refl
  where
    loop :
        clients_interval (list_fuel g.channels) g.channels g.links g.sp.clients (pos 1000)
        ≡ pos 1000
    loop =
        clients_interval-next (length g.channels) g.channels g.links g.sp.clients (pos 1000) i ch c
          at
        ∙ clients_interval_end (length g.channels) g.channels g.links (g.links i) _ l
        ∙ rw asleep refl

linked_first :
    {S Dev : Type 0} (w : World S Dev) (i : ℕ)
    → w.sp.clients ≡ none
    → ((link_ch w i true).links i ≡ none)
      × ((link_ch w i true).sp.clients ≡ some i)
      × ((link_ch w i true).channels ≡ w.channels)
unfolding link_ch list_find_node list_add_head
linked_first w i e = ground arith

after_checked :
    {S Dev : Type 0} (ops : Ops S) (w : World S Dev)
    → let g = checked ops w in (g.links ≡ w.links) × (g.sp ≡ w.sp) × (g.channels ≡ w.channels)
unfolding checked
after_checked ops w = ground arith

count_client-interval : (sp : Provider) (on : Bool) → (count_client sp on).interval ≡ sp.interval
unfolding count_client
count_client-interval sp true = ground arith
count_client-interval sp false = ground arith

-- A provider without `get_hint_proc_interval` whose first channel is switched on gets an interval of
-- 1000 ms, whatever the interval of the channel is: the state of the channel is set later.
pub sp_enable_ch_first :
    {S Dev : Type 0} (driver : Driver Dev) (ops : Ops S) (w : World S Dev) (i : ℕ) (ch : Channel)
    → ops.get_hint_proc_interval ≡ none
    → w.sp.clients ≡ none
    → get_elem? w.channels i ≡ some ch
    → ch.state ≡ state_sleep
    → (sp_enable_ch driver ops w i ch true).sp.interval ≡ 1000
unfolding sp_enable_ch sp_re_check_dep_hw
sp_enable_ch_first driver ops w i ch no_hint empty at asleep =
    let vars = (ops.on_ch_enabled (link_ch w i true).vars ch.typ ch.cfg.bypass_proc true).1 in
    let w2 = (sp_re_check_dep_hw driver ops (record (link_ch w i true) { vars = vars })).0 in
    let (links, sp, channels) = after_checked ops w2 in
    let (alone, head, same) = linked_first w i empty in
    ground (
      arith,
      count_client-interval (sp_recalc_interval_re ops (checked ops w2)).sp true,
      recalc_first ops (checked ops w2) i ch no_hint (ap (λ s. s.clients) sp ∙ head)
          (ap (λ l. l i) links ∙ alone) (ap (λ cs. get_elem? cs i) (channels ∙ same) ∙ at) asleep,
    )
