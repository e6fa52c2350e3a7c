-- ===== src/Sensord/Channel/Inv.antt =====
-- The channels that are on: they are the nodes of the provider's list, and those that are processed are
-- its references.
use vibe_xperia.Prelude.{
  ℕ, zero, suc, ◌+◌, ◌≤◌, ◌<◌, ◌≡◌, refl, sym, subst, ap, ◌∙◌, Bool, true, false, not, ◌&&◌, List,
  [], ◌∷◌, Option, none, some, inl, inr, arith, ◌==◌, if◌then◌else◌, Bool-cases, length, set,
  get_elem?, lt_of_get_elem?, length-set, count, count-le-length, count-set,
}
use vibe_xperia.Sensord.UtilMisc.{Memory, list_add_head, list_find_node}
use vibe_xperia.Sensord.UtilMisc.Chain.{
  Chain, Distinct, elem, erase, Fresh-of_elem, Distinct-erase, elem-erase, list_add_head-Chain,
  list_find_node-elem, list_del_node-Chain,
}
use vibe_xperia.Sensord.Hw.{Driver}
use vibe_xperia.Sensord.Provider.State.{state_sleep, Channel, Provider, Ops, World}
use vibe_xperia.Sensord.Provider.{
  list_fuel, link_ch, sp_re_check_dep_hw, sp_recalc_interval_re, checked, count_client,
  sp_enable_ch,
}
use vibe_xperia.Sensord.Channel.{channel_set_state}

abbrev pub awake : Channel → Bool
awake ch = not (ch.state == state_sleep)

-- A channel that the provider only manages the chips for is not counted.
abbrev pub counted : Channel → Bool
counted ch = awake ch && not ch.cfg.bypass_proc

abbrev pub awake_opt : Option Channel → Bool
awake_opt none = false
awake_opt (some ch) = awake ch

-- The nodes `xs` of the list are the channels that are on, each once; the count is the number of those
-- that are processed.
pub record Linked {S Dev : Type 0} (w : World S Dev) (xs : List ℕ) : Type 0 where
  pub chain : Chain w.links w.sp.clients xs
  pub distinct : Distinct xs
  pub members : (j : ℕ) → elem j xs ≡ awake_opt (get_elem? w.channels j)
  pub number : length xs ≡ count awake w.channels
  pub refs : w.sp.ref ≡ count counted w.channels
  pub small : length w.channels ≤ 31

-- What `sp_enable_ch` leaves in the list and in the count.
record Enabled {S Dev : Type 0} (w : World S Dev) (i : ℕ) (ch : Channel) (on : Bool)
    (g : World S Dev) : Type 0 where
  channels : g.channels ≡ w.channels
  links : g.links ≡ (link_ch w i on).links
  clients : g.sp.clients ≡ (link_ch w i on).sp.clients
  ref : g.sp.ref ≡ (if ch.cfg.bypass_proc then w.sp.ref else (count_client w.sp on).ref)

count_client_ref :
    (sp sp' : Provider) (on : Bool)
    → sp.ref ≡ sp'.ref
    → (count_client sp on).ref ≡ (count_client sp' on).ref
unfolding count_client
count_client_ref sp sp' true e = ground arith
count_client_ref sp sp' false e = ground arith

module _ {S Dev : Type 0} (driver : Driver Dev) (ops : Ops S) where
  checked-same :
      (w : World S Dev)
      → ((checked ops w).channels ≡ w.channels)
        × ((checked ops w).links ≡ w.links)
        × ((checked ops w).sp ≡ w.sp)
  unfolding checked
  checked-same w = ground arith

  link_same :
      (w : World S Dev) (i : ℕ) (on : Bool)
      → ((link_ch w i on).channels ≡ w.channels) × ((link_ch w i on).sp.ref ≡ w.sp.ref)
  unfolding link_ch
  link_same w i true = (refl, refl)
  link_same w i false = (refl, refl)

  sp_enable_ch-Enabled :
      (w : World S Dev) (i : ℕ) (ch : Channel) (on : Bool)
      → Enabled w i ch on (sp_enable_ch driver ops w i ch on)
  unfolding sp_enable_ch sp_re_check_dep_hw sp_recalc_interval_re count_client
  sp_enable_ch-Enabled w i ch true = ground (
    arith,
    link_same w i true,
    checked-same
        (sp_re_check_dep_hw driver ops (record (link_ch w i true) {
          vars = (ops.on_ch_enabled (link_ch w i true).vars ch.typ ch.cfg.bypass_proc true).1;
        })).0,
  )
  sp_enable_ch-Enabled w i ch false = ground (
    arith,
    link_same w i false,
    checked-same
        (sp_re_check_dep_hw driver ops (record (link_ch w i false) {
          vars = (ops.on_ch_enabled (link_ch w i false).vars ch.typ ch.cfg.bypass_proc false).1;
        })).0,
  )

Chain-cong :
    (m m' : Memory) (p p' : Option ℕ) (xs : List ℕ)
    → m' ≡ m
    → p' ≡ p
    → Chain m p xs
    → Chain m' p' xs
Chain-cong m m' p p' xs e f c =
    subst (λ q. Chain m' q xs) (sym f) (subst (λ n. Chain n p xs) (sym e) c)

length-erase : (i : ℕ) (xs : List ℕ) → elem i xs ≡ true → length (erase i xs) + 1 ≡ length xs
length-erase i [] e = cc
length-erase i (x ∷ xs) e = ground (arith, length-erase i xs)

awake-set :
    (chs : List Channel) (i j : ℕ) (new : Channel)
    → i < length chs
    → awake_opt (get_elem? (set chs i new) j)
      ≡ (if i == j then awake new else awake_opt (get_elem? chs j))
awake-set [] i j new h = elim h [ ]
awake-set (x ∷ xs) zero zero new h = refl
awake-set (x ∷ xs) zero (suc j) new h = ground arith
awake-set (x ∷ xs) (suc i) zero new h = ground arith
awake-set (x ∷ xs) (suc i) (suc j) new h = awake-set xs i j new (omega arith) ∙ ground arith

module _ {S Dev : Type 0} (w : World S Dev) (xs : List ℕ) (i : ℕ) (ch new : Channel)
    (inv : Linked w xs) (at : get_elem? w.channels i ≡ some ch)
    (same : new.cfg.bypass_proc ≡ ch.cfg.bypass_proc) where
  fuel_ok : length xs < list_fuel w.channels
  fuel_ok = omega (arith, inv.number, count-le-length awake w.channels)

  elem_at : elem i xs ≡ awake ch
  elem_at = inv.members i ∙ ap awake_opt at

  link_on : awake ch ≡ false → Chain (link_ch w i true).links (link_ch w i true).sp.clients (i ∷ xs)
  unfolding link_ch
  link_on off =
      Chain-cong (list_add_head w.links w.sp.clients i) (link_ch w i true).links (some i) (some i)
        (i ∷ xs) links_eq refl
        (list_add_head-Chain w.links w.sp.clients i xs (Fresh-of_elem i xs (elem_at ∙ off))
          inv.chain)
    where
      find_none : list_find_node (list_fuel w.channels) w.links w.sp.clients i ≡ none
      find_none =
          list_find_node-elem (list_fuel w.channels) w.links w.sp.clients i xs fuel_ok inv.chain
          ∙ rw (elem_at ∙ off) refl

      links_eq : (link_ch w i true).links ≡ list_add_head w.links w.sp.clients i
      links_eq = rw (find_none, link_ch) refl

  link_off : Chain (link_ch w i false).links (link_ch w i false).sp.clients (erase i xs)
  unfolding link_ch
  link_off =
      (list_del_node-Chain (list_fuel w.channels) w.links w.sp.clients i xs fuel_ok inv.distinct
        inv.chain).0

  refs_le : count counted (set w.channels i new) ≤ 31
  refs_le = omega (
    arith,
    count-le-length counted (set w.channels i new),
    length-set w.channels i new,
    inv.small,
  )

  -- One more channel is on, and it is put in front.
  switch_on :
      (g : World S Dev)
      → awake ch ≡ false
      → awake new ≡ true
      → Enabled w i ch true g
      → Linked (record g { channels = set g.channels i new }) (i ∷ xs)
  unfolding link_ch count_client
  switch_on g off on v = record {
    chain =
        Chain-cong (link_ch w i true).links g.links (link_ch w i true).sp.clients g.sp.clients
          (i ∷ xs) v.links v.clients (link_on off);
    distinct = (Fresh-of_elem i xs (elem_at ∙ off), inv.distinct);
    members = λ j. rw v.channels (
        ground
          (arith, awake-set w.channels i j new (lt_of_get_elem? w.channels i at), inv.members j));
    number = rw v.channels (ground (arith, inv.number, count-set awake w.channels i ch new at));
    refs =
        rw v.channels (
          ground (arith, v.ref, inv.refs, same, refs_le, count-set counted w.channels i ch new at));
    small = rw v.channels (ground (arith, length-set w.channels i new, inv.small));
  }

  switch_off :
      (g : World S Dev)
      → awake ch ≡ true
      → awake new ≡ false
      → Enabled w i ch false g
      → Linked (record g { channels = set g.channels i new }) (erase i xs)
  unfolding link_ch count_client
  switch_off g on off v = record {
    chain =
        Chain-cong (link_ch w i false).links g.links (link_ch w i false).sp.clients g.sp.clients
          (erase i xs) v.links v.clients link_off;
    distinct = Distinct-erase i xs inv.distinct;
    members = λ j. rw v.channels (
        ground (
          arith,
          elem-erase j i xs inv.distinct,
          awake-set w.channels i j new (lt_of_get_elem? w.channels i at),
          inv.members j,
        ));
    number = rw v.channels (
        ground
          (arith, length-erase i xs, elem_at, inv.number, count-set awake w.channels i ch new at));
    refs = rw v.channels (
        ground (
          arith,
          v.ref,
          inv.refs,
          same,
          count-le-length counted w.channels,
          inv.small,
          count-set counted w.channels i ch new at,
        ));
    small = rw v.channels (ground (arith, length-set w.channels i new, inv.small));
  }

  pub stay : awake new ≡ awake ch → Linked (record w { channels = set w.channels i new }) xs
  stay e = record {
    chain = inv.chain;
    distinct = inv.distinct;
    members = λ j. ground (
      arith,
      e,
      elem_at,
      awake-set w.channels i j new (lt_of_get_elem? w.channels i at),
      inv.members j,
    );
    number = ground (arith, inv.number, count-set awake w.channels i ch new at);
    refs = ground (arith, inv.refs, same, count-set counted w.channels i ch new at);
    small = ground (arith, length-set w.channels i new, inv.small);
  }

-- `channel_set_state` keeps the list and the count right, whatever state is asked for.
pub channel_set_state-Linked :
    {S Dev : Type 0} (driver : Driver Dev) (ops : Ops S) (w : World S Dev) (i : ℕ) (ch : Channel)
    (xs : List ℕ)
    → get_elem? w.channels i ≡ some ch
    → Linked w xs
    → (state : ℕ) → (ys : List ℕ) × Linked (channel_set_state driver ops w i ch state).1 ys
unfolding channel_set_state
channel_set_state-Linked {S} {Dev} driver ops w i ch xs at inv state = by_state state
  where
    new : ℕ → Channel
    new st = record ch { prev_state = ch.state; state = st }

    off : (ys : List ℕ) × Linked (channel_set_state driver ops w i ch 0).1 ys
    off = elim (Bool-cases (ch.state == 0)) [
      | inl z ↦ rw z (xs, stay w xs i ch (new 0) inv at refl (ground arith))
      | inr nz ↦ rw nz (
        erase i xs,
        switch_off w xs i ch (new 0) inv at refl (sp_enable_ch driver ops w i ch false)
            (ground arith) (ground arith) (sp_enable_ch-Enabled driver ops w i ch false),
      )
    ]

    on :
        (st : ℕ)
        → awake (new st) ≡ true
        → let g = if ch.state == 0 then sp_enable_ch driver ops w i ch true else w in
          (ys : List ℕ) × Linked (record g { channels = set g.channels i (new st) }) ys
    on st e = elim (Bool-cases (ch.state == 0)) [
      | inl z ↦ rw z (
        i ∷ xs,
        switch_on w xs i ch (new st) inv at refl (sp_enable_ch driver ops w i ch true)
            (ground arith) e (sp_enable_ch-Enabled driver ops w i ch true),
      )
      | inr nz ↦ rw nz (xs, stay w xs i ch (new st) inv at refl (ground arith))
    ]

    by_state : (st : ℕ) → (ys : List ℕ) × Linked (channel_set_state driver ops w i ch st).1 ys
    by_state zero = off
    by_state (suc zero) = on 1 refl
    by_state (suc (suc zero)) = on 2 refl
    by_state (suc (suc (suc n))) = (xs, ground arith)
