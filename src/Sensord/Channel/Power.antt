-- ===== src/Sensord/Channel/Power.antt =====
-- The chips over the commands.
use vibe_xperia.Prelude.{
  ℕ, suc, ◌≡◌, refl, sym, ap, ◌∙◌, Bool, true, false, List, [], ◌∷◌, inl, inr, arith, ltb, ◌==◌,
  if◌then◌else◌, Option-cases, ℤ, pos, negsuc, is_err, einval, minus_one, length, set,
}
use vibe_xperia.Sensord.Hw.{Driver, HwList}
use vibe_xperia.Sensord.Provider.State.{state_sleep, state_normal, Channel, Ops, World}
use vibe_xperia.Sensord.Provider.{
  link_ch, check_bits, sp_re_check_dep_hw, sp_recalc_interval_re, checked, count_client,
  sp_enable_ch,
}
use vibe_xperia.Sensord.Provider.Deps.{Working, AllHeld, AllSet, check_bits-AllHeld}
use vibe_xperia.Sensord.Channel.{
  set_sensor_active, set_sensor_delay, eq_ℤ, channel_get_ch, act, channel_set_state, set_delay,
  delay, on_channel, channel_on_cmd_received,
}

-- What a provider that depends on seven chips holds of them.
pub record Served {S Dev : Type 0} (w : World S Dev) : Type 0 where
  pub bits : length w.sp.curr_hw_dep ≡ 7
  pub held : AllHeld w.hw 0 w.sp.curr_hw_dep

AllSet-length :
    {Dev : Type 0} (s : HwList Dev) (i : ℕ) (cs ns os : List Bool)
    → AllSet s i cs ns os
    → length os ≡ length cs
AllSet-length s i [] [] [] h = refl
AllSet-length s i (c ∷ cs) (n ∷ ns) (o ∷ os) h = ap suc (AllSet-length s (suc i) cs ns os h.1)
AllSet-length s i [] [] (o ∷ os) h = absurd h
AllSet-length s i [] (n ∷ ns) os h = absurd h
AllSet-length s i (c ∷ cs) [] os h = absurd h
AllSet-length s i (c ∷ cs) (n ∷ ns) [] h = absurd h

module _ {S Dev : Type 0} (driver : Driver Dev) (ops : Ops S) where
  -- what the provider's variables are when the dependency is read
  abbrev pub switched_vars : World S Dev → Channel → Bool → S
  switched_vars w ch on = (ops.on_ch_enabled w.vars ch.typ ch.cfg.bypass_proc on).1

  -- the chips and the dependency after `sp_enable_ch`
  abbrev pub after_check : World S Dev → Channel → Bool → List Bool × HwList Dev × ℤ
  after_check w ch on =
      check_bits driver w.hw 0 w.sp.curr_hw_dep (ops.get_curr_hw_dep (switched_vars w ch on))
        (pos 0)

  sp_enable_ch_hw :
      (w : World S Dev) (i : ℕ) (ch : Channel) (on : Bool)
      → let g = sp_enable_ch driver ops w i ch on in
        (g.hw ≡ (after_check w ch on).1) × (g.sp.curr_hw_dep ≡ (after_check w ch on).0)
  unfolding sp_enable_ch sp_re_check_dep_hw sp_recalc_interval_re checked link_ch count_client
  sp_enable_ch_hw w i ch true = ground arith
  sp_enable_ch_hw w i ch false = ground arith

  module _ (working : Working driver) (seven : (v : S) → length (ops.get_curr_hw_dep v) ≡ 7) where
    -- Switching a channel with working chips: a chip that answers for a bit is held afterwards exactly
    -- while the provider wants it.
    pub sp_enable_ch-Served :
        (w : World S Dev) (i : ℕ) (ch : Channel) (on : Bool)
        → Served w
        → let g = sp_enable_ch driver ops w i ch on in
          Served g
          × AllSet w.hw 0 w.sp.curr_hw_dep
              (ops.get_curr_hw_dep (switched_vars w ch on))
              g.sp.curr_hw_dep
    sp_enable_ch-Served w i ch on v =
        let (hw, dep) = sp_enable_ch_hw w i ch on in
        let (held, sets) =
          check_bits-AllHeld driver working w.hw 0 w.sp.curr_hw_dep
            (ops.get_curr_hw_dep (switched_vars w ch on)) (pos 0)
            (v.bits ∙ sym (seven (switched_vars w ch on))) v.held in
        (
          record {
            bits = ap length dep ∙ AllSet-length w.hw 0 _ _ _ sets ∙ v.bits;
            held = rw (hw, dep) held;
          },
          rw dep sets,
        )

    act-Served :
        (w : World S Dev) (i : ℕ) (ch : Channel) (state : ℕ)
        → Served w
        → Served (act driver ops w i ch state)
    act-Served w i ch state v =
        ground
          (arith, (sp_enable_ch-Served w i ch true v).0, (sp_enable_ch-Served w i ch false v).0)

    Served-if :
        (b : Bool) (r r' : ℤ × World S Dev)
        → Served r.1
        → Served r'.1
        → Served (if b then r else r').1
    Served-if true r r' k k' = k
    Served-if false r r' k k' = k'

    channel_set_state-Served :
        (w : World S Dev) (i : ℕ) (ch : Channel) (state : ℕ)
        → Served w
        → Served (channel_set_state driver ops w i ch state).1
    unfolding channel_set_state
    channel_set_state-Served w i ch state v =
        let a = act-Served w i ch state v in
        Served-if (ltb state 3)
          (
            pos 0,
            record (act driver ops w i ch state) {
              channels =
                  set (act driver ops w i ch state).channels i
                    (record ch { prev_state = ch.state; state = state });
            },
          )
          (einval, act driver ops w i ch state) (record { bits = a.bits; held = a.held }) a

    on_channel-Served :
        (w : World S Dev) (i : ℕ) (ch : Channel) (cmd value : ℤ)
        → Served w
        → Served (on_channel driver ops w i ch cmd value).1
    unfolding set_delay sp_recalc_interval_re
    on_channel-Served w i ch cmd value v =
        Served-if (ch.cfg.availability == 0) (minus_one, w) _ v
          (Served-if (eq_ℤ cmd set_sensor_active)
            (pos 0, (channel_set_state driver ops w i ch state).1) _
            (channel_set_state-Served w i ch state v)
            (Served-if (eq_ℤ cmd set_sensor_delay) (delay driver ops w i ch value) (einval, w)
              (delayed value) v))
      where
        state : ℕ
        state = if is_err value then state_normal else state_sleep

        delayed : (x : ℤ) → Served (delay driver ops w i ch x).1
        delayed (negsuc n) = v
        delayed (pos n) = record { bits = v.bits; held = v.held }

    -- Over every command, with working chips, a chip that answers for a bit of the dependency has one
    -- holder and runs while the bit is set, and is off otherwise.
    pub channel_on_cmd_received-Served :
        (w : World S Dev) (handle cmd value : ℤ)
        → Served w
        → Served (channel_on_cmd_received driver ops w handle cmd value).1
    unfolding channel_on_cmd_received
    channel_on_cmd_received-Served w handle cmd value v =
        elim (Option-cases (channel_get_ch w.channels handle)) [
          | inl e ↦ rw (e, channel_on_cmd_received) v
          | inr ((i, ch), e) ↦
              rw (e, channel_on_cmd_received) (on_channel-Served w i ch cmd value v)
        ]
