-- ===== src/Sensord/Daemon/Wakes.antt =====
-- What a command does to the count and the signals of the thread.
use vibe_xperia.Prelude.{
  ℕ, ◌≤◌, ◌≡◌, refl, Bool, true, false, ◌||◌, List, inl, inr, arith, ltb, ◌==◌, if◌then◌else◌,
  Option-cases, ℤ, pos, negsuc, is_err, einval, minus_one,
}
use vibe_xperia.Sensord.Hw.{Driver}
use vibe_xperia.Sensord.Provider.State.{state_sleep, state_normal, state_bg, Channel, Ops, World}
use vibe_xperia.Sensord.Provider.{
  link_ch, sp_re_check_dep_hw, sp_recalc_interval_re, checked, count_client, sp_enable_ch,
}
use vibe_xperia.Sensord.Channel.{
  eq_ℤ, set_sensor_active, set_sensor_delay, channel_get_ch, clamp_delay, act, channel_set_state,
  set_delay, delay, on_channel, channel_on_cmd_received,
}

-- What a command does to the count and the signals: when the count leaves 0, there is a new signal.
pub record Wakes {S Dev : Type 0} (w g : World S Dev) : Type 0 where
  pub op_blk : g.sp.op_blk ≡ w.sp.op_blk
  pub more : w.sp.signals ≤ g.sp.signals
  pub quiet : w.sp.op_blk ≡ false → g.sp.signals ≡ w.sp.signals → w.sp.ref ≡ 0 → g.sp.ref ≡ 0

Wakes-refl : {S Dev : Type 0} (w : World S Dev) → Wakes w w
Wakes-refl w = record { op_blk = refl; more = omega arith; quiet = λ b s e. e }

module _ {S Dev : Type 0} (driver : Driver Dev) (ops : Ops S) where
  same_sp : (w : World S Dev) → ((checked ops w).sp ≡ w.sp)
  unfolding checked
  same_sp w = ground arith

  sp_enable_ch-Wakes :
      (w : World S Dev) (i : ℕ) (ch : Channel) (on : Bool)
      → Wakes w (sp_enable_ch driver ops w i ch on)
  unfolding sp_enable_ch sp_re_check_dep_hw sp_recalc_interval_re count_client link_ch
  sp_enable_ch-Wakes w i ch true = ground (
    arith,
    same_sp
        (sp_re_check_dep_hw driver ops (record (link_ch w i true) {
          vars = (ops.on_ch_enabled (link_ch w i true).vars ch.typ ch.cfg.bypass_proc true).1;
        })).0,
  )
  sp_enable_ch-Wakes w i ch false = ground (
    arith,
    same_sp
        (sp_re_check_dep_hw driver ops (record (link_ch w i false) {
          vars = (ops.on_ch_enabled (link_ch w i false).vars ch.typ ch.cfg.bypass_proc false).1;
        })).0,
  )

  Wakes-if :
      (w : World S Dev) (b : Bool) (x y : World S Dev)
      → Wakes w x
      → Wakes w y
      → Wakes w (if b then x else y)
  Wakes-if w true x y vx vy = vx
  Wakes-if w false x y vx vy = vy

  Wakes-if_result :
      (w : World S Dev) (b : Bool) (x y : ℤ × World S Dev)
      → Wakes w x.1
      → Wakes w y.1
      → Wakes w (if b then x else y).1
  Wakes-if_result w true x y vx vy = vx
  Wakes-if_result w false x y vx vy = vy

  set_delay-Wakes :
      (w : World S Dev) (i : ℕ) (ch : Channel) (value : ℕ) → Wakes w (set_delay ops w i ch value)
  unfolding set_delay sp_recalc_interval_re
  set_delay-Wakes w i ch value = record { op_blk = refl; more = omega arith; quiet = λ b s e. e }

  act-Wakes : (w : World S Dev) (i : ℕ) (ch : Channel) (st : ℕ) → Wakes w (act driver ops w i ch st)
  act-Wakes w i ch st =
      let on = sp_enable_ch driver ops w i ch true in
      let off = sp_enable_ch driver ops w i ch false in
      Wakes-if w (st == state_sleep) _ _
        (Wakes-if w (ch.state == state_sleep) w off (Wakes-refl w)
          (sp_enable_ch-Wakes w i ch false))
        (Wakes-if w (st == state_normal || st == state_bg) _ w
          (Wakes-if w (ch.state == state_sleep) on w (sp_enable_ch-Wakes w i ch true)
            (Wakes-refl w))
          (Wakes-refl w))

  with_channels :
      (w g : World S Dev) (chs : List Channel) → Wakes w g → Wakes w (record g { channels = chs })
  with_channels w g chs v = record { op_blk = v.op_blk; more = v.more; quiet = v.quiet }

  channel_set_state-Wakes :
      (w : World S Dev) (i : ℕ) (ch : Channel) (st : ℕ)
      → Wakes w (channel_set_state driver ops w i ch st).1
  unfolding channel_set_state
  channel_set_state-Wakes w i ch st =
      let acted = act driver ops w i ch st in
      Wakes-if_result w (ltb st 3) _ (einval, acted) (with_channels w acted _ (act-Wakes w i ch st))
        (act-Wakes w i ch st)

  delay-Wakes :
      (w : World S Dev) (i : ℕ) (ch : Channel) (value : ℤ)
      → Wakes w (delay driver ops w i ch value).1
  delay-Wakes w i ch (negsuc n) = Wakes-refl w
  delay-Wakes w i ch (pos v) = set_delay-Wakes w i ch (clamp_delay ch.cfg v)

  on_channel-Wakes :
      (w : World S Dev) (i : ℕ) (ch : Channel) (cmd value : ℤ)
      → Wakes w (on_channel driver ops w i ch cmd value).1
  on_channel-Wakes w i ch cmd value =
      let st = if is_err value then state_normal else state_sleep in
      Wakes-if_result w (ch.cfg.availability == 0) (minus_one, w) _ (Wakes-refl w)
        (Wakes-if_result w (eq_ℤ cmd set_sensor_active)
          (pos 0, (channel_set_state driver ops w i ch st).1) _ (channel_set_state-Wakes w i ch st)
          (Wakes-if_result w (eq_ℤ cmd set_sensor_delay) (delay driver ops w i ch value) (einval, w)
            (delay-Wakes w i ch value) (Wakes-refl w)))

  pub channel_on_cmd_received-Wakes :
      (w : World S Dev) (handle cmd value : ℤ)
      → Wakes w (channel_on_cmd_received driver ops w handle cmd value).1
  unfolding channel_on_cmd_received
  channel_on_cmd_received-Wakes w handle cmd value =
      elim (Option-cases (channel_get_ch w.channels handle)) [
        | inl e ↦ rw (e, channel_on_cmd_received) (Wakes-refl w)
        | inr ((i, ch), e) ↦ rw (e, channel_on_cmd_received) (on_channel-Wakes w i ch cmd value)
      ]
