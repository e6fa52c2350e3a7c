-- ===== src/Sensord/Channel.antt =====
-- sensors/daemon/src/channel_cntl.c: the commands to the channels, and the start of the daemon.
pub mod Inv
pub mod Commands
pub mod Boot
pub mod Power
pub mod ChipA
use vibe_xperia.Prelude.{
  ℕ, suc, ◌+◌, ◌%◌, ◌/◌, ◌^◌, Bool, true, false, not, List, [], ◌∷◌, Option, none, some, ltb, ◌==◌,
  ◌&&◌, ◌||◌, if◌then◌else◌, ℤ, pos, negsuc, is_err, einval, minus_one, set, get_elem?,
}
use vibe_xperia.Sensord.UtilMisc.{Memory, update}
use vibe_xperia.Sensord.Hw.{Driver}
use vibe_xperia.Sensord.Provider.State.{
  state_sleep, state_normal, state_bg, ChannelCfg, Channel, Provider, Ops, World, to_s16,
}
use vibe_xperia.Sensord.Provider.{sp_enable_ch, sp_recalc_interval_re}

abbrev pub eq_ℤ : ℤ → ℤ → Bool
eq_ℤ (pos a) (pos b) = a == b
eq_ℤ (negsuc a) (negsuc b) = a == b
eq_ℤ _ _ = false

-- SET_SENSOR_ACTIVE and SET_SENSOR_DELAY
abbrev pub set_sensor_active : ℤ
set_sensor_active = pos 1

abbrev pub set_sensor_delay : ℤ
set_sensor_delay = pos 2

-- `channel_hdl2idx`, from the index `i` on; `none` is -1.
unfoldable pub channel_hdl2idx : List Channel → ℤ → ℕ → Option ℕ
channel_hdl2idx [] handle i = none
channel_hdl2idx (ch ∷ rest) handle i =
    let next = channel_hdl2idx rest handle (suc i) in if eq_ℤ handle ch.handle then some i else next

-- The index and the channel.
unfoldable pub channel_get_ch : List Channel → ℤ → Option (ℕ × Channel)
channel_get_ch chs handle = elim (channel_hdl2idx chs handle 0) [
  | none ↦ none
  | some i ↦ elim (get_elem? chs i) [ none ↦ none | some ch ↦ some (i, ch) ]
]

unfoldable pub channel_get_state : List Channel → ℤ → ℕ
channel_get_state chs handle = elim (channel_get_ch chs handle) [
  | none ↦ state_sleep
  | some (_, ch) ↦ ch.state
]

-- `pcfg` is not NULL in any of the calls.
unfoldable pub channel_get_cfg : List Channel → ℤ → Option ChannelCfg
channel_get_cfg chs handle = elim (channel_get_ch chs handle) [
  | none ↦ none
  | some (_, ch) ↦ some ch.cfg
]

unfoldable pub channel_set_cfg : List Channel → ℤ → ChannelCfg → ℤ × List Channel
channel_set_cfg chs handle cfg = elim (channel_get_ch chs handle) [
  | none ↦ (einval, chs)
  | some (i, ch) ↦ (pos 0, set chs i (record ch { cfg = cfg }))
]

-- the two tests of SET_SENSOR_DELAY
unfoldable pub clamp_delay : ChannelCfg → ℕ → ℕ
clamp_delay cfg value =
    let up = if ltb value cfg.interval_min then cfg.interval_min else value in
    if ltb cfg.interval_max up then cfg.interval_max else up

module _ {S Dev : Type 0} (ops : Ops S) where
  unfoldable pub set_delay : World S Dev → ℕ → Channel → ℕ → World S Dev
  set_delay w i ch value =
      let (_, interval, vars) = ops.on_ch_interval_changed w.vars ch.typ (pos value) in
      sp_recalc_interval_re ops (record w {
        channels = set w.channels i (record ch { interval = to_s16 interval });
        vars = vars;
      })

module _ {S Dev : Type 0} (driver : Driver Dev) (ops : Ops S) where
  -- The switch of `channel_set_state`; the request is one of the three states, or unknown.
  abbrev pub act : World S Dev → ℕ → Channel → ℕ → World S Dev
  act w i ch state =
      if state == state_sleep
      then if ch.state == state_sleep then w else sp_enable_ch driver ops w i ch false
      else if state == state_normal || state == state_bg
      then if ch.state == state_sleep then sp_enable_ch driver ops w i ch true else w
      else w

  unfoldable pub channel_set_state : World S Dev → ℕ → Channel → ℕ → ℤ × World S Dev
  channel_set_state w i ch state =
      let acted = act w i ch state in
      if ltb state 3
      then (
        pos 0,
        record acted {
          channels = set acted.channels i (record ch { prev_state = ch.state; state = state });
        },
      )
      else (einval, acted)

  -- SAMPLE_INTERVAL_MIN is 0.
  abbrev pub delay : World S Dev → ℕ → Channel → ℤ → ℤ × World S Dev
  delay w i ch (negsuc n) = (einval, w)
  delay w i ch (pos v) = (pos 0, set_delay ops w i ch (clamp_delay ch.cfg v))

  abbrev pub on_channel : World S Dev → ℕ → Channel → ℤ → ℤ → ℤ × World S Dev
  on_channel w i ch cmd value =
      if ch.cfg.availability == 0
      then (minus_one, w)
      else if eq_ℤ cmd set_sensor_active
      then (
        pos 0,
        (channel_set_state w i ch (if is_err value then state_normal else state_sleep)).1,
      )
      else if eq_ℤ cmd set_sensor_delay
      then delay w i ch value
      else (einval, w)

  unfoldable pub channel_on_cmd_received : World S Dev → ℤ → ℤ → ℤ → ℤ × World S Dev
  channel_on_cmd_received w handle cmd value = elim (channel_get_ch w.channels handle) [
    | none ↦ (minus_one, w)
    | some (i, ch) ↦ on_channel w i ch cmd value
  ]
