-- ===== src/Sensord/Provider/State.antt =====
-- sensors/daemon/inc/channel.h, inc/sensor_provider.h: the channels, the one provider of this build,
-- and the state that the daemon keeps. A channel is its index in `g_list_ch`, which is also the
-- address of its list node.
use vibe_xperia.Prelude.{ℕ, ◌-◌, ◌%◌, ◌^◌, Bool, List, Option, ltb, if◌then◌else◌, ℤ, pos, negsuc}
use vibe_xperia.Sensord.UtilMisc.{Memory}
use vibe_xperia.Sensord.Hw.{HwList}

abbrev pub state_sleep : ℕ
state_sleep = 0

abbrev pub state_normal : ℕ
state_normal = 1

abbrev pub state_bg : ℕ
state_bg = 2

-- `struct channel_cfg`, less the deprecated fields; a name is its characters.
pub record ChannelCfg : Type 0 where
  pub sp_name : List ℕ
  pub availability : ℕ
  pub no_delay : Bool
  pub bypass_proc : Bool
  pub interval_min : ℕ
  pub interval_max : ℕ

-- `struct channel`; `registered` is whether `sp` is set.
pub record Channel : Type 0 where
  pub typ : ℕ
  pub handle : ℤ
  pub cfg : ChannelCfg
  pub prev_state : ℕ
  pub state : ℕ
  pub interval : ℤ  -- int16_t
  pub ts_last_ev : ℕ
  pub registered : Bool

-- `struct sensor_provider` and the fields of its `run_entity`; `signals` counts the calls of
-- `pthread_cond_signal`.
pub record Provider : Type 0 where
  pub name : List ℕ
  pub sensors : ℕ
  pub available : Bool
  pub client_num : ℕ  -- uint32_t client_num:6
  pub ref : ℕ  -- int32_t ref:6
  pub curr_hw_dep : List Bool  -- one entry for each bit
  pub clients : Option ℕ
  pub interval : ℕ  -- uint32_t interval:16
  pub op_blk : Bool
  pub started : Bool
  pub signals : ℕ

-- The callbacks of a provider over its own variables; an optional one may be NULL. A channel is
-- passed as its type and its `bypass_proc`.
pub record Ops (S : Type 0) : Type 0 where
  pub on_ch_enabled : S → ℕ → Bool → Bool → ℤ × S
  pub on_ch_interval_changed : S → ℕ → ℤ → ℤ × ℤ × S
  pub get_hint_proc_interval : Option (S → ℤ)
  pub get_curr_hw_dep : S → List Bool
  pub on_hw_dep_checked : Option (S → List Bool → S)

pub record World (S Dev : Type 0) : Type 0 where
  pub channels : List Channel
  pub links : Memory
  pub sp : Provider
  pub vars : S
  pub hw : HwList Dev

-- a conversion to `uint16_t`
abbrev pub to_u16 : ℤ → ℕ
to_u16 (pos n) = n % 2 ^ 16
to_u16 (negsuc n) = 2 ^ 16 - 1 - n % 2 ^ 16

-- a conversion to `int16_t`
abbrev pub to_s16 : ℤ → ℤ
to_s16 z = if ltb (to_u16 z) (2 ^ 15) then pos (to_u16 z) else negsuc (2 ^ 16 - 1 - to_u16 z)
