-- ===== src/Sensord/Provider/Instances.antt =====
-- The providers of the daemon: `g_sp_algo_fusion` of src/sensor_fusion.c and `g_sp_pressure` of
-- src/channel_p.c.
use vibe_xperia.Prelude.{ℕ, Bool, false, List, [], ◌∷◌, none, some, ℤ, pos}
use vibe_xperia.Sensord.Fusion.State.{Fusion}
use vibe_xperia.Sensord.Fusion.Rates.{
  fusion_on_ch_interval_changed, algo_get_hint_interval, algo_get_curr_hw_dep,
  algo_on_hw_dep_checked,
}
use vibe_xperia.Sensord.Fusion.Product.{fusion_on_ch_enabled}
use vibe_xperia.Sensord.Provider.State.{Ops}

-- `g_sp_algo_fusion`
unfoldable pub fusion_ops : Ops Fusion
fusion_ops = record {
  on_ch_enabled = fusion_on_ch_enabled;
  on_ch_interval_changed = fusion_on_ch_interval_changed;
  get_hint_proc_interval = some algo_get_hint_interval;
  get_curr_hw_dep = algo_get_curr_hw_dep;
  on_hw_dep_checked = some algo_on_hw_dep_checked;
}

-- The variable of `g_sp_pressure` is `g_enable_p`.
unfoldable pub on_ch_enabled_p : Bool → ℕ → Bool → Bool → ℤ × Bool
on_ch_enabled_p v typ bypass on = (pos 0, on)

unfoldable pub on_ch_interval_changed_p : Bool → ℕ → ℤ → ℤ × ℤ × Bool
on_ch_interval_changed_p v typ interval = (pos 0, interval, v)

-- the bit of SENSOR_HW_TYPE_P (5)
unfoldable pub get_curr_hw_dep_p : Bool → List Bool
get_curr_hw_dep_p v = false ∷ false ∷ false ∷ false ∷ false ∷ v ∷ false ∷ []

-- `g_sp_pressure`
unfoldable pub pressure_ops : Ops Bool
pressure_ops = record {
  on_ch_enabled = on_ch_enabled_p;
  on_ch_interval_changed = on_ch_interval_changed_p;
  get_hint_proc_interval = none;
  get_curr_hw_dep = get_curr_hw_dep_p;
  on_hw_dep_checked = none;
}
