-- ===== src/Sensord/Tests/Channels.antt =====
-- Runs of src/channel_cntl.c, src/sensor_provider.c and src/sensor_fusion.c.
use Prim.Native.Nat.{◌∣◌}
use vibe_xperia.Prelude.{
  ℕ, ◌/◌, ◌≡◌, refl, Bool, true, false, [], ◌∷◌, map, none, some, arith, pos, count, ltb, abs, ◌==◌,
  if◌then◌else◌,
}
use vibe_xperia.Sensord.UtilMisc.Arith.{IsNearest}
use vibe_xperia.Sensord.Hw.{find_hw, hw_get_hw_by_id, put, ref_up, power_up, hw_ref_up}
use vibe_xperia.Sensord.Fusion.State.{Fusion, type_a, type_m, type_o}
use vibe_xperia.Sensord.Fusion.Deps.{
  algo_update_hw_dep, algo_update_mod_dep, algo_mod_is_enabled, enable_all, algo_mod_enable,
  algo_mod_ref_change, algo_get_mod, put_mod, enable_commands, module_deps, needs_a, needs_m,
}
use vibe_xperia.Sensord.Fusion.Rates.{
  algo_get_curr_hw_dep, fusion_arbitrate_dr, algo_resolve_internal_state, resolve_commands,
  fusion_get_product, regulate_dr, algo_on_interval_changed, algo_hz2data_rate,
}
use vibe_xperia.Sensord.Fusion.Rates.Bounds.{InLimits, regulate_dr-InLimits}
use vibe_xperia.Sensord.Fusion.Rates.Interval.{Serves, algo_on_interval_changed-Serves}
use vibe_xperia.Sensord.Fusion.Product.{algo_enable_product, fusion_on_ch_enabled}
use vibe_xperia.Sensord.Fusion.Product.Inv.{Inv, uses_a, fusion_on_ch_enabled-Inv}
use vibe_xperia.Sensord.Provider.State.{World}
use vibe_xperia.Sensord.Provider.{
  link_ch, sp_re_check_dep_hw, checked, count_client, check_bits, clients_interval,
  sp_recalc_interval_re, sp_enable_ch,
}
use vibe_xperia.Sensord.Provider.Deps.{AllHeld, AllSet, check_bits-AllHeld}
use vibe_xperia.Sensord.Provider.Instances.{fusion_ops}
use vibe_xperia.Sensord.Provider.Interval.{DividesAll, clients_interval-DividesAll}
use vibe_xperia.Sensord.Provider.Process.{elapse, is_due, proc_pass}
use vibe_xperia.Sensord.Provider.Process.Report.{is_due_lem, due_handles, proc_pass-due}
use vibe_xperia.Sensord.Channel.{channel_on_cmd_received}
use vibe_xperia.Sensord.Channel.Power.{Served, channel_on_cmd_received-Served}
use vibe_xperia.Sensord.Channel.ChipA.{sp_enable_ch-ChipA}
use vibe_xperia.Sensord.Samples.{
  good_driver, good_driver-Working, chip, chip_off-IsPowered, two_chips, product, fusion_off,
  fusion_off-Inv, channel, provider, world,
}

abbrev start : World Fusion ℕ
start = world fusion_off

served : Served start
unfolding hw_get_hw_by_id find_hw
served = record {
  bits = refl;
  held = (
    (chip_off-IsPowered 0, refl),
    (tt, (tt, (tt, ((chip_off-IsPowered 4, refl), (tt, (tt, tt)))))),
  );
}

sp_enable_ch-ChipA_example :
    let g = sp_enable_ch good_driver fusion_ops start 2 (channel type_o false) true in
    Inv g.vars × (true ≡ ltb 0 (count uses_a g.vars.products))
unfolding fusion_get_product hw_get_hw_by_id find_hw sp_enable_ch link_ch sp_re_check_dep_hw checked
    count_client sp_recalc_interval_re check_bits hw_ref_up put ref_up power_up fusion_ops
    fusion_on_ch_enabled algo_enable_product algo_get_curr_hw_dep algo_update_hw_dep
    algo_update_mod_dep algo_resolve_internal_state resolve_commands algo_mod_is_enabled
    algo_get_mod fusion_arbitrate_dr enable_all module_deps algo_mod_enable algo_mod_ref_change
    enable_commands put_mod needs_a needs_m
sp_enable_ch-ChipA_example =
    sp_enable_ch-ChipA good_driver start 2 (channel type_o false) true (product type_o) 0 0
      (chip 0 0 false) (chip 0 1 true) good_driver-Working served fusion_off-Inv refl refl
      (λ e. refl) refl refl

channel_on_cmd_received-Served_example :
    Served (channel_on_cmd_received good_driver fusion_ops start (pos 3) (pos 1) (pos 1)).1
unfolding fusion_ops algo_get_curr_hw_dep
channel_on_cmd_received-Served_example =
    channel_on_cmd_received-Served good_driver fusion_ops good_driver-Working (λ _. refl) start
      (pos 3) (pos 1) (pos 1) served

fusion_on_ch_enabled-Inv_example : Inv (fusion_on_ch_enabled fusion_off type_o false true).1
unfolding fusion_get_product
fusion_on_ch_enabled-Inv_example =
    fusion_on_ch_enabled-Inv fusion_off type_o false true (product type_o) refl refl (λ e. refl)
      fusion_off-Inv

check_bits-AllHeld_example :
    let (bits, s, _) =
      check_bits good_driver two_chips 4 (false ∷ false ∷ []) (true ∷ true ∷ []) (pos 0) in
    AllHeld s 4 bits × AllSet two_chips 4 (false ∷ false ∷ []) (true ∷ true ∷ []) bits
unfolding hw_get_hw_by_id find_hw
check_bits-AllHeld_example =
    check_bits-AllHeld good_driver good_driver-Working two_chips 4 (false ∷ false ∷ [])
      (true ∷ true ∷ []) (pos 0) refl ((chip_off-IsPowered 4, refl), (tt, tt))

-- Two channels are on, the first a bypassed one, the second due.
abbrev busy : World Bool ℕ
busy = record (world true) {
  channels =
      record (channel type_a true) { state = 1 }
      ∷ record (channel type_m false) { state = 1; interval = pos 50 }
      ∷ channel type_o false
      ∷ [];
  links = λ j. if j == 1 then some 0 else none;
  sp = record provider { clients = some 1 };
}

proc_pass-due_example :
    map (λ e. e.handle) (proc_pass (λ v typ room. (typ ∷ [], v)) (λ t v. v) 90 100 busy).0
    ≡ due_handles busy.channels 100 (1 ∷ 0 ∷ [])
proc_pass-due_example =
    proc_pass-due (λ v typ room. (typ ∷ [], v)) (λ v typ room. refl) (λ t v. v) 90 100 busy
      (1 ∷ 0 ∷ []) (omega arith) ((omega arith, tt), (tt, tt)) (refl, (refl, refl))

run_due : due_handles busy.channels 100 (1 ∷ 0 ∷ []) ≡ pos 2 ∷ []
unfolding is_due elapse
run_due = refl

is_due_lem_example :
    is_due 100 (record (channel type_m false) { state = 1; interval = pos 50; ts_last_ev = 51 })
    ≡ true
is_due_lem_example =
    is_due_lem 100 50
      (record (channel type_m false) { state = 1; interval = pos 50; ts_last_ev = 51 }) refl refl
      refl refl (omega arith) (omega arith)

algo_on_interval_changed-Serves_example :
    (r : ℕ) × ((algo_on_interval_changed fusion_off (product type_o) (pos 66)).0 ≡ pos r)
    × IsNearest 1000 66 r
    × Serves r (algo_hz2data_rate (1000 / r))
algo_on_interval_changed-Serves_example =
    algo_on_interval_changed-Serves fusion_off (product type_o) 66 (omega arith) (omega arith)

regulate_dr-InLimits_example : InLimits (regulate_dr (product type_a))
regulate_dr-InLimits_example =
    regulate_dr-InLimits (product type_a) (omega arith) (omega arith) (omega arith)

clients_interval-DividesAll_example :
    let d = abs (clients_interval 4 busy.channels busy.links (some 1) (pos 1000)) in
    (d ∣ 1000) × DividesAll d busy.channels (1 ∷ 0 ∷ [])
clients_interval-DividesAll_example =
    clients_interval-DividesAll 4 busy.channels busy.links (some 1) (pos 1000) (1 ∷ 0 ∷ [])
      (omega arith) (refl, (refl, refl)) ((_, refl), ((_, refl), tt))
