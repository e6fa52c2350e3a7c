-- ===== src/Sensord/Fusion/Rates.antt =====
-- src/sensor_fusion.c and src/algo/algo_adapter.c: data rates, clamped for each product, arbitrated
-- over the enabled ones.
pub mod Bounds
pub mod Interval
use vibe_xperia.Prelude.{
  ℕ, suc, ◌+◌, ◌-◌, ◌/◌, ◌%◌, Bool, true, false, List, [], ◌∷◌, ◌++◌, Option, none, some, ltb, leb,
  ◌==◌, ◌&&◌, if◌then◌else◌, ℤ, pos, negsuc, einval, get_or, pos_part,
}
use vibe_xperia.Sensord.Fusion.State.{
  type_a, type_m, type_o, type_g, type_vg, type_vla, type_vrv, type_gest_flip, mod_acc, mod_mag,
  mod_cmp, mod_m4g, mod_vla, mod_gest_flip, AlgoModule, AlgoProduct, Command, opmode, calibmode,
  load_profile, save_profile, acc_datarate, mag_datarate, mag_noise_threshold, hw_bw, hw_delay,
  Fusion, emit,
}
use vibe_xperia.Sensord.Fusion.Deps.{algo_mod_is_enabled}
use vibe_xperia.Sensord.UtilMisc.{get_nearest_divisible_int, get_max_comm_div}

-- one of the three clamps of `ALGO_PRODUCT_REGULATE_DR`
unfoldable pub regulate : ℕ → ℕ → ℕ → ℕ
regulate lo hi dr = let up = if ltb dr lo then lo else dr in if ltb hi up then hi else up

unfoldable pub regulate_dr : AlgoProduct → AlgoProduct
unfolding regulate
regulate_dr ap = record ap {
  dr_a = regulate ap.dr_acc_min ap.dr_acc_max ap.dr_a;
  dr_m = regulate ap.dr_mag_min ap.dr_mag_max ap.dr_m;
  dr_g = regulate ap.dr_gyro_min ap.dr_gyro_max ap.dr_g;
}

-- the loop of `fusion_arbitrate_dr`, for one of the three rates
unfoldable pub arbitrate : (AlgoProduct → ℕ) → List AlgoProduct → ℕ → ℕ
arbitrate rate [] dr = dr
arbitrate rate (ap ∷ rest) dr =
    arbitrate rate rest (if ap.enable && ltb dr (rate ap) then rate ap else dr)

unfoldable pub fusion_arbitrate_dr : Fusion → Fusion
fusion_arbitrate_dr f = record f {
  g_dr_a = arbitrate (λ ap. ap.dr_a) f.products 0;
  g_dr_m = arbitrate (λ ap. ap.dr_m) f.products 0;
  g_dr_g = arbitrate (λ ap. ap.dr_g) f.products 0;
}

abbrev if_set : Option ℕ → List Command
if_set none = []
if_set (some t) = mag_noise_threshold t ∷ []

abbrev when : Bool → Command → List Command
when true c = c ∷ []
when false c = []

-- The calls of `algo_resolve_internal_state`; the diagnostic reads at its end are left out.
unfoldable pub resolve_commands : Fusion → List Command
resolve_commands f =
    when (algo_mod_is_enabled f mod_acc) (acc_datarate f.g_dr_a)
    ++ (when (algo_mod_is_enabled f mod_mag) (mag_datarate f.g_dr_m)
        ++ (when (algo_mod_is_enabled f mod_cmp) (opmode mod_cmp true)
            ++ (when (algo_mod_is_enabled f mod_m4g) (opmode mod_m4g true)
                ++ if_set f.ori_thres_m)))

unfoldable pub algo_resolve_internal_state : Fusion → Fusion
algo_resolve_internal_state f = emit f (resolve_commands f)

unfoldable pub fusion_get_product : List AlgoProduct → ℕ → Option AlgoProduct
fusion_get_product [] typ = none
fusion_get_product (ap ∷ rest) typ =
    let next = fusion_get_product rest typ in if typ == ap.typ then some ap else next

unfoldable pub put_product : List AlgoProduct → ℕ → AlgoProduct → List AlgoProduct
put_product [] typ new = []
put_product (ap ∷ rest) typ new =
    let next = put_product rest typ new in if typ == ap.typ then new ∷ rest else ap ∷ next

abbrev pub tab_intvl : List ℕ
tab_intvl = 1000 ∷ 200 ∷ 100 ∷ 50 ∷ 40 ∷ 20 ∷ 10 ∷ 5 ∷ []

abbrev pub tab_ref_bw : List ℕ
tab_ref_bw = 0 ∷ 0 ∷ 0 ∷ 1 ∷ 1 ∷ 2 ∷ 3 ∷ 4 ∷ []

-- `g_tab_intvl[dr]`; the model's tables answer 0 out of bounds
abbrev pub intvl : ℕ → ℕ
intvl dr = get_or tab_intvl dr 0

-- `g_tab_hz`, as `algo_adapter_init` fills it
unfoldable pub tab_hz : List ℕ → List ℕ
tab_hz [] = []
tab_hz (i ∷ is) = (1000 / i) ∷ tab_hz is

-- The loop of `algo_hz2data_rate` over what is left of the table, at the index `i`.
unfoldable pub first_rate : List ℕ → ℕ → ℕ → ℕ
first_rate [] hz i = i - 1
first_rate (t ∷ ts) hz i = let rest = first_rate ts hz (i + 1) in if leb hz t then i else rest

unfoldable pub algo_hz2data_rate : ℕ → ℕ
unfolding tab_hz first_rate
algo_hz2data_rate hz = first_rate (tab_hz tab_intvl) hz 0

-- the rates that the switch of `algo_on_interval_changed` sets
unfoldable pub set_rate : AlgoProduct → ℕ → AlgoProduct
set_rate ap dr =
    if ap.typ == type_a
    then record ap { dr_a = dr }
    else if ap.typ == type_vg
    then record ap { dr_a = dr }
    else if ap.typ == type_vla
    then record ap { dr_a = dr }
    else if ap.typ == type_m
    then record ap { dr_m = dr }
    else if ap.typ == type_o
    then record ap { dr_a = dr; dr_m = dr }
    else if ap.typ == type_g
    then record ap { dr_a = dr; dr_m = dr }
    else if ap.typ == type_vrv
    then record ap { dr_a = dr; dr_m = dr }
    else if ap.typ == type_gest_flip
    then record ap { dr_a = dr }
    else ap

-- `HW_IS_ACTIVE(g_active_hws, A)`, and then the settings of the acceleration chip
unfoldable pub apply_hw_a : Fusion → Fusion
apply_hw_a f =
    if get_or f.active_hws 0 false && f.has_hw_a
    then emit f (hw_bw (get_or tab_ref_bw f.g_dr_a 0) ∷ hw_delay (intvl f.g_dr_a) ∷ [])
    else f

-- The interval through the pointer, and the variables; `ap` is the product of its type.
unfoldable pub algo_on_interval_changed : Fusion → AlgoProduct → ℤ → ℤ × Fusion
algo_on_interval_changed f ap (negsuc n) = (negsuc n, f)
algo_on_interval_changed f ap (pos v) =
    if v == 0
    then (pos 0, f)
    else (let interval = pos_part (get_nearest_divisible_int 1000 v) in
        let dr = algo_hz2data_rate (1000 / interval) in
        let new = regulate_dr (set_rate ap dr) in
        (
          pos interval,
          apply_hw_a (
              algo_resolve_internal_state
                (fusion_arbitrate_dr (record f { products = put_product f.products ap.typ new }))),
        ))

unfoldable pub fusion_on_ch_interval_changed : Fusion → ℕ → ℤ → ℤ × ℤ × Fusion
fusion_on_ch_interval_changed f typ interval = elim (fusion_get_product f.products typ) [
  | none ↦ (einval, interval, f)
  | some ap ↦ let (new, g) = algo_on_interval_changed f ap interval in (pos 0, new, g)
]

unfoldable pub algo_get_hint_interval : Fusion → ℤ
algo_get_hint_interval f =
    let acc =
      if algo_mod_is_enabled f mod_acc
      then get_max_comm_div (pos 1000) (pos (intvl f.g_dr_a))
      else pos 1000 in
    if algo_mod_is_enabled f mod_mag then get_max_comm_div acc (pos (intvl f.g_dr_m)) else acc

-- The bits of SENSOR_HW_TYPE_A (0) and SENSOR_HW_TYPE_M (4) of the seven.
unfoldable pub algo_get_curr_hw_dep : Fusion → List Bool
algo_get_curr_hw_dep f =
    ltb 0 f.ref_hw_a ∷ false ∷ false ∷ false ∷ ltb 0 f.ref_hw_m ∷ false ∷ false ∷ []

-- The result of `set_bw` is returned by the code and used by nobody.
unfoldable pub algo_on_hw_dep_checked : Fusion → List Bool → Fusion
algo_on_hw_dep_checked f dep = apply_hw_a (record f { active_hws = dep })
