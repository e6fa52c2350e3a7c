-- ===== src/Sensord/Fusion/Product.antt =====
-- src/sensor_fusion.c and src/algo/algo_adapter.c: the calls that a sensor provider makes.
pub mod Inv
use vibe_xperia.Prelude.{
  ℕ, suc, ◌+◌, ◌-◌, ◌/◌, ◌%◌, Bool, true, false, List, [], ◌∷◌, Option, none, some, ltb, leb, ◌==◌,
  ◌&&◌, if◌then◌else◌, ℤ, pos, negsuc, einval, get_or, pos_part,
}
use vibe_xperia.Sensord.Fusion.State.{
  type_a, type_m, type_o, type_g, type_vg, type_vla, type_vrv, type_gest_flip, mod_acc, mod_mag,
  mod_cmp, mod_m4g, mod_vla, mod_gest_flip, AlgoModule, AlgoProduct, Command, opmode, calibmode,
  load_profile, save_profile, acc_datarate, mag_datarate, mag_noise_threshold, hw_bw, hw_delay,
  Fusion, emit,
}
use vibe_xperia.Sensord.Fusion.Deps.{
  algo_get_mod, algo_update_mod_dep, algo_update_hw_dep, algo_mod_is_enabled,
}
use vibe_xperia.Sensord.Fusion.Rates.{
  regulate_dr, fusion_arbitrate_dr, algo_resolve_internal_state, fusion_get_product, put_product,
}

-- `algo_enable_product` at the product of its type, with the fields that the caller has set.
unfoldable pub algo_enable_product : Fusion → AlgoProduct → Bool → Fusion
algo_enable_product f ap on =
    let g = algo_update_hw_dep (algo_update_mod_dep f ap on) ap on in
    algo_resolve_internal_state
      (fusion_arbitrate_dr (record g { products = put_product g.products ap.typ (regulate_dr ap) }))

unfoldable pub fusion_on_ch_enabled : Fusion → ℕ → Bool → Bool → ℤ × Fusion
fusion_on_ch_enabled f typ bypass on = elim (fusion_get_product f.products typ) [
  | none ↦ (einval, f)
  | some ap ↦ (pos 0, algo_enable_product f (record ap { enable = on; bypass_proc = bypass }) on)
]
