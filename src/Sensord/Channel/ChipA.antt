-- ===== src/Sensord/Channel/ChipA.antt =====
-- The acceleration chip and the products of the fusion provider.
use vibe_xperia.Prelude.{
  ℕ, ◌≡◌, refl, ◌∙◌, Bool, true, false, not, List, [], ◌∷◌, some, inl, inr, arith, Bool-cases, ltb,
  ◌&&◌, b2n, count, get_or,
}
use vibe_xperia.Sensord.Hw.{SensorHw, Driver, HwList, hw_get_hw_by_id}
use vibe_xperia.Sensord.Hw.RefCount.{IsPowered}
use vibe_xperia.Sensord.Fusion.State.{AlgoProduct, Fusion, hw_bw, hw_delay}
use vibe_xperia.Sensord.Fusion.Deps.Modules.{SameButLog, emit-SameButLog}
use vibe_xperia.Sensord.Fusion.Rates.{
  tab_ref_bw, intvl, apply_hw_a, fusion_get_product, algo_get_curr_hw_dep, algo_on_hw_dep_checked,
}
use vibe_xperia.Sensord.Fusion.Product.Inv.{Inv, uses_a, fusion_on_ch_enabled-Inv}
use vibe_xperia.Sensord.Provider.State.{Channel, World}
use vibe_xperia.Sensord.Provider.{
  sp_re_check_dep_hw, sp_recalc_interval_re, checked, count_client, link_ch, sp_enable_ch,
}
use vibe_xperia.Sensord.Provider.Deps.{Working, AllHeld, AllSet}
use vibe_xperia.Sensord.Provider.Instances.{fusion_ops}
use vibe_xperia.Sensord.Channel.Power.{Served, switched_vars, sp_enable_ch-Served}

apply_hw_a-SameButLog : (f : Fusion) → SameButLog f (apply_hw_a f)
unfolding apply_hw_a
apply_hw_a-SameButLog f = elim (Bool-cases (get_or f.active_hws 0 false && f.has_hw_a)) [
  | inl e ↦
      rw (e, apply_hw_a)
        (emit-SameButLog f (hw_bw (get_or tab_ref_bw f.g_dr_a 0) ∷ hw_delay (intvl f.g_dr_a) ∷ []))
  | inr e ↦ rw (e, apply_hw_a) (emit-SameButLog f [])
]

SameButLog-Inv : (f g : Fusion) → SameButLog f g → Inv f → Inv g
SameButLog-Inv f g same inv = record {
  small = rw same.products inv.small;
  mods = λ j. rw (same.products, same.modules) (inv.mods j);
  hw_a = rw (same.products, same.ref_hw_a) inv.hw_a;
  hw_m = rw (same.products, same.ref_hw_m) inv.hw_m;
}

checked-SameButLog : (f : Fusion) (dep : List Bool) → SameButLog f (algo_on_hw_dep_checked f dep)
unfolding algo_on_hw_dep_checked
checked-SameButLog f dep =
    let v = apply_hw_a-SameButLog (record f { active_hws = dep }) in
    record {
      products = v.products;
      modules = v.modules;
      ref_hw_a = v.ref_hw_a;
      ref_hw_m = v.ref_hw_m;
    }

module _ {Dev : Type 0} (driver : Driver Dev) where
  sp_enable_ch_vars :
      (w : World Fusion Dev) (i : ℕ) (ch : Channel) (on : Bool)
      → let g = sp_enable_ch driver fusion_ops w i ch on in
        g.vars ≡ algo_on_hw_dep_checked (switched_vars driver fusion_ops w ch on) g.sp.curr_hw_dep
  unfolding sp_enable_ch sp_re_check_dep_hw sp_recalc_interval_re checked count_client fusion_ops
      link_ch
  sp_enable_ch_vars w i ch true = ground arith
  sp_enable_ch_vars w i ch false = ground arith

first_bit :
    {Dev : Type 0} (s s' : HwList Dev) (i j0 j : ℕ) (hw0 hw : SensorHw) (n : Bool)
    (cs ns ds : List Bool)
    → AllHeld s' i ds
    → AllSet s i cs (n ∷ ns) ds
    → hw_get_hw_by_id s.list i ≡ some (j0, hw0)
    → hw_get_hw_by_id s'.list i ≡ some (j, hw)
    → hw.enabled ≡ n
first_bit s s' i j0 j hw0 hw n [] ns ds h a e0 e = absurd a
first_bit s s' i j0 j hw0 hw n (c ∷ cs) ns [] h a e0 e = absurd a
first_bit s s' i j0 j hw0 hw n (c ∷ cs) ns (d ∷ ds) h a e0 e = powered (rw e at h.0) (rw e0 at a.0)
  where
    powered : IsPowered hw × (hw.ref ≡ b2n d) → d ≡ n → hw.enabled ≡ n
    powered (v, r) k = ground (arith, v.held, v.idle)

-- The acceleration chip over a switch of a channel of the fusion provider, with working chips and a
-- product that is the other way: the chip runs afterwards exactly if an enabled product needs it.
pub sp_enable_ch-ChipA :
    {Dev : Type 0} (driver : Driver Dev) (w : World Fusion Dev) (i : ℕ) (ch : Channel) (on : Bool)
    (old : AlgoProduct) (j0 j : ℕ) (hw0 hw : SensorHw)
    → Working driver
    → Served w
    → Inv w.vars
    → fusion_get_product w.vars.products ch.typ ≡ some old
    → old.enable ≡ not on
    → (on ≡ false → old.bypass_proc ≡ ch.cfg.bypass_proc)
    → hw_get_hw_by_id w.hw.list 0 ≡ some (j0, hw0)
    → hw_get_hw_by_id (sp_enable_ch driver fusion_ops w i ch on).hw.list 0 ≡ some (j, hw)
    → let g = sp_enable_ch driver fusion_ops w i ch on in
      Inv g.vars × (hw.enabled ≡ ltb 0 (count uses_a g.vars.products))
unfolding fusion_ops algo_get_curr_hw_dep
sp_enable_ch-ChipA driver w i ch on old j0 j hw0 hw working served inv get turned same e0 e =
    let sw = switched_vars driver fusion_ops w ch on in
    let g = sp_enable_ch driver fusion_ops w i ch on in
    let sw_inv : Inv sw =
      fusion_on_ch_enabled-Inv w.vars ch.typ ch.cfg.bypass_proc on old get turned same inv in
    let log : SameButLog sw g.vars =
      rw (sp_enable_ch_vars driver w i ch on) (checked-SameButLog sw g.sp.curr_hw_dep) in
    let (v, sets) = sp_enable_ch-Served driver fusion_ops working (λ _. refl) w i ch on served in
    (
      SameButLog-Inv sw g.vars log sw_inv,
      first_bit w.hw g.hw 0 j0 j hw0 hw _ _ _ _ v.held sets e0 e
          ∙ rw (log.products, sw_inv.hw_a) refl,
    )
