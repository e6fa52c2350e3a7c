-- ===== src/Sensord/Fusion/Product/Inv.antt =====
-- The counts that the products keep on the modules and the chips, over any switching.
use vibe_xperia.Prelude.{
  ℕ, ◌+◌, ◌-◌, ◌≤◌, ◌<◌, ◌≡◌, refl, sym, subst, Bool, true, false, not, ◌&&◌, List, [], ◌∷◌, Option,
  none, some, arith, ltb, if◌then◌else◌, length, b2n, count, count-le-length,
}
use vibe_xperia.Sensord.UtilMisc.Chain.{elem}
use vibe_xperia.Sensord.Fusion.State.{AlgoModule, AlgoProduct, Fusion}
use vibe_xperia.Sensord.Fusion.Deps.{
  algo_mod_ref_change, algo_get_mod, module_deps, algo_update_mod_dep, needs_a, needs_m,
  algo_update_hw_dep, count_ref,
}
use vibe_xperia.Sensord.Fusion.Deps.Modules.{
  change, on_some, SameButLog, emit-SameButLog, enable_all-get, enable_all-same,
  module_deps-Distinct,
}
use vibe_xperia.Sensord.Fusion.Rates.{
  resolve_commands, regulate_dr, fusion_arbitrate_dr, algo_resolve_internal_state,
  fusion_get_product, put_product,
}
use vibe_xperia.Sensord.Fusion.Product.{algo_enable_product, fusion_on_ch_enabled}

-- An enabled product that is processed needs the module.
abbrev pub uses_mod : ℕ → AlgoProduct → Bool
uses_mod j x = x.enable && not x.bypass_proc && elem j (module_deps x.typ)

abbrev pub uses_a : AlgoProduct → Bool
uses_a x = x.enable && needs_a x.typ

abbrev pub uses_m : AlgoProduct → Bool
uses_m x = x.enable && needs_m x.typ

-- The count of a module is the number of products that need it, and it runs while somebody does.
abbrev pub ModOk : List AlgoProduct → ℕ → Option AlgoModule → Type 0
ModOk ps j none = Unit {0}
ModOk ps j (some md) = (md.ref ≡ count (uses_mod j) ps) × (md.op_mode ≡ ltb 0 md.ref)

pub record Inv (f : Fusion) : Type 0 where
  pub small : length f.products ≤ 15
  pub mods : (j : ℕ) → ModOk f.products j (algo_get_mod f.modules j)
  pub hw_a : f.ref_hw_a ≡ count uses_a f.products
  pub hw_m : f.ref_hw_m ≡ count uses_m f.products

count-put_product :
    (p : AlgoProduct → Bool) (ps : List AlgoProduct) (typ : ℕ) (old new : AlgoProduct)
    → fusion_get_product ps typ ≡ some old
    → count p (put_product ps typ new) + b2n (p old) ≡ count p ps + b2n (p new)
unfolding fusion_get_product put_product
count-put_product p [] typ old new e = cc
count-put_product p (x ∷ xs) typ old new e = ground (arith, count-put_product p xs typ old new)

length-put_product :
    (ps : List AlgoProduct) (typ : ℕ) (new : AlgoProduct)
    → length (put_product ps typ new) ≡ length ps
unfolding put_product
length-put_product [] typ new = refl
length-put_product (x ∷ xs) typ new = ground (arith, length-put_product xs typ new)

typ_of_get_product :
    (ps : List AlgoProduct) (typ : ℕ) (x : AlgoProduct)
    → fusion_get_product ps typ ≡ some x
    → x.typ ≡ typ
unfolding fusion_get_product
typ_of_get_product [] typ x e = cc
typ_of_get_product (y ∷ ys) typ x e = ground (arith, typ_of_get_product ys typ x)

resolve-SameButLog : (f : Fusion) → SameButLog f (algo_resolve_internal_state f)
unfolding algo_resolve_internal_state
resolve-SameButLog f = emit-SameButLog f (resolve_commands f)

change_up :
    (md : AlgoModule)
    → md.ref < 15
    → md.op_mode ≡ ltb 0 md.ref
    → ((change true md).ref ≡ md.ref + 1) × ((change true md).op_mode ≡ true)
unfolding algo_mod_ref_change
change_up md h o = ground arith

change_down :
    (md : AlgoModule)
    → 0 < md.ref
    → md.ref ≤ 15
    → md.op_mode ≡ ltb 0 md.ref
    → ((change false md).ref ≡ md.ref - 1) × ((change false md).op_mode ≡ ltb 0 (md.ref - 1))
unfolding algo_mod_ref_change
change_down md p h o = ground arith

record ModDepSame (f g : Fusion) : Type 0 where
  products : g.products ≡ f.products
  ref_hw_a : g.ref_hw_a ≡ f.ref_hw_a
  ref_hw_m : g.ref_hw_m ≡ f.ref_hw_m

update_mod_dep-same :
    (f : Fusion) (x : AlgoProduct) (on : Bool) → ModDepSame f (algo_update_mod_dep f x on)
unfolding algo_update_mod_dep
update_mod_dep-same f x on = ground (arith, enable_all-same (module_deps x.typ) f on)

update_mod_dep-get :
    (f : Fusion) (x : AlgoProduct) (on : Bool) (j : ℕ)
    → algo_get_mod (algo_update_mod_dep f x on).modules j ≡ (
        if not x.bypass_proc && elem j (module_deps x.typ)
        then on_some (change on) (algo_get_mod f.modules j)
        else algo_get_mod f.modules j)
unfolding algo_update_mod_dep
update_mod_dep-get f x on j =
    ground (arith, enable_all-get (module_deps x.typ) f j on (module_deps-Distinct x.typ))

-- What `algo_enable_product` leaves in the variables that are counted.
record Switched (f : Fusion) (x : AlgoProduct) (on : Bool) (g : Fusion) : Type 0 where
  products : g.products ≡ put_product f.products x.typ (regulate_dr x)
  modules : g.modules ≡ (algo_update_mod_dep f x on).modules
  ref_hw_a : g.ref_hw_a ≡ (if needs_a x.typ then count_ref f.ref_hw_a on else f.ref_hw_a)
  ref_hw_m : g.ref_hw_m ≡ (if needs_m x.typ then count_ref f.ref_hw_m on else f.ref_hw_m)

enable_product-Switched :
    (f : Fusion) (x : AlgoProduct) (on : Bool) → Switched f x on (algo_enable_product f x on)
unfolding algo_enable_product fusion_arbitrate_dr algo_update_hw_dep
enable_product-Switched f x on = ground (
  arith,
  update_mod_dep-same f x on,
  resolve-SameButLog (
      fusion_arbitrate_dr (
        let g = algo_update_hw_dep (algo_update_mod_dep f x on) x on in
        record g { products = put_product g.products x.typ (regulate_dr x) })),
)

module _ (f : Fusion) (old : AlgoProduct) (on : Bool)
    (get : fusion_get_product f.products old.typ ≡ some old) (turned : old.enable ≡ not on)
    (inv : Inv f) where
  new : Bool → AlgoProduct
  new bypass = record old { enable = on; bypass_proc = bypass }

  ps : Bool → List AlgoProduct
  ps bypass = put_product f.products old.typ (regulate_dr (new bypass))

  counted :
      (p : AlgoProduct → Bool) (bypass : Bool)
      → (count p (ps bypass) + b2n (p old)
          ≡ count p f.products + b2n (p (regulate_dr (new bypass))))
        × (count p (ps bypass) ≤ 15)
        × (count p f.products ≤ 15)
  unfolding ps
  counted p bypass = (
    count-put_product p f.products old.typ old (regulate_dr (new bypass)) get,
    omega (
      arith,
      count-le-length p (put_product f.products old.typ (regulate_dr (new bypass))),
      length-put_product f.products old.typ (regulate_dr (new bypass)),
      inv.small,
    ),
    omega (arith, count-le-length p f.products, inv.small),
  )

  mod_case :
      (j : ℕ) (bypass : Bool) (o : Option AlgoModule)
      → (on ≡ false → old.bypass_proc ≡ bypass)
      → ModOk f.products j o
      → ModOk
          (ps bypass)
          j
          (if not bypass && elem j (module_deps old.typ) then on_some (change on) o else o)
  unfolding new regulate_dr
  mod_case j bypass none same v = ground arith
  mod_case j bypass (some md) same v =
      ground (arith, counted (uses_mod j) bypass, change_up md, change_down md)

  Switched-mods :
      (bypass : Bool) (g : Fusion) (j : ℕ)
      → (on ≡ false → old.bypass_proc ≡ bypass)
      → Switched f (new bypass) on g
      → ModOk g.products j (algo_get_mod g.modules j)
  unfolding new ps
  Switched-mods bypass g j same v =
      rw (v.products, v.modules, update_mod_dep-get f (new bypass) on j)
        (mod_case j bypass (algo_get_mod f.modules j) same (inv.mods j))

  Switched-Inv :
      (bypass : Bool) (g : Fusion)
      → (on ≡ false → old.bypass_proc ≡ bypass)
      → Switched f (new bypass) on g
      → Inv g
  unfolding new regulate_dr ps
  Switched-Inv bypass g same v = record {
    small =
        rw (v.products, length-put_product f.products old.typ (regulate_dr (new bypass))) inv.small;
    mods = λ j. Switched-mods bypass g j same v;
    hw_a = rw (v.products, v.ref_hw_a) (ground (arith, counted uses_a bypass, inv.hw_a));
    hw_m = rw (v.products, v.ref_hw_m) (ground (arith, counted uses_m bypass, inv.hw_m));
  }

-- Switching a product that is the other way keeps the counts, for a channel that is switched off
-- with the bypass flag it was switched on with.
pub fusion_on_ch_enabled-Inv :
    (f : Fusion) (typ : ℕ) (bypass on : Bool) (old : AlgoProduct)
    → fusion_get_product f.products typ ≡ some old
    → old.enable ≡ not on
    → (on ≡ false → old.bypass_proc ≡ bypass)
    → Inv f
    → Inv (fusion_on_ch_enabled f typ bypass on).1
unfolding fusion_on_ch_enabled new
fusion_on_ch_enabled-Inv f typ bypass on old get turned same inv =
    rw (get, fusion_on_ch_enabled)
      (Switched-Inv f old on
        (subst (λ t. fusion_get_product f.products t ≡ some old)
          (sym (typ_of_get_product f.products typ old get)) get)
        turned inv bypass
        (algo_enable_product f (record old { enable = on; bypass_proc = bypass }) on) same
        (enable_product-Switched f (record old { enable = on; bypass_proc = bypass }) on))
