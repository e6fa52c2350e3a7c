-- ===== src/Sensord/Fusion/Deps/Modules.antt =====
-- One switch of a product: how the counts of the modules change.
use vibe_xperia.Prelude.{
  ℕ, ◌≡◌, refl, Bool, List, [], ◌∷◌, Option, none, some, inl, inr, arith, ◌==◌, if◌then◌else◌,
  Option-cases,
}
use vibe_xperia.Sensord.UtilMisc.Chain.{Distinct, elem, elem_of_Fresh}
use vibe_xperia.Sensord.Fusion.State.{AlgoModule, Command, Fusion, emit}
use vibe_xperia.Sensord.Fusion.Deps.{
  algo_mod_ref_change, algo_get_mod, put_mod, algo_mod_enable, module_deps, enable_all,
}

-- the module of the identifier, changed
abbrev pub change : Bool → AlgoModule → AlgoModule
change on md = (algo_mod_ref_change md on).0

abbrev pub on_some : (AlgoModule → AlgoModule) → Option AlgoModule → Option AlgoModule
on_some g none = none
on_some g (some md) = some (g md)

id-algo_mod_ref_change : (md : AlgoModule) (on : Bool) → (change on md).id ≡ md.id
unfolding algo_mod_ref_change
id-algo_mod_ref_change md on = ground arith

-- The fields that `emit` leaves alone.
pub record SameButLog (f g : Fusion) : Type 0 where
  pub products : g.products ≡ f.products
  pub modules : g.modules ≡ f.modules
  pub ref_hw_a : g.ref_hw_a ≡ f.ref_hw_a
  pub ref_hw_m : g.ref_hw_m ≡ f.ref_hw_m

pub emit-SameButLog : (f : Fusion) (cs : List Command) → SameButLog f (emit f cs)
emit-SameButLog f [] = record { products = refl; modules = refl; ref_hw_a = refl; ref_hw_m = refl }
emit-SameButLog f (c ∷ cs) =
    let v = emit-SameButLog (record f { log = c ∷ f.log }) cs in
    record {
      products = v.products;
      modules = v.modules;
      ref_hw_a = v.ref_hw_a;
      ref_hw_m = v.ref_hw_m;
    }

get-put_mod :
    (ms : List AlgoModule) (id j : ℕ) (new md : AlgoModule)
    → algo_get_mod ms id ≡ some md
    → new.id ≡ id
    → algo_get_mod (put_mod ms id new) j ≡ (if id == j then some new else algo_get_mod ms j)
unfolding algo_get_mod put_mod
get-put_mod [] id j new md e k = cc
get-put_mod (m ∷ ms) id j new md e k = ground (arith, get-put_mod ms id j new md)

id_of_get_mod :
    (ms : List AlgoModule) (id : ℕ) (md : AlgoModule) → algo_get_mod ms id ≡ some md → md.id ≡ id
unfolding algo_get_mod
id_of_get_mod [] id md e = cc
id_of_get_mod (m ∷ ms) id md e = ground (arith, id_of_get_mod ms id md)

-- `ALGO_MOD_ENABLE` changes the module of the identifier and no other.
algo_mod_enable-get :
    (f : Fusion) (id j : ℕ) (on : Bool)
    → algo_get_mod (algo_mod_enable f id on).modules j ≡ (
        if id == j
        then on_some (change on) (algo_get_mod f.modules j)
        else algo_get_mod f.modules j)
unfolding algo_mod_enable
algo_mod_enable-get f id j on = elim (Option-cases (algo_get_mod f.modules id)) [
  | inl e ↦ rw (e, algo_mod_enable) (ground arith)
  | inr (md, e) ↦
      rw (e, algo_mod_enable)
        (ground (
          arith,
          emit-SameButLog (record f { modules = put_mod f.modules id (change on md) })
              (algo_mod_ref_change md on).1,
          get-put_mod f.modules id j (change on md) md e,
          id-algo_mod_ref_change md on,
          id_of_get_mod f.modules id md e,
        ))
]

algo_mod_enable-same :
    (f : Fusion) (id : ℕ) (on : Bool)
    → ((algo_mod_enable f id on).products ≡ f.products)
      × ((algo_mod_enable f id on).ref_hw_a ≡ f.ref_hw_a)
      × ((algo_mod_enable f id on).ref_hw_m ≡ f.ref_hw_m)
unfolding algo_mod_enable
algo_mod_enable-same f id on = elim (Option-cases (algo_get_mod f.modules id)) [
  | inl e ↦ rw (e, algo_mod_enable) (refl, refl, refl)
  | inr (md, e) ↦
      rw (e, algo_mod_enable)
        (let v =
            emit-SameButLog (record f { modules = put_mod f.modules id (change on md) })
              (algo_mod_ref_change md on).1 in
          (v.products, v.ref_hw_a, v.ref_hw_m))
]

-- A list of distinct modules is changed module by module.
pub enable_all-get :
    (ids : List ℕ) (f : Fusion) (j : ℕ) (on : Bool)
    → Distinct ids
    → algo_get_mod (enable_all f ids on).modules j ≡ (
        if elem j ids
        then on_some (change on) (algo_get_mod f.modules j)
        else algo_get_mod f.modules j)
unfolding enable_all
enable_all-get [] f j on d = refl
enable_all-get (id ∷ ids) f j on d = ground (
  arith,
  enable_all-get ids (algo_mod_enable f id on) j on d.1,
  algo_mod_enable-get f id j on,
  elem_of_Fresh id ids d.0,
)

pub enable_all-same :
    (ids : List ℕ) (f : Fusion) (on : Bool)
    → ((enable_all f ids on).products ≡ f.products)
      × ((enable_all f ids on).ref_hw_a ≡ f.ref_hw_a)
      × ((enable_all f ids on).ref_hw_m ≡ f.ref_hw_m)
unfolding enable_all
enable_all-same [] f on = (refl, refl, refl)
enable_all-same (id ∷ ids) f on =
    ground (arith, enable_all-same ids (algo_mod_enable f id on) on, algo_mod_enable-same f id on)

pub module_deps-Distinct : (typ : ℕ) → Distinct (module_deps typ)
unfolding module_deps
module_deps-Distinct typ = ground arith
