-- ===== src/Sensord/Fusion/Deps.antt =====
-- src/algo/algo_adapter.c: the modules of the algorithm and the chips that a product needs, counted.
pub mod Modules
use vibe_xperia.Prelude.{
  ℕ, suc, ◌+◌, ◌-◌, ◌/◌, ◌%◌, Bool, true, false, List, [], ◌∷◌, Option, none, some, ltb, leb, ◌==◌,
  ◌&&◌, if◌then◌else◌, ℤ, pos, negsuc, einval, get_or, pos_part,
}
use vibe_xperia.Sensord.Fusion.State.{
  type_a, type_m, type_o, type_g, type_vg, type_vla, type_vrv, type_gest_flip, mod_acc, mod_mag,
  mod_cmp, mod_m4g, mod_vla, mod_gest_flip, AlgoModule, AlgoProduct, Command, opmode, calibmode,
  load_profile, save_profile, acc_datarate, mag_datarate, mag_noise_threshold, hw_bw, hw_delay,
  Fusion, emit,
}

-- `algo_enable_a`, `algo_enable_m` and the others, less the assignment of `op_mode`
unfoldable pub enable_commands : ℕ → Bool → List Command
enable_commands id true =
    if id == mod_acc
    then opmode mod_acc true ∷ calibmode mod_acc 2 ∷ load_profile mod_acc ∷ []
    else if id == mod_mag
    then opmode mod_mag true ∷ calibmode mod_mag 2 ∷ load_profile mod_mag ∷ []
    else if id == mod_vla
    then opmode mod_vla true ∷ []
    else if id == mod_gest_flip
    then opmode mod_gest_flip true ∷ []
    else []
enable_commands id false =
    if id == mod_acc
    then save_profile mod_acc ∷ opmode mod_acc false ∷ calibmode mod_acc 0 ∷ []
    else if id == mod_mag
    then save_profile mod_mag ∷ opmode mod_mag false ∷ calibmode mod_mag 0 ∷ []
    else opmode id false ∷ []

-- `ref > 0` of a signed 5-bit field
abbrev pub is_pos5 : ℕ → Bool
is_pos5 r = ltb 0 r && ltb r 16

-- The module and the calls made.
unfoldable pub algo_mod_ref_change : AlgoModule → Bool → AlgoModule × List Command
algo_mod_ref_change md true =
    let up = record md { ref = (md.ref + 1) % 32 } in
    if up.ref == 1 then (record up { op_mode = true }, enable_commands md.id true) else (up, [])
algo_mod_ref_change md false =
    let off = if md.ref == 1 then record md { op_mode = false } else md in
    (
      if is_pos5 off.ref then record off { ref = off.ref - 1 } else off,
      if md.ref == 1 then enable_commands md.id false else [],
    )

-- `algo_get_mod`, the first module of the identifier
unfoldable pub algo_get_mod : List AlgoModule → ℕ → Option AlgoModule
algo_get_mod [] id = none
algo_get_mod (md ∷ rest) id =
    let next = algo_get_mod rest id in if md.id == id then some md else next

unfoldable pub put_mod : List AlgoModule → ℕ → AlgoModule → List AlgoModule
put_mod [] id new = []
put_mod (md ∷ rest) id new =
    let next = put_mod rest id new in if md.id == id then new ∷ rest else md ∷ next

-- `ALGO_MOD_ENABLE`
unfoldable pub algo_mod_enable : Fusion → ℕ → Bool → Fusion
algo_mod_enable f id on = elim (algo_get_mod f.modules id) [
  | none ↦ f
  | some md ↦
      let (new, calls) = algo_mod_ref_change md on in
      emit (record f { modules = put_mod f.modules id new }) calls
]

-- `ALGO_MOD_IS_ENABLED`
unfoldable pub algo_mod_is_enabled : Fusion → ℕ → Bool
algo_mod_is_enabled f id = elim (algo_get_mod f.modules id) [ none ↦ false | some md ↦ md.op_mode ]

-- The modules that the switch of `algo_update_mod_dep` names for a type, in its order.
unfoldable pub module_deps : ℕ → List ℕ
module_deps typ =
    if typ == type_a
    then mod_acc ∷ []
    else if typ == type_m
    then mod_mag ∷ []
    else if typ == type_g
    then mod_acc ∷ mod_mag ∷ mod_m4g ∷ []
    else if typ == type_o
    then mod_acc ∷ mod_mag ∷ mod_cmp ∷ []
    else if typ == type_vg
    then mod_acc ∷ mod_vla ∷ []
    else if typ == type_vla
    then mod_acc ∷ mod_vla ∷ []
    else if typ == type_vrv
    then mod_acc ∷ mod_mag ∷ mod_m4g ∷ []
    else if typ == type_gest_flip
    then mod_acc ∷ mod_gest_flip ∷ []
    else []

unfoldable pub enable_all : Fusion → List ℕ → Bool → Fusion
enable_all f [] on = f
enable_all f (id ∷ ids) on = enable_all (algo_mod_enable f id on) ids on

unfoldable pub algo_update_mod_dep : Fusion → AlgoProduct → Bool → Fusion
algo_update_mod_dep f ap on =
    if ap.bypass_proc
    then f
    else (let g = enable_all f (module_deps ap.typ) on in
        if ap.typ == type_gest_flip && on then record g { last_value_gest_flip = negsuc 0 } else g)

-- the cases of `algo_update_hw_ref`, on one of the two counters
abbrev pub count_ref : ℕ → Bool → ℕ
count_ref r true = r + 1
count_ref r false = r - 1

-- Whether the switch of `algo_update_hw_dep` names the acceleration sensor for a type.
unfoldable pub needs_a : ℕ → Bool
needs_a typ =
    if typ == type_a
    then true
    else if typ == type_g
    then true
    else if typ == type_o
    then true
    else if typ == type_vg
    then true
    else if typ == type_vla
    then true
    else if typ == type_vrv
    then true
    else typ == type_gest_flip

-- Whether it names the magnetic sensor.
unfoldable pub needs_m : ℕ → Bool
needs_m typ =
    if typ == type_m
    then true
    else if typ == type_g
    then true
    else if typ == type_o
    then true
    else typ == type_vrv

unfoldable pub algo_update_hw_dep : Fusion → AlgoProduct → Bool → Fusion
algo_update_hw_dep f ap on = record f {
  ref_hw_a = if needs_a ap.typ then count_ref f.ref_hw_a on else f.ref_hw_a;
  ref_hw_m = if needs_m ap.typ then count_ref f.ref_hw_m on else f.ref_hw_m;
}
