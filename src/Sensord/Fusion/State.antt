-- ===== src/Sensord/Fusion/State.antt =====
-- sensors/daemon/inc/algo_adapter.h and the variables of src/algo/algo_adapter.c and
-- src/sensor_fusion.c. The calls into the algorithm library and to the chips' settings are kept in
-- `log`, the latest first.
use vibe_xperia.Prelude.{ℕ, Bool, List, [], ◌∷◌, Option, ℤ}

-- sensors/daemon/inc/sensor_def.h
abbrev pub type_a : ℕ
type_a = 1

abbrev pub type_m : ℕ
type_m = 2

abbrev pub type_o : ℕ
type_o = 3

abbrev pub type_g : ℕ
type_g = 4

abbrev pub type_vg : ℕ
type_vg = 9

abbrev pub type_vla : ℕ
type_vla = 10

abbrev pub type_vrv : ℕ
type_vrv = 11

abbrev pub type_gest_flip : ℕ
type_gest_flip = 24

-- the multi-character constants of inc/algo_adapter.h
abbrev pub mod_acc : ℕ
mod_acc = 0x5f61_6363

abbrev pub mod_mag : ℕ
mod_mag = 0x5f6d_6167

abbrev pub mod_cmp : ℕ
mod_cmp = 0x5f63_6d70

abbrev pub mod_m4g : ℕ
mod_m4g = 0x5f6d_3467

abbrev pub mod_vla : ℕ
mod_vla = 0x5f76_6c61

abbrev pub mod_gest_flip : ℕ
mod_gest_flip = 0x5f67_6670

-- `struct algo_module`
pub record AlgoModule : Type 0 where
  pub id : ℕ
  pub op_mode : Bool
  pub ref : ℕ  -- int ref:5

-- `struct algo_product`
pub record AlgoProduct : Type 0 where
  pub typ : ℕ
  pub enable : Bool
  pub bypass_proc : Bool
  pub dr_a : ℕ
  pub dr_m : ℕ
  pub dr_g : ℕ
  pub dr_acc_min : ℕ
  pub dr_acc_max : ℕ
  pub dr_mag_min : ℕ
  pub dr_mag_max : ℕ
  pub dr_gyro_min : ℕ
  pub dr_gyro_max : ℕ

-- What the daemon tells the algorithm library and the chips.
pub data Command : Type 0 where
  opmode : ℕ → Bool → Command
  calibmode : ℕ → ℕ → Command
  load_profile : ℕ → Command
  save_profile : ℕ → Command
  acc_datarate : ℕ → Command
  mag_datarate : ℕ → Command
  mag_noise_threshold : ℕ → Command
  hw_bw : ℕ → Command
  hw_delay : ℕ → Command

-- The variables of the two files.
pub record Fusion : Type 0 where
  pub products : List AlgoProduct
  pub modules : List AlgoModule
  pub g_dr_a : ℕ
  pub g_dr_m : ℕ
  pub g_dr_g : ℕ
  pub ref_hw_a : ℕ
  pub ref_hw_m : ℕ
  pub active_hws : List Bool  -- g_active_hws, one entry for each bit
  pub last_value_gest_flip : ℤ
  pub ori_thres_m : Option ℕ
  pub has_hw_a : Bool
  pub log : List Command

abbrev pub emit : Fusion → List Command → Fusion
emit f [] = f
emit f (c ∷ cs) = emit (record f { log = c ∷ f.log }) cs
