-- ===== src/Sensord/Samples.antt =====
-- Test data for the runs of the daemon: two chips, three channels, the products of this build.
use vibe_xperia.Prelude.{
  ℕ, ◌+◌, refl, Bool, true, false, [], ◌∷◌, none, some, arith, pos, minus_one, einval,
}
use vibe_xperia.Sensord.Hw.{SensorHw, Driver, HwList}
use vibe_xperia.Sensord.Hw.RefCount.{IsPowered}
use vibe_xperia.Sensord.Fusion.State.{
  AlgoModule, AlgoProduct, Fusion, type_a, type_m, type_o, mod_acc, mod_mag, mod_cmp,
}
use vibe_xperia.Sensord.Fusion.Deps.{algo_get_mod}
use vibe_xperia.Sensord.Fusion.Product.Inv.{Inv}
use vibe_xperia.Sensord.Provider.State.{ChannelCfg, Channel, Provider, World}
use vibe_xperia.Sensord.Provider.Deps.{Working}

-- A driver that counts its calls and reports success, and one that reports an error.
abbrev pub good_driver : Driver ℕ
good_driver = record {
  init = λ typ d. (pos 0, d);
  enable = λ typ. some (λ b d. (pos 0, d + 1));
  restore_cfg = λ typ. none;
}

abbrev pub bad_driver : Driver ℕ
bad_driver = record {
  init = λ typ d. (pos 0, d);
  enable = λ typ. some (λ b d. (einval, d + 1));
  restore_cfg = λ typ. none;
}

pub good_driver-Working : Working good_driver
good_driver-Working = record {
  on = λ typ b d. (pos 0, d + 1);
  enable = λ typ. refl;
  success = λ typ b d. refl;
  restored = λ typ d. refl;
}

abbrev pub chip : ℕ → ℕ → Bool → SensorHw
chip typ ref enabled = record {
  typ = typ;
  available = true;
  ref = ref;
  enabled = enabled;
  drdy = false;
  fd_poll = minus_one;
  ts_last_update = 0;
}

pub chip_off-IsPowered : (typ : ℕ) → IsPowered (chip typ 0 false)
chip_off-IsPowered typ = record {
  in_range = omega arith;
  held = λ h. ground arith;
  idle = λ _. refl;
}

pub chip_on-IsPowered : (typ : ℕ) → IsPowered (chip typ 1 true)
chip_on-IsPowered typ = record {
  in_range = omega arith;
  held = λ _. refl;
  idle = λ e. ground arith;
}

abbrev pub two_chips : HwList ℕ
two_chips = record { list = chip 0 0 false ∷ chip 4 0 false ∷ []; dev = 0 }

abbrev pub product : ℕ → AlgoProduct
product typ = record {
  typ = typ;
  enable = false;
  bypass_proc = false;
  dr_a = 0;
  dr_m = 0;
  dr_g = 0;
  dr_acc_min = 2;
  dr_acc_max = 6;
  dr_mag_min = 2;
  dr_mag_max = 5;
  dr_gyro_min = 0;
  dr_gyro_max = 0;
}

abbrev pub module_of : ℕ → AlgoModule
module_of id = record { id = id; op_mode = false; ref = 0 }

abbrev pub fusion_off : Fusion
fusion_off = record {
  products = product type_a ∷ product type_m ∷ product type_o ∷ [];
  modules = module_of mod_acc ∷ module_of mod_mag ∷ module_of mod_cmp ∷ [];
  g_dr_a = 0;
  g_dr_m = 0;
  g_dr_g = 0;
  ref_hw_a = 0;
  ref_hw_m = 0;
  active_hws = false ∷ false ∷ false ∷ false ∷ false ∷ false ∷ false ∷ [];
  last_value_gest_flip = minus_one;
  ori_thres_m = none;
  has_hw_a = true;
  log = [];
}

pub fusion_off-Inv : Inv fusion_off
unfolding algo_get_mod
fusion_off-Inv = record { small = omega arith; mods = λ j. ground arith; hw_a = refl; hw_m = refl }

abbrev pub cfg : Bool → ChannelCfg
cfg bypass = record {
  sp_name = 70 ∷ [];
  availability = 1;
  no_delay = false;
  bypass_proc = bypass;
  interval_min = 10;
  interval_max = 1000;
}

abbrev pub channel : ℕ → Bool → Channel
channel typ bypass = record {
  typ = typ;
  handle = pos typ;
  cfg = cfg bypass;
  prev_state = 0;
  state = 0;
  interval = pos 200;
  ts_last_ev = 0;
  registered = false;
}

abbrev pub provider : Provider
provider = record {
  name = 70 ∷ [];
  sensors = 0x01000e1e;
  available = true;
  client_num = 3;
  ref = 0;
  curr_hw_dep = false ∷ false ∷ false ∷ false ∷ false ∷ false ∷ false ∷ [];
  clients = none;
  interval = 1000;
  op_blk = false;
  started = true;
  signals = 0;
}

abbrev pub world : {S : Type 0} → S → World S ℕ
world s = record {
  channels = channel type_a true ∷ channel type_m false ∷ channel type_o false ∷ [];
  links = λ _. none;
  sp = provider;
  vars = s;
  hw = two_chips;
}
