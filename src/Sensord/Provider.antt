-- ===== src/Sensord/Provider.antt =====
-- sensors/daemon/src/sensor_provider.c: a channel is switched, the chips and the interval follow.
pub mod State
pub mod Process
pub mod Instances
pub mod Deps
pub mod Interval
use vibe_xperia.Prelude.{
  ℕ, zero, suc, ◌+◌, ◌-◌, ◌%◌, Bool, true, false, not, List, [], ◌∷◌, Option, none, some, ltb, ◌==◌,
  ◌&&◌, if◌then◌else◌, ℤ, pos, is_err, length, get_elem?,
}
use vibe_xperia.Sensord.UtilMisc.{
  Memory, list_add_head, list_find_node, list_del_node, get_max_comm_div,
}
use vibe_xperia.Sensord.Hw.{Driver, HwList, hw_ref_up, hw_ref_down}
use vibe_xperia.Sensord.Provider.State.{
  state_sleep, ChannelCfg, Channel, Provider, Ops, World, to_u16,
}

-- INTV_PROC_MIN
abbrev pub intv_proc_min : ℕ
intv_proc_min = 5

abbrev pub xor : Bool → Bool → Bool
xor true b = not b
xor false b = b

-- `ref > 0` of a signed 6-bit field
abbrev pub is_pos6 : ℕ → Bool
is_pos6 r = ltb 0 r && ltb r 32

-- more nodes than the table has channels
abbrev pub list_fuel : List Channel → ℕ
list_fuel chs = suc (length chs)

-- `val` of the loop of `sp_recalc_interval_re`
unfoldable pub clients_interval : ℕ → List Channel → Memory → Option ℕ → ℤ → ℤ
clients_interval zero chs m cur val = val
clients_interval (suc f) chs m none val = val
clients_interval (suc f) chs m (some c) val = elim (get_elem? chs c) [
  | none ↦ val
  | some ch ↦
      clients_interval f chs m (m c)
        (if ch.state == state_sleep then val else get_max_comm_div val ch.interval)
]

module _ {Dev : Type 0} (driver : Driver Dev) where
  abbrev pub call_ref : HwList Dev → ℕ → Bool → ℤ × HwList Dev
  call_ref s i true = hw_ref_up driver s i
  call_ref s i false = hw_ref_down driver s i

  -- The loop of `sp_re_check_dep_hw` from the bit `i` on: the bits of the old and of the new
  -- dependency, and `err` so far. The new `curr_hw_dep` is the first result.
  unfoldable pub check_bits :
      HwList Dev → ℕ → List Bool → List Bool → ℤ → List Bool × HwList Dev × ℤ
  check_bits s i (c ∷ cs) (n ∷ ns) err =
      if xor n c
      then (let (e, s1) = call_ref s i n in
          let (bits, s2, last) = check_bits s1 (suc i) cs ns e in
          ((if is_err e then not n else n) ∷ bits, s2, last))
      else (let (bits, s2, last) = check_bits s (suc i) cs ns err in (n ∷ bits, s2, last))
  check_bits s i cs ns err = ([], s, err)

-- the reference count's part of `sp_enable_ch`
unfoldable pub count_client : Provider → Bool → Provider
count_client sp true =
    let up = record sp { ref = (sp.ref + 1) % 64 } in
    if up.ref == 1 && not sp.op_blk then record up { signals = sp.signals + 1 } else up
count_client sp false = if is_pos6 sp.ref then record sp { ref = sp.ref - 1 } else sp

module _ {S Dev : Type 0} where
  -- the list's part of `sp_enable_ch`
  unfoldable pub link_ch : World S Dev → ℕ → Bool → World S Dev
  link_ch w i true = record w {
    links = elim (list_find_node (list_fuel w.channels) w.links w.sp.clients i) [
      | none ↦ list_add_head w.links w.sp.clients i
      | some _ ↦ w.links
    ];
    sp = record w.sp { clients = some i };
  }
  link_ch w i false =
      let (m, head) = list_del_node (list_fuel w.channels) w.links w.sp.clients i in
      record w { links = m; sp = record w.sp { clients = head } }

module _ {S Dev : Type 0} (ops : Ops S) where
  -- `re->interval` before the lower bound is applied
  unfoldable pub raw_interval : World S Dev → ℕ
  raw_interval w = elim ops.get_hint_proc_interval [
    | some hint ↦ to_u16 (hint w.vars)
    | none ↦
        to_u16 (clients_interval (list_fuel w.channels) w.channels w.links w.sp.clients (pos 1000))
  ]

  unfoldable pub sp_recalc_interval_re : World S Dev → World S Dev
  unfolding raw_interval
  sp_recalc_interval_re w = record w {
    sp = record w.sp {
      interval = if ltb (raw_interval w) intv_proc_min then intv_proc_min else raw_interval w;
    };
  }

  unfoldable pub checked : World S Dev → World S Dev
  checked w = elim ops.on_hw_dep_checked [
    | none ↦ w
    | some f ↦ record w { vars = f w.vars w.sp.curr_hw_dep }
  ]

module _ {S Dev : Type 0} (driver : Driver Dev) (ops : Ops S) where
  unfoldable pub sp_re_check_dep_hw : World S Dev → World S Dev × ℤ
  sp_re_check_dep_hw w =
      let (bits, hw, err) =
        check_bits driver w.hw 0 w.sp.curr_hw_dep (ops.get_curr_hw_dep w.vars) (pos 0) in
      (record w { sp = record w.sp { curr_hw_dep = bits }; hw = hw }, err)

  -- The channel `ch` at the index `i`.
  unfoldable pub sp_enable_ch : World S Dev → ℕ → Channel → Bool → World S Dev
  unfolding link_ch
  sp_enable_ch w i ch on =
      let w1 = link_ch w i on in
      let (_, vars) = ops.on_ch_enabled w1.vars ch.typ ch.cfg.bypass_proc on in
      let (w2, _) = sp_re_check_dep_hw (record w1 { vars = vars }) in
      let w3 = sp_recalc_interval_re ops (checked ops w2) in
      if ch.cfg.bypass_proc then w3 else record w3 { sp = count_client w3.sp on }
