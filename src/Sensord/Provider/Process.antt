-- ===== src/Sensord/Provider/Process.antt =====
-- src/sensor_provider.c, `re_proc`: one pass of the provider's thread over the channels.
pub mod Report
use vibe_xperia.Prelude.{
  ℕ, zero, suc, ◌+◌, ◌-◌, ◌%◌, ◌^◌, Bool, true, false, not, List, [], ◌∷◌, ◌++◌, map, Option, none,
  some, ltb, ◌==◌, ◌&&◌, ◌||◌, if◌then◌else◌, ℤ, pos, negsuc, pos_part, neg_part, length, set,
  get_elem?,
}
use vibe_xperia.Sensord.UtilMisc.{Memory, to_s32}
use vibe_xperia.Sensord.Provider.State.{state_normal, ChannelCfg, Channel, Provider, World}

-- One report, `struct exchange`: the channel's handle and type, and what its `get_data` has written.
pub record Event (D : Type 0) : Type 0 where
  pub handle : ℤ
  pub typ : ℕ
  pub payload : D

-- `a - b` of two ticks, `uint32_t`, as an `int`
abbrev pub ticks_between : ℕ → ℕ → ℤ
ticks_between a b = to_s32 ((a + 2 ^ 32 - b) % 2 ^ 32)

-- `a - b`
abbrev diff : ℕ → ℕ → ℤ
diff a b = if ltb a b then negsuc (b - a - 1) else pos (a - b)

-- The three cases of `elapse`; CFG_TOLERANCE_TIME_PRECISION is 2.
unfoldable pub elapse : ℤ → ℤ → ℤ
elapse (pos zero) interval = negsuc 2
elapse (pos (suc d)) interval = diff (suc d + neg_part interval) (pos_part interval)
elapse (negsuc n) interval = pos 0

-- `elapse >= 0 || elapse + 2 > 0`
abbrev over : ℤ → Bool
over (pos n) = true
over (negsuc n) = n == 0

unfoldable pub is_due : ℕ → Channel → Bool
unfolding elapse
is_due now ch =
    ch.state == state_normal
    && (not ch.cfg.bypass_proc
        && (ch.cfg.no_delay || over (elapse (ticks_between now ch.ts_last_ev) ch.interval)))

abbrev pub label : {D : Type 0} → Channel → D → Event D
label ch d = record { handle = ch.handle; typ = ch.typ; payload = d }

module _ {S Dev D : Type 0} (get_data : S → ℕ → ℕ → List D × S) where
  -- The loop over the clients from the node `cur` on, with `n` events in the buffer: the events added.
  unfoldable pub collect : ℕ → ℕ → World S Dev → Option ℕ → ℕ → List (Event D) × World S Dev
  collect zero now w cur n = ([], w)
  collect (suc f) now w none n = ([], w)
  collect (suc f) now w (some c) n = elim (get_elem? w.channels c) [
    | none ↦ ([], w)
    | some ch ↦ elim (is_due now ch) [
      | false ↦ collect f now w (w.links c) n
      | true ↦
          let (out, vars) = get_data w.vars ch.typ (w.sp.client_num - n) in
          let w1 = record w {
            vars = vars;
            channels = set w.channels c (record ch { ts_last_ev = now });
          } in
          let (rest, w2) = collect f now w1 (w.links c) (n + length out) in
          (map (label ch) out ++ rest, w2)
    ]
  ]

  -- A pass: `proc_data`, and the events for the pipe.
  unfoldable pub proc_pass : (ℕ → S → S) → ℕ → ℕ → World S Dev → List (Event D) × World S Dev
  proc_pass proc_data start now w =
      collect (suc (length w.channels)) now (record w { vars = proc_data start w.vars })
        w.sp.clients 0

-- The milliseconds that the thread sleeps before the next pass.
unfoldable pub sleep_time : ℕ → ℕ → ℕ → ℕ
sleep_time interval start now = elim (ticks_between now start) [
  | negsuc _ ↦ 0
  | pos e ↦ interval - e
]
