-- ===== src/Sensord/Channel/Boot.antt =====
-- src/channel_cntl.c, `channel_cntl_init`, with `sp_preinit` and `sp_init` of src/sensor_provider.c: the
-- start of the daemon, and the commands from there.
pub mod Reach
use vibe_xperia.Prelude.{
  ℕ, suc, ◌+◌, ◌%◌, ◌/◌, ◌^◌, Bool, true, false, not, List, [], ◌∷◌, Option, none, some, ◌==◌, ◌&&◌,
  if◌then◌else◌, ℤ, pos, is_err,
}
use vibe_xperia.Sensord.UtilMisc.{Memory, update}
use vibe_xperia.Sensord.Hw.{Driver}
use vibe_xperia.Sensord.Provider.State.{state_sleep, ChannelCfg, Channel, Provider, Ops, World}
use vibe_xperia.Sensord.Channel.{channel_on_cmd_received}

-- `!strcmp(a, b)`
abbrev pub same_text : List ℕ → List ℕ → Bool
same_text [] [] = true
same_text [] (y ∷ ys) = false
same_text (x ∷ xs) [] = false
same_text (x ∷ xs) (y ∷ ys) = x == y && same_text xs ys

-- The body of `channel_init`; `err` is what the channel's `init` answers.
unfoldable pub init_channel : Channel → ℤ → Channel
init_channel ch err =
    let fresh = record ch {
      state = state_sleep;
      prev_state = state_sleep;
      interval = pos 200;
      ts_last_ev = 0;
    } in
    if not (ch.cfg.availability == 0) && is_err err
    then record fresh { cfg = record ch.cfg { availability = 0 } }
    else fresh

-- `channel_init` from the index `i` on: the channels and the list nodes.
unfoldable pub channel_init : (Channel → ℤ) → List Channel → Memory → ℕ → List Channel × Memory
channel_init init [] m i = ([], m)
channel_init init (ch ∷ rest) m i =
    let (chs, m1) = channel_init init rest (update m i none) (suc i) in
    (init_channel ch (init ch) ∷ chs, m1)

-- `sp_preinit`; `err` is what the provider's `init` answers.
unfoldable pub sp_preinit : Provider → ℤ → Provider
sp_preinit sp err = record sp {
  available = not (is_err err);
  client_num = 0;
  ref = 0;
  curr_hw_dep = false ∷ false ∷ false ∷ false ∷ false ∷ false ∷ false ∷ [];
  clients = none;
  started = false;
  interval = 1000;
}

-- `sp_scan_for_provider` over the list of one provider: whether it is found.
unfoldable pub sp_scan_for_provider : Provider → Channel → Bool
sp_scan_for_provider sp ch = sp.sensors / 2 ^ ch.typ % 2 == 1 && same_text ch.cfg.sp_name sp.name

-- `sp_register_ch`
unfoldable pub sp_register_ch : Provider → Channel → Provider × Channel
sp_register_ch sp ch =
    (record sp { client_num = (sp.client_num + 1) % 64 }, record ch { registered = true })

-- the body of `channel_subscribe2sp`
unfoldable pub subscribe : Provider → Channel → Provider × Channel
subscribe sp ch =
    if ch.cfg.availability == 0
    then (sp, ch)
    else if sp_scan_for_provider sp ch && sp.available
    then sp_register_ch sp ch
    else (sp, record ch { cfg = record ch.cfg { availability = 0 } })

unfoldable pub channel_subscribe2sp : Provider → List Channel → Provider × List Channel
channel_subscribe2sp sp [] = (sp, [])
channel_subscribe2sp sp (ch ∷ rest) =
    let (sp1, ch1) = subscribe sp ch in
    let (sp2, chs) = channel_subscribe2sp sp1 rest in (sp2, ch1 ∷ chs)

-- `sp_init` and `sp_sync_re`, for a thread that starts; the buffer of this provider is static.
unfoldable pub sp_init : Provider → Provider
sp_init sp =
    if sp.client_num == 0 then record sp { available = false } else record sp { started = true }

module _ {S Dev : Type 0} where
  unfoldable pub channel_cntl_init : (Channel → ℤ) → ℤ → World S Dev → ℤ × World S Dev
  channel_cntl_init init sp_err w =
      let (chs, links) = channel_init init w.channels w.links 0 in
      let (sp, subscribed) = channel_subscribe2sp (sp_preinit w.sp sp_err) chs in
      (pos 0, record w { channels = subscribed; links = links; sp = sp_init sp })

module _ {S Dev : Type 0} (driver : Driver Dev) (ops : Ops S) where
  -- The commands in the order in which they arrive: handle, command, value.
  unfoldable pub run : World S Dev → List (ℤ × ℤ × ℤ) → World S Dev
  run w [] = w
  run w ((handle, cmd, value) ∷ cmds) =
      run (channel_on_cmd_received driver ops w handle cmd value).1 cmds
