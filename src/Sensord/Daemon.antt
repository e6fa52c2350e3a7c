-- ===== src/Sensord/Daemon.antt =====
-- src/sensor_provider.c, `re_proc`, together with the commands of src/channel_cntl.c: the thread of a provider
-- that does not block, which holds `lock_ref` from its test of `ref` to the end of a pass.
pub mod Wakes
pub mod Run
use vibe_xperia.Prelude.{
  ℕ, Bool, true, false, not, ◌||◌, ◌&&◌, List, [], ltb, ◌==◌, if◌then◌else◌, ℤ,
}
use vibe_xperia.Sensord.Hw.{Driver}
use vibe_xperia.Sensord.Provider.State.{Provider, Ops, World}
use vibe_xperia.Sensord.Provider.Process.{Event, proc_pass}
use vibe_xperia.Sensord.Channel.{channel_on_cmd_received}

-- `sleeping` is `re->sleeping`, and `seen` the signals that had been sent when the thread went to sleep.
pub record Daemon (S Dev : Type 0) : Type 0 where
  pub world : World S Dev
  pub sleeping : Bool
  pub seen : ℕ

module _ {S Dev D : Type 0} (get_data : S → ℕ → ℕ → List D × S) (proc_data : ℕ → S → S) where
  abbrev pub pass : ℕ → ℕ → Daemon S Dev → List (Event D) × Daemon S Dev
  pass start now d =
      let (events, w) = proc_pass get_data proc_data start now d.world in
      (events, record d { world = w; sleeping = false })

  -- What the thread does while it holds the lock: it goes to sleep, stays asleep, or wakes up, by a signal
  -- or spuriously, and passes over the channels, or passes over them at once. The wait does not fail.
  unfoldable pub re_proc : ℕ → ℕ → Bool → Daemon S Dev → List (Event D) × Daemon S Dev
  re_proc start now spurious d =
      if d.sleeping
      then if spurious || ltb d.seen d.world.sp.signals then pass start now d else ([], d)
      else if d.world.sp.ref == 0
      then ([], record d { sleeping = true; seen = d.world.sp.signals })
      else pass start now d

module _ {S Dev : Type 0} (driver : Driver Dev) (ops : Ops S) where
  -- A command, under the lock
  unfoldable pub command : ℤ → ℤ → ℤ → Daemon S Dev → ℤ × Daemon S Dev
  command handle cmd value d =
      let (err, w) = channel_on_cmd_received driver ops d.world handle cmd value in
      (err, record d { world = w })
