-- ===== src/Sensord/Tests/Daemons.antt =====
-- A run of the daemon: two channels are switched on, the thread passes, goes to sleep and is woken.
use vibe_xperia.Prelude.{ℕ, ◌≡◌, refl, true, false, List, [], ◌∷◌, map, arith, pos, count}
use vibe_xperia.Sensord.Fusion.State.{Fusion}
use vibe_xperia.Sensord.Provider.Instances.{fusion_ops}
use vibe_xperia.Sensord.Provider.Process.{proc_pass}
use vibe_xperia.Sensord.Provider.Process.Report.{due_handles}
use vibe_xperia.Sensord.Channel.Inv.{Linked, counted}
use vibe_xperia.Sensord.Channel.Boot.{channel_cntl_init}
use vibe_xperia.Sensord.Samples.{good_driver, fusion_off, world}
use vibe_xperia.Sensord.Daemon.{Daemon, re_proc, command}
use vibe_xperia.Sensord.Daemon.Run.{Steps, here, ran, commanded, started, daemon_runs}

abbrev one_report : Fusion → ℕ → ℕ → List ℕ × Fusion
one_report v typ room = (typ ∷ [], v)

abbrev no_algorithm : ℕ → Fusion → Fusion
no_algorithm start v = v

abbrev first : Daemon Fusion ℕ
first =
    started good_driver fusion_ops one_report no_algorithm
      (channel_cntl_init (λ _. pos 0) (pos 0) (world fusion_off)).1

abbrev switched : Daemon Fusion ℕ
switched =
    (command good_driver fusion_ops (pos 3) (pos 1) (pos 1)
      (re_proc one_report no_algorithm 5 6 false first).1).1

abbrev woken : Daemon Fusion ℕ
woken = (re_proc one_report no_algorithm 300 301 false switched).1

woken-Steps : Steps good_driver fusion_ops one_report no_algorithm first woken
woken-Steps = ran 300 301 false (commanded (pos 3) (pos 1) (pos 1) (ran 5 6 false here))

daemon_runs_example :
    (ys : List ℕ) × Linked woken.world ys
    × ((start now : ℕ)
        → map (λ e. e.handle) (proc_pass one_report no_algorithm start now woken.world).0
          ≡ due_handles woken.world.channels now ys)
    × (woken.sleeping ≡ true
        → woken.seen ≡ woken.world.sp.signals
        → count counted woken.world.channels ≡ 0)
daemon_runs_example =
    daemon_runs good_driver fusion_ops one_report no_algorithm (λ _. pos 0) (pos 0)
      (world fusion_off) (λ v typ room. refl) (omega arith) refl woken-Steps
