-- ===== src/Sensord/Daemon/Run.antt =====
-- The runs of the thread with the commands.
use vibe_xperia.Prelude.{
  ℕ, zero, suc, ◌-◌, ◌≤◌, ◌≡◌, refl, sym, ap, subst, ◌∙◌, Bool, true, false, ◌||◌, List, [], ◌∷◌,
  map, Option, none, some, inl, inr, arith, ltb, ◌==◌, if◌then◌else◌, if_then, if_else, Bool-cases,
  Option-cases, ℤ, length, set, get_elem?, ==_iff, count, count-le-length,
}
use vibe_xperia.Sensord.Hw.{Driver}
use vibe_xperia.Sensord.Provider.State.{Channel, Provider, Ops, World}
use vibe_xperia.Sensord.Provider.Process.{Event, is_due, collect, proc_pass}
use vibe_xperia.Sensord.Provider.Process.Report.{due_handles, proc_pass-due}
use vibe_xperia.Sensord.Channel.{channel_on_cmd_received}
use vibe_xperia.Sensord.Channel.Inv.{Linked, stay}
use vibe_xperia.Sensord.Channel.Commands.{channel_on_cmd_received-Linked}
use vibe_xperia.Sensord.Daemon.{Daemon, re_proc, pass, command}
use vibe_xperia.Sensord.Channel.Boot.{
  sp_preinit, subscribe, sp_register_ch, channel_subscribe2sp, sp_init, channel_cntl_init,
}
use vibe_xperia.Sensord.Channel.Boot.Reach.{channel_cntl_init-Linked}
use vibe_xperia.Sensord.Channel.Inv.{awake, counted}
use vibe_xperia.Sensord.Daemon.Wakes.{channel_on_cmd_received-Wakes}

-- What a pass leaves: the list and the count as they were, and the provider's other fields.
record Passed {S Dev : Type 0} (w g : World S Dev) (xs : List ℕ) : Type 0 where
  linked : Linked g xs
  sp : g.sp ≡ w.sp

module _ {S Dev D : Type 0} (get_data : S → ℕ → ℕ → List D × S) where
  ticked :
      (w : World S Dev) (xs : List ℕ) (c now : ℕ) (ch : Channel) (vars : S)
      → get_elem? w.channels c ≡ some ch
      → Linked w xs
      → Linked
          (record w { vars = vars; channels = set w.channels c (record ch { ts_last_ev = now }) })
          xs
  ticked w xs c now ch vars at inv =
      let v = stay w xs c ch (record ch { ts_last_ev = now }) inv at refl refl in
      record {
        chain = v.chain;
        distinct = v.distinct;
        members = v.members;
        number = v.number;
        refs = v.refs;
        small = v.small;
      }

  collect-Passed :
      (fuel now n : ℕ) (w : World S Dev) (p : Option ℕ) (xs : List ℕ)
      → Linked w xs
      → Passed w (collect get_data fuel now w p n).1 xs
  unfolding collect
  collect-Passed zero now n w p xs inv = record { linked = inv; sp = refl }
  collect-Passed (suc f) now n w none xs inv = record { linked = inv; sp = refl }
  collect-Passed (suc f) now n w (some c) xs inv = elim (Option-cases (get_elem? w.channels c)) [
    | inl e ↦ rw (e, collect) (record { linked = inv; sp = refl })
    | inr (ch, e) ↦ elim (Bool-cases (is_due now ch)) [
      | inl due ↦
          rw (e, due, collect)
            (let v =
                collect-Passed f now _ _ (w.links c) xs
                  (ticked w xs c now ch (get_data w.vars ch.typ (w.sp.client_num - n)).1 e inv) in
              record { linked = v.linked; sp = v.sp })
      | inr not_due ↦ rw (e, not_due, collect) (collect-Passed f now n w (w.links c) xs inv)
    ]
  ]

-- The list of the provider is right, and while the thread sleeps with no signal sent since, no channel is
-- counted.
pub record Good {S Dev : Type 0} (d : Daemon S Dev) : Type 0 where
  pub nodes : List ℕ
  pub linked : Linked d.world nodes
  pub op_blk : d.world.sp.op_blk ≡ false
  pub past : d.seen ≤ d.world.sp.signals
  pub idle : d.sleeping ≡ true → d.seen ≡ d.world.sp.signals → d.world.sp.ref ≡ 0

module _ {S Dev D : Type 0} (get_data : S → ℕ → ℕ → List D × S) (proc_data : ℕ → S → S) where
  pass-Good :
      (start now : ℕ) (d : Daemon S Dev) → Good d → Good (pass get_data proc_data start now d).1
  unfolding proc_pass
  pass-Good start now d g =
      let w = record d.world { vars = proc_data start d.world.vars } in
      let inv : Linked w g.nodes = record {
        chain = g.linked.chain;
        distinct = g.linked.distinct;
        members = g.linked.members;
        number = g.linked.number;
        refs = g.linked.refs;
        small = g.linked.small;
      } in
      let v = collect-Passed get_data (suc (length w.channels)) now 0 w w.sp.clients g.nodes inv in
      record {
        nodes = g.nodes;
        linked = v.linked;
        op_blk = ap (λ sp. sp.op_blk) v.sp ∙ g.op_blk;
        past = subst (λ sp. d.seen ≤ sp.signals) (sym v.sp) g.past;
        idle = λ s e. cc;
      }

  Good-if :
      (b : Bool) (x y : List (Event D) × Daemon S Dev)
      → Good x.1
      → Good y.1
      → Good (if b then x else y).1
  Good-if true x y gx gy = gx
  Good-if false x y gx gy = gy

  to_sleep :
      (start now : ℕ) (d : Daemon S Dev)
      → Good d
      → Good (pass get_data proc_data start now d).1
      → Good
          (if d.world.sp.ref == 0
            then ([], record d { sleeping = true; seen = d.world.sp.signals })
            else pass get_data proc_data start now d).1
  to_sleep start now d g passed = elim (Bool-cases (d.world.sp.ref == 0)) [
    | inl z ↦
        subst (λ (r : List (Event D) × Daemon S Dev). Good r.1)
          (sym (if_then (d.world.sp.ref == 0) _ _ z))
          (record {
            nodes = g.nodes;
            linked = g.linked;
            op_blk = g.op_blk;
            past = omega arith;
            idle = λ s e. (==_iff d.world.sp.ref 0).0 z;
          })
    | inr nz ↦
        subst (λ (r : List (Event D) × Daemon S Dev). Good r.1)
          (sym (if_else (d.world.sp.ref == 0) _ _ nz)) passed
  ]

  re_proc-Good :
      (start now : ℕ) (spurious : Bool) (d : Daemon S Dev)
      → Good d
      → Good (re_proc get_data proc_data start now spurious d).1
  unfolding re_proc
  re_proc-Good start now spurious d g =
      let passed = pass-Good start now d g in
      Good-if d.sleeping _ _
        (Good-if (spurious || ltb d.seen d.world.sp.signals) _ ([], d) passed g)
        (to_sleep start now d g passed)

module _ {S Dev : Type 0} (driver : Driver Dev) (ops : Ops S) where
  command-Good :
      (handle cmd value : ℤ) (d : Daemon S Dev)
      → Good d
      → Good (command driver ops handle cmd value d).1
  unfolding command
  command-Good handle cmd value d g =
      let w' = (channel_on_cmd_received driver ops d.world handle cmd value).1 in
      let k = channel_on_cmd_received-Wakes driver ops d.world handle cmd value in
      let (ys, v) =
        channel_on_cmd_received-Linked driver ops d.world handle cmd value g.nodes g.linked in
      record {
        nodes = ys;
        linked = v;
        op_blk = k.op_blk ∙ g.op_blk;
        past = omega (arith, g.past, k.more);
        idle = λ s e.
            let same : w'.sp.signals ≡ d.world.sp.signals = omega (arith, g.past, k.more, e) in
            k.quiet g.op_blk same (g.idle s (e ∙ same));
      }

subscribe-op_blk :
    (sp : Provider) (chs : List Channel) → (channel_subscribe2sp sp chs).0.op_blk ≡ sp.op_blk
unfolding channel_subscribe2sp subscribe sp_register_ch
subscribe-op_blk sp [] = refl
subscribe-op_blk sp (ch ∷ rest) = ground (arith, subscribe-op_blk (subscribe sp ch).0 rest)

sp_init-op_blk : (sp : Provider) → (sp_init sp).op_blk ≡ sp.op_blk
unfolding sp_init
sp_init-op_blk sp = ground arith

module _ {S Dev D : Type 0} (driver : Driver Dev) (ops : Ops S) (get_data : S → ℕ → ℕ → List D × S)
    (proc_data : ℕ → S → S) where
  -- The thread, waking up at its will, and the commands, in any order
  pub data Steps (d : Daemon S Dev) : Daemon S Dev → Type 0 where
    here : Steps d d
    ran :
        {u : Daemon S Dev} (start now : ℕ) (spurious : Bool)
        → Steps d u
        → Steps d (re_proc get_data proc_data start now spurious u).1
    commanded :
        {u : Daemon S Dev} (handle cmd value : ℤ)
        → Steps d u
        → Steps d (command driver ops handle cmd value u).1

  -- The thread starts awake when the channels are ready.
  abbrev pub started : World S Dev → Daemon S Dev
  started w = record { world = w; sleeping = false; seen = 0 }

  started-Good :
      (init : Channel → ℤ) (sp_err : ℤ) (w : World S Dev)
      → length w.channels ≤ 31
      → w.sp.op_blk ≡ false
      → Good (started (channel_cntl_init init sp_err w).1)
  unfolding channel_cntl_init sp_preinit
  started-Good init sp_err w small blk = record {
    nodes = [];
    linked = channel_cntl_init-Linked init sp_err w small;
    op_blk = sp_init-op_blk _ ∙ subscribe-op_blk _ _ ∙ blk;
    past = omega arith;
    idle = λ s e. cc;
  }

  Steps-Good : {d u : Daemon S Dev} → Steps d u → Good d → Good u
  Steps-Good here g = g
  Steps-Good (ran {u = u} start now spurious run) g =
      re_proc-Good get_data proc_data start now spurious u (Steps-Good run g)
  Steps-Good (commanded {u = u} handle cmd value run) g =
      command-Good driver ops handle cmd value u (Steps-Good run g)

  -- From the start, with at most 31 channels and a provider that does not block, and with the passes of the
  -- thread and any commands in any order: the list has exactly the channels that are on, each once, the
  -- reference count is the number of those that are processed, a pass reports exactly the channels that are
  -- due, in the order of the list, when each `get_data` answers one report, and while the thread sleeps with
  -- no signal sent since, no channel is to be processed.
  pub daemon_runs :
      (init : Channel → ℤ) (sp_err : ℤ) (w : World S Dev) {u : Daemon S Dev}
      → ((v : S) (typ room : ℕ) → length (get_data v typ room).0 ≡ 1)
      → length w.channels ≤ 31
      → w.sp.op_blk ≡ false
      → Steps (started (channel_cntl_init init sp_err w).1) u
      → (ys : List ℕ) × Linked u.world ys
        × ((start now : ℕ)
            → map (λ e. e.handle) (proc_pass get_data proc_data start now u.world).0
              ≡ due_handles u.world.channels now ys)
        × (u.sleeping ≡ true → u.seen ≡ u.world.sp.signals → count counted u.world.channels ≡ 0)
  daemon_runs init sp_err w {u} one small blk run =
      let g = Steps-Good run (started-Good init sp_err w small blk) in
      let v = g.linked in
      (
        g.nodes,
        v,
        λ start now.
            proc_pass-due get_data one proc_data start now _ g.nodes
              (omega (arith, v.number, count-le-length awake u.world.channels)) v.distinct v.chain,
        λ s e. sym v.refs ∙ g.idle s e,
      )
