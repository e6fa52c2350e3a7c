-- ===== src/Sensord/Channel/Boot/Reach.antt =====
-- What holds from the start on, over every sequence of commands.
use vibe_xperia.Prelude.{
  ℕ, zero, suc, ◌+◌, ◌≤◌, ◌<◌, ◌≡◌, refl, sym, ◌∙◌, Bool, false, not, List, [], ◌∷◌, none, arith,
  ◌==◌, ℤ, length, get_elem?, count,
}
use vibe_xperia.Sensord.UtilMisc.{Memory, update}
use vibe_xperia.Sensord.Hw.{Driver}
use vibe_xperia.Sensord.Provider.State.{Channel, Provider, Ops, World}
use vibe_xperia.Sensord.Channel.Inv.{awake, awake_opt, counted, Linked}
use vibe_xperia.Sensord.Channel.Commands.{channel_on_cmd_received-Linked}
use vibe_xperia.Sensord.Channel.Boot.{
  init_channel, channel_init, sp_preinit, sp_register_ch, subscribe, channel_subscribe2sp, sp_init,
  channel_cntl_init, run,
}

abbrev AllAsleep : List Channel → Type 0
AllAsleep [] = Unit {0}
AllAsleep (ch ∷ chs) = (ch.state ≡ 0) × AllAsleep chs

-- A channel that is available has the provider.
abbrev pub Subscribed : List Channel → Type 0
Subscribed [] = Unit {0}
Subscribed (ch ∷ chs) = ((ch.cfg.availability == 0) ≡ not ch.registered) × Subscribed chs

abbrev pub AllUnregistered : List Channel → Type 0
AllUnregistered [] = Unit {0}
AllUnregistered (ch ∷ chs) = (ch.registered ≡ false) × AllUnregistered chs

channel_init_lem :
    (init : Channel → ℤ) (chs : List Channel) (m : Memory) (i : ℕ)
    → AllAsleep (channel_init init chs m i).0 × (length (channel_init init chs m i).0 ≡ length chs)
unfolding channel_init init_channel
channel_init_lem init [] m i = (tt, refl)
channel_init_lem init (ch ∷ rest) m i =
    ground (arith, channel_init_lem init rest (update m i none) (suc i))

subscribe-asleep :
    (sp : Provider) (chs : List Channel)
    → AllAsleep chs
    → AllAsleep (channel_subscribe2sp sp chs).1
      × (length (channel_subscribe2sp sp chs).1 ≡ length chs)
      × ((channel_subscribe2sp sp chs).0.clients ≡ sp.clients)
      × ((channel_subscribe2sp sp chs).0.ref ≡ sp.ref)
unfolding channel_subscribe2sp subscribe sp_register_ch
subscribe-asleep sp [] h = (tt, refl, refl, refl)
subscribe-asleep sp (ch ∷ rest) h = ground (arith, subscribe-asleep (subscribe sp ch).0 rest h.1)

asleep_count :
    (p : Channel → Bool) (chs : List Channel)
    → ((ch : Channel) → ch.state ≡ 0 → p ch ≡ false)
    → AllAsleep chs
    → count p chs ≡ 0
asleep_count p [] np h = refl
asleep_count p (ch ∷ chs) np h = ground (arith, np ch h.0, asleep_count p chs np h.1)

asleep_members : (chs : List Channel) (j : ℕ) → AllAsleep chs → awake_opt (get_elem? chs j) ≡ false
asleep_members [] j h = refl
asleep_members (ch ∷ chs) zero h = ground (arith, h.0)
asleep_members (ch ∷ chs) (suc j) h = asleep_members chs j h.1

sp_init_same : (sp : Provider) → ((sp_init sp).clients ≡ sp.clients) × ((sp_init sp).ref ≡ sp.ref)
unfolding sp_init
sp_init_same sp = ground arith

module _ {S Dev : Type 0} where
  -- The daemon starts with an empty list and no reference.
  pub channel_cntl_init-Linked :
      (init : Channel → ℤ) (sp_err : ℤ) (w : World S Dev)
      → length w.channels ≤ 31
      → Linked (channel_cntl_init init sp_err w).1 []
  unfolding channel_cntl_init sp_init sp_preinit
  channel_cntl_init-Linked init sp_err w small =
      let (asleep, len) = channel_init_lem init w.channels w.links 0 in
      let chs = (channel_init init w.channels w.links 0).0 in
      let (still, len2, none_linked, no_ref) =
        subscribe-asleep (sp_preinit w.sp sp_err) chs asleep in
      let r = channel_subscribe2sp (sp_preinit w.sp sp_err) chs in
      record {
        chain = (sp_init_same r.0).0 ∙ none_linked;
        distinct = tt;
        members = λ j. sym (asleep_members r.1 j still);
        number = sym (asleep_count awake r.1 (λ ch e. ground arith) still);
        refs =
            (sp_init_same r.0).1
            ∙ no_ref
            ∙ sym (asleep_count counted r.1 (λ ch e. ground arith) still);
        small = omega (arith, len, len2, small);
      }

commands-Linked :
    {S Dev : Type 0} (driver : Driver Dev) (ops : Ops S) (cmds : List (ℤ × ℤ × ℤ)) (w : World S Dev)
    (xs : List ℕ)
    → Linked w xs
    → (ys : List ℕ) × Linked (run driver ops w cmds) ys
unfolding run
commands-Linked driver ops [] w xs inv = (xs, inv)
commands-Linked driver ops ((handle, cmd, value) ∷ cmds) w xs inv =
    let (ys, v) = channel_on_cmd_received-Linked driver ops w handle cmd value xs inv in
    commands-Linked driver ops cmds _ ys v

-- After the start with at most 31 channels and any commands, right or wrong, the provider's list has
-- exactly the channels that are on, each once, and its reference count is the number of those that are
-- processed.
pub run-Linked :
    {S Dev : Type 0} (driver : Driver Dev) (ops : Ops S) (init : Channel → ℤ) (sp_err : ℤ)
    (w : World S Dev) (cmds : List (ℤ × ℤ × ℤ))
    → length w.channels ≤ 31
    → (ys : List ℕ) × Linked (run driver ops (channel_cntl_init init sp_err w).1 cmds) ys
run-Linked driver ops init sp_err w cmds small =
    commands-Linked driver ops cmds _ [] (channel_cntl_init-Linked init sp_err w small)

channel_init-unregistered :
    (init : Channel → ℤ) (chs : List Channel) (m : Memory) (i : ℕ)
    → AllUnregistered chs
    → AllUnregistered (channel_init init chs m i).0
unfolding channel_init init_channel
channel_init-unregistered init [] m i h = tt
channel_init-unregistered init (ch ∷ rest) m i h =
    (ground arith, channel_init-unregistered init rest (update m i none) (suc i) h.1)

subscribe-Subscribed :
    (sp : Provider) (chs : List Channel)
    → AllUnregistered chs
    → sp.client_num + length chs < 64
    → Subscribed (channel_subscribe2sp sp chs).1
      × ((channel_subscribe2sp sp chs).0.client_num
          ≡ sp.client_num + count (λ ch. ch.registered) (channel_subscribe2sp sp chs).1)
unfolding channel_subscribe2sp subscribe sp_register_ch
subscribe-Subscribed sp [] h lim = (tt, omega arith)
subscribe-Subscribed sp (ch ∷ rest) h lim =
    ground (arith, subscribe-Subscribed (subscribe sp ch).0 rest h.1)

sp_init-client_num : (sp : Provider) → (sp_init sp).client_num ≡ sp.client_num
unfolding sp_init
sp_init-client_num sp = ground arith

-- After `channel_cntl_init`, with at most 31 channels that had no provider before, the channels that are
-- available are those that have the provider, and their number is the provider's count of clients.
pub channel_cntl_init-Subscribed :
    {S Dev : Type 0} (init : Channel → ℤ) (sp_err : ℤ) (w : World S Dev)
    → AllUnregistered w.channels
    → length w.channels ≤ 31
    → let g = (channel_cntl_init init sp_err w).1 in
      Subscribed g.channels × (g.sp.client_num ≡ count (λ ch. ch.registered) g.channels)
unfolding channel_cntl_init sp_preinit
channel_cntl_init-Subscribed init sp_err w un small =
    let v =
      subscribe-Subscribed (sp_preinit w.sp sp_err) (channel_init init w.channels w.links 0).0
        (channel_init-unregistered init w.channels w.links 0 un)
        (omega (arith, (channel_init_lem init w.channels w.links 0).1, small)) in
    let r =
      channel_subscribe2sp (sp_preinit w.sp sp_err) (channel_init init w.channels w.links 0).0 in
    (v.0, omega (arith, sp_init-client_num r.0, v.1))
