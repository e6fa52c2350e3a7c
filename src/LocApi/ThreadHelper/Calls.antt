-- ===== src/LocApi/ThreadHelper/Calls.antt =====
-- The calls of `thread_proc_init` among those of the thread.
use vibe_xperia.Prelude.{ℕ, zero, suc, b2n, ◌∙◌, ◌≡◌, refl, Bool, true, false, List, [], ◌∷◌}
use vibe_xperia.LocApi.ThreadHelper.{
  Procs, Call, call_init, call_pre, call_proc, call_post, MainAt, at_init, at_fail, at_ready,
  at_pre, at_proc, at_check, at_post, init_failed, pre_failed, completed, ended, log,
}
use vibe_xperia.LocApi.ThreadHelper.Run.{calls_at, before_ready, procs_log}

-- `thread_proc_init` has failed.
abbrev pub init_failed_at : MainAt → Bool
init_failed_at at_fail = true
init_failed_at (ended init_failed) = true
init_failed_at _ = false

-- how often `thread_proc_init` has been called
abbrev pub inits : List Call → ℕ
inits [] = 0
inits (call_init ∷ cs) = suc (inits cs)
inits (call_pre ∷ cs) = inits cs
inits (call_proc ∷ cs) = inits cs
inits (call_post ∷ cs) = inits cs

inits-log : (has : Bool) (cs : List Call) → inits (log has call_pre cs) ≡ inits cs
inits-log true cs = refl
inits-log false cs = refl

inits-post : (has : Bool) (cs : List Call) → inits (log has call_post cs) ≡ inits cs
inits-post true cs = refl
inits-post false cs = refl

inits-procs : (n : ℕ) (cs : List Call) → inits (procs_log n cs) ≡ inits cs
inits-procs zero cs = refl
inits-procs (suc n) cs = inits-procs n cs

inits-first : (has : Bool) → inits (log has call_init []) ≡ b2n has
inits-first true = refl
inits-first false = refl

-- Past `thread_proc_init` and not after its failure, it has been called once if it is set.
pub inits-calls_at :
    (p : Procs) (n : ℕ) (at : MainAt)
    → before_ready at ≡ false
    → init_failed_at at ≡ false
    → inits (calls_at p n at) ≡ b2n p.has_init
inits-calls_at p n at_init b f = cc
inits-calls_at p n at_fail b f = cc
inits-calls_at p n at_ready b f = cc
inits-calls_at p n at_pre b f = inits-first p.has_init
inits-calls_at p n at_proc b f = inits-procs n _ ∙ inits-log p.has_pre _ ∙ inits-first p.has_init
inits-calls_at p n at_check b f = inits-procs n _ ∙ inits-log p.has_pre _ ∙ inits-first p.has_init
inits-calls_at p n at_post b f = inits-procs n _ ∙ inits-log p.has_pre _ ∙ inits-first p.has_init
inits-calls_at p n (ended init_failed) b f = cc
inits-calls_at p n (ended pre_failed) b f = inits-first p.has_init
inits-calls_at p n (ended completed) b f =
    inits-post p.has_post _ ∙ inits-procs n _ ∙ inits-log p.has_pre _ ∙ inits-first p.has_init
