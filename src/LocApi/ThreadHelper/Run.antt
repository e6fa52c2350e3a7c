-- ===== src/LocApi/ThreadHelper/Run.antt =====
-- The runs of `thelper_main` with the calls that its owner makes meanwhile.
use vibe_xperia.Prelude.{ℕ, zero, suc, ◌≡◌, Bool, true, false, List, [], ◌∷◌, ℤ}
use vibe_xperia.LocApi.ThreadHelper.{
  Procs, Call, call_init, call_pre, call_proc, call_post, init_failed, pre_failed, completed,
  MainAt, at_init, at_fail, at_ready, at_pre, at_proc, at_check, at_post, ended, Thelper, log,
  thelper_main, thelper_signal_block, loc_eng_dmn_conn_unblock_thelper,
}

-- The thread's steps, whatever its procedures answer, and the owner's calls between them
pub data Steps (t : Thelper) : Thelper → Type 0 where
  here : Steps t t
  main : {u : Thelper} (r : ℤ) → Steps t u → Steps t (thelper_main u r)
  unblock : {u : Thelper} → Steps t u → Steps t (loc_eng_dmn_conn_unblock_thelper u)
  block : {u : Thelper} → Steps t u → Steps t (thelper_signal_block u).1

abbrev pub procs_log : ℕ → List Call → List Call
procs_log zero cs = cs
procs_log (suc n) cs = call_proc ∷ procs_log n cs

-- The calls that `thelper_main` has made when it is at `at` and has run its task `n` times: each of the
-- procedures that are set, in their order, and none after one of the first two that failed
abbrev pub calls_at : Procs → ℕ → MainAt → List Call
calls_at p n at_init = []
calls_at p n at_fail = call_init ∷ []
calls_at p n at_ready = log p.has_init call_init []
calls_at p n at_pre = log p.has_init call_init []
calls_at p n (ended init_failed) = call_init ∷ []
calls_at p n (ended pre_failed) = call_pre ∷ log p.has_init call_init []
calls_at p n at_proc = procs_log n (log p.has_pre call_pre (log p.has_init call_init []))
calls_at p n at_check = procs_log n (log p.has_pre call_pre (log p.has_init call_init []))
calls_at p n at_post = procs_log n (log p.has_pre call_pre (log p.has_init call_init []))
calls_at p n (ended completed) =
    log p.has_post call_post (procs_log n (log p.has_pre call_pre (log p.has_init call_init [])))

abbrev pub before_ready : MainAt → Bool
before_ready at_init = true
before_ready at_fail = true
before_ready at_ready = true
before_ready _ = false

-- Before its signal the thread is not ready, and a thread that gave up after a failure has set its exit.
abbrev pub Flags : Bool → Bool → MainAt → Type 0
Flags exit is_ready at_init = is_ready ≡ false
Flags exit is_ready at_fail = (is_ready ≡ false) × (exit ≡ true)
Flags exit is_ready at_ready = is_ready ≡ false
Flags exit is_ready at_pre = Unit {0}
Flags exit is_ready at_proc = Unit {0}
Flags exit is_ready at_check = Unit {0}
Flags exit is_ready at_post = exit ≡ true
Flags exit is_ready (ended e) = exit ≡ true

pub record Inv (p : Procs) (t : Thelper) : Type 0 where
  pub procs : t.procs ≡ p
  pub flags : Flags t.thread_exit t.thread_ready t.at
  pub count : ℕ
  pub calls : t.calls ≡ calls_at p count t.at

abbrev thelper : Procs → Bool → Bool → Bool → Bool → MainAt → List Call → Thelper
thelper p e r c m at cs = record {
  procs = p;
  thread_exit = e;
  thread_ready = r;
  cond = c;
  mutex = m;
  at = at;
  calls = cs;
}
