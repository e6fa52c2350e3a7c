-- ===== src/LocApi/ThreadHelper.antt =====
-- gps/loc_api/libloc_api_50001/loc_eng_dmn_conn_thread_helper.c: a thread that runs four procedures of its
-- owner, what they answer being a parameter of the thread's step.
pub mod Run
pub mod Calls
pub mod Launch
use vibe_xperia.Prelude.{
  ℕ, zero, suc, ◌+◌, Bool, true, false, not, ◌&&◌, ◌||◌, List, [], ◌∷◌, Option, none, some, ℤ, pos,
  negsuc, minus_one, if◌then◌else◌,
}

-- Which of `thread_proc_init`, `thread_proc_pre`, `thread_proc` and `thread_proc_post` are not NULL
pub record Procs : Type 0 where
  pub has_init : Bool
  pub has_pre : Bool
  pub has_proc : Bool
  pub has_post : Bool

pub data Call : Type 0 where
  call_init : Call
  call_pre : Call
  call_proc : Call
  call_post : Call

pub data Ending : Type 0 where
  init_failed : Ending
  pre_failed : Ending
  completed : Ending

-- Where `thelper_main` is: before each call, before the signal after a failed `thread_proc_init`, before
-- the test of the loop, and at its end
pub data MainAt : Type 0 where
  at_init : MainAt
  at_fail : MainAt
  at_ready : MainAt
  at_pre : MainAt
  at_proc : MainAt
  at_check : MainAt
  at_post : MainAt
  ended : Ending → MainAt

-- `struct loc_eng_dmn_conn_thelper`, whether its condition variable and mutex exist, and the thread with
-- its calls, the latest first
pub record Thelper : Type 0 where
  pub procs : Procs
  pub thread_exit : Bool
  pub thread_ready : Bool
  pub cond : Bool
  pub mutex : Bool
  pub at : MainAt
  pub calls : List Call

abbrev pub is_ok : ℤ → Bool
is_ok (pos zero) = true
is_ok _ = false

-- `result < 0`
abbrev pub is_negative : ℤ → Bool
is_negative (pos n) = false
is_negative (negsuc n) = true

-- The results of `pthread_cond_init` and of `pthread_mutex_init` are parameters.
unfoldable pub thelper_signal_init : Thelper → ℤ → ℤ → ℤ × Thelper
thelper_signal_init t cond_init mutex_init =
    if not (is_ok cond_init)
    then (cond_init, record t { thread_exit = false; thread_ready = false; cond = false })
    else (
      mutex_init,
      record t {
        thread_exit = false;
        thread_ready = false;
        cond = is_ok mutex_init;
        mutex = is_ok mutex_init;
      },
    )

-- The results of the two calls are parameters; a call that succeeds destroys what it names.
unfoldable pub thelper_signal_destroy : Thelper → ℤ → ℤ → ℤ × Thelper
thelper_signal_destroy t cond_destroy mutex_destroy =
    let first = if is_ok cond_destroy then pos 0 else cond_destroy in
    (
      if is_ok mutex_destroy then first else mutex_destroy,
      record t {
        cond = t.cond && not (is_ok cond_destroy);
        mutex = t.mutex && not (is_ok mutex_destroy);
      },
    )

-- Whether `thelper_signal_wait` waits, and what it returns: `result` is 0, or what the wait returned.
unfoldable pub must_wait : Thelper → Bool
must_wait t = not t.thread_ready && not t.thread_exit

unfoldable pub wait_result : Thelper → ℤ → ℤ
wait_result t result = if t.thread_exit then minus_one else result

unfoldable pub thelper_signal_ready : Thelper → Thelper
thelper_signal_ready t = record t { thread_ready = true }

-- The result is what `thread_ready` was.
unfoldable pub thelper_signal_block : Thelper → Bool × Thelper
thelper_signal_block t = (t.thread_ready, record t { thread_ready = false })

unfoldable pub loc_eng_dmn_conn_unblock_thelper : Thelper → Thelper
loc_eng_dmn_conn_unblock_thelper t = record t { thread_exit = true }

abbrev pub log : Bool → Call → List Call → List Call
log has c cs = if has then c ∷ cs else cs

-- A step of `thelper_main`; `r` is what the procedure answers that is called in it, if it is set.
abbrev pub main_at : Thelper → ℤ → MainAt → Thelper
main_at t r at_init =
    if t.procs.has_init
    then (if is_negative r
        then record t { thread_exit = true; at = at_fail; calls = call_init ∷ t.calls }
        else record t { at = at_ready; calls = call_init ∷ t.calls })
    else record t { at = at_ready }
main_at t r at_fail = record t { thread_ready = true; at = ended init_failed }
main_at t r at_ready = record t { thread_ready = true; at = at_pre }
main_at t r at_pre =
    if t.procs.has_pre
    then (if is_negative r
        then record t { thread_exit = true; at = ended pre_failed; calls = call_pre ∷ t.calls }
        else record t { at = at_proc; calls = call_pre ∷ t.calls })
    else record t { at = at_proc }
main_at t r at_proc =
    if t.procs.has_proc
    then record t {
      thread_exit = if is_negative r then true else t.thread_exit;
      at = at_check;
      calls = call_proc ∷ t.calls;
    }
    else record t { at = at_check }
main_at t r at_check = record t { at = if t.thread_exit then at_post else at_proc }
main_at t r at_post = record t {
  at = ended completed;
  calls = log t.procs.has_post call_post t.calls;
}
main_at t r (ended e) = t

unfoldable pub thelper_main : Thelper → ℤ → Thelper
thelper_main t r = main_at t r t.at

-- What `loc_eng_dmn_conn_launch_thelper` does up to the wait for the thread: `none` if it waits, or the
-- result. `create` is the result of `pthread_create`, or `none` if `create_thread_cb` is set.
unfoldable pub loc_eng_dmn_conn_launch_thelper :
    Thelper → Procs → ℤ → ℤ → Option ℤ → Option ℤ × Thelper
loc_eng_dmn_conn_launch_thelper t procs cond_init mutex_init create =
    let (r, t1) = thelper_signal_init t cond_init mutex_init in
    let t2 = record t1 { procs = procs; calls = [] } in
    if is_ok (elim create [ none ↦ pos 0 | some e ↦ e ])
    then (none, record t2 { at = at_init })
    else (some minus_one, t2)

-- What it returns after the wait
unfoldable pub launch_result : Thelper → ℤ
launch_result t = if t.thread_exit then pos 1 else pos 0

-- `joined` is the result of `pthread_join`; the others are those of the two calls of the destruction.
unfoldable pub loc_eng_dmn_conn_join_thelper : Thelper → ℤ → ℤ → ℤ → ℤ × Thelper
loc_eng_dmn_conn_join_thelper t joined cond_destroy mutex_destroy =
    (joined, (thelper_signal_destroy t cond_destroy mutex_destroy).1)
