-- ===== src/Gps/Timer.antt =====
-- gps/utils/loc_timer.c: a timer, which is a detached thread that waits for the deadline or for a stop. The
-- thread moves in steps, cut where the mutex is taken or given back; the stop is one step, under the mutex.
pub mod Run
pub mod Start
use vibe_xperia.Prelude.{
  ℕ, zero, suc, ◌+◌, ◌-◌, ◌*◌, ◌/◌, ◌%◌, ◌^◌, Bool, true, false, Option, none, some, ltb, leb, ◌==◌,
  ◌||◌, ◌&&◌, not, if◌then◌else◌,
}

-- `enum timer_state`
pub data TimerState : Type 0 where
  ready : TimerState
  waiting : TimerState
  done : TimerState
  abort : TimerState

-- `struct timespec`
pub record Timespec : Type 0 where
  pub tv_sec : ℕ
  pub tv_nsec : ℕ

-- The deadline of `timer_thread`, from the time of the clock and `time_msec`; the product is one of
-- 32-bit unsigned integers.
unfoldable pub deadline : Timespec → ℕ → Timespec
deadline now time_msec =
    let sec = if leb 1000 time_msec then now.tv_sec + time_msec / 1000 else now.tv_sec in
    let msec = if leb 1000 time_msec then time_msec % 1000 else time_msec in
    let nsec = if msec == 0 then now.tv_nsec else now.tv_nsec + msec * 1000000 % 2 ^ 32 in
    if ltb 999999999 nsec
    then record { tv_sec = sec + 1; tv_nsec = nsec - 1000000000 }
    else record { tv_sec = sec; tv_nsec = nsec }

-- What `pthread_cond_timedwait` returns: 0, ETIMEDOUT or another error.
pub data WaitResult : Type 0 where
  signalled : WaitResult
  timed_out : WaitResult
  wait_failed : WaitResult

-- What the platform answers in a step of the thread: what the wait returns, and whether
-- `pthread_mutex_destroy` returns EBUSY
pub record Answer : Type 0 where
  pub wait : WaitResult
  pub busy : Bool

-- Where the thread is; `ret` is `none` while it is `-ETIMEDOUT`, as it is set at first. In `destroying` it is
-- before the call of `pthread_mutex_destroy` with this `i`.
pub data ThreadAt : Type 0 where
  entering : ThreadAt
  sleeping : ThreadAt
  woken : WaitResult → ThreadAt
  leaving : Option WaitResult → ThreadAt
  destroying : Option WaitResult → ℕ → ThreadAt
  gone : Option WaitResult → ThreadAt

-- What the thread has done to destroy its mutex
pub record Destroyed : Type 0 where
  pub calls : ℕ
  pub sleeps : ℕ
  pub unlocks : ℕ

-- `timer_data` with its thread, the calls of `callback_func` and those of `pthread_cond_signal`
pub record Timer : Type 0 where
  pub state : TimerState
  pub at : ThreadAt
  pub callbacks : ℕ
  pub signals : ℕ
  pub destroyed : Destroyed

-- `if (ETIMEDOUT == ret)`
abbrev pub is_timeout : Option WaitResult → Bool
is_timeout (some timed_out) = true
is_timeout _ = false

-- `if (READY == t->state) { t->state = WAITING; pthread_cond_timedwait(...)`, which gives the mutex back
abbrev pub enter : Timer → TimerState → Timer
enter t ready = record t { state = waiting; at = sleeping }
enter t _ = record t { at = leaving none }

-- A pass of the loop of `pthread_mutex_destroy` that found the mutex busy: a sleep of a second, or for `i` 5
-- the unlock
abbrev pub again : ℕ → Destroyed → Destroyed
again i d =
    if ltb i 5
    then record { calls = suc d.calls; sleeps = suc d.sleeps; unlocks = d.unlocks }
    else record { calls = suc d.calls; sleeps = d.sleeps; unlocks = suc d.unlocks }

-- One call of `pthread_mutex_destroy`, and what follows it
abbrev pub destroy : Timer → Option WaitResult → ℕ → Bool → Timer
destroy t q i busy =
    if busy && leb i 5
    then record t { at = destroying q (suc i); destroyed = again i t.destroyed }
    else record t { at = gone q; destroyed = record t.destroyed { calls = suc t.destroyed.calls } }

-- The step from where the thread is; `r` is what the platform answers in it.
abbrev pub step_at : Timer → Answer → ThreadAt → Timer
step_at t r entering = enter t t.state
step_at t r sleeping = record t { at = woken r.wait }
step_at t r (woken q) = record t { state = done; at = leaving (some q) }
step_at t r (leaving q) = record t {
  callbacks = if is_timeout q then t.callbacks + 1 else t.callbacks;
  at = destroying q 0;
}
step_at t r (destroying q i) = destroy t q i r.busy
step_at t r (gone q) = t

unfoldable pub timer_thread : Timer → Answer → Timer
timer_thread t r = step_at t r t.at

abbrev pub may_stop : TimerState → Bool
may_stop ready = true
may_stop waiting = true
may_stop done = false
may_stop abort = false

-- The handle is not NULL and the mutex is taken.
unfoldable pub loc_timer_stop : Timer → Timer
loc_timer_stop t = elim (may_stop t.state) [
  | true ↦ record t { state = abort; signals = t.signals + 1 }
  | false ↦ t
]

-- The same loop as a whole, from `i` on: `busy` tells which call of `pthread_mutex_destroy` returns EBUSY, and the fuel
-- bounds the passes.
unfoldable pub destroy_loop : ℕ → (ℕ → Bool) → ℕ → Destroyed
destroy_loop zero busy i = record { calls = 0; sleeps = 0; unlocks = 0 }
destroy_loop (suc f) busy i =
    let rest = destroy_loop f busy (suc i) in
    if busy i
    then if leb i 5 then again i rest else record { calls = 1; sleeps = 0; unlocks = 0 }
    else record { calls = 1; sleeps = 0; unlocks = 0 }

-- What the platform answers to the calls of `loc_timer_start`
pub record StartResources : Type 0 where
  pub calloc : Bool
  pub cond_init : Bool
  pub mutex_init : Bool
  pub attr_init : Bool
  pub create : Bool

-- The handle that is returned, `none` for NULL, whether its memory has been freed, and whether its thread
-- has been created
pub record Started : Type 0 where
  pub handle : Option Timer
  pub freed : Bool
  pub running : Bool

abbrev pub new_timer : Timer
new_timer = record {
  state = ready;
  at = entering;
  callbacks = 0;
  signals = 0;
  destroyed = record { calls = 0; sleeps = 0; unlocks = 0 };
}

unfoldable pub loc_timer_start : ℕ → Bool → StartResources → Started
loc_timer_start msec cb_func r =
    if not cb_func || msec == 0
    then record { handle = none; freed = false; running = false }
    else if not r.calloc
    then record { handle = none; freed = false; running = false }
    else if not r.cond_init
    then record { handle = some new_timer; freed = true; running = false }
    else if not r.mutex_init
    then record { handle = some new_timer; freed = true; running = false }
    else if not r.attr_init
    then record { handle = some new_timer; freed = true; running = false }
    else if not r.create
    then record { handle = some new_timer; freed = true; running = false }
    else record { handle = some new_timer; freed = false; running = true }
