-- ===== src/Gps/TimerTests.antt =====
-- Runs of a timer of gps/utils/loc_timer.c.
use vibe_xperia.Prelude.{◌≤◌, ◌≡◌, refl, true, false, List, [], ◌∷◌, some, arith, inl}
use vibe_xperia.Gps.Timer.{
  Answer, timed_out, wait_failed, Timer, new_timer, timer_thread, loc_timer_stop, StartResources,
  loc_timer_start,
}
use vibe_xperia.Gps.Timer.Run.{
  Steps, here, thread, stop, Inv, Steps-reports, running, run_thread, timer_thread_ends,
}
use vibe_xperia.Gps.Timer.Run.Stop.{stopped_before_wait}

new_timer-Inv : Inv new_timer
new_timer-Inv = record { agrees = inl refl; called = refl }

abbrev expired : Answer
expired = record { wait = timed_out; busy = false }

-- The wait times out, and a stop comes before the thread takes the mutex again.
abbrev late_stop : Timer
late_stop =
    timer_thread
      (timer_thread (loc_timer_stop (timer_thread (timer_thread new_timer expired) expired))
        expired)
      expired

late_stop-Steps : Steps 4 new_timer late_stop
unfolding timer_thread loc_timer_stop
late_stop-Steps =
    thread expired
      (thread expired (stop (thread expired (thread expired (here new_timer) refl) refl) refl) refl)
      refl

Steps-reports_example : Inv late_stop
Steps-reports_example = Steps-reports late_stop-Steps new_timer-Inv

-- The stop did not prevent the call.
late_callback : late_stop.callbacks ≡ 1
unfolding timer_thread loc_timer_stop
late_callback = refl

-- The mutex is busy at each call.
abbrev held : Answer
held = record { wait = wait_failed; busy = true }

abbrev answers : List Answer
answers = expired ∷ held ∷ held ∷ held ∷ held ∷ held ∷ held ∷ held ∷ held ∷ held ∷ held ∷ []

timer_thread_ends_example : (running (run_thread answers late_stop).at ≡ false) × (4 ≤ 11)
timer_thread_ends_example = timer_thread_ends late_stop answers (omega arith) late_stop-Steps

abbrev stopped_run : Timer
stopped_run = timer_thread (timer_thread (loc_timer_stop new_timer) expired) expired

stopped_run-Steps : Steps 2 (loc_timer_stop new_timer) stopped_run
unfolding timer_thread loc_timer_stop
stopped_run-Steps = thread expired (thread expired (here (loc_timer_stop new_timer)) refl) refl

stopped_before_wait_example : stopped_run.callbacks ≡ 0
stopped_before_wait_example = stopped_before_wait (here new_timer) refl stopped_run-Steps

abbrev no_thread : StartResources
no_thread = record {
  calloc = true;
  cond_init = true;
  mutex_init = true;
  attr_init = true;
  create = false;
}

-- The thread is not created, and a handle to memory that has been freed is returned.
dangling_handle :
    ((loc_timer_start 500 true no_thread).handle ≡ some new_timer)
    × ((loc_timer_start 500 true no_thread).freed ≡ true)
unfolding loc_timer_start
dangling_handle = (refl, refl)
