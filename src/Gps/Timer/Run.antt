-- ===== src/Gps/Timer/Run.antt =====
-- The runs of a timer's thread with the stops of its callers.
pub mod Stop
use vibe_xperia.Prelude.{
  ℕ, zero, suc, ◌+◌, ◌-◌, ◌≤◌, ◌≡◌, refl, ◌&&◌, leb, Bool, true, false, List, [], ◌∷◌, Option, none,
  some, arith, length, b2n, ◌⊎◌, inl, inr, ap, sym, subst, ◌∙◌, Bool-cases, if◌then◌else◌,
}
use vibe_xperia.Gps.Timer.{
  ready, waiting, done, abort, TimerState, WaitResult, signalled, timed_out, wait_failed, Answer,
  Destroyed, ThreadAt, entering, sleeping, woken, leaving, destroying, gone, Timer, is_timeout,
  enter, step_at, timer_thread, again, destroy, may_stop, loc_timer_stop, new_timer,
}

abbrev pub running : ThreadAt → Bool
running (gone q) = false
running _ = true

-- `Steps n t u`: the thread takes `n` steps from `t` to `u`, and between them callers that still hold the
-- handle stop the timer.
pub data Steps : ℕ → Timer → Timer → Type 0 where
  here : (t : Timer) → Steps 0 t t
  thread :
      {n : ℕ} {t u : Timer} (r : Answer)
      → Steps n t u
      → running u.at ≡ true
      → Steps (suc n) t (timer_thread u r)
  stop : {n : ℕ} {t u : Timer} → Steps n t u → running u.at ≡ true → Steps n t (loc_timer_stop u)

-- the states that go with where the thread is
abbrev pub Agrees : TimerState → ThreadAt → Type 0
Agrees s entering = (s ≡ ready) ⊎ (s ≡ abort)
Agrees s sleeping = (s ≡ waiting) ⊎ (s ≡ abort)
Agrees s (woken q) = (s ≡ waiting) ⊎ (s ≡ abort)
Agrees s (leaving none) = s ≡ abort
Agrees s (destroying none i) = s ≡ abort
Agrees s (gone none) = s ≡ abort
Agrees s (leaving (some q)) = s ≡ done
Agrees s (destroying (some q) i) = s ≡ done
Agrees s (gone (some q)) = s ≡ done

-- how often the thread has called back
abbrev pub reports : ThreadAt → ℕ
reports (destroying q i) = b2n (is_timeout q)
reports (gone q) = b2n (is_timeout q)
reports _ = 0

pub record Inv (t : Timer) : Type 0 where
  pub agrees : Agrees t.state t.at
  pub called : t.callbacks ≡ reports t.at

abbrev pub timer : TimerState → ThreadAt → ℕ → ℕ → Destroyed → Timer
timer s at c g d = record { state = s; at = at; callbacks = c; signals = g; destroyed = d }

destroy-Inv :
    (more : Bool) (s : TimerState) (q : Option WaitResult) (i c g : ℕ) (d : Destroyed)
    → Agrees s (destroying q i)
    → c ≡ reports (destroying q i)
    → Inv (
        if more
        then timer s (destroying q (suc i)) c g (again i d)
        else timer s (gone q) c g (record d { calls = suc d.calls }))
destroy-Inv true s none i c g d a e = record { agrees = a; called = e }
destroy-Inv true s (some q) i c g d a e = record { agrees = a; called = e }
destroy-Inv false s none i c g d a e = record { agrees = a; called = e }
destroy-Inv false s (some q) i c g d a e = record { agrees = a; called = e }

step_at-Inv :
    (s : TimerState) (at : ThreadAt) (c g : ℕ) (d : Destroyed) (r : Answer)
    → Agrees s at
    → c ≡ reports at
    → Inv (step_at (timer s at c g d) r at)
step_at-Inv ready entering c g d r a e = record { agrees = inl refl; called = e }
step_at-Inv waiting entering c g d r (inl a) e = cc
step_at-Inv waiting entering c g d r (inr a) e = cc
step_at-Inv done entering c g d r (inl a) e = cc
step_at-Inv done entering c g d r (inr a) e = cc
step_at-Inv abort entering c g d r a e = record { agrees = refl; called = e }
step_at-Inv s sleeping c g d r a e = record { agrees = a; called = e }
step_at-Inv s (woken q) c g d r a e = record { agrees = refl; called = e }
step_at-Inv s (leaving none) c g d r a e = record { agrees = a; called = e }
step_at-Inv s (leaving (some signalled)) c g d r a e = record { agrees = a; called = e }
step_at-Inv s (leaving (some timed_out)) c g d r a e = record { agrees = a; called = rw e refl }
step_at-Inv s (leaving (some wait_failed)) c g d r a e = record { agrees = a; called = e }
step_at-Inv s (destroying q i) c g d r a e = destroy-Inv (r.busy && leb i 5) s q i c g d a e
step_at-Inv s (gone q) c g d r a e = record { agrees = a; called = e }

aborted : (s : TimerState) (at : ThreadAt) → may_stop s ≡ true → Agrees s at → Agrees abort at
aborted s entering m a = inr refl
aborted s sleeping m a = inr refl
aborted s (woken q) m a = inr refl
aborted s (leaving none) m a = refl
aborted s (destroying none i) m a = refl
aborted s (gone none) m a = refl
aborted s (leaving (some q)) m a = cc (ap may_stop a)
aborted s (destroying (some q) i) m a = cc (ap may_stop a)
aborted s (gone (some q)) m a = cc (ap may_stop a)

loc_timer_stop-Inv :
    (s : TimerState) (at : ThreadAt) (c g : ℕ) (d : Destroyed)
    → Inv (timer s at c g d)
    → Inv (loc_timer_stop (timer s at c g d))
unfolding loc_timer_stop
loc_timer_stop-Inv done at c g d v = v
loc_timer_stop-Inv abort at c g d v = v
loc_timer_stop-Inv ready at c g d v = record {
  agrees = aborted ready at refl v.agrees;
  called = v.called;
}
loc_timer_stop-Inv waiting at c g d v = record {
  agrees = aborted waiting at refl v.agrees;
  called = v.called;
}

-- Every run, stops included, keeps the invariant, which a new timer has: the thread has called back once if
-- it is past its report and its wait timed out, and otherwise never; the timer's state goes with where the
-- thread is.
pub Steps-reports : {n : ℕ} {t u : Timer} → Steps n t u → Inv t → Inv u
unfolding timer_thread
Steps-reports (here t) v = v
Steps-reports (thread {u = u} r run up) v =
    let w = Steps-reports run v in
    step_at-Inv u.state u.at u.callbacks u.signals u.destroyed r w.agrees w.called
Steps-reports (stop {u = u} run up) v =
    loc_timer_stop-Inv u.state u.at u.callbacks u.signals u.destroyed (Steps-reports run v)

-- the thread's steps that are left at most
abbrev pub steps_left : ThreadAt → ℕ
steps_left entering = 11
steps_left sleeping = 10
steps_left (woken q) = 9
steps_left (leaving q) = 8
steps_left (destroying q i) = suc (6 - i)
steps_left (gone q) = 0

destroy-left :
    (busy : Bool) (s : TimerState) (q : Option WaitResult) (i c g : ℕ) (d : Destroyed)
    → suc (steps_left (destroy (timer s (destroying q i) c g d) q i busy).at) ≤ suc (6 - i)
destroy-left false s q i c g d = omega arith
destroy-left true s q i c g d = elim (Bool-cases (leb i 5)) [
  | inl more ↦ rw more (ground (arith, more))
  | inr last ↦ rw last (omega arith)
]

step_at-left :
    (s : TimerState) (at : ThreadAt) (c g : ℕ) (d : Destroyed) (r : Answer)
    → running at ≡ true
    → suc (steps_left (step_at (timer s at c g d) r at).at) ≤ steps_left at
step_at-left ready entering c g d r up = omega arith
step_at-left waiting entering c g d r up = omega arith
step_at-left done entering c g d r up = omega arith
step_at-left abort entering c g d r up = omega arith
step_at-left s sleeping c g d r up = omega arith
step_at-left s (woken q) c g d r up = omega arith
step_at-left s (leaving q) c g d r up = omega arith
step_at-left s (destroying q i) c g d r up = destroy-left r.busy s q i c g d
step_at-left s (gone q) c g d r up = cc

pub loc_timer_stop-at : (t : Timer) → (loc_timer_stop t).at ≡ t.at
unfolding loc_timer_stop
loc_timer_stop-at t = ground arith

Steps-left : {n : ℕ} {t u : Timer} → Steps n t u → n + steps_left u.at ≤ steps_left t.at
unfolding timer_thread
Steps-left (here t) = omega arith
Steps-left (thread {u = u} r run up) =
    omega (arith, Steps-left run, step_at-left u.state u.at u.callbacks u.signals u.destroyed r up)
Steps-left (stop {u = u} run up) = rw (loc_timer_stop-at u) (Steps-left run)

gone_of_none_left : (at : ThreadAt) → steps_left at ≡ 0 → running at ≡ false
gone_of_none_left (gone q) e = refl
gone_of_none_left entering e = absurd (omega arith)
gone_of_none_left sleeping e = absurd (omega arith)
gone_of_none_left (woken q) e = absurd (omega arith)
gone_of_none_left (leaving q) e = absurd (omega arith)
gone_of_none_left (destroying q i) e = absurd (omega arith)

abbrev pub run_thread : List Answer → Timer → Timer
run_thread [] t = t
run_thread (r ∷ rs) t = run_thread rs (timer_thread t r)

left_of_gone : (at : ThreadAt) → running at ≡ false → steps_left at ≡ 0
left_of_gone entering e = cc
left_of_gone sleeping e = cc
left_of_gone (woken q) e = cc
left_of_gone (leaving q) e = cc
left_of_gone (destroying q i) e = cc
left_of_gone (gone q) e = refl

steps_left-le : (at : ThreadAt) → steps_left at ≤ 11
steps_left-le entering = omega arith
steps_left-le sleeping = omega arith
steps_left-le (woken q) = omega arith
steps_left-le (leaving q) = omega arith
steps_left-le (destroying q i) = omega arith
steps_left-le (gone q) = omega arith

stays_gone : (at : ThreadAt) (t : Timer) (r : Answer) → running at ≡ false → step_at t r at ≡ t
stays_gone entering t r e = cc
stays_gone sleeping t r e = cc
stays_gone (woken q) t r e = cc
stays_gone (leaving q) t r e = cc
stays_gone (destroying q i) t r e = cc
stays_gone (gone q) t r e = refl

timer_thread-left :
    (t : Timer) (r : Answer) (k : ℕ)
    → steps_left t.at ≤ suc k
    → steps_left (timer_thread t r).at ≤ k
unfolding timer_thread
timer_thread-left t r k h = elim (Bool-cases (running t.at)) [
  | inl up ↦ omega (arith, step_at-left t.state t.at t.callbacks t.signals t.destroyed r up)
  | inr down ↦
      omega (arith, ap (λ u. steps_left u.at) (stays_gone t.at t r down), left_of_gone t.at down)
]

run_thread-gone :
    (rs : List Answer) (t : Timer)
    → steps_left t.at ≤ length rs
    → running (run_thread rs t).at ≡ false
run_thread-gone [] t h = gone_of_none_left t.at (omega arith)
run_thread-gone (r ∷ rs) t h =
    run_thread-gone rs (timer_thread t r) (timer_thread-left t r (length rs) h)

-- The thread ends: whatever its wait returns and however often it finds its mutex busy, eleven of its steps
-- bring it to its end, and in no run of a new timer, stops included, does it take more. A wait that has
-- returned is one step.
pub timer_thread_ends :
    {n : ℕ} {u : Timer} (t : Timer) (rs : List Answer)
    → 11 ≤ length rs
    → Steps n new_timer u
    → (running (run_thread rs t).at ≡ false) × (n ≤ 11)
timer_thread_ends t rs h run =
    (run_thread-gone rs t (omega (arith, steps_left-le t.at)), omega (arith, Steps-left run))
