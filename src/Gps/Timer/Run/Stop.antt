-- ===== src/Gps/Timer/Run/Stop.antt =====
-- What a stop of a timer prevents.
use vibe_xperia.Prelude.{
  ℕ, suc, ◌+◌, ◌&&◌, leb, if◌then◌else◌, Bool, Option, ◌≡◌, refl, true, false, some, arith, inl,
  inr, ap, sym, subst, ◌∙◌, if_else,
}
use vibe_xperia.Gps.Timer.{
  ready, waiting, done, abort, TimerState, WaitResult, Answer, Destroyed, ThreadAt, entering,
  sleeping, woken, leaving, destroying, gone, Timer, is_timeout, again, step_at, timer_thread,
  loc_timer_stop, new_timer,
}
use vibe_xperia.Gps.Timer.Run.{
  Steps, here, thread, stop, Inv, Agrees, reports, timer, Steps-reports, loc_timer_stop-at,
}

-- The thread will not call back: it has not waited and has been stopped, or its wait did not time out, or
-- the report lies behind it.
abbrev pub Quiet : TimerState → ThreadAt → Type 0
Quiet s entering = s ≡ abort
Quiet s sleeping = ⊥
Quiet s (woken q) = is_timeout (some q) ≡ false
Quiet s (leaving q) = is_timeout q ≡ false
Quiet s (destroying q i) = Unit {0}
Quiet s (gone q) = Unit {0}

destroy-Quiet :
    (more : Bool) (s : TimerState) (w : Option WaitResult) (i c g : ℕ) (d : Destroyed)
    → (let u =
          if more
          then timer s (destroying w (suc i)) c g (again i d)
          else timer s (gone w) c g (record d { calls = suc d.calls }) in
        Quiet u.state u.at × (u.callbacks ≡ c))
destroy-Quiet true s w i c g d = (tt, refl)
destroy-Quiet false s w i c g d = (tt, refl)

step_at-Quiet :
    (s : TimerState) (at : ThreadAt) (c g : ℕ) (d : Destroyed) (r : Answer)
    → Quiet s at
    → (let u = step_at (timer s at c g d) r at in Quiet u.state u.at × (u.callbacks ≡ c))
step_at-Quiet abort entering c g d r q = (refl, refl)
step_at-Quiet ready entering c g d r q = cc
step_at-Quiet waiting entering c g d r q = cc
step_at-Quiet done entering c g d r q = cc
step_at-Quiet s sleeping c g d r q = absurd q
step_at-Quiet s (woken w) c g d r q = (q, refl)
step_at-Quiet s (leaving w) c g d r q = (tt, if_else (is_timeout w) (c + 1) c q)
step_at-Quiet s (destroying w i) c g d r q = destroy-Quiet (r.busy && leb i 5) s w i c g d
step_at-Quiet s (gone w) c g d r q = (tt, refl)

Quiet-abort : (s : TimerState) (at : ThreadAt) → Quiet s at → Quiet abort at
Quiet-abort s entering q = refl
Quiet-abort s sleeping q = q
Quiet-abort s (woken w) q = q
Quiet-abort s (leaving w) q = q
Quiet-abort s (destroying w i) q = tt
Quiet-abort s (gone w) q = tt

loc_timer_stop-Quiet :
    (s : TimerState) (at : ThreadAt) (c g : ℕ) (d : Destroyed)
    → Quiet s at
    → (let u = loc_timer_stop (timer s at c g d) in Quiet u.state at × (u.callbacks ≡ c))
unfolding loc_timer_stop
loc_timer_stop-Quiet done at c g d q = (q, refl)
loc_timer_stop-Quiet abort at c g d q = (q, refl)
loc_timer_stop-Quiet ready at c g d q = (Quiet-abort ready at q, refl)
loc_timer_stop-Quiet waiting at c g d q = (Quiet-abort waiting at q, refl)

Steps-Quiet :
    {n : ℕ} {t u : Timer}
    → Steps n t u
    → Quiet t.state t.at
    → Quiet u.state u.at × (u.callbacks ≡ t.callbacks)
unfolding timer_thread
Steps-Quiet (here t) q = (q, refl)
Steps-Quiet (thread {u = u} r run up) q =
    let (w, e) = Steps-Quiet run q in
    let (w', e') = step_at-Quiet u.state u.at u.callbacks u.signals u.destroyed r w in (w', e' ∙ e)
Steps-Quiet (stop {u = u} run up) q =
    let (w, e) = Steps-Quiet run q in
    let (w', e') = loc_timer_stop-Quiet u.state u.at u.callbacks u.signals u.destroyed w in
    (subst (Quiet (loc_timer_stop u).state) (sym (loc_timer_stop-at u)) w', e' ∙ e)

loc_timer_stop-abort :
    (s : TimerState) (at : ThreadAt) (c g : ℕ) (d : Destroyed)
    → Agrees s entering
    → (loc_timer_stop (timer s at c g d)).state ≡ abort
unfolding loc_timer_stop
loc_timer_stop-abort ready at c g d a = refl
loc_timer_stop-abort abort at c g d a = refl
loc_timer_stop-abort waiting at c g d (inl a) = cc
loc_timer_stop-abort waiting at c g d (inr a) = cc
loc_timer_stop-abort done at c g d (inl a) = cc
loc_timer_stop-abort done at c g d (inr a) = cc

loc_timer_stop-callbacks : (t : Timer) → (loc_timer_stop t).callbacks ≡ t.callbacks
unfolding loc_timer_stop
loc_timer_stop-callbacks t = ground arith

stopped_entering :
    (t : Timer)
    → t.at ≡ entering
    → Inv t
    → Quiet (loc_timer_stop t).state (loc_timer_stop t).at × ((loc_timer_stop t).callbacks ≡ 0)
stopped_entering t e v = (
  subst (Quiet (loc_timer_stop t).state) (sym (loc_timer_stop-at t ∙ e)) (
      loc_timer_stop-abort t.state t.at t.callbacks t.signals t.destroyed
        (subst (Agrees t.state) e v.agrees)),
  loc_timer_stop-callbacks t ∙ v.called ∙ ap reports e,
)

-- After a stop that comes before the thread of a new timer waits, the thread does not call back, in any run
-- that follows.
pub stopped_before_wait :
    {m n : ℕ} {t u : Timer}
    → Steps m new_timer t
    → t.at ≡ entering
    → Steps n (loc_timer_stop t) u
    → u.callbacks ≡ 0
stopped_before_wait {t = t} before e run =
    let v = Steps-reports before (record { agrees = inl refl; called = refl }) in
    let (q, c) = stopped_entering t e v in (Steps-Quiet run q).1 ∙ c
