-- ===== src/Gps/Timer/Start.antt =====
-- The deadline, the start of a timer and the end of its mutex.
use vibe_xperia.Prelude.{
  ℕ, zero, suc, ◌+◌, ◌*◌, ◌<◌, ◌≤◌, ◌≡◌, refl, Bool, true, false, none, some, arith, inl, inr,
  Bool-cases, ap, subst, ◌∙◌, ◌⊎◌, ◌&&◌, if◌then◌else◌, ◌==◌, not,
}
use vibe_xperia.Gps.Timer.{
  deadline, Destroyed, destroy_loop, again, StartResources, new_timer, loc_timer_start,
}

-- For a time of the clock that is normal, the deadline is normal and lies exactly the delay later.
pub deadline_lem :
    (sec nsec msec : ℕ)
    → nsec < 1000000000
    → (let r = deadline (record { tv_sec = sec; tv_nsec = nsec }) msec in
        (r.tv_nsec < 1000000000)
        × (r.tv_sec * 1000000000 + r.tv_nsec ≡ sec * 1000000000 + nsec + msec * 1000000))
unfolding deadline
deadline_lem sec nsec msec h = ground arith

abbrev pub given : StartResources → Bool
given r = r.cond_init && r.mutex_init && r.attr_init && r.create

-- A timer's thread runs exactly if the caller's parameters are right and the platform gives all that is
-- asked of it. A handle that is not NULL is returned whenever there was memory for it, and when the thread
-- does not run that memory has been freed.
pub loc_timer_start_lem :
    (msec : ℕ) (cb_func calloc cond mutex attr create : Bool)
    → (let r : StartResources = record {
      calloc = calloc;
      cond_init = cond;
      mutex_init = mutex;
      attr_init = attr;
      create = create;
    } in
        let asked = cb_func && not (msec == 0) && calloc in
        let s = loc_timer_start msec cb_func r in
        (s.running ≡ asked && given r)
        × (s.handle ≡ (if asked then some new_timer else none))
        × (s.freed ≡ asked && not (given r)))
unfolding loc_timer_start
loc_timer_start_lem msec cb_func calloc cond mutex attr create = ground arith

abbrev outcome : ℕ → ℕ → ℕ → Destroyed
outcome calls sleeps unlocks = record { calls = calls; sleeps = sleeps; unlocks = unlocks }

loop_free :
    (f i : ℕ) (busy : ℕ → Bool) → busy i ≡ false → destroy_loop (suc f) busy i ≡ outcome 1 0 0
unfolding destroy_loop
loop_free f i busy e = ground arith

loop_busy :
    (f i : ℕ) (busy : ℕ → Bool)
    → busy i ≡ true
    → i ≤ 5
    → destroy_loop (suc f) busy i ≡ again i (destroy_loop f busy (suc i))
unfolding destroy_loop
loop_busy f i busy e h = ground arith

again_sleep :
    (i : ℕ) (d : Destroyed) → i < 5 → again i d ≡ outcome (suc d.calls) (suc d.sleeps) d.unlocks
again_sleep i d h = ground arith

if_same : (b : Bool) (d : Destroyed) → (if b then d else d) ≡ d
if_same true d = refl
if_same false d = refl

last_call : (f : ℕ) (busy : ℕ → Bool) → destroy_loop (suc f) busy 6 ≡ outcome 1 0 0
unfolding destroy_loop
last_call f busy = if_same (busy 6) (outcome 1 0 0)

-- What the loop does from `i` on, `m` tries before the last: some try finds the mutex free, after a sleep
-- for each one before, or all find it busy and it is unlocked.
abbrev pub LoopCases : ℕ → ℕ → (ℕ → Bool) → Destroyed → Type 0
LoopCases m i busy d =
    ((k : ℕ) × (k ≤ m)
      × ((j : ℕ) → j < k → busy (i + j) ≡ true)
      × (busy (i + k) ≡ false)
      × (d ≡ record { calls = suc k; sleeps = k; unlocks = 0 }))
    ⊎ (((j : ℕ) → j ≤ m → busy (i + j) ≡ true)
        × (d ≡ record { calls = suc (suc m); sleeps = m; unlocks = 1 }))

from_next :
    (i k : ℕ) (busy : ℕ → Bool)
    → busy i ≡ true
    → ((j : ℕ) → j < k → busy (suc i + j) ≡ true)
    → (j : ℕ) → j < suc k
    → busy (i + j) ≡ true
from_next i k busy hit before zero h = ap busy (omega arith) ∙ hit
from_next i k busy hit before (suc j) h = ap busy (omega arith) ∙ before j (omega arith)

free_now :
    (m i f : ℕ) (busy : ℕ → Bool)
    → busy i ≡ false
    → LoopCases m i busy (destroy_loop (suc f) busy i)
free_now m i f busy e =
    inl (
      0,
      omega arith,
      λ j lt. absurd (omega arith),
      ap busy (omega arith) ∙ e,
      loop_free f i busy e,
    )

busy_now :
    (m i f : ℕ) (busy : ℕ → Bool)
    → busy i ≡ true
    → i < 5
    → LoopCases m (suc i) busy (destroy_loop f busy (suc i))
    → LoopCases (suc m) i busy (destroy_loop (suc f) busy i)
busy_now m i f busy e h (inl (k, le, before, at, d)) = inl (
  suc k,
  omega arith,
  from_next i k busy e before,
  ap busy (omega arith) ∙ at,
  loop_busy f i busy e (omega arith) ∙ ap (again i) d ∙ again_sleep i _ h,
)
busy_now m i f busy e h (inr (all, d)) = inr (
  λ j le. from_next i (suc m) busy e (λ j' lt. all j' (omega arith)) j (omega arith),
  loop_busy f i busy e (omega arith) ∙ ap (again i) d ∙ again_sleep i _ h,
)

busy_last :
    (f : ℕ) (busy : ℕ → Bool)
    → busy 5 ≡ true
    → LoopCases 0 5 busy (destroy_loop (suc (suc f)) busy 5)
busy_last f busy e = inr (
  λ j le. ap busy (omega arith) ∙ e,
  loop_busy (suc f) 5 busy e (omega arith) ∙ ap (again 5) (last_call f busy),
)

loop_cases :
    (m i fuel : ℕ) (busy : ℕ → Bool)
    → i + m ≡ 5
    → suc m < fuel
    → LoopCases m i busy (destroy_loop fuel busy i)
loop_cases m i zero busy e h = absurd (omega arith)
loop_cases zero i (suc zero) busy e h = absurd (omega arith)
loop_cases zero i (suc (suc f)) busy e h = elim (Bool-cases (busy i)) [
  | inr miss ↦ free_now 0 i (suc f) busy miss
  | inl hit ↦
      let five : 5 ≡ i = omega arith in
      subst (λ i. busy i ≡ true → LoopCases 0 i busy (destroy_loop (suc (suc f)) busy i)) five
        (busy_last f busy) hit
]
loop_cases (suc m) i (suc f) busy e h = elim (Bool-cases (busy i)) [
  | inr miss ↦ free_now (suc m) i f busy miss
  | inl hit ↦
      busy_now m i f busy hit (omega arith)
        (loop_cases m (suc i) f busy (omega arith) (omega arith))
]

-- The mutex is destroyed at the first of six calls that does not find it busy, with a sleep of a second
-- after each one before; if all six find it busy, it is unlocked, after five sleeps, and a seventh call is
-- the last.
pub destroy_loop_lem :
    (fuel : ℕ) (busy : ℕ → Bool) → 7 ≤ fuel → LoopCases 5 0 busy (destroy_loop fuel busy 0)
destroy_loop_lem fuel busy h = loop_cases 5 0 fuel busy refl (omega arith)
