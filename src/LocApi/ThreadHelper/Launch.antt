-- ===== src/LocApi/ThreadHelper/Launch.antt =====
-- The launch of the thread, and its end.
use vibe_xperia.Prelude.{
  ℕ, suc, ◌+◌, ◌-◌, ◌≤◌, ◌≡◌, refl, sym, subst, Bool, true, false, List, [], ◌∷◌, Option, none,
  some, ℤ, pos, negsuc, arith, length,
}
use vibe_xperia.LocApi.ThreadHelper.{
  Call, call_init, call_pre, call_proc, call_post, MainAt, at_init, at_fail, at_ready, at_pre,
  at_proc, at_check, at_post, ended, Thelper, is_ok, main_at, thelper_main,
  loc_eng_dmn_conn_unblock_thelper,
}

abbrev pub created : Option ℤ → Bool
created create = is_ok (elim create [ none ↦ pos 0 | some e ↦ e ])

-- the steps that are left at most once the exit is set
abbrev pub steps_left : MainAt → ℕ
steps_left at_init = 6
steps_left at_ready = 5
steps_left at_pre = 4
steps_left at_proc = 3
steps_left at_check = 2
steps_left at_post = 1
steps_left at_fail = 1
steps_left (ended e) = 0

abbrev pub is_ended : MainAt → Bool
is_ended (ended e) = true
is_ended _ = false

-- how often the task has been called
abbrev pub tasks : List Call → ℕ
tasks [] = 0
tasks (call_proc ∷ cs) = suc (tasks cs)
tasks (call_init ∷ cs) = tasks cs
tasks (call_pre ∷ cs) = tasks cs
tasks (call_post ∷ cs) = tasks cs

-- whether the task may be called once more
abbrev tasks_left : MainAt → ℕ
tasks_left at_init = 1
tasks_left at_ready = 1
tasks_left at_pre = 1
tasks_left at_proc = 1
tasks_left at_check = 0
tasks_left at_post = 0
tasks_left at_fail = 0
tasks_left (ended e) = 0

-- What a step with the exit set uses up
record Wound (t u : Thelper) : Type 0 where
  steps : steps_left u.at ≤ steps_left t.at - 1
  called : tasks u.calls + tasks_left u.at ≤ tasks t.calls + tasks_left t.at

abbrev exiting : Bool → Bool → Bool → Bool → Bool → Bool → Bool → MainAt → List Call → Thelper
exiting hi hp hr ho y c m at cs = record {
  procs = record { has_init = hi; has_pre = hp; has_proc = hr; has_post = ho };
  thread_exit = true;
  thread_ready = y;
  cond = c;
  mutex = m;
  at = at;
  calls = cs;
}

main_at-Wound :
    (hi hp hr ho y c m : Bool) (at : MainAt) (cs : List Call) (r : ℤ)
    → (let t = exiting hi hp hr ho y c m at cs in Wound t (main_at t r at))
main_at-Wound true hp hr ho y c m at_init cs (pos k) = omega arith
main_at-Wound true hp hr ho y c m at_init cs (negsuc k) = omega arith
main_at-Wound false hp hr ho y c m at_init cs r = omega arith
main_at-Wound hi hp hr ho y c m at_fail cs r = omega arith
main_at-Wound hi hp hr ho y c m at_ready cs r = omega arith
main_at-Wound hi false hr ho y c m at_pre cs r = omega arith
main_at-Wound hi true hr ho y c m at_pre cs (pos k) = omega arith
main_at-Wound hi true hr ho y c m at_pre cs (negsuc k) = omega arith
main_at-Wound hi hp false ho y c m at_proc cs r = omega arith
main_at-Wound hi hp true ho y c m at_proc cs (pos k) = omega arith
main_at-Wound hi hp true ho y c m at_proc cs (negsuc k) = omega arith
main_at-Wound hi hp hr ho y c m at_check cs r = omega arith
main_at-Wound hi hp hr true y c m at_post cs r = omega arith
main_at-Wound hi hp hr false y c m at_post cs r = omega arith
main_at-Wound hi hp hr ho y c m (ended e) cs r = omega arith

abbrev pub run_main : List ℤ → Thelper → Thelper
run_main [] t = t
run_main (r ∷ rs) t = run_main rs (thelper_main t r)

thelper_main-Wound : (t : Thelper) (r : ℤ) → t.thread_exit ≡ true → Wound t (thelper_main t r)
unfolding thelper_main
thelper_main-Wound t r e =
    subst
      (λ x. Wound (record t { thread_exit = x }) (main_at (record t { thread_exit = x }) r t.at))
      (sym e)
      (main_at-Wound t.procs.has_init t.procs.has_pre t.procs.has_proc t.procs.has_post
        t.thread_ready t.cond t.mutex t.at t.calls r)

exit_kept : (t : Thelper) (r : ℤ) → t.thread_exit ≡ true → (thelper_main t r).thread_exit ≡ true
unfolding thelper_main
exit_kept t r e = ground arith

left-le : (at : MainAt) → (steps_left at ≤ 6) × (tasks_left at ≤ 1)
left-le at_init = omega arith
left-le at_fail = omega arith
left-le at_ready = omega arith
left-le at_pre = omega arith
left-le at_proc = omega arith
left-le at_check = omega arith
left-le at_post = omega arith
left-le (ended e) = omega arith

is_ended_of_none : (at : MainAt) → steps_left at ≡ 0 → is_ended at ≡ true
is_ended_of_none (ended q) e = refl
is_ended_of_none at_init e = absurd (omega arith)
is_ended_of_none at_fail e = absurd (omega arith)
is_ended_of_none at_ready e = absurd (omega arith)
is_ended_of_none at_pre e = absurd (omega arith)
is_ended_of_none at_proc e = absurd (omega arith)
is_ended_of_none at_check e = absurd (omega arith)
is_ended_of_none at_post e = absurd (omega arith)

run_main-ended :
    (rs : List ℤ) (t : Thelper)
    → t.thread_exit ≡ true
    → steps_left t.at ≤ length rs
    → (is_ended (run_main rs t).at ≡ true)
      × (tasks (run_main rs t).calls ≤ tasks t.calls + tasks_left t.at)
run_main-ended [] t e h = (is_ended_of_none t.at (omega arith), omega arith)
run_main-ended (r ∷ rs) t e h =
    let w = thelper_main-Wound t r e in
    let (over, few) =
      run_main-ended rs (thelper_main t r) (exit_kept t r e) (omega (arith, w.steps)) in
    (over, omega (arith, w.called))

-- After an unblock the thread ends, whatever its procedures answer: in six steps at most, and with at most
-- one more call of its task.
pub unblock_ends :
    (rs : List ℤ) (t : Thelper)
    → 6 ≤ length rs
    → (let u = run_main rs (loc_eng_dmn_conn_unblock_thelper t) in
        (is_ended u.at ≡ true) × (tasks u.calls ≤ suc (tasks t.calls)))
unfolding loc_eng_dmn_conn_unblock_thelper
unblock_ends rs t h =
    let (over, few) =
      run_main-ended rs (loc_eng_dmn_conn_unblock_thelper t) refl
        (omega (arith, (left-le t.at).0)) in
    (over, omega (arith, (left-le t.at).1))
