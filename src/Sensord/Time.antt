-- ===== src/Sensord/Time.antt =====
-- src/lib/util_time.c: the ticks of the daemon, in milliseconds since its start, and its sleeps.
pub mod Ticks
use vibe_xperia.Prelude.{
  ℕ, zero, suc, ◌+◌, ◌-◌, ◌*◌, ◌/◌, ◌%◌, ◌^◌, Bool, true, false, ◌&&◌, ◌||◌, List, [], ◌∷◌, Option,
  none, some, ltb, leb, ◌==◌, if◌then◌else◌,
}

-- `struct timeval`; the clock does not stand before 1970.
pub record Timeval : Type 0 where
  pub tv_sec : ℕ
  pub tv_usec : ℕ

-- the test for a clock that has been set back
abbrev pub before : Timeval → Timeval → Bool
before now start =
    ltb now.tv_usec start.tv_usec && (now.tv_sec == start.tv_sec) || ltb now.tv_sec start.tv_sec

-- `now - start` in milliseconds as an unsigned int, with C's division, which rounds to 0; `now` is not
-- before `start`.
unfoldable pub ticks_since : Timeval → Timeval → ℕ
ticks_since start now =
    let sec = (now.tv_sec - start.tv_sec) * 1000 in
    if leb start.tv_usec now.tv_usec
    then (sec + (now.tv_usec - start.tv_usec) / 1000) % 2 ^ 32
    else (sec + 2 ^ 32 - (start.tv_usec - now.tv_usec) / 1000) % 2 ^ 32

-- The tick, and `g_start_time` after it.
unfoldable pub get_time_tick : Timeval → Timeval → ℕ × Timeval
get_time_tick g_start_time now =
    let start = if before now g_start_time then now else g_start_time in
    (ticks_since start now, start)

-- The seconds that `eusleep` sleeps, and the nanoseconds that it passes to `adv_nsleep_short`, if it calls
-- it; `us` is a uint32_t.
unfoldable pub eusleep : ℕ → ℕ × Option ℕ
eusleep us =
    let tmp = (us - 1000000) / 1000000 + 1 in
    let rest = us - tmp * 1000000 in
    if leb 1000000 us
    then if rest == 0 then (tmp, none) else (tmp, some (rest * 1000 % 2 ^ 32))
    else (0, some (us * 1000 % 2 ^ 32))

-- What `nanosleep` answers: 0, EINTR with the time that is left, or another error.
pub data Slept : Type 0 where
  slept : Slept
  interrupted : ℕ → Slept
  not_slept : Slept

-- The times asked for by `adv_nsleep_short`, for the answers as they come; `none` if it still sleeps.
unfoldable pub adv_nsleep_short : ℕ → Bool → List Slept → Option (List ℕ)
adv_nsleep_short ns restart [] = none
adv_nsleep_short ns restart (slept ∷ rs) = some (ns ∷ [])
adv_nsleep_short ns restart (not_slept ∷ rs) = some (ns ∷ [])
adv_nsleep_short ns restart (interrupted left ∷ rs) =
    let rest = adv_nsleep_short left restart rs in
    if restart then elim rest [ none ↦ none | some asked ↦ some (ns ∷ asked) ] else some (ns ∷ [])
