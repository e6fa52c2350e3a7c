-- ===== src/Sensord/Time/Ticks.antt =====
-- The ticks are exact to a millisecond and do not run backwards; the sleeps last as long as asked.
use vibe_xperia.Prelude.{ℕ, ◌+◌, ◌-◌, ◌*◌, ◌^◌, ◌<◌, ◌≤◌, ◌≡◌, Option, none, some, arith}
use vibe_xperia.Sensord.Time.{Timeval, ticks_since, get_time_tick, eusleep}

-- microseconds
abbrev pub us : Timeval → ℕ
us t = t.tv_sec * 1000000 + t.tv_usec

-- For a clock that has not been set back and is less than 2147483 s after the start, the tick is the time
-- since the start, to less than a millisecond, and the start stays.
pub get_time_tick-near :
    (ss su ns nu : ℕ)
    → su < 1000000
    → nu < 1000000
    → ss * 1000000 + su ≤ ns * 1000000 + nu
    → ns < ss + 2147483
    → (let start : Timeval = record { tv_sec = ss; tv_usec = su } in
        let now : Timeval = record { tv_sec = ns; tv_usec = nu } in
        let t = (get_time_tick start now).0 in
        (t * 1000 < us now - us start + 1000)
        × (us now - us start < t * 1000 + 1000)
        × ((get_time_tick start now).1 ≡ start))
unfolding get_time_tick ticks_since
get_time_tick-near ss su ns nu h k le far = ground arith

abbrev pub nanoseconds : Option ℕ → ℕ
nanoseconds none = 0
nanoseconds (some n) = n

-- The two sleeps together last as long as asked for, and the second is below a second.
pub eusleep_lem :
    (t : ℕ)
    → t < 2 ^ 32
    → (let r = eusleep t in
        (r.0 * 1000000000 + nanoseconds r.1 ≡ t * 1000) × (nanoseconds r.1 < 1000000000))
unfolding eusleep
eusleep_lem t h = ground arith

-- Nor do the ticks run backwards: of two such times the later one has no smaller tick.
pub get_time_tick_mono :
    (ss su ms mu bs bu : ℕ)
    → su < 1000000
    → mu < 1000000
    → bu < 1000000
    → ss * 1000000 + su ≤ ms * 1000000 + mu
    → ms * 1000000 + mu ≤ bs * 1000000 + bu
    → bs < ss + 2147483
    → (let start : Timeval = record { tv_sec = ss; tv_usec = su } in
        (get_time_tick start (record { tv_sec = ms; tv_usec = mu })).0
        ≤ (get_time_tick start (record { tv_sec = bs; tv_usec = bu })).0)
unfolding get_time_tick ticks_since
get_time_tick_mono ss su ms mu bs bu h k l p q far = ground arith
