-- ===== src/Sensord/Fusion/Rates/Interval.antt =====
-- The interval that a channel gets, the data rate that serves it, and the interval of the thread.
use Prim.Native.Nat.{◌∣◌}
use native.Mathlib.Nat.{
  dvd_refl, dvd_trans, mod-eq-zero_of_dvd, le_of_dvd, add-zero, pos_of_dvd_of_pos,
}
use vibe_xperia.Prelude.{
  ℕ, zero, suc, ◌-◌, ◌/◌, ◌%◌, ◌≤◌, ◌<◌, ◌^◌, ◌≡◌, refl, Bool, true, false, ◌&&◌, inl, inr, arith,
  ltb, leb, ◌==◌, if◌then◌else◌, Bool-cases, ℤ, pos, abs,
}
use vibe_xperia.Sensord.UtilMisc.{get_max_comm_div}
use vibe_xperia.Sensord.UtilMisc.Arith.{
  get_max_comm_div-IsGcd, IsNearest, get_nearest_divisible_int-IsNearest,
}
use vibe_xperia.Sensord.Fusion.State.{Fusion, AlgoProduct, mod_acc, mod_mag}
use vibe_xperia.Sensord.Fusion.Deps.{algo_mod_is_enabled}
use vibe_xperia.Sensord.Fusion.Rates.{
  intvl, algo_hz2data_rate, algo_on_interval_changed, algo_get_hint_interval,
}

-- The rate `dr` samples at least as often as every `r` ms, or is the fastest of the table, and
-- the next slower rate of the table would be too slow.
pub record Serves (r dr : ℕ) : Type 0 where
  pub in_table : dr < 8
  pub often : 5 ≤ r → intvl dr ≤ r
  pub fastest : r < 5 → dr ≡ 7
  pub slowest : 0 < dr → r < intvl (dr - 1)

-- the test holds for the intervals below `k`
passes : (ℕ → Bool) → ℕ → Bool
passes test zero = true
passes test (suc k) = if test k then passes test k else false

passes_at : (test : ℕ → Bool) (k r : ℕ) → r < k → passes test k ≡ true → test r ≡ true
unfolding passes
passes_at test zero r lt h = absurd (omega arith)
passes_at test (suc k) r lt h = ground (arith, passes_at test k r)

rate_ok : ℕ → Bool
rate_ok r =
    let dr = algo_hz2data_rate (1000 / r) in
    if r == 0
    then true
    else if 1000 % r == 0
    then ltb dr 8
      && (if leb 5 r then leb (intvl dr) r else dr == 7)
      && (if ltb 0 dr then ltb r (intvl (dr - 1)) else true)
    else true

rate_ok_table : passes rate_ok 1001 ≡ true
unfolding passes rate_ok algo_hz2data_rate
rate_ok_table = refl

rate_ok-Serves :
    (r dr : ℕ)
    → (ltb dr 8
        && (if leb 5 r then leb (intvl dr) r else dr == 7)
        && (if ltb 0 dr then ltb r (intvl (dr - 1)) else true))
      ≡ true
    → Serves r dr
rate_ok-Serves r dr h = record {
  in_table = ground arith;
  often = λ p. ground arith;
  fastest = λ p. ground arith;
  slowest = λ p. ground arith;
}

rate_ok_lem :
    (r : ℕ)
    → (r == 0) ≡ false
    → (1000 % r == 0) ≡ true
    → rate_ok r ≡ true
    → Serves r (algo_hz2data_rate (1000 / r))
unfolding rate_ok
rate_ok_lem r nz z h = rate_ok-Serves r (algo_hz2data_rate (1000 / r)) (rw (nz, z) at h)

rate-Serves : (r : ℕ) → 0 < r → r ∣ 1000 → Serves r (algo_hz2data_rate (1000 / r))
rate-Serves r p d =
    rate_ok_lem r (ground arith) (ground (arith, mod-eq-zero_of_dvd r d))
      (passes_at rate_ok 1001 r (omega (arith, le_of_dvd {m = r} (omega arith) d)) rate_ok_table)

-- For a positive request the channel gets the greatest divisor of 1000 ms that is at most the
-- request, and the data rate computed from it serves that interval.
pub algo_on_interval_changed-Serves :
    (f : Fusion) (ap : AlgoProduct) (v : ℕ)
    → 0 < v
    → v < 2 ^ 31
    → (r : ℕ) × ((algo_on_interval_changed f ap (pos v)).0 ≡ pos r)
      × IsNearest 1000 v r
      × Serves r (algo_hz2data_rate (1000 / r))
unfolding algo_on_interval_changed
algo_on_interval_changed-Serves f ap v p h =
    let (r, e, near) = get_nearest_divisible_int-IsNearest 1000 v (omega arith) (omega arith) p h in
    (r, rw nz (rw e refl), near, rate-Serves r near.positive near.divides)
  where
    nz : (v == 0) ≡ false
    nz = ground arith

-- what the interval of the thread has to divide
abbrev pub Wanted : Fusion → ℕ → Type 0
Wanted f d =
    (d ∣ 1000)
    × (algo_mod_is_enabled f mod_acc ≡ true → d ∣ intvl f.g_dr_a)
    × (algo_mod_is_enabled f mod_mag ≡ true → d ∣ intvl f.g_dr_m)

-- The greatest such number.
pub record IsHint (f : Fusion) (h : ℕ) : Type 0 where
  pub positive : 0 < h
  pub wanted : Wanted f h
  pub greatest : (d : ℕ) → Wanted f d → d ∣ h

abbrev hint_acc : Fusion → ℤ
hint_acc f =
    if algo_mod_is_enabled f mod_acc
    then get_max_comm_div (pos 1000) (pos (intvl f.g_dr_a))
    else pos 1000

hint_acc_lem :
    (f : Fusion)
    → (abs (hint_acc f) ∣ 1000)
      × (algo_mod_is_enabled f mod_acc ≡ true → abs (hint_acc f) ∣ intvl f.g_dr_a)
      × ((d : ℕ)
          → d ∣ 1000
          → (algo_mod_is_enabled f mod_acc ≡ true → d ∣ intvl f.g_dr_a)
          → d ∣ abs (hint_acc f))
hint_acc_lem f = elim (Bool-cases (algo_mod_is_enabled f mod_acc)) [
  | inl on ↦
      let g = get_max_comm_div-IsGcd (pos 1000) (pos (intvl f.g_dr_a)) in
      rw on (g.left, λ _. rw add-zero at g.right, λ d p q. g.greatest d p (rw add-zero (q refl)))
  | inr off ↦ rw off (dvd_refl 1000, λ e. cc, λ d p _. p)
]

-- `algo_get_hint_interval` is positive, and it is the greatest number of milliseconds that divides
-- 1000 and the sampling intervals of the modules that are switched on among ACC and MAG: each
-- sample of theirs falls on a round of the thread.
pub algo_get_hint_interval-Wanted : (f : Fusion) → IsHint f (abs (algo_get_hint_interval f))
unfolding algo_get_hint_interval
algo_get_hint_interval-Wanted f = elim (Bool-cases (algo_mod_is_enabled f mod_mag)) [
  | inl on ↦
      let g = get_max_comm_div-IsGcd (hint_acc f) (pos (intvl f.g_dr_m)) in
      let whole =
        dvd_trans (abs (get_max_comm_div (hint_acc f) (pos (intvl f.g_dr_m)))) g.left a.0 in
      rw on (record {
        positive = pos_of_dvd_of_pos whole (omega arith);
        wanted = (whole, λ e. dvd_trans _ g.left (a.1 e), λ _. rw add-zero at g.right);
        greatest = λ d w. g.greatest d (a.2 d w.0 w.1) (rw add-zero (w.2 on));
      })
  | inr off ↦ rw off (record {
    positive = pos_of_dvd_of_pos a.0 (omega arith);
    wanted = (a.0, a.1, λ e. cc);
    greatest = λ d w. a.2 d w.0 w.1;
  })
]
  where
    a :
        (abs (hint_acc f) ∣ 1000)
        × (algo_mod_is_enabled f mod_acc ≡ true → abs (hint_acc f) ∣ intvl f.g_dr_a)
        × ((d : ℕ)
            → d ∣ 1000
            → (algo_mod_is_enabled f mod_acc ≡ true → d ∣ intvl f.g_dr_a)
            → d ∣ abs (hint_acc f))
    a = hint_acc_lem f
