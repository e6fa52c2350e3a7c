-- ===== src/Sensord/Fusion/Rates/Bounds.antt =====
-- The clamps, and the rate that the arbitration chooses.
use vibe_xperia.Prelude.{
  ℕ, ◌≤◌, ◌≡◌, refl, true, List, [], ◌∷◌, ◌⊎◌, inl, arith, ltb, ◌&&◌, if◌then◌else◌,
}
use vibe_xperia.Sensord.Fusion.State.{AlgoProduct}
use vibe_xperia.Sensord.Fusion.Rates.{regulate_dr, arbitrate}

pub record InLimits (ap : AlgoProduct) : Type 0 where
  pub acc_lo : ap.dr_acc_min ≤ ap.dr_a
  pub acc_hi : ap.dr_a ≤ ap.dr_acc_max
  pub mag_lo : ap.dr_mag_min ≤ ap.dr_m
  pub mag_hi : ap.dr_m ≤ ap.dr_mag_max
  pub gyro_lo : ap.dr_gyro_min ≤ ap.dr_g
  pub gyro_hi : ap.dr_g ≤ ap.dr_gyro_max

-- For a product whose limits are in order `ALGO_PRODUCT_REGULATE_DR` brings the three rates into
-- them.
pub regulate_dr-InLimits :
    (ap : AlgoProduct)
    → ap.dr_acc_min ≤ ap.dr_acc_max
    → ap.dr_mag_min ≤ ap.dr_mag_max
    → ap.dr_gyro_min ≤ ap.dr_gyro_max
    → InLimits (regulate_dr ap)
unfolding regulate_dr
regulate_dr-InLimits ap ha hm hg = ground arith

-- The rate is at least that of each enabled product.
abbrev pub Covers : (AlgoProduct → ℕ) → List AlgoProduct → ℕ → Type 0
Covers rate [] dr = Unit {0}
Covers rate (ap ∷ rest) dr = (ap.enable ≡ true → rate ap ≤ dr) × Covers rate rest dr

-- Some enabled product asks for exactly the rate.
abbrev pub Asked : (AlgoProduct → ℕ) → List AlgoProduct → ℕ → Type 0
Asked rate [] dr = ⊥
Asked rate (ap ∷ rest) dr = ((ap.enable ≡ true) × (rate ap ≡ dr)) ⊎ Asked rate rest dr

arbitrate_lower :
    (rate : AlgoProduct → ℕ) (ps : List AlgoProduct) (dr : ℕ) → dr ≤ arbitrate rate ps dr
unfolding arbitrate
arbitrate_lower rate [] dr = omega arith
arbitrate_lower rate (ap ∷ rest) dr =
    ground
      (arith, arbitrate_lower rate rest (if ap.enable && ltb dr (rate ap) then rate ap else dr))

arbitrate-Covers :
    (rate : AlgoProduct → ℕ) (ps : List AlgoProduct) (dr : ℕ)
    → Covers rate ps (arbitrate rate ps dr)
unfolding arbitrate
arbitrate-Covers rate [] dr = tt
arbitrate-Covers rate (ap ∷ rest) dr =
    let next = if ap.enable && ltb dr (rate ap) then rate ap else dr in
    (λ on. ground (arith, arbitrate_lower rate rest next), arbitrate-Covers rate rest next)

arbitrate-Asked :
    (rate : AlgoProduct → ℕ) (ps : List AlgoProduct) (dr : ℕ)
    → (arbitrate rate ps dr ≡ dr) ⊎ Asked rate ps (arbitrate rate ps dr)
unfolding arbitrate
arbitrate-Asked rate [] dr = inl refl
arbitrate-Asked rate (ap ∷ rest) dr =
    ground
      (arith, arbitrate-Asked rate rest (if ap.enable && ltb dr (rate ap) then rate ap else dr))

-- `fusion_arbitrate_dr` chooses the least rate that serves every enabled product: it is at
-- least the rate of each of them, and it is 0 or the rate of one of them.
pub arbitrate_lem :
    (rate : AlgoProduct → ℕ) (ps : List AlgoProduct)
    → Covers rate ps (arbitrate rate ps 0)
      × ((arbitrate rate ps 0 ≡ 0) ⊎ Asked rate ps (arbitrate rate ps 0))
arbitrate_lem rate ps = (arbitrate-Covers rate ps 0, arbitrate-Asked rate ps 0)
