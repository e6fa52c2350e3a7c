-- ===== src/Sensord/UtilMisc/Arith.antt =====
-- The integer helpers: greatest common divisors, nearest divisors, set bits.
use Prim.Native.Nat.{◌∣◌}
use native.Mathlib.Nat.{
  dvd_refl, add-zero, one-dvd, dvd-zero, dvd-mod_iff, dvd_of_mod-eq-zero, mod-eq-zero_of_dvd,
  le_of_dvd,
}
use vibe_xperia.Prelude.{
  ℕ, zero, suc, ◌+◌, ◌%◌, ◌^◌, ◌≤◌, ◌<◌, ◌≡◌, true, false, ℕ_discrete, inl, inr, arith, ltb, leb,
  ◌==◌, ==_iff, if◌then◌else◌, Bool-cases, ℤ, pos, abs,
}
use vibe_xperia.Sensord.UtilMisc.{euclid, get_max_comm_div, find_div, get_nearest_divisible_int}

pub record IsGcd (g a b : ℕ) : Type 0 where
  pub left : g ∣ a
  pub right : g ∣ b
  pub greatest : (d : ℕ) → d ∣ a → d ∣ b → d ∣ g

IsGcd-comm : {g a b : ℕ} → IsGcd g a b → IsGcd g b a
IsGcd-comm h = record { left = h.right; right = h.left; greatest = λ d p q. h.greatest d q p }

euclid-IsGcd : (f a b : ℕ) → 0 < b → b < f → IsGcd (euclid f a b) a b
unfolding euclid
euclid-IsGcd zero a b p h = absurd (omega arith)
euclid-IsGcd (suc f) a b p h = elim (Bool-cases (a % b == 0)) [
  | inl e ↦ rw e (record {
    left = dvd_of_mod-eq-zero b ((==_iff (a % b) 0).0 e);
    right = dvd_refl b;
    greatest = λ d _ q. q;
  })
  | inr e ↦ rw e (step (euclid-IsGcd f b (a % b) (ground arith) (omega arith)))
]
  where
    step : {g : ℕ} → IsGcd g b (a % b) → IsGcd g a b
    step {g} v = record {
      left = (dvd-mod_iff g v.left).0 v.right;
      right = v.left;
      greatest = λ d s t. v.greatest d t ((dvd-mod_iff d t).1 s);
    }

abs-zero : (a : ℤ) → (abs a == 0) ≡ true → abs a ≡ 0
abs-zero a e = (==_iff (abs a) 0).0 e

-- `get_max_comm_div` returns, up to its sign, a greatest common divisor of its arguments, zero and
-- negative ones included.
pub get_max_comm_div-IsGcd : (a b : ℤ) → IsGcd (abs (get_max_comm_div a b)) (abs a) (abs b)
unfolding get_max_comm_div
get_max_comm_div-IsGcd a b = elim (Bool-cases (abs a == 0)) [
  | inl za ↦
      rw za (record {
        left = rw (abs-zero a za) (dvd-zero _);
        right = dvd_refl _;
        greatest = λ d _ q. q;
      })
  | inr na ↦ elim (Bool-cases (abs b == 0)) [
    | inl zb ↦
        rw (na, zb)
          (record {
            left = dvd_refl _;
            right = rw (abs-zero b zb) (dvd-zero _);
            greatest = λ d p _. p;
          })
    | inr nb ↦ elim (Bool-cases (ltb (abs a) (abs b))) [
      | inl lt ↦ rw (na, nb, lt) (IsGcd-comm (sized (abs b) (abs a) (ground arith)))
      | inr ge ↦ rw (na, nb, ge) (sized (abs a) (abs b) (ground arith))
    ]
  ]
]
  where
    sized : (x y : ℕ) → 0 < y → IsGcd (euclid (suc y) x y + 0) x y
    sized x y p = rw add-zero (euclid-IsGcd (suc y) x y p (omega arith))

-- `r` is the greatest divisor of `a` that is at most `b`.
pub record IsNearest (a b r : ℕ) : Type 0 where
  pub positive : 0 < r
  pub divides : r ∣ a
  pub below : r ≤ b
  pub nearest : (d : ℕ) → d ∣ a → d ≤ b → d ≤ r

find_div-IsNearest : (a b : ℕ) → 0 < b → IsNearest a b (find_div a b)
unfolding find_div
find_div-IsNearest a zero p = elim p [ ]
find_div-IsNearest a (suc zero) p = rw one (record {
  positive = omega arith;
  divides = one-dvd a;
  below = omega arith;
  nearest = λ d _ h. h;
})
  where
    one : ◌≡◌ {A = ℕ} (if a % 1 == 0 then 1 else 0) 1
    one = ground arith
find_div-IsNearest a (suc (suc r)) p = elim (Bool-cases (a % suc (suc r) == 0)) [
  | inl e ↦ rw e (record {
    positive = omega arith;
    divides = dvd_of_mod-eq-zero _ ((==_iff _ 0).0 e);
    below = omega arith;
    nearest = λ d _ h. h;
  })
  | inr e ↦ rw e (step e (find_div-IsNearest a (suc r) (omega arith)))
]
  where
    step :
        {g : ℕ}
        → (a % suc (suc r) == 0) ≡ false
        → IsNearest a (suc r) g
        → IsNearest a (suc (suc r)) g
    step {g} e v = record {
      positive = v.positive;
      divides = v.divides;
      below = omega (arith, v.below);
      nearest = λ d q h. elim (ℕ_discrete d (suc (suc r))) [
        | yes eq ↦ absurd (ground (arith, mod-eq-zero_of_dvd (suc (suc r)) (rw eq at q)))
        | no ne ↦ v.nearest d q (omega arith)
      ];
    }

-- For positive arguments in the range of `int32_t` the result of `get_nearest_divisible_int` is the
-- greatest divisor of `a` that is at most `b`.
pub get_nearest_divisible_int-IsNearest :
    (a b : ℕ)
    → 0 < a
    → a < 2 ^ 31
    → 0 < b
    → b < 2 ^ 31
    → (r : ℕ) × (get_nearest_divisible_int a b ≡ pos r) × IsNearest a b r
unfolding get_nearest_divisible_int
get_nearest_divisible_int-IsNearest a b pa ha pb hb = elim (Bool-cases (leb a b)) [
  | inl le ↦ (
    a,
    ground arith,
    record {
      positive = pa;
      divides = dvd_refl a;
      below = ground arith;
      nearest = λ d q _. le_of_dvd pa q;
    },
  )
  | inr gt ↦ (find_div a b, ground arith, find_div-IsNearest a b pb)
]
