-- ===== src/MultiHal/Queue/Wrap.antt =====
-- Positions of sensors/SensorEventQueue.cpp that go around the array's end.
use native.Mathlib.Nat.{mod-eq_of_lt, mod-eq-sub-mod, mod-add-mod, zero-add, add-zero}
use vibe_xperia.Prelude.{
  ℕ, zero, suc, ◌+◌, ◌-◌, ◌%◌, ◌<◌, List, ◌∷◌, ◌++◌, ◌≡◌, ◌≢◌, refl, ap, arith, ltb, if◌then◌else◌,
  ◌∙◌, length, sym,
}
use vibe_xperia.MultiHal.Queue.{store, span}

pub wrap : (c x : ℕ) → x < c + c → x % c ≡ (if ltb x c then x else x - c)
wrap c x h = ground (
  arith,
  mod-eq_of_lt {n = x} {m = c},
  mod-eq-sub-mod {n = x} {m = c},
  mod-eq_of_lt {n = x - c} {m = c},
)

pub wrap_add : (c x k : ℕ) → x % c + k < c → (x + k) % c ≡ x % c + k
wrap_add c x k h = sym (mod-add-mod x c k) ∙ mod-eq_of_lt h

add_one : (s n : ℕ) → s + 1 + n ≡ s + suc n
add_one s n = omega arith

suc_add : (n k : ℕ) → suc n + k ≡ suc (n + k)
suc_add n k = omega arith

module _ {A : Type 0} where
  pub span_wrap : (c : ℕ) (m : ℕ → A) (s n : ℕ) → span c m (s % c) n ≡ span c m s n
  unfolding span
  span_wrap c m s zero = refl
  span_wrap c m s (suc n) = ground (
    arith,
    mod-add-mod s c 0,
    mod-add-mod s c 1,
    span_wrap c m (s % c + 1) n,
    span_wrap c m (s + 1) n,
  )

  pub span_add :
      (c : ℕ) (m : ℕ → A) (s n k : ℕ) → span c m s (n + k) ≡ span c m s n ++ span c m (s + n) k
  unfolding span
  span_add c m s zero k = rw (zero-add, add-zero) refl
  span_add c m s (suc n) k =
      ap (λ (t : ℕ). span c m s t) (suc_add n k)
      ∙ ap (λ (t : List A). m (s % c) ∷ t) (span_add c m (s + 1) n k)
      ∙ ap (λ (t : ℕ). m (s % c) ∷ span c m (s + 1) n ++ span c m t k) (add_one s n)

  pub length-span : (c : ℕ) (m : ℕ → A) (s n : ℕ) → length (span c m s n) ≡ n
  unfolding span
  length-span c m s zero = refl
  length-span c m s (suc n) = ap suc (length-span c m (s + 1) n)

  pub span-store :
      (c : ℕ) (m : ℕ → A) (s n p : ℕ) (v : A)
      → ((i : ℕ) → i < n → (s + i) % c ≢ p)
      → span c (store p v m) s n ≡ span c m s n
  unfolding span
  span-store c m s zero p v h = refl
  span-store c m s (suc n) p v h = ground (
    arith,
    h 0 (omega arith),
    span-store c m (s + 1) n p v
        (λ i l e. h (suc i) (omega arith) (ap (λ (t : ℕ). t % c) (sym (add_one s i)) ∙ e)),
  )
