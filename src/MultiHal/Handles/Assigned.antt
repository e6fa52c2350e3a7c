-- ===== src/MultiHal/Handles/Assigned.antt =====
-- The two maps of sensors/multihal.cpp agree.
use vibe_xperia.Prelude.{ℕ, ◌<◌, true, false, some, ℤ, pos, negsuc, ◌≡◌, arith, ltb_ℤ}
use vibe_xperia.MultiHal.Handles.{
  FullHandle, full_lt, same_key, Handles, no_handles, assign_global_handle,
}

same_local : (a b : ℤ) → ltb_ℤ a b ≡ false → ltb_ℤ b a ≡ false → a ≡ b
same_local (pos a) (pos b) p q = ground arith
same_local (pos a) (negsuc b) p q = ground arith
same_local (negsuc a) (pos b) p q = ground arith
same_local (negsuc a) (negsuc b) p q = ground arith

pub same_key-eq : (a b : FullHandle) → same_key a b ≡ true → a ≡ b
unfolding same_key full_lt
same_key-eq a b h = ground (arith, same_local a.local_handle b.local_handle)

pub same_key_refl : (a : FullHandle) → same_key a a ≡ true
unfolding same_key full_lt
same_key_refl a = ground arith

-- Every global handle in the maps was given out, and both maps know it.
pub record Agree (h : Handles) : Type 0 where
  pub given_out : (g : ℕ) (f : FullHandle) → h.global_to_full g ≡ some f → g < h.next_global_handle
  pub back : (f : FullHandle) (g : ℕ) → h.full_to_global f ≡ some g → h.global_to_full g ≡ some f

pub no_handles-Agree : Agree no_handles
no_handles-Agree = record { given_out = λ g f e. cc; back = λ f g e. cc }

pub assign_global_handle-Agree :
    (full : FullHandle) (h : Handles) → Agree h → Agree (assign_global_handle full h).1
unfolding assign_global_handle
assign_global_handle-Agree full h a = record {
  given_out = λ g f e. ground (arith, a.given_out g f);
  back = λ f g e. ground (arith, a.back f g, a.given_out g f, same_key-eq full f);
}
