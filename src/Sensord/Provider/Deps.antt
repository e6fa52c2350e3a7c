-- ===== src/Sensord/Provider/Deps.antt =====
-- The chips follow the dependency of the provider.
use vibe_xperia.Prelude.{
  ℕ, suc, ◌≤◌, ◌<◌, ◌≡◌, ◌≢◌, refl, sym, subst, ◌∙◌, Bool, true, false, not, List, [], ◌∷◌, Option,
  none, some, inl, inr, arith, if◌then◌else◌, Bool-cases, Option-cases, ℤ, is_err, b2n, length,
}
use vibe_xperia.Sensord.Hw.{
  SensorHw, Driver, HwList, hw_get_hw_by_id, call_restore, power_up, power_down, ref_up, ref_down,
  hw_ref_up, hw_ref_down,
}
use vibe_xperia.Sensord.Hw.RefCount.{IsPowered, ref_up-IsPowered, ref_down-IsPowered}
use vibe_xperia.Sensord.Hw.Table.{hw_ref_up-OneChip, hw_ref_down-OneChip}
use vibe_xperia.Sensord.Hw.Lookup.{hw_ref_up-get, hw_ref_down-get}
use vibe_xperia.Sensord.Provider.{xor, call_ref, check_bits}

-- Every chip has an `enable` callback, and the callbacks report success.
pub record Working {Dev : Type 0} (driver : Driver Dev) : Type 0 where
  pub on : ℕ → Bool → Dev → ℤ × Dev
  pub enable : (typ : ℕ) → driver.enable typ ≡ some (on typ)
  pub success : (typ : ℕ) (b : Bool) (dev : Dev) → is_err (on typ b dev).0 ≡ false
  pub restored :
      (typ : ℕ) (dev : Dev) → is_err (call_restore driver (driver.restore_cfg typ) dev).0 ≡ false

-- The chip that answers for a bit has one holder while the bit is set, and runs then.
abbrev pub HeldBy : Option (ℕ × SensorHw) → Bool → Type 0
HeldBy none b = Unit {0}
HeldBy (some (_, hw)) b = IsPowered hw × (hw.ref ≡ b2n b)

-- the same of all bits from the bit `i` on
abbrev pub AllHeld : {Dev : Type 0} → HwList Dev → ℕ → List Bool → Type 0
AllHeld s i [] = Unit {0}
AllHeld s i (b ∷ bs) = HeldBy (hw_get_hw_by_id s.list i) b × AllHeld s (suc i) bs

-- A bit is the one wanted, where a chip answers for it, and otherwise the old one.
abbrev pub AllSet : {Dev : Type 0} → HwList Dev → ℕ → List Bool → List Bool → List Bool → Type 0
AllSet s i (c ∷ cs) (n ∷ ns) (o ∷ os) =
    (o ≡ elim (hw_get_hw_by_id s.list i) [ none ↦ c | some _ ↦ n ]) × AllSet s (suc i) cs ns os
AllSet s i [] [] [] = Unit {0}
AllSet s i _ _ _ = ⊥

AllHeld-frame :
    {Dev : Type 0} (s s' : HwList Dev) (i : ℕ) (bs : List Bool)
    → ((id : ℕ) → i ≤ id → hw_get_hw_by_id s'.list id ≡ hw_get_hw_by_id s.list id)
    → AllHeld s i bs
    → AllHeld s' i bs
AllHeld-frame s s' i [] same h = tt
AllHeld-frame s s' i (b ∷ bs) same h = (
  rw (same i (omega arith)) h.0,
  AllHeld-frame s s' (suc i) bs (λ id le. same id (omega arith)) h.1,
)

AllSet-frame :
    {Dev : Type 0} (s s' : HwList Dev) (i : ℕ) (cs ns os : List Bool)
    → ((id : ℕ) → i ≤ id → hw_get_hw_by_id s'.list id ≡ hw_get_hw_by_id s.list id)
    → AllSet s' i cs ns os
    → AllSet s i cs ns os
AllSet-frame s s' i [] [] [] same h = tt
AllSet-frame s s' i (c ∷ cs) (n ∷ ns) (o ∷ os) same h = (
  rw⁻¹ (same i (omega arith)) h.0,
  AllSet-frame s s' (suc i) cs ns os (λ id le. same id (omega arith)) h.1,
)
AllSet-frame s s' i [] [] (o ∷ os) same h = h
AllSet-frame s s' i [] (n ∷ ns) os same h = h
AllSet-frame s s' i (c ∷ cs) [] os same h = h
AllSet-frame s s' i (c ∷ cs) (n ∷ ns) [] same h = h

module _ {Dev : Type 0} (driver : Driver Dev) where
  call_ref_frame :
      (s : HwList Dev) (i id : ℕ) (n : Bool)
      → i ≢ id
      → hw_get_hw_by_id (call_ref driver s i n).1.list id ≡ hw_get_hw_by_id s.list id
  call_ref_frame s i id true ne = elim (Option-cases (hw_get_hw_by_id s.list i)) [
    | inl e ↦ rw ((hw_ref_up-OneChip driver s i).missing e) refl
    | inr ((j, hw), e) ↦ ground (arith, hw_ref_up-get driver s i id j hw e)
  ]
  call_ref_frame s i id false ne = elim (Option-cases (hw_get_hw_by_id s.list i)) [
    | inl e ↦ rw ((hw_ref_down-OneChip driver s i).missing e) refl
    | inr ((j, hw), e) ↦ ground (arith, hw_ref_down-get driver s i id j hw e)
  ]

  check_bits_frame :
      (s : HwList Dev) (i id : ℕ) (cs ns : List Bool) (err : ℤ)
      → id < i
      → hw_get_hw_by_id (check_bits driver s i cs ns err).1.list id ≡ hw_get_hw_by_id s.list id
  unfolding check_bits
  check_bits_frame s i id [] ns err h = refl
  check_bits_frame s i id (c ∷ cs) [] err h = refl
  check_bits_frame s i id (c ∷ cs) (n ∷ ns) err h = elim (Bool-cases (xor n c)) [
    | inl e ↦ rw e (
        check_bits_frame (call_ref driver s i n).1 (suc i) id cs ns _ (omega arith)
        ∙ call_ref_frame s i id n (omega arith))
    | inr e ↦ rw e (check_bits_frame s (suc i) id cs ns err (omega arith))
  ]

module _ {Dev : Type 0} (driver : Driver Dev) (working : Working driver) where
  ref_up_works :
      (hw : SensorHw) (dev : Dev)
      → IsPowered hw
      → hw.ref ≡ 0
      → (is_err (ref_up driver hw dev).0 ≡ false)
        × IsPowered (ref_up driver hw dev).1
        × ((ref_up driver hw dev).1.ref ≡ 1)
  unfolding ref_up power_up
  ref_up_works hw dev v z = (
    ground (
      arith,
      working.enable hw.typ,
      working.success hw.typ true dev,
      working.restored hw.typ (working.on hw.typ true dev).1,
    ),
    (ref_up-IsPowered driver (working.on hw.typ) hw dev (working.enable hw.typ)
        (working.success hw.typ true dev) (omega (arith, z)) v).0,
    ground (
      arith,
      ref_up-IsPowered driver (working.on hw.typ) hw dev (working.enable hw.typ)
          (working.success hw.typ true dev) (omega (arith, z)) v,
    ),
  )

  ref_down_works :
      (hw : SensorHw) (dev : Dev)
      → IsPowered hw
      → hw.ref ≡ 1
      → (is_err (ref_down driver hw dev).0 ≡ false)
        × IsPowered (ref_down driver hw dev).1
        × ((ref_down driver hw dev).1.ref ≡ 0)
  unfolding ref_down power_down
  ref_down_works hw dev v z = (
    ground (arith, working.enable hw.typ, working.success hw.typ false dev),
    (ref_down-IsPowered driver (working.on hw.typ) hw dev (working.enable hw.typ)
        (working.success hw.typ false dev) v).0,
    ground (
      arith,
      ref_down-IsPowered driver (working.on hw.typ) hw dev (working.enable hw.typ)
          (working.success hw.typ false dev) v,
    ),
  )

  call_ref_works :
      (s : HwList Dev) (i : ℕ) (c n : Bool)
      → xor n c ≡ true
      → HeldBy (hw_get_hw_by_id s.list i) c
      → let (e, s1) = call_ref driver s i n in
        let out = if is_err e then not n else n in
        HeldBy (hw_get_hw_by_id s1.list i) out
        × (out ≡ elim (hw_get_hw_by_id s.list i) [ none ↦ c | some _ ↦ n ])
  call_ref_works s i true true x h = cc
  call_ref_works s i false false x h = cc
  call_ref_works s i false true x h = elim (Option-cases (hw_get_hw_by_id s.list i)) [
    | inl e ↦ rw ((hw_ref_up-OneChip driver s i).missing e, e) (tt, refl)
    | inr ((j, hw), e) ↦ called j hw e (rw e at h)
  ]
    where
      called :
          (j : ℕ) (hw : SensorHw)
          → hw_get_hw_by_id s.list i ≡ some (j, hw)
          → IsPowered hw × (hw.ref ≡ 0)
          → let (e, s1) = hw_ref_up driver s i in
            let out = if is_err e then false else true in
            HeldBy (hw_get_hw_by_id s1.list i) out
            × (out ≡ elim (hw_get_hw_by_id s.list i) [ none ↦ false | some _ ↦ true ])
      called j hw e v =
          let (ok, powered, one) = ref_up_works hw s.dev v.0 v.1 in
          let now : hw_get_hw_by_id (hw_ref_up driver s i).1.list i
              ≡ some (j, (ref_up driver hw s.dev).1) =
            hw_ref_up-get driver s i i j hw e ∙ ground arith in
          rw (now, ((hw_ref_up-OneChip driver s i).found j hw e).0, e, ok) ((powered, one), refl)
  call_ref_works s i true false x h = elim (Option-cases (hw_get_hw_by_id s.list i)) [
    | inl e ↦ rw ((hw_ref_down-OneChip driver s i).missing e, e) (tt, refl)
    | inr ((j, hw), e) ↦ called j hw e (rw e at h)
  ]
    where
      called :
          (j : ℕ) (hw : SensorHw)
          → hw_get_hw_by_id s.list i ≡ some (j, hw)
          → IsPowered hw × (hw.ref ≡ 1)
          → let (e, s1) = hw_ref_down driver s i in
            let out = if is_err e then true else false in
            HeldBy (hw_get_hw_by_id s1.list i) out
            × (out ≡ elim (hw_get_hw_by_id s.list i) [ none ↦ true | some _ ↦ false ])
      called j hw e v =
          let (ok, powered, zeroed) = ref_down_works hw s.dev v.0 v.1 in
          let now : hw_get_hw_by_id (hw_ref_down driver s i).1.list i
              ≡ some (j, (ref_down driver hw s.dev).1) =
            hw_ref_down-get driver s i i j hw e ∙ ground arith in
          rw (now, ((hw_ref_down-OneChip driver s i).found j hw e).0, e, ok)
            ((powered, zeroed), refl)

  -- With working chips the check of the dependency leaves each chip that answers for a bit held once
  -- while the bit is wanted and not at all otherwise; the bit of a chip that is missing stays.
  pub check_bits-AllHeld :
      (s : HwList Dev) (i : ℕ) (cs ns : List Bool) (err : ℤ)
      → length cs ≡ length ns
      → AllHeld s i cs
      → let (bits, s', _) = check_bits driver s i cs ns err in
        AllHeld s' i bits × AllSet s i cs ns bits
  unfolding check_bits
  check_bits-AllHeld s i [] [] err len h = (tt, tt)
  check_bits-AllHeld s i [] (n ∷ ns) err len h = ground arith
  check_bits-AllHeld s i (c ∷ cs) [] err len h = ground arith
  check_bits-AllHeld s i (c ∷ cs) (n ∷ ns) err len h = elim (Bool-cases (xor n c)) [
    | inl x ↦ rw x (changed x (λ s1 e. check_bits-AllHeld s1 (suc i) cs ns e (omega arith)))
    | inr x ↦ rw x (same x (check_bits-AllHeld s (suc i) cs ns err (omega arith) h.1))
  ]
    where
      Rest : HwList Dev → ℤ → Type 0
      Rest s1 e =
          let (bits, s', _) = check_bits driver s1 (suc i) cs ns e in
          AllHeld s' (suc i) bits × AllSet s1 (suc i) cs ns bits

      changed :
          xor n c ≡ true
          → ((s1 : HwList Dev) (e : ℤ) → AllHeld s1 (suc i) cs → Rest s1 e)
          → let (e, s1) = call_ref driver s i n in
            let (bits, s', _) = check_bits driver s1 (suc i) cs ns e in
            AllHeld s' i ((if is_err e then not n else n) ∷ bits)
            × AllSet s i (c ∷ cs) (n ∷ ns) ((if is_err e then not n else n) ∷ bits)
      changed x rest =
          let (e, s1) = call_ref driver s i n in
          let (now, out) = call_ref_works s i c n x h.0 in
          let frame : (id : ℕ)
              → suc i ≤ id
              → hw_get_hw_by_id s1.list id ≡ hw_get_hw_by_id s.list id =
            λ id le. call_ref_frame driver s i id n (omega arith) in
          let (held, sets) = rest s1 e (AllHeld-frame s s1 (suc i) cs frame h.1) in
          (
            (rw (check_bits_frame driver s1 (suc i) i cs ns e (omega arith)) now, held),
            (out, AllSet-frame s s1 (suc i) cs ns _ frame sets),
          )

      same :
          xor n c ≡ false
          → Rest s err
          → let (bits, s', _) = check_bits driver s (suc i) cs ns err in
            AllHeld s' i (n ∷ bits) × AllSet s i (c ∷ cs) (n ∷ ns) (n ∷ bits)
      same x (held, sets) =
          let eq : n ≡ c = ground arith in
          (
            (
              rw (check_bits_frame driver s (suc i) i cs ns err (omega arith))
                  (subst (λ b. HeldBy (hw_get_hw_by_id s.list i) b) (sym eq) h.0),
              held,
            ),
            (ground (arith, eq), sets),
          )
