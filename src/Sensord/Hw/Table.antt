-- ===== src/Sensord/Hw/Table.antt =====
-- The table of chips: which entry a call selects, and what it leaves alone.
use vibe_xperia.Prelude.{
  ℕ, suc, ◌-◌, ◌≤◌, ◌≡◌, ◌≢◌, refl, ap, ◌∙◌, true, List, [], ◌∷◌, Option, none, some, inl, inr,
  arith, ◌==◌, ◌&&◌, Bool-cases, ℤ, pos, enodev, length, get_elem?, get_elem?-set_self,
  get_elem?-set_ne, lt_of_get_elem?,
}
use vibe_xperia.Sensord.Hw.{
  SensorHw, Driver, HwList, find_hw, hw_get_hw_by_id, ref_up, ref_down, put, hw_ref_up, hw_ref_down,
  init_hw, init_list, hw_cntl_init,
}

-- the chip at position `j` of a list that starts at position `i`
pub record Selected (list : List SensorHw) (id i j : ℕ) (hw : SensorHw) : Type 0 where
  pub from : i ≤ j
  pub at : get_elem? list (j - i) ≡ some hw
  pub right_type : hw.typ ≡ id
  pub right_state : hw.available ≡ true

get_elem?-cons :
    {A : Type 0} (x : A) (xs : List A) (i j : ℕ)
    → suc i ≤ j
    → get_elem? (x ∷ xs) (j - i) ≡ get_elem? xs (j - suc i)
get_elem?-cons x xs i j h = rw pred refl
  where
    pred : j - i ≡ suc (j - suc i)
    pred = omega arith

pub find_hw-Selected :
    (list : List SensorHw) (id i j : ℕ) (hw : SensorHw)
    → find_hw list id i ≡ some (j, hw)
    → Selected list id i j hw
unfolding find_hw
find_hw-Selected [] id i j hw e = cc
find_hw-Selected (h ∷ rest) id i j hw e = elim (Bool-cases (h.typ == id && h.available)) [
  | inl hit ↦ first hit (rw hit at e)
  | inr miss ↦ later (find_hw-Selected rest id (suc i) j hw (rw miss at e))
]
  where
    first :
        (h.typ == id && h.available) ≡ true
        → ◌≡◌ {A = Option (ℕ × SensorHw)} (some (i, h)) (some (j, hw))
        → Selected (h ∷ rest) id i j hw
    first hit e1 = record {
      from = ground arith;
      at = let zero_offset : j - i ≡ 0 = ground arith in rw zero_offset (ground arith);
      right_type = ground arith;
      right_state = ground arith;
    }

    later : Selected rest id (suc i) j hw → Selected (h ∷ rest) id i j hw
    later v = record {
      from = omega (arith, v.from);
      at = get_elem?-cons h rest i j v.from ∙ v.at;
      right_type = v.right_type;
      right_state = v.right_state;
    }

-- `hw_get_hw_by_id` answers an available chip of the type asked for, with its place in the table.
pub hw_get_hw_by_id_lem :
    (list : List SensorHw) (id j : ℕ) (hw : SensorHw)
    → hw_get_hw_by_id list id ≡ some (j, hw)
    → (get_elem? list j ≡ some hw) × (hw.typ ≡ id) × (hw.available ≡ true)
unfolding hw_get_hw_by_id
hw_get_hw_by_id_lem list id j hw e =
    let v = find_hw-Selected list id 0 j hw e in (rw minus at v.at, v.right_type, v.right_state)
  where
    minus : j - 0 ≡ j
    minus = omega arith

-- What one call does to the table: nothing but ENODEV where no available chip has the type, and
-- otherwise the count's change to one chip of that type, all others as they were.
pub record OneChip {Dev : Type 0} (change : SensorHw → Dev → ℤ × SensorHw × Dev) (s : HwList Dev)
    (id : ℕ) (r : ℤ × HwList Dev) : Type 0 where
  pub missing : hw_get_hw_by_id s.list id ≡ none → r ≡ (enodev, s)
  pub found :
      (i : ℕ) (hw : SensorHw)
      → hw_get_hw_by_id s.list id ≡ some (i, hw)
      → let (err, hw', dev') = change hw s.dev in
        (r.0 ≡ err)
        × (r.1.dev ≡ dev')
        × (get_elem? r.1.list i ≡ some hw')
        × ((j : ℕ) → i ≢ j → get_elem? r.1.list j ≡ get_elem? s.list j)

module _ {Dev : Type 0} (driver : Driver Dev) (s : HwList Dev) (id : ℕ) where
  put-found :
      (change : SensorHw → Dev → ℤ × SensorHw × Dev) (i : ℕ) (hw : SensorHw)
      → get_elem? s.list i ≡ some hw
      → let r = put driver s i (change hw s.dev) in
        let (err, hw', dev') = change hw s.dev in
        (r.0 ≡ err)
        × (r.1.dev ≡ dev')
        × (get_elem? r.1.list i ≡ some hw')
        × ((j : ℕ) → i ≢ j → get_elem? r.1.list j ≡ get_elem? s.list j)
  unfolding put
  put-found change i hw e = (
    refl,
    refl,
    get_elem?-set_self s.list i _ (lt_of_get_elem? s.list i e),
    λ j ne. get_elem?-set_ne s.list _ ne,
  )

  -- `hw_ref_up` takes the reference at one chip of the type, and answers -ENODEV without one.
  pub hw_ref_up-OneChip : OneChip (ref_up driver) s id (hw_ref_up driver s id)
  unfolding hw_ref_up
  hw_ref_up-OneChip = record {
    missing = λ e. rw (e, hw_ref_up) refl;
    found = λ i hw e.
        rw (e, hw_ref_up) (put-found (ref_up driver) i hw (hw_get_hw_by_id_lem s.list id i hw e).0);
  }

  -- `hw_ref_down` drops the reference at one chip of the type, and answers -ENODEV without one.
  pub hw_ref_down-OneChip : OneChip (ref_down driver) s id (hw_ref_down driver s id)
  unfolding hw_ref_down
  hw_ref_down-OneChip = record {
    missing = λ e. rw (e, hw_ref_down) refl;
    found = λ i hw e.
        rw (e, hw_ref_down)
          (put-found (ref_down driver) i hw (hw_get_hw_by_id_lem s.list id i hw e).0);
  }

-- No chip of the table is held.
abbrev pub AllIdle : List SensorHw → Type 0
AllIdle [] = Unit {0}
AllIdle (hw ∷ rest) = (hw.ref ≡ 0) × AllIdle rest

init_list-AllIdle :
    {Dev : Type 0} (driver : Driver Dev) (list : List SensorHw) (dev : Dev)
    → AllIdle (init_list driver list dev).list
      × (length (init_list driver list dev).list ≡ length list)
unfolding init_list
init_list-AllIdle driver [] dev = (tt, refl)
init_list-AllIdle driver (hw ∷ rest) dev =
    let (idle, len) = init_list-AllIdle driver rest (init_hw driver hw dev).1 in
    ((ground arith, idle), ap suc len)

-- `hw_cntl_init` reports success whatever the drivers answer, and keeps every chip in the table, held
-- by nobody.
pub hw_cntl_init-AllIdle :
    {Dev : Type 0} (driver : Driver Dev) (s : HwList Dev)
    → let (err, s') = hw_cntl_init driver s in
      (err ≡ pos 0) × AllIdle s'.list × (length s'.list ≡ length s.list)
unfolding hw_cntl_init
hw_cntl_init-AllIdle driver s =
    let (idle, len) = init_list-AllIdle driver s.list s.dev in (refl, idle, len)
