-- ===== src/Sensord/Hw/Lookup.antt =====
-- Which chip `hw_get_hw_by_id` answers after a call.
use vibe_xperia.Prelude.{
  ℕ, zero, suc, ◌+◌, ◌≤◌, ◌≡◌, true, List, [], ◌∷◌, Option, some, arith, ◌==◌, if◌then◌else◌, set,
}
use vibe_xperia.Sensord.Hw.{
  SensorHw, Driver, HwList, find_hw, hw_get_hw_by_id, ref_up, ref_down, put, hw_ref_up, hw_ref_down,
}
use vibe_xperia.Sensord.Hw.Table.{find_hw-Selected}

-- the lookup of `id2` after `hw'` has been stored at the chip found for `id`
abbrev pub stored : ℕ → ℕ → ℕ → SensorHw → Option (ℕ × SensorHw) → Option (ℕ × SensorHw)
stored id id2 j hw' o = if id == id2 then some (j, hw') else o

find_hw_found :
    (list : List SensorHw) (id i j : ℕ) (hw : SensorHw)
    → find_hw list id i ≡ some (j, hw)
    → (i ≤ j) × (hw.typ ≡ id) × (hw.available ≡ true)
find_hw_found list id i j hw e =
    let v = find_hw-Selected list id i j hw e in (v.from, v.right_type, v.right_state)

find_hw-set :
    (list : List SensorHw) (id id2 i k j : ℕ) (hw hw' : SensorHw)
    → find_hw list id i ≡ some (j, hw)
    → j ≡ i + k
    → hw'.typ ≡ hw.typ
    → hw'.available ≡ hw.available
    → find_hw (set list k hw') id2 i ≡ stored id id2 j hw' (find_hw list id2 i)
unfolding find_hw
find_hw-set [] id id2 i k j hw hw' e p t a = cc
find_hw-set (x ∷ rest) id id2 i zero j hw hw' e p t a =
    ground (arith, find_hw_found rest id (suc i) j hw)
find_hw-set (x ∷ rest) id id2 i (suc k) j hw hw' e p t a = ground (
  arith,
  find_hw_found rest id (suc i) j hw,
  find_hw_found (x ∷ rest) id i j hw e,
  find_hw-set rest id id2 (suc i) k j hw hw',
)

ref_up-same :
    {Dev : Type 0} (driver : Driver Dev) (hw : SensorHw) (dev : Dev)
    → ((ref_up driver hw dev).1.typ ≡ hw.typ) × ((ref_up driver hw dev).1.available ≡ hw.available)
unfolding ref_up
ref_up-same driver hw dev = ground arith

ref_down-same :
    {Dev : Type 0} (driver : Driver Dev) (hw : SensorHw) (dev : Dev)
    → ((ref_down driver hw dev).1.typ ≡ hw.typ)
      × ((ref_down driver hw dev).1.available ≡ hw.available)
unfolding ref_down
ref_down-same driver hw dev = ground arith

-- The chips of all other types are found as before, and the one that was called with its new count.
pub hw_ref_up-get :
    {Dev : Type 0} (driver : Driver Dev) (s : HwList Dev) (id id2 j : ℕ) (hw : SensorHw)
    → hw_get_hw_by_id s.list id ≡ some (j, hw)
    → hw_get_hw_by_id (hw_ref_up driver s id).1.list id2
      ≡ stored id id2 j (ref_up driver hw s.dev).1 (hw_get_hw_by_id s.list id2)
unfolding hw_ref_up hw_get_hw_by_id put
hw_ref_up-get driver s id id2 j hw e =
    rw (e, hw_ref_up)
      (find_hw-set s.list id id2 0 j j hw (ref_up driver hw s.dev).1 e (omega arith)
        (ref_up-same driver hw s.dev).0 (ref_up-same driver hw s.dev).1)

pub hw_ref_down-get :
    {Dev : Type 0} (driver : Driver Dev) (s : HwList Dev) (id id2 j : ℕ) (hw : SensorHw)
    → hw_get_hw_by_id s.list id ≡ some (j, hw)
    → hw_get_hw_by_id (hw_ref_down driver s id).1.list id2
      ≡ stored id id2 j (ref_down driver hw s.dev).1 (hw_get_hw_by_id s.list id2)
unfolding hw_ref_down hw_get_hw_by_id put
hw_ref_down-get driver s id id2 j hw e =
    rw (e, hw_ref_down)
      (find_hw-set s.list id id2 0 j j hw (ref_down driver hw s.dev).1 e (omega arith)
        (ref_down-same driver hw s.dev).0 (ref_down-same driver hw s.dev).1)
