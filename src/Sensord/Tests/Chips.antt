-- ===== src/Sensord/Tests/Chips.antt =====
-- Runs of src/hw/hw_cntl.c.
use vibe_xperia.Prelude.{◌+◌, ◌≡◌, refl, false, pos, negsuc, einval}
use vibe_xperia.Sensord.Hw.{find_hw, hw_get_hw_by_id, ref_up, power_up, hw_ref_up, put}
use vibe_xperia.Sensord.Hw.RefCount.{ref_up_retry}
use vibe_xperia.Sensord.Hw.Remap.{Vec3}
use vibe_xperia.Sensord.Samples.{good_driver, bad_driver, chip, two_chips}

run_ref_up : (hw_ref_up good_driver two_chips 4).1.dev ≡ 1
unfolding hw_ref_up hw_get_hw_by_id find_hw put ref_up power_up
run_ref_up = refl

ref_up_retry_example :
    let (err, hw1, dev1) = ref_up bad_driver (chip 0 0 false) 5 in
    let (err2, hw2, dev2) = ref_up bad_driver hw1 dev1 in
    (err ≡ einval) × (err2 ≡ pos 0) × (dev2 ≡ 6) × (hw2.ref ≡ 2) × (hw2.enabled ≡ false)
ref_up_retry_example =
    ref_up_retry bad_driver (λ b d. (einval, d + 1)) (chip 0 0 false) 5 refl refl refl refl

abbrev sample : Vec3
sample = record { x = pos 1; y = negsuc 4; z = pos 9 }
