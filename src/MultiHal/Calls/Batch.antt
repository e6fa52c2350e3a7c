-- ===== src/MultiHal/Calls/Batch.antt =====
-- `batch` of sensors/multihal.cpp on a sub-module older than version 1.1: the period is kept within the sensor's
-- delays and becomes a plain `setDelay`.
use vibe_xperia.Prelude.{ℕ, List, [], ℤ, negsuc, einval, refl, ◌≡◌, ltb, ◌&&◌, if◌then◌else◌}
use vibe_xperia.MultiHal.Handles.{Handles, get_local_handle}
use vibe_xperia.MultiHal.Sensors.{Sensor, SensorConstants, Context}
use vibe_xperia.MultiHal.Calls.{Call, batch}

abbrev clamped : ℕ → ℕ → ℕ → ℕ
clamped low high period =
    if ltb 0 low && ltb period low
    then low
    else if ltb 0 high && ltb high period
    then high
    else period

-- A handle without a local handle, or with a negative one, is refused with -EINVAL and no call is made.
pub batch_unknown :
    (answer : Call → ℤ) (h : Handles) (c : Context) (k : SensorConstants) (sensors : List Sensor)
    (handle flags period timeout : ℤ) (l : ℕ)
    → get_local_handle h handle ≡ negsuc l
    → batch answer h c k sensors handle flags period timeout ≡ (einval, [])
unfolding batch
batch_unknown answer h c k sensors handle flags period timeout l e = rw e refl
