-- ===== src/MultiHal.antt =====
-- sensors/multihal.cpp and sensors/SensorEventQueue.cpp: the HAL that joins the sensor HALs. A queue per
-- sub-module, the handles it gives out, the calls it passes on and the poll that merges the queues.
pub mod Queue
pub mod Handles
pub mod Sensors
pub mod Calls
pub mod Poll
mod Tests
