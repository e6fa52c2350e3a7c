-- ===== src/Sensord/Fusion.antt =====
-- sensors/daemon/src/algo/algo_adapter.c and src/sensor_fusion.c: the products (one for each fused
-- sensor), the modules of the algorithm that they need, and the data rates.
pub mod State
pub mod Deps
pub mod Rates
pub mod Product
