-- ===== src/Sensord.antt =====
-- The sensor daemon, sensors/daemon.
pub mod UtilMisc
pub mod Hw
pub mod Fusion
pub mod Provider
pub mod Channel
pub mod Daemon
pub mod Time
pub mod Events
mod Samples
mod Tests
