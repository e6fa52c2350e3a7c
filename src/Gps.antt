-- ===== src/Gps.antt =====
-- The C utilities of the GPS library, gps/utils.
pub mod LinkedList
pub mod MsgQ
pub mod Timer
mod Tests
mod TimerTests
