-- ===== src/LocApi.antt =====
-- The GPS engine, gps/loc_api/libloc_api_50001.
pub mod ThreadHelper
pub mod Agps
pub mod Pipe
pub mod Server
pub mod Ni
pub mod Nmea
mod Tests
mod PipeTests
mod NmeaTests
