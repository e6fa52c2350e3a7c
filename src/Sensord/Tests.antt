-- ===== src/Sensord/Tests.antt =====
-- Runs of the daemon on two chips, three channels and the products of this build.
mod Chips
mod Channels
mod Daemons
mod Pipes
