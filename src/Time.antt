-- ===== src/Time.antt =====
-- Times: lib/Timeval.cc, lib/Level.cc.
pub mod Offset
pub mod Timeval
pub mod Level
pub mod Label
