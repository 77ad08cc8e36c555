-- ===== src/Recorder.antt =====
-- The recorders, which gather the readings of one minute (lib/*Recorder.cc).
pub mod Basic
pub mod Minmax
pub mod Rain
pub mod Wind
pub mod Factory
pub mod Handle
