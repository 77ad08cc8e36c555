-- ===== src/Reader.antt =====
-- The packet readers (lib/*PacketReader.cc, lib/*Reader.cc, lib/PacketReaderFactory.cc): how numbers
-- are taken out of a station's packet.
pub mod Raw
pub mod Calibrator
pub mod Kinds
pub mod Factory
pub mod Tables
pub mod Values
pub mod Handle
