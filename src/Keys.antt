-- ===== src/Keys.antt =====
-- krabitls/src/hkdf.rs: the key schedule.
pub mod Hkdf
pub mod Schedule
mod Tests
