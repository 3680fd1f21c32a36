-- ===== src/Certs.antt =====
-- krabitls/src/backends: what reads certificates.
pub mod Tlv
pub mod View
pub mod Identity
