-- ===== src/Dtls.antt =====
-- The DTLS 1.3 layer: krabitls/src/dtls.
pub mod Hello
pub mod Replay
pub mod Framing
pub mod Ack
pub mod Reassembly
pub mod Record
