-- ===== src/Tls.antt =====
-- krabitls/src: the record layer, the handshake messages and the connection of TLS 1.3.
pub mod Aead
pub mod Reassembler
pub mod ServerFlight
pub mod RecordKeys
pub mod ClientFlight
pub mod HelloErrors
pub mod Hello
pub mod Connection
