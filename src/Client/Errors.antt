-- ===== src/Client/Errors.antt =====
-- krabitls/src/client/error.rs.
use krabitls_rs.Base.{ℕ}
use krabitls_rs.Certs.Identity.{IdentityError}
use krabitls_rs.Tls.Connection.{StepError}

pub data InternalError : Type 0 where
  recv_buffer_empty_on_recv_event drain_state_inconsistent write_before_handshake : InternalError
  mark_sent_too_large handshake_step_in_data_phase handshake_step_wrong_state : InternalError
  server_hello_wrong_state flight_wrong_state finalize_wrong_state : InternalError
  frame_with_parked_plaintext advance_while_parked app_data_during_drive_handshake : InternalError
  handshake_done_in_data_phase write_app_zero_progress : InternalError

pub data HandshakeError : Type 0 where
  connection : StepError → HandshakeError
  identity : IdentityError → HandshakeError
  client_hello_too_long : HandshakeError
  record_too_large : (limit got : ℕ) → HandshakeError
  invalid_record_size_limit : ℕ → HandshakeError
  advance_too_large busy not_ready post_handshake_not_supported malformed_key_update :
      HandshakeError
  interleaved_post_handshake : HandshakeError
  internal : InternalError → HandshakeError
  rng strategy_rejected strategy_pubkey_mismatch : HandshakeError
