-- ===== src/Tls/HelloErrors.antt =====
-- krabitls/src/errors.rs: the errors of the hello codec, with every algorithm compiled in.
use krabitls_rs.Base.{ℕ}

pub data ParseError : Type 0 where
  truncated : ParseError
  unexpected_content_type unexpected_handshake_type unexpected_legacy_version : ℕ → ParseError
  unsupported_cipher_suite unexpected_compression_method : ℕ → ParseError
  bad_supported_versions bad_key_share trailing_bytes length_mismatch : ParseError
  unknown_extension duplicate_extension : ℕ → ParseError
  unexpected_session_id_echo hello_retry_requested downgrade_detected dh_all_zero : ParseError

pub data ClientHelloError (E : Type 0) : Type 0 where
  hostname_too_long message_too_long integer_overflow : ClientHelloError E
  record_size_limit_out_of_range alpn_name_len missing_ml_kem_key_share : ClientHelloError E
  missing_p256_key_share : ClientHelloError E
  write : E → ClientHelloError E

unfoldable pub map_writer : {E U : Type 0} → (E → U) → ClientHelloError E → ClientHelloError U
map_writer f hostname_too_long = hostname_too_long
map_writer f message_too_long = message_too_long
map_writer f integer_overflow = integer_overflow
map_writer f record_size_limit_out_of_range = record_size_limit_out_of_range
map_writer f alpn_name_len = alpn_name_len
map_writer f missing_ml_kem_key_share = missing_ml_kem_key_share
map_writer f missing_p256_key_share = missing_p256_key_share
map_writer f (write e) = write (f e)
