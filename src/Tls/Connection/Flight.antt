-- ===== src/Tls/Connection/Flight.antt =====
-- krabitls/src/connection.rs, from the server's flight to its verification.
use krabitls_rs.Base.{
  ℕ, ◌+◌, ◌%◌, ◌^◌, Bool, true, false, List, [], ◌∷◌, length, leb, ◌==◌, not, if◌then◌else◌, Result,
  ok, err, ◌>>=◌, ◌>>◌, fail_if, ok_or, map_err,
}
use krabitls_rs.Base.Bytes.{slice}
use krabitls_rs.Certs.View.{CertView, ServerPubkey}
use krabitls_rs.Keys.Hkdf.{HkdfSha256}
use krabitls_rs.Tls.Aead.{ct_application_data}
use krabitls_rs.Tls.Aead.Decrypt.{DecryptError, split_inner_plaintext}
use krabitls_rs.Tls.ClientFlight.{ct_handshake}
use krabitls_rs.Tls.Connection.{
  TlsConnection, WaitServerFlight, ServerFlightDone, FlightStep, pending, ready, StepError,
  ConnectionError, incomplete_flight,
}
use krabitls_rs.Tls.Reassembler.{ServerFlightReassembler, push_content, is_complete, flight_bytes}
use krabitls_rs.Tls.RecordKeys.{CipherSuite, decrypt_record_inplace}
use krabitls_rs.Tls.ServerFlight.{FlightError}
use krabitls_rs.Tls.ServerFlight.Verify.{PreparedVerifier, MlDsaSigBytes, verify_server_flight}

-- `CT_CHANGE_CIPHER_SPEC`
abbrev pub ct_change_cipher_spec : ℕ
ct_change_cipher_spec = 0x14

abbrev pub flight_step : Bool → FlightStep
flight_step true = ready
flight_step false = pending

-- The branch of an encrypted record: what was decrypted, the number and the buffer after it.
unfoldable pub feed_encrypted :
    ℕ
    → Result DecryptError ℕ × List ℕ
    → ℕ
    → ServerFlightReassembler
    → Result StepError (FlightStep × ℕ × ServerFlightReassembler)
feed_encrypted capacity (result, bytes) seq_in r = do
  inner_len ← map_err ConnectionError.decrypt result
  let inner = slice 5 (5 + inner_len) bytes
  (content, inner_ct) ← map_err ConnectionError.decrypt (split_inner_plaintext inner)
  fail_if (not (inner_ct == ct_handshake))
      (ConnectionError.decrypt (DecryptError.unexpected_content_type inner_ct))
  r ← map_err ConnectionError.reassembly (push_content capacity r content)
  ok (flight_step (is_complete r), (seq_in + 1) % 2 ^ 64, r)

unfoldable pub feed_server_record_inplace_inner :
    ℕ
    → List ℕ
    → ℕ
    → ServerFlightReassembler
    → (List ℕ → ℕ → Result DecryptError ℕ × List ℕ)
    → Result StepError (FlightStep × ℕ × ServerFlightReassembler)
feed_server_record_inplace_inner capacity [] seq_in r decrypt =
    err (ConnectionError.decrypt DecryptError.truncated)
feed_server_record_inplace_inner capacity (first ∷ bytes) seq_in r decrypt =
    if first == ct_change_cipher_spec
    then ok (flight_step (is_complete r), seq_in, r)
    else if first == ct_application_data
    then feed_encrypted capacity (decrypt (first ∷ bytes) seq_in) seq_in r
    else err (ConnectionError.decrypt (DecryptError.unexpected_content_type first))

-- The step, and the connection and the buffer after it.
unfoldable pub feed_server_record_inplace :
    CipherSuite
    → ℕ
    → TlsConnection WaitServerFlight
    → List ℕ
    → ServerFlightReassembler
    → Result StepError (FlightStep × TlsConnection WaitServerFlight × ServerFlightReassembler)
feed_server_record_inplace s capacity conn bytes r = do
  (step, seq_in, r) ←
      feed_server_record_inplace_inner capacity bytes conn.state.seq_in r
        (decrypt_record_inplace s conn.state.s_hs_keys)
  ok (step, record conn { state = record (conn.state) { seq_in = seq_in } }, r)

-- `ServerPubkeyOwned::from_view`: a key that fits in its buffer.
unfoldable pub from_view : ServerPubkey → Result FlightError ServerPubkey
from_view (ServerPubkey.ed25519 pk) = ok (ServerPubkey.ed25519 pk)
from_view (ServerPubkey.rsa modulus exponent) =
    if leb (length modulus) 256
    then ok (ServerPubkey.rsa modulus exponent)
    else err FlightError.internal_encoding
from_view (ServerPubkey.mldsa pk) =
    if leb (length pk) 2592 then ok (ServerPubkey.mldsa pk) else err FlightError.internal_encoding
from_view (ServerPubkey.ecdsa_p256 pk) =
    if length pk == 65 then ok (ServerPubkey.ecdsa_p256 pk) else err FlightError.internal_encoding
from_view (ServerPubkey.ecdsa_p384 pk) =
    if length pk == 97 then ok (ServerPubkey.ecdsa_p384 pk) else err FlightError.internal_encoding

-- `matches` is the answer of `matches_cert` of the verifier on the certificate.
unfoldable pub finalize_server_flight :
    HkdfSha256
    → MlDsaSigBytes
    → TlsConnection WaitServerFlight
    → ServerFlightReassembler
    → PreparedVerifier
    → Bool
    → CertView
    → Result StepError (TlsConnection ServerFlightDone)
finalize_server_flight h sizes conn r prepared matches leaf_view = do
  fail_if (not matches) (ConnectionError.flight FlightError.cert_verify_invalid)
  plaintext ← ok_or (flight_bytes r) incomplete_flight
  (transcript, server_pubkey) ←
      map_err ConnectionError.flight (
        verify_server_flight h sizes conn.transcript plaintext conn.state.s_hs_ts prepared
          leaf_view)
  owned ← map_err ConnectionError.flight (from_view server_pubkey)
  ok record {
    transcript = transcript;
    state = record { hs = conn.state.hs; c_hs_ts = conn.state.c_hs_ts; server_pubkey = owned };
  }
