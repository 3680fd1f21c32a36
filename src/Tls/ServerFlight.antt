-- ===== src/Tls/ServerFlight.antt =====
-- krabitls/src/server_flight.rs: the errors of the server's flight and the walk over its messages.
-- A length of three bytes fits the code's `usize`, which has 32 bits or more. What is signed and
-- what the messages hold is in the child modules.
pub mod Messages
pub mod Bodies
pub mod Accepted
pub mod Parsed
pub mod Verify
pub mod Verified
pub mod Trusted
pub mod Request
pub mod Requested
pub mod Chain
pub mod SizeLimit
pub mod Chained
mod Tests
use krabitls_rs.Base.{
  ℕ, zero, suc, ◌+◌, ◌-◌, List, [], ◌∷◌, length, ltb, ◌==◌, not, if◌then◌else◌, Option, none, some,
  Result, ok, err, ◌>>=◌, ◌>>◌, fail_if,
}
use krabitls_rs.Base.Bytes.{byte_at, slice, from_be_bytes}
use krabitls_rs.Keys.Hkdf.{HkdfLabelError}
use krabitls_rs.Keys.Schedule.{TranscriptError}
use krabitls_rs.Tls.Reassembler.{hs_finished}

-- `HS_ENCRYPTED_EXTENSIONS`
abbrev pub hs_encrypted_extensions : ℕ
hs_encrypted_extensions = 8

-- `HS_CERTIFICATE`
abbrev pub hs_certificate : ℕ
hs_certificate = 11

-- `HS_CERTIFICATE_REQUEST`
abbrev pub hs_certificate_request : ℕ
hs_certificate_request = 13

-- `HS_CERTIFICATE_VERIFY`
abbrev pub hs_certificate_verify : ℕ
hs_certificate_verify = 15

pub data CertParseError : Type 0 where
  malformed unhandled_critical_extension wrong_pubkey_length wrong_signature_length : CertParseError
  bit_string_has_unused_bits trailing_bytes wrong_algorithm_oid algorithm_has_parameters :
      CertParseError
  signature_algorithm_mismatch unsupported_cert_version bad_rsa_pubkey unsupported_rsa_key_size :
      CertParseError
  wrong_ml_dsa_pubkey_length wrong_ecdsa_pubkey : CertParseError

pub data FlightError : Type 0 where
  truncated trailing_bytes : FlightError
  -- The type that was expected, and the one that came.
  unexpected_handshake_type : ℕ → ℕ → FlightError
  bad_cert : CertParseError → FlightError
  cert_self_signature_invalid : FlightError
  unexpected_signature_scheme : ℕ → FlightError
  wrong_signature_length cert_verify_invalid finished_wrong_length finished_mac_invalid :
      FlightError
  hkdf_label : HkdfLabelError → FlightError
  transcript : TranscriptError → FlightError
  internal_encoding : FlightError
  duplicate_extension : ℕ → FlightError
  cert_chain_too_long : FlightError

pub record ServerFlightView : Type 0 where
  pub ee_full : List ℕ
  pub ee_body : List ℕ
  pub cert_request_full : Option (List ℕ)
  pub cert_full : List ℕ
  pub cert_body : List ℕ
  pub cv_full : List ℕ
  pub cv_body : List ℕ
  pub fin_full : List ℕ
  pub fin_body : List ℕ

pub record HsReader : Type 0 where
  pub buf : List ℕ
  pub pos : ℕ

-- What `next_msg` returns: the type, the body, and the message with its header.
pub record HsMsg : Type 0 where
  pub msg_type : ℕ
  pub body : List ℕ
  pub full : List ℕ

unfoldable pub next_msg : HsReader → Result FlightError (HsMsg × HsReader)
next_msg r = do
  fail_if (ltb (length r.buf) (r.pos + 4)) FlightError.truncated
  let len =
      from_be_bytes
        (0 ∷ byte_at r.buf (r.pos + 1) ∷ byte_at r.buf (r.pos + 2) ∷ byte_at r.buf (r.pos + 3) ∷ [])
  fail_if (ltb (length r.buf - r.pos - 4) len) FlightError.truncated
  let body_start = r.pos + 4
  let body_end = body_start + len
  ok (
    record {
      msg_type = byte_at r.buf r.pos;
      body = slice body_start body_end r.buf;
      full = slice r.pos body_end r.buf;
    },
    record r { pos = body_end },
  )

-- `if ty != expected { return Err(..) }`
abbrev pub expect : ℕ → HsMsg → Result FlightError (Unit {0})
expect expected m =
    fail_if (not (m.msg_type == expected)) (unexpected_handshake_type expected m.msg_type)

-- The optional CertificateRequest: what was read of it, and the message after it.
unfoldable pub optional_request :
    HsMsg → HsReader → Result FlightError (Option (List ℕ) × HsMsg × HsReader)
optional_request m r =
    if m.msg_type == hs_certificate_request
    then (next_msg r >>= λ after. ok (some m.full, after.0, after.1))
    else ok (none, m, r)

unfoldable pub parse_server_flight : List ℕ → Result FlightError ServerFlightView
parse_server_flight content = do
  (ee, r) ← next_msg (record { buf = content; pos = 0 })
  expect hs_encrypted_extensions ee
  (m, r) ← next_msg r
  (request, cert, r) ← optional_request m r
  expect hs_certificate cert
  (cv, r) ← next_msg r
  expect hs_certificate_verify cv
  (fin, r) ← next_msg r
  expect hs_finished fin
  fail_if (not (r.pos == length r.buf)) FlightError.trailing_bytes
  ok record {
    ee_full = ee.full;
    ee_body = ee.body;
    cert_request_full = request;
    cert_full = cert.full;
    cert_body = cert.body;
    cv_full = cv.full;
    cv_body = cv.body;
    fin_full = fin.full;
    fin_body = fin.body;
  }
