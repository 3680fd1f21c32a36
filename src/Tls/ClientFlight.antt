-- ===== src/Tls/ClientFlight.antt =====
-- krabitls/src/client_flight.rs: the client's Certificate, CertificateVerify and Finished, and the
-- policies that join them, with every algorithm compiled in. Of an output buffer only the length
-- counts. The signer is a parameter; what it draws from its random numbers is part of its `sign`.
pub mod Policies
pub mod Built
pub mod Joined
pub mod Fits
mod Tests
use krabitls_rs.Base.{
  ℕ, suc, ◌+◌, ◌-◌, ◌%◌, ◌^◌, ◌&&◌, ◌||◌, Bool, true, false, not, List, [], ◌∷◌, ◌++◌, length,
  replicate, ltb, leb, ◌==◌, Result, ok, err, ◌>>=◌, ◌>>◌, fail_if, map_err,
}
use krabitls_rs.Base.Bytes.{to_be_bytes, from_be_bytes}
use krabitls_rs.Keys.Hkdf.{HkdfSha256, HkdfLabelError}
use krabitls_rs.Keys.Schedule.{TranscriptError, finished_mac}
use krabitls_rs.Tls.Aead.Encrypt.{EncryptError}
use krabitls_rs.Tls.RecordKeys.{CipherSuite, derive, encrypt_record}
use krabitls_rs.Tls.Reassembler.{hs_finished}
use krabitls_rs.Tls.ServerFlight.{hs_certificate, hs_certificate_verify}

-- `CT_HANDSHAKE`
abbrev pub ct_handshake : ℕ
ct_handshake = 22

pub data ClientFinishedError : Type 0 where
  encrypt : EncryptError → ClientFinishedError
  hkdf : HkdfLabelError → ClientFinishedError

pub data ClientAuthError : Type 0 where
  client_auth_error : ClientAuthError

pub data ClientAuthFlightError : Type 0 where
  buffer_too_small : ClientAuthFlightError
  sign : ClientAuthError → ClientAuthFlightError
  finished : ClientFinishedError → ClientAuthFlightError
  transcript : TranscriptError → ClientAuthFlightError
  certificate_requested no_mutual_signature_algorithm empty_certificate certificate_too_long :
      ClientAuthFlightError
  context_too_long : ClientAuthFlightError

-- `ClientAuth` of krabitls/src/traits/client_auth.rs.
pub record ClientAuth : Type 0 where
  pub cert_der : List ℕ
  pub scheme : ℕ
  pub sign_content : List ℕ → Result ClientAuthError (List ℕ)

-- `MAX_CLIENT_SIG_LEN`
abbrev pub max_client_sig_len : ℕ
max_client_sig_len = 512

-- `MAX_CLIENT_CERT_DER`
abbrev pub max_client_cert_der : ℕ
max_client_cert_der = 1536

-- `HS_HEADER`
abbrev pub hs_header : ℕ
hs_header = 4

-- `CERT_FRAMING`
abbrev pub cert_framing : ℕ
cert_framing = 1 + 255 + 3 + 3 + 2

-- `CV_FRAMING`
abbrev pub cv_framing : ℕ
cv_framing = 2 + 2

-- `FINISHED_MSG`
abbrev pub finished_msg : ℕ
finished_msg = hs_header + 32

-- `MAX_CLIENT_AUTH_FLIGHT`
abbrev pub max_client_auth_flight : ℕ
max_client_auth_flight =
    hs_header
    + cert_framing
    + max_client_cert_der
    + (hs_header + cv_framing + max_client_sig_len)
    + finished_msg

-- `EMPTY_CERT_FRAMING`
abbrev pub empty_cert_framing : ℕ
empty_cert_framing = 1 + 255 + 3

-- `MAX_CLIENT_EMPTY_AUTH_FLIGHT`
abbrev pub max_client_empty_auth_flight : ℕ
max_client_empty_auth_flight = hs_header + empty_cert_framing + finished_msg

-- `CLIENT_CV_CTX`, "TLS 1.3, client CertificateVerify"
abbrev pub client_cv_ctx : List ℕ
client_cv_ctx =
    84 ∷ 76 ∷ 83 ∷ 32 ∷ 49 ∷ 46 ∷ 51 ∷ 44 ∷ 32 ∷ 99 ∷ 108 ∷ 105 ∷ 101 ∷ 110 ∷ 116 ∷ 32 ∷ 67 ∷ 101
    ∷ 114 ∷ 116 ∷ 105 ∷ 102 ∷ 105 ∷ 99 ∷ 97 ∷ 116 ∷ 101 ∷ 86 ∷ 101 ∷ 114 ∷ 105 ∷ 102 ∷ 121 ∷ []

abbrev pub u24 : ℕ → List ℕ
u24 n = to_be_bytes 3 (n % 2 ^ 32)

unfoldable pub build_finished_plaintext :
    HkdfSha256 → List ℕ → List ℕ → Result ClientFinishedError (List ℕ)
build_finished_plaintext h c_hs_traffic_secret transcript_hash = do
  verify_data ←
      map_err ClientFinishedError.hkdf (finished_mac h c_hs_traffic_secret transcript_hash)
  ok (hs_finished ∷ 0 ∷ 0 ∷ 0x20 ∷ verify_data)

unfoldable pub build_client_finished :
    CipherSuite → HkdfSha256 → List ℕ → List ℕ → ℕ → ℕ → Result ClientFinishedError (List ℕ)
build_client_finished s h c_hs_traffic_secret transcript_hash seq out_len = do
  message ← build_finished_plaintext h c_hs_traffic_secret transcript_hash
  keys ← map_err ClientFinishedError.hkdf (derive s h c_hs_traffic_secret)
  map_err ClientFinishedError.encrypt (encrypt_record s keys message ct_handshake seq out_len)

unfoldable pub certificate_verify_signed_content : List ℕ → List ℕ
certificate_verify_signed_content transcript_hash =
    replicate 64 0x20 ++ (client_cv_ctx ++ (0 ∷ transcript_hash))

unfoldable pub build_client_certificate :
    List ℕ → List ℕ → ℕ → Result ClientAuthFlightError (List ℕ)
build_client_certificate cert_der cert_request_context out_len = do
  fail_if (length cert_der == 0) empty_certificate
  fail_if (ltb max_client_cert_der (length cert_der)) certificate_too_long
  fail_if (ltb 255 (length cert_request_context)) context_too_long
  let entry_len = 3 + length cert_der + 2
  let list_len = 3 + entry_len
  let body_len = 1 + length cert_request_context + list_len
  let total = 4 + body_len
  fail_if (ltb out_len total) ClientAuthFlightError.buffer_too_small
  ok (
      hs_certificate
      ∷ (u24 body_len
          ++ ((length cert_request_context % 2 ^ 8)
              ∷ (cert_request_context
                  ++ (u24 entry_len ++ (u24 (length cert_der) ++ (cert_der ++ (0 ∷ 0 ∷ []))))))))

unfoldable pub build_client_empty_certificate : List ℕ → ℕ → Result ClientAuthFlightError (List ℕ)
build_client_empty_certificate cert_request_context out_len = do
  fail_if (ltb 255 (length cert_request_context)) context_too_long
  let body_len = 1 + length cert_request_context + 3
  let total = 4 + body_len
  fail_if (ltb out_len total) ClientAuthFlightError.buffer_too_small
  ok (
      hs_certificate
      ∷ (u24 body_len
          ++ ((length cert_request_context % 2 ^ 8) ∷ (cert_request_context ++ (0 ∷ 0 ∷ 0 ∷ [])))))

unfoldable pub build_client_certificate_verify :
    ClientAuth → List ℕ → ℕ → Result ClientAuthFlightError (List ℕ)
build_client_certificate_verify auth transcript_hash out_len = do
  let signed = certificate_verify_signed_content transcript_hash
  sig ← map_err ClientAuthFlightError.sign (auth.sign_content signed)
  let body_len = 2 + 2 + length sig
  let total = 4 + body_len
  fail_if (ltb out_len total) ClientAuthFlightError.buffer_too_small
  fail_if (ltb 0xffff (length sig)) ClientAuthFlightError.buffer_too_small
  ok (
      hs_certificate_verify
      ∷ (u24 body_len ++ (to_be_bytes 2 auth.scheme ++ (to_be_bytes 2 (length sig) ++ sig))))

-- `any` over `chunks_exact(2)`.
unfoldable pub any_pair : List ℕ → ℕ → Bool
any_pair [] scheme = false
any_pair (a ∷ []) scheme = false
any_pair (a ∷ b ∷ list) scheme = (from_be_bytes (a ∷ b ∷ []) == scheme) || any_pair list scheme

unfoldable pub sig_algs_offer : List ℕ → ℕ → Bool
sig_algs_offer list scheme = (length list % 2 == 0) && any_pair list scheme
