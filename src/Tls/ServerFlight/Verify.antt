-- ===== src/Tls/ServerFlight/Verify.antt =====
-- krabitls/src/server_flight.rs, the checks of the server's flight, with every algorithm compiled in.
-- Cryptography is a parameter: a prepared verifier is its function `verify` of a message and a
-- signature, and the hash is the backend of the key derivation. Comparing in constant time is
-- comparing. The transcript that a failed run leaves behind is not modelled.
use krabitls_rs.Base.{
  ℕ, ◌+◌, ◌-◌, Bool, true, false, ◌&&◌, ◌||◌, not, List, [], ◌∷◌, ◌++◌, length, drop, replicate,
  leb, ltb, ◌==◌, if◌then◌else◌, Option, none, some, Result, ok, err, ◌>>=◌, ◌>>◌, fail_if, map_err,
}
use krabitls_rs.Base.Bytes.{byte_at, from_be_bytes}
use krabitls_rs.Certs.View.{CertView, ServerPubkey}
use krabitls_rs.Keys.Hkdf.{HkdfSha256, hkdf_expand_label}
use krabitls_rs.Keys.Schedule.{TranscriptHash, update, snapshot, extract, finished_label}
use krabitls_rs.Tls.ServerFlight.{FlightError, parse_server_flight}

-- `PreparedVerifier`: what `verify` of the backend says on a message and a signature.
pub data PreparedVerifier : Type 0 where
  ed25519 rsa mldsa ecdsa_p256 ecdsa_p384 : (List ℕ → List ℕ → Bool) → PreparedVerifier

-- The lengths of signatures that the ML-DSA library declares.
pub record MlDsaSigBytes : Type 0 where
  pub mldsa44 : ℕ
  pub mldsa65 : ℕ
  pub mldsa87 : ℕ

-- `SIG_SCHEME_ED25519`
abbrev pub sig_scheme_ed25519 : ℕ
sig_scheme_ed25519 = 0x0807

-- `SIG_SCHEME_ECDSA_P256`
abbrev pub sig_scheme_ecdsa_p256 : ℕ
sig_scheme_ecdsa_p256 = 0x0403

-- `SIG_SCHEME_ECDSA_P384`
abbrev pub sig_scheme_ecdsa_p384 : ℕ
sig_scheme_ecdsa_p384 = 0x0503

-- `SIG_SCHEME_RSA_PSS_RSAE_SHA256`
abbrev pub sig_scheme_rsa_pss_rsae_sha256 : ℕ
sig_scheme_rsa_pss_rsae_sha256 = 0x0804

-- `SIG_SCHEME_MLDSA44`
abbrev pub sig_scheme_mldsa44 : ℕ
sig_scheme_mldsa44 = 0x0904

-- `SIG_SCHEME_MLDSA65`
abbrev pub sig_scheme_mldsa65 : ℕ
sig_scheme_mldsa65 = 0x0905

-- `SIG_SCHEME_MLDSA87`
abbrev pub sig_scheme_mldsa87 : ℕ
sig_scheme_mldsa87 = 0x0906

-- `CTX`, "TLS 1.3, server CertificateVerify"
abbrev pub certificate_verify_context : List ℕ
certificate_verify_context =
    84 ∷ 76 ∷ 83 ∷ 32 ∷ 49 ∷ 46 ∷ 51 ∷ 44 ∷ 32 ∷ 115 ∷ 101 ∷ 114 ∷ 118 ∷ 101 ∷ 114 ∷ 32 ∷ 67 ∷ 101
    ∷ 114 ∷ 116 ∷ 105 ∷ 102 ∷ 105 ∷ 99 ∷ 97 ∷ 116 ∷ 101 ∷ 86 ∷ 101 ∷ 114 ∷ 105 ∷ 102 ∷ 121 ∷ []

-- `SIGNED_LEN`
abbrev pub signed_len : ℕ
signed_len = 64 + length certificate_verify_context + 1 + 32

-- `extend_from_slice` of a vector of `signed_len` bytes, under `?`.
abbrev pub extend : List ℕ → List ℕ → Result FlightError (List ℕ)
extend out bytes =
    if leb (length out + length bytes) signed_len
    then ok (out ++ bytes)
    else err FlightError.internal_encoding

-- `verify` with its error mapped.
abbrev pub valid : Bool → Result FlightError (Unit {0})
valid true = ok tt
valid false = err FlightError.cert_verify_invalid

abbrev pub mldsa_sig_bytes : MlDsaSigBytes → ℕ → ℕ
mldsa_sig_bytes sizes scheme =
    if scheme == sig_scheme_mldsa44
    then sizes.mldsa44
    else if scheme == sig_scheme_mldsa65
    then sizes.mldsa65
    else sizes.mldsa87

abbrev pub is_mldsa : ℕ → Bool
is_mldsa scheme =
    scheme == sig_scheme_mldsa44 || scheme == sig_scheme_mldsa65 || scheme == sig_scheme_mldsa87

-- The match on the scheme and the verifier.
unfoldable pub check_signature :
    MlDsaSigBytes → ℕ → PreparedVerifier → List ℕ → List ℕ → Result FlightError (Unit {0})
check_signature sizes scheme (ed25519 verify) signed sig =
    if scheme == sig_scheme_ed25519
    then (if length sig == 64
        then valid (verify signed sig)
        else err FlightError.wrong_signature_length)
    else err (FlightError.unexpected_signature_scheme scheme)
check_signature sizes scheme (rsa verify) signed sig =
    if scheme == sig_scheme_rsa_pss_rsae_sha256
    then valid (verify signed sig)
    else err (FlightError.unexpected_signature_scheme scheme)
check_signature sizes scheme (mldsa verify) signed sig =
    if is_mldsa scheme && (length sig == mldsa_sig_bytes sizes scheme)
    then valid (verify signed sig)
    else err (FlightError.unexpected_signature_scheme scheme)
check_signature sizes scheme (ecdsa_p256 verify) signed sig =
    if scheme == sig_scheme_ecdsa_p256
    then valid (verify signed sig)
    else err (FlightError.unexpected_signature_scheme scheme)
check_signature sizes scheme (ecdsa_p384 verify) signed sig =
    if scheme == sig_scheme_ecdsa_p384
    then valid (verify signed sig)
    else err (FlightError.unexpected_signature_scheme scheme)

unfoldable pub verify_certificate_verify_with_prepared :
    MlDsaSigBytes → PreparedVerifier → List ℕ → List ℕ → Result FlightError (Unit {0})
verify_certificate_verify_with_prepared sizes prepared transcript_hash cv_body = do
  fail_if (ltb (length cv_body) 4) FlightError.truncated
  let scheme = from_be_bytes (byte_at cv_body 0 ∷ byte_at cv_body 1 ∷ [])
  let sig_len = from_be_bytes (byte_at cv_body 2 ∷ byte_at cv_body 3 ∷ [])
  fail_if (not (length cv_body - 4 == sig_len)) FlightError.trailing_bytes
  let sig_bytes = drop 4 cv_body
  signed ← extend [] (replicate 64 0x20)
  signed ← extend signed certificate_verify_context
  signed ← extend signed (0 ∷ [])
  signed ← extend signed transcript_hash
  check_signature sizes scheme prepared signed sig_bytes

-- `ct_eq` of byte strings.
unfoldable pub ct_eq : List ℕ → List ℕ → Bool
ct_eq [] [] = true
ct_eq [] (y ∷ ys) = false
ct_eq (x ∷ xs) [] = false
ct_eq (x ∷ xs) (y ∷ ys) = (x == y) && ct_eq xs ys

unfoldable pub verify_server_finished :
    HkdfSha256 → List ℕ → List ℕ → List ℕ → Result FlightError (Unit {0})
verify_server_finished h s_hs_traffic_secret transcript_hash finished_body = do
  fail_if (not (length finished_body == 32)) FlightError.finished_wrong_length
  finished_key ←
      map_err FlightError.hkdf_label (hkdf_expand_label h s_hs_traffic_secret finished_label [] 32)
  expected ← map_err FlightError.hkdf_label (extract h finished_key transcript_hash)
  fail_if (not (ct_eq expected finished_body)) FlightError.finished_mac_invalid

-- The key of the leaf certificate.
abbrev pub server_pubkey : CertView → ServerPubkey
server_pubkey (CertView.ed25519 _ _ pubkey _ _) = ServerPubkey.ed25519 pubkey
server_pubkey (CertView.rsa _ _ _ modulus exponent _ _) = ServerPubkey.rsa modulus exponent
server_pubkey (CertView.mldsa _ _ pubkey _ _) = ServerPubkey.mldsa pubkey
server_pubkey (CertView.ecdsa_p256 _ _ pubkey _ _ _) = ServerPubkey.ecdsa_p256 pubkey
server_pubkey (CertView.ecdsa_p384 _ _ pubkey _ _ _) = ServerPubkey.ecdsa_p384 pubkey

abbrev pub update_some : TranscriptHash → Option (List ℕ) → TranscriptHash
update_some t none = t
update_some t (some msg) = update t msg

-- The transcript after the flight, and `ServerFlightVerified`.
unfoldable pub verify_server_flight :
    HkdfSha256
    → MlDsaSigBytes
    → TranscriptHash
    → List ℕ
    → List ℕ
    → PreparedVerifier
    → CertView
    → Result FlightError (TranscriptHash × ServerPubkey)
verify_server_flight h sizes transcript plaintext s_hs_traffic_secret prepared leaf_view = do
  flight ← parse_server_flight plaintext
  let transcript = update transcript flight.ee_full
  let transcript = update_some transcript flight.cert_request_full
  let transcript = update transcript flight.cert_full
  th_after_cert ← map_err FlightError.transcript (snapshot h transcript)
  verify_certificate_verify_with_prepared sizes prepared th_after_cert flight.cv_body
  let transcript = update transcript flight.cv_full
  th_after_cv ← map_err FlightError.transcript (snapshot h transcript)
  verify_server_finished h s_hs_traffic_secret th_after_cv flight.fin_body
  let transcript = update transcript flight.fin_full
  ok (transcript, server_pubkey leaf_view)
