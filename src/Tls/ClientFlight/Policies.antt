-- ===== src/Tls/ClientFlight/Policies.antt =====
-- krabitls/src/client_flight.rs, `build_flight` of the three policies.
use krabitls_rs.Base.{
  ℕ, ◌+◌, ◌-◌, List, ◌++◌, length, ltb, not, Result, ok, err, ◌>>=◌, ◌>>◌, fail_if, map_err,
}
use krabitls_rs.Keys.Hkdf.{HkdfSha256}
use krabitls_rs.Keys.Schedule.{TranscriptHash, update, snapshot}
use krabitls_rs.Tls.ClientFlight.{
  ClientAuth, ClientAuthFlightError, certificate_requested, no_mutual_signature_algorithm,
  build_finished_plaintext, build_client_certificate, build_client_empty_certificate,
  build_client_certificate_verify, sig_algs_offer,
}

-- `ClientAuthPolicy` and its implementations.
pub data ClientAuthPolicy : Type 0 where
  no_client_auth decline_client_auth : ClientAuthPolicy
  with_client_auth : ClientAuth → ClientAuthPolicy

-- `head` is what is in the buffer before `head_end`.
unfoldable pub append_finished :
    HkdfSha256
    → List ℕ
    → TranscriptHash
    → ℕ
    → List ℕ
    → Result ClientAuthFlightError (List ℕ × TranscriptHash)
append_finished h c_hs_traffic_secret t out_len head = do
  th ← map_err ClientAuthFlightError.transcript (snapshot h t)
  finished ←
      map_err ClientAuthFlightError.finished (build_finished_plaintext h c_hs_traffic_secret th)
  fail_if (ltb out_len (length head + length finished)) ClientAuthFlightError.buffer_too_small
  ok (head ++ finished, update t finished)

-- The plaintext of the flight, and the transcript after it.
unfoldable pub build_flight :
    ClientAuthPolicy
    → HkdfSha256
    → List ℕ
    → List ℕ
    → List ℕ
    → TranscriptHash
    → ℕ
    → Result ClientAuthFlightError (List ℕ × TranscriptHash)
build_flight no_client_auth h context sig_algs c_hs_traffic_secret t out_len =
    err certificate_requested
build_flight decline_client_auth h context sig_algs c_hs_traffic_secret t out_len = do
  cert ← build_client_empty_certificate context out_len
  append_finished h c_hs_traffic_secret (update t cert) out_len cert
build_flight (with_client_auth auth) h context sig_algs c_hs_traffic_secret t out_len = do
  fail_if (not (sig_algs_offer sig_algs auth.scheme)) no_mutual_signature_algorithm
  cert ← build_client_certificate auth.cert_der context out_len
  let t = update t cert
  th_through_cert ← map_err ClientAuthFlightError.transcript (snapshot h t)
  cv ← build_client_certificate_verify auth th_through_cert (out_len - length cert)
  let t = update t cv
  append_finished h c_hs_traffic_secret t out_len (cert ++ cv)
