-- ===== src/Tls/Connection/Hello.antt =====
-- krabitls/src/connection.rs, `read_server_hello_with_backend`, with every algorithm compiled in. The
-- two cipher suites of the backend are parameters.
use krabitls_rs.Base.{
  ℕ, Bool, true, false, List, [], Option, none, some, not, ◌==◌, if◌then◌else◌, Result, ok, err,
  ◌>>=◌, ◌>>◌, fail_if, ok_or, map_err,
}
use krabitls_rs.Dtls.Hello.{same_random}
use krabitls_rs.Keys.Hkdf.{HkdfSha256}
use krabitls_rs.Keys.Schedule.{update_record, snapshot, handshake_secret, handshake_traffic_secrets}
use krabitls_rs.Tls.Connection.{
  TlsConnection, WaitServerHello, WaitServerFlight, KxSecret, SuiteList, default, aes_only,
  chacha_only, StepError, ConnectionError, unexpected_suite,
}
use krabitls_rs.Tls.Hello.{
  ServerHelloView, cipher_aes_128_gcm_sha256, cipher_chacha20_poly1305_sha256,
  named_group_secp256r1, parse_server_hello,
}
use krabitls_rs.Tls.HelloErrors.{
  unexpected_session_id_echo, bad_key_share, dh_all_zero, unsupported_cipher_suite,
}
use krabitls_rs.Tls.RecordKeys.{CipherSuite, derive}

-- The ciphers of an `AeadBackend`.
pub record AeadBackend : Type 0 where
  pub aes : CipherSuite
  pub chacha : CipherSuite

pub data NegotiatedSuite : Type 0 where
  aes128_gcm chacha20_poly1305 : TlsConnection WaitServerFlight → NegotiatedSuite

-- `matches!` on the suites that were advertised.
unfoldable pub offers_aes : SuiteList → Bool
offers_aes default = true
offers_aes aes_only = true
offers_aes chacha_only = false

unfoldable pub offers_chacha : SuiteList → Bool
offers_chacha default = true
offers_chacha aes_only = false
offers_chacha chacha_only = true

unfoldable pub advertised_ok : SuiteList → ℕ → Bool
advertised_ok advertised cipher_suite =
    if cipher_suite == cipher_aes_128_gcm_sha256
    then offers_aes advertised
    else if cipher_suite == cipher_chacha20_poly1305_sha256
    then offers_chacha advertised
    else false

abbrev pub sent_id : Option (List ℕ) → List ℕ
sent_id none = []
sent_id (some id) = id

-- One group's share under its secret.
unfoldable pub derive_share : Option (List ℕ) → KxSecret → Result StepError (List ℕ)
derive_share share secret = do
  server_share ← ok_or share (ConnectionError.parse bad_key_share)
  ok_or (secret server_share) (ConnectionError.parse dh_all_zero)

unfoldable pub shared_secret : WaitServerHello → ServerHelloView → Result StepError (List ℕ)
shared_secret w sh =
    if sh.selected_group == named_group_secp256r1
    then derive_share sh.p256_share w.ecdhe
    else derive_share sh.hybrid_share w.mlkem

-- The last match: the suite that was selected, and the keys of the server's flight.
unfoldable pub negotiated :
    AeadBackend
    → ℕ
    → (CipherSuite → Result StepError (TlsConnection WaitServerFlight))
    → Result StepError NegotiatedSuite
negotiated ab cipher_suite connect =
    if cipher_suite == cipher_aes_128_gcm_sha256
    then (connect ab.aes >>= λ c. ok (aes128_gcm c))
    else if cipher_suite == cipher_chacha20_poly1305_sha256
    then (connect ab.chacha >>= λ c. ok (chacha20_poly1305 c))
    else err (ConnectionError.parse (unsupported_cipher_suite cipher_suite))

unfoldable pub read_server_hello_with_backend :
    AeadBackend
    → ℕ
    → HkdfSha256
    → TlsConnection WaitServerHello
    → List ℕ
    → Result StepError NegotiatedSuite
read_server_hello_with_backend ab mlkem768_ct_bytes h conn sh_record = do
  sh ← map_err ConnectionError.parse (parse_server_hello mlkem768_ct_bytes sh_record)
  fail_if (not (same_random sh.session_id_echo (sent_id conn.state.session_id)))
      (ConnectionError.parse unexpected_session_id_echo)
  fail_if (not (advertised_ok conn.state.advertised sh.cipher_suite))
      (unexpected_suite sh.cipher_suite)
  ikm ← shared_secret conn.state sh
  transcript ← map_err ConnectionError.transcript (update_record conn.transcript sh_record)
  th_ch_sh ← map_err ConnectionError.transcript (snapshot h transcript)
  hs ← map_err ConnectionError.hkdf (handshake_secret h ikm)
  (c_hs_ts, s_hs_ts) ← map_err ConnectionError.hkdf (handshake_traffic_secrets h hs th_ch_sh)
  negotiated ab sh.cipher_suite (λ s. do
    s_hs_keys ← map_err ConnectionError.hkdf (derive s h s_hs_ts)
    ok record {
      transcript = transcript;
      state = record {
        hs = hs;
        c_hs_ts = c_hs_ts;
        s_hs_ts = s_hs_ts;
        s_hs_keys = s_hs_keys;
        seq_in = 0;
      };
    })
