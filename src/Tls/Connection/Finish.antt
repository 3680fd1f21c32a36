-- ===== src/Tls/Connection/Finish.antt =====
-- krabitls/src/connection.rs, from the verified flight to application data.
use krabitls_rs.Base.{
  ℕ, zero, suc, ◌+◌, ◌-◌, max, List, [], ◌∷◌, ◌++◌, length, take, drop, Result, ok, ◌>>=◌, map_err,
}
use krabitls_rs.Keys.Hkdf.{HkdfSha256, HkdfLabelError}
use krabitls_rs.Keys.Schedule.{snapshot, master_secret, application_traffic_secrets}
use krabitls_rs.Tls.ClientFlight.{ct_handshake, ClientFinishedError, build_client_finished}
use krabitls_rs.Tls.ClientFlight.Policies.{ClientAuthPolicy, build_flight}
use krabitls_rs.Tls.Connection.{
  TlsConnection, ServerFlightDone, AppData, StepError, ConnectionError,
}
use krabitls_rs.Tls.RecordKeys.{CipherSuite, RecordKeys, derive, encrypt_record}

-- `CONTENT_TYPE_LEN`
abbrev pub content_type_len : ℕ
content_type_len = 1

-- The application keys and secrets, with both numbers at 0.
unfoldable pub app_data :
    (List ℕ → Result HkdfLabelError RecordKeys)
    → HkdfSha256
    → List ℕ
    → List ℕ
    → Result HkdfLabelError AppData
app_data derive_record_keys h hs th_through_sfin = do
  ms ← master_secret h hs
  (c_ap_ts, s_ap_ts) ← application_traffic_secrets h ms th_through_sfin
  c_ap_keys ← derive_record_keys c_ap_ts
  s_ap_keys ← derive_record_keys s_ap_ts
  ok record {
    c_ap_keys = c_ap_keys;
    s_ap_keys = s_ap_keys;
    c_ap_ts = c_ap_ts;
    s_ap_ts = s_ap_ts;
    seq_out = 0;
    seq_in = 0;
  }

unfoldable pub finish_handshake_inner :
    HkdfSha256
    → List ℕ
    → List ℕ
    → List ℕ
    → ℕ
    → (List ℕ → List ℕ → ℕ → ℕ → Result ClientFinishedError (List ℕ))
    → (List ℕ → Result HkdfLabelError RecordKeys)
    → Result StepError (List ℕ × AppData)
finish_handshake_inner h hs c_hs_ts th_through_sfin out_len build derive_record_keys = do
  bytes ← map_err ConnectionError.client_finished (build c_hs_ts th_through_sfin 0 out_len)
  state ← map_err ConnectionError.hkdf (app_data derive_record_keys h hs th_through_sfin)
  ok (bytes, state)

-- The record to send, and the connection.
unfoldable pub finish_handshake :
    CipherSuite
    → HkdfSha256
    → TlsConnection ServerFlightDone
    → ℕ
    → Result StepError (List ℕ × TlsConnection AppData)
finish_handshake s h conn out_len = do
  th ← map_err ConnectionError.transcript (snapshot h conn.transcript)
  (bytes, state) ←
      finish_handshake_inner h conn.state.hs conn.state.c_hs_ts th out_len
        (build_client_finished s h) (derive s h)
  ok (bytes, record { transcript = conn.transcript; state = state })

-- The loop over `plaintext.chunks(max_chunk).enumerate()` from chunk `i`; every chunk has a byte, so
-- the length of the plaintext is fuel enough.
unfoldable pub chunk_loop :
    ℕ → CipherSuite → RecordKeys → ℕ → ℕ → List ℕ → ℕ → List ℕ → Result StepError (List ℕ)
chunk_loop fuel s keys max_chunk i [] out_len written = ok written
chunk_loop zero s keys max_chunk i (b ∷ rest) out_len written = ok written
chunk_loop (suc fuel) s keys max_chunk i (b ∷ rest) out_len written =
    map_err ConnectionError.encrypt
      (encrypt_record s keys (take max_chunk (b ∷ rest)) ct_handshake i (out_len - length written))
    >>= λ bytes.
        chunk_loop fuel s keys max_chunk (i + 1) (drop max_chunk (b ∷ rest)) out_len
          (written ++ bytes)

unfoldable pub encrypt_handshake_flight :
    CipherSuite → RecordKeys → List ℕ → ℕ → ℕ → Result StepError (List ℕ)
encrypt_handshake_flight s keys plaintext peer_rsl out_len =
    chunk_loop (length plaintext) s keys (max (peer_rsl - content_type_len) 1) 0 plaintext out_len
      []

-- A debug build also panics when the policy built more than its declared bound.
unfoldable pub finish_handshake_with_policy :
    CipherSuite
    → HkdfSha256
    → TlsConnection ServerFlightDone
    → ClientAuthPolicy
    → List ℕ
    → List ℕ
    → ℕ
    → ℕ
    → ℕ
    → Result StepError (List ℕ × TlsConnection AppData)
finish_handshake_with_policy s h conn policy context sig_algs peer_rsl scratch_len out_len = do
  th_through_sfin ← map_err ConnectionError.transcript (snapshot h conn.transcript)
  (plaintext, transcript) ←
      map_err ConnectionError.client_auth
        (build_flight policy h context sig_algs conn.state.c_hs_ts conn.transcript scratch_len)
  keys ← map_err ConnectionError.hkdf (derive s h conn.state.c_hs_ts)
  bytes ← encrypt_handshake_flight s keys plaintext peer_rsl out_len
  state ← map_err ConnectionError.hkdf (app_data (derive s h) h conn.state.hs th_through_sfin)
  ok (bytes, record { transcript = transcript; state = state })
