-- ===== src/Tls/Connection/Data.antt =====
-- krabitls/src/connection.rs, the data phase. Each operation gives the state after it; one that fails
-- leaves the connection as it was. A number of 64 bits wraps as in a release build.
use krabitls_rs.Base.{
  ℕ, ◌+◌, ◌%◌, ◌^◌, Bool, true, false, List, [], ◌∷◌, length, Result, ok, ◌>>=◌, map_err,
}
use krabitls_rs.Base.Bytes.{slice}
use krabitls_rs.Keys.Hkdf.{HkdfSha256}
use krabitls_rs.Keys.Schedule.{next_application_traffic_secret}
use krabitls_rs.Tls.Aead.Decrypt.{split_inner_plaintext}
use krabitls_rs.Tls.ClientFlight.{ct_handshake}
use krabitls_rs.Tls.Connection.{AppData, StepError, ConnectionError}
use krabitls_rs.Tls.RecordKeys.{CipherSuite, derive}
use krabitls_rs.Tls.RecordKeys

-- `HS_KEY_UPDATE`
abbrev pub hs_key_update : ℕ
hs_key_update = 24

unfoldable pub encrypt_record :
    CipherSuite → AppData → List ℕ → ℕ → ℕ → Result StepError (List ℕ × AppData)
encrypt_record s state content content_type out_len = do
  bytes ←
      map_err ConnectionError.encrypt
        (RecordKeys.encrypt_record s state.c_ap_keys content content_type state.seq_out out_len)
  ok (bytes, record state { seq_out = (state.seq_out + 1) % 2 ^ 64 })

-- The length of the content and its type, the record after the call, and the state.
unfoldable pub decrypt_record_inplace :
    CipherSuite → AppData → List ℕ → Result StepError (ℕ × ℕ × List ℕ × AppData)
decrypt_record_inplace s state bytes = do
  let (result, after) = RecordKeys.decrypt_record_inplace s state.s_ap_keys bytes state.seq_in
  inner_len ← map_err ConnectionError.decrypt result
  let inner = slice 5 (5 + inner_len) after
  (content, ct) ← map_err ConnectionError.decrypt (split_inner_plaintext inner)
  ok (length content, ct, after, record state { seq_in = (state.seq_in + 1) % 2 ^ 64 })

abbrev pub bool_as_u8 : Bool → ℕ
bool_as_u8 true = 1
bool_as_u8 false = 0

-- The message that `encrypt_key_update` encrypts.
abbrev pub key_update_msg : Bool → List ℕ
key_update_msg request_update = hs_key_update ∷ 0 ∷ 0 ∷ 1 ∷ bool_as_u8 request_update ∷ []

unfoldable pub encrypt_key_update :
    CipherSuite → AppData → Bool → ℕ → Result StepError (List ℕ × AppData)
encrypt_key_update s state request_update out_len =
    encrypt_record s state (key_update_msg request_update) ct_handshake out_len

unfoldable pub apply_recv_key_update : CipherSuite → HkdfSha256 → AppData → Result StepError AppData
apply_recv_key_update s h state = do
  next ← map_err ConnectionError.hkdf (next_application_traffic_secret h state.s_ap_ts)
  keys ← map_err ConnectionError.hkdf (derive s h next)
  ok (record state { s_ap_keys = keys; s_ap_ts = next; seq_in = 0 })

unfoldable pub apply_send_key_update : CipherSuite → HkdfSha256 → AppData → Result StepError AppData
apply_send_key_update s h state = do
  next ← map_err ConnectionError.hkdf (next_application_traffic_secret h state.c_ap_ts)
  keys ← map_err ConnectionError.hkdf (derive s h next)
  ok (record state { c_ap_keys = keys; c_ap_ts = next; seq_out = 0 })
