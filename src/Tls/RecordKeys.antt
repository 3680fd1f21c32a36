-- ===== src/Tls/RecordKeys.antt =====
-- krabitls/src/aead.rs, RecordKeys and the trait CipherSuite. A suite is the length of its keys and
-- the cipher that `make_cipher` expands from a key; both are parameters.
use krabitls_rs.Base.{ℕ, List, Result, ok, ◌>>=◌}
use krabitls_rs.Keys.Hkdf.{HkdfSha256, HkdfLabelError}
use krabitls_rs.Keys.Schedule.{traffic_keys}
use krabitls_rs.Tls.Aead.{Cipher}
use krabitls_rs.Tls.Aead.Encrypt.{EncryptError, encrypt_record_with}
use krabitls_rs.Tls.Aead.Decrypt.{DecryptError, decrypt_record_inplace_with}

pub record CipherSuite : Type 0 where
  pub key_len : ℕ
  pub make_cipher : List ℕ → Cipher

pub record RecordKeys : Type 0 where
  pub key : List ℕ
  pub iv : List ℕ

unfoldable pub derive : CipherSuite → HkdfSha256 → List ℕ → Result HkdfLabelError RecordKeys
derive s h traffic_secret = do
  (key, iv) ← traffic_keys h s.key_len traffic_secret
  ok record { key = key; iv = iv }

abbrev pub encrypt_record :
    CipherSuite → RecordKeys → List ℕ → ℕ → ℕ → ℕ → Result EncryptError (List ℕ)
encrypt_record s keys content content_type seq out_len =
    encrypt_record_with (s.make_cipher keys.key) content content_type keys.iv seq out_len

-- The result, and the record after the call.
abbrev pub decrypt_record_inplace :
    CipherSuite → RecordKeys → List ℕ → ℕ → Result DecryptError ℕ × List ℕ
decrypt_record_inplace s keys bytes seq =
    decrypt_record_inplace_with (s.make_cipher keys.key) keys.iv seq bytes
