-- ===== src/Tls/Aead/Encrypt.antt =====
-- krabitls/src/aead.rs, encrypt_record_with: one inner plaintext into an `application_data` record.
use krabitls_rs.Base.{
  ℕ, ◌+◌, ◌%◌, ◌^◌, List, [], ◌∷◌, ◌++◌, length, ltb, Result, ok, ◌>>=◌, ◌>>◌, fail_if, ok_or,
}
use krabitls_rs.Base.Bytes.{to_be_bytes}
use krabitls_rs.Tls.Aead.{
  Cipher, aead_nonce, ct_application_data, legacy_version, tls_plaintext_max, tls_ciphertext_max,
  aead_tag_len,
}

pub data EncryptError : Type 0 where
  buffer_too_small : ℕ → ℕ → EncryptError
  record_too_large : EncryptError
  aead_failed : EncryptError

-- The five bytes of the record header, which are the associated data.
abbrev pub record_aad : ℕ → List ℕ
record_aad body_len =
    ct_application_data ∷ (to_be_bytes 2 legacy_version ++ to_be_bytes 2 (body_len % 2 ^ 16))

unfoldable pub encrypt_record_with :
    Cipher → List ℕ → ℕ → List ℕ → ℕ → ℕ → Result EncryptError (List ℕ)
encrypt_record_with cipher content content_type iv seq out_len = do
  fail_if (ltb tls_plaintext_max (length content)) record_too_large
  let inner_len = length content + 1
  let cipher_body_len = inner_len + aead_tag_len
  let total_len = cipher_body_len + 5
  fail_if (ltb tls_ciphertext_max cipher_body_len) record_too_large
  fail_if (ltb out_len total_len) (buffer_too_small total_len out_len)
  let aad = record_aad cipher_body_len
  (body, tag) ←
      ok_or (cipher.encrypt (aead_nonce iv seq) aad (content ++ (content_type ∷ []))) aead_failed
  ok (aad ++ (body ++ tag))
