-- ===== src/Tls/Aead/Decrypt.antt =====
-- krabitls/src/aead.rs, decrypt_record_inplace_with and split_inner_plaintext.
use krabitls_rs.Base.{
  ℕ, ◌+◌, ◌-◌, List, [], ◌∷◌, ◌++◌, length, take, drop, replicate, ltb, ◌==◌, if◌then◌else◌, not,
  Result, ok, err, ◌>>◌, fail_if,
}
use krabitls_rs.Base.Bytes.{byte_at, from_be_bytes}
use krabitls_rs.Tls.Aead.{
  Cipher, aead_nonce, ct_application_data, legacy_version, tls_plaintext_max, tls_ciphertext_max,
}

pub data DecryptError : Type 0 where
  truncated record_too_large trailing_bytes : DecryptError
  unexpected_content_type unexpected_legacy_version : ℕ → DecryptError
  buffer_too_small : ℕ → ℕ → DecryptError
  aead_failed empty_inner_plaintext : DecryptError

-- The tests before the decryption; the length of the body when they pass.
unfoldable pub check_record : List ℕ → Result DecryptError ℕ
check_record bytes = do
  fail_if (ltb (length bytes) 5) truncated
  let content_type = byte_at bytes 0
  fail_if (not (content_type == ct_application_data)) (unexpected_content_type content_type)
  let version = from_be_bytes (byte_at bytes 1 ∷ byte_at bytes 2 ∷ [])
  fail_if (not (version == legacy_version)) (unexpected_legacy_version version)
  let body_len = from_be_bytes (byte_at bytes 3 ∷ byte_at bytes 4 ∷ [])
  fail_if (ltb tls_ciphertext_max body_len) record_too_large
  fail_if (ltb (length bytes) (5 + body_len)) truncated
  fail_if (not (length bytes == 5 + body_len)) trailing_bytes
  fail_if (ltb body_len 16) truncated
  ok body_len

-- The decryption: the plaintext replaces the ciphertext, or zeros do.
unfoldable pub open_record : Cipher → List ℕ → ℕ → List ℕ → ℕ → Result DecryptError ℕ × List ℕ
open_record cipher iv seq bytes body_len =
    let ct_len = body_len - 16 in
    let header = take 5 bytes in
    let body = drop 5 bytes in
    let tag = drop ct_len body in
    let (opened, buffer) = cipher.decrypt (aead_nonce iv seq) header (take ct_len body) tag in
    if opened
    then (ok ct_len, header ++ (buffer ++ tag))
    else (err aead_failed, header ++ (replicate (length buffer) 0 ++ tag))

-- The result, and the record after the call.
unfoldable pub decrypt_record_inplace_with :
    Cipher → List ℕ → ℕ → List ℕ → Result DecryptError ℕ × List ℕ
decrypt_record_inplace_with cipher iv seq bytes = elim (check_record bytes) [
  | err e ↦ (err e, bytes)
  | ok body_len ↦ open_record cipher iv seq bytes body_len
]

-- The loop of `split_inner_plaintext`, from index `i`: the position after the last byte that is
-- not zero, and that byte, each chosen by a conditional select.
unfoldable pub scan_inner : ℕ → ℕ → ℕ → List ℕ → ℕ × ℕ
scan_inner i last_nonzero_plus_one content_type [] = (last_nonzero_plus_one, content_type)
scan_inner i last_nonzero_plus_one content_type (b ∷ inner) =
    scan_inner (i + 1) (if b == 0 then last_nonzero_plus_one else i + 1)
      (if b == 0 then content_type else b) inner

unfoldable pub split_inner_plaintext : List ℕ → Result DecryptError (List ℕ × ℕ)
split_inner_plaintext inner = do
  fail_if (ltb tls_ciphertext_max (length inner)) record_too_large
  let (end, content_type) = scan_inner 0 0 0 inner
  fail_if (end == 0) empty_inner_plaintext
  fail_if (ltb tls_plaintext_max (end - 1)) record_too_large
  ok (take (end - 1) inner, content_type)
