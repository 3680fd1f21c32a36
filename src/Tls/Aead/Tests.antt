-- ===== src/Tls/Aead/Tests.antt =====
-- Runs of the record layer under the repository's no-op test cipher and a cipher that refuses, and
-- the theorems at concrete inputs.
use krabitls_rs.Base.{
  ℕ, ◌≤◌, ◌≡◌, ◌≢◌, ◌⊎◌, ◌↔◌, refl, List, [], ◌∷◌, ◌++◌, take, drop, replicate, some, true, false,
  ok, err, arith,
}
use krabitls_rs.Base.Bytes.{slice, from_be_bytes}
use krabitls_rs.Tls.Aead.{
  Cipher, IsAead, xor_into, aead_nonce, tls_plaintext_max, tls_ciphertext_max,
}
use krabitls_rs.Tls.Aead.Nonce.{aead_nonce_distinct}
use krabitls_rs.Tls.Aead.Encrypt.{encrypt_record_with}
use krabitls_rs.Tls.Aead.Decrypt.{
  aead_failed, check_record, open_record, decrypt_record_inplace_with, scan_inner,
  split_inner_plaintext,
}
use krabitls_rs.Tls.Aead.Inner.{inner_plaintext, split_inner_plaintext_iff}
use krabitls_rs.Tls.Aead.RoundTrip.{decrypt-encrypt}
use krabitls_rs.Tls.Aead.Refused.{cleared, decrypt_refused}

-- `NoopAead` of the tests in aead.rs.
abbrev pub noop_cipher : Cipher
noop_cipher = record {
  encrypt = λ nonce aad plain. some (plain, replicate 16 0);
  decrypt = λ nonce aad buffer tag. (true, buffer);
}

pub noop_cipher-IsAead : IsAead noop_cipher
noop_cipher-IsAead = record { encrypt-length = λ h. (cc h, cc h); decrypt-encrypt = λ h. cc h }

abbrev refusing_cipher : Cipher
refusing_cipher = record {
  encrypt = λ nonce aad plain. some (plain, replicate 16 0);
  decrypt = λ nonce aad buffer tag. (false, buffer);
}

abbrev zero_iv : List ℕ
zero_iv = replicate 12 0

abbrev handshake_type : ℕ
handshake_type = 23

abbrev hello : List ℕ
hello = 104 ∷ 105 ∷ []

-- What the no-op cipher makes of "hi".
abbrev hello_record : List ℕ
hello_record = 23 ∷ 3 ∷ 3 ∷ 0 ∷ 19 ∷ 104 ∷ 105 ∷ 23 ∷ replicate 16 0

hello_written : encrypt_record_with noop_cipher hello 23 zero_iv 7 64 ≡ ok hello_record
unfolding encrypt_record_with
hello_written = refl

padded : split_inner_plaintext (0 ∷ 0 ∷ 171 ∷ 23 ∷ 0 ∷ 0 ∷ []) ≡ ok (0 ∷ 0 ∷ 171 ∷ [], 23)
unfolding split_inner_plaintext scan_inner take
padded = refl

all_zero : aead_nonce zero_iv 258 ≡ replicate 10 0 ++ (1 ∷ 2 ∷ [])
unfolding aead_nonce xor_into take drop
all_zero = refl

hello_refused :
    decrypt_record_inplace_with refusing_cipher zero_iv 7 hello_record
    ≡ (err aead_failed, take 5 hello_record ++ replicate 19 0)
unfolding decrypt_record_inplace_with check_record open_record take drop from_be_bytes
hello_refused = refl

aead_nonce_distinct_example : aead_nonce zero_iv 258 ≢ aead_nonce zero_iv 513
aead_nonce_distinct_example =
    aead_nonce_distinct zero_iv 258 513 refl (omega arith) (omega arith) (λ h. omega arith)

split_inner_plaintext_iff_example : (split_inner_plaintext (5 ∷ 23 ∷ 0 ∷ []) ≡ ok (5 ∷ [], 23)) ↔ (
    (k : ℕ) × (5 ∷ 23 ∷ 0 ∷ [] ≡ inner_plaintext (5 ∷ []) 23 k)
    × (handshake_type ≢ 0)
    × (3 ≤ tls_ciphertext_max)
    × (1 ≤ tls_plaintext_max))
split_inner_plaintext_iff_example = split_inner_plaintext_iff (5 ∷ 23 ∷ 0 ∷ []) (5 ∷ []) 23

decrypt-encrypt_example :
    (after : List ℕ) × (decrypt_record_inplace_with noop_cipher zero_iv 7 hello_record
      ≡ (ok 3, after))
    × (slice 5 8 after ≡ hello ++ (23 ∷ []))
    × (split_inner_plaintext (slice 5 8 after) ≡ ok (hello, 23))
decrypt-encrypt_example =
    decrypt-encrypt noop_cipher noop_cipher-IsAead hello 23 zero_iv 7 64 hello_record
      (λ h. omega arith) hello_written

decrypt_refused_example :
    ((take 5 hello_record ++ replicate 19 0 ≡ hello_record)
      × (check_record hello_record ≡ err aead_failed))
    ⊎ ((aead_failed ≡ aead_failed) × (take 5 hello_record ++ replicate 19 0 ≡ cleared hello_record))
decrypt_refused_example =
    decrypt_refused refusing_cipher (λ nonce aad body tag. refl) zero_iv 7 hello_record
      (take 5 hello_record ++ replicate 19 0) aead_failed hello_refused
