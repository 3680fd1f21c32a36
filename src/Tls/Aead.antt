-- ===== src/Tls/Aead.antt =====
-- krabitls/src/aead.rs: TLS 1.3 record protection. The cipher is third-party code: a parameter of
-- the model, with what the code relies on as `IsAead`. Buffers that are worked on in place are
-- values before and after; of an output buffer only the length counts.
pub mod Nonce
pub mod Encrypt
pub mod Decrypt
pub mod Inner
pub mod RoundTrip
pub mod Refused
mod Tests
use krabitls_rs.Base.{
  ℕ, ◌+◌, ◌^◌, ◌≡◌, bit_xor, Bool, true, List, [], ◌∷◌, ◌++◌, length, take, drop, Option, some,
}
use krabitls_rs.Base.Bytes.{to_be_bytes}

-- A cipher under a key. `encrypt` has the nonce, the associated data and the buffer, and gives the
-- buffer after the call and the tag, or fails; `decrypt` also has the tag, and gives whether the
-- tag is right, and the buffer after the call in either case.
pub record Cipher : Type 0 where
  pub encrypt : List ℕ → List ℕ → List ℕ → Option (List ℕ × List ℕ)
  pub decrypt : List ℕ → List ℕ → List ℕ → List ℕ → Bool × List ℕ

-- What a detached AEAD with a 16-byte tag promises.
pub record IsAead (cipher : Cipher) : Type 0 where
  pub encrypt-length :
      {nonce aad plain out tag : List ℕ}
      → cipher.encrypt nonce aad plain ≡ some (out, tag)
      → (length out ≡ length plain) × (length tag ≡ 16)
  pub decrypt-encrypt :
      {nonce aad plain out tag : List ℕ}
      → cipher.encrypt nonce aad plain ≡ some (out, tag)
      → cipher.decrypt nonce aad out tag ≡ (true, plain)

-- `CT_APPLICATION_DATA`
abbrev pub ct_application_data : ℕ
ct_application_data = 23

-- `LEGACY_VERSION`
abbrev pub legacy_version : ℕ
legacy_version = 0x0303

-- `TLS_PLAINTEXT_MAX`
abbrev pub tls_plaintext_max : ℕ
tls_plaintext_max = 2 ^ 14

-- `TLS_CIPHERTEXT_MAX`
abbrev pub tls_ciphertext_max : ℕ
tls_ciphertext_max = 2 ^ 14 + 256

-- `AEAD_TAG_LEN`
abbrev pub aead_tag_len : ℕ
aead_tag_len = 16

-- `for (n, s) in dst.iter_mut().zip(src) { *n ^= s }`
unfoldable pub xor_into : List ℕ → List ℕ → List ℕ
xor_into [] src = []
xor_into (n ∷ dst) [] = n ∷ dst
xor_into (n ∷ dst) (s ∷ src) = bit_xor n s ∷ xor_into dst src

-- The last eight of the twelve bytes of `iv` take the number.
unfoldable pub aead_nonce : List ℕ → ℕ → List ℕ
aead_nonce iv seq = take 4 iv ++ xor_into (drop 4 iv) (to_be_bytes 8 seq)
