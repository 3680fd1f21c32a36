-- ===== src/Tls/Hello.antt =====
-- krabitls/src/lib.rs, the parser of ServerHello, with every algorithm compiled in: the primary group
-- is X25519MLKEM768, the second one secp256r1. The loop over the extensions moves by at least four
-- bytes, so the length of the body is fuel enough. The size of an ML-KEM ciphertext is the library's:
-- a parameter.
pub mod Fields
use krabitls_rs.Base.{
  ℕ, zero, suc, ◌+◌, ◌||◌, ◌&&◌, List, [], ◌∷◌, length, drop, ltb, ◌==◌, not, if◌then◌else◌, Bool,
  true, false, Option, none, some, Result, ok, err, ◌>>=◌, ◌>>◌, fail_if, ok_or,
}
use krabitls_rs.Base.Bytes.{byte_at, from_be_bytes}
use krabitls_rs.Dtls.Hello.{hrr_random, ext_key_share, same_random}
use krabitls_rs.Tls.Aead.{legacy_version}
use krabitls_rs.Tls.ClientFlight.{ct_handshake}
use krabitls_rs.Tls.HelloErrors.{
  ParseError, unexpected_content_type, unexpected_legacy_version, unsupported_cipher_suite,
  unexpected_compression_method, bad_supported_versions, bad_key_share, length_mismatch,
  unknown_extension, duplicate_extension, unexpected_session_id_echo, hello_retry_requested,
  downgrade_detected,
}
use krabitls_rs.Tls.Hello.Fields.{Reader, new, at_end, take, u8, u16, vec_u8, vec_u16, vec_u24}

-- `HS_SERVER_HELLO`
abbrev pub hs_server_hello : ℕ
hs_server_hello = 2

-- `TLS_1_3`
abbrev pub tls_1_3 : ℕ
tls_1_3 = 0x0304

-- `LEGACY_SESSION_ID_LEN`
abbrev pub legacy_session_id_len : ℕ
legacy_session_id_len = 32

-- `CIPHER_AES_128_GCM_SHA256`
abbrev pub cipher_aes_128_gcm_sha256 : ℕ
cipher_aes_128_gcm_sha256 = 0x1301

-- `CIPHER_CHACHA20_POLY1305_SHA256`
abbrev pub cipher_chacha20_poly1305_sha256 : ℕ
cipher_chacha20_poly1305_sha256 = 0x1303

-- `NAMED_GROUP_SECP256R1`
abbrev pub named_group_secp256r1 : ℕ
named_group_secp256r1 = 0x0017

-- `KEY_SHARE_GROUP`, which is `NAMED_GROUP_X25519MLKEM768`
abbrev pub key_share_group : ℕ
key_share_group = 0x11EC

-- `EXT_SUPPORTED_VERSIONS`
abbrev pub ext_supported_versions : ℕ
ext_supported_versions = 43

-- `P256_SHARE_BYTES`
abbrev pub p256_share_bytes : ℕ
p256_share_bytes = 65

-- `DOWNGRADE_TLS12`
abbrev pub downgrade_tls12 : List ℕ
downgrade_tls12 = 68 ∷ 79 ∷ 87 ∷ 78 ∷ 71 ∷ 82 ∷ 68 ∷ 1 ∷ []

-- `DOWNGRADE_TLS11_OR_BELOW`
abbrev pub downgrade_tls11_or_below : List ℕ
downgrade_tls11_or_below = 68 ∷ 79 ∷ 87 ∷ 78 ∷ 71 ∷ 82 ∷ 68 ∷ 0 ∷ []

pub record ServerHelloView : Type 0 where
  pub random : List ℕ
  pub session_id_echo : List ℕ
  pub cipher_suite : ℕ
  pub selected_version : ℕ
  pub selected_group : ℕ
  pub x25519_share : Option (List ℕ)
  pub hybrid_share : Option (List ℕ)
  pub p256_share : Option (List ℕ)

-- What the loop of `parse_server_hello` has found so far.
pub record Shares : Type 0 where
  pub selected_version : Option ℕ
  pub selected_group : Option ℕ
  pub x25519_share : Option (List ℕ)
  pub hybrid_share : Option (List ℕ)
  pub p256_share : Option (List ℕ)

abbrev pub is_some {ℓ} : {A : Type ℓ} → Option A → Bool
is_some none = false
is_some (some a) = true

-- The share of the group that was selected.
unfoldable pub read_share : ℕ → Shares → ℕ → List ℕ → Result ParseError Shares
read_share mlkem768_ct_bytes f group key =
    if group == key_share_group
    then (do
      fail_if (ltb (length key) mlkem768_ct_bytes) bad_key_share
      let x = drop mlkem768_ct_bytes key
      fail_if (not (length x == 32)) bad_key_share
      ok (record f { x25519_share = some x; hybrid_share = some key }))
    else if group == named_group_secp256r1
    then (do
      fail_if (not (length key == p256_share_bytes)) bad_key_share
      ok (record f { p256_share = some key }))
    else err bad_key_share

-- The match on the type of an extension.
unfoldable pub read_hello_extension : ℕ → Shares → ℕ → List ℕ → Result ParseError Shares
read_hello_extension mlkem768_ct_bytes f ext_type ext_data =
    if ext_type == ext_supported_versions
    then (do
      fail_if (is_some f.selected_version) (duplicate_extension ext_type)
      fail_if (not (length ext_data == 2)) bad_supported_versions
      let v = from_be_bytes (byte_at ext_data 0 ∷ byte_at ext_data 1 ∷ [])
      fail_if (not (v == tls_1_3)) bad_supported_versions
      ok (record f { selected_version = some v }))
    else if ext_type == ext_key_share
    then (do
      fail_if (is_some f.selected_group) (duplicate_extension ext_type)
      (group, kr) ← u16 (new ext_data)
      (key, kr) ← vec_u16 kr
      fail_if (not (at_end kr)) bad_key_share
      f ← read_share mlkem768_ct_bytes f group key
      ok (record f { selected_group = some group }))
    else err (unknown_extension ext_type)

-- The loop over the extensions.
unfoldable pub hello_extensions : ℕ → ℕ → Reader → Shares → Result ParseError Shares
hello_extensions mlkem768_ct_bytes zero e f = err ParseError.truncated
hello_extensions mlkem768_ct_bytes (suc fuel) e f =
    let rest = λ (ext_type : ℕ) (next : List ℕ × Reader).
      read_hello_extension mlkem768_ct_bytes f ext_type next.0 >>= λ f'.
      hello_extensions mlkem768_ct_bytes fuel next.1 f' in
    if at_end e
    then ok f
    else (u16 e >>= λ ext_type. vec_u16 ext_type.1 >>= λ next. rest ext_type.0 next)

-- The body of the message, without the header of the record and that of the handshake.
unfoldable pub open_server_hello : List ℕ → Result ParseError (List ℕ)
open_server_hello input = do
  (content_type, r) ← u8 (new input)
  fail_if (not (content_type == ct_handshake)) (unexpected_content_type content_type)
  (record_version, r) ← u16 r
  fail_if (not (record_version == legacy_version)) (unexpected_legacy_version record_version)
  (record_body, r) ← vec_u16 r
  fail_if (not (at_end r)) ParseError.trailing_bytes
  (hs_type, hr) ← u8 (new record_body)
  fail_if (not (hs_type == hs_server_hello)) (ParseError.unexpected_handshake_type hs_type)
  (hs_body, hr) ← vec_u24 hr
  fail_if (not (at_end hr)) length_mismatch
  ok hs_body

-- The tests of the random, and the fields after it.
unfoldable pub check_random : List ℕ → Result ParseError (Unit {0})
check_random random = do
  fail_if (same_random random hrr_random) hello_retry_requested
  let suffix = drop 24 random
  fail_if (same_random suffix downgrade_tls12 || same_random suffix downgrade_tls11_or_below)
      downgrade_detected

unfoldable pub suite_accepted : ℕ → Bool
suite_accepted cipher_suite =
    cipher_suite == cipher_aes_128_gcm_sha256 || cipher_suite == cipher_chacha20_poly1305_sha256

unfoldable pub parse_server_hello : ℕ → List ℕ → Result ParseError ServerHelloView
parse_server_hello mlkem768_ct_bytes input = do
  hs_body ← open_server_hello input
  (version, b) ← u16 (new hs_body)
  fail_if (not (version == legacy_version)) (unexpected_legacy_version version)
  (random, b) ← take 32 b
  check_random random
  (session_id_echo, b) ← vec_u8 b
  fail_if (ltb legacy_session_id_len (length session_id_echo)) unexpected_session_id_echo
  (cipher_suite, b) ← u16 b
  fail_if (not (suite_accepted cipher_suite)) (unsupported_cipher_suite cipher_suite)
  (compression, b) ← u8 b
  fail_if (not (compression == 0)) (unexpected_compression_method compression)
  (ext_body, b) ← vec_u16 b
  fail_if (not (at_end b)) ParseError.trailing_bytes
  f ← hello_extensions mlkem768_ct_bytes (suc (length ext_body)) (new ext_body) record {
    selected_version = none;
    selected_group = none;
    x25519_share = none;
    hybrid_share = none;
    p256_share = none;
  }
  group ← ok_or f.selected_group bad_key_share
  fail_if (group == key_share_group && not (is_some f.x25519_share)) bad_key_share
  version ← ok_or f.selected_version bad_supported_versions
  ok record {
    random = random;
    session_id_echo = session_id_echo;
    cipher_suite = cipher_suite;
    selected_version = version;
    selected_group = group;
    x25519_share = f.x25519_share;
    hybrid_share = f.hybrid_share;
    p256_share = f.p256_share;
  }
