-- ===== src/Keys/Schedule.antt =====
-- krabitls/src/hkdf.rs: the key schedules of TLS 1.3 and DTLS 1.3, which differ in the prefix of the
-- labels, and TranscriptHash. A traffic key has as many bytes as the suite asks for.
pub mod Total
use krabitls_rs.Base.{
  ℕ, ◌+◌, List, [], ◌∷◌, ◌++◌, length, drop, take, replicate, ltb, Result, ok, err, ◌>>=◌, ◌>>◌,
  fail_if, map_err,
}
use krabitls_rs.Base.Bytes.{byte_at, slice, from_be_bytes}
use krabitls_rs.Keys.Hkdf.{
  HkdfSha256, HkdfBackendError, HkdfLabelError, hkdf_expand_label, dtls_expand_label,
}

-- The hasher of `TranscriptHash`: what was fed to it.
pub record TranscriptHash : Type 0 where
  pub fed : List ℕ

pub data TranscriptError : Type 0 where
  record_too_short : TranscriptError
  backend : HkdfBackendError → TranscriptError

abbrev pub new : TranscriptHash
new = record { fed = [] }

abbrev pub update : TranscriptHash → List ℕ → TranscriptHash
update t msg = record { fed = t.fed ++ msg }

unfoldable pub update_record : TranscriptHash → List ℕ → Result TranscriptError TranscriptHash
update_record t bytes = do
  fail_if (ltb (length bytes) 5) record_too_short
  let body_len = from_be_bytes (byte_at bytes 3 ∷ byte_at bytes 4 ∷ [])
  let end = 5 + body_len
  fail_if (ltb (length bytes) end) record_too_short
  ok (update t (slice 5 end bytes))

abbrev pub snapshot : HkdfSha256 → TranscriptHash → Result TranscriptError (List ℕ)
snapshot h t = map_err TranscriptError.backend (h.snapshot t.fed)

-- `H::extract` under `?` in a function that returns `HkdfLabelError`.
abbrev pub extract : HkdfSha256 → List ℕ → List ℕ → Result HkdfLabelError (List ℕ)
extract h salt ikm = map_err HkdfLabelError.backend (h.extract salt ikm)

-- The labels.

-- "derived"
abbrev pub derived : List ℕ
derived = 100 ∷ 101 ∷ 114 ∷ 105 ∷ 118 ∷ 101 ∷ 100 ∷ []

-- "c hs traffic"
abbrev pub c_hs_traffic : List ℕ
c_hs_traffic = 99 ∷ 32 ∷ 104 ∷ 115 ∷ 32 ∷ 116 ∷ 114 ∷ 97 ∷ 102 ∷ 102 ∷ 105 ∷ 99 ∷ []

-- "s hs traffic"
abbrev pub s_hs_traffic : List ℕ
s_hs_traffic = 115 ∷ 32 ∷ 104 ∷ 115 ∷ 32 ∷ 116 ∷ 114 ∷ 97 ∷ 102 ∷ 102 ∷ 105 ∷ 99 ∷ []

-- "c ap traffic"
abbrev pub c_ap_traffic : List ℕ
c_ap_traffic = 99 ∷ 32 ∷ 97 ∷ 112 ∷ 32 ∷ 116 ∷ 114 ∷ 97 ∷ 102 ∷ 102 ∷ 105 ∷ 99 ∷ []

-- "s ap traffic"
abbrev pub s_ap_traffic : List ℕ
s_ap_traffic = 115 ∷ 32 ∷ 97 ∷ 112 ∷ 32 ∷ 116 ∷ 114 ∷ 97 ∷ 102 ∷ 102 ∷ 105 ∷ 99 ∷ []

-- "traffic upd"
abbrev pub traffic_upd : List ℕ
traffic_upd = 116 ∷ 114 ∷ 97 ∷ 102 ∷ 102 ∷ 105 ∷ 99 ∷ 32 ∷ 117 ∷ 112 ∷ 100 ∷ []

-- "key"
abbrev pub key_label : List ℕ
key_label = 107 ∷ 101 ∷ 121 ∷ []

-- "iv"
abbrev pub iv_label : List ℕ
iv_label = 105 ∷ 118 ∷ []

-- "sn"
abbrev pub sn_label : List ℕ
sn_label = 115 ∷ 110 ∷ []

-- "finished"
abbrev pub finished_label : List ℕ
finished_label = 102 ∷ 105 ∷ 110 ∷ 105 ∷ 115 ∷ 104 ∷ 101 ∷ 100 ∷ []

-- `EMPTY_TRANSCRIPT_HASH`
abbrev pub empty_transcript_hash : List ℕ
empty_transcript_hash =
    0xe3 ∷ 0xb0 ∷ 0xc4 ∷ 0x42 ∷ 0x98 ∷ 0xfc ∷ 0x1c ∷ 0x14 ∷ 0x9a ∷ 0xfb ∷ 0xf4 ∷ 0xc8 ∷ 0x99 ∷ 0x6f
    ∷ 0xb9 ∷ 0x24 ∷ 0x27 ∷ 0xae ∷ 0x41 ∷ 0xe4 ∷ 0x64 ∷ 0x9b ∷ 0x93 ∷ 0x4c ∷ 0xa4 ∷ 0x95 ∷ 0x99
    ∷ 0x1b ∷ 0x78 ∷ 0x52 ∷ 0xb8 ∷ 0x55 ∷ []

unfoldable pub early_secret : HkdfSha256 → Result HkdfLabelError (List ℕ)
early_secret h = extract h (replicate 32 0) (replicate 32 0)

unfoldable pub derive_secret :
    HkdfSha256 → List ℕ → List ℕ → List ℕ → Result HkdfLabelError (List ℕ)
derive_secret h secret label transcript_hash = hkdf_expand_label h secret label transcript_hash 32

-- Of `dhe`, which has 32 or 64 bytes; a debug build panics on another length.
unfoldable pub handshake_secret : HkdfSha256 → List ℕ → Result HkdfLabelError (List ℕ)
handshake_secret h dhe = do
  early ← early_secret h
  salt ← derive_secret h early derived empty_transcript_hash
  extract h salt dhe

unfoldable pub handshake_traffic_secrets :
    HkdfSha256 → List ℕ → List ℕ → Result HkdfLabelError (List ℕ × List ℕ)
handshake_traffic_secrets h hs transcript_hash_ch_sh = do
  client ← derive_secret h hs c_hs_traffic transcript_hash_ch_sh
  server ← derive_secret h hs s_hs_traffic transcript_hash_ch_sh
  ok (client, server)

-- The key of `n` bytes and the vector of 12.
unfoldable pub traffic_keys : HkdfSha256 → ℕ → List ℕ → Result HkdfLabelError (List ℕ × List ℕ)
traffic_keys h n traffic_secret = do
  key ← hkdf_expand_label h traffic_secret key_label [] n
  iv ← hkdf_expand_label h traffic_secret iv_label [] 12
  ok (key, iv)

unfoldable pub master_secret : HkdfSha256 → List ℕ → Result HkdfLabelError (List ℕ)
master_secret h handshake = do
  salt ← derive_secret h handshake derived empty_transcript_hash
  extract h salt (replicate 32 0)

unfoldable pub application_traffic_secrets :
    HkdfSha256 → List ℕ → List ℕ → Result HkdfLabelError (List ℕ × List ℕ)
application_traffic_secrets h master transcript_hash = do
  client ← derive_secret h master c_ap_traffic transcript_hash
  server ← derive_secret h master s_ap_traffic transcript_hash
  ok (client, server)

unfoldable pub finished_mac : HkdfSha256 → List ℕ → List ℕ → Result HkdfLabelError (List ℕ)
finished_mac h traffic_secret transcript_hash = do
  finished_key ← hkdf_expand_label h traffic_secret finished_label [] 32
  extract h finished_key transcript_hash

unfoldable pub dtls_derive_secret :
    HkdfSha256 → List ℕ → List ℕ → List ℕ → Result HkdfLabelError (List ℕ)
dtls_derive_secret h secret label transcript_hash =
    dtls_expand_label h secret label transcript_hash 32

unfoldable pub dtls_handshake_secret : HkdfSha256 → List ℕ → Result HkdfLabelError (List ℕ)
dtls_handshake_secret h dhe = do
  early ← early_secret h
  salt ← dtls_derive_secret h early derived empty_transcript_hash
  extract h salt dhe

unfoldable pub dtls_handshake_traffic_secrets :
    HkdfSha256 → List ℕ → List ℕ → Result HkdfLabelError (List ℕ × List ℕ)
dtls_handshake_traffic_secrets h hs transcript_hash_ch_sh = do
  client ← dtls_derive_secret h hs c_hs_traffic transcript_hash_ch_sh
  server ← dtls_derive_secret h hs s_hs_traffic transcript_hash_ch_sh
  ok (client, server)

-- The key of `n` bytes and the vector of 12.
unfoldable pub dtls_traffic_keys : HkdfSha256 → ℕ → List ℕ → Result HkdfLabelError (List ℕ × List ℕ)
dtls_traffic_keys h n traffic_secret = do
  key ← dtls_expand_label h traffic_secret key_label [] n
  iv ← dtls_expand_label h traffic_secret iv_label [] 12
  ok (key, iv)

unfoldable pub dtls_master_secret : HkdfSha256 → List ℕ → Result HkdfLabelError (List ℕ)
dtls_master_secret h handshake = do
  salt ← dtls_derive_secret h handshake derived empty_transcript_hash
  extract h salt (replicate 32 0)

unfoldable pub dtls_application_traffic_secrets :
    HkdfSha256 → List ℕ → List ℕ → Result HkdfLabelError (List ℕ × List ℕ)
dtls_application_traffic_secrets h master transcript_hash = do
  client ← dtls_derive_secret h master c_ap_traffic transcript_hash
  server ← dtls_derive_secret h master s_ap_traffic transcript_hash
  ok (client, server)

unfoldable pub dtls_finished_mac : HkdfSha256 → List ℕ → List ℕ → Result HkdfLabelError (List ℕ)
dtls_finished_mac h traffic_secret transcript_hash = do
  finished_key ← dtls_expand_label h traffic_secret finished_label [] 32
  extract h finished_key transcript_hash

unfoldable pub sn_key : HkdfSha256 → ℕ → List ℕ → Result HkdfLabelError (List ℕ)
sn_key h n traffic_secret = dtls_expand_label h traffic_secret sn_label [] n

unfoldable pub next_application_traffic_secret :
    HkdfSha256 → List ℕ → Result HkdfLabelError (List ℕ)
next_application_traffic_secret h secret = hkdf_expand_label h secret traffic_upd [] 32
