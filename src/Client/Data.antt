-- ===== src/Client/Data.antt =====
-- krabitls/src/client/engine.rs, the data phase: what `step` does with one record that was framed.
-- The state has what this part of the engine works on; plaintext is parked as the bytes that
-- `plain_start` and `plain_end` delimit, and a record to send as its bytes. The staged bytes of a
-- message are the first `stage_len` bytes of `stage`. Where an error is returned the engine is
-- closed, and its state is not used again. A record has less than 2^32 bytes, so the casts to `u32`
-- keep its length. Every turn of the loop over the messages takes a byte, so the length of the
-- content is fuel enough.
pub mod Received
pub mod Delivered
pub mod Stream
mod Tests
use krabitls_rs.Base.{
  ℕ, zero, suc, ◌+◌, ◌-◌, ◌%◌, ◌^◌, ◌&&◌, ◌||◌, min, Bool, true, false, not, List, [], ◌∷◌, ◌++◌,
  length, drop, ltb, ◌==◌, if◌then◌else◌, Option, none, some, Result, ok, err, ◌>>=◌, ◌>>◌, fail_if,
  map_err,
}
use krabitls_rs.Base.Bytes.{byte_at, slice, from_be_bytes}
use krabitls_rs.Client.Errors.{
  HandshakeError, record_too_large, post_handshake_not_supported, malformed_key_update,
  interleaved_post_handshake,
}
use krabitls_rs.Keys.Hkdf.{HkdfSha256}
use krabitls_rs.Tls.Aead.{ct_application_data, aead_tag_len}
use krabitls_rs.Tls.Aead.Decrypt.{DecryptError}
use krabitls_rs.Tls.ClientFlight.{ct_handshake}
use krabitls_rs.Tls.Connection.{AppData, ConnectionError}
use krabitls_rs.Tls.Connection.Data.{
  hs_key_update, decrypt_record_inplace, encrypt_key_update, apply_recv_key_update,
  apply_send_key_update,
}
use krabitls_rs.Tls.RecordKeys.{CipherSuite}

-- `CT_ALERT`
abbrev pub ct_alert : ℕ
ct_alert = 21

-- `HS_NEW_SESSION_TICKET`
abbrev pub hs_new_session_ticket : ℕ
hs_new_session_ticket = 4

-- `TLS_HEADER`
abbrev pub tls_header : ℕ
tls_header = 5

-- `PH_STAGE_MAX`
abbrev pub ph_stage_max : ℕ
ph_stage_max = 5

pub record PostHandshakeReasm : Type 0 where
  pub stage : List ℕ
  pub skip_remaining : ℕ

abbrev pub in_progress : PostHandshakeReasm → Bool
in_progress ph = not (length ph.stage == 0) || not (ph.skip_remaining == 0)

-- The part of `TlsEngine` that the data phase works on.
pub record TlsEngine : Type 0 where
  pub conn : AppData
  pub ph : PostHandshakeReasm
  pub closed : Bool
  pub plain : List ℕ
  pub send_pending : List ℕ
  pub our_recv_limit : ℕ
  pub send_len : ℕ

-- `while stage_len < limit && i < len`: what is staged, and the bytes that are left.
unfoldable pub stage_until : ℕ → List ℕ → List ℕ → List ℕ × List ℕ
stage_until limit stage [] = (stage, [])
stage_until limit stage (b ∷ bytes) =
    let more = stage_until limit (stage ++ (b ∷ [])) bytes in
    if ltb (length stage) limit then more else (stage, b ∷ bytes)

-- The match on the type of a message whose header is staged. `next` goes on after a session ticket;
-- `some` is a key update and its flag.
unfoldable pub handle_message :
    (PostHandshakeReasm → List ℕ → Result HandshakeError (PostHandshakeReasm × Option Bool))
    → List ℕ
    → List ℕ
    → Result HandshakeError (PostHandshakeReasm × Option Bool)
handle_message next stage bytes =
    let body_len = from_be_bytes (0 ∷ byte_at stage 1 ∷ byte_at stage 2 ∷ byte_at stage 3 ∷ []) in
    let n = min body_len (length bytes) in
    let (staged, rest) = stage_until ph_stage_max stage bytes in
    if byte_at stage 0 == hs_new_session_ticket
    then if ltb n body_len
      then ok (record { stage = []; skip_remaining = body_len - n }, none)
      else next (record { stage = []; skip_remaining = 0 }) (drop n bytes)
    else if byte_at stage 0 == hs_key_update
    then (do
      fail_if (not (body_len == 1)) malformed_key_update
      (if ltb (length staged) ph_stage_max
          then ok (record { stage = staged; skip_remaining = 0 }, none)
          else (do
            fail_if (not (length rest == 0)) malformed_key_update
            fail_if (ltb 1 (byte_at staged 4)) malformed_key_update
            ok (record { stage = []; skip_remaining = 0 }, some (byte_at staged 4 == 1)))))
    else err post_handshake_not_supported

-- The loop of `feed_post_handshake` on the bytes that are left of the content.
unfoldable pub feed_loop :
    ℕ → PostHandshakeReasm → List ℕ → Result HandshakeError (PostHandshakeReasm × Option Bool)
feed_loop zero ph bytes = ok (ph, none)
feed_loop (suc fuel) ph bytes =
    let n = min ph.skip_remaining (length bytes) in
    let (stage, rest) = stage_until 4 ph.stage (drop n bytes) in
    if ltb n ph.skip_remaining
    then ok (record ph { skip_remaining = ph.skip_remaining - n }, none)
    else if ltb (length stage) 4
    then ok (record { stage = stage; skip_remaining = 0 }, none)
    else handle_message (feed_loop fuel) stage rest

unfoldable pub process_key_update :
    CipherSuite → HkdfSha256 → TlsEngine → Bool → Result HandshakeError TlsEngine
process_key_update s h e update_requested = do
  conn ← map_err HandshakeError.connection (apply_recv_key_update s h e.conn)
  (if not update_requested then ok (record e { conn = conn }) else (do
    (bytes, conn) ← map_err HandshakeError.connection (encrypt_key_update s conn false e.send_len)
    conn ← map_err HandshakeError.connection (apply_send_key_update s h conn)
    ok (record e { conn = conn; send_pending = bytes })))

unfoldable pub feed_post_handshake :
    CipherSuite → HkdfSha256 → TlsEngine → List ℕ → Result HandshakeError TlsEngine
feed_post_handshake s h e content = do
  (ph, update) ← feed_loop (suc (length content)) e.ph content
  let e = record e { ph = ph }
  elim update [ none ↦ ok e | some update_requested ↦ process_key_update s h e update_requested ]

-- The branch of an alert.
unfoldable pub read_alert : TlsEngine → List ℕ → Result HandshakeError TlsEngine
read_alert e content = do
  fail_if (ltb (length content) 2)
      (HandshakeError.connection (ConnectionError.decrypt DecryptError.truncated))
  let level = byte_at content 0
  let description = byte_at content 1
  (if (level == 1) && (description == 0)
      then ok (record e { closed = true })
      else err (HandshakeError.connection (ConnectionError.alert level description)))

unfoldable pub handle_inner_content :
    CipherSuite → HkdfSha256 → TlsEngine → List ℕ → ℕ → Result HandshakeError TlsEngine
handle_inner_content s h e content inner_ct = do
  fail_if (not (inner_ct == ct_handshake) && in_progress e.ph) interleaved_post_handshake
  (if inner_ct == ct_application_data
      then ok (if length content == 0 then e else record e { plain = content })
      else if inner_ct == ct_alert
      then read_alert e content
      else if inner_ct == ct_handshake
      then feed_post_handshake s h e content
      else err (HandshakeError.connection (ConnectionError.unknown_content_type inner_ct)))

-- One framed record in the data phase.
unfoldable pub dispatch_data_record_inner :
    CipherSuite → HkdfSha256 → TlsEngine → List ℕ → ℕ → Result HandshakeError TlsEngine
dispatch_data_record_inner s h e bytes outer_type = do
  fail_if (not (outer_type == ct_application_data))
      (HandshakeError.connection (ConnectionError.unknown_content_type outer_type))
  let length_field = length bytes - tls_header
  fail_if (ltb (e.our_recv_limit + aead_tag_len) length_field)
      (record_too_large e.our_recv_limit (length_field % 2 ^ 16))
  (content_len, inner_ct, after, conn) ←
      map_err HandshakeError.connection (decrypt_record_inplace s e.conn bytes)
  handle_inner_content s h (record e { conn = conn })
      (slice tls_header (tls_header + content_len) after) inner_ct
