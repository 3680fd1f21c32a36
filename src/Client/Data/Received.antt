-- ===== src/Client/Data/Received.antt =====
-- What the data phase of krabitls/src/client/engine.rs makes of one record of a peer that is in step.
use krabitls_rs.Base.{
  ℕ, suc, ◌+◌, ◌-◌, ◌≤◌, ◌≡◌, ◌≢◌, refl, Bool, true, false, List, [], ◌∷◌, length, drop, ltb, ◌==◌,
  some, ok, arith,
}
use krabitls_rs.Base.Bytes.{byte_at, from_be_bytes}
use krabitls_rs.Client.Data.{
  TlsEngine, PostHandshakeReasm, stage_until, handle_message, feed_loop, feed_post_handshake,
  process_key_update, handle_inner_content, dispatch_data_record_inner,
}
use krabitls_rs.Keys.Hkdf.{HkdfSha256}
use krabitls_rs.Tls.Aead.{ct_application_data}
use krabitls_rs.Tls.ClientFlight.{ct_handshake}
use krabitls_rs.Tls.Connection.{AppData}
use krabitls_rs.Tls.Connection.Data.{encrypt_record, key_update_msg, apply_recv_key_update}
use krabitls_rs.Tls.Connection.Channel.{
  IsAeadSuite, InStep, received, encrypt_record-eq-ok, encrypt_record_form,
  decrypt_record-encrypt_record,
}
use krabitls_rs.Tls.RecordKeys.{CipherSuite}

-- No message is partway.
abbrev pub idle : PostHandshakeReasm
idle = record { stage = []; skip_remaining = 0 }

-- A record that is in step gets to the dispatch on its type.
pub dispatch_received :
    (s : CipherSuite) (h : HkdfSha256)
    → IsAeadSuite s
    → (p : AppData) (e : TlsEngine) (content : List ℕ) (ct out_len : ℕ) (bytes : List ℕ)
    → (p' : AppData) → ct ≢ 0
    → length content + 1 ≤ e.our_recv_limit
    → InStep p e.conn
    → encrypt_record s p content ct out_len ≡ ok (bytes, p')
    → (dispatch_data_record_inner s h e bytes (byte_at bytes 0)
        ≡ handle_inner_content s h (record e { conn = received e.conn }) content ct)
      × InStep p' (received e.conn)
unfolding dispatch_data_record_inner
dispatch_received s h aead p e content ct out_len bytes p' nonzero small step run =
    let (written, _) = encrypt_record-eq-ok s p content ct out_len bytes p' run in
    let (size, first, _, _) =
      encrypt_record_form s aead p.c_ap_keys content ct p.seq_out out_len bytes written in
    let (after, opened, window, step') =
      decrypt_record-encrypt_record s aead p e.conn content ct out_len bytes p' nonzero step run in
    let fits : ltb (e.our_recv_limit + 16) (length bytes - 5) ≡ false = ground arith in
    (rw (first, fits, opened, window) refl, step')

-- A key update that comes in one record.
pub feed_loop-key_update :
    (flag : Bool) → feed_loop 6 idle (key_update_msg flag) ≡ ok (idle, some flag)
unfolding feed_loop handle_message stage_until from_be_bytes drop
feed_loop-key_update true = refl
feed_loop-key_update false = refl

-- No message is partway and no plaintext is parked.
abbrev pub ready : TlsEngine → TlsEngine
ready e = record e { ph = idle; plain = [] }

pub handle_inner_content-data :
    (s : CipherSuite) (h : HkdfSha256) (e : TlsEngine) (conn : AppData) (content : List ℕ)
    → handle_inner_content s h (record (ready e) { conn = conn }) content ct_application_data
      ≡ ok (record (ready e) { conn = conn; plain = content })
unfolding handle_inner_content
handle_inner_content-data s h e conn [] = refl
handle_inner_content-data s h e conn (b ∷ content) =
    let nonempty : (suc (length content) == 0) ≡ false = ground arith in rw (nonempty) refl

pub handle_inner_content-key_update :
    (s : CipherSuite) (h : HkdfSha256) (e : TlsEngine) (flag : Bool)
    → handle_inner_content s h (ready e) (key_update_msg flag) ct_handshake
      ≡ process_key_update s h (ready e) flag
unfolding handle_inner_content feed_post_handshake
handle_inner_content-key_update s h e flag = rw (feed_loop-key_update flag) refl

pub process_key_update-unrequested :
    (s : CipherSuite) (h : HkdfSha256) (e : TlsEngine) (conn : AppData)
    → apply_recv_key_update s h e.conn ≡ ok conn
    → process_key_update s h e false ≡ ok (record e { conn = conn })
unfolding process_key_update
process_key_update-unrequested s h e conn run = rw (run) refl
