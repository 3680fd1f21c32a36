-- ===== src/Client/Data/Tests.antt =====
-- Runs of the data phase of krabitls/src/client/engine.rs over toy cryptography, and its theorems at
-- concrete inputs.
use krabitls_rs.Base.{
  ℕ, ◌≡◌, refl, List, [], ◌∷◌, ◌++◌, replicate, some, true, false, ok, err, inl, arith,
}
use krabitls_rs.Base.Lists.{drop}
use krabitls_rs.Base.Bytes.{from_be_bytes}
use krabitls_rs.Client.Errors.{malformed_key_update}
use krabitls_rs.Client.Data.{TlsEngine, feed_loop, handle_message, stage_until}
use krabitls_rs.Client.Data.Received.{idle}
use krabitls_rs.Client.Data.Delivered.{
  Action, send, rotate, perform, perform_all, receive_all, receive_all-perform_all,
}
use krabitls_rs.Client.Data.Stream.Pieces.{
  collect, feed_pieces, all_marks, take_marked, feed_pieces-take_marked,
}
use krabitls_rs.Keys.Hkdf.{
  HkdfSha256, encode_label, push_bytes, hkdf_expand_label, hkdf_expand_label_prefixed,
}
use krabitls_rs.Keys.Schedule.{traffic_keys, next_application_traffic_secret}
use krabitls_rs.Tls.Aead.{Cipher, IsAead}
use krabitls_rs.Tls.Aead.Encrypt.{encrypt_record_with}
use krabitls_rs.Tls.Connection.{AppData}
use krabitls_rs.Tls.Connection.Channel.{InStep}
use krabitls_rs.Tls.Connection.Data.{encrypt_record, encrypt_key_update, apply_send_key_update}
use krabitls_rs.Tls.RecordKeys.{CipherSuite, RecordKeys, derive}

-- `NoopAead` of the tests in aead.rs.
abbrev noop : Cipher
noop = record {
  encrypt = λ nonce aad plain. some (plain, replicate 16 0);
  decrypt = λ nonce aad buffer tag. (true, buffer);
}

abbrev suite : CipherSuite
suite = record { key_len = 16; make_cipher = λ key. noop }

suite-IsAead : (key : List ℕ) → IsAead (suite.make_cipher key)
suite-IsAead key = record { encrypt-length = λ h. (cc h, cc h); decrypt-encrypt = λ h. cc h }

-- A backend of constant bytes.
abbrev toy : HkdfSha256
toy = record {
  snapshot = λ fed. ok (replicate 32 5);
  extract = λ salt ikm. ok (replicate 32 1);
  expand = λ prk info n. ok (replicate n 2);
}

abbrev some_keys : ℕ → RecordKeys
some_keys b = record { key = replicate 16 b; iv = replicate 12 b }

-- The server and the engine's connection, both at the start of the data phase.
abbrev server : AppData
server = record {
  c_ap_keys = some_keys 7;
  s_ap_keys = some_keys 8;
  c_ap_ts = replicate 32 7;
  s_ap_ts = replicate 32 8;
  seq_out = 0;
  seq_in = 0;
}

abbrev client : AppData
client = record {
  c_ap_keys = some_keys 8;
  s_ap_keys = some_keys 7;
  c_ap_ts = replicate 32 8;
  s_ap_ts = replicate 32 7;
  seq_out = 0;
  seq_in = 0;
}

abbrev engine : TlsEngine
engine = record {
  conn = client;
  ph = idle;
  closed = false;
  plain = [];
  send_pending = [];
  our_recv_limit = 16385;
  send_len = 100;
}

abbrev script : List Action
script = send (104 ∷ 105 ∷ []) ∷ rotate ∷ send (33 ∷ []) ∷ []

abbrev record_of : ℕ → List ℕ → List ℕ
record_of n inner = 23 ∷ 3 ∷ 3 ∷ 0 ∷ n ∷ (inner ++ replicate 16 0)

abbrev records : List (List ℕ)
records =
    record_of 19 (104 ∷ 105 ∷ 23 ∷ [])
    ∷ record_of 22 (24 ∷ 0 ∷ 0 ∷ 1 ∷ 0 ∷ 22 ∷ [])
    ∷ record_of 18 (33 ∷ 23 ∷ [])
    ∷ []

abbrev server_after : AppData
server_after = record server { c_ap_keys = some_keys 2; c_ap_ts = replicate 32 2; seq_out = 1 }

performed : perform_all suite toy 100 server script ≡ ok (records, server_after)
unfolding perform_all perform encrypt_record encrypt_key_update apply_send_key_update
    encrypt_record_with next_application_traffic_secret derive traffic_keys hkdf_expand_label
    hkdf_expand_label_prefixed encode_label push_bytes
performed = refl

receive_all-perform_all_example :
    (conn : AppData) × (receive_all suite toy engine records
      ≡ ok (104 ∷ 105 ∷ 33 ∷ [], record engine { conn = conn }))
    × InStep server_after conn
receive_all-perform_all_example =
    receive_all-perform_all suite toy suite-IsAead 100 server engine script records server_after
      (record { same_keys = refl; same_secret = refl; same_seq = refl }) refl refl
      (omega arith, (omega arith, (omega arith, tt))) performed

-- A ticket of two bytes and a key update in three pieces, and half of another ticket.
abbrev pieces : List (List ℕ)
pieces =
    (4 ∷ 0 ∷ []) ∷ (0 ∷ 2 ∷ 9 ∷ []) ∷ (9 ∷ 24 ∷ 0 ∷ 0 ∷ 1 ∷ 1 ∷ []) ∷ (4 ∷ 0 ∷ 0 ∷ 3 ∷ 8 ∷ []) ∷ []

pieces_taken : feed_pieces idle pieces ≡ ok (record { stage = []; skip_remaining = 2 }, true ∷ [])
unfolding feed_pieces feed_loop handle_message stage_until from_be_bytes drop collect
pieces_taken = refl

feed_pieces-take_marked_example : feed_pieces idle pieces ≡ take_marked idle (all_marks pieces)
feed_pieces-take_marked_example = feed_pieces-take_marked idle pieces (inl (0, refl))

-- A key update before other bytes of its record.
not_last : feed_pieces idle ((24 ∷ 0 ∷ 0 ∷ 1 ∷ 0 ∷ 4 ∷ []) ∷ []) ≡ err malformed_key_update
unfolding feed_pieces feed_loop handle_message stage_until from_be_bytes drop collect
not_last = refl
