-- ===== src/Tls/Connection/Tests.antt =====
-- Runs of krabitls/src/connection.rs over toy cryptography, and its theorems at concrete inputs.
use krabitls_rs.Base.{
  ℕ, ◌≡◌, refl, List, [], ◌∷◌, ◌++◌, replicate, some, none, true, ok, All, arith,
}
use krabitls_rs.Base.Lists.{take, drop}
use krabitls_rs.Base.Bytes.{from_be_bytes}
use krabitls_rs.Certs.View.{CertView, ServerPubkey}
use krabitls_rs.Keys.Hkdf.{
  HkdfSha256, encode_label, push_bytes, hkdf_expand_label, hkdf_expand_label_prefixed,
}
use krabitls_rs.Tls.Aead.{Cipher, IsAead}
use krabitls_rs.Tls.Aead.Encrypt.{encrypt_record_with}
use krabitls_rs.Tls.Connection.{TlsConnection, WaitServerFlight, pending, ready}
use krabitls_rs.Tls.Connection.Completed.{verified, finalize_server_flight-feed_all}
use krabitls_rs.Tls.Connection.Fed.{IsSealed, feed_all, at_seq}
use krabitls_rs.Tls.Connection.Finish.{chunk_loop, encrypt_handshake_flight}
use krabitls_rs.Tls.Connection.Flight.{from_view, finalize_server_flight}
use krabitls_rs.Tls.Connection.Fragments.{IsChunk, encrypt_handshake_flight-IsChunk}
use krabitls_rs.Tls.Reassembler.{ServerFlightReassembler, new, hs_finished}
use krabitls_rs.Tls.Reassembler.Flight.{message, messages, concat}
use krabitls_rs.Tls.RecordKeys.{CipherSuite, RecordKeys}
use krabitls_rs.Tls.ServerFlight.{parse_server_flight, optional_request, next_msg}
use krabitls_rs.Tls.ServerFlight.Verify.{
  PreparedVerifier, MlDsaSigBytes, verify_server_flight, verify_certificate_verify_with_prepared,
  check_signature, verify_server_finished, ct_eq,
}
use krabitls_rs.Tls.ServerFlight.Verified.{certificate_verify}

-- `NoopAead` of the tests in aead.rs.
abbrev noop : Cipher
noop = record {
  encrypt = λ nonce aad plain. some (plain, replicate 16 0);
  decrypt = λ nonce aad buffer tag. (true, buffer);
}

abbrev suite : CipherSuite
suite = record { key_len = 16; make_cipher = λ key. noop }

suite-IsAead : (key : List ℕ) → IsAead (suite.make_cipher key)
suite-IsAead key = record { encrypt-length = λ h. (cc h, cc h); decrypt-encrypt = λ h. cc h }

abbrev keys : RecordKeys
keys = record { key = replicate 16 7; iv = replicate 12 7 }

abbrev record_of : ℕ → List ℕ → List ℕ
record_of n inner = 23 ∷ 3 ∷ 3 ∷ 0 ∷ n ∷ (inner ++ (22 ∷ replicate 16 0))

-- Three bytes under a limit of three: two chunks.
fragments :
    encrypt_handshake_flight suite keys (1 ∷ 2 ∷ 3 ∷ []) 3 100
    ≡ ok (record_of 19 (1 ∷ 2 ∷ []) ++ record_of 18 (3 ∷ []))
unfolding encrypt_handshake_flight chunk_loop encrypt_record_with take drop
fragments = refl

encrypt_handshake_flight-IsChunk_example :
    (chunks : List (List ℕ)) × (records : List (List ℕ)) × (concat chunks ≡ 1 ∷ 2 ∷ 3 ∷ [])
    × All (IsChunk 2) chunks
    × IsSealed suite keys 0 chunks records
    × (record_of 19 (1 ∷ 2 ∷ []) ++ record_of 18 (3 ∷ []) ≡ concat records)
encrypt_handshake_flight-IsChunk_example =
    encrypt_handshake_flight-IsChunk suite keys (1 ∷ 2 ∷ 3 ∷ []) 3 100
      (record_of 19 (1 ∷ 2 ∷ []) ++ record_of 18 (3 ∷ [])) (omega arith) fragments

-- A backend of constant bytes, a verifier that accepts everything, and the lengths of FIPS 204.
abbrev toy : HkdfSha256
toy = record {
  snapshot = λ fed. ok (replicate 32 5);
  extract = λ salt ikm. ok (replicate 32 1);
  expand = λ prk info n. ok (replicate n 2);
}

abbrev willing : PreparedVerifier
willing = PreparedVerifier.ed25519 (λ signed sig. true)

abbrev sizes : MlDsaSigBytes
sizes = record { mldsa44 = 2420; mldsa65 = 3309; mldsa87 = 4627 }

abbrev leaf : CertView
leaf = CertView.ed25519 [] [] (4 ∷ []) none []

abbrev waiting : TlsConnection WaitServerFlight
waiting = record {
  transcript = record { fed = 1 ∷ [] };
  state = record {
    hs = replicate 32 3;
    c_hs_ts = replicate 32 4;
    s_hs_ts = replicate 32 7;
    s_hs_keys = keys;
    seq_in = 0;
  };
}

-- The messages before Finished, and the records of the flight: all of the first three messages,
-- and Finished with three bytes after it.
abbrev signature : List ℕ
signature = certificate_verify 0x0807 (replicate 64 9)

abbrev before_finished : List (ℕ × List ℕ)
before_finished = (8, 0 ∷ 0 ∷ []) ∷ (11, 7 ∷ []) ∷ (15, signature) ∷ []

abbrev mac : List ℕ
mac = replicate 32 1

abbrev pieces : List (List ℕ)
pieces = messages before_finished ∷ (message hs_finished mac ++ (1 ∷ 2 ∷ 3 ∷ [])) ∷ []

abbrev sealed : List (List ℕ)
sealed =
    record_of 100 (messages before_finished)
    ∷ record_of 56 (message hs_finished mac ++ (1 ∷ 2 ∷ 3 ∷ []))
    ∷ []

pieces-IsSealed : IsSealed suite keys 0 pieces sealed
unfolding encrypt_record_with
pieces-IsSealed = ((200, refl), ((200, refl), tt))

abbrev heard : List ℕ
heard = 1 ∷ (messages before_finished ++ message hs_finished mac)

flight_verified :
    verify_server_flight toy sizes waiting.transcript
      (messages before_finished ++ message hs_finished mac)
      (replicate 32 7)
      willing
      leaf
    ≡ ok (record { fed = heard }, ServerPubkey.ed25519 (4 ∷ []))
unfolding verify_server_flight parse_server_flight optional_request next_msg
    verify_certificate_verify_with_prepared check_signature verify_server_finished ct_eq
    hkdf_expand_label hkdf_expand_label_prefixed encode_label push_bytes from_be_bytes take drop
flight_verified = refl

key_fits : from_view (ServerPubkey.ed25519 (4 ∷ [])) ≡ ok (ServerPubkey.ed25519 (4 ∷ []))
unfolding from_view
key_fits = refl

finalize_server_flight-feed_all_example :
    (conn' : TlsConnection WaitServerFlight) × (r : ServerFlightReassembler) × (feed_all suite 500
        pending
        (at_seq waiting 0)
        new
        sealed
      ≡ ok (ready, conn', r))
    × (finalize_server_flight toy sizes conn' r willing true leaf
        ≡ ok (verified waiting (record { fed = heard }) (ServerPubkey.ed25519 (4 ∷ []))))
finalize_server_flight-feed_all_example =
    finalize_server_flight-feed_all suite toy sizes suite-IsAead 500 waiting pieces sealed
      before_finished mac (1 ∷ 2 ∷ 3 ∷ []) willing leaf (record { fed = heard })
      (ServerPubkey.ed25519 (4 ∷ [])) (ServerPubkey.ed25519 (4 ∷ [])) refl (omega arith)
      (omega arith)
      (
        (λ h. omega arith, omega arith),
        ((λ h. omega arith, omega arith), ((λ h. omega arith, omega arith), tt)),
      )
      (omega arith) pieces-IsSealed flight_verified key_fits
