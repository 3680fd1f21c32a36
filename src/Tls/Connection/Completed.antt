-- ===== src/Tls/Connection/Completed.antt =====
-- krabitls/src/connection.rs, from the first record of the server's flight to its verification.
use krabitls_rs.Base.{
  ℕ, ◌+◌, ◌^◌, ◌≤◌, ◌<◌, ◌≡◌, refl, sym, ap, subst, ◌∙◌, true, List, ◌++◌, length, some, ok, All,
  arith,
}
use krabitls_rs.Certs.View.{CertView, ServerPubkey}
use krabitls_rs.Keys.Hkdf.{HkdfSha256}
use krabitls_rs.Keys.Schedule.{TranscriptHash}
use krabitls_rs.Tls.Connection.{TlsConnection, WaitServerFlight, ServerFlightDone, pending, ready}
use krabitls_rs.Tls.Connection.Channel.{IsAeadSuite}
use krabitls_rs.Tls.Connection.Fed.{IsSealed, feed_all, at_seq, feed_all-sealed}
use krabitls_rs.Tls.Connection.Flight.{flight_step, from_view, finalize_server_flight}
use krabitls_rs.Tls.Reassembler.{
  hs_finished, new, end_loop, flight_end_offset, flight_bytes, is_complete, ServerFlightReassembler,
}
use krabitls_rs.Tls.Reassembler.Flight.{
  message, messages, IsBeforeFinished, concat, push_contents_fits, flight_bytes-push_contents,
}
use krabitls_rs.Tls.RecordKeys.{CipherSuite}
use krabitls_rs.Tls.ServerFlight.Verify.{PreparedVerifier, MlDsaSigBytes, verify_server_flight}

-- A flight that is found makes the buffer complete.
is_complete-flight_bytes :
    (r : ServerFlightReassembler) (bytes : List ℕ)
    → flight_bytes r ≡ some bytes
    → is_complete r ≡ true
unfolding is_complete flight_bytes
is_complete-flight_bytes r bytes h = ground arith

-- The connection whose flight was verified.
abbrev pub verified :
    TlsConnection WaitServerFlight → TranscriptHash → ServerPubkey → TlsConnection ServerFlightDone
verified conn t key = record {
  transcript = t;
  state = record { hs = conn.state.hs; c_hs_ts = conn.state.c_hs_ts; server_pubkey = key };
}

-- The flight in the buffer after all of its contents.
flight_in_buffer :
    (capacity : ℕ) (contents : List (List ℕ)) (ms : List (ℕ × List ℕ)) (last after : List ℕ)
    → concat contents ≡ messages ms ++ (message hs_finished last ++ after)
    → length (concat contents) ≤ capacity
    → All IsBeforeFinished ms
    → length last < 2 ^ 24
    → flight_bytes (record { buf = concat contents })
      ≡ some (messages ms ++ message hs_finished last)
flight_in_buffer capacity contents ms last after whole room good small =
    let (r, all_pushed, found) =
      flight_bytes-push_contents capacity contents ms last after whole room good small in
    let same : record { buf = concat contents } ≡ r =
      let fits = push_contents_fits capacity new contents (omega arith) in cc (fits, all_pushed) in
    subst
      (λ (t : ServerFlightReassembler).
        flight_bytes t ≡ some (messages ms ++ message hs_finished last))
      (sym same) found

finalize_server_flight-verified :
    (h : HkdfSha256) (sizes : MlDsaSigBytes) (conn : TlsConnection WaitServerFlight)
    (r : ServerFlightReassembler) (prepared : PreparedVerifier) (leaf_view : CertView)
    (plaintext : List ℕ) (t : TranscriptHash) (key owned : ServerPubkey)
    → flight_bytes r ≡ some plaintext
    → verify_server_flight h sizes conn.transcript plaintext conn.state.s_hs_ts prepared leaf_view
      ≡ ok (t, key)
    → from_view key ≡ ok owned
    → finalize_server_flight h sizes conn r prepared true leaf_view ≡ ok (verified conn t owned)
unfolding finalize_server_flight
finalize_server_flight-verified h sizes conn r prepared leaf_view plaintext t key owned found
      checked fits =
    rw (found, checked, fits) refl

-- A server's flight that verifies completes the handshake up to its Finished, however it is cut into
-- records: under ciphers with the laws of an AEAD, when the contents of the records join to the
-- messages of the flight with anything after its Finished, are encrypted under the handshake keys
-- with numbers from 0 and have room in the buffer, the prepared verifier matches the leaf, and the
-- leaf key fits the owned key (a modulus of RSA has at most 256 bytes there), a new connection takes
-- all records, the last step is `ready`, and `finalize_server_flight` gives the transcript and the
-- key of the verification of exactly the messages up to Finished.
pub finalize_server_flight-feed_all :
    (s : CipherSuite) (h : HkdfSha256) (sizes : MlDsaSigBytes)
    → IsAeadSuite s
    → (capacity : ℕ) (conn : TlsConnection WaitServerFlight) (contents records : List (List ℕ))
      (ms : List (ℕ × List ℕ)) (last after : List ℕ) (prepared : PreparedVerifier)
      (leaf_view : CertView) (t : TranscriptHash) (key owned : ServerPubkey)
    → concat contents ≡ messages ms ++ (message hs_finished last ++ after)
    → length (concat contents) ≤ capacity
    → length contents < 2 ^ 64
    → All IsBeforeFinished ms
    → length last < 2 ^ 24
    → IsSealed s conn.state.s_hs_keys 0 contents records
    → verify_server_flight h sizes conn.transcript
        (messages ms ++ message hs_finished last)
        conn.state.s_hs_ts
        prepared
        leaf_view
      ≡ ok (t, key)
    → from_view key ≡ ok owned
    → (conn' : TlsConnection WaitServerFlight) × (r : ServerFlightReassembler) × (feed_all s
          capacity pending
          (at_seq conn 0)
          new
          records
        ≡ ok (ready, conn', r))
      × (finalize_server_flight h sizes conn' r prepared true leaf_view
          ≡ ok (verified conn t owned))
unfolding is_complete flight_end_offset end_loop
finalize_server_flight-feed_all s h sizes aead capacity conn contents records ms last after prepared
      leaf_view t key owned whole room count good small sealed checked fits =
    let r : ServerFlightReassembler = record { buf = concat contents } in
    let found = flight_in_buffer capacity contents ms last after whole room good small in
    let done = is_complete-flight_bytes r (messages ms ++ message hs_finished last) found in
    let fed =
      feed_all-sealed s aead capacity conn new 0 contents records (omega arith) (omega arith)
        sealed in
    (
      at_seq conn (0 + length contents),
      r,
      fed ∙ ap (λ b. ok (flight_step b, at_seq conn (0 + length contents), r)) done,
      finalize_server_flight-verified h sizes (at_seq conn (0 + length contents)) r prepared
          leaf_view (messages ms ++ message hs_finished last) t key owned found checked fits,
    )
