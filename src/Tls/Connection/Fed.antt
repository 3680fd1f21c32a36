-- ===== src/Tls/Connection/Fed.antt =====
-- krabitls/src/connection.rs: the records of a server's flight that are fed to the connection.
use krabitls_rs.Base.{
  ℕ, ◌+◌, ◌%◌, ◌^◌, ◌≤◌, ◌<◌, ◌≡◌, refl, sym, ap, ◌∙◌, true, List, [], ◌∷◌, ◌++◌, length, leb,
  Result, ok, ◌>>=◌, arith, append_assoc, append-nil,
}
use native.Mathlib.Nat.{mod-eq_of_lt}
use krabitls_rs.Base.Lists.{length-append}
use krabitls_rs.Tls.Aead.RoundTrip.{decrypt-encrypt}
use krabitls_rs.Tls.ClientFlight.{ct_handshake}
use krabitls_rs.Tls.Connection.{TlsConnection, WaitServerFlight, FlightStep, StepError}
use krabitls_rs.Tls.Connection.Channel.{IsAeadSuite, encrypt_record_form}
use krabitls_rs.Tls.Connection.Flight.{
  flight_step, feed_encrypted, feed_server_record_inplace_inner, feed_server_record_inplace,
}
use krabitls_rs.Tls.Reassembler.{ServerFlightReassembler, push_content, is_complete}
use krabitls_rs.Tls.Reassembler.Flight.{concat}
use krabitls_rs.Tls.RecordKeys.{CipherSuite, RecordKeys, encrypt_record, decrypt_record_inplace}

-- The contents and their handshake records under the keys, numbered from `seq`.
abbrev pub IsSealed : CipherSuite → RecordKeys → ℕ → List (List ℕ) → List (List ℕ) → Type 0
IsSealed s keys seq [] [] = Unit
IsSealed s keys seq [] (bytes ∷ records) = seq < 0
IsSealed s keys seq (content ∷ contents) [] = seq < 0
IsSealed s keys seq (content ∷ contents) (bytes ∷ records) =
    ((out_len : ℕ) × (encrypt_record s keys content ct_handshake seq out_len ≡ ok bytes))
    × IsSealed s keys (seq + 1) contents records

-- The records fed one after the other; the answer is the last step.
unfoldable pub feed_all :
    CipherSuite
    → ℕ
    → FlightStep
    → TlsConnection WaitServerFlight
    → ServerFlightReassembler
    → List (List ℕ)
    → Result StepError (FlightStep × TlsConnection WaitServerFlight × ServerFlightReassembler)
feed_all s capacity step conn r [] = ok (step, conn, r)
feed_all s capacity step conn r (bytes ∷ records) =
    feed_server_record_inplace s capacity conn bytes r >>= λ next.
    feed_all s capacity next.0 next.1 next.2 records

-- The connection that has the number `seq` next.
abbrev pub at_seq : TlsConnection WaitServerFlight → ℕ → TlsConnection WaitServerFlight
at_seq conn seq = record conn { state = record (conn.state) { seq_in = seq } }

-- The buffer with a content after what it had.
abbrev pub pushed : ServerFlightReassembler → List ℕ → ServerFlightReassembler
pushed r content = record { buf = r.buf ++ content }

-- One record is decrypted under its number and its content pushed.
pub feed_server_record_inplace-encrypt_record :
    (s : CipherSuite)
    → IsAeadSuite s
    → (capacity : ℕ) (conn : TlsConnection WaitServerFlight) (r : ServerFlightReassembler)
      (content : List ℕ) (out_len : ℕ) (bytes : List ℕ)
    → conn.state.seq_in + 1 < 2 ^ 64
    → length r.buf + length content ≤ capacity
    → encrypt_record s conn.state.s_hs_keys content ct_handshake conn.state.seq_in out_len
      ≡ ok bytes
    → feed_server_record_inplace s capacity conn bytes r
      ≡ ok (
        flight_step (is_complete (pushed r content)),
        at_seq conn (conn.state.seq_in + 1),
        pushed r content,
      )
unfolding feed_server_record_inplace feed_server_record_inplace_inner feed_encrypted push_content
feed_server_record_inplace-encrypt_record s aead capacity conn r content out_len bytes small room
      h =
    let keys = conn.state.s_hs_keys in
    let seq = conn.state.seq_in in
    let (_, _, _, (tail, shape)) =
      encrypt_record_form s aead keys content ct_handshake seq out_len bytes h in
    let (after, opened, window, split) =
      decrypt-encrypt (s.make_cipher keys.key) (aead keys.key) content ct_handshake keys.iv seq
        out_len bytes (λ z. omega arith) h in
    let opened' : decrypt_record_inplace s keys (23 ∷ tail) seq ≡ (ok (length content + 1), after) =
      ap (λ b. decrypt_record_inplace s keys b seq) (sym shape) ∙ opened in
    let fits : leb (length r.buf + length content) capacity ≡ true = ground arith in
    let next : (seq + 1) % 2 ^ 64 ≡ seq + 1 = mod-eq_of_lt small in
    rw (shape, opened', split, fits, next) refl

-- Records that are numbered on from the connection's number, whose contents have room: all of them
-- are taken, the buffer has grown by the contents in order, the connection counts them, and the
-- last step says whether the flight is complete.
pub feed_all-sealed :
    (s : CipherSuite)
    → IsAeadSuite s
    → (capacity : ℕ) (conn : TlsConnection WaitServerFlight) (r : ServerFlightReassembler) (seq : ℕ)
      (contents records : List (List ℕ))
    → seq + length contents < 2 ^ 64
    → length r.buf + length (concat contents) ≤ capacity
    → IsSealed s conn.state.s_hs_keys seq contents records
    → feed_all s capacity (flight_step (is_complete r)) (at_seq conn seq) r records
      ≡ ok (
        flight_step (is_complete (pushed r (concat contents))),
        at_seq conn (seq + length contents),
        pushed r (concat contents),
      )
unfolding feed_all
feed_all-sealed s aead capacity conn r seq [] [] small room sealed =
    let none_left : seq + length {A = List ℕ} [] ≡ seq = omega arith in
    rw (none_left, append-nil r.buf) refl
feed_all-sealed s aead capacity conn r seq [] (bytes ∷ records) small room sealed =
    absurd (omega arith)
feed_all-sealed s aead capacity conn r seq (content ∷ contents) [] small room sealed =
    absurd (omega arith)
feed_all-sealed s aead capacity conn r seq (content ∷ contents) (bytes ∷ records) small room
      sealed =
    let ((out_len, written), others) = sealed in
    let size = length-append content (concat contents) in
    let count : seq + 1 + length contents ≡ seq + length (content ∷ contents) = omega arith in
    let first =
      feed_server_record_inplace-encrypt_record s aead capacity (at_seq conn seq) r content out_len
        bytes (omega arith) (omega arith) written in
    let rest =
      feed_all-sealed s aead capacity conn (pushed r content) (seq + 1) contents records
        (omega arith) (omega (arith, length-append r.buf content)) others in
    rw (first) (rest ∙ rw (count, append_assoc r.buf content (concat contents)) refl)
