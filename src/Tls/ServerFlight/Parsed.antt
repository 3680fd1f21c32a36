-- ===== src/Tls/ServerFlight/Parsed.antt =====
-- The flights that krabitls/src/server_flight.rs accepts.
use krabitls_rs.Base.{
  ℕ, ◌^◌, ◌<◌, ◌≡◌, ◌↔◌, sym, subst, ap, ◌∙◌, List, [], ◌++◌, length, ◌==◌, not, Option, none, some,
  true, Result, ok, ◌>>=◌, ◌>>◌, fail_if, arith, append-nil,
}
use krabitls_rs.Base.Bytes.{IsBytes}
use krabitls_rs.Tls.Reassembler.{hs_finished}
use krabitls_rs.Tls.Reassembler.Flight.{message}
use krabitls_rs.Tls.ServerFlight.{
  hs_encrypted_extensions, hs_certificate, hs_certificate_request, hs_certificate_verify,
  FlightError, ServerFlightView, HsReader, HsMsg, next_msg, expect, optional_request,
  parse_server_flight,
}
use krabitls_rs.Tls.ServerFlight.Messages.{IsAt, next_msg-message}
use krabitls_rs.Tls.ServerFlight.Bodies.{
  Bodies, IsSmall, IsSmallRequest, request_bytes, framed_request, flight, view, typed, start,
}
use krabitls_rs.Tls.ServerFlight.Accepted.{parse_server_flight-eq-ok}

-- A message of the expected type is read and passes its test.
reads :
    (expected : ℕ) (r : HsReader) (body s' : List ℕ)
    (k : HsMsg → HsReader → Result FlightError ServerFlightView)
    → IsAt r (message expected body ++ s')
    → length body < 2 ^ 24
    → (r' : HsReader) × IsAt r' s'
      × ((next_msg r >>= λ p. expect expected p.0 >> k p.0 p.1) ≡ k (typed expected body) r')
reads expected r body s' k here small =
    let (r', run, moved) = next_msg-message r expected body s' here small in
    let same : (expected == expected) ≡ true = ground arith in
    (
      r',
      moved,
      ap (λ m. m >>= λ p. expect expected p.0 >> k p.0 p.1) run
          ∙ ap
              (λ t.
                fail_if (not t) (FlightError.unexpected_handshake_type expected expected)
                >> k (typed expected body) r')
              same,
    )

reads_certificate :
    (r : HsReader) (request : Option (List ℕ)) (body s' : List ℕ)
    (k : Option (List ℕ) → HsMsg → HsReader → Result FlightError ServerFlightView)
    → IsAt r (request_bytes request ++ (message hs_certificate body ++ s'))
    → IsSmallRequest request
    → length body < 2 ^ 24
    → (r' : HsReader) × IsAt r' s'
      × ((next_msg r >>= λ p.
            optional_request p.0 p.1 >>= λ q. expect hs_certificate q.1 >> k q.0 q.1 q.2)
          ≡ k (framed_request request) (typed hs_certificate body) r')
unfolding optional_request
reads_certificate r none body s' k here small small' =
    let (r', run, moved) = next_msg-message r hs_certificate body s' here small' in
    (
      r',
      moved,
      ap
          (λ m.
            m >>= λ p. optional_request p.0 p.1 >>= λ q. expect hs_certificate q.1 >> k q.0 q.1 q.2)
          run,
    )
reads_certificate r (some asked) body s' k here small small' =
    let (r1, run, moved) =
      next_msg-message r hs_certificate_request asked (message hs_certificate body ++ s') here
        small in
    let (r', run', moved') = next_msg-message r1 hs_certificate body s' moved small' in
    let full = message hs_certificate_request asked in
    let next : HsMsg × HsReader → Result FlightError (Option (List ℕ) × HsMsg × HsReader) =
      λ after. ok (some full, after.0, after.1) in
    (
      r',
      moved',
      ap
            (λ m. m >>= λ p.
              optional_request p.0 p.1 >>= λ q. expect hs_certificate q.1 >> k q.0 q.1 q.2)
            run
          ∙ ap (λ m. (m >>= next) >>= λ q. expect hs_certificate q.1 >> k q.0 q.1 q.2) run',
    )

parse_server_flight-flight : (b : Bodies) → IsSmall b → parse_server_flight (flight b) ≡ ok (view b)
unfolding parse_server_flight
parse_server_flight-flight b small =
    let (r1, at1, run1) =
      reads hs_encrypted_extensions (record { buf = flight b; pos = 0 }) b.ee _ _ (start (flight b))
        small.ee_lt in
    let (r2, at2, run2) =
      reads_certificate r1 b.request b.cert _ _ at1 small.request_lt small.cert_lt in
    let (r3, at3, run3) = reads hs_certificate_verify r2 b.cv _ _ at2 small.cv_lt in
    let whole = sym (append-nil (message hs_finished b.fin)) in
    let (r4, at4, run4) =
      reads hs_finished r3 b.fin [] _ (subst (IsAt r3) whole at3) small.fin_lt in
    let inside = at4.inside in
    let end : (r4.pos == length r4.buf) ≡ true = ground arith in
    run1
    ∙ run2
    ∙ run3
    ∙ run4
    ∙ ap (λ t. fail_if (not t) FlightError.trailing_bytes >> ok (view b)) end

-- The parser accepts bytes exactly when they are EncryptedExtensions, at most one
-- CertificateRequest, Certificate, CertificateVerify and Finished, in this order, each with its
-- 24-bit length, and nothing else; the view is then the view of these messages.
pub parse_server_flight_iff :
    (content : List ℕ) (v : ServerFlightView)
    → IsBytes content
    → (parse_server_flight content ≡ ok v)
      ↔ ((b : Bodies) × IsSmall b × (content ≡ flight b) × (v ≡ view b))
parse_server_flight_iff content v bytes = (
  parse_server_flight-eq-ok content v bytes,
  λ h.
      let (b, small, content_eq, v_eq) = h in
      ap parse_server_flight content_eq ∙ parse_server_flight-flight b small ∙ ap ok (sym v_eq),
)
