-- ===== src/Tls/ServerFlight/Accepted.antt =====
-- What krabitls/src/server_flight.rs read when it accepted a flight.
use krabitls_rs.Base.{
  ℕ, ◌^◌, ◌<◌, ◌≡◌, refl, sym, subst, ap, ap₂, ◌∙◌, List, [], ◌∷◌, ◌++◌, length, ◌==◌, not,
  if◌then◌else◌, Option, none, some, Bool, Result, ok, ◌>>=◌, ◌>>◌, >>=-eq-ok, fail_if-eq-ok, arith,
  append-nil, inl, inr, Bool-cases,
}
use krabitls_rs.Base.Bytes.{IsBytes}
use krabitls_rs.Tls.Reassembler.{hs_finished}
use krabitls_rs.Tls.Reassembler.Flight.{message}
use krabitls_rs.Tls.ServerFlight.{
  hs_encrypted_extensions, hs_certificate, hs_certificate_request, hs_certificate_verify,
  FlightError, ServerFlightView, HsReader, HsMsg, next_msg, expect, optional_request,
  parse_server_flight,
}
use krabitls_rs.Tls.ServerFlight.Messages.{IsAt, IsRead, next_msg-eq-ok}
use krabitls_rs.Tls.ServerFlight.Bodies.{
  Bodies, IsSmall, IsSmallRequest, request_bytes, framed_request, flight, view, typed, start,
}

-- What was read as the optional CertificateRequest, and the message after it.
record IsReadRequest (s : List ℕ) (full : Option (List ℕ)) (m : HsMsg) (r : HsReader) : Type 0 where
  request : Option (List ℕ)
  rest : List ℕ
  split : s ≡ request_bytes request ++ rest
  framed : full ≡ framed_request request
  small : IsSmallRequest request
  read : IsRead rest m r

optional_request-eq-ok :
    (s : List ℕ) (m : HsMsg) (r : HsReader) (full : Option (List ℕ)) (m' : HsMsg) (r' : HsReader)
    → IsRead s m r
    → optional_request m r ≡ ok (full, m', r')
    → IsReadRequest s full m' r'
unfolding optional_request
optional_request-eq-ok s m r full m' r' first h =
    elim (Bool-cases (m.msg_type == hs_certificate_request)) [
      | inl requested ↦
          let is : m.msg_type ≡ hs_certificate_request = ground (arith, requested) in
          let run =
            sym (
              ap
                (λ (t : Bool).
                  if t
                  then (next_msg r >>= λ after. ok (some m.full, after.0, after.1))
                  else ok (none, m, r))
                requested)
            ∙ h in
          let (after, e, found) = >>=-eq-ok (next_msg r) _ _ run in
          let m_eq : after.0 ≡ m' = cc found in
          let r_eq : after.1 ≡ r' = cc found in
          let full_eq : some m.full ≡ full = cc found in
          let read = next_msg-eq-ok r first.after after.0 after.1 first.moved first.bytes e in
          let head = ap (λ t. message t m.body) is in
          record {
            request = some m.body;
            rest = first.after;
            split = first.split ∙ ap (λ t. t ++ first.after) head;
            framed = sym full_eq ∙ ap some (first.framed ∙ head);
            small = first.small;
            read =
                subst (λ t. IsRead first.after m' t) r_eq
                  (subst (λ t. IsRead first.after t after.1) m_eq read);
          }
      | inr unasked ↦
          let found =
            sym (
              ap
                (λ (t : Bool).
                  if t
                  then (next_msg r >>= λ after. ok (some m.full, after.0, after.1))
                  else ok (none, m, r))
                unasked)
            ∙ h in
          let m_eq : m ≡ m' = cc found in
          let r_eq : r ≡ r' = cc found in
          let full_eq : none ≡ full = cc found in
          record {
            request = none;
            rest = s;
            split = refl;
            framed = sym full_eq;
            small = tt;
            read = subst (λ t. IsRead s m' t) r_eq (subst (λ t. IsRead s t r) m_eq first);
          }
    ]

expect-eq-ok :
    (expected : ℕ) (s : List ℕ) (m : HsMsg) (r : HsReader)
    (k : HsMsg → Result FlightError ServerFlightView) (v : ServerFlightView)
    → IsRead s m r
    → (expect expected m >> k m) ≡ ok v
    → (m ≡ typed expected m.body) × (k (typed expected m.body) ≡ ok v)
expect-eq-ok expected s m r k v read h =
    let (same, run) = fail_if-eq-ok (not (m.msg_type == expected)) _ (k m) v h in
    let is : m.msg_type ≡ expected = ground arith in
    let m_eq : m ≡ typed expected m.body =
      ap₂ (λ t u. record { msg_type = t; body = m.body; full = u }) is
        (read.framed ∙ ap (λ t. message t m.body) is) in
    (m_eq, ap k (sym m_eq) ∙ run)

-- What a run that reads a message of the expected type goes on with.
read_message :
    {C : Type 0} (expected : ℕ) (r : HsReader) (s : List ℕ)
    (k : HsMsg → HsReader → Result FlightError ServerFlightView) (v : ServerFlightView)
    → IsAt r s
    → IsBytes s
    → (next_msg r >>= λ p. expect expected p.0 >> k p.0 p.1) ≡ ok v
    → ((body s' : List ℕ) (r' : HsReader)
        → s ≡ message expected body ++ s'
        → length body < 2 ^ 24
        → IsAt r' s'
        → IsBytes s'
        → k (typed expected body) r' ≡ ok v
        → C)
    → C
read_message expected r s k v here bytes h go =
    let (p, e, h') = >>=-eq-ok (next_msg r) _ v h in
    let read = next_msg-eq-ok r s p.0 p.1 here bytes e in
    let (is, run) = expect-eq-ok expected s p.0 p.1 (λ m. k m p.1) v read h' in
    go p.0.body read.after p.1
      (read.split ∙ ap (λ (m : HsMsg). message m.msg_type p.0.body ++ read.after) is) read.small
      read.moved read.bytes run

-- What a run that reads the optional CertificateRequest and the Certificate goes on with.
read_certificate :
    {C : Type 0} (r : HsReader) (s : List ℕ)
    (k : Option (List ℕ) → HsMsg → HsReader → Result FlightError ServerFlightView)
    (v : ServerFlightView)
    → IsAt r s
    → IsBytes s
    → (next_msg r >>= λ p.
        optional_request p.0 p.1 >>= λ q. expect hs_certificate q.1 >> k q.0 q.1 q.2)
      ≡ ok v
    → ((request : Option (List ℕ)) (body s' : List ℕ) (r' : HsReader)
        → s ≡ request_bytes request ++ (message hs_certificate body ++ s')
        → IsSmallRequest request
        → length body < 2 ^ 24
        → IsAt r' s'
        → IsBytes s'
        → k (framed_request request) (typed hs_certificate body) r' ≡ ok v
        → C)
    → C
read_certificate r s k v here bytes h go =
    let (p, e, h') = >>=-eq-ok (next_msg r) _ v h in
    let (q, e', h'') = >>=-eq-ok (optional_request p.0 p.1) _ v h' in
    let found =
      optional_request-eq-ok s p.0 p.1 q.0 q.1 q.2 (next_msg-eq-ok r s p.0 p.1 here bytes e) e' in
    let read = found.read in
    let (is, run) = expect-eq-ok hs_certificate found.rest q.1 q.2 (λ m. k q.0 m q.2) v read h'' in
    let whole =
      found.split
      ∙ ap (λ t. request_bytes found.request ++ t)
          (read.split ∙ ap (λ (m : HsMsg). message m.msg_type q.1.body ++ read.after) is) in
    go found.request q.1.body read.after q.2 whole found.small read.small read.moved read.bytes
      (ap (λ t. k t (typed hs_certificate q.1.body) q.2) (sym found.framed) ∙ run)

at_end : (r : HsReader) (s : List ℕ) → IsAt r s → r.pos ≡ length r.buf → s ≡ []
at_end r [] here end = refl
at_end r (x ∷ s) here end = let whole = here.inside in absurd (omega arith)

-- What the parser accepts is a flight, and the view is the view of its bodies.
pub parse_server_flight-eq-ok :
    (content : List ℕ) (v : ServerFlightView)
    → IsBytes content
    → parse_server_flight content ≡ ok v
    → (b : Bodies) × IsSmall b × (content ≡ flight b) × (v ≡ view b)
unfolding parse_server_flight
parse_server_flight-eq-ok content v bytes h =
    read_message hs_encrypted_extensions (record { buf = content; pos = 0 }) content _ v
      (start content) bytes h
      (λ ee s1 r1 e1 small1 at1 bytes1 h1.
        read_certificate r1 s1 _ v at1 bytes1 h1
          (λ request cert s2 r2 e2 small2 small2' at2 bytes2 h2.
            read_message hs_certificate_verify r2 s2 _ v at2 bytes2 h2
              (λ cv s3 r3 e3 small3 at3 bytes3 h3.
                read_message hs_finished r3 s3 _ v at3 bytes3 h3
                  (λ fin s4 r4 e4 small4 at4 bytes4 h4.
                    let (end, found) = fail_if-eq-ok (not (r4.pos == length r4.buf)) _ _ v h4 in
                    let last : s4 ≡ [] = at_end r4 s4 at4 (ground arith) in
                    let b : Bodies = record {
                      ee = ee;
                      request = request;
                      cert = cert;
                      cv = cv;
                      fin = fin;
                    } in
                    let fin_eq =
                      e4
                      ∙ ap (λ t. message hs_finished fin ++ t) last
                      ∙ append-nil (message hs_finished fin) in
                    let cv_eq = e3 ∙ ap (λ t. message hs_certificate_verify cv ++ t) fin_eq in
                    let cert_eq =
                      e2
                      ∙ ap (λ t. request_bytes request ++ (message hs_certificate cert ++ t))
                          cv_eq in
                    (
                      b,
                      record {
                        ee_lt = small1;
                        request_lt = small2;
                        cert_lt = small2';
                        cv_lt = small3;
                        fin_lt = small4;
                      },
                      e1 ∙ ap (λ t. message hs_encrypted_extensions ee ++ t) cert_eq,
                      cc found,
                    )))))
