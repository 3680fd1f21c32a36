-- ===== src/Tls/ServerFlight/Trusted.antt =====
-- The flights that pass all checks of krabitls/src/server_flight.rs.
use krabitls_rs.Base.{
  ℕ, ◌≡◌, ◌↔◌, refl, sym, ap, ap₂, ◌∙◌, List, ◌++◌, Option, none, some, Result, ok, err, ◌>>=◌,
  ◌>>◌, map_err, >>=-eq-ok, append_assoc, append-nil, arith,
}
use krabitls_rs.Base.Bytes.{IsBytes}
use krabitls_rs.Certs.View.{CertView, ServerPubkey}
use krabitls_rs.Keys.Hkdf.{HkdfSha256, HkdfBackendError}
use krabitls_rs.Keys.Schedule.{TranscriptHash, TranscriptError, update, snapshot}
use krabitls_rs.Tls.Reassembler.{hs_finished}
use krabitls_rs.Tls.Reassembler.Flight.{message}
use krabitls_rs.Tls.ServerFlight.{
  FlightError, hs_encrypted_extensions, hs_certificate, hs_certificate_verify, ServerFlightView,
  parse_server_flight,
}
use krabitls_rs.Tls.ServerFlight.Bodies.{
  Bodies, IsSmall, flight, view, request_bytes, framed_request,
}
use krabitls_rs.Tls.ServerFlight.Parsed.{parse_server_flight_iff}
use krabitls_rs.Tls.ServerFlight.Verify.{
  PreparedVerifier, MlDsaSigBytes, verify_certificate_verify_with_prepared, verify_server_finished,
  server_pubkey, update_some, verify_server_flight,
}

-- The flight up to the Certificate, and up to the CertificateVerify.
abbrev pub through_cert : Bodies → List ℕ
through_cert b =
    message hs_encrypted_extensions b.ee
    ++ (request_bytes b.request ++ message hs_certificate b.cert)

abbrev pub through_cv : Bodies → List ℕ
through_cv b = through_cert b ++ message hs_certificate_verify b.cv

-- What a flight that is accepted has gone through, with its two transcript hashes.
pub record IsTrusted (h : HkdfSha256) (sizes : MlDsaSigBytes) (t : TranscriptHash)
    (plaintext secret : List ℕ) (prepared : PreparedVerifier) : Type 0 where
  pub bodies : Bodies
  pub small : IsSmall bodies
  pub whole : plaintext ≡ flight bodies
  pub cert_hash : List ℕ
  pub cert_hash_eq : h.snapshot (t.fed ++ through_cert bodies) ≡ ok cert_hash
  pub cert_signed :
      verify_certificate_verify_with_prepared sizes prepared cert_hash bodies.cv ≡ ok tt
  pub cv_hash : List ℕ
  pub cv_hash_eq : h.snapshot (t.fed ++ through_cv bodies) ≡ ok cv_hash
  pub finished : verify_server_finished h secret cv_hash bodies.fin ≡ ok tt

mapped :
    (m : Result HkdfBackendError (List ℕ)) (hash : List ℕ)
    → (map_err FlightError.transcript (map_err TranscriptError.backend m) ≡ ok hash) ↔ (m ≡ ok hash)
mapped (ok a) hash = ground arith
mapped (err e) hash = ground arith

-- A run of `>>` that succeeds.
>>-eq-ok :
    {B : Type 0} (m : Result FlightError (Unit {0})) (k : Result FlightError B) (b : B)
    → (m >> k) ≡ ok b
    → (m ≡ ok tt) × (k ≡ ok b)
>>-eq-ok (ok u) k b h = (refl, h)
>>-eq-ok (err e) k b h = absurd (cc h)

-- The transcript after the Certificate, as the code updates it.
abbrev after_cert : TranscriptHash → ServerFlightView → TranscriptHash
after_cert t v = update (update_some (update t v.ee_full) v.cert_request_full) v.cert_full

update-requested :
    (t : TranscriptHash) (request : Option (List ℕ))
    → (update_some t (framed_request request)).fed ≡ t.fed ++ request_bytes request
update-requested t none = sym (append-nil t.fed)
update-requested t (some body) = refl

fed_cert : (t : TranscriptHash) (b : Bodies) → (after_cert t (view b)).fed ≡ t.fed ++ through_cert b
fed_cert t b =
    let ee = message hs_encrypted_extensions b.ee in
    let cert = message hs_certificate b.cert in
    ap (λ s. s ++ cert) (update-requested (update t ee) b.request)
    ∙ append_assoc (t.fed ++ ee) (request_bytes b.request) cert
    ∙ append_assoc t.fed ee (request_bytes b.request ++ cert)

fed_cv :
    (t : TranscriptHash) (b : Bodies)
    → (after_cert t (view b)).fed ++ message hs_certificate_verify b.cv ≡ t.fed ++ through_cv b
fed_cv t b =
    let cv = message hs_certificate_verify b.cv in
    ap (λ s. s ++ cv) (fed_cert t b) ∙ append_assoc t.fed (through_cert b) cv

fed_all :
    (t : TranscriptHash) (b : Bodies)
    → ((after_cert t (view b)).fed ++ message hs_certificate_verify b.cv)
        ++ message hs_finished b.fin
      ≡ t.fed ++ flight b
fed_all t b =
    let ee = message hs_encrypted_extensions b.ee in
    let cert = message hs_certificate b.cert in
    let cv = message hs_certificate_verify b.cv in
    let fin = message hs_finished b.fin in
    ap (λ s. s ++ fin) (fed_cv t b)
    ∙ append_assoc t.fed (through_cv b) fin
    ∙ ap (λ s. t.fed ++ s)
        (append_assoc (through_cert b) cv fin
          ∙ append_assoc ee (request_bytes b.request ++ cert) (cv ++ fin)
          ∙ ap (λ s. ee ++ s) (append_assoc (request_bytes b.request) cert (cv ++ fin)))

-- What `verify_server_flight` does with a parsed flight.
abbrev checks :
    HkdfSha256
    → MlDsaSigBytes
    → TranscriptHash
    → List ℕ
    → PreparedVerifier
    → CertView
    → ServerFlightView
    → Result FlightError (TranscriptHash × ServerPubkey)
checks h sizes t secret prepared leaf v = do
  hash ← map_err FlightError.transcript (snapshot h (after_cert t v))
  verify_certificate_verify_with_prepared sizes prepared hash v.cv_body
  let t' = update (after_cert t v) v.cv_full
  hash' ← map_err FlightError.transcript (snapshot h t')
  verify_server_finished h secret hash' v.fin_body
  ok (update t' v.fin_full, server_pubkey leaf)

module _ (h : HkdfSha256) (sizes : MlDsaSigBytes) (t : TranscriptHash) (plaintext secret : List ℕ)
    (prepared : PreparedVerifier) (leaf : CertView) where
  trusted :
      (t' : TranscriptHash) (key : ServerPubkey) (b : Bodies)
      → IsSmall b
      → plaintext ≡ flight b
      → checks h sizes t secret prepared leaf (view b) ≡ ok (t', key)
      → IsTrusted h sizes t plaintext secret prepared
        × (t'.fed ≡ t.fed ++ plaintext)
        × (key ≡ server_pubkey leaf)
  trusted t' key b small whole run =
      let (hash, e, run1) =
        >>=-eq-ok (map_err FlightError.transcript (snapshot h (after_cert t (view b)))) _ (t', key)
          run in
      let (signed, run2) =
        >>-eq-ok (verify_certificate_verify_with_prepared sizes prepared hash b.cv) _ (t', key)
          run1 in
      let (hash', e', run3) =
        >>=-eq-ok
          (map_err FlightError.transcript
            (snapshot h (update (after_cert t (view b)) (view b).cv_full)))
          _ (t', key) run2 in
      let (finished, run4) =
        >>-eq-ok (verify_server_finished h secret hash' b.fin) _ (t', key) run3 in
      let found : (t', key) ≡ (
        update (update (after_cert t (view b)) (view b).cv_full) (view b).fin_full,
        server_pubkey leaf,
      ) =
        cc run4 in
      (
        record {
          bodies = b;
          small = small;
          whole = whole;
          cert_hash = hash;
          cert_hash_eq = ap h.snapshot (sym (fed_cert t b)) ∙ (mapped _ hash).0 e;
          cert_signed = signed;
          cv_hash = hash';
          cv_hash_eq = ap h.snapshot (sym (fed_cv t b)) ∙ (mapped _ hash').0 e';
          finished = finished;
        },
        ap (λ (p : TranscriptHash × ServerPubkey). p.0.fed) found
            ∙ fed_all t b
            ∙ ap (λ s. t.fed ++ s) (sym whole),
        ap (λ (p : TranscriptHash × ServerPubkey). p.1) found,
      )

  trusted_passes :
      (t' : TranscriptHash) (key : ServerPubkey) (c : IsTrusted h sizes t plaintext secret prepared)
      → t'.fed ≡ t.fed ++ plaintext
      → key ≡ server_pubkey leaf
      → checks h sizes t secret prepared leaf (view c.bodies) ≡ ok (t', key)
  trusted_passes t' key c fed same =
      let b = c.bodies in
      let first = (mapped _ c.cert_hash).1 (ap h.snapshot (fed_cert t b) ∙ c.cert_hash_eq) in
      let second = (mapped _ c.cv_hash).1 (ap h.snapshot (fed_cv t b) ∙ c.cv_hash_eq) in
      let end : record {
        fed = ((after_cert t (view b)).fed ++ (view b).cv_full) ++ (view b).fin_full;
      }
          ≡ t' =
        ap (λ s. record { fed = s }) (fed_all t b ∙ ap (λ s. t.fed ++ s) (sym c.whole) ∙ sym fed) in
      rw (first, c.cert_signed, second, c.finished) (ap₂ (λ x y. ok (x, y)) end (sym same))

-- A server's flight is trusted exactly when it is the messages of a flight, its CertificateVerify is
-- valid over the transcript hash up to the Certificate, and its Finished over the hash up to the
-- CertificateVerify; the transcript has then grown by exactly the flight, and the key is the leaf's.
pub verify_server_flight_iff :
    (h : HkdfSha256) (sizes : MlDsaSigBytes) (t : TranscriptHash) (plaintext secret : List ℕ)
    (prepared : PreparedVerifier) (leaf : CertView) (t' : TranscriptHash) (key : ServerPubkey)
    → IsBytes plaintext
    → (verify_server_flight h sizes t plaintext secret prepared leaf ≡ ok (t', key)) ↔ (
        IsTrusted h sizes t plaintext secret prepared
        × (t'.fed ≡ t.fed ++ plaintext)
        × (key ≡ server_pubkey leaf))
unfolding verify_server_flight
verify_server_flight_iff h sizes t plaintext secret prepared leaf t' key bytes = (
  λ run.
      let (v, e, run') =
        >>=-eq-ok (parse_server_flight plaintext) (checks h sizes t secret prepared leaf) (t', key)
          run in
      let (b, small, whole, v_eq) = (parse_server_flight_iff plaintext v bytes).0 e in
      trusted h sizes t plaintext secret prepared leaf t' key b small whole
        (ap (checks h sizes t secret prepared leaf) (sym v_eq) ∙ run'),
  λ found.
      let (c, fed, same) = found in
      let parsed =
        (parse_server_flight_iff plaintext (view c.bodies) bytes).1
          (c.bodies, c.small, c.whole, refl) in
      ap (λ m. m >>= checks h sizes t secret prepared leaf) parsed
      ∙ trusted_passes h sizes t plaintext secret prepared leaf t' key c fed same,
)
