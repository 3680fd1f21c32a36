-- ===== src/Tls/ClientFlight/Joined.antt =====
-- The flight of a client that authenticates itself, in krabitls/src/client_flight.rs.
use krabitls_rs.Base.{
  ℕ, ◌+◌, ◌-◌, ◌≤◌, ◌≡◌, sym, ap, ap₂, ◌∙◌, true, false, not, List, ◌∷◌, ◌++◌, length, ltb, Result,
  ok, ◌>>=◌, map_err, fail_if-eq-ok, arith,
}
use krabitls_rs.Base.Lists.{length-append}
use krabitls_rs.Base.Results.{>>=-eq-ok, map_err-eq-ok}
use krabitls_rs.Keys.Hkdf.{HkdfSha256}
use krabitls_rs.Keys.Schedule.{TranscriptHash, update, snapshot, finished_mac}
use krabitls_rs.Tls.ClientFlight.{
  ClientAuth, ClientAuthFlightError, no_mutual_signature_algorithm, max_client_cert_der,
  certificate_verify_signed_content, build_finished_plaintext, build_client_certificate,
  build_client_certificate_verify, sig_algs_offer,
}
use krabitls_rs.Tls.ClientFlight.Built.{
  single, length-certificate_body, build_client_certificate-eq-ok, build_client_certificate_fits,
  build_client_certificate_verify-eq-ok, build_client_certificate_verify_fits,
}
use krabitls_rs.Tls.ClientFlight.Policies.{with_client_auth, append_finished, build_flight}
use krabitls_rs.Tls.Reassembler.{hs_finished}
use krabitls_rs.Tls.Reassembler.Flight.{message}
use krabitls_rs.Tls.ServerFlight.{hs_certificate, hs_certificate_verify}
use krabitls_rs.Tls.ServerFlight.Chained.{certificate_body}
use krabitls_rs.Tls.ServerFlight.Verified.{certificate_verify}

-- The three messages.
abbrev pub certificate_message : ClientAuth → List ℕ → List ℕ
certificate_message auth context =
    message hs_certificate (certificate_body context (single auth.cert_der))

abbrev pub verify_message : ClientAuth → List ℕ → List ℕ
verify_message auth sig = message hs_certificate_verify (certificate_verify auth.scheme sig)

abbrev pub finished_message : List ℕ → List ℕ
finished_message mac = hs_finished ∷ 0 ∷ 0 ∷ 0x20 ∷ mac

-- The flight of a signature and a MAC: what is signed is the transcript through the certificate,
-- and the MAC is over the transcript through the signature.
pub record IsFlight (auth : ClientAuth) (h : HkdfSha256) (context c_hs_traffic_secret : List ℕ)
    (t : TranscriptHash) (bytes : List ℕ) (t' : TranscriptHash) : Type 0 where
  pub th_cert : List ℕ
  pub sig : List ℕ
  pub th_cv : List ℕ
  pub mac : List ℕ
  pub hashed : h.snapshot (t.fed ++ certificate_message auth context) ≡ ok th_cert
  pub signed : auth.sign_content (certificate_verify_signed_content th_cert) ≡ ok sig
  pub hashed' :
      h.snapshot ((t.fed ++ certificate_message auth context) ++ verify_message auth sig) ≡ ok th_cv
  pub authentic : finished_mac h c_hs_traffic_secret th_cv ≡ ok mac
  pub whole :
      bytes ≡ (certificate_message auth context ++ verify_message auth sig) ++ finished_message mac
  pub heard : t' ≡ record {
    fed =
        ((t.fed ++ certificate_message auth context) ++ verify_message auth sig)
        ++ finished_message mac;
  }
  pub small : length sig ≤ 0xffff

-- What the input has to be.
abbrev pub IsAnswerable : ClientAuth → List ℕ → List ℕ → Type 0
IsAnswerable auth context sig_algs =
    (sig_algs_offer sig_algs auth.scheme ≡ true)
    × (1 ≤ length auth.cert_der)
    × (length auth.cert_der ≤ max_client_cert_der)
    × (length context ≤ 255)

build_finished-eq-ok :
    (h : HkdfSha256) (secret th bytes : List ℕ)
    → build_finished_plaintext h secret th ≡ ok bytes
    → (mac : List ℕ) × (finished_mac h secret th ≡ ok mac) × (bytes ≡ finished_message mac)
unfolding build_finished_plaintext
build_finished-eq-ok h secret th bytes run =
    let (mac, made, same) = >>=-eq-ok (map_err _ (finished_mac h secret th)) _ bytes run in
    (mac, map_err-eq-ok _ _ _ made, sym (cc same))

-- What `append_finished` did when it succeeds.
append_finished-eq-ok :
    (h : HkdfSha256) (secret : List ℕ) (t : TranscriptHash) (out_len : ℕ) (head bytes : List ℕ)
    (t' : TranscriptHash)
    → append_finished h secret t out_len head ≡ ok (bytes, t')
    → (th : List ℕ) × (mac : List ℕ) × (h.snapshot t.fed ≡ ok th)
      × (finished_mac h secret th ≡ ok mac)
      × (bytes ≡ head ++ finished_message mac)
      × (t' ≡ record { fed = t.fed ++ finished_message mac })
      × (length bytes ≤ out_len)
unfolding append_finished
append_finished-eq-ok h secret t out_len head bytes t' run =
    let (th, hashed, run') =
      >>=-eq-ok (map_err ClientAuthFlightError.transcript (snapshot h t)) _ (bytes, t') run in
    let (fin, built, run'') =
      >>=-eq-ok (map_err ClientAuthFlightError.finished (build_finished_plaintext h secret th)) _
        (bytes, t') run' in
    let (mac, made, same) =
      build_finished-eq-ok h secret th fin
        (map_err-eq-ok ClientAuthFlightError.finished _ fin built) in
    let (room, end) =
      fail_if-eq-ok (ltb out_len (length head + length fin)) ClientAuthFlightError.buffer_too_small
        (ok (head ++ fin, update t fin)) (bytes, t') run'' in
    let bytes_eq : head ++ fin ≡ bytes = cc end in
    let state_eq : update t fin ≡ t' = cc end in
    (
      th,
      mac,
      map_err-eq-ok _ _ _ (map_err-eq-ok ClientAuthFlightError.transcript _ th hashed),
      made,
      sym bytes_eq ∙ ap (λ f. head ++ f) same,
      sym state_eq ∙ ap (λ f. update t f) same,
      ground (arith, room, ap length bytes_eq, length-append head fin),
    )

module _ (auth : ClientAuth) (h : HkdfSha256) (context sig_algs c_hs_traffic_secret : List ℕ)
    (t : TranscriptHash) (out_len : ℕ) where
  assemble :
      (cert cv th_cert sig th_cv mac bytes : List ℕ) (t' : TranscriptHash)
      → cert ≡ certificate_message auth context
      → cv ≡ verify_message auth sig
      → h.snapshot (t.fed ++ cert) ≡ ok th_cert
      → auth.sign_content (certificate_verify_signed_content th_cert) ≡ ok sig
      → h.snapshot ((t.fed ++ cert) ++ cv) ≡ ok th_cv
      → finished_mac h c_hs_traffic_secret th_cv ≡ ok mac
      → bytes ≡ (cert ++ cv) ++ finished_message mac
      → t' ≡ record { fed = ((t.fed ++ cert) ++ cv) ++ finished_message mac }
      → length sig ≤ 0xffff
      → IsFlight auth h context c_hs_traffic_secret t bytes t'
  assemble cert cv th_cert sig th_cv mac bytes t' c v hashed signed hashed' made whole heard small =
      record {
        th_cert = th_cert;
        sig = sig;
        th_cv = th_cv;
        mac = mac;
        hashed = ap (λ x. h.snapshot (t.fed ++ x)) (sym c) ∙ hashed;
        signed = signed;
        hashed' = ap₂ (λ x y. h.snapshot ((t.fed ++ x) ++ y)) (sym c) (sym v) ∙ hashed';
        authentic = made;
        whole = whole ∙ ap₂ (λ x y. (x ++ y) ++ finished_message mac) c v;
        heard =
            heard ∙ ap₂ (λ x y. record { fed = ((t.fed ++ x) ++ y) ++ finished_message mac }) c v;
        small = small;
      }

  -- What is left of the run after the certificate.
  abbrev after_certificate : List ℕ → Result ClientAuthFlightError (List ℕ × TranscriptHash)
  after_certificate cert = do
    th_through_cert ← map_err ClientAuthFlightError.transcript (snapshot h (update t cert))
    cv ← build_client_certificate_verify auth th_through_cert (out_len - length cert)
    append_finished h c_hs_traffic_secret (update (update t cert) cv) out_len (cert ++ cv)

  after_certificate-eq-ok :
      (cert bytes : List ℕ) (t' : TranscriptHash)
      → cert ≡ certificate_message auth context
      → after_certificate cert ≡ ok (bytes, t')
      → IsFlight auth h context c_hs_traffic_secret t bytes t' × (length bytes ≤ out_len)
  after_certificate-eq-ok cert bytes t' c run =
      let (th, hashed, run') =
        >>=-eq-ok (map_err ClientAuthFlightError.transcript (snapshot h (update t cert))) _
          (bytes, t') run in
      let (cv, built, run'') =
        >>=-eq-ok (build_client_certificate_verify auth th (out_len - length cert)) _ (bytes, t')
          run' in
      let (sig, signed, v, small, room) =
        build_client_certificate_verify-eq-ok auth th (out_len - length cert) cv built in
      let (th', mac, hashed', made, whole, heard, fits) =
        append_finished-eq-ok h c_hs_traffic_secret (update (update t cert) cv) out_len (cert ++ cv)
          bytes t' run'' in
      (
        assemble cert cv th sig th' mac bytes t' c v
            (map_err-eq-ok _ _ _ (map_err-eq-ok ClientAuthFlightError.transcript _ th hashed))
            signed hashed' made whole heard small,
        fits,
      )

  pub build_flight-eq-ok :
      (bytes : List ℕ) (t' : TranscriptHash)
      → build_flight (with_client_auth auth) h context sig_algs c_hs_traffic_secret t out_len
        ≡ ok (bytes, t')
      → IsAnswerable auth context sig_algs
        × IsFlight auth h context c_hs_traffic_secret t bytes t'
        × (length bytes ≤ out_len)
  unfolding build_flight
  build_flight-eq-ok bytes t' run =
      let (offered, run') =
        fail_if-eq-ok (not (sig_algs_offer sig_algs auth.scheme)) no_mutual_signature_algorithm
          (build_client_certificate auth.cert_der context out_len >>= after_certificate) (bytes, t')
          run in
      let (cert, built, run'') =
        >>=-eq-ok (build_client_certificate auth.cert_der context out_len) after_certificate
          (bytes, t') run' in
      let (c, some_cert, fits, fits', room) =
        build_client_certificate-eq-ok auth.cert_der context out_len cert built in
      let (flight, size) = after_certificate-eq-ok cert bytes t' c run'' in
      ((ground arith, some_cert, fits, fits'), flight, size)

  pub build_flight-flight :
      (bytes : List ℕ) (t' : TranscriptHash)
      → IsAnswerable auth context sig_algs
      → (flight : IsFlight auth h context c_hs_traffic_secret t bytes t') → length bytes ≤ out_len
      → build_flight (with_client_auth auth) h context sig_algs c_hs_traffic_secret t out_len
        ≡ ok (bytes, t')
  unfolding build_flight append_finished build_finished_plaintext
  build_flight-flight bytes t' (offered, some_cert, fits, fits') flight room =
      let cert = certificate_message auth context in
      let cv = verify_message auth flight.sig in
      let fin = finished_message flight.mac in
      let body = length-certificate_body context auth.cert_der in
      let head = length-append cert cv in
      let size = ap length flight.whole ∙ length-append (cert ++ cv) fin in
      let first =
        build_client_certificate_fits auth.cert_der context out_len some_cert fits fits'
          (omega arith) in
      let second =
        build_client_certificate_verify_fits auth flight.th_cert (out_len - length cert) flight.sig
          flight.signed flight.small (omega arith) in
      let third : ltb out_len (length (cert ++ cv) + length fin) ≡ false = ground arith in
      rw (offered, first, flight.hashed, second, flight.hashed', flight.authentic, third)
        (sym (ap₂ (λ b q. ok (b, q)) flight.whole flight.heard))
