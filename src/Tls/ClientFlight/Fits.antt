-- ===== src/Tls/ClientFlight/Fits.antt =====
-- When a client that authenticates itself builds its flight, in krabitls/src/client_flight.rs.
use krabitls_rs.Base.{ℕ, ◌≤◌, ◌≡◌, ◌↔◌, refl, inl, List, ◌++◌, length, replicate, ok, arith}
use krabitls_rs.Base.Lists.{length-append}
use krabitls_rs.Keys.Hkdf.{HkdfSha256}
use krabitls_rs.Keys.Schedule.{TranscriptHash}
use krabitls_rs.Keys.Schedule.Total.{IsTotal, schedule_total}
use krabitls_rs.Tls.ClientFlight.{
  ClientAuth, max_client_sig_len, max_client_auth_flight, certificate_verify_signed_content,
}
use krabitls_rs.Tls.ClientFlight.Built.{length-certificate_body}
use krabitls_rs.Tls.ClientFlight.Policies.{with_client_auth, build_flight}
use krabitls_rs.Tls.ClientFlight.Joined.{
  certificate_message, verify_message, finished_message, IsFlight, IsAnswerable, build_flight-eq-ok,
  build_flight-flight,
}

-- The flight of a client that authenticates itself: it is built exactly when the server offers the
-- signer's scheme, the certificate has 1 to 1536 bytes, the context has at most 255, and the result
-- is the Certificate with that one certificate, the CertificateVerify with the signer's signature
-- over the transcript through the Certificate, and the Finished over the transcript through
-- CertificateVerify, all three heard by the transcript, and it fits in the buffer.
pub build_flight_iff :
    (auth : ClientAuth) (h : HkdfSha256) (context sig_algs c_hs_traffic_secret : List ℕ)
    (t : TranscriptHash) (out_len : ℕ) (bytes : List ℕ) (t' : TranscriptHash)
    → (build_flight (with_client_auth auth) h context sig_algs c_hs_traffic_secret t out_len
        ≡ ok (bytes, t'))
      ↔ (IsAnswerable auth context sig_algs
          × IsFlight auth h context c_hs_traffic_secret t bytes t'
          × (length bytes ≤ out_len))
build_flight_iff auth h context sig_algs c_hs_traffic_secret t out_len bytes t' = (
  build_flight-eq-ok auth h context sig_algs c_hs_traffic_secret t out_len bytes t',
  λ (answerable, flight, room).
      build_flight-flight auth h context sig_algs c_hs_traffic_secret t out_len bytes t' answerable
        flight room,
)

-- A hash that does not fail and has 32 bytes.
abbrev pub Hashes : HkdfSha256 → Type 0
Hashes h = (fed : List ℕ) → (hash : List ℕ) × (h.snapshot fed ≡ ok hash) × (length hash ≡ 32)

-- A signer that does not fail, within the size of its buffer.
abbrev pub Signs : ClientAuth → Type 0
Signs auth =
    (content : List ℕ)
    → (sig : List ℕ) × (auth.sign_content content ≡ ok sig) × (length sig ≤ max_client_sig_len)

-- The bound on the flight is enough: with a hash and a signer that do not fail, an answerable
-- request and a secret of 32 bytes, a buffer of `max_client_auth_flight` bytes holds the flight.
pub build_flight_fits :
    (auth : ClientAuth) (h : HkdfSha256)
    → IsTotal h
    → Hashes h
    → Signs auth
    → (context sig_algs c_hs_traffic_secret : List ℕ) (t : TranscriptHash) (out_len : ℕ)
    → IsAnswerable auth context sig_algs
    → length c_hs_traffic_secret ≡ 32
    → max_client_auth_flight ≤ out_len
    → (bytes : List ℕ) × (t' : TranscriptHash) × (build_flight
          (with_client_auth auth)
          h
          context
          sig_algs
          c_hs_traffic_secret
          t
          out_len
        ≡ ok (bytes, t'))
      × (length bytes ≤ max_client_auth_flight)
build_flight_fits auth h total hashes signs context sig_algs secret t out_len answerable size room =
    let cert = certificate_message auth context in
    let (th_cert, hashed, _) = hashes (t.fed ++ cert) in
    let (sig, signed, small) = signs (certificate_verify_signed_content th_cert) in
    let cv = verify_message auth sig in
    let (th_cv, hashed', hash_size) = hashes ((t.fed ++ cert) ++ cv) in
    let (_, _, _, _, _, (mac, made, mac_size), _) =
      schedule_total h total 16 (replicate 32 0) secret th_cv (omega arith) (inl refl) size
        hash_size in
    let bytes = (cert ++ cv) ++ finished_message mac in
    let t' : TranscriptHash = record { fed = ((t.fed ++ cert) ++ cv) ++ finished_message mac } in
    let (_, _, fits, fits') = answerable in
    let bound : length bytes ≤ max_client_auth_flight = omega (
      arith,
      length-certificate_body context auth.cert_der,
      length-append cert cv,
      length-append (cert ++ cv) (finished_message mac),
    ) in
    (
      bytes,
      t',
      build_flight-flight auth h context sig_algs secret t out_len bytes t' answerable
          (record {
            th_cert = th_cert;
            sig = sig;
            th_cv = th_cv;
            mac = mac;
            hashed = hashed;
            signed = signed;
            hashed' = hashed';
            authentic = made;
            whole = refl;
            heard = refl;
            small = omega arith;
          })
          (omega arith),
      bound,
    )
