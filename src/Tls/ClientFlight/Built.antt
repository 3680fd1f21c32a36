-- ===== src/Tls/ClientFlight/Built.antt =====
-- What the builders of krabitls/src/client_flight.rs write.
use krabitls_rs.Base.{
  ℕ, ◌+◌, ◌%◌, ◌^◌, ◌≤◌, ◌<◌, ◌≡◌, refl, sym, ap, ◌∙◌, Bool, true, false, List, [], ◌∷◌, ◌++◌,
  length, ltb, ◌==◌, Result, ok, ◌>>◌, fail_if, map_err, append-nil, arith,
}
use native.Mathlib.Nat.{mod-eq_of_lt}
use krabitls_rs.Base.Lists.{length-append}
use krabitls_rs.Base.Results.{>>=-eq-ok, map_err-eq-ok}
use krabitls_rs.Base.Bytes.{to_be_bytes}
use krabitls_rs.Tls.ClientFlight.{
  ClientAuth, ClientAuthFlightError, empty_certificate, certificate_too_long, context_too_long,
  max_client_cert_der, u24, certificate_verify_signed_content, build_client_certificate,
  build_client_certificate_verify,
}
use krabitls_rs.Tls.Reassembler.Flight.{message}
use krabitls_rs.Tls.ServerFlight.{hs_certificate, hs_certificate_verify}
use krabitls_rs.Tls.ServerFlight.Chained.{certificate_body, entries}
use krabitls_rs.Tls.ServerFlight.Verified.{certificate_verify}

-- The chain of one certificate without extensions.
abbrev pub single : List ℕ → List (List ℕ × List ℕ)
single cert_der = (cert_der, []) ∷ []

-- A length below 2^24 keeps its value on the way to its three bytes.
u24_small : (n m : ℕ) → n < 2 ^ 24 → n ≡ m → u24 n ≡ to_be_bytes 3 m
u24_small n m small same =
    let whole : n % 2 ^ 32 ≡ n = mod-eq_of_lt (omega arith) in ap (to_be_bytes 3) (whole ∙ same)

length-single : (cert_der : List ℕ) → length (entries (single cert_der)) ≡ 3 + length cert_der + 2
length-single cert_der = omega (
  arith,
  length-append cert_der (0 ∷ 0 ∷ []),
  length-append (to_be_bytes 3 (length cert_der) ++ (cert_der ++ (0 ∷ 0 ∷ []))) [],
)

pub length-certificate_body :
    (context cert_der : List ℕ)
    → length (certificate_body context (single cert_der))
      ≡ 1 + length context + (3 + (3 + length cert_der + 2))
length-certificate_body context cert_der =
    let list = entries (single cert_der) in
    omega
      (arith, length-single cert_der, length-append context (to_be_bytes 3 (length list) ++ list))

-- A run of tests that all pass.
abbrev four_tests {ℓ} :
    {A : Type ℓ}
    → Bool
    → Bool
    → Bool
    → Bool
    → ClientAuthFlightError
    → ClientAuthFlightError
    → ClientAuthFlightError
    → ClientAuthFlightError
    → A
    → Result ClientAuthFlightError A
four_tests a b c d e f g k m = do fail_if a e; fail_if b f; fail_if c g; fail_if d k; ok m

four_tests_pass {ℓ} :
    {A : Type ℓ} (a b c d : Bool) (e f g k : ClientAuthFlightError) (m r : A)
    → four_tests a b c d e f g k m ≡ ok r
    → (a ≡ false) × (b ≡ false) × (c ≡ false) × (d ≡ false) × (m ≡ r)
four_tests_pass true b c d e f g k m r h = absurd (cc h)
four_tests_pass false true c d e f g k m r h = absurd (cc h)
four_tests_pass false false true d e f g k m r h = absurd (cc h)
four_tests_pass false false false true e f g k m r h = absurd (cc h)
four_tests_pass false false false false e f g k m r h = (refl, refl, refl, refl, cc h)

-- The bytes of a Certificate from its length fields.
abbrev certificate_of : List ℕ → List ℕ → List ℕ → List ℕ → List ℕ → ℕ → List ℕ
certificate_of cert_der context body_len list_len cert_len context_len =
    hs_certificate
    ∷ (body_len
        ++ (context_len ∷ (context ++ (list_len ++ (cert_len ++ (cert_der ++ (0 ∷ 0 ∷ [])))))))

certificate_of-fields :
    (cert_der context b b' l l' c c' : List ℕ) (n n' : ℕ)
    → b ≡ b'
    → l ≡ l'
    → c ≡ c'
    → n ≡ n'
    → certificate_of cert_der context b l c n ≡ certificate_of cert_der context b' l' c' n'
certificate_of-fields cert_der context b b' l l' c c' n n' hb hl hc hn =
    ap (λ t. certificate_of cert_der context t l c n) hb
    ∙ ap (λ t. certificate_of cert_der context b' t c n) hl
    ∙ ap (λ t. certificate_of cert_der context b' l' t n) hc
    ∙ ap (λ t. certificate_of cert_der context b' l' c' t) hn

abbrev total_len : List ℕ → List ℕ → ℕ
total_len cert_der context = 1 + length context + (3 + (3 + length cert_der + 2))

-- The bytes that `build_client_certificate` writes.
certificate_bytes :
    (cert_der context : List ℕ)
    → length cert_der ≤ max_client_cert_der
    → length context ≤ 255
    → certificate_of cert_der context
        (u24 (total_len cert_der context))
        (u24 (3 + length cert_der + 2))
        (u24 (length cert_der))
        (length context % 2 ^ 8)
      ≡ message hs_certificate (certificate_body context (single cert_der))
certificate_bytes cert_der context cert_fits context_fits =
    let list = entries (single cert_der) in
    let body = certificate_body context (single cert_der) in
    let body_len =
      u24_small (total_len cert_der context) (length body) (omega arith)
        (sym (length-certificate_body context cert_der)) in
    let list_len =
      u24_small (3 + length cert_der + 2) (length list) (omega arith)
        (sym (length-single cert_der)) in
    let cert_len = u24_small (length cert_der) (length cert_der) (omega arith) refl in
    let context_len : length context % 2 ^ 8 ≡ length context = mod-eq_of_lt (omega arith) in
    let closed = append-nil (to_be_bytes 3 (length cert_der) ++ (cert_der ++ (0 ∷ 0 ∷ []))) in
    certificate_of-fields cert_der context _ _ _ _ _ _ _ _ body_len list_len cert_len context_len
    ∙ ap
        (λ t.
          hs_certificate
          ∷ (to_be_bytes 3 (length body)
              ++ (length context ∷ (context ++ (to_be_bytes 3 (length list) ++ t)))))
        (sym closed)

-- What `build_client_certificate` did when it succeeds.
pub build_client_certificate-eq-ok :
    (cert_der context : List ℕ) (out_len : ℕ) (bytes : List ℕ)
    → build_client_certificate cert_der context out_len ≡ ok bytes
    → (bytes ≡ message hs_certificate (certificate_body context (single cert_der)))
      × (1 ≤ length cert_der)
      × (length cert_der ≤ max_client_cert_der)
      × (length context ≤ 255)
      × (4 + total_len cert_der context ≤ out_len)
unfolding build_client_certificate
build_client_certificate-eq-ok cert_der context out_len bytes h =
    let (some_cert, fits, fits', room, same) =
      four_tests_pass (length cert_der == 0) (ltb max_client_cert_der (length cert_der))
        (ltb 255 (length context)) (ltb out_len (4 + total_len cert_der context)) empty_certificate
        certificate_too_long context_too_long ClientAuthFlightError.buffer_too_small
        (certificate_of cert_der context (u24 (total_len cert_der context))
          (u24 (3 + length cert_der + 2)) (u24 (length cert_der)) (length context % 2 ^ 8))
        bytes h in
    let cert_fits : length cert_der ≤ max_client_cert_der = ground (arith, fits) in
    let context_fits : length context ≤ 255 = ground (arith, fits') in
    (
      sym same ∙ certificate_bytes cert_der context cert_fits context_fits,
      ground (arith, some_cert),
      cert_fits,
      context_fits,
      ground (arith, room),
    )

-- When `build_client_certificate` succeeds.
pub build_client_certificate_fits :
    (cert_der context : List ℕ) (out_len : ℕ)
    → 1 ≤ length cert_der
    → length cert_der ≤ max_client_cert_der
    → length context ≤ 255
    → 4 + total_len cert_der context ≤ out_len
    → build_client_certificate cert_der context out_len
      ≡ ok (message hs_certificate (certificate_body context (single cert_der)))
unfolding build_client_certificate
build_client_certificate_fits cert_der context out_len some_cert fits fits' room =
    let g1 : (length cert_der == 0) ≡ false = ground arith in
    let g2 : ltb max_client_cert_der (length cert_der) ≡ false = ground arith in
    let g3 : ltb 255 (length context) ≡ false = ground arith in
    let g4 : ltb out_len (4 + total_len cert_der context) ≡ false = ground arith in
    rw (g1, g2, g3, g4) (ap ok (certificate_bytes cert_der context fits fits'))

-- The bytes of a CertificateVerify.
certificate_verify_bytes :
    (scheme : ℕ) (sig : List ℕ)
    → length sig ≤ 0xffff
    → hs_certificate_verify
        ∷ (u24 (2 + 2 + length sig)
            ++ (to_be_bytes 2 scheme ++ (to_be_bytes 2 (length sig) ++ sig)))
      ≡ message hs_certificate_verify (certificate_verify scheme sig)
certificate_verify_bytes scheme sig fits =
    let body_len =
      u24_small (2 + 2 + length sig) (length (certificate_verify scheme sig)) (omega arith)
        (omega arith) in
    ap (λ t. hs_certificate_verify ∷ (t ++ certificate_verify scheme sig)) body_len

-- What `build_client_certificate_verify` did when it succeeds.
pub build_client_certificate_verify-eq-ok :
    (auth : ClientAuth) (transcript_hash : List ℕ) (out_len : ℕ) (bytes : List ℕ)
    → build_client_certificate_verify auth transcript_hash out_len ≡ ok bytes
    → (sig : List ℕ) × (auth.sign_content (certificate_verify_signed_content transcript_hash)
        ≡ ok sig)
      × (bytes ≡ message hs_certificate_verify (certificate_verify auth.scheme sig))
      × (length sig ≤ 0xffff)
      × (8 + length sig ≤ out_len)
unfolding build_client_certificate_verify
build_client_certificate_verify-eq-ok auth transcript_hash out_len bytes h =
    let (sig, signed, h') =
      >>=-eq-ok
        (map_err ClientAuthFlightError.sign
          (auth.sign_content (certificate_verify_signed_content transcript_hash)))
        _ bytes h in
    let (_, room, fits, _, same) =
      four_tests_pass false (ltb out_len (4 + (2 + 2 + length sig))) (ltb 0xffff (length sig)) false
        context_too_long ClientAuthFlightError.buffer_too_small
        ClientAuthFlightError.buffer_too_small context_too_long
        (hs_certificate_verify
          ∷ (u24 (2 + 2 + length sig)
              ++ (to_be_bytes 2 auth.scheme ++ (to_be_bytes 2 (length sig) ++ sig))))
        bytes h' in
    let small : length sig ≤ 0xffff = ground (arith, fits) in
    (
      sig,
      map_err-eq-ok _ _ _ signed,
      sym same ∙ certificate_verify_bytes auth.scheme sig small,
      small,
      ground (arith, room),
    )

-- When `build_client_certificate_verify` succeeds.
pub build_client_certificate_verify_fits :
    (auth : ClientAuth) (transcript_hash : List ℕ) (out_len : ℕ) (sig : List ℕ)
    → auth.sign_content (certificate_verify_signed_content transcript_hash) ≡ ok sig
    → length sig ≤ 0xffff
    → 8 + length sig ≤ out_len
    → build_client_certificate_verify auth transcript_hash out_len
      ≡ ok (message hs_certificate_verify (certificate_verify auth.scheme sig))
unfolding build_client_certificate_verify
build_client_certificate_verify_fits auth transcript_hash out_len sig signed small room =
    let g1 : ltb out_len (4 + (2 + 2 + length sig)) ≡ false = ground arith in
    let g2 : ltb 0xffff (length sig) ≡ false = ground arith in
    rw (signed, g1, g2) (ap ok (certificate_verify_bytes auth.scheme sig small))
