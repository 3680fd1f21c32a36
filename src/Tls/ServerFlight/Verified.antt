-- ===== src/Tls/ServerFlight/Verified.antt =====
-- What the checks of krabitls/src/server_flight.rs accept.
use krabitls_rs.Base.{
  ℕ, ◌-◌, ◌^◌, ◌≤◌, ◌<◌, ◌≡◌, ◌↔◌, ◌⊎◌, sym, ap, ap₂, ◌∙◌, true, false, not, List, [], ◌∷◌, ◌++◌,
  length, drop, replicate, ltb, ◌==◌, Result, ok, err, ◌>>=◌, fail_if, map_err, arith,
  fail_if-eq-ok,
}
use krabitls_rs.Base.Bytes.{
  IsBytes, byte_at, to_be_bytes, from_be_bytes, from_be_bytes-to_be_bytes,
  to_be_bytes-from_be_bytes, from_be_bytes-lt,
}
use krabitls_rs.Keys.Hkdf.{HkdfSha256, HkdfLabelError, hkdf_expand_label}
use krabitls_rs.Keys.Schedule.{finished_mac, extract, finished_label}
use krabitls_rs.Tls.ServerFlight.{FlightError}
use krabitls_rs.Tls.ServerFlight.Verify.{
  PreparedVerifier, MlDsaSigBytes, ed25519, rsa, mldsa, ecdsa_p256, ecdsa_p384, sig_scheme_ed25519,
  sig_scheme_ecdsa_p256, sig_scheme_ecdsa_p384, sig_scheme_rsa_pss_rsae_sha256, sig_scheme_mldsa44,
  sig_scheme_mldsa65, sig_scheme_mldsa87, certificate_verify_context, extend, check_signature,
  verify_certificate_verify_with_prepared, ct_eq, verify_server_finished,
}

-- A signature that a verifier accepts under a scheme of its own kind of key.
abbrev pub IsSigned : MlDsaSigBytes → ℕ → PreparedVerifier → List ℕ → List ℕ → Type 0
IsSigned sizes scheme (ed25519 verify) signed sig =
    (scheme ≡ sig_scheme_ed25519) × (length sig ≡ 64) × (verify signed sig ≡ true)
IsSigned sizes scheme (rsa verify) signed sig =
    (scheme ≡ sig_scheme_rsa_pss_rsae_sha256) × (verify signed sig ≡ true)
IsSigned sizes scheme (mldsa verify) signed sig =
    (((scheme ≡ sig_scheme_mldsa44) × (length sig ≡ sizes.mldsa44))
      ⊎ (((scheme ≡ sig_scheme_mldsa65) × (length sig ≡ sizes.mldsa65))
          ⊎ ((scheme ≡ sig_scheme_mldsa87) × (length sig ≡ sizes.mldsa87))))
    × (verify signed sig ≡ true)
IsSigned sizes scheme (ecdsa_p256 verify) signed sig =
    (scheme ≡ sig_scheme_ecdsa_p256) × (verify signed sig ≡ true)
IsSigned sizes scheme (ecdsa_p384 verify) signed sig =
    (scheme ≡ sig_scheme_ecdsa_p384) × (verify signed sig ≡ true)

check_signature_iff :
    (sizes : MlDsaSigBytes) (scheme : ℕ) (prepared : PreparedVerifier) (signed sig : List ℕ)
    → (check_signature sizes scheme prepared signed sig ≡ ok tt)
      ↔ IsSigned sizes scheme prepared signed sig
unfolding check_signature
check_signature_iff sizes scheme (ed25519 verify) signed sig = ground arith
check_signature_iff sizes scheme (rsa verify) signed sig = ground arith
check_signature_iff sizes scheme (mldsa verify) signed sig = ground arith
check_signature_iff sizes scheme (ecdsa_p256 verify) signed sig = ground arith
check_signature_iff sizes scheme (ecdsa_p384 verify) signed sig = ground arith

-- What a server signs: 64 spaces, the context, a zero byte and the hash of the transcript.
abbrev pub signed_content : List ℕ → List ℕ
signed_content hash = ((replicate 64 0x20 ++ certificate_verify_context) ++ (0 ∷ [])) ++ hash

-- The message of a scheme and a signature.
abbrev pub certificate_verify : ℕ → List ℕ → List ℕ
certificate_verify scheme sig = to_be_bytes 2 scheme ++ (to_be_bytes 2 (length sig) ++ sig)

-- A message of four bytes and more, with the length that it announces, is the message of its parts.
four_bytes :
    (body : List ℕ)
    → IsBytes body
    → 4 ≤ length body
    → length body - 4 ≡ from_be_bytes (byte_at body 2 ∷ byte_at body 3 ∷ [])
    → (body
        ≡ certificate_verify (from_be_bytes (byte_at body 0 ∷ byte_at body 1 ∷ [])) (drop 4 body))
      × (from_be_bytes (byte_at body 0 ∷ byte_at body 1 ∷ []) < 2 ^ 16)
      × (length (drop 4 body) < 2 ^ 16)
unfolding drop
four_bytes [] bytes four same = absurd (omega arith)
four_bytes (a ∷ []) bytes four same = absurd (omega arith)
four_bytes (a ∷ b ∷ []) bytes four same = absurd (omega arith)
four_bytes (a ∷ b ∷ c ∷ []) bytes four same = absurd (omega arith)
four_bytes (a ∷ b ∷ c ∷ d ∷ sig) bytes four same =
    let (ha, others) = bytes in
    let (hb, others') = others in
    let (hc, others'') = others' in
    let (hd, hs) = others'' in
    let count : length sig ≡ from_be_bytes (c ∷ d ∷ []) = omega (arith, same) in
    let first = to_be_bytes-from_be_bytes (a ∷ b ∷ []) (ha, (hb, tt)) in
    let second = ap (to_be_bytes 2) count ∙ to_be_bytes-from_be_bytes (c ∷ d ∷ []) (hc, (hd, tt)) in
    let low = from_be_bytes-lt (a ∷ b ∷ []) (ha, (hb, tt)) in
    let high = from_be_bytes-lt (c ∷ d ∷ []) (hc, (hd, tt)) in
    (
      sym (ap₂ (λ s t. s ++ (t ++ sig)) first second),
      omega (arith, low),
      omega (arith, high, count),
    )

-- With a hash of 32 bytes the four extensions succeed.
extensions :
    (hash : List ℕ) (k : List ℕ → Result FlightError (Unit {0}))
    → length hash ≡ 32
    → (do
      s ← extend [] (replicate 64 0x20)
      s ← extend s certificate_verify_context
      s ← extend s (0 ∷ [])
      s ← extend s hash
      k s)
      ≡ k (signed_content hash)
extensions hash k size = ground arith

-- The message of a scheme and a signature is checked as they are.
certificate_verify_lem :
    (sizes : MlDsaSigBytes) (prepared : PreparedVerifier) (hash : List ℕ) (scheme : ℕ)
    (sig : List ℕ)
    → length hash ≡ 32
    → scheme < 2 ^ 16
    → length sig < 2 ^ 16
    → verify_certificate_verify_with_prepared sizes prepared hash (certificate_verify scheme sig)
      ≡ check_signature sizes scheme prepared (signed_content hash) sig
unfolding verify_certificate_verify_with_prepared drop
certificate_verify_lem sizes prepared hash scheme sig size scheme_lt sig_lt =
    let body = certificate_verify scheme sig in
    let first = from_be_bytes-to_be_bytes 2 scheme scheme_lt in
    let second = from_be_bytes-to_be_bytes 2 (length sig) sig_lt in
    let four : ltb (length body) 4 ≡ false = ground arith in
    let left : length body - 4 ≡ length sig = omega arith in
    let same : (length sig == length sig) ≡ true = ground arith in
    rw (four, first, second, left, same)
      (extensions hash (λ s. check_signature sizes scheme prepared s sig) size)

-- A CertificateVerify is accepted over a transcript hash of 32 bytes exactly when it is a scheme of
-- the verifier's own kind of key and a signature, with its length, that the verifier accepts on
-- the content of RFC 8446, section 4.4.3.
pub verify_certificate_verify_iff :
    (sizes : MlDsaSigBytes) (prepared : PreparedVerifier) (hash body : List ℕ)
    → IsBytes body
    → length hash ≡ 32
    → (verify_certificate_verify_with_prepared sizes prepared hash body ≡ ok tt) ↔ (
        (scheme : ℕ) × (sig : List ℕ) × (scheme < 2 ^ 16)
        × (length sig < 2 ^ 16)
        × (body ≡ certificate_verify scheme sig)
        × IsSigned sizes scheme prepared (signed_content hash) sig)
unfolding verify_certificate_verify_with_prepared
verify_certificate_verify_iff sizes prepared hash body bytes size = (
  λ h.
      let (four, h1) = fail_if-eq-ok (ltb (length body) 4) _ _ tt h in
      let (same, h2) =
        fail_if-eq-ok
          (not (length body - 4 == from_be_bytes (byte_at body 2 ∷ byte_at body 3 ∷ []))) _ _ tt
          h1 in
      let scheme = from_be_bytes (byte_at body 0 ∷ byte_at body 1 ∷ []) in
      let sig = drop 4 body in
      let run =
        sym (extensions hash (λ s. check_signature sizes scheme prepared s sig) size) ∙ h2 in
      let four_le : 4 ≤ length body = ground arith in
      let count : length body - 4 ≡ from_be_bytes (byte_at body 2 ∷ byte_at body 3 ∷ []) =
        ground arith in
      let (whole, scheme_lt, sig_lt) = four_bytes body bytes four_le count in
      (
        scheme,
        sig,
        scheme_lt,
        sig_lt,
        whole,
        (check_signature_iff sizes scheme prepared (signed_content hash) sig).0 run,
      ),
  λ h.
      let (scheme, sig, scheme_lt, sig_lt, whole, signed) = h in
      ap (verify_certificate_verify_with_prepared sizes prepared hash) whole
      ∙ certificate_verify_lem sizes prepared hash scheme sig size scheme_lt sig_lt
      ∙ (check_signature_iff sizes scheme prepared (signed_content hash) sig).1 signed,
)

ct_eq_iff : (xs ys : List ℕ) → (ct_eq xs ys ≡ true) ↔ (xs ≡ ys)
unfolding ct_eq
ct_eq_iff [] [] = ground arith
ct_eq_iff [] (y ∷ ys) = ground arith
ct_eq_iff (x ∷ xs) [] = ground arith
ct_eq_iff (x ∷ xs) (y ∷ ys) = ground (arith, ct_eq_iff xs ys)

compared :
    (m : Result HkdfLabelError (List ℕ)) (body : List ℕ)
    → ((do
      e ← map_err FlightError.hkdf_label m
      fail_if (not (ct_eq e body)) FlightError.finished_mac_invalid)
        ≡ ok tt)
      ↔ (m ≡ ok body)
compared (err e) body = ground arith
compared (ok e) body = ground (arith, ct_eq_iff e body)

-- A MAC that is computed in two steps and compared.
compared_after :
    (m : Result HkdfLabelError (List ℕ)) (f : List ℕ → Result HkdfLabelError (List ℕ))
    (body : List ℕ)
    → ((do
      k ← map_err FlightError.hkdf_label m
      e ← map_err FlightError.hkdf_label (f k)
      fail_if (not (ct_eq e body)) FlightError.finished_mac_invalid)
        ≡ ok tt)
      ↔ ((m >>= f) ≡ ok body)
compared_after (err e) f body = ground arith
compared_after (ok k) f body = compared (f k) body

-- The server's Finished is accepted over a transcript hash exactly when it is 32 bytes long and is
-- the MAC that `finished_mac` computes with the same secret and hash.
pub verify_server_finished_iff :
    (h : HkdfSha256) (secret hash body : List ℕ)
    → (verify_server_finished h secret hash body ≡ ok tt)
      ↔ ((length body ≡ 32) × (finished_mac h secret hash ≡ ok body))
unfolding verify_server_finished finished_mac
verify_server_finished_iff h secret hash body =
    let mac =
      compared_after (hkdf_expand_label h secret finished_label [] 32) (λ key. extract h key hash)
        body in
    (
      λ run.
          let (size, rest) = fail_if-eq-ok (not (length body == 32)) _ _ tt run in
          (ground arith, mac.0 rest),
      λ p. let same : (length body == 32) ≡ true = ground (arith, p.0) in rw same (mac.1 p.1),
    )
