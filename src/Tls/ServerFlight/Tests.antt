-- ===== src/Tls/ServerFlight/Tests.antt =====
-- Runs of krabitls/src/server_flight.rs over toy cryptography, and its theorems at concrete inputs.
use krabitls_rs.Base.{
  ℕ, ◌+◌, ◌≡◌, ◌↔◌, ◌<◌, ◌^◌, refl, List, [], ◌∷◌, ◌++◌, length, replicate, Option, none, some,
  true, ok, err, leb, if◌then◌else◌, arith,
}
use krabitls_rs.Base.Lists.{take, drop}
use krabitls_rs.Base.Bytes.{to_be_bytes, IsBytes, from_be_bytes}
use krabitls_rs.Certs.View.{CertView}
use krabitls_rs.Keys.Hkdf.{HkdfSha256}
use krabitls_rs.Keys.Schedule.{TranscriptHash, finished_mac}
use krabitls_rs.Tls.Reassembler.Flight.{message}
use krabitls_rs.Tls.ServerFlight.{
  FlightError, hs_certificate_request, hs_encrypted_extensions, parse_server_flight,
}
use krabitls_rs.Tls.Reassembler.{ServerFlightReassembler, flight_bytes, flight_end_offset, end_loop}
use krabitls_rs.Tls.ServerFlight.SizeLimit.{
  peek_ee_record_size_limit, peek_ee_record_size_limit-message,
}
use krabitls_rs.Tls.ServerFlight.Bodies.{Bodies, IsSmall, flight, view}
use krabitls_rs.Tls.ServerFlight.Parsed.{parse_server_flight_iff}
use krabitls_rs.Tls.ServerFlight.Verify.{
  PreparedVerifier, MlDsaSigBytes, verify_certificate_verify_with_prepared, verify_server_finished,
  verify_server_flight, server_pubkey,
}
use krabitls_rs.Tls.ServerFlight.Verified.{
  IsSigned, signed_content, certificate_verify, verify_certificate_verify_iff,
  verify_server_finished_iff,
}
use krabitls_rs.Tls.ServerFlight.Trusted.{IsTrusted, verify_server_flight_iff}
use krabitls_rs.Tls.ServerFlight.Chain.{extract_chain, chain_loop}
use krabitls_rs.Tls.ServerFlight.Chained.{
  certificate_body, entries, certs, extract_chain-certificate_body, chain_loop_fuel,
}
use krabitls_rs.Tls.ServerFlight.Request.{
  certificate_request_context, certificate_request_sig_algs, scheme_list,
}
use krabitls_rs.Tls.ServerFlight.Requested.{
  request_body, extensions, asked_extensions, certificate_request-message,
}

-- A backend of constant bytes, a verifier that accepts everything, and the lengths of FIPS 204.
abbrev toy : HkdfSha256
toy = record {
  snapshot = λ fed. ok (replicate 32 5);
  extract = λ salt ikm. ok (replicate 32 1);
  expand = λ prk info n. ok (replicate n 2);
}

abbrev willing : PreparedVerifier
willing = PreparedVerifier.ecdsa_p256 (λ signed sig. true)

abbrev sizes : MlDsaSigBytes
sizes = record { mldsa44 = 2420; mldsa65 = 3309; mldsa87 = 4627 }

abbrev secret : List ℕ
secret = replicate 32 7

abbrev hash : List ℕ
hash = replicate 32 5

-- A CertificateVerify of P-256 with a signature of two bytes.
abbrev signature : List ℕ
signature = certificate_verify 0x0403 (8 ∷ 9 ∷ [])

abbrev mac : List ℕ
mac = replicate 32 1

abbrev bodies : Bodies
bodies = record {
  ee = 0 ∷ 0 ∷ [];
  request = some (0 ∷ 0 ∷ 0 ∷ []);
  cert = 7 ∷ [];
  cv = signature;
  fin = mac;
}

abbrev leaf : CertView
leaf = CertView.ecdsa_p256 [] [] (4 ∷ []) none none []

abbrev before : TranscriptHash
before = record { fed = 1 ∷ [] }

abbrev after : TranscriptHash
after = record { fed = before.fed ++ flight bodies }

abbrev content : List ℕ
content = flight bodies

bodies-IsSmall : IsSmall bodies
bodies-IsSmall = record {
  ee_lt = omega arith;
  request_lt = omega arith;
  cert_lt = omega arith;
  cv_lt = omega arith;
  fin_lt = omega arith;
}

content-IsBytes : IsBytes content
content-IsBytes = ground arith

signature-IsBytes : IsBytes signature
signature-IsBytes = ground arith

parse_server_flight_iff_example :
    (parse_server_flight content ≡ ok (view bodies))
    ↔ ((b : Bodies) × IsSmall b × (content ≡ flight b) × (view bodies ≡ view b))
parse_server_flight_iff_example = parse_server_flight_iff content (view bodies) content-IsBytes

verify_certificate_verify_iff_example :
    (verify_certificate_verify_with_prepared sizes willing hash signature ≡ ok tt) ↔ (
      (scheme : ℕ) × (sig : List ℕ) × (scheme < 2 ^ 16)
      × (length sig < 2 ^ 16)
      × (signature ≡ certificate_verify scheme sig)
      × IsSigned sizes scheme willing (signed_content hash) sig)
verify_certificate_verify_iff_example =
    verify_certificate_verify_iff sizes willing hash signature signature-IsBytes refl

verify_server_finished_iff_example :
    (verify_server_finished toy secret hash mac ≡ ok tt)
    ↔ ((length mac ≡ length hash) × (finished_mac toy secret hash ≡ ok mac))
verify_server_finished_iff_example = verify_server_finished_iff toy secret hash mac

verify_server_flight_iff_example :
    (verify_server_flight toy sizes before content secret willing leaf
      ≡ ok (after, server_pubkey leaf))
    ↔ (IsTrusted toy sizes before content secret willing
        × (after.fed ≡ before.fed ++ content)
        × (server_pubkey leaf ≡ server_pubkey leaf))
verify_server_flight_iff_example =
    verify_server_flight_iff toy sizes before content secret willing leaf after (server_pubkey leaf)
      content-IsBytes

-- Two entries, the second with extensions.
abbrev two : List (List ℕ × List ℕ)
two = (3 ∷ 4 ∷ [], []) ∷ (5 ∷ [], 6 ∷ []) ∷ []

extract_chain-certificate_body_example :
    extract_chain 3 (certificate_body (1 ∷ []) two ++ (9 ∷ []))
    ≡ (if leb (length two) 3 then ok (certs two) else err FlightError.cert_chain_too_long)
extract_chain-certificate_body_example =
    extract_chain-certificate_body 3 (1 ∷ []) two (9 ∷ []) (omega arith) (omega arith)
      ((omega arith, omega arith), ((omega arith, omega arith), tt))

chain_loop_fuel_example :
    chain_loop 3 (20 + 5) (entries two) [] 0 ≡ chain_loop 3 20 (entries two) [] 0
chain_loop_fuel_example = chain_loop_fuel 3 20 5 (entries two) [] 0 (omega arith)

-- A list of one scheme, and a list that is cut short after it.
abbrev asked : Option (List ℕ × List (ℕ × List ℕ))
asked = some (8 ∷ 7 ∷ [], (13, 0 ∷ []) ∷ [])

abbrev asked_request : List ℕ
asked_request =
    message hs_certificate_request
      (request_body (1 ∷ []) (extensions (asked_extensions ((47, []) ∷ []) asked)))

certificate_request-message_example :
    (certificate_request_context asked_request ≡ ok (1 ∷ []))
    × (certificate_request_sig_algs asked_request ≡ ok (8 ∷ 7 ∷ []))
certificate_request-message_example =
    certificate_request-message (1 ∷ []) ((47, []) ∷ []) asked (omega arith) (omega arith)
      ((omega arith, omega arith), ((omega arith, omega arith), ((omega arith, omega arith), tt)))
      ((λ h. omega arith), tt) (omega arith, refl)

odd_list : scheme_list (0 ∷ 3 ∷ 8 ∷ 7 ∷ 4 ∷ []) ≡ err FlightError.truncated
unfolding scheme_list from_be_bytes take drop
odd_list = refl

-- A flight of EncryptedExtensions with a limit of 16385, and an empty Finished.
abbrev limited : List (ℕ × List ℕ)
limited = (10, []) ∷ (28, 0x40 ∷ 1 ∷ []) ∷ []

abbrev collected : ServerFlightReassembler
collected = record {
  buf =
      message hs_encrypted_extensions
        (to_be_bytes 2 (length (extensions limited)) ++ extensions limited)
      ++ (20 ∷ 0 ∷ 0 ∷ 0 ∷ []);
}

collected_flight :
    flight_bytes collected
    ≡ some (
        message hs_encrypted_extensions
          (to_be_bytes 2 (length (extensions limited)) ++ extensions limited)
        ++ (20 ∷ 0 ∷ 0 ∷ 0 ∷ []))
unfolding flight_bytes flight_end_offset end_loop from_be_bytes take
collected_flight = refl

peek_ee_record_size_limit-message_example : peek_ee_record_size_limit collected ≡ ok (some 16385)
peek_ee_record_size_limit-message_example =
    peek_ee_record_size_limit-message collected limited (20 ∷ 0 ∷ 0 ∷ 0 ∷ []) collected_flight
      (omega arith) ((omega arith, omega arith), ((omega arith, omega arith), tt))
