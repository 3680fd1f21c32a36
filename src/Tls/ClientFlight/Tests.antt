-- ===== src/Tls/ClientFlight/Tests.antt =====
-- Runs of krabitls/src/client_flight.rs over toy cryptography, and its theorems at concrete inputs.
use krabitls_rs.Base.{
  ℕ, ◌≤◌, ◌≡◌, ◌↔◌, refl, List, [], ◌∷◌, ◌++◌, length, replicate, true, ok, arith,
}
use krabitls_rs.Base.Lists.{length-replicate}
use krabitls_rs.Base.Bytes.{from_be_bytes}
use krabitls_rs.Keys.Hkdf.{HkdfSha256}
use krabitls_rs.Keys.Schedule.{TranscriptHash}
use krabitls_rs.Keys.Schedule.Total.{IsTotal}
use krabitls_rs.Tls.ClientFlight.{ClientAuth, sig_algs_offer, any_pair, max_client_auth_flight}
use krabitls_rs.Tls.ClientFlight.Fits.{Hashes, Signs, build_flight_iff, build_flight_fits}
use krabitls_rs.Tls.ClientFlight.Joined.{
  IsAnswerable, IsFlight, certificate_message, verify_message, finished_message,
}
use krabitls_rs.Tls.ClientFlight.Policies.{with_client_auth, build_flight}

-- A backend of constant bytes, and a signer of two bytes.
abbrev toy : HkdfSha256
toy = record {
  snapshot = λ fed. ok (replicate 32 5);
  extract = λ salt ikm. ok (replicate 32 1);
  expand = λ prk info n. ok (replicate n 2);
}

toy-IsTotal : IsTotal toy
toy-IsTotal = record {
  extract_lem = λ salt ikm. (replicate 32 1, refl, refl);
  expand_lem = λ prk info n size limit. (replicate n 2, refl, length-replicate n 2);
}

toy-Hashes : Hashes toy
toy-Hashes fed = (replicate 32 5, refl, refl)

abbrev signer : ClientAuth
signer = record {
  cert_der = 48 ∷ 0 ∷ [];
  scheme = 0x0807;
  sign_content = λ content. ok (8 ∷ 9 ∷ []);
}

signer-Signs : Signs signer
signer-Signs content = (8 ∷ 9 ∷ [], refl, omega arith)

abbrev offered : List ℕ
offered = 4 ∷ 3 ∷ 8 ∷ 7 ∷ []

scheme_offered : sig_algs_offer offered 0x0807 ≡ true
unfolding sig_algs_offer any_pair from_be_bytes
scheme_offered = refl

offered-IsAnswerable : IsAnswerable signer (202 ∷ []) offered
offered-IsAnswerable = (scheme_offered, omega arith, omega arith, omega arith)

abbrev secret : List ℕ
secret = replicate 32 7

abbrev before : TranscriptHash
before = record { fed = 1 ∷ [] }

abbrev flight : List ℕ
flight =
    (certificate_message signer (202 ∷ []) ++ verify_message signer (8 ∷ 9 ∷ []))
    ++ finished_message (replicate 32 1)

abbrev after : TranscriptHash
after = record {
  fed =
      ((before.fed ++ certificate_message signer (202 ∷ [])) ++ verify_message signer (8 ∷ 9 ∷ []))
      ++ finished_message (replicate 32 1);
}

build_flight_iff_example :
    (build_flight (with_client_auth signer) toy (202 ∷ []) offered secret before 200
      ≡ ok (flight, after))
    ↔ (IsAnswerable signer (202 ∷ []) offered
        × IsFlight signer toy (202 ∷ []) secret before flight after
        × (length flight ≤ 200))
build_flight_iff_example =
    build_flight_iff signer toy (202 ∷ []) offered secret before 200 flight after

build_flight_fits_example :
    (bytes : List ℕ) × (t' : TranscriptHash) × (build_flight
        (with_client_auth signer)
        toy
        (202 ∷ [])
        offered
        secret
        before
        2500
      ≡ ok (bytes, t'))
    × (length bytes ≤ max_client_auth_flight)
build_flight_fits_example =
    build_flight_fits signer toy toy-IsTotal toy-Hashes signer-Signs (202 ∷ []) offered secret
      before 2500 offered-IsAnswerable refl (omega arith)
