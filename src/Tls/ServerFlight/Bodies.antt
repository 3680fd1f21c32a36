-- ===== src/Tls/ServerFlight/Bodies.antt =====
-- The flights of krabitls/src/server_flight.rs as bodies of messages.
use krabitls_rs.Base.{ℕ, ◌^◌, ◌<◌, refl, List, [], ◌++◌, length, drop, Option, none, some, arith}
use krabitls_rs.Tls.Reassembler.{hs_finished}
use krabitls_rs.Tls.Reassembler.Flight.{message}
use krabitls_rs.Tls.ServerFlight.{
  hs_encrypted_extensions, hs_certificate, hs_certificate_request, hs_certificate_verify,
  ServerFlightView, HsMsg,
}
use krabitls_rs.Tls.ServerFlight.Messages.{IsAt}

-- The bodies of a flight.
pub record Bodies : Type 0 where
  pub ee : List ℕ
  pub request : Option (List ℕ)
  pub cert : List ℕ
  pub cv : List ℕ
  pub fin : List ℕ

abbrev pub framed_request : Option (List ℕ) → Option (List ℕ)
framed_request none = none
framed_request (some body) = some (message hs_certificate_request body)

abbrev pub request_bytes : Option (List ℕ) → List ℕ
request_bytes none = []
request_bytes (some body) = message hs_certificate_request body

abbrev pub IsSmallRequest : Option (List ℕ) → Type 0
IsSmallRequest none = Unit
IsSmallRequest (some body) = length body < 2 ^ 24

-- EncryptedExtensions, CertificateRequest when there is one, Certificate, CertificateVerify and
-- Finished.
abbrev pub flight : Bodies → List ℕ
flight b =
    message hs_encrypted_extensions b.ee
    ++ (request_bytes b.request
        ++ (message hs_certificate b.cert
            ++ (message hs_certificate_verify b.cv ++ message hs_finished b.fin)))

abbrev pub view : Bodies → ServerFlightView
view b = record {
  ee_full = message hs_encrypted_extensions b.ee;
  ee_body = b.ee;
  cert_request_full = framed_request b.request;
  cert_full = message hs_certificate b.cert;
  cert_body = b.cert;
  cv_full = message hs_certificate_verify b.cv;
  cv_body = b.cv;
  fin_full = message hs_finished b.fin;
  fin_body = b.fin;
}

-- Bodies that 24 bits can measure.
pub record IsSmall (b : Bodies) : Type 0 where
  pub ee_lt : length b.ee < 2 ^ 24
  pub request_lt : IsSmallRequest b.request
  pub cert_lt : length b.cert < 2 ^ 24
  pub cv_lt : length b.cv < 2 ^ 24
  pub fin_lt : length b.fin < 2 ^ 24

-- A message of the expected type.
abbrev pub typed : ℕ → List ℕ → HsMsg
typed msg_type body = record { msg_type = msg_type; body = body; full = message msg_type body }

-- A reader at the start of the content.
pub start : (content : List ℕ) → IsAt (record { buf = content; pos = 0 }) content
unfolding drop
start content = record { rest_eq = refl; inside = omega arith }
