-- ===== src/Tls/Connection.antt =====
-- krabitls/src/connection.rs: the states of the connection and its errors. A connection is its
-- transcript and its state; a transition from one state to the next consumes the connection, and
-- one that fails gives only its error. Erasing keys has no counterpart.
pub mod Hello
pub mod Flight
pub mod Finish
pub mod Data
pub mod Channel
pub mod Fed
pub mod Completed
pub mod Fragments
mod Tests
use krabitls_rs.Base.{ℕ, List, Option}
use krabitls_rs.Certs.View.{ServerPubkey}
use krabitls_rs.Keys.Hkdf.{HkdfLabelError}
use krabitls_rs.Keys.Schedule.{TranscriptHash, TranscriptError}
use krabitls_rs.Tls.Aead.Decrypt.{DecryptError}
use krabitls_rs.Tls.Aead.Encrypt.{EncryptError}
use krabitls_rs.Tls.ClientFlight.{ClientFinishedError, ClientAuthFlightError}
use krabitls_rs.Tls.HelloErrors.{ParseError, ClientHelloError, map_writer}
use krabitls_rs.Tls.Reassembler.{ReassemblyError}
use krabitls_rs.Tls.RecordKeys.{RecordKeys}
use krabitls_rs.Tls.ServerFlight.{FlightError}

-- `core::convert::Infallible`
pub data Infallible : Type 0 where

pub data ConnectionError (E : Type 0) : Type 0 where
  client_hello : ClientHelloError E → ConnectionError E
  parse : ParseError → ConnectionError E
  hkdf : HkdfLabelError → ConnectionError E
  flight : FlightError → ConnectionError E
  decrypt : DecryptError → ConnectionError E
  encrypt : EncryptError → ConnectionError E
  transcript : TranscriptError → ConnectionError E
  reassembly : ReassemblyError → ConnectionError E
  client_finished : ClientFinishedError → ConnectionError E
  client_auth : ClientAuthFlightError → ConnectionError E
  wrong_suite : (expected got : ℕ) → ConnectionError E
  incomplete_flight : ConnectionError E
  unexpected_suite : (selected_id : ℕ) → ConnectionError E
  alert : (level description : ℕ) → ConnectionError E
  unknown_content_type : ℕ → ConnectionError E
  ml_kem_decapsulation : ConnectionError E

unfoldable pub map_connection_writer :
    {E U : Type 0} → (E → U) → ConnectionError E → ConnectionError U
map_connection_writer f (client_hello ch) = client_hello (map_writer f ch)
map_connection_writer f (parse p) = parse p
map_connection_writer f (hkdf h) = hkdf h
map_connection_writer f (flight fl) = flight fl
map_connection_writer f (decrypt d) = decrypt d
map_connection_writer f (encrypt en) = encrypt en
map_connection_writer f (transcript t) = transcript t
map_connection_writer f (reassembly r) = reassembly r
map_connection_writer f (client_finished cf) = client_finished cf
map_connection_writer f (client_auth ca) = client_auth ca
map_connection_writer f (wrong_suite expected got) = wrong_suite expected got
map_connection_writer f incomplete_flight = incomplete_flight
map_connection_writer f (unexpected_suite selected_id) = unexpected_suite selected_id
map_connection_writer f (alert level description) = alert level description
map_connection_writer f (unknown_content_type c) = unknown_content_type c
map_connection_writer f ml_kem_decapsulation = ml_kem_decapsulation

-- `ConnectionError` of a transition that does not write.
abbrev pub StepError : Type 0
StepError = ConnectionError Infallible

pub data SuiteList : Type 0 where
  default aes_only chacha_only : SuiteList

-- A secret of a key exchange is what `derive` makes of the server's share; it fails on `none`.
abbrev pub KxSecret : Type 0
KxSecret = List ℕ → Option (List ℕ)

pub record WaitServerHello : Type 0 where
  pub session_id : Option (List ℕ)
  pub mlkem : KxSecret
  pub ecdhe : KxSecret
  pub advertised : SuiteList

pub record WaitServerFlight : Type 0 where
  pub hs : List ℕ
  pub c_hs_ts : List ℕ
  pub s_hs_ts : List ℕ
  pub s_hs_keys : RecordKeys
  pub seq_in : ℕ

pub record ServerFlightDone : Type 0 where
  pub hs : List ℕ
  pub c_hs_ts : List ℕ
  pub server_pubkey : ServerPubkey

pub record AppData : Type 0 where
  pub c_ap_keys : RecordKeys
  pub s_ap_keys : RecordKeys
  pub c_ap_ts : List ℕ
  pub s_ap_ts : List ℕ
  pub seq_out : ℕ
  pub seq_in : ℕ

pub record TlsConnection (State : Type 0) : Type 0 where
  pub transcript : TranscriptHash
  pub state : State

pub data FlightStep : Type 0 where
  pending ready : FlightStep
