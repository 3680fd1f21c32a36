-- ===== src/Client/Data/Delivered.antt =====
-- What the data phase of krabitls/src/client/engine.rs delivers of what a peer sends that is in step.
use krabitls_rs.Base.{
  ℕ, ◌+◌, ◌≤◌, ◌≡◌, append-nil, refl, sym, ap, subst, ◌∙◌, Bool, false, List, [], ◌∷◌, ◌++◌, length,
  Result, ok, ◌>>=◌, All, arith,
}
use krabitls_rs.Base.Results.{>>=-eq-ok}
use krabitls_rs.Base.Bytes.{byte_at}
use krabitls_rs.Client.Errors.{HandshakeError}
use krabitls_rs.Client.Data.{TlsEngine, dispatch_data_record_inner}
use krabitls_rs.Keys.Hkdf.{HkdfSha256}
use krabitls_rs.Tls.Aead.{ct_application_data}
use krabitls_rs.Tls.ClientFlight.{ct_handshake}
use krabitls_rs.Tls.Connection.{AppData, StepError}
use krabitls_rs.Tls.Connection.Data.{
  encrypt_record, encrypt_key_update, key_update_msg, apply_send_key_update,
}
use krabitls_rs.Tls.Connection.Channel.{
  IsAeadSuite, InStep, received, rotated, apply_recv_key_update-apply_send_key_update,
}
use krabitls_rs.Tls.RecordKeys.{CipherSuite}
use krabitls_rs.Client.Data.Received.{
  idle, ready, dispatch_received, handle_inner_content-data, handle_inner_content-key_update,
  process_key_update-unrequested,
}

-- What a peer does in the data phase: it sends a content, or it rotates its keys with a key update
-- that asks for no answer.
pub data Action : Type 0 where
  send : List ℕ → Action
  rotate : Action

unfoldable pub perform :
    CipherSuite → HkdfSha256 → ℕ → AppData → Action → Result StepError (List ℕ × AppData)
perform s h out_len p (send content) = encrypt_record s p content ct_application_data out_len
perform s h out_len p rotate = do
  (bytes, p) ← encrypt_key_update s p false out_len
  p ← apply_send_key_update s h p
  ok (bytes, p)

unfoldable pub perform_all :
    CipherSuite
    → HkdfSha256
    → ℕ
    → AppData
    → List Action
    → Result StepError (List (List ℕ) × AppData)
perform_all s h out_len p [] = ok ([], p)
perform_all s h out_len p (a ∷ actions) = perform s h out_len p a >>= λ r.
    perform_all s h out_len r.1 actions >>= λ rest. ok (r.0 ∷ rest.0, rest.1)

-- The records are dispatched one after the other, and what is parked is read in between.
unfoldable pub receive_all :
    CipherSuite
    → HkdfSha256
    → TlsEngine
    → List (List ℕ)
    → Result HandshakeError (List ℕ × TlsEngine)
receive_all s h e [] = ok ([], e)
receive_all s h e (bytes ∷ rest) =
    dispatch_data_record_inner s h e bytes (byte_at bytes 0) >>= λ e'.
    receive_all s h (record e' { plain = [] }) rest >>= λ r. ok (e'.plain ++ r.0, r.1)

abbrev pub contents : List Action → List ℕ
contents [] = []
contents (send content ∷ actions) = content ++ contents actions
contents (rotate ∷ actions) = contents actions

-- A content that the limit of the receiver lets through.
abbrev pub IsWithin : ℕ → Action → Type 0
IsWithin limit (send content) = length content + 1 ≤ limit
IsWithin limit rotate = 6 ≤ limit

-- What `perform` did when it rotated the keys.
pub perform-rotate :
    (s : CipherSuite) (h : HkdfSha256) (out_len : ℕ) (flag : Bool) (p : AppData) (bytes : List ℕ)
    (p' : AppData)
    → ◌>>=◌ {B = List ℕ × AppData}
        (encrypt_key_update s p flag out_len)
        (λ r. apply_send_key_update s h r.1 >>= λ q. ok (r.0, q))
      ≡ ok (bytes, p')
    → (p₁ : AppData) × (encrypt_record s p (key_update_msg flag) ct_handshake out_len
        ≡ ok (bytes, p₁))
      × (apply_send_key_update s h p₁ ≡ ok p')
unfolding encrypt_key_update
perform-rotate s h out_len flag p bytes p' run =
    let ((b, p₁), sent, run') =
      >>=-eq-ok (encrypt_record s p (key_update_msg flag) ct_handshake out_len) _ (bytes, p') run in
    let (p₂, turned, same) = >>=-eq-ok (apply_send_key_update s h p₁) _ (bytes, p') run' in
    let same_bytes : b ≡ bytes = cc same in
    let same_state : p₂ ≡ p' = cc same in
    (p₁, sent ∙ ap (λ t. ok (t, p₁)) same_bytes, turned ∙ ap ok same_state)

-- The engine after one action of the peer.
abbrev Delivers : CipherSuite → HkdfSha256 → TlsEngine → List ℕ → List ℕ → AppData → Type 0
Delivers s h e bytes content p' =
    (conn : AppData) × (dispatch_data_record_inner s h (ready e) bytes (byte_at bytes 0)
      ≡ ok (record (ready e) { conn = conn; plain = content }))
    × InStep p' conn

deliver_rotate :
    (s : CipherSuite) (h : HkdfSha256)
    → IsAeadSuite s
    → (out_len : ℕ) (p p₁ p' : AppData) (e : TlsEngine) (bytes : List ℕ) → InStep p e.conn
    → 6 ≤ e.our_recv_limit
    → encrypt_record s p (key_update_msg false) ct_handshake out_len ≡ ok (bytes, p₁)
    → apply_send_key_update s h p₁ ≡ ok p'
    → Delivers s h e bytes [] p'
deliver_rotate s h aead out_len p p₁ p' e bytes step small sent turned =
    let (at_type, step') =
      dispatch_received s h aead p (ready e) (key_update_msg false) ct_handshake out_len bytes p₁
        (λ z. omega arith) small step sent in
    let (keys, secret, accepted, step'') =
      apply_recv_key_update-apply_send_key_update s h p₁ (received e.conn) p' step' turned in
    (
      rotated (received e.conn) keys secret,
      at_type
          ∙ handle_inner_content-key_update s h (record e { conn = received e.conn }) false
          ∙ process_key_update-unrequested s h (record (ready e) { conn = received e.conn }) _
              accepted,
      step'',
    )

-- One action of the peer is delivered.
deliver_one :
    (s : CipherSuite) (h : HkdfSha256)
    → IsAeadSuite s
    → (out_len : ℕ) (p : AppData) (e : TlsEngine) (a : Action) (bytes : List ℕ) (p' : AppData)
    → InStep p e.conn
    → IsWithin e.our_recv_limit a
    → perform s h out_len p a ≡ ok (bytes, p')
    → Delivers s h e bytes (contents (a ∷ [])) p'
unfolding perform
deliver_one s h aead out_len p e (send content) bytes p' step small run =
    let (at_type, step') =
      dispatch_received s h aead p (ready e) content ct_application_data out_len bytes p'
        (λ z. omega arith) small step run in
    (
      received e.conn,
      at_type
          ∙ handle_inner_content-data s h e (received e.conn) content
          ∙ ap (λ t. ok (record (ready e) { conn = received e.conn; plain = t }))
              (sym (append-nil content)),
      step',
    )
deliver_one s h aead out_len p e rotate bytes p' step small run =
    let (p₁, sent, turned) = perform-rotate s h out_len false p bytes p' run in
    deliver_rotate s h aead out_len p p₁ p' e bytes step small sent turned

-- What `perform_all` did when it succeeds.
perform_all-cons :
    (s : CipherSuite) (h : HkdfSha256) (out_len : ℕ) (p : AppData) (a : Action)
    (actions : List Action) (records : List (List ℕ)) (p' : AppData)
    → perform_all s h out_len p (a ∷ actions) ≡ ok (records, p')
    → (bytes : List ℕ) × (p₁ : AppData) × (rest : List (List ℕ)) × (perform s h out_len p a
        ≡ ok (bytes, p₁))
      × (perform_all s h out_len p₁ actions ≡ ok (rest, p'))
      × (records ≡ bytes ∷ rest)
unfolding perform_all
perform_all-cons s h out_len p a actions records p' run =
    let ((bytes, p₁), first, run') = >>=-eq-ok (perform s h out_len p a) _ (records, p') run in
    let ((rest, p₂), others, same) =
      >>=-eq-ok (perform_all s h out_len p₁ actions) _ (records, p') run' in
    let same_state : p₂ ≡ p' = cc same in
    (bytes, p₁, rest, first, others ∙ ap (λ q. ok (rest, q)) same_state, cc same)

receive_all-cons :
    (s : CipherSuite) (h : HkdfSha256) (e e' e'' : TlsEngine) (bytes : List ℕ)
    (rest : List (List ℕ)) (out : List ℕ)
    → dispatch_data_record_inner s h e bytes (byte_at bytes 0) ≡ ok e'
    → receive_all s h (record e' { plain = [] }) rest ≡ ok (out, e'')
    → receive_all s h e (bytes ∷ rest) ≡ ok (e'.plain ++ out, e'')
unfolding receive_all
receive_all-cons s h e e' e'' bytes rest out first others = rw (first, others) refl

contents-cons :
    (a : Action) (actions : List Action)
    → contents (a ∷ []) ++ contents actions ≡ contents (a ∷ actions)
contents-cons (send content) actions = ap (λ t. t ++ contents actions) (append-nil content)
contents-cons rotate actions = refl

script_arrives :
    (s : CipherSuite) (h : HkdfSha256)
    → IsAeadSuite s
    → (out_len : ℕ) (p : AppData) (e : TlsEngine) (actions : List Action) (records : List (List ℕ))
      (p' : AppData)
    → InStep p e.conn
    → All (IsWithin e.our_recv_limit) actions
    → perform_all s h out_len p actions ≡ ok (records, p')
    → (conn : AppData) × (receive_all s h (ready e) records
        ≡ ok (contents actions, record (ready e) { conn = conn }))
      × InStep p' conn
unfolding perform_all receive_all
script_arrives s h aead out_len p e [] records p' step small run =
    let none_sent : [] ≡ records = cc run in
    let same_state : p ≡ p' = cc run in
    (
      e.conn,
      subst (λ r. receive_all s h (ready e) r ≡ ok ([], ready e)) none_sent refl,
      subst (λ q. InStep q e.conn) same_state step,
    )
script_arrives s h aead out_len p e (a ∷ actions) records p' step small run =
    let (bytes, p₁, rest, first, others, same) =
      perform_all-cons s h out_len p a actions records p' run in
    let (conn, got, step') = deliver_one s h aead out_len p e a bytes p₁ step small.0 first in
    let (conn', got', step'') =
      script_arrives s h aead out_len p₁ (record e { conn = conn }) actions rest p' step' small.1
        others in
    (
      conn',
      ap (receive_all s h (ready e)) same
          ∙ receive_all-cons s h (ready e)
              (record (ready e) { conn = conn; plain = contents (a ∷ []) })
              (record (ready e) { conn = conn' }) bytes rest (contents actions) got got'
          ∙ ap (λ t. ok (t, record (ready e) { conn = conn' })) (contents-cons a actions),
      step'',
    )

-- Under ciphers with the laws of an AEAD: when a peer in step with the engine sends contents and
-- rotates its keys with key updates that ask for no answer, in any order and within the limit of
-- the engine, the engine with no message partway and no plaintext parked receives all of its
-- records, gives out exactly the contents in their order, and is in step with the peer again;
-- nothing else of it changes.
pub receive_all-perform_all :
    (s : CipherSuite) (h : HkdfSha256)
    → IsAeadSuite s
    → (out_len : ℕ) (p : AppData) (e : TlsEngine) (actions : List Action) (records : List (List ℕ))
      (p' : AppData)
    → InStep p e.conn
    → e.ph ≡ idle
    → e.plain ≡ []
    → All (IsWithin e.our_recv_limit) actions
    → perform_all s h out_len p actions ≡ ok (records, p')
    → (conn : AppData) × (receive_all s h e records
        ≡ ok (contents actions, record e { conn = conn }))
      × InStep p' conn
receive_all-perform_all s h aead out_len p e actions records p' step fresh empty small run =
    let (conn, got, step') =
      script_arrives s h aead out_len p e actions records p' step small run in
    let same : ready e ≡ e =
      ap (λ x. record e { ph = x; plain = [] }) (sym fresh)
      ∙ ap (λ x. record e { plain = x }) (sym empty) in
    (
      conn,
      subst (λ x. receive_all s h x records ≡ ok (contents actions, record x { conn = conn })) same
          got,
      step',
    )
