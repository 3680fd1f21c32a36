-- ===== src/Tls/Connection/Channel.antt =====
-- krabitls/src/connection.rs, the data phase of a connection whose peer is in step with it.
use krabitls_rs.Base.{
  ℕ, ◌+◌, ◌-◌, ◌%◌, ◌^◌, ◌≤◌, ◌≡◌, ◌≢◌, refl, sym, ap, subst, ◌∙◌, List, [], ◌∷◌, length, take,
  drop, ok, map_err, arith,
}
use krabitls_rs.Base.Lists.{length-append, take-take, take-append}
use krabitls_rs.Base.Results.{>>=-eq-ok, map_err-eq-ok}
use krabitls_rs.Base.Bytes.{slice, byte_at}
use krabitls_rs.Keys.Hkdf.{HkdfSha256}
use krabitls_rs.Keys.Schedule.{next_application_traffic_secret}
use krabitls_rs.Tls.Aead.{IsAead, tls_plaintext_max}
use krabitls_rs.Tls.Aead.RoundTrip.{encrypt_succeeds, decrypt-encrypt}
use krabitls_rs.Tls.Connection.{AppData, StepError, ConnectionError}
use krabitls_rs.Tls.Connection.Data.{
  encrypt_record, decrypt_record_inplace, apply_recv_key_update, apply_send_key_update,
}
use krabitls_rs.Tls.RecordKeys.{CipherSuite, derive}
use krabitls_rs.Tls.RecordKeys

-- Every cipher of the suite is an AEAD.
abbrev pub IsAeadSuite : CipherSuite → Type 0
IsAeadSuite s = (key : List ℕ) → IsAead (s.make_cipher key)

-- What the sender encrypts next is what the receiver decrypts next.
pub record InStep (sender receiver : AppData) : Type 0 where
  pub same_keys : sender.c_ap_keys ≡ receiver.s_ap_keys
  pub same_secret : sender.c_ap_ts ≡ receiver.s_ap_ts
  pub same_seq : sender.seq_out ≡ receiver.seq_in

-- The receiver after a record.
abbrev pub received : AppData → AppData
received c = record c { seq_in = (c.seq_in + 1) % 2 ^ 64 }

-- What `encrypt_record` did when it succeeds.
pub encrypt_record-eq-ok :
    (s : CipherSuite) (p : AppData) (content : List ℕ) (ct out_len : ℕ) (bytes : List ℕ)
    (p' : AppData)
    → encrypt_record s p content ct out_len ≡ ok (bytes, p')
    → (RecordKeys.encrypt_record s p.c_ap_keys content ct p.seq_out out_len ≡ ok bytes)
      × (p' ≡ record p { seq_out = (p.seq_out + 1) % 2 ^ 64 })
unfolding encrypt_record
encrypt_record-eq-ok s p content ct out_len bytes p' h =
    let (b, run, same) =
      >>=-eq-ok
        (map_err {F = StepError} ConnectionError.encrypt
          (RecordKeys.encrypt_record s p.c_ap_keys content ct p.seq_out out_len))
        _ (bytes, p') h in
    let same_bytes : b ≡ bytes = cc same in (map_err-eq-ok _ _ _ run ∙ ap ok same_bytes, cc same)

-- The form of a record that was written.
pub encrypt_record_form :
    (s : CipherSuite)
    → IsAeadSuite s
    → (keys : RecordKeys.RecordKeys) (content : List ℕ) (ct seq out_len : ℕ) (bytes : List ℕ)
    → RecordKeys.encrypt_record s keys content ct seq out_len ≡ ok bytes
    → (length bytes ≡ length content + 22)
      × (byte_at bytes 0 ≡ 23)
      × (length content ≤ tls_plaintext_max)
      × ((tail : List ℕ) × (bytes ≡ 23 ∷ tail))
encrypt_record_form s aead keys content ct seq out_len bytes h =
    let (body, tag, sealed, same, small) =
      encrypt_succeeds (s.make_cipher keys.key) content ct keys.iv seq out_len bytes h in
    let (body_length, tag_length) = (aead keys.key).encrypt-length sealed in
    (
      omega (arith, ap length same, length-append body tag, length-append content (ct ∷ [])),
      ap (λ b. byte_at b 0) same,
      small,
      (_, same),
    )

-- A record is received with its content and type, and the two stay in step.
pub decrypt_record-encrypt_record :
    (s : CipherSuite)
    → IsAeadSuite s
    → (p c : AppData) (content : List ℕ) (ct out_len : ℕ) (bytes : List ℕ) (p' : AppData) → ct ≢ 0
    → InStep p c
    → encrypt_record s p content ct out_len ≡ ok (bytes, p')
    → (after : List ℕ) × (decrypt_record_inplace s c bytes
        ≡ ok (length content, ct, after, received c))
      × (slice 5 (5 + length content) after ≡ content)
      × InStep p' (received c)
unfolding decrypt_record_inplace
decrypt_record-encrypt_record s aead p c content ct out_len bytes p' nonzero step h =
    let (run, same) = encrypt_record-eq-ok s p content ct out_len bytes p' h in
    let (after, opened, window, split) =
      decrypt-encrypt (s.make_cipher p.c_ap_keys.key) (aead p.c_ap_keys.key) content ct
        p.c_ap_keys.iv p.seq_out out_len bytes nonzero run in
    let keys = step.same_keys in
    let seq = step.same_seq in
    let shorter : slice 5 (5 + length content) after
        ≡ take (length content) (slice 5 (5 + (length content + 1)) after) =
      ap (λ (k : ℕ). take k (drop 5 after)) (omega arith)
      ∙ sym (
          take-take (length content) (5 + (length content + 1) - 5) (drop 5 after) (omega arith)) in
    (
      after,
      rw (sym keys, sym seq, opened, split) refl,
      shorter
          ∙ ap (take (length content)) window
          ∙ take-append content (ct ∷ []) (length content) refl,
      subst (λ q. InStep q (received c)) (sym same)
          (record {
            same_keys = keys;
            same_secret = step.same_secret;
            same_seq = ap (λ (n : ℕ). (n + 1) % 2 ^ 64) seq;
          }),
    )

-- What `apply_send_key_update` did when it succeeds.
pub apply_send_key_update-eq-ok :
    (s : CipherSuite) (h : HkdfSha256) (p p' : AppData)
    → apply_send_key_update s h p ≡ ok p'
    → (secret : List ℕ) × (keys : RecordKeys.RecordKeys) × (next_application_traffic_secret h
          p.c_ap_ts
        ≡ ok secret)
      × (derive s h secret ≡ ok keys)
      × (p' ≡ record p { c_ap_keys = keys; c_ap_ts = secret; seq_out = 0 })
unfolding apply_send_key_update
apply_send_key_update-eq-ok s h p p' run =
    let (secret, made, run') =
      >>=-eq-ok
        (map_err {F = StepError} ConnectionError.hkdf (next_application_traffic_secret h p.c_ap_ts))
        _ p' run in
    let (keys, derived, same) =
      >>=-eq-ok (map_err {F = StepError} ConnectionError.hkdf (derive s h secret)) _ p' run' in
    (secret, keys, map_err-eq-ok _ _ _ made, map_err-eq-ok _ _ _ derived, cc same)

-- The receiver after a rotation of its keys.
abbrev pub rotated : AppData → RecordKeys.RecordKeys → List ℕ → AppData
rotated c keys secret = record c { s_ap_keys = keys; s_ap_ts = secret; seq_in = 0 }

-- A sender that rotates its keys and a receiver that does stay in step.
pub apply_recv_key_update-apply_send_key_update :
    (s : CipherSuite) (h : HkdfSha256) (p c p' : AppData)
    → InStep p c
    → apply_send_key_update s h p ≡ ok p'
    → (keys : RecordKeys.RecordKeys) × (secret : List ℕ) × (apply_recv_key_update s h c
        ≡ ok (rotated c keys secret))
      × InStep p' (rotated c keys secret)
unfolding apply_recv_key_update
apply_recv_key_update-apply_send_key_update s h p c p' step run =
    let (secret, keys, made, derived, same) = apply_send_key_update-eq-ok s h p p' run in
    let before = step.same_secret in
    (
      keys,
      secret,
      rw (sym before, made, derived) refl,
      subst (λ q. InStep q (rotated c keys secret)) (sym same)
          (record { same_keys = refl; same_secret = refl; same_seq = refl }),
    )
