-- ===== src/Tls/Aead/RoundTrip.antt =====
-- Records that encrypt_record_with of krabitls/src/aead.rs wrote, given to
-- decrypt_record_inplace_with and split_inner_plaintext.
use krabitls_rs.Base.{
  ℕ, ◌+◌, ◌-◌, ◌%◌, ◌^◌, ◌≤◌, ◌≡◌, ◌≢◌, inl, inr, refl, ap, sym, ◌∙◌, List, [], ◌∷◌, ◌++◌, length,
  take, ltb, if◌then◌else◌, Option, none, some, Option-cases, Result, ok, err, arith, false, true,
}
use native.Mathlib.Nat.{mod-eq_of_lt}
use krabitls_rs.Base.Lists.{length-append, take-append, drop-append}
use krabitls_rs.Base.Bytes.{slice, from_be_bytes, to_be_bytes, from_be_bytes-to_be_bytes}
use krabitls_rs.Tls.Aead.{Cipher, IsAead, aead_nonce, tls_plaintext_max, tls_ciphertext_max}
use krabitls_rs.Tls.Aead.Encrypt.{
  EncryptError, record_too_large, buffer_too_small, aead_failed, record_aad, encrypt_record_with,
}
use krabitls_rs.Tls.Aead.Decrypt.{
  check_record, open_record, decrypt_record_inplace_with, split_inner_plaintext,
}
use krabitls_rs.Tls.Aead.Inner.{split_inner_plaintext_iff}

-- What the cipher's answer makes of the record.
abbrev sealed_record : ℕ → Option (List ℕ × List ℕ) → Result EncryptError (List ℕ)
sealed_record body_len none = err aead_failed
sealed_record body_len (some (body, tag)) = ok (record_aad body_len ++ (body ++ tag))

-- The outcome of `encrypt_record_with` on every input; its second size test never fails.
encrypt_record_with_cases :
    (cipher : Cipher) (content : List ℕ) (content_type : ℕ) (iv : List ℕ) (seq out_len : ℕ)
    → encrypt_record_with cipher content content_type iv seq out_len ≡ (
        if ltb tls_plaintext_max (length content)
        then err record_too_large
        else if ltb out_len (length content + 22)
        then err (buffer_too_small (length content + 22) out_len)
        else sealed_record (length content + 17) (
            cipher.encrypt
              (aead_nonce iv seq)
              (record_aad (length content + 17))
              (content ++ (content_type ∷ []))))
unfolding encrypt_record_with
encrypt_record_with_cases cipher content content_type iv seq out_len =
    let body_len : length content + 1 + 16 ≡ length content + 17 = omega arith in
    let total : length content + 17 + 5 ≡ length content + 22 = omega arith in
    let fits : length content ≤ tls_plaintext_max
        → ltb tls_ciphertext_max (length content + 17) ≡ false =
      λ h. ground arith in
    elim (Option-cases (
      cipher.encrypt (aead_nonce iv seq) (record_aad (length content + 17))
        (content ++ (content_type ∷ [])))) [
          | inl refused ↦ rw (body_len, total, refused) (ground arith)
          | inr ((body, tag), sealed) ↦ rw (body_len, total, sealed) (ground arith)
        ]

check_record-written :
    (body_len : ℕ) (rest : List ℕ)
    → body_len ≤ tls_ciphertext_max
    → 16 ≤ body_len
    → length rest ≡ body_len
    → check_record (record_aad body_len ++ rest) ≡ ok body_len
unfolding check_record
check_record-written body_len rest fits tag_fits same =
    let small : body_len % 2 ^ 16 ≡ body_len = mod-eq_of_lt (omega arith) in
    let read : from_be_bytes (to_be_bytes 2 (body_len % 2 ^ 16)) ≡ body_len =
      from_be_bytes-to_be_bytes 2 (body_len % 2 ^ 16) (omega arith) ∙ small in
    let version : from_be_bytes (3 ∷ 3 ∷ []) ≡ 0x0303 =
      from_be_bytes-to_be_bytes 2 0x0303 (omega arith) in
    rw (read, version) (ground arith)

open_record-sealed :
    (cipher : Cipher) (iv : List ℕ) (seq body_len : ℕ) (body tag plain : List ℕ)
    → length body + 16 ≡ body_len
    → cipher.decrypt (aead_nonce iv seq) (record_aad body_len) body tag ≡ (true, plain)
    → open_record cipher iv seq (record_aad body_len ++ (body ++ tag)) body_len
      ≡ (ok (body_len - 16), record_aad body_len ++ (plain ++ tag))
unfolding open_record
open_record-sealed cipher iv seq body_len body tag plain same opened =
    let header = take-append (record_aad body_len) (body ++ tag) 5 refl in
    let rest = drop-append (record_aad body_len) (body ++ tag) 5 refl in
    let front = take-append body tag (body_len - 16) (omega arith) in
    let back = drop-append body tag (body_len - 16) (omega arith) in
    rw (header, rest, front, back, opened) refl

guards_pass :
    (n out_len : ℕ) (answer : Result EncryptError (List ℕ)) (bytes : List ℕ)
    → ◌≡◌ {A = Result EncryptError (List ℕ)}
        (if ltb tls_plaintext_max n
          then err record_too_large
          else if ltb out_len (n + 22)
          then err (buffer_too_small (n + 22) out_len)
          else answer)
        (ok bytes)
    → (n ≤ tls_plaintext_max) × (answer ≡ ok bytes)
guards_pass n out_len answer bytes h = ground arith

sealed_record_parts :
    (n : ℕ) (answer : Option (List ℕ × List ℕ)) (bytes : List ℕ)
    → sealed_record n answer ≡ ok bytes
    → (body : List ℕ) × (tag : List ℕ) × (answer ≡ some (body, tag))
      × (bytes ≡ record_aad n ++ (body ++ tag))
sealed_record_parts n none bytes h = absurd (cc h)
sealed_record_parts n (some (body, tag)) bytes h = (body, tag, refl, cc h)

-- The parts of a record that `encrypt_record_with` wrote.
pub encrypt_succeeds :
    (cipher : Cipher) (content : List ℕ) (content_type : ℕ) (iv : List ℕ) (seq out_len : ℕ)
    (bytes : List ℕ)
    → encrypt_record_with cipher content content_type iv seq out_len ≡ ok bytes
    → (body : List ℕ) × (tag : List ℕ) × (cipher.encrypt
          (aead_nonce iv seq)
          (record_aad (length content + 17))
          (content ++ (content_type ∷ []))
        ≡ some (body, tag))
      × (bytes ≡ record_aad (length content + 17) ++ (body ++ tag))
      × (length content ≤ tls_plaintext_max)
encrypt_succeeds cipher content content_type iv seq out_len bytes h =
    let answer =
      cipher.encrypt (aead_nonce iv seq) (record_aad (length content + 17))
        (content ++ (content_type ∷ [])) in
    let (small, written) =
      guards_pass (length content) out_len (sealed_record (length content + 17) answer) bytes
        (sym (encrypt_record_with_cases cipher content content_type iv seq out_len) ∙ h) in
    let (body, tag, sealed, same) =
      sealed_record_parts (length content + 17) answer bytes written in
    (body, tag, sealed, same, small)

decrypt_checked :
    (cipher : Cipher) (iv : List ℕ) (seq : ℕ) (bytes : List ℕ) (body_len : ℕ)
    → check_record bytes ≡ ok body_len
    → decrypt_record_inplace_with cipher iv seq bytes ≡ open_record cipher iv seq bytes body_len
unfolding decrypt_record_inplace_with
decrypt_checked cipher iv seq bytes body_len checked =
    rw (decrypt_record_inplace_with, checked) refl

-- A record that was written is opened: its plaintext region then holds the content and its type,
-- which `split_inner_plaintext` takes apart again, for any type but 0.
pub decrypt-encrypt :
    (cipher : Cipher)
    → IsAead cipher
    → (content : List ℕ) (content_type : ℕ) (iv : List ℕ) (seq out_len : ℕ) (bytes : List ℕ)
    → content_type ≢ 0
    → encrypt_record_with cipher content content_type iv seq out_len ≡ ok bytes
    → (after : List ℕ) × (decrypt_record_inplace_with cipher iv seq bytes
        ≡ (ok (length content + 1), after))
      × (slice 5 (5 + (length content + 1)) after ≡ content ++ (content_type ∷ []))
      × (split_inner_plaintext (slice 5 (5 + (length content + 1)) after)
          ≡ ok (content, content_type))
decrypt-encrypt cipher aead content content_type iv seq out_len bytes nonzero h =
    let (body, tag, sealed, same, small) =
      encrypt_succeeds cipher content content_type iv seq out_len bytes h in
    let plain = content ++ (content_type ∷ []) in
    let n = length content + 17 in
    let (body_length, tag_length) = aead.encrypt-length sealed in
    let plain_length = length-append content (content_type ∷ []) in
    let checked =
      check_record-written n (body ++ tag) (omega arith) (omega arith)
        (omega (arith, length-append body tag)) in
    let opened =
      open_record-sealed cipher iv seq n body tag plain (omega arith)
        (aead.decrypt-encrypt sealed) in
    let shorter : n - 16 ≡ length content + 1 = omega arith in
    let window : slice 5 (5 + (length content + 1)) (record_aad n ++ (plain ++ tag)) ≡ plain =
      ap (take (5 + (length content + 1) - 5)) (drop-append (record_aad n) (plain ++ tag) 5 refl)
      ∙ take-append plain tag (5 + (length content + 1) - 5) (omega arith) in
    (
      record_aad n ++ (plain ++ tag),
      ap (decrypt_record_inplace_with cipher iv seq) same
          ∙ decrypt_checked cipher iv seq (record_aad n ++ (body ++ tag)) n checked
          ∙ opened
          ∙ ap (λ m. (ok m, record_aad n ++ (plain ++ tag))) shorter,
      window,
      ap split_inner_plaintext window
          ∙ (split_inner_plaintext_iff plain content content_type).1
              (0, refl, nonzero, omega arith, small),
    )
