-- ===== src/Tls/Aead/Refused.antt =====
-- What decrypt_record_inplace_with of krabitls/src/aead.rs leaves in the buffer when it fails.
use krabitls_rs.Base.{
  ℕ, ◌+◌, ◌-◌, ◌≤◌, ◌≡◌, ap, ap₂, ◌∙◌, ◌⊎◌, inl, inr, List, [], ◌∷◌, ltb, ◌==◌, not, ◌++◌, length,
  take, drop, replicate, Bool, true, false, if◌then◌else◌, Result, ok, err, ◌>>◌, fail_if,
  Result-cases, arith,
}
use krabitls_rs.Base.Lists.{length-take, length-drop, drop-drop}
use krabitls_rs.Base.Bytes.{byte_at, from_be_bytes}
use krabitls_rs.Base.Results.{fail_if-eq-ok}
use krabitls_rs.Tls.Aead.{
  Cipher, aead_nonce, ct_application_data, legacy_version, tls_ciphertext_max,
}
use krabitls_rs.Tls.Aead.Decrypt.{
  DecryptError, aead_failed, truncated, unexpected_content_type, unexpected_legacy_version,
  record_too_large, trailing_bytes, check_record, open_record, decrypt_record_inplace_with,
}

-- The cipher works in place: the buffer keeps its length, whether the tag is right or not.
abbrev pub IsInPlace : Cipher → Type 0
IsInPlace cipher =
    (nonce aad body tag : List ℕ) → length (cipher.decrypt nonce aad body tag).1 ≡ length body

-- The record with zeros for every byte between its header of 5 bytes and its tag of 16.
abbrev pub cleared : List ℕ → List ℕ
cleared bytes = take 5 bytes ++ (replicate (length bytes - 21) 0 ++ drop (length bytes - 16) bytes)

-- Of seven tests that pass, what the last two say.
last_tests :
    (t₁ t₂ t₃ t₄ t₅ t₆ t₇ : Bool) (e₁ e₂ e₃ e₄ e₅ e₆ e₇ : DecryptError) (k n : ℕ)
    → ◌≡◌ {A = Result DecryptError ℕ}
        (do
          fail_if t₁ e₁
          fail_if t₂ e₂
          fail_if t₃ e₃
          fail_if t₄ e₄
          fail_if t₅ e₅
          fail_if t₆ e₆
          fail_if t₇ e₇
          ok k)
        (ok n)
    → (t₆ ≡ false) × (t₇ ≡ false) × (k ≡ n)
last_tests t₁ t₂ t₃ t₄ t₅ t₆ t₇ e₁ e₂ e₃ e₄ e₅ e₆ e₇ k n h =
    let (p₁, h₁) =
      fail_if-eq-ok t₁ e₁
        (do
          fail_if t₂ e₂
          fail_if t₃ e₃
          fail_if t₄ e₄
          fail_if t₅ e₅
          fail_if t₆ e₆
          fail_if t₇ e₇
          ok k)
        n h in
    let (p₂, h₂) =
      fail_if-eq-ok t₂ e₂
        (do fail_if t₃ e₃; fail_if t₄ e₄; fail_if t₅ e₅; fail_if t₆ e₆; fail_if t₇ e₇; ok k) n h₁ in
    let (p₃, h₃) =
      fail_if-eq-ok t₃ e₃ (do fail_if t₄ e₄; fail_if t₅ e₅; fail_if t₆ e₆; fail_if t₇ e₇; ok k) n
        h₂ in
    let (p₄, h₄) =
      fail_if-eq-ok t₄ e₄ (do fail_if t₅ e₅; fail_if t₆ e₆; fail_if t₇ e₇; ok k) n h₃ in
    let (p₅, h₅) = fail_if-eq-ok t₅ e₅ (do fail_if t₆ e₆; fail_if t₇ e₇; ok k) n h₄ in
    let (p₆, h₆) = fail_if-eq-ok t₆ e₆ (do fail_if t₇ e₇; ok k) n h₅ in
    let (p₇, h₇) = fail_if-eq-ok t₇ e₇ (ok k) n h₆ in (p₆, p₇, cc h₇)

check_record-length :
    (bytes : List ℕ) (n : ℕ) → check_record bytes ≡ ok n → (length bytes ≡ 5 + n) × (16 ≤ n)
unfolding check_record
check_record-length bytes n checked =
    let body_len = from_be_bytes (byte_at bytes 3 ∷ byte_at bytes 4 ∷ []) in
    let (exact, room, same) =
      last_tests (ltb (length bytes) 5) (not (byte_at bytes 0 == ct_application_data))
        (not (from_be_bytes (byte_at bytes 1 ∷ byte_at bytes 2 ∷ []) == legacy_version))
        (ltb tls_ciphertext_max body_len) (ltb (length bytes) (5 + body_len))
        (not (length bytes == 5 + body_len)) (ltb body_len 16) truncated
        (unexpected_content_type (byte_at bytes 0))
        (unexpected_legacy_version (from_be_bytes (byte_at bytes 1 ∷ byte_at bytes 2 ∷ [])))
        record_too_large truncated trailing_bytes truncated body_len n checked in
    let whole : length bytes ≡ 5 + body_len = ground (arith, exact) in
    let least : 16 ≤ body_len = ground (arith, room) in (omega arith, omega arith)

wrong_tag :
    (opened : Bool) (ct_len : ℕ) (head buffer tag after : List ℕ) (e : DecryptError)
    → ◌≡◌ {A = Result DecryptError ℕ × List ℕ}
        (if opened
          then (ok ct_len, head ++ (buffer ++ tag))
          else (err aead_failed, head ++ (replicate (length buffer) 0 ++ tag)))
        (err e, after)
    → (e ≡ aead_failed) × (after ≡ head ++ (replicate (length buffer) 0 ++ tag))
wrong_tag true ct_len head buffer tag after e h = absurd (cc h)
wrong_tag false ct_len head buffer tag after e h = (cc h, cc h)

-- Under a cipher that works in place, a refused record leaves no plaintext behind: either a test
-- refused it before it was decrypted and it is unchanged, or its tag was wrong and every byte
-- between its header and its tag is zero, the header and the tag being as they were.
pub decrypt_refused :
    (cipher : Cipher)
    → IsInPlace cipher
    → (iv : List ℕ) (seq : ℕ) (bytes after : List ℕ) (e : DecryptError)
    → decrypt_record_inplace_with cipher iv seq bytes ≡ (err e, after)
    → ((after ≡ bytes) × (check_record bytes ≡ err e))
      ⊎ ((e ≡ aead_failed) × (after ≡ cleared bytes))
unfolding decrypt_record_inplace_with open_record
decrypt_refused cipher in_place iv seq bytes after e h = elim (Result-cases (check_record bytes)) [
  | inl (e', refused) ↦
      let same : ◌≡◌ {A = Result DecryptError ℕ × List ℕ} (err e', bytes) (err e, after) =
        rw (decrypt_record_inplace_with, refused) at h in
      inl (cc same, cc (same, refused))
  | inr (n, checked) ↦
      let (size, tag_fits) = check_record-length bytes n checked in
      let tag = drop (n - 16) (drop 5 bytes) in
      let body = take (n - 16) (drop 5 bytes) in
      let opened = cipher.decrypt (aead_nonce iv seq) (take 5 bytes) body tag in
      let (failed, left) =
        wrong_tag opened.0 (n - 16) (take 5 bytes) opened.1 tag after e
          (rw (decrypt_record_inplace_with, checked) at h) in
      let body_len : length body ≡ n - 16 =
        omega (arith, length-take (n - 16) (drop 5 bytes), length-drop 5 bytes) in
      let count : length opened.1 ≡ length bytes - 21 =
        in_place (aead_nonce iv seq) (take 5 bytes) body tag ∙ body_len ∙ omega arith in
      let at_tag : tag ≡ drop (length bytes - 16) bytes =
        drop-drop 5 (n - 16) bytes ∙ ap (λ k. drop k bytes) (omega arith) in
      inr (failed, left ∙ ap₂ (λ k t. take 5 bytes ++ (replicate k 0 ++ t)) count at_tag)
]
