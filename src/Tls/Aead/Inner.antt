-- ===== src/Tls/Aead/Inner.antt =====
-- What the branch-free scan of split_inner_plaintext in krabitls/src/aead.rs finds.
use krabitls_rs.Base.{
  ℕ, zero, suc, ◌+◌, ◌-◌, ◌≤◌, ◌≡◌, ◌≢◌, ◌↔◌, ◌⊎◌, inl, inr, refl, ap, ap₂, sym, ◌∙◌, List, [], ◌∷◌,
  ◌++◌, length, replicate, ltb, ◌==◌, if◌then◌else◌, Result, ok, err, arith, Bool-cases,
}
use krabitls_rs.Base.Lists.{length-append, length-replicate, take-append}
use krabitls_rs.Tls.Aead.{tls_plaintext_max, tls_ciphertext_max}
use krabitls_rs.Tls.Aead.Decrypt.{DecryptError, record_too_large, scan_inner, split_inner_plaintext}

abbrev zeros : ℕ → List ℕ
zeros k = replicate k 0

length-zeros : (k : ℕ) → length (zeros k) ≡ k
length-zeros k = length-replicate k _

-- `TLSInnerPlaintext`: the content, its type, and the padding.
abbrev pub inner_plaintext : List ℕ → ℕ → ℕ → List ℕ
inner_plaintext content content_type padding = content ++ (content_type ∷ replicate padding 0)

scan_inner-zeros : (k i last t : ℕ) → scan_inner i last t (zeros k) ≡ (last, t)
unfolding scan_inner
scan_inner-zeros zero i last t = refl
scan_inner-zeros (suc k) i last t = scan_inner-zeros k (i + 1) last t

scan_inner-found :
    (content : List ℕ) (t k i last seen : ℕ)
    → t ≢ 0
    → scan_inner i last seen (inner_plaintext content t k) ≡ (i + length content + 1, t)
unfolding scan_inner
scan_inner-found [] t k i last seen nonzero =
    scan_inner-zeros k (i + 1) (if t == 0 then last else i + 1) (if t == 0 then seen else t)
    ∙ ground arith
scan_inner-found (b ∷ content) t k i last seen nonzero =
    let further : i + 1 + length content + 1 ≡ i + suc (length content) + 1 = omega arith in
    scan_inner-found content t k (i + 1) (if b == 0 then last else i + 1)
      (if b == 0 then seen else b) nonzero
    ∙ ap (λ n. (n, t)) further

length-inner_plaintext :
    (content : List ℕ) (t k : ℕ) → length (inner_plaintext content t k) ≡ length content + 1 + k
length-inner_plaintext content t k =
    omega (arith, length-append content (t ∷ zeros k), length-zeros k)

abbrev limited : List ℕ → ℕ → ℕ → Result DecryptError (List ℕ × ℕ)
limited content t k =
    if ltb tls_ciphertext_max (length content + 1 + k)
    then err record_too_large
    else if ltb tls_plaintext_max (length content)
    then err record_too_large
    else ok (content, t)

-- The outcome on content, a type that is not zero, and padding.
split_inner_cases :
    (content : List ℕ) (t k : ℕ)
    → t ≢ 0
    → split_inner_plaintext (inner_plaintext content t k) ≡ limited content t k
unfolding split_inner_plaintext
split_inner_cases content t k nonzero =
    rw (scan_inner-found content t k 0 0 0 nonzero, length-inner_plaintext content t k)
      (ground (arith, take-append content (t ∷ zeros k) (0 + length content + 1 - 1) (omega arith)))

-- A byte string is padding alone, or a content, its type and padding.
abbrev Peeled : List ℕ → Type 0
Peeled inner =
    ((k : ℕ) × (inner ≡ zeros k))
    ⊎ ((content : List ℕ) × (t : ℕ) × (k : ℕ) × (t ≢ 0) × (inner ≡ inner_plaintext content t k))

peel_first : (b : ℕ) (inner : List ℕ) → Peeled inner → Peeled (b ∷ inner)
peel_first zero inner (inl (k, e)) = inl (suc k, ap (◌∷◌ 0) e)
peel_first (suc b) inner (inl (k, e)) = inr ([], suc b, k, (λ h. omega arith), ap (◌∷◌ (suc b)) e)
peel_first b inner (inr (content, t, k, nonzero, e)) =
    inr (b ∷ content, t, k, nonzero, ap (◌∷◌ b) e)

peel : (inner : List ℕ) → Peeled inner
peel [] = inl (0, refl)
peel (b ∷ inner) = peel_first b inner (peel inner)

split_inner-padding :
    (k : ℕ) (content : List ℕ) (t : ℕ) → split_inner_plaintext (zeros k) ≡ ok (content, t) → ⊥
unfolding split_inner_plaintext
split_inner-padding k content t h =
    let found = scan_inner-zeros k 0 0 0 in
    elim (Bool-cases (ltb tls_ciphertext_max (length (zeros k)))) [
      | inl long ↦ cc (long, h)
      | inr short ↦ cc (short, found, h)
    ]

-- The content and the type are those that were split off, when the limits hold.
within_limits :
    (content expected : List ℕ) (t u k : ℕ)
    → limited content t k ≡ ok (expected, u)
    → (length content + 1 + k ≤ tls_ciphertext_max)
      × (length content ≤ tls_plaintext_max)
      × (content ≡ expected)
      × (t ≡ u)
within_limits content expected t u k h = ground arith

peeled :
    (inner content : List ℕ) (t : ℕ)
    → Peeled inner
    → split_inner_plaintext inner ≡ ok (content, t)
    → (k : ℕ) × (inner ≡ inner_plaintext content t k)
      × (t ≢ 0)
      × (length inner ≤ tls_ciphertext_max)
      × (length content ≤ tls_plaintext_max)
peeled inner content t (inl (k, e)) h =
    absurd (split_inner-padding k content t (sym (ap split_inner_plaintext e) ∙ h))
peeled inner content t (inr (content', t', k, nonzero, e)) h =
    let (long, wide, same, type_same) =
      within_limits content' content t' t k
        (sym (split_inner_cases content' t' k nonzero) ∙ sym (ap split_inner_plaintext e) ∙ h) in
    (
      k,
      e ∙ ap₂ (λ c u. inner_plaintext c u k) same type_same,
      (λ z. nonzero (type_same ∙ z)),
      omega (arith, ap length e, length-inner_plaintext content' t' k),
      omega (arith, ap length same),
    )

-- `split_inner_plaintext` succeeds exactly on content, a type that is not zero and padding, within
-- the two size limits, and returns that content and that type.
pub split_inner_plaintext_iff :
    (inner content : List ℕ) (t : ℕ)
    → (split_inner_plaintext inner ≡ ok (content, t)) ↔ (
        (k : ℕ) × (inner ≡ inner_plaintext content t k)
        × (t ≢ 0)
        × (length inner ≤ tls_ciphertext_max)
        × (length content ≤ tls_plaintext_max))
split_inner_plaintext_iff inner content t = (
  peeled inner content t (peel inner),
  λ (k, e, nonzero, long, wide). rw (e) (
      split_inner_cases content t k nonzero
      ∙ ground (arith, length-inner_plaintext content t k, ap length e)),
)
