-- ===== src/Certs/Identity/Walk.antt =====
-- The walk of krabitls/src/identity.rs over the names of a certificate.
use krabitls_rs.Base.{
  ℕ, zero, suc, ◌^◌, ◌%◌, ◌≤◌, ◌<◌, ◌≡◌, ◌≢◌, refl, sym, ap, ◌∙◌, List, [], ◌∷◌, ◌++◌, length, ◌==◌,
  if◌then◌else◌, Bool, true, false, arith, Bool-cases, Option, none, some, Result, ok, err, ◌>>=◌,
  All, inl, inr,
}
use krabitls_rs.Base.Lists.{length-append}
use krabitls_rs.Certs.Tlv.RoundTrip.{der, read_tlv-der}
use krabitls_rs.Certs.View.{CertView}
use krabitls_rs.Certs.Identity.{
  IdentityError, malformed_san, hostname_mismatch, dns_name_tag, ip_address_tag, wrong_octets,
  next_entry, any_entry, same_bytes, match_ip_address, san_of, dns_name_matches,
  looks_like_ip_literal, unbracketed, verify_hostname,
}

-- Names in DER: their tag and body.
abbrev pub names : List (ℕ × List ℕ) → List ℕ
names [] = []
names (e ∷ es) = der e.0 e.1 ++ names es

abbrev pub IsName : ℕ × List ℕ → Type 0
IsName e = (e.0 % 32 ≢ 31) × (length e.1 < 2 ^ 32)

-- The answer of the names in their order: of those with the tag the first that matches decides, and
-- an address of a wrong length before it is an error.
abbrev pub answer : ℕ → (List ℕ → Bool) → List (ℕ × List ℕ) → Result IdentityError (Unit {0})
answer tag matches [] = err hostname_mismatch
answer tag matches (e ∷ es) =
    let rest = answer tag matches es in
    if e.0 == tag
    then (if wrong_octets tag e.1 then err malformed_san else if matches e.1 then ok tt else rest)
    else rest

-- The next name with the tag.
abbrev next_name : ℕ → List (ℕ × List ℕ) → Option (Result IdentityError (List ℕ) × List ℕ)
next_name tag [] = none
next_name tag (e ∷ es) =
    let rest = next_name tag es in
    if e.0 == tag
    then (if wrong_octets tag e.1
        then some (err malformed_san, names es)
        else some (ok e.1, names es))
    else rest

next_entry-names :
    (fuel tag : ℕ) (es : List (ℕ × List ℕ))
    → All IsName es
    → length (names es) ≤ fuel
    → next_entry fuel tag (names es) ≡ next_name tag es
unfolding next_entry
next_entry-names zero tag [] good enough = refl
next_entry-names (suc fuel) tag [] good enough = refl
next_entry-names zero tag (e ∷ es) good enough =
    absurd (omega (arith, length-append (der e.0 e.1) (names es)))
next_entry-names (suc fuel) tag (e ∷ es) good enough =
    let size = length-append (der e.0 e.1) (names es) in
    let read = read_tlv-der e.0 e.1 (names es) good.0.0 good.0.1 in
    let go = next_entry-names fuel tag es good.1 (omega arith) in
    ap
      (λ r. elim r as (λ x. Option (Result IdentityError (List ℕ) × List ℕ)) [
        | err x ↦ some (err malformed_san, [])
        | ok t ↦
            let later = next_entry fuel tag t.rest in
            if t.tag == tag
            then (if wrong_octets tag t.body
                then some (err malformed_san, t.rest)
                else some (ok t.body, t.rest))
            else later
      ])
      read
    ∙ (ap
        (λ t.
          if e.0 == tag
          then (if wrong_octets tag e.1
              then some (err malformed_san, names es)
              else some (ok e.1, names es))
          else t)
        go)

-- The loop over what `next_entry` says.
round :
    ℕ
    → ℕ
    → (List ℕ → Bool)
    → Option (Result IdentityError (List ℕ) × List ℕ)
    → Result IdentityError (Unit {0})
round fuel tag matches none = err hostname_mismatch
round fuel tag matches (some item) =
    let later = any_entry fuel tag matches item.1 in
    item.0 >>= λ entry. if matches entry then ok tt else later

any_entry-round :
    (fuel tag : ℕ) (matches : List ℕ → Bool) (es : List (ℕ × List ℕ))
    → All IsName es
    → any_entry (suc fuel) tag matches (names es) ≡ round fuel tag matches (next_name tag es)
unfolding any_entry round
any_entry-round fuel tag matches es good =
    ap
      (λ r. elim r as (λ x. Result IdentityError (Unit {0})) [
        | none ↦ err hostname_mismatch
        | some item ↦
            let later = any_entry fuel tag matches item.1 in
            item.0 >>= λ entry. if matches entry then ok tt else later
      ])
      (next_entry-names (length (names es)) tag es good (omega arith))

any_entry-names :
    (fuel tag : ℕ) (matches : List ℕ → Bool) (es : List (ℕ × List ℕ))
    → All IsName es
    → length (names es) < fuel
    → any_entry fuel tag matches (names es) ≡ answer tag matches es
unfolding round
any_entry-names zero tag matches es good enough = absurd (omega arith)
any_entry-names (suc fuel) tag matches [] good enough = any_entry-round fuel tag matches [] good
any_entry-names (suc fuel) tag matches (e ∷ es) good enough =
    let size = length-append (der e.0 e.1) (names es) in
    let first = any_entry-round fuel tag matches (e ∷ es) good in
    elim (Bool-cases (e.0 == tag)) [
      | inl here ↦
          let go = any_entry-names fuel tag matches es good.1 (omega arith) in
          elim (Bool-cases (wrong_octets tag e.1)) [
            | inl wrong ↦ first ∙ rw (here, wrong) refl
            | inr right ↦ first ∙ rw (here, right, go) refl
          ]
      | inr other ↦
          let go = any_entry-names (suc fuel) tag matches es good.1 (omega arith) in
          first ∙ rw other (sym (any_entry-round fuel tag matches es good.1) ∙ go)
    ]

-- What the names of a certificate say to a host name: an address asks for an address with its
-- octets, and what only looks like one matches nothing; any other host name asks for a name.
abbrev pub hostname_answer :
    (List ℕ → Option (List ℕ))
    → (List ℕ → Option (List ℕ))
    → List (ℕ × List ℕ)
    → List ℕ
    → Result IdentityError (Unit {0})
hostname_answer parse_v4 parse_v6 es hostname =
    if looks_like_ip_literal hostname
    then elim (parse_v4 (unbracketed hostname)) [
      | some v4 ↦ answer ip_address_tag (λ entry. same_bytes entry v4) es
      | none ↦ elim (parse_v6 (unbracketed hostname)) [
        | some v6 ↦ answer ip_address_tag (λ entry. same_bytes entry v6) es
        | none ↦ err hostname_mismatch
      ]
    ]
    else answer dns_name_tag (λ entry. dns_name_matches entry hostname) es

-- The choice between the parsed addresses and a name.
choice :
    (ip : Bool) (v4 v6 : Option (List ℕ)) (found found' : List ℕ → Result IdentityError (Unit {0}))
    (named named' : Result IdentityError (Unit {0}))
    → ((octets : List ℕ) → found octets ≡ found' octets)
    → named ≡ named'
    → (if ip
        then elim v4 [
          | some v ↦ found v
          | none ↦ elim v6 [ some v ↦ found v | none ↦ err hostname_mismatch ]
        ]
        else named)
      ≡ (if ip
          then elim v4 [
            | some v ↦ found' v
            | none ↦ elim v6 [ some v ↦ found' v | none ↦ err hostname_mismatch ]
          ]
          else named')
choice false v4 v6 found found' named named' same other = other
choice true (some v) v6 found found' named named' same other = same v
choice true none (some v) found found' named named' same other = same v
choice true none none found found' named named' same other = refl

-- When the names of a certificate are DER elements with tags in the low form and bodies of less
-- than 2^32 bytes, a host name is accepted, refused or met with an error as the names in their
-- order say: a name for an address never matches a host name, and the other way round.
pub verify_hostname-names :
    (parse_v4 parse_v6 : List ℕ → Option (List ℕ)) (cert_view : CertView) (es : List (ℕ × List ℕ))
    (hostname : List ℕ)
    → san_of cert_view ≡ some (names es)
    → All IsName es
    → verify_hostname parse_v4 parse_v6 cert_view hostname
      ≡ hostname_answer parse_v4 parse_v6 es hostname
unfolding verify_hostname match_ip_address
verify_hostname-names parse_v4 parse_v6 cert_view es hostname san good =
    let walk = λ (tag : ℕ) (matches : List ℕ → Bool).
      any_entry-names (suc (length (names es))) tag matches es good (omega arith) in
    rw san (
      choice (looks_like_ip_literal hostname) (parse_v4 (unbracketed hostname))
        (parse_v6 (unbracketed hostname)) (match_ip_address (names es))
        (λ octets. answer ip_address_tag (λ entry. same_bytes entry octets) es) _ _
        (λ octets. walk ip_address_tag (λ entry. same_bytes entry octets))
        (walk dns_name_tag (λ entry. dns_name_matches entry hostname)))
