-- ===== src/Certs/Identity/Accepted.antt =====
-- When verify_hostname of krabitls/src/identity.rs accepts a host name.
use krabitls_rs.Base.{
  ℕ, ◌-◌, ◌≤◌, ◌<◌, ◌≡◌, ◌≢◌, ◌↔◌, ◌⊎◌, inl, inr, refl, sym, ap, subst, ◌∙◌, List, [], ◌∷◌, ◌++◌,
  length, take, drop, leb, ◌==◌, ◌&&◌, Bool, true, false, arith, Bool-cases, Option, none, some, ok,
  err, All,
}
use krabitls_rs.Base.Lists.{length-append, take-append, get_or_past}
use krabitls_rs.Base.Bytes.{byte_at}
use krabitls_rs.Certs.View.{CertView}
use krabitls_rs.Certs.Identity.{
  hostname_mismatch, same_bytes, san_of, dns_name_matches, literal_loop, looks_like_ip_literal,
  unbracketed, verify_hostname,
}
use krabitls_rs.Certs.Identity.Names.{IsMatch, dns_name_matches_iff}
use krabitls_rs.Certs.Identity.Walk.{names, IsName, answer, hostname_answer, verify_hostname-names}

-- A byte of the list.
abbrev pub Has : ℕ → List ℕ → Type 0
Has b [] = ⊥
Has b (x ∷ xs) = (x ≡ b) ⊎ Has b xs

-- A dot or a digit.
abbrev pub IsDotOrDigit : ℕ → Type 0
IsDotOrDigit b = (b ≡ 46) ⊎ ((48 ≤ b) × (b ≤ 57))

-- The shapes of an IP literal: an opening bracket, a colon somewhere, or digits and dots with a dot.
abbrev pub IsLiteral : List ℕ → Type 0
IsLiteral hostname =
    (byte_at hostname 0 ≡ 91) ⊎ Has 58 hostname ⊎ (Has 46 hostname × All IsDotOrDigit hostname)

-- The name without one pair of brackets around it.
abbrev pub IsInner : List ℕ → List ℕ → Type 0
IsInner hostname inner =
    (hostname ≡ 91 ∷ (inner ++ (93 ∷ [])))
    ⊎ ((inner ≡ hostname)
        × ((byte_at hostname 0 ≢ 91)
            ⊎ (byte_at hostname (length hostname - 1) ≢ 93)
            ⊎ (length hostname < 2)))

-- What a host name is: a name, an address with its octets, or a literal that is no address.
pub data Host : Type 0 where
  name : Host
  address : (octets : List ℕ) → Host
  no_address : Host

module _ (parse_v4 parse_v6 : List ℕ → Option (List ℕ)) where
  abbrev pub IsHost : List ℕ → List ℕ → Host → Type 0
  IsHost hostname inner name = IsLiteral hostname → ⊥
  IsHost hostname inner (address octets) =
      IsLiteral hostname
      × IsInner hostname inner
      × ((parse_v4 inner ≡ some octets)
          ⊎ ((parse_v4 inner ≡ none) × (parse_v6 inner ≡ some octets)))
  IsHost hostname inner no_address =
      IsLiteral hostname
      × IsInner hostname inner
      × (parse_v4 inner ≡ none)
      × (parse_v6 inner ≡ none)

-- Four octets or sixteen.
abbrev pub IsOctets : List ℕ → Type 0
IsOctets body = (length body ≡ 4) ⊎ (length body ≡ 16)

-- An entry with tag 0x82 that matches the host name.
abbrev pub HasName : List ℕ → List (ℕ × List ℕ) → Type 0
HasName hostname [] = ⊥
HasName hostname (e ∷ es) = ((e.0 ≡ 0x82) × IsMatch e.1 hostname) ⊎ HasName hostname es

-- An entry with tag 0x87 and the octets; each entry with that tag up to it has four or sixteen.
abbrev pub HasAddress : List ℕ → List (ℕ × List ℕ) → Type 0
HasAddress octets [] = ⊥
HasAddress octets (e ∷ es) =
    ((e.0 ≡ 0x87) × IsOctets e.1 × ((e.1 ≡ octets) ⊎ HasAddress octets es))
    ⊎ ((e.0 ≢ 0x87) × HasAddress octets es)

abbrev pub IsAccepted : List (ℕ × List ℕ) → List ℕ → Host → Type 0
IsAccepted es hostname name = HasName hostname es
IsAccepted es hostname (address octets) = HasAddress octets es
IsAccepted es hostname no_address = ⊥

literal_loop_iff :
    (saw_dot all_digit_or_dot : Bool) (bytes : List ℕ)
    → (literal_loop saw_dot all_digit_or_dot bytes ≡ true) ↔ (
        Has 58 bytes
        ⊎ ((all_digit_or_dot ≡ true) × ((saw_dot ≡ true) ⊎ Has 46 bytes) × All IsDotOrDigit bytes))
unfolding literal_loop
literal_loop_iff saw_dot all_digit_or_dot [] = ground arith
literal_loop_iff saw_dot all_digit_or_dot (b ∷ bytes) =
    let dot = literal_loop_iff true all_digit_or_dot bytes in
    let digit = literal_loop_iff saw_dot all_digit_or_dot bytes in
    let other = literal_loop_iff saw_dot false bytes in ground (arith, dot, digit, other)

looks_like_ip_literal_iff :
    (hostname : List ℕ) → (looks_like_ip_literal hostname ≡ true) ↔ IsLiteral hostname
unfolding looks_like_ip_literal
looks_like_ip_literal_iff [] = ground arith
looks_like_ip_literal_iff (b ∷ bytes) =
    let loop = literal_loop_iff false true (b ∷ bytes) in ground (arith, loop)

same_bytes_iff : (xs ys : List ℕ) → (same_bytes xs ys ≡ true) ↔ (xs ≡ ys)
unfolding same_bytes
same_bytes_iff [] [] = ground arith
same_bytes_iff [] (y ∷ ys) = ground arith
same_bytes_iff (x ∷ xs) [] = ground arith
same_bytes_iff (x ∷ xs) (y ∷ ys) = ground (arith, same_bytes_iff xs ys)

answer-HasName :
    (hostname : List ℕ) (es : List (ℕ × List ℕ))
    → (answer 0x82 (λ entry. dns_name_matches entry hostname) es ≡ ok tt) ↔ HasName hostname es
answer-HasName hostname [] = (λ h. absurd (cc h), λ h. absurd h)
answer-HasName hostname (e ∷ es) =
    let this = dns_name_matches_iff e.1 hostname in
    let rest = answer-HasName hostname es in ground (arith, this, rest)

answer-HasAddress :
    (octets : List ℕ) (es : List (ℕ × List ℕ))
    → (answer 0x87 (λ entry. same_bytes entry octets) es ≡ ok tt) ↔ HasAddress octets es
answer-HasAddress octets [] = (λ h. absurd (cc h), λ h. absurd h)
answer-HasAddress octets (e ∷ es) =
    let this = same_bytes_iff e.1 octets in
    let rest = answer-HasAddress octets es in ground (arith, this, rest)

unbracketed-brackets : (inner : List ℕ) → unbracketed (91 ∷ (inner ++ (93 ∷ []))) ≡ inner
unfolding unbracketed drop
unbracketed-brackets inner =
    let whole = 91 ∷ (inner ++ (93 ∷ [])) in
    let size = length-append inner (93 ∷ []) in
    let last : byte_at whole (length whole - 1) ≡ 93 =
      get_or_past (91 ∷ inner) (93 ∷ []) (length whole - 1) 0 0 (omega arith) in
    let two : leb 2 (length whole) ≡ true = ground arith in
    let cut : take (length whole - 2) (drop 1 whole) ≡ inner =
      take-append inner (93 ∷ []) (length whole - 2) (omega arith) in
    rw (last, two, cut) refl

unbracketed-IsInner :
    (hostname inner : List ℕ) → IsInner hostname inner → unbracketed hostname ≡ inner
unfolding unbracketed
unbracketed-IsInner hostname inner (inl whole) =
    subst (λ h. unbracketed h ≡ inner) (sym whole) (unbracketed-brackets inner)
unbracketed-IsInner hostname inner (inr (same, plain)) =
    let kept : (byte_at hostname 0 == 91
          && leb 2 (length hostname)
          && byte_at hostname (length hostname - 1) == 93)
        ≡ false =
      ground (arith, plain) in
    rw kept (sym same)

-- The run on the answers of the parsers.
address_run :
    (parse_v4 parse_v6 : List ℕ → Option (List ℕ)) (es : List (ℕ × List ℕ))
    (hostname octets : List ℕ)
    → IsHost parse_v4 parse_v6 hostname (unbracketed hostname) (address octets)
    → hostname_answer parse_v4 parse_v6 es hostname
      ≡ answer 0x87 (λ entry. same_bytes entry octets) es
address_run parse_v4 parse_v6 es hostname octets (literal, inner, inl found) =
    let shape = (looks_like_ip_literal_iff hostname).1 literal in rw (shape, found) refl
address_run parse_v4 parse_v6 es hostname octets (literal, inner, inr (absent, found)) =
    let shape = (looks_like_ip_literal_iff hostname).1 literal in rw (shape, absent, found) refl

-- When the names of a certificate are DER elements with tags in the low form and bodies of less
-- than 2^32 bytes, a host name is accepted exactly in these cases: it has not the shape of an IP
-- literal, and an entry with tag 0x82 matches it; or it has this shape, what is within its brackets
-- parses as an IPv4 address or else as an IPv6 address, and an entry with tag 0x87 has its octets,
-- where this entry and those with the tag before it have 4 or 16 octets. A literal that parses as
-- neither is not accepted.
pub verify_hostname_iff :
    (parse_v4 parse_v6 : List ℕ → Option (List ℕ)) (cert_view : CertView) (es : List (ℕ × List ℕ))
    (hostname inner : List ℕ) (host : Host)
    → san_of cert_view ≡ some (names es)
    → All IsName es
    → IsHost parse_v4 parse_v6 hostname inner host
    → (verify_hostname parse_v4 parse_v6 cert_view hostname ≡ ok tt) ↔ IsAccepted es hostname host
verify_hostname_iff parse_v4 parse_v6 cert_view es hostname inner name san good named =
    let run = verify_hostname-names parse_v4 parse_v6 cert_view es hostname san good in
    let shape : looks_like_ip_literal hostname ≡ false =
      elim (Bool-cases (looks_like_ip_literal hostname)) [
        | inl literal ↦ absurd (named ((looks_like_ip_literal_iff hostname).0 literal))
        | inr other ↦ other
      ] in
    let by_name : hostname_answer parse_v4 parse_v6 es hostname
        ≡ answer 0x82 (λ entry. dns_name_matches entry hostname) es =
      rw shape refl in
    subst (λ r. (r ≡ ok tt) ↔ HasName hostname es) (sym (run ∙ by_name))
      (answer-HasName hostname es)
verify_hostname_iff parse_v4 parse_v6 cert_view es hostname inner (address octets) san good
      (literal, within, parsed) =
    let run = verify_hostname-names parse_v4 parse_v6 cert_view es hostname san good in
    let same = unbracketed-IsInner hostname inner within in
    let there =
      subst (λ i. IsHost parse_v4 parse_v6 hostname i (address octets)) (sym same)
        (literal, within, parsed) in
    subst (λ r. (r ≡ ok tt) ↔ HasAddress octets es)
      (sym (run ∙ address_run parse_v4 parse_v6 es hostname octets there))
      (answer-HasAddress octets es)
verify_hostname_iff parse_v4 parse_v6 cert_view es hostname inner no_address san good
      (literal, within, no_v4, no_v6) =
    let run = verify_hostname-names parse_v4 parse_v6 cert_view es hostname san good in
    let same = unbracketed-IsInner hostname inner within in
    let shape = (looks_like_ip_literal_iff hostname).1 literal in
    let none4 : parse_v4 (unbracketed hostname) ≡ none = ap parse_v4 same ∙ no_v4 in
    let none6 : parse_v6 (unbracketed hostname) ≡ none = ap parse_v6 same ∙ no_v6 in
    let refused : hostname_answer parse_v4 parse_v6 es hostname ≡ err hostname_mismatch =
      rw (shape, none4, none6) refl in
    (λ h. absurd (cc (h, run, refused)), λ h. absurd h)
