-- ===== src/Certs/Identity/Tests.antt =====
-- Runs of krabitls/src/identity.rs, and its theorems at concrete inputs.
use krabitls_rs.Base.{
  ℕ, ◌≡◌, ◌↔◌, refl, List, [], ◌∷◌, Option, none, some, true, false, ok, err, inl, inr, arith,
}
use krabitls_rs.Base.Lists.{take, drop}
use krabitls_rs.Certs.View.{CertView}
use krabitls_rs.Certs.Identity.{
  hostname_mismatch, contains, ascii_eq_ignore_case, wildcard_matches, dns_name_matches,
  looks_like_ip_literal, literal_loop, verify_hostname,
}
use krabitls_rs.Certs.Identity.Names.{IsMatch, dns_name_matches_iff}
use krabitls_rs.Certs.Identity.Walk.{names, hostname_answer}
use krabitls_rs.Certs.Identity.Accepted.{address, IsAccepted, verify_hostname_iff}

-- `*.b.c`
abbrev pattern_bytes : List ℕ
pattern_bytes = 42 ∷ 46 ∷ 98 ∷ 46 ∷ 99 ∷ []

-- `Xy.B.c`
abbrev host_bytes : List ℕ
host_bytes = 88 ∷ 121 ∷ 46 ∷ 66 ∷ 46 ∷ 99 ∷ []

-- `a.x.b.c`
abbrev deep_bytes : List ℕ
deep_bytes = 97 ∷ 46 ∷ 120 ∷ 46 ∷ 98 ∷ 46 ∷ 99 ∷ []

-- `1.2.3.4`
abbrev address_bytes : List ℕ
address_bytes = 49 ∷ 46 ∷ 50 ∷ 46 ∷ 51 ∷ 46 ∷ 52 ∷ []

-- A name of mail, an address and the pattern.
abbrev listed : List (ℕ × List ℕ)
listed = (0x81, 1 ∷ []) ∷ (0x87, 1 ∷ 2 ∷ 3 ∷ 4 ∷ []) ∷ (0x82, pattern_bytes) ∷ []

abbrev cert : CertView
cert = CertView.ed25519 [] [] [] (some (names listed)) []

abbrev unparsed : List ℕ → Option (List ℕ)
unparsed bytes = none

dns_name_matches_iff_example :
    (dns_name_matches pattern_bytes host_bytes ≡ true) ↔ IsMatch pattern_bytes host_bytes
dns_name_matches_iff_example = dns_name_matches_iff pattern_bytes host_bytes

abbrev parsed : List ℕ → Option (List ℕ)
parsed bytes = some (1 ∷ 2 ∷ 3 ∷ 4 ∷ [])

verify_hostname_iff_example :
    (verify_hostname parsed unparsed cert address_bytes ≡ ok tt)
    ↔ IsAccepted listed address_bytes (address (1 ∷ 2 ∷ 3 ∷ 4 ∷ []))
verify_hostname_iff_example =
    verify_hostname_iff parsed unparsed cert listed address_bytes address_bytes
      (address (1 ∷ 2 ∷ 3 ∷ 4 ∷ [])) refl
      (
        ((λ h. omega arith), omega arith),
        (((λ h. omega arith), omega arith), (((λ h. omega arith), omega arith), tt)),
      )
      (ground arith, inr (refl, inl (λ h. omega arith)), inl refl)

one_label : dns_name_matches pattern_bytes host_bytes ≡ true
unfolding dns_name_matches wildcard_matches contains ascii_eq_ignore_case take drop
one_label = refl

two_labels : dns_name_matches pattern_bytes deep_bytes ≡ false
unfolding dns_name_matches wildcard_matches contains ascii_eq_ignore_case take drop
two_labels = refl

accepted : hostname_answer unparsed unparsed listed host_bytes ≡ ok tt
unfolding looks_like_ip_literal literal_loop dns_name_matches wildcard_matches contains
    ascii_eq_ignore_case take drop
accepted = refl

address_refused : hostname_answer unparsed unparsed listed address_bytes ≡ err hostname_mismatch
unfolding looks_like_ip_literal literal_loop
address_refused = refl
