-- ===== src/Certs/Identity.antt =====
-- krabitls/src/identity.rs, with IP addresses in host names compiled in: the match of a name in a
-- certificate with a host name, and the walk over the names of a certificate. Host names are
-- their bytes. The parsers of IP addresses are those of the standard library, here parameters. A
-- step of the walk takes at least two bytes, so the length of what is left is fuel enough.
pub mod Names
pub mod Walk
pub mod Accepted
mod Tests
use krabitls_rs.Base.{
  ℕ, zero, suc, ◌+◌, ◌-◌, List, [], ◌∷◌, length, take, drop, leb, ltb, ◌==◌, ◌&&◌, ◌||◌, not,
  if◌then◌else◌, Bool, true, false, Option, none, some, Result, ok, err, ◌>>=◌, ok_or,
}
use krabitls_rs.Base.Bytes.{byte_at}
use krabitls_rs.Certs.Tlv.{Tlv, TlvError, read_tlv}
use krabitls_rs.Certs.View.{CertView}

pub data IdentityError : Type 0 where
  no_san hostname_mismatch malformed_san pin_mismatch pin_algorithm_mismatch : IdentityError

-- `DNS_NAME_TAG`
abbrev pub dns_name_tag : ℕ
dns_name_tag = 0x82

-- `IP_ADDRESS_TAG`
abbrev pub ip_address_tag : ℕ
ip_address_tag = 0x87

-- `contains` of a byte.
unfoldable pub contains : ℕ → List ℕ → Bool
contains b [] = false
contains b (x ∷ xs) = (x == b) || contains b xs

-- `to_ascii_lowercase` of a byte.
abbrev pub to_ascii_lowercase : ℕ → ℕ
to_ascii_lowercase b = if leb 65 b && leb b 90 then b + 32 else b

-- `eq_ignore_ascii_case`
unfoldable pub ascii_eq_ignore_case : List ℕ → List ℕ → Bool
ascii_eq_ignore_case [] [] = true
ascii_eq_ignore_case [] (y ∷ ys) = false
ascii_eq_ignore_case (x ∷ xs) [] = false
ascii_eq_ignore_case (x ∷ xs) (y ∷ ys) =
    (to_ascii_lowercase x == to_ascii_lowercase y) && ascii_eq_ignore_case xs ys

-- The branch of `dns_name_matches` for a pattern that starts with `*.`.
unfoldable pub wildcard_matches : List ℕ → List ℕ → Bool
wildcard_matches suffix hostname =
    let split_at = length hostname - length suffix in
    let label_with_dot = take split_at hostname in
    let tail = drop split_at hostname in
    let label = take (length label_with_dot - 1) label_with_dot in
    if length suffix == 0 || contains 42 suffix
    then false
    else if leb (length hostname) (length suffix + 1)
    then false
    else if not (ascii_eq_ignore_case tail suffix)
    then false
    else if not (byte_at label_with_dot (length label_with_dot - 1) == 46)
    then false
    else if length label == 0 || contains 46 label
    then false
    else true

unfoldable pub dns_name_matches : List ℕ → List ℕ → Bool
dns_name_matches pattern hostname =
    if (byte_at pattern 0 == 42) && (byte_at pattern 1 == 46)
    then wildcard_matches (drop 2 pattern) hostname
    else if contains 42 pattern
    then false
    else ascii_eq_ignore_case pattern hostname

abbrev pub is_ascii_digit : ℕ → Bool
is_ascii_digit b = leb 48 b && leb b 57

-- The loop of `looks_like_ip_literal`, with its flags, and what follows it.
unfoldable pub literal_loop : Bool → Bool → List ℕ → Bool
literal_loop saw_dot all_digit_or_dot [] = all_digit_or_dot && saw_dot
literal_loop saw_dot all_digit_or_dot (b ∷ bytes) =
    let dot = literal_loop true all_digit_or_dot bytes in
    let digit = literal_loop saw_dot all_digit_or_dot bytes in
    let other = literal_loop saw_dot false bytes in
    if b == 58 then true else if b == 46 then dot else if is_ascii_digit b then digit else other

unfoldable pub looks_like_ip_literal : List ℕ → Bool
looks_like_ip_literal hostname =
    if byte_at hostname 0 == 91
    then true
    else not (length hostname == 0) && literal_loop false true hostname

abbrev pub wrong_octets : ℕ → List ℕ → Bool
wrong_octets target_tag body =
    (target_tag == ip_address_tag) && not (length body == 4) && not (length body == 16)

-- `SanEntryWalker::next` on what is left: the item, and what is left after it.
unfoldable pub next_entry : ℕ → ℕ → List ℕ → Option (Result IdentityError (List ℕ) × List ℕ)
next_entry zero target_tag rest = none
next_entry (suc fuel) target_tag [] = none
next_entry (suc fuel) target_tag (b ∷ bytes) = elim (read_tlv (b ∷ bytes)) [
  | err e ↦ some (err malformed_san, [])
  | ok t ↦
      let later = next_entry fuel target_tag t.rest in
      if t.tag == target_tag
      then (if wrong_octets target_tag t.body
          then some (err malformed_san, t.rest)
          else some (ok t.body, t.rest))
      else later
]

-- The loops over the entries in `verify_hostname` and `match_ip_address`.
unfoldable pub any_entry : ℕ → ℕ → (List ℕ → Bool) → List ℕ → Result IdentityError (Unit {0})
any_entry zero target_tag matches rest = err hostname_mismatch
any_entry (suc fuel) target_tag matches rest = elim (next_entry (length rest) target_tag rest) [
  | none ↦ err hostname_mismatch
  | some item ↦
      let later = any_entry fuel target_tag matches item.1 in
      item.0 >>= λ entry. if matches entry then ok tt else later
]

-- The name without the brackets of a URL.
unfoldable pub unbracketed : List ℕ → List ℕ
unbracketed hostname =
    if (byte_at hostname 0 == 91)
      && leb 2 (length hostname)
      && (byte_at hostname (length hostname - 1) == 93)
    then take (length hostname - 2) (drop 1 hostname)
    else hostname

-- `==` of byte strings.
unfoldable pub same_bytes : List ℕ → List ℕ → Bool
same_bytes [] [] = true
same_bytes [] (y ∷ ys) = false
same_bytes (x ∷ xs) [] = false
same_bytes (x ∷ xs) (y ∷ ys) = (x == y) && same_bytes xs ys

unfoldable pub match_ip_address : List ℕ → List ℕ → Result IdentityError (Unit {0})
match_ip_address san expected =
    any_entry (suc (length san)) ip_address_tag (λ entry. same_bytes entry expected) san

abbrev pub san_of : CertView → Option (List ℕ)
san_of (CertView.ed25519 _ _ _ san _) = san
san_of (CertView.rsa _ _ _ _ _ san _) = san
san_of (CertView.mldsa _ _ _ san _) = san
san_of (CertView.ecdsa_p256 _ _ _ _ san _) = san
san_of (CertView.ecdsa_p384 _ _ _ _ san _) = san

-- Given the parsers of IPv4 and IPv6 addresses into their octets.
unfoldable pub verify_hostname :
    (List ℕ → Option (List ℕ))
    → (List ℕ → Option (List ℕ))
    → CertView
    → List ℕ
    → Result IdentityError (Unit {0})
verify_hostname parse_v4 parse_v6 cert_view hostname = ok_or (san_of cert_view) no_san >>= λ san.
    if looks_like_ip_literal hostname
    then elim (parse_v4 (unbracketed hostname)) [
      | some v4 ↦ match_ip_address san v4
      | none ↦ elim (parse_v6 (unbracketed hostname)) [
        | some v6 ↦ match_ip_address san v6
        | none ↦ err hostname_mismatch
      ]
    ]
    else any_entry (suc (length san)) dns_name_tag (λ entry. dns_name_matches entry hostname) san
