-- ===== src/Dtls/Hello/Offers.antt =====
-- The extensions of a ServerHello as values, in the formats that parse_server_hello of
-- krabitls/src/dtls/handshake.rs reads, and the answer that they call for.
use krabitls_rs.Base.{
  ℕ, ◌^◌, ◌<◌, ◌≡◌, ◌≢◌, List, [], ◌∷◌, ◌++◌, length, ◌==◌, ◌&&◌, if◌then◌else◌, Bool, true, false,
  Option, none, some, Result, ok, err,
}
use krabitls_rs.Base.Bytes.{to_be_bytes}
use krabitls_rs.Dtls.Hello.{
  ParseError, unexpected_group, missing_cookie, missing_key_share, ServerHelloKind, retry, hello,
  hrr_random,
}

-- The value of an extension: a cookie, a connection id, a key of a group, or any other data.
pub data Offer : Type 0 where
  offer_cookie : List ℕ → Offer
  offer_connection_id : List ℕ → Offer
  offer_key_share : (group : ℕ) (key : List ℕ) → Offer
  offer_other : (ext_type : ℕ) (data_ : List ℕ) → Offer

-- The type and the data of an extension, by the formats of RFC 8446 and RFC 9146.
abbrev pub written : Offer → ℕ × List ℕ
written (offer_cookie cookie) = (44, to_be_bytes 2 (length cookie) ++ cookie)
written (offer_connection_id cid) = (54, length cid ∷ cid)
written (offer_key_share group key) =
    (51, to_be_bytes 2 group ++ (to_be_bytes 2 (length key) ++ key))
written (offer_other ext_type data_) = (ext_type, data_)

abbrev pub all_written : List Offer → List (ℕ × List ℕ)
all_written [] = []
all_written (o ∷ os) = written o ∷ all_written os

abbrev pub IsOffer : Offer → Type 0
IsOffer (offer_cookie cookie) = Unit
IsOffer (offer_connection_id cid) = length cid < 2 ^ 8
IsOffer (offer_key_share group key) = group < 2 ^ 16
IsOffer (offer_other ext_type data_) = (ext_type ≢ 44) × (ext_type ≢ 54) × (ext_type ≢ 51)

-- The last cookie, connection id and key, after what was found before.
abbrev pub last_cookie : Option (List ℕ) → List Offer → Option (List ℕ)
last_cookie found [] = found
last_cookie found (offer_cookie cookie ∷ os) = last_cookie (some cookie) os
last_cookie found (offer_connection_id cid ∷ os) = last_cookie found os
last_cookie found (offer_key_share group key ∷ os) = last_cookie found os
last_cookie found (offer_other ext_type data_ ∷ os) = last_cookie found os

abbrev pub last_cid : Option (List ℕ) → List Offer → Option (List ℕ)
last_cid found [] = found
last_cid found (offer_cookie cookie ∷ os) = last_cid found os
last_cid found (offer_connection_id cid ∷ os) = last_cid (some cid) os
last_cid found (offer_key_share group key ∷ os) = last_cid found os
last_cid found (offer_other ext_type data_ ∷ os) = last_cid found os

abbrev pub last_key : Option (List ℕ) → List Offer → Option (List ℕ)
last_key found [] = found
last_key found (offer_cookie cookie ∷ os) = last_key found os
last_key found (offer_connection_id cid ∷ os) = last_key found os
last_key found (offer_key_share group key ∷ os) = last_key (some key) os
last_key found (offer_other ext_type data_ ∷ os) = last_key found os

-- A key of X25519: group 0x001d, and 32 bytes.
abbrev pub is_x25519 : ℕ → List ℕ → Bool
is_x25519 group key = group == 29 && length key == 32

-- Whether every key is one of X25519.
abbrev pub all_x25519 : List Offer → Bool
all_x25519 [] = true
all_x25519 (offer_cookie cookie ∷ os) = all_x25519 os
all_x25519 (offer_connection_id cid ∷ os) = all_x25519 os
all_x25519 (offer_key_share group key ∷ os) = is_x25519 group key && all_x25519 os
all_x25519 (offer_other ext_type data_ ∷ os) = all_x25519 os

abbrev pub retry_answer : ℕ → Option (List ℕ) → Result ParseError ServerHelloKind
retry_answer suite none = err missing_cookie
retry_answer suite (some cookie) = ok (retry suite cookie)

abbrev pub key_answer : ℕ → Option (List ℕ) → Option (List ℕ) → Result ParseError ServerHelloKind
key_answer suite none cid = err missing_key_share
key_answer suite (some key) cid = ok (hello suite key cid)

abbrev pub hello_answer : Bool → ℕ → List Offer → Result ParseError ServerHelloKind
hello_answer true suite os =
    if all_x25519 os then retry_answer suite (last_cookie none os) else err unexpected_group
hello_answer false suite os =
    if all_x25519 os
    then key_answer suite (last_key none os) (last_cid none os)
    else err unexpected_group

-- Whether a random is that of a retry.
abbrev pub IsMarked : List ℕ → Bool → Type 0
IsMarked random true = random ≡ hrr_random
IsMarked random false = random ≢ hrr_random
