-- ===== src/Dtls/Hello/Written.antt =====
-- What parse_server_hello of krabitls/src/dtls/handshake.rs says of a ServerHello whose extensions
-- were written from their values.
use krabitls_rs.Base.{
  ℕ, ◌+◌, ◌^◌, ◌<◌, ◌≡◌, refl, sym, ap, ◌∙◌, List, [], ◌∷◌, ◌++◌, length, ◌==◌, if◌then◌else◌, Bool,
  true, false, Option, none, some, Result, ok, err, ◌>>=◌, All, arith, inl, inr, Bool-cases,
  append-nil,
}
use krabitls_rs.Base.Lists.{length-append}
use krabitls_rs.Base.Bytes.{get_range, get_range-append, to_be_bytes}
use krabitls_rs.Tls.ServerFlight.Requested.{extensions, IsSmallExtension}
use krabitls_rs.Dtls.Hello.{
  ParseError, unexpected_group, Found, hrr_random, read_extension, same_random, hello_kind,
  parse_server_hello,
}
use krabitls_rs.Dtls.Hello.Offered.{
  read_u16-append, read_all, server_hello, nothing_found, parse_server_hello-server_hello,
}
use krabitls_rs.Dtls.Hello.Offers.{
  Offer, offer_cookie, offer_connection_id, offer_key_share, offer_other, all_written, IsOffer,
  last_cookie, last_cid, last_key, is_x25519, all_x25519, retry_answer, key_answer, hello_answer,
  IsMarked,
}

same_random_refl : (xs : List ℕ) → same_random xs xs ≡ true
unfolding same_random
same_random_refl [] = refl
same_random_refl (x ∷ xs) =
    let rest = same_random_refl xs in
    let here : (x == x) ≡ true = ground arith in rw (here, rest) refl

same_random→≡ : (xs ys : List ℕ) → same_random xs ys ≡ true → xs ≡ ys
unfolding same_random
same_random→≡ [] [] h = refl
same_random→≡ [] (y ∷ ys) h = absurd (cc h)
same_random→≡ (x ∷ xs) [] h = absurd (cc h)
same_random→≡ (x ∷ xs) (y ∷ ys) h =
    let first : x ≡ y = ground (arith, h) in
    let rest : same_random xs ys ≡ true = ground (arith, h) in
    let same = same_random→≡ xs ys rest in cc (first, same)

same_random-IsMarked :
    (random : List ℕ) (is_retry : Bool)
    → IsMarked random is_retry
    → same_random random hrr_random ≡ is_retry
same_random-IsMarked random true same =
    ap (λ r. same_random r hrr_random) same ∙ same_random_refl hrr_random
same_random-IsMarked random false other = elim (Bool-cases (same_random random hrr_random)) [
  | inl same ↦ absurd (other (same_random→≡ random hrr_random same))
  | inr differs ↦ differs
]

-- A range up to the end.
get_range-last :
    (front back : List ℕ) (n : ℕ)
    → n ≡ length front
    → get_range n (n + length back) (front ++ back) ≡ some back
get_range-last front back n here =
    ap (λ t. get_range n (n + length back) (front ++ t)) (sym (append-nil back))
    ∙ get_range-append front back [] n (n + length back) here refl

read_extension-cookie :
    (f : Found) (cookie : List ℕ)
    → length cookie < 2 ^ 16
    → read_extension f 44 (to_be_bytes 2 (length cookie) ++ cookie)
      ≡ ok (record f { cookie = some cookie })
unfolding read_extension
read_extension-cookie f cookie small =
    let len_eq = read_u16-append [] (length cookie) cookie 0 refl small in
    let found = get_range-last (to_be_bytes 2 (length cookie)) cookie 2 refl in
    rw (len_eq, found) refl

read_extension-cid :
    (f : Found) (cid : List ℕ)
    → read_extension f 54 (length cid ∷ cid) ≡ ok (record f { server_cid = some cid })
unfolding read_extension
read_extension-cid f cid = let found = get_range-last (length cid ∷ []) cid 1 refl in rw found refl

read_extension-key :
    (f : Found) (group : ℕ) (key : List ℕ)
    → group < 2 ^ 16
    → length key < 2 ^ 16
    → read_extension f 51 (to_be_bytes 2 group ++ (to_be_bytes 2 (length key) ++ key)) ≡ (
        if is_x25519 group key
        then ok (record f { key_share = some key })
        else err unexpected_group)
unfolding read_extension
read_extension-key f group key group_lt small =
    let group2 = to_be_bytes 2 group in
    let len2 = to_be_bytes 2 (length key) in
    let group_eq = read_u16-append [] group (len2 ++ key) 0 refl group_lt in
    let len_eq = read_u16-append group2 (length key) key 2 refl small in
    let found = get_range-last (group2 ++ len2) key 4 refl in
    elim (Bool-cases (group == 29)) [
      | inr other ↦ rw (group_eq, other) refl
      | inl x25519 ↦ elim (Bool-cases (length key == 32)) [
        | inl right ↦ rw (group_eq, x25519, len_eq, found, right) refl
        | inr wrong ↦ rw (group_eq, x25519, len_eq, found, wrong) refl
      ]
    ]

read_extension-other :
    (f : Found) (ext_type : ℕ) (data_ : List ℕ)
    → IsOffer (offer_other ext_type data_)
    → read_extension f ext_type data_ ≡ ok f
unfolding read_extension
read_extension-other f ext_type data_ (no_cookie, no_cid, no_key) =
    let not_cookie : (ext_type == 44) ≡ false = ground (arith, no_cookie) in
    let not_cid : (ext_type == 54) ≡ false = ground (arith, no_cid) in
    let not_key : (ext_type == 51) ≡ false = ground (arith, no_key) in
    rw (not_cookie, not_cid, not_key) refl

-- What is found in the end.
abbrev all_found : Found → List Offer → Result ParseError Found
all_found f os =
    if all_x25519 os
    then ok (record {
      cookie = last_cookie f.cookie os;
      key_share = last_key f.key_share os;
      server_cid = last_cid f.server_cid os;
    })
    else err unexpected_group

read_all-written :
    (f : Found) (os : List Offer)
    → All IsOffer os
    → All IsSmallExtension (all_written os)
    → read_all f (all_written os) ≡ all_found f os
read_all-written f [] good small = refl
read_all-written f (offer_cookie cookie ∷ os) good small =
    let size = length-append (to_be_bytes 2 (length cookie)) cookie in
    let first = read_extension-cookie f cookie (omega (arith, small.0.1)) in
    ap (λ m. m >>= λ f'. read_all f' (all_written os)) first
    ∙ read_all-written (record f { cookie = some cookie }) os good.1 small.1
read_all-written f (offer_connection_id cid ∷ os) good small =
    ap (λ m. m >>= λ f'. read_all f' (all_written os)) (read_extension-cid f cid)
    ∙ read_all-written (record f { server_cid = some cid }) os good.1 small.1
read_all-written f (offer_key_share group key ∷ os) good small =
    let size = length-append (to_be_bytes 2 (length key)) key in
    let size' = length-append (to_be_bytes 2 group) (to_be_bytes 2 (length key) ++ key) in
    let first = read_extension-key f group key good.0 (omega (arith, small.0.1)) in
    let go = read_all-written (record f { key_share = some key }) os good.1 small.1 in
    ap (λ m. m >>= λ f'. read_all f' (all_written os)) first
    ∙ elim (Bool-cases (is_x25519 group key)) [
      | inl right ↦ rw right go
      | inr wrong ↦ rw wrong refl
    ]
read_all-written f (offer_other ext_type data_ ∷ os) good small =
    ap (λ m. m >>= λ f'. read_all f' (all_written os))
      (read_extension-other f ext_type data_ good.0)
    ∙ read_all-written f os good.1 small.1

retry_kind :
    (suite : ℕ) (cookie key cid : Option (List ℕ))
    → hello_kind true suite (record { cookie = cookie; key_share = key; server_cid = cid })
      ≡ retry_answer suite cookie
unfolding hello_kind
retry_kind suite none key cid = refl
retry_kind suite (some cookie) key cid = refl

key_kind :
    (suite : ℕ) (cookie key cid : Option (List ℕ))
    → hello_kind false suite (record { cookie = cookie; key_share = key; server_cid = cid })
      ≡ key_answer suite key cid
unfolding hello_kind
key_kind suite cookie none cid = refl
key_kind suite cookie (some key) cid = refl

hello_kind-found :
    (is_retry : Bool) (suite : ℕ) (os : List Offer)
    → (all_found nothing_found os >>= hello_kind is_retry suite) ≡ hello_answer is_retry suite os
hello_kind-found true suite os = elim (Bool-cases (all_x25519 os)) [
  | inr wrong ↦ rw wrong refl
  | inl right ↦
      rw right (retry_kind suite (last_cookie none os) (last_key none os) (last_cid none os))
]
hello_kind-found false suite os = elim (Bool-cases (all_x25519 os)) [
  | inr wrong ↦ rw wrong refl
  | inl right ↦
      rw right (key_kind suite (last_cookie none os) (last_key none os) (last_cid none os))
]

-- Of a ServerHello with fields of the lengths that their types have, whose extensions were written
-- from their values and fit their length fields, the parser answers by whether the random is that
-- of a retry: the suite with the last cookie, or with the last key and connection id; an error when
-- the cookie or the key is missing, and another one when any key is not one of X25519.
pub parse_server_hello-written :
    (version random session_id : List ℕ) (suite compression : ℕ) (os : List Offer) (is_retry : Bool)
    → length version ≡ 2
    → length random ≡ 32
    → suite < 2 ^ 16
    → length (extensions (all_written os)) < 2 ^ 16
    → All IsSmallExtension (all_written os)
    → All IsOffer os
    → IsMarked random is_retry
    → parse_server_hello (server_hello version random session_id suite compression (all_written os))
      ≡ hello_answer is_retry suite os
parse_server_hello-written version random session_id suite compression os is_retry version_len
      random_len suite_lt exts_lt small good marked =
    parse_server_hello-server_hello version random session_id suite compression (all_written os)
      version_len random_len suite_lt exts_lt small
    ∙ ap (λ b. read_all nothing_found (all_written os) >>= hello_kind b suite)
        (same_random-IsMarked random is_retry marked)
    ∙ ap (λ m. m >>= hello_kind is_retry suite) (read_all-written nothing_found os good small)
    ∙ hello_kind-found is_retry suite os
