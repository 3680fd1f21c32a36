-- ===== src/Dtls/Hello.antt =====
-- krabitls/src/dtls/handshake.rs, the parser of ServerHello. The loop over the extensions moves by
-- at least four bytes, so the length of the body is fuel enough.
pub mod Offered
pub mod Offers
pub mod Written
mod Tests
use krabitls_rs.Base.{
  ℕ, zero, suc, ◌+◌, List, [], ◌∷◌, length, get_elem?, leb, ltb, ◌==◌, ◌&&◌, not, if◌then◌else◌,
  Bool, true, false, Option, none, some, Result, ok, err, ◌>>=◌, ◌>>◌, fail_if, ok_or,
}
use krabitls_rs.Base.Bytes.{byte_at, get_range, from_be_bytes}

pub data ParseError : Type 0 where
  malformed unexpected_group missing_cookie missing_key_share : ParseError

pub data ServerHelloKind : Type 0 where
  retry : (selected_suite : ℕ) (cookie : List ℕ) → ServerHelloKind
  hello :
      (selected_suite : ℕ) (server_key_share : List ℕ) (server_cid : Option (List ℕ))
      → ServerHelloKind

-- `HRR_RANDOM`
abbrev pub hrr_random : List ℕ
hrr_random =
    0xCF ∷ 0x21 ∷ 0xAD ∷ 0x74 ∷ 0xE5 ∷ 0x9A ∷ 0x61 ∷ 0x11 ∷ 0xBE ∷ 0x1D ∷ 0x8C ∷ 0x02 ∷ 0x1E ∷ 0x65
    ∷ 0xB8 ∷ 0x91 ∷ 0xC2 ∷ 0xA2 ∷ 0x11 ∷ 0x16 ∷ 0x7A ∷ 0xBB ∷ 0x8C ∷ 0x5E ∷ 0x07 ∷ 0x9E ∷ 0x09
    ∷ 0xE2 ∷ 0xC8 ∷ 0xA8 ∷ 0x33 ∷ 0x9C ∷ []

-- `EXT_COOKIE`
abbrev pub ext_cookie : ℕ
ext_cookie = 44

-- `EXT_KEY_SHARE`
abbrev pub ext_key_share : ℕ
ext_key_share = 51

-- `EXT_CONNECTION_ID`
abbrev pub ext_connection_id : ℕ
ext_connection_id = 54

-- `NAMED_GROUP_X25519`
abbrev pub named_group_x25519 : ℕ
named_group_x25519 = 0x001d

unfoldable pub read_u16 : List ℕ → ℕ → Result ParseError ℕ
read_u16 b at = do
  bytes ← ok_or (get_range at (at + 2) b) malformed
  ok (from_be_bytes (byte_at bytes 0 ∷ byte_at bytes 1 ∷ []))

-- What the loop of `parse_server_hello` has found so far.
pub record Found : Type 0 where
  pub cookie : Option (List ℕ)
  pub key_share : Option (List ℕ)
  pub server_cid : Option (List ℕ)

-- The match on the type of an extension.
unfoldable pub read_extension : Found → ℕ → List ℕ → Result ParseError Found
read_extension f et data_ =
    if et == ext_cookie
    then (do
      clen ← read_u16 data_ 0
      cookie ← ok_or (get_range 2 (2 + clen) data_) malformed
      ok (record f { cookie = some cookie }))
    else if et == ext_connection_id
    then (do
      clen ← ok_or (get_elem? data_ 0) malformed
      cid ← ok_or (get_range 1 (1 + clen) data_) malformed
      ok (record f { server_cid = some cid }))
    else if et == ext_key_share
    then (do
      group ← read_u16 data_ 0
      fail_if (not (group == named_group_x25519)) unexpected_group
      klen ← read_u16 data_ 2
      key ← ok_or (get_range 4 (4 + klen) data_) malformed
      fail_if (not (length key == 32)) unexpected_group
      ok (record f { key_share = some key }))
    else ok f

-- The loop of `parse_server_hello` from offset `i`.
unfoldable pub extension_loop : ℕ → List ℕ → ℕ → Found → ℕ → Result ParseError Found
extension_loop zero body ext_end f i = err malformed
extension_loop (suc fuel) body ext_end f i =
    let next = λ (et el : ℕ). ok_or (get_range (i + 4) (i + 4 + el) body) malformed >>= λ data_.
    read_extension f et data_ >>= λ f'. extension_loop fuel body ext_end f' (i + (4 + el)) in
    if leb (i + 4) ext_end
    then (read_u16 body i >>= λ et. read_u16 body (i + 2) >>= λ el. next et el)
    else ok f

-- `==` of byte strings.
unfoldable pub same_random : List ℕ → List ℕ → Bool
same_random [] [] = true
same_random [] (y ∷ ys) = false
same_random (x ∷ xs) [] = false
same_random (x ∷ xs) (y ∷ ys) = (x == y) && same_random xs ys

-- The end of `parse_server_hello`.
unfoldable pub hello_kind : Bool → ℕ → Found → Result ParseError ServerHelloKind
hello_kind true selected_suite f =
    ok_or f.cookie missing_cookie >>= λ cookie. ok (retry selected_suite cookie)
hello_kind false selected_suite f =
    ok_or f.key_share missing_key_share >>= λ key. ok (hello selected_suite key f.server_cid)

unfoldable pub parse_server_hello : List ℕ → Result ParseError ServerHelloKind
parse_server_hello body = do
  random ← ok_or (get_range 2 34 body) malformed
  let is_retry = same_random random hrr_random
  sid_len ← ok_or (get_elem? body 34) malformed
  let i = 34 + (1 + sid_len)
  selected_suite ← read_u16 body i
  ext_len ← read_u16 body (i + 3)
  let ext_end = i + 3 + 2 + ext_len
  fail_if (ltb (length body) ext_end) malformed
  f ←
      extension_loop (suc (length body)) body ext_end
        (record { cookie = none; key_share = none; server_cid = none }) (i + 3 + 2)
  hello_kind is_retry selected_suite f
