-- ===== src/Dtls/Hello/Tests.antt =====
-- Runs of the parser of krabitls/src/dtls/handshake.rs, and its theorem at a concrete input.
use krabitls_rs.Base.{
  ℕ, ◌≡◌, refl, List, [], ◌∷◌, replicate, some, false, ok, err, ap, ◌>>=◌, arith,
}
use krabitls_rs.Base.Lists.{take, drop}
use krabitls_rs.Base.Bytes.{byte_at, from_be_bytes}
use krabitls_rs.Dtls.Hello.{
  retry, hello, missing_cookie, hrr_random, read_u16, read_extension, same_random, hello_kind,
  parse_server_hello,
}
use krabitls_rs.Dtls.Hello.Offered.{server_hello, nothing_found, read_all}
use krabitls_rs.Dtls.Hello.Offers.{
  Offer, offer_key_share, offer_other, offer_connection_id, all_written,
}
use krabitls_rs.Dtls.Hello.Written.{parse_server_hello-written}

abbrev version : List ℕ
version = 0xfe ∷ 0xfd ∷ []

abbrev random : List ℕ
random = replicate 32 3

abbrev key : List ℕ
key = replicate 32 9

-- A key share, an unknown extension and a connection id.
abbrev offered : List Offer
offered =
    offer_key_share 29 key ∷ offer_other 43 (0xfe ∷ 0xfc ∷ []) ∷ offer_connection_id (7 ∷ []) ∷ []

parse_server_hello-written_example :
    parse_server_hello (server_hello version random [] 0x1301 0 (all_written offered))
    ≡ ok (hello 0x1301 key (some (7 ∷ [])))
parse_server_hello-written_example =
    parse_server_hello-written version random [] 0x1301 0 offered false refl refl (omega arith)
      (omega arith)
      ((omega arith, omega arith), ((omega arith, omega arith), ((omega arith, omega arith), tt)))
      (
        omega arith,
        (((λ h. omega arith), (λ h. omega arith), (λ h. omega arith)), (omega arith, tt)),
      )
      (λ h. let first : 3 ≡ 0xCF = ap (λ l. byte_at l 0) h in omega arith)

retried :
    (read_all nothing_found ((44, 0 ∷ 1 ∷ 5 ∷ []) ∷ [])
      >>= hello_kind (same_random hrr_random hrr_random) 0x1301)
    ≡ ok (retry 0x1301 (5 ∷ []))
unfolding read_extension read_u16 from_be_bytes same_random hello_kind take drop
retried = refl

no_cookie :
    (read_all nothing_found (all_written offered)
      >>= hello_kind (same_random hrr_random hrr_random) 0x1301)
    ≡ err missing_cookie
unfolding read_extension read_u16 from_be_bytes same_random hello_kind take drop
no_cookie = refl
