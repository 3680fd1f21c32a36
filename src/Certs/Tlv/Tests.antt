-- ===== src/Certs/Tlv/Tests.antt =====
-- Runs of read_tlv, and its theorem at a concrete input.
use krabitls_rs.Base.{ℕ, ◌≡◌, refl, List, [], ◌∷◌, ◌++◌, replicate, ok, err, arith, take, drop}
use krabitls_rs.Base.Bytes.{from_be_bytes}
use krabitls_rs.Certs.Tlv.{read_tlv, long_length, tlv_error}
use krabitls_rs.Certs.Tlv.RoundTrip.{read_tlv-der}

-- 128 bytes need the long form.
abbrev long_body : List ℕ
long_body = replicate 128 7

read_tlv-der_example :
    read_tlv ((0x30 ∷ 0x81 ∷ 0x80 ∷ long_body) ++ (5 ∷ 0 ∷ []))
    ≡ ok (record { tag = 0x30; header_len = 3; body = long_body; rest = 5 ∷ 0 ∷ [] })
read_tlv-der_example = read_tlv-der 0x30 long_body (5 ∷ 0 ∷ []) (λ h. omega arith) (omega arith)

-- The long form of a short length is refused.
not_minimal : read_tlv (4 ∷ 0x81 ∷ 1 ∷ 9 ∷ []) ≡ err tlv_error
unfolding read_tlv long_length take drop from_be_bytes
not_minimal = refl

abbrev short_element : List ℕ
short_element = 4 ∷ 1 ∷ 9 ∷ 5 ∷ []
