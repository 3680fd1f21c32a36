-- ===== src/Dtls/Framing/Tests.antt =====
-- A captured record header, and the theorems at concrete inputs.
use krabitls_rs.Base.{ℕ, ◌≡◌, refl, List, [], ◌∷◌, ◌++◌, take, drop, ok, err, arith}
use krabitls_rs.Base.Bytes.{from_be_bytes}
use krabitls_rs.Dtls.Framing.{
  PlaintextRecord, HandshakeHeader, truncated, parse_record, write_record, parse_header,
  write_header, write_u24, write_u48,
}
use krabitls_rs.Dtls.Framing.RoundTrip.{parse_record-write_record, parse_header-write_header}

abbrev hello : PlaintextRecord
hello = record { content_type = 22; epoch = 0; seq = 7; fragment = 1 ∷ 2 ∷ 3 ∷ [] }

abbrev hello_bytes : List ℕ
hello_bytes = 22 ∷ 0xfe ∷ 0xfd ∷ 0 ∷ 0 ∷ 0 ∷ 0 ∷ 0 ∷ 0 ∷ 0 ∷ 7 ∷ 0 ∷ 3 ∷ 1 ∷ 2 ∷ 3 ∷ []

hello_written : write_record 22 0 7 (1 ∷ 2 ∷ 3 ∷ []) 64 ≡ ok hello_bytes
unfolding write_record write_u48 drop
hello_written = refl

hello_parsed : parse_record hello_bytes ≡ ok (hello, 16)
unfolding parse_record take drop from_be_bytes
hello_parsed = refl

hello_cut : parse_record (take 15 hello_bytes) ≡ err truncated
unfolding parse_record take drop from_be_bytes
hello_cut = refl

abbrev header : HandshakeHeader
header = record {
  msg_type = 11;
  length = 0x010203;
  message_seq = 4;
  fragment_offset = 0x100;
  fragment_length = 0x20;
}

abbrev header_out : List ℕ
header_out = 11 ∷ 1 ∷ 2 ∷ 3 ∷ 0 ∷ 4 ∷ 0 ∷ 1 ∷ 0 ∷ 0 ∷ 0 ∷ 0x20 ∷ []

header_written : write_header header 12 ≡ ok header_out
unfolding write_header write_u24 drop
header_written = refl

parse_record-write_record_example : parse_record (hello_bytes ++ 9 ∷ 9 ∷ []) ≡ ok (hello, 16)
parse_record-write_record_example =
    parse_record-write_record hello 64 hello_bytes (9 ∷ 9 ∷ []) (omega arith) (omega arith)
      hello_written

parse_header-write_header_example : parse_header (header_out ++ 5 ∷ []) ≡ ok header
parse_header-write_header_example =
    parse_header-write_header header 12 header_out (5 ∷ []) (omega arith) header_written
