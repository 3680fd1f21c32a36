-- ===== src/Certs/Tlv/Parts.antt =====
-- Where the parts that read_tlv of krabitls/src/backends/tlv.rs returns lie in the buffer.
use krabitls_rs.Base.{ℕ, ◌+◌, List, drop, ◌>>=◌, ◌>>◌}
use krabitls_rs.Base.Bytes.{byte_at, slice}
use krabitls_rs.Certs.Tlv.{Tlv}

-- The parts of the buffer after the tests.
abbrev parts : List ℕ → ℕ → ℕ → Tlv
parts buf h b = record {
  tag = byte_at buf 0;
  header_len = h;
  body = slice h (h + b) buf;
  rest = drop (h + b) buf;
}
