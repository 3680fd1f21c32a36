-- ===== src/Certs/Tlv.antt =====
-- krabitls/src/backends/tlv.rs: read_tlv, one DER element at the front of a buffer. `usize` has at
-- least 32 bits, so a length of four bytes does not overflow it.
pub mod RoundTrip
pub mod Parts
mod Tests
use krabitls_rs.Base.{
  ℕ, ◌+◌, List, [], ◌∷◌, length, drop, bit_and, ltb, ◌==◌, ◌||◌, if◌then◌else◌, Result, ok, err,
  ◌>>=◌, ◌>>◌, fail_if,
}
use krabitls_rs.Base.Bytes.{byte_at, slice, from_be_bytes}

pub data TlvError : Type 0 where
  tlv_error : TlvError

pub record Tlv : Type 0 where
  pub tag : ℕ
  pub header_len : ℕ
  pub body : List ℕ
  pub rest : List ℕ

-- The long form of a length: the bytes that the header has, and the length.
unfoldable pub long_length : ℕ → List ℕ → Result TlvError (ℕ × ℕ)
long_length len_first buf = do
  let n = bit_and len_first 0x7f
  fail_if (n == 0 || ltb 4 n) tlv_error
  fail_if (ltb (length buf) (2 + n)) tlv_error
  let len = from_be_bytes (slice 2 (2 + n) buf)
  fail_if (ltb len 0x80 || byte_at buf 2 == 0) tlv_error
  ok (2 + n, len)

unfoldable pub read_tlv : List ℕ → Result TlvError Tlv
read_tlv buf = do
  fail_if (length buf == 0) tlv_error
  let tag = byte_at buf 0
  fail_if (bit_and tag 0x1f == 0x1f) tlv_error
  fail_if (ltb (length buf) 2) tlv_error
  let len_first = byte_at buf 1
  (header_len, body_len) ←
      if bit_and len_first 0x80 == 0 then ok (2, len_first) else long_length len_first buf
  let end = header_len + body_len
  fail_if (ltb (length buf) end) tlv_error
  ok (record {
    tag = tag;
    header_len = header_len;
    body = slice header_len end buf;
    rest = drop end buf;
  })
