-- ===== src/Dtls/Framing.antt =====
-- krabitls/src/dtls/framing.rs: the 13-byte header of a plaintext record and the 12-byte header of
-- a handshake message. A byte string is a list of numbers; of an output buffer only the length
-- counts, and what is written to its front is the result. `usize` has at least 32 bits, so the
-- checked additions of lengths cannot fail.
pub mod RoundTrip
mod Tests
use krabitls_rs.Base.{
  ℕ, ◌+◌, ◌%◌, ◌^◌, List, [], ◌∷◌, ◌++◌, length, drop, ltb, Result, ok, err, ◌>>=◌, ◌>>◌, fail_if,
}
use krabitls_rs.Base.Bytes.{byte_at, slice, to_be_bytes, from_be_bytes}

-- `DTLS_1_2_LEGACY_VERSION`
abbrev pub dtls_1_2_legacy_version : ℕ
dtls_1_2_legacy_version = 0xfefd

-- `PLAINTEXT_HEADER_LEN`
abbrev pub plaintext_header_len : ℕ
plaintext_header_len = 13

-- `HS_HEADER_LEN`
abbrev pub hs_header_len : ℕ
hs_header_len = 12

pub data FramingError : Type 0 where
  buffer_too_small truncated field_too_large : FramingError

pub record PlaintextRecord : Type 0 where
  pub content_type : ℕ
  pub epoch : ℕ
  pub seq : ℕ
  pub fragment : List ℕ

-- `read_u24`: the top byte of the `u32` is 0.
pub read_u24 : List ℕ → ℕ
read_u24 b = from_be_bytes (0 ∷ byte_at b 0 ∷ byte_at b 1 ∷ byte_at b 2 ∷ [])

-- `write_u24`: the low three of the four bytes.
pub write_u24 : ℕ → Result FramingError (List ℕ)
write_u24 v = do fail_if (ltb 0x00ff_ffff v) field_too_large; ok (drop 1 (to_be_bytes 4 v))

-- `read_u48`: a fold of `(v << 8) | byte` over six bytes.
abbrev pub read_u48 : List ℕ → ℕ
read_u48 b = from_be_bytes b

-- `write_u48`: the low six of the eight bytes.
pub write_u48 : ℕ → List ℕ
write_u48 v = drop 2 (to_be_bytes 8 v)

-- The record at the start of `buf`, and the offset of the next one.
pub parse_record : List ℕ → Result FramingError (PlaintextRecord × ℕ)
parse_record buf = do
  fail_if (ltb (length buf) plaintext_header_len) truncated
  let len = from_be_bytes (slice 11 13 buf)
  let end = plaintext_header_len + len
  fail_if (ltb (length buf) end) truncated
  ok (
    record {
      content_type = byte_at buf 0;
      epoch = from_be_bytes (slice 3 5 buf);
      seq = read_u48 (slice 5 11 buf);
      fragment = slice plaintext_header_len end buf;
    },
    end,
  )

pub write_record : ℕ → ℕ → ℕ → List ℕ → ℕ → Result FramingError (List ℕ)
write_record content_type epoch seq fragment out_len = do
  let total = plaintext_header_len + length fragment
  fail_if (ltb 0xffff (length fragment)) field_too_large
  fail_if (ltb out_len total) buffer_too_small
  ok (
      content_type
      ∷ (to_be_bytes 2 dtls_1_2_legacy_version
          ++ (to_be_bytes 2 epoch
              ++ (write_u48 seq ++ (to_be_bytes 2 (length fragment % 2 ^ 16) ++ fragment)))))

pub record HandshakeHeader : Type 0 where
  pub msg_type : ℕ
  pub length : ℕ
  pub message_seq : ℕ
  pub fragment_offset : ℕ
  pub fragment_length : ℕ

pub parse_header : List ℕ → Result FramingError HandshakeHeader
parse_header buf = do
  fail_if (ltb (length buf) hs_header_len) truncated
  ok (record {
    msg_type = byte_at buf 0;
    length = read_u24 (slice 1 4 buf);
    message_seq = from_be_bytes (slice 4 6 buf);
    fragment_offset = read_u24 (slice 6 9 buf);
    fragment_length = read_u24 (slice 9 12 buf);
  })

-- The twelve bytes that are written to the front of `out`.
pub write_header : HandshakeHeader → ℕ → Result FramingError (List ℕ)
write_header h out_len = do
  fail_if (ltb out_len hs_header_len) buffer_too_small
  len ← write_u24 h.length
  offset ← write_u24 h.fragment_offset
  frag_len ← write_u24 h.fragment_length
  ok (h.msg_type ∷ (len ++ (to_be_bytes 2 h.message_seq ++ (offset ++ frag_len))))
