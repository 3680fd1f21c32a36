-- ===== src/Dtls/Framing/RoundTrip.antt =====
-- What is written is read back, whatever follows it in the buffer.
use krabitls_rs.Base.{
  ℕ, ◌+◌, ◌-◌, ◌%◌, ◌^◌, ◌≤◌, ◌<◌, ◌≡◌, List, ◌∷◌, ◌++◌, length, take, drop, ltb, ok, err, arith,
  length-append, length-take, length-drop, take-append, ◌∙◌, ◌↔◌, if◌then◌else◌,
}
use native.Mathlib.Nat.{mod-eq_of_lt}
use krabitls_rs.Base.Bytes.{
  slice, to_be_bytes, from_be_bytes, from_be_bytes-to_be_bytes, from_be_bytes-zero,
}
use krabitls_rs.Dtls.Framing.{
  PlaintextRecord, HandshakeHeader, buffer_too_small, field_too_large, dtls_1_2_legacy_version,
  parse_record, write_record, parse_header, write_header, read_u24, write_u24, write_u48,
}

-- The bytes of a record.
abbrev pub record_bytes : PlaintextRecord → List ℕ
record_bytes r =
    r.content_type
    ∷ (to_be_bytes 2 dtls_1_2_legacy_version
        ++ (to_be_bytes 2 r.epoch
            ++ (write_u48 r.seq ++ (to_be_bytes 2 (length r.fragment % 2 ^ 16) ++ r.fragment))))

-- The outcome of `write_record` on every input: the errors in the order of the code's tests.
write_record_cases :
    (r : PlaintextRecord) (out_len : ℕ)
    → write_record r.content_type r.epoch r.seq r.fragment out_len ≡ (
        if ltb 0xffff (length r.fragment)
        then err field_too_large
        else if ltb out_len (13 + length r.fragment)
        then err buffer_too_small
        else ok (record_bytes r))
unfolding write_record
write_record_cases r out_len = ground arith

length-record_bytes : (r : PlaintextRecord) → length (record_bytes r) ≡ 13 + length r.fragment
unfolding write_u48 drop
length-record_bytes r = omega arith

parse_record-record_bytes :
    (r : PlaintextRecord) (rest : List ℕ)
    → r.epoch < 2 ^ 16
    → r.seq < 2 ^ 48
    → length r.fragment < 2 ^ 16
    → parse_record (record_bytes r ++ rest) ≡ ok (r, length (record_bytes r))
unfolding parse_record write_u48 drop take
parse_record-record_bytes r rest he hs hf =
    rw
      (
        mod-eq_of_lt hf,
        from_be_bytes-to_be_bytes 2 (length r.fragment) hf,
        from_be_bytes-to_be_bytes 2 r.epoch he,
        from_be_bytes-to_be_bytes 6 r.seq hs,
      )
      (ground (
        arith,
        take-append r.fragment rest (13 + length r.fragment - 13) (omega arith),
        length-append r.fragment rest,
      ))

-- A record that was written is parsed back from the front of any buffer, and the offset of the next
-- record is where it ends. The epoch and the sequence number must fit their fields.
pub parse_record-write_record :
    (r : PlaintextRecord) (out_len : ℕ) (bytes rest : List ℕ)
    → r.epoch < 2 ^ 16
    → r.seq < 2 ^ 48
    → write_record r.content_type r.epoch r.seq r.fragment out_len ≡ ok bytes
    → parse_record (bytes ++ rest) ≡ ok (r, length bytes)
parse_record-write_record r out_len bytes rest he hs e =
    ground (arith, write_record_cases r out_len, parse_record-record_bytes r rest)

-- What `parse_record` returns lies inside the buffer, behind the header.
pub parse_record_bounds :
    (buf : List ℕ) (r : PlaintextRecord) (next : ℕ)
    → parse_record buf ≡ ok (r, next)
    → (next ≤ length buf) × (next ≡ 13 + length r.fragment)
unfolding parse_record
parse_record_bounds buf r next e =
    let len = from_be_bytes (slice 11 13 buf) in
    ground (arith, length-take (13 + len - 13) (drop 13 buf), length-drop 13 buf)

u24_back : (v : ℕ) → v < 2 ^ 24 → read_u24 (drop 1 (to_be_bytes 4 v)) ≡ v
unfolding read_u24 drop
u24_back v h = from_be_bytes-zero (to_be_bytes 3 v) ∙ from_be_bytes-to_be_bytes 3 v h

-- The bytes of a header.
abbrev pub header_bytes : HandshakeHeader → List ℕ
header_bytes h =
    h.msg_type
    ∷ (to_be_bytes 3 h.length
        ++ (to_be_bytes 2 h.message_seq
            ++ (to_be_bytes 3 h.fragment_offset ++ to_be_bytes 3 h.fragment_length)))

abbrev pub FitsU24 : HandshakeHeader → Type 0
FitsU24 h = (h.length < 2 ^ 24) × (h.fragment_offset < 2 ^ 24) × (h.fragment_length < 2 ^ 24)

-- `write_header` succeeds exactly for twelve bytes of room and three fields of at most 24 bits.
write_header-eq-ok :
    (h : HandshakeHeader) (out_len : ℕ) (bytes : List ℕ)
    → (write_header h out_len ≡ ok bytes) ↔ ((12 ≤ out_len) × FitsU24 h × (bytes ≡ header_bytes h))
unfolding write_header write_u24 drop
write_header-eq-ok h out_len bytes = ground arith

parse_header-header_bytes :
    (h : HandshakeHeader) (rest : List ℕ)
    → h.message_seq < 2 ^ 16
    → FitsU24 h
    → parse_header (header_bytes h ++ rest) ≡ ok h
unfolding parse_header drop take
parse_header-header_bytes h rest hm (hl, ho, hf) =
    rw
      (
        from_be_bytes-to_be_bytes 2 h.message_seq hm,
        u24_back h.length hl,
        u24_back h.fragment_offset ho,
        u24_back h.fragment_length hf,
      )
      (ground arith)

-- A header that was written is parsed back.
pub parse_header-write_header :
    (h : HandshakeHeader) (out_len : ℕ) (bytes rest : List ℕ)
    → h.message_seq < 2 ^ 16
    → write_header h out_len ≡ ok bytes
    → parse_header (bytes ++ rest) ≡ ok h
parse_header-write_header h out_len bytes rest hm e =
    let (room, fits, same) = (write_header-eq-ok h out_len bytes).0 e in
    rw same (parse_header-header_bytes h rest hm fits)
