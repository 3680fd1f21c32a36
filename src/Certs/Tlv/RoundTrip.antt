-- ===== src/Certs/Tlv/RoundTrip.antt =====
-- What read_tlv of krabitls/src/backends/tlv.rs makes of the DER encoding.
use krabitls_rs.Base.{
  ℕ, ◌+◌, ◌-◌, ◌%◌, ◌^◌, ◌≤◌, ◌<◌, ◌≡◌, ◌≢◌, refl, ap, ◌∙◌, List, [], ◌∷◌, ◌++◌, length, take, drop,
  bit_and, ltb, ◌==◌, if◌then◌else◌, false, Result, ok, arith, append_assoc, le→ltb_false, lt→ltb,
}
use krabitls_rs.Base.Lists.{length-append, take-append, drop-append, drop_past}
use native.Mathlib.Nat.{mod-eq_of_lt}
use native.Mathlib.Decide.{dec_lt}
use krabitls_rs.Base.Masks.{bit_and-low, bit_and-high}
use krabitls_rs.Base.Bytes.{
  byte_at, slice, to_be_bytes, from_be_bytes, from_be_bytes-to_be_bytes, length-to_be_bytes,
}
use krabitls_rs.Certs.Tlv.{Tlv, TlvError, long_length, read_tlv}

-- The length in DER: one byte below 128, else the count of its bytes and as few bytes as will do.
abbrev pub der_length : ℕ → List ℕ
der_length n =
    if ltb n 0x80
    then n ∷ []
    else if ltb n (2 ^ 8)
    then 0x81 ∷ to_be_bytes 1 n
    else if ltb n (2 ^ 16)
    then 0x82 ∷ to_be_bytes 2 n
    else if ltb n (2 ^ 24)
    then 0x83 ∷ to_be_bytes 3 n
    else 0x84 ∷ to_be_bytes 4 n

abbrev pub der : ℕ → List ℕ → List ℕ
der tag body = tag ∷ (der_length (length body) ++ body)

element : ℕ → ℕ → List ℕ → List ℕ → Tlv
element tag header_len body rest = record {
  tag = tag;
  header_len = header_len;
  body = body;
  rest = rest;
}

low_tag : (tag : ℕ) → tag % 32 ≢ 31 → (bit_and tag 0x1f == 0x1f) ≡ false
low_tag tag low = ground (arith, bit_and-low 5 tag)

-- The length field of the buffer, in either form.
abbrev length_part : List ℕ → Result TlvError (ℕ × ℕ)
length_part buf =
    if bit_and (byte_at buf 1) 0x80 == 0
    then ok (2, byte_at buf 1)
    else long_length (byte_at buf 1) buf

-- An element whose length field was read.
read_element :
    (head body rest : List ℕ)
    → 2 ≤ length head
    → byte_at (head ++ (body ++ rest)) 0 % 32 ≢ 31
    → length_part (head ++ (body ++ rest)) ≡ ok (length head, length body)
    → read_tlv (head ++ (body ++ rest))
      ≡ ok (element (byte_at (head ++ (body ++ rest)) 0) (length head) body rest)
unfolding read_tlv element
read_element head body rest two low lengths =
    let h = length head in
    let one_byte = low_tag (byte_at (head ++ (body ++ rest)) 0) low in
    let whole : slice h (h + length body) (head ++ (body ++ rest)) ≡ body =
      ap (take (h + length body - h)) (drop-append head (body ++ rest) h refl)
      ∙ take-append body rest (h + length body - h) (omega arith) in
    let others : drop (h + length body) (head ++ (body ++ rest)) ≡ rest =
      drop_past head (body ++ rest) (h + length body) (length body) refl
      ∙ drop-append body rest (length body) refl in
    let size : length (head ++ (body ++ rest)) ≡ h + (length body + length rest) =
      omega (arith, length-append head (body ++ rest), length-append body rest) in
    rw (one_byte, lengths, whole, others, size) (ground arith)

-- A long form of `k` bytes, the first of them not zero.
long_form :
    (tag first k len : ℕ) (after : List ℕ)
    → bit_and first 0x7f ≡ k
    → 1 ≤ k
    → k ≤ 4
    → 0x80 ≤ len
    → len < 256 ^ k
    → (byte_at (to_be_bytes k len ++ after) 0 == 0) ≡ false
    → long_length first (tag ∷ first ∷ (to_be_bytes k len ++ after)) ≡ ok (2 + k, len)
unfolding long_length take drop
long_form tag first k len after count some few long fits top =
    let size : length (to_be_bytes k len ++ after) ≡ k + length after =
      omega (arith, length-append (to_be_bytes k len) after, length-to_be_bytes k len) in
    let read : from_be_bytes (slice 2 (2 + k) (tag ∷ first ∷ (to_be_bytes k len ++ after))) ≡ len =
      ap from_be_bytes (
        take-append (to_be_bytes k len) after (2 + k - 2) (omega (arith, length-to_be_bytes k len)))
      ∙ from_be_bytes-to_be_bytes k len fits in
    rw (count, read, top) (ground arith)

-- The length field is read again, in the short form and in the four long ones.
length_part-der_length :
    (tag n : ℕ) (after : List ℕ)
    → n < 2 ^ 32
    → length_part (tag ∷ (der_length n ++ after)) ≡ ok (length (tag ∷ der_length n), n)
length_part-der_length tag n after fits = elim (dec_lt n 0x80) [
  | yes short ↦
      let flag : bit_and n 0x80 ≡ 0 =
        bit_and-high 8 7 n (omega arith) (omega arith) ∙ omega (arith, mod-eq_of_lt short) in
      rw (lt→ltb n 0x80 short, flag) refl
  | no long ↦ elim (dec_lt n (2 ^ 8)) [
    | yes one ↦
        rw (le→ltb_false n 0x80 (omega arith), lt→ltb n (2 ^ 8) one)
          (long_form tag 0x81 1 n after refl (omega arith) (omega arith) (omega arith) (omega arith)
            (ground arith))
    | no more_than_one ↦ elim (dec_lt n (2 ^ 16)) [
      | yes two ↦
          rw
            (
              le→ltb_false n 0x80 (omega arith),
              le→ltb_false n (2 ^ 8) (omega arith),
              lt→ltb n (2 ^ 16) two,
            )
            (long_form tag 0x82 2 n after refl (omega arith) (omega arith) (omega arith)
              (omega arith) (ground arith))
      | no more_than_two ↦ elim (dec_lt n (2 ^ 24)) [
        | yes three ↦
            rw
              (
                le→ltb_false n 0x80 (omega arith),
                le→ltb_false n (2 ^ 8) (omega arith),
                le→ltb_false n (2 ^ 16) (omega arith),
                lt→ltb n (2 ^ 24) three,
              )
              (long_form tag 0x83 3 n after refl (omega arith) (omega arith) (omega arith)
                (omega arith) (ground arith))
        | no more_than_three ↦
            rw
              (
                le→ltb_false n 0x80 (omega arith),
                le→ltb_false n (2 ^ 8) (omega arith),
                le→ltb_false n (2 ^ 16) (omega arith),
                le→ltb_false n (2 ^ 24) (omega arith),
              )
              (long_form tag 0x84 4 n after refl (omega arith) (omega arith) (omega arith)
                (omega arith) (ground arith))
      ]
    ]
  ]
]

two_bytes : (tag n : ℕ) → 2 ≤ length (tag ∷ der_length n)
two_bytes tag n = ground arith

-- `read_tlv` reads an element in DER back from the front of any buffer: a one-byte tag in the low
-- form and a body of less than 2 ^ 32 bytes.
pub read_tlv-der :
    (tag : ℕ) (body rest : List ℕ)
    → tag % 32 ≢ 31
    → length body < 2 ^ 32
    → read_tlv (der tag body ++ rest)
      ≡ ok (record {
        tag = tag;
        header_len = length (tag ∷ der_length (length body));
        body = body;
        rest = rest;
      })
unfolding element
read_tlv-der tag body rest low fits =
    let head = tag ∷ der_length (length body) in
    ap read_tlv (append_assoc head body rest)
    ∙ read_element head body rest (two_bytes tag (length body)) low
        (length_part-der_length tag (length body) (body ++ rest) fits)
