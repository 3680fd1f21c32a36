-- ===== src/Dtls/Record.antt =====
-- krabitls/src/dtls/record.rs: the unified header, the protection of record numbers, and the sealing
-- and opening of DTLS 1.3 records. The cipher, and the function that makes the mask from a sample
-- of the ciphertext, are third-party code and so parameters. Of an output buffer only the length
-- counts; `open` works on the record in place and returns what it found there.
pub mod Number
pub mod Header
pub mod Wire
pub mod RoundTrip
mod Tests
use krabitls_rs.Base.{
  ℕ, ◌+◌, ◌-◌, ◌*◌, ◌%◌, ◌^◌, bit_and, bit_or, bit_xor, List, [], ◌∷◌, ◌++◌, length, take, drop,
  ltb, leb, ◌==◌, not, ◌||◌, Bool, true, false, if◌then◌else◌, Option, none, some, Result, ok, err,
  ◌>>=◌, ◌>>◌, fail_if, ok_or,
}
use krabitls_rs.Tls.Aead.{Cipher, xor_into, aead_nonce}
use krabitls_rs.Tls.Aead.Decrypt.{DecryptError, split_inner_plaintext}
use krabitls_rs.Base.Bytes.{byte_at, slice, to_be_bytes, from_be_bytes}

pub data SeqNumLen : Type 0 where
  one two : SeqNumLen

-- `SeqNumLen::bytes`
abbrev pub bytes : SeqNumLen → ℕ
bytes one = 1
bytes two = 2

-- `SeqNumLen::bits`
abbrev pub bits : SeqNumLen → ℕ
bits one = 8
bits two = 16

-- `u64::abs_diff`
abbrev pub abs_diff : ℕ → ℕ → ℕ
abs_diff a b = (a - b) + (b - a)

-- `u64::checked_add`
abbrev pub checked_add : ℕ → ℕ → Option ℕ
checked_add a b = if ltb (a + b) (2 ^ 64) then some (a + b) else none

-- `u64::checked_sub`
abbrev pub checked_sub : ℕ → ℕ → Option ℕ
checked_sub a b = if leb b a then some (a - b) else none

-- One of the two neighbour tests of `reconstruct_seq`: the other number when it is closer.
abbrev pub closer : ℕ → ℕ → Option ℕ → ℕ
closer expected best none = best
closer expected best (some other) =
    if ltb (abs_diff other expected) (abs_diff best expected) then other else best

unfoldable pub reconstruct_seq : ℕ → ℕ → ℕ → ℕ
reconstruct_seq wire_low seq_bits expected =
    let step = 2 ^ seq_bits in
    let mask = step - 1 in
    let candidate = bit_or (bit_and expected (2 ^ 64 - 1 - mask)) (bit_and wire_low mask) in
    let best = closer expected candidate (checked_add candidate step) in
    closer expected best (checked_sub candidate step)

-- `SealHeader`; the connection id is present or not.
pub record SealHeader : Type 0 where
  pub epoch : ℕ
  pub seq : ℕ
  pub seq_len : SeqNumLen
  pub cid : Option (List ℕ)

pub data DtlsRecordError : Type 0 where
  buffer_too_small : ℕ → ℕ → DtlsRecordError
  record_too_large bad_header truncated cid_mismatch : DtlsRecordError
  ciphertext_too_short aead inner_plaintext : DtlsRecordError

-- A decrypted record, `Opened`.
pub record Opened : Type 0 where
  pub epoch_low2 : ℕ
  pub seq : ℕ
  pub content_type : ℕ
  pub content : List ℕ
  pub record_len : ℕ

abbrev pub unified_hdr_fixed : ℕ
unified_hdr_fixed = 0b0010_0000

abbrev pub unified_hdr_fixed_mask : ℕ
unified_hdr_fixed_mask = 0b1110_0000

abbrev pub hdr_cid_present : ℕ
hdr_cid_present = 0b0001_0000

abbrev pub hdr_seq_16bit : ℕ
hdr_seq_16bit = 0b0000_1000

abbrev pub hdr_length_present : ℕ
hdr_length_present = 0b0000_0100

abbrev pub hdr_epoch_low2 : ℕ
hdr_epoch_low2 = 0b0000_0011

abbrev pub tag_len : ℕ
tag_len = 16

abbrev pub sn_sample_len : ℕ
sn_sample_len = 16

-- The bytes that `write_seq` writes to a field of `width` bytes.
unfoldable pub write_seq : ℕ → ℕ → List ℕ
write_seq width seq = if width == 1 then (seq % 2 ^ 8) ∷ [] else to_be_bytes 2 (seq % 2 ^ 16)

unfoldable pub read_seq : List ℕ → ℕ
read_seq field =
    if length field == 1
    then byte_at field 0
    else from_be_bytes (byte_at field 0 ∷ byte_at field 1 ∷ [])

-- `cid.map_or(0, len)`
abbrev pub cid_bytes : Option (List ℕ) → List ℕ
cid_bytes none = []
cid_bytes (some cid) = cid

-- The first byte of the header.
unfoldable pub first_byte : ℕ → Option (List ℕ) → SeqNumLen → ℕ
first_byte epoch cid seq_len =
    let first =
      bit_or (bit_or unified_hdr_fixed hdr_length_present)
        (bit_and (epoch % 2 ^ 8) hdr_epoch_low2) in
    let with_cid : ℕ = elim cid [ none ↦ first | some c ↦ bit_or first hdr_cid_present ] in
    elim seq_len [ one ↦ with_cid | two ↦ bit_or with_cid hdr_seq_16bit ]

-- `EpochKeys`: the AEAD under its key and vector, and the masker under its key, which makes the
-- bytes to be combined with the number from a sample of the ciphertext.
pub record EpochKeys : Type 0 where
  pub cipher : Cipher
  pub iv : List ℕ
  pub masker : List ℕ → List ℕ

-- `mask_seq`
abbrev pub mask_seq : (List ℕ → List ℕ) → List ℕ → List ℕ → List ℕ
mask_seq masker sample seq_bytes = xor_into seq_bytes (masker sample)

unfoldable pub seal : EpochKeys → SealHeader → List ℕ → ℕ → ℕ → Result DtlsRecordError (List ℕ)
seal keys hdr content content_type out_len = do
  let cid = cid_bytes hdr.cid
  let seq_pos = 1 + length cid
  let header_len = seq_pos + bytes hdr.seq_len + 2
  let inner_len = length content + 1
  let body_len = inner_len + tag_len
  let total = header_len + body_len
  fail_if (ltb 0xffff body_len) record_too_large
  fail_if (ltb out_len total) (buffer_too_small total out_len)
  let front = first_byte hdr.epoch hdr.cid hdr.seq_len ∷ cid
  let number = write_seq (bytes hdr.seq_len) hdr.seq
  let len = to_be_bytes 2 (body_len % 2 ^ 16)
  (ciphertext, tag) ←
      ok_or
        (keys.cipher.encrypt (aead_nonce keys.iv hdr.seq) (front ++ (number ++ len))
          (content ++ (content_type ∷ [])))
        aead
  let body = ciphertext ++ tag
  let masked = mask_seq keys.masker (take sn_sample_len body) number
  ok (front ++ (masked ++ (len ++ body)))

-- The result of `split_inner_plaintext` under the error of this layer.
abbrev pub inner : Result DecryptError (List ℕ × ℕ) → Result DtlsRecordError (List ℕ × ℕ)
inner (ok content) = ok content
inner (err e) = err inner_plaintext

-- `==` on `bool`
abbrev pub same_test : Bool → Bool → Bool
same_test true b = b
same_test false b = not b

-- The tests of `open` on the header: the width of the number, where the body starts, and its length.
unfoldable pub check_header : ℕ → List ℕ → Result DtlsRecordError (SeqNumLen × ℕ × ℕ)
check_header cid_len bytes_in = do
  fail_if (length bytes_in == 0) truncated
  let first = byte_at bytes_in 0
  fail_if (not (bit_and first unified_hdr_fixed_mask == unified_hdr_fixed)) bad_header
  let cid_present = not (bit_and first hdr_cid_present == 0)
  fail_if (not (same_test cid_present (ltb 0 cid_len))) cid_mismatch
  let seq_len = if bit_and first hdr_seq_16bit == 0 then one else two
  let length_present = not (bit_and first hdr_length_present == 0)
  let len_pos = 1 + cid_len + bytes seq_len
  let header_len = len_pos + (if length_present then 2 else 0)
  fail_if (ltb (length bytes_in) header_len) truncated
  let body_len =
      if length_present
      then from_be_bytes (byte_at bytes_in len_pos ∷ byte_at bytes_in (len_pos + 1) ∷ [])
      else length bytes_in - header_len
  let body_end = header_len + body_len
  fail_if
      (ltb (length bytes_in) body_end || (ltb body_len sn_sample_len || ltb body_len (tag_len + 1)))
      ciphertext_too_short
  ok (seq_len, header_len, body_len)

-- The rest of `open`: the number, the AEAD and the inner plaintext.
unfoldable pub open_body :
    EpochKeys → ℕ → ℕ → List ℕ → SeqNumLen → ℕ → ℕ → Result DtlsRecordError Opened
open_body keys cid_len expected_seq bytes_in seq_len header_len body_len = do
  let seq_pos = 1 + cid_len
  let body = slice header_len (header_len + body_len) bytes_in
  let sample = take sn_sample_len body
  let number = mask_seq keys.masker sample (slice seq_pos (seq_pos + bytes seq_len) bytes_in)
  let seq = reconstruct_seq (read_seq number) (bits seq_len) expected_seq
  let header =
      take seq_pos bytes_in ++ (number ++ slice (seq_pos + bytes seq_len) header_len bytes_in)
  let inner_len = body_len - tag_len
  let (opened, plain) =
      keys.cipher.decrypt (aead_nonce keys.iv seq) header (take inner_len body)
        (drop inner_len body)
  fail_if (not opened) aead
  (content, content_type) ← inner (split_inner_plaintext plain)
  ok (record {
    epoch_low2 = bit_and (byte_at bytes_in 0) hdr_epoch_low2;
    seq = seq;
    content_type = content_type;
    content = content;
    record_len = header_len + body_len;
  })

-- `EpochKeys::open`
unfoldable pub open_sealed : EpochKeys → ℕ → ℕ → List ℕ → Result DtlsRecordError Opened
open_sealed keys cid_len expected_seq bytes_in = do
  (seq_len, header_len, body_len) ← check_header cid_len bytes_in
  open_body keys cid_len expected_seq bytes_in seq_len header_len body_len
