-- ===== src/Dtls/Record/RoundTrip.antt =====
-- Records that `seal` of krabitls/src/dtls/record.rs wrote, given to `open`.
use krabitls_rs.Base.{
  ℕ, ◌+◌, ◌-◌, ◌*◌, ◌%◌, ◌^◌, ◌≤◌, ◌<◌, ◌≡◌, ◌≢◌, refl, sym, ap, ◌∙◌, List, [], ◌∷◌, ◌++◌, length,
  take, ltb, true, ok, arith,
}
use krabitls_rs.Base.Lists.{length-append, take-append, drop-append, take_front}
use krabitls_rs.Base.Bytes.{slice}
use krabitls_rs.Tls.Aead.{IsAead, xor_into, aead_nonce, tls_plaintext_max}
use krabitls_rs.Tls.Aead.Decrypt.{split_inner_plaintext}
use krabitls_rs.Tls.Aead.Inner.{split_inner_plaintext_iff}
use krabitls_rs.Dtls.Record.{
  SeqNumLen, one, two, bytes, bits, abs_diff, reconstruct_seq, SealHeader, cid_bytes, EpochKeys,
  seal, check_header, open_body, open_sealed,
}
use krabitls_rs.Dtls.Record.Number.{reconstruct_seq_recovers}
use krabitls_rs.Dtls.Record.Header.{is_present, first_byte_fields, check_header-written}
use krabitls_rs.Dtls.Record.Wire.{
  number, aad, masked, written, read_seq-write_seq, xor_into_twice, seal_succeeds, header_restored,
  written_rest, length-masked, length-written,
}

open_body-written :
    (keys : EpochKeys) (hdr : SealHeader) (n cid_len expected : ℕ)
    (ciphertext tag rest content : List ℕ) (content_type : ℕ)
    → cid_len ≡ length (cid_bytes hdr.cid)
    → length ciphertext + 16 ≡ n
    → length tag ≡ 16
    → reconstruct_seq (hdr.seq % 2 ^ bits hdr.seq_len) (bits hdr.seq_len) expected ≡ hdr.seq
    → keys.cipher.decrypt (aead_nonce keys.iv hdr.seq) (aad hdr n) ciphertext tag
      ≡ (true, content ++ (content_type ∷ []))
    → split_inner_plaintext (content ++ (content_type ∷ [])) ≡ ok (content, content_type)
    → open_body keys cid_len expected
        (written keys hdr n ((ciphertext ++ tag) ++ rest))
        hdr.seq_len
        (1 + cid_len + bytes hdr.seq_len + 2)
        n
      ≡ ok (record {
        epoch_low2 = hdr.epoch % 4;
        seq = hdr.seq;
        content_type = content_type;
        content = content;
        record_len = 1 + cid_len + bytes hdr.seq_len + 2 + n;
      })
unfolding open_body
open_body-written keys hdr n cid_len expected ciphertext tag rest content content_type same c_len
      t_len recovered opened inner_split =
    let body = ciphertext ++ tag in
    let header_len = 1 + cid_len + bytes hdr.seq_len + 2 in
    let body_len = length-append ciphertext tag in
    let (f, m, l, b) = header_restored keys hdr n cid_len (body ++ rest) same in
    let whole : slice header_len (header_len + n) (written keys hdr n (body ++ rest)) ≡ body =
      ap (take (header_len + n - header_len)) b
      ∙ take-append body rest (header_len + n - header_len) (omega arith) in
    let sample = take_front 16 body rest (omega arith) in
    let unmasked : xor_into (masked keys hdr (body ++ rest)) (keys.masker (take 16 body))
        ≡ number hdr =
      ap (λ s. xor_into (masked keys hdr (body ++ rest)) (keys.masker s)) (sym sample)
      ∙ xor_into_twice (number hdr) (keys.masker (take 16 (body ++ rest))) in
    let number_read = read_seq-write_seq hdr.seq_len hdr.seq in
    let front_c = take-append ciphertext tag (n - 16) (omega arith) in
    let back_t = drop-append ciphertext tag (n - 16) (omega arith) in
    let (fixed, with_cid, wide, with_length, low2) =
      first_byte_fields hdr.epoch hdr.cid hdr.seq_len in
    rw
      (whole, m, unmasked, number_read, recovered, f, l, front_c, back_t, opened, inner_split, low2)
      refl

open_checked :
    (keys : EpochKeys) (cid_len expected : ℕ) (wire : List ℕ) (seq_len : SeqNumLen)
    (header_len n : ℕ)
    → check_header cid_len wire ≡ ok (seq_len, header_len, n)
    → open_sealed keys cid_len expected wire
      ≡ open_body keys cid_len expected wire seq_len header_len n
unfolding open_sealed
open_checked keys cid_len expected wire seq_len header_len n checked =
    rw (open_sealed, checked) refl

bits_small : (l : SeqNumLen) → bits l < 64
bits_small one = omega arith
bits_small two = omega arith

-- Under a cipher with the laws of an AEAD, a record that `seal` wrote is opened again at the front
-- of any datagram, by a receiver that agrees on the connection id and expects a number less than
-- half the span of the written digits away: it finds the number, the content and its type, which
-- must not be 0, the low digits of the epoch, and the end of the record. The content must be within
-- the limit of 2 ^ 14 bytes, which `seal` does not test.
pub open_sealed-seal :
    (keys : EpochKeys)
    → IsAead keys.cipher
    → (hdr : SealHeader) (content : List ℕ) (content_type out_len cid_len expected : ℕ)
      (sealed rest : List ℕ)
    → content_type ≢ 0
    → length content ≤ tls_plaintext_max
    → cid_len ≡ length (cid_bytes hdr.cid)
    → ltb 0 cid_len ≡ is_present hdr.cid
    → hdr.seq < 2 ^ 64
    → expected < 2 ^ 64
    → 2 * abs_diff hdr.seq expected < 2 ^ bits hdr.seq_len
    → seal keys hdr content content_type out_len ≡ ok sealed
    → open_sealed keys cid_len expected (sealed ++ rest)
      ≡ ok (record {
        epoch_low2 = hdr.epoch % 4;
        seq = hdr.seq;
        content_type = content_type;
        content = content;
        record_len = length sealed;
      })
open_sealed-seal keys aead hdr content content_type out_len cid_len expected sealed rest nonzero
      small same present seq_small e_small near h =
    let n = length content + 17 in
    let plain = content ++ (content_type ∷ []) in
    let (fits, ciphertext, tag, answer, bytes_written) =
      seal_succeeds keys hdr content content_type out_len sealed h in
    let body = ciphertext ++ tag in
    let header_len = 1 + cid_len + bytes hdr.seq_len + 2 in
    let (c_len, t_len) = aead.encrypt-length answer in
    let plain_len = length-append content (content_type ∷ []) in
    let body_len : length body ≡ n = omega (arith, length-append ciphertext tag) in
    let total : header_len + n ≡ length sealed =
      omega (arith, ap length bytes_written, length-written keys hdr n body) in
    let checked =
      check_header-written hdr.epoch hdr.cid hdr.seq_len cid_len n (masked keys hdr (body ++ rest))
        (body ++ rest) same present (length-masked keys hdr (body ++ rest)) (omega arith) fits
        (omega (arith, length-append body rest)) in
    let recovered =
      reconstruct_seq_recovers hdr.seq (bits hdr.seq_len) expected (bits_small hdr.seq_len)
        seq_small e_small near in
    let inner_split =
      (split_inner_plaintext_iff plain content content_type).1
        (0, refl, nonzero, omega arith, small) in
    let opened =
      open_body-written keys hdr n cid_len expected ciphertext tag rest content content_type same
        (omega arith) t_len recovered (aead.decrypt-encrypt answer) inner_split in
    ap (open_sealed keys cid_len expected)
      (ap (λ s. s ++ rest) bytes_written ∙ written_rest keys hdr n body rest (omega arith))
    ∙ open_checked keys cid_len expected (written keys hdr n (body ++ rest)) hdr.seq_len header_len
        n checked
    ∙ opened
    ∙ ap
        (λ len. ok (record {
          epoch_low2 = hdr.epoch % 4;
          seq = hdr.seq;
          content_type = content_type;
          content = content;
          record_len = len;
        }))
        total
