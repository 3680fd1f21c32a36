-- ===== src/Dtls/Record/Wire.antt =====
-- The bytes that `seal` of krabitls/src/dtls/record.rs writes, and their parts.
use krabitls_rs.Base.{
  ℕ, suc, ◌+◌, ◌-◌, ◌%◌, ◌^◌, ◌≤◌, ◌≡◌, refl, sym, ap, ap₂, subst, ◌∙◌, List, [], ◌∷◌, ◌++◌, length,
  take, drop, ltb, some, ok, arith, append_assoc,
}
use krabitls_rs.Base.Lists.{length-append, take-append, drop-append, drop_past, take_front}
use krabitls_rs.Base.Results.{guarded_step}
use krabitls_rs.Base.Masks.{bit_xor_twice}
use krabitls_rs.Base.Bytes.{slice, from_be_bytes-to_be_bytes}
use krabitls_rs.Tls.Aead.{xor_into, aead_nonce}
use krabitls_rs.Dtls.Record.{
  SeqNumLen, one, two, bytes, bits, SealHeader, first_byte, cid_bytes, EpochKeys, mask_seq,
  write_seq, read_seq, seal,
}
use krabitls_rs.Dtls.Record.Header.{length_field}

pub read_seq-write_seq :
    (l : SeqNumLen) (seq : ℕ) → read_seq (write_seq (bytes l) seq) ≡ seq % 2 ^ bits l
unfolding read_seq write_seq
read_seq-write_seq one seq = refl
read_seq-write_seq two seq = from_be_bytes-to_be_bytes 2 (seq % 2 ^ 16) (omega arith)

length-write_seq : (l : SeqNumLen) (seq : ℕ) → length (write_seq (bytes l) seq) ≡ bytes l
unfolding write_seq
length-write_seq one seq = refl
length-write_seq two seq = refl

length-xor_into : (dst src : List ℕ) → length (xor_into dst src) ≡ length dst
unfolding xor_into
length-xor_into [] src = refl
length-xor_into (n ∷ dst) [] = refl
length-xor_into (n ∷ dst) (s ∷ src) = ap suc (length-xor_into dst src)

-- Masking is undone by masking again.
pub xor_into_twice : (dst src : List ℕ) → xor_into (xor_into dst src) src ≡ dst
unfolding xor_into
xor_into_twice [] src = refl
xor_into_twice (n ∷ dst) [] = refl
xor_into_twice (n ∷ dst) (s ∷ src) = ap₂ ◌∷◌ (bit_xor_twice n s) (xor_into_twice dst src)

abbrev pub front : SealHeader → List ℕ
front hdr = first_byte hdr.epoch hdr.cid hdr.seq_len ∷ cid_bytes hdr.cid

abbrev pub number : SealHeader → List ℕ
number hdr = write_seq (bytes hdr.seq_len) hdr.seq

abbrev pub aad : SealHeader → ℕ → List ℕ
aad hdr n = front hdr ++ (number hdr ++ length_field n)

abbrev pub masked : EpochKeys → SealHeader → List ℕ → List ℕ
masked keys hdr body = mask_seq keys.masker (take 16 body) (number hdr)

abbrev pub written : EpochKeys → SealHeader → ℕ → List ℕ → List ℕ
written keys hdr n body = front hdr ++ (masked keys hdr body ++ (length_field n ++ body))

-- The parts of a record that `seal` wrote.
pub seal_succeeds :
    (keys : EpochKeys) (hdr : SealHeader) (content : List ℕ) (content_type out_len : ℕ)
    (sealed : List ℕ)
    → seal keys hdr content content_type out_len ≡ ok sealed
    → (length content + 17 ≤ 0xffff)
      × (ciphertext : List ℕ) × (tag : List ℕ) × (keys.cipher.encrypt
            (aead_nonce keys.iv hdr.seq)
            (aad hdr (length content + 17))
            (content ++ (content_type ∷ []))
          ≡ some (ciphertext, tag))
      × (sealed ≡ written keys hdr (length content + 17) (ciphertext ++ tag))
unfolding seal
seal_succeeds keys hdr content content_type out_len sealed h =
    let n = length content + 1 + 16 in
    let (short, fits, ((ciphertext, tag), answer, same)) =
      guarded_step (ltb 0xffff n)
        (ltb out_len (1 + length (cid_bytes hdr.cid) + bytes hdr.seq_len + 2 + n)) _ _ _
        (keys.cipher.encrypt (aead_nonce keys.iv hdr.seq) (aad hdr n)
          (content ++ (content_type ∷ [])))
        (λ p. written keys hdr n (p.0 ++ p.1)) sealed h in
    let total : n ≡ length content + 17 = omega arith in
    let small : n ≤ 0xffff = ground arith in
    (
      omega arith,
      ciphertext,
      tag,
      subst
          (λ m.
            keys.cipher.encrypt (aead_nonce keys.iv hdr.seq) (aad hdr m)
              (content ++ (content_type ∷ []))
            ≡ some (ciphertext, tag))
          total answer,
      sym same ∙ ap (λ m. written keys hdr m (ciphertext ++ tag)) total,
    )

-- The header of a written record is found again, with the number in clear.
pub header_restored :
    (keys : EpochKeys) (hdr : SealHeader) (n cid_len : ℕ) (body : List ℕ)
    → cid_len ≡ length (cid_bytes hdr.cid)
    → (take (1 + cid_len) (written keys hdr n body) ≡ front hdr)
      × (slice (1 + cid_len) (1 + cid_len + bytes hdr.seq_len) (written keys hdr n body)
          ≡ masked keys hdr body)
      × (slice
            (1 + cid_len + bytes hdr.seq_len)
            (1 + cid_len + bytes hdr.seq_len + 2)
            (written keys hdr n body)
          ≡ length_field n)
      × (drop (1 + cid_len + bytes hdr.seq_len + 2) (written keys hdr n body) ≡ body)
header_restored keys hdr n cid_len body same =
    let f = front hdr in
    let m = masked keys hdr body in
    let l = length_field n in
    let w = bytes hdr.seq_len in
    let width : length m ≡ w =
      length-xor_into (number hdr) (keys.masker (take 16 body))
      ∙ length-write_seq hdr.seq_len hdr.seq in
    (
      take-append f (m ++ (l ++ body)) (1 + cid_len) (omega arith),
      ap (take (1 + cid_len + w - (1 + cid_len)))
            (drop-append f (m ++ (l ++ body)) (1 + cid_len) (omega arith))
          ∙ take-append m (l ++ body) (1 + cid_len + w - (1 + cid_len)) (omega arith),
      ap (take (1 + cid_len + w + 2 - (1 + cid_len + w))) (
            drop_past f (m ++ (l ++ body)) (1 + cid_len + w) w (omega arith)
            ∙ drop-append m (l ++ body) w (omega arith))
          ∙ take-append l body (1 + cid_len + w + 2 - (1 + cid_len + w)) (omega arith),
      drop_past f (m ++ (l ++ body)) (1 + cid_len + w + 2) (w + 2) (omega arith)
          ∙ drop_past m (l ++ body) (w + 2) 2 (omega arith)
          ∙ drop-append l body 2 refl,
    )

pub written_rest :
    (keys : EpochKeys) (hdr : SealHeader) (n : ℕ) (body rest : List ℕ)
    → 16 ≤ length body
    → written keys hdr n body ++ rest ≡ written keys hdr n (body ++ rest)
written_rest keys hdr n body rest enough =
    let m = masked keys hdr body in
    let l = length_field n in
    append_assoc (front hdr) (m ++ (l ++ body)) rest
    ∙ ap (◌++◌ (front hdr)) (append_assoc m (l ++ body) rest)
    ∙ ap (λ s. front hdr ++ (mask_seq keys.masker s (number hdr) ++ (l ++ (body ++ rest))))
        (sym (take_front 16 body rest enough))

pub length-masked :
    (keys : EpochKeys) (hdr : SealHeader) (body : List ℕ)
    → length (masked keys hdr body) ≡ bytes hdr.seq_len
length-masked keys hdr body =
    length-xor_into (number hdr) (keys.masker (take 16 body)) ∙ length-write_seq hdr.seq_len hdr.seq

pub length-written :
    (keys : EpochKeys) (hdr : SealHeader) (n : ℕ) (body : List ℕ)
    → length (written keys hdr n body)
      ≡ 1 + length (cid_bytes hdr.cid) + bytes hdr.seq_len + 2 + length body
length-written keys hdr n body =
    let m = masked keys hdr body in
    let l = length_field n in
    omega (
      arith,
      length-append (front hdr) (m ++ (l ++ body)),
      length-append m (l ++ body),
      length-masked keys hdr body,
    )
