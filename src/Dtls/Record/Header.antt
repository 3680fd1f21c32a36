-- ===== src/Dtls/Record/Header.antt =====
-- The unified header of krabitls/src/dtls/record.rs: what `seal` writes is what `open` reads.
use krabitls_rs.Base.{
  ℕ, zero, suc, ◌+◌, ◌%◌, ◌^◌, ◌≤◌, ◌<◌, ◌≡◌, refl, sym, subst, ◌∙◌, bit_and, bit_or, List, ◌∷◌,
  ◌++◌, length, not, ◌==◌, ltb, if◌then◌else◌, Bool, true, false, Option, none, some, ok, arith,
}
use native.Mathlib.Nat.{mod-eq_of_lt}
use krabitls_rs.Base.Lists.{length-append, get_or_past}
use krabitls_rs.Base.Masks.{bit_and-low}
use krabitls_rs.Base.Bytes.{to_be_bytes, from_be_bytes, from_be_bytes-to_be_bytes}
use krabitls_rs.Dtls.Record.{
  SeqNumLen, one, two, bytes, first_byte, cid_bytes, same_test, unified_hdr_fixed,
  unified_hdr_fixed_mask, hdr_cid_present, hdr_seq_16bit, hdr_length_present, hdr_epoch_low2,
  check_header,
}

abbrev pub is_present : Option (List ℕ) → Bool
is_present none = false
is_present (some cid) = true

-- The fields of a first byte.
abbrev HasFields : ℕ → ℕ → Bool → SeqNumLen → Type 0
HasFields first low2 present seq_len =
    (bit_and first unified_hdr_fixed_mask ≡ unified_hdr_fixed)
    × (not (bit_and first hdr_cid_present == 0) ≡ present)
    × ((if bit_and first hdr_seq_16bit == 0 then one else two) ≡ seq_len)
    × (not (bit_and first hdr_length_present == 0) ≡ true)
    × (bit_and first hdr_epoch_low2 ≡ low2)

first_of : ℕ → Option (List ℕ) → SeqNumLen → ℕ
first_of low2 cid seq_len =
    let first = bit_or (bit_or unified_hdr_fixed hdr_length_present) low2 in
    let with_cid : ℕ = elim cid [ none ↦ first | some c ↦ bit_or first hdr_cid_present ] in
    elim seq_len [ one ↦ with_cid | two ↦ bit_or with_cid hdr_seq_16bit ]

first_of_fields :
    (low2 : ℕ) (cid : Option (List ℕ)) (seq_len : SeqNumLen)
    → low2 < 4
    → HasFields (first_of low2 cid seq_len) low2 (is_present cid) seq_len
unfolding first_of
first_of_fields zero none one h = (refl, refl, refl, refl, refl)
first_of_fields zero none two h = (refl, refl, refl, refl, refl)
first_of_fields zero (some c) one h = (refl, refl, refl, refl, refl)
first_of_fields zero (some c) two h = (refl, refl, refl, refl, refl)
first_of_fields (suc zero) none one h = (refl, refl, refl, refl, refl)
first_of_fields (suc zero) none two h = (refl, refl, refl, refl, refl)
first_of_fields (suc zero) (some c) one h = (refl, refl, refl, refl, refl)
first_of_fields (suc zero) (some c) two h = (refl, refl, refl, refl, refl)
first_of_fields (suc (suc zero)) none one h = (refl, refl, refl, refl, refl)
first_of_fields (suc (suc zero)) none two h = (refl, refl, refl, refl, refl)
first_of_fields (suc (suc zero)) (some c) one h = (refl, refl, refl, refl, refl)
first_of_fields (suc (suc zero)) (some c) two h = (refl, refl, refl, refl, refl)
first_of_fields (suc (suc (suc zero))) none one h = (refl, refl, refl, refl, refl)
first_of_fields (suc (suc (suc zero))) none two h = (refl, refl, refl, refl, refl)
first_of_fields (suc (suc (suc zero))) (some c) one h = (refl, refl, refl, refl, refl)
first_of_fields (suc (suc (suc zero))) (some c) two h = (refl, refl, refl, refl, refl)
first_of_fields (suc (suc (suc (suc low2)))) cid seq_len h = absurd (omega arith)

pub first_byte_fields :
    (epoch : ℕ) (cid : Option (List ℕ)) (seq_len : SeqNumLen)
    → HasFields (first_byte epoch cid seq_len) (epoch % 4) (is_present cid) seq_len
unfolding first_byte first_of
first_byte_fields epoch cid seq_len =
    let low : bit_and (epoch % 2 ^ 8) hdr_epoch_low2 ≡ epoch % 4 =
      bit_and-low 2 (epoch % 2 ^ 8) ∙ omega arith in
    subst (λ e. HasFields (first_of e cid seq_len) (epoch % 4) (is_present cid) seq_len) (sym low)
      (first_of_fields (epoch % 4) cid seq_len (omega arith))

same_test_refl : (b : Bool) → same_test b b ≡ true
same_test_refl true = refl
same_test_refl false = refl

abbrev pub length_field : ℕ → List ℕ
length_field n = to_be_bytes 2 (n % 2 ^ 16)

length_field_read : (n : ℕ) → n ≤ 0xffff → from_be_bytes (length_field n) ≡ n
length_field_read n fits =
    from_be_bytes-to_be_bytes 2 (n % 2 ^ 16) (omega arith) ∙ mod-eq_of_lt (omega arith)

-- The tests of `open` pass on a header that `seal` wrote.
pub check_header-written :
    (epoch : ℕ) (cid : Option (List ℕ)) (seq_len : SeqNumLen) (cid_len n : ℕ) (number rest : List ℕ)
    → cid_len ≡ length (cid_bytes cid)
    → ltb 0 cid_len ≡ is_present cid
    → length number ≡ bytes seq_len
    → 17 ≤ n
    → n ≤ 0xffff
    → n ≤ length rest
    → check_header cid_len
        ((first_byte epoch cid seq_len ∷ cid_bytes cid) ++ (number ++ (length_field n ++ rest)))
      ≡ ok (seq_len, 1 + cid_len + bytes seq_len + 2, n)
unfolding check_header
check_header-written epoch cid seq_len cid_len n number rest same present width long fits room =
    let front = first_byte epoch cid seq_len ∷ cid_bytes cid in
    let tail = length_field n ++ rest in
    let (fixed, with_cid, wide, with_length, low2) = first_byte_fields epoch cid seq_len in
    let total = length-append (cid_bytes cid) (number ++ tail) in
    let total_tail = length-append number tail in
    let len_pos = 1 + cid_len + bytes seq_len in
    let high =
      get_or_past front (number ++ tail) len_pos (bytes seq_len) 0 (omega arith)
      ∙ get_or_past number tail (bytes seq_len) 0 0 (omega arith) in
    let low =
      get_or_past front (number ++ tail) (len_pos + 1) (bytes seq_len + 1) 0 (omega arith)
      ∙ get_or_past number tail (bytes seq_len + 1) 1 0 (omega arith) in
    let read = length_field_read n fits in
    let reached : length (front ++ (number ++ tail))
        ≡ 1 + cid_len + bytes seq_len + 2 + length rest =
      omega arith in
    rw
      (
        fixed,
        with_cid,
        wide,
        with_length,
        high,
        low,
        read,
        present,
        same_test_refl (is_present cid),
        reached,
      )
      (ground arith)
