-- ===== src/Dtls/Ack/Bitmap.antt =====
-- The bitmap form of an ACK lists the set bits in ascending order.
use krabitls_rs.Base.{
  ℕ, zero, suc, ◌+◌, ◌-◌, ◌*◌, ◌/◌, ◌%◌, ◌^◌, ◌≤◌, ◌<◌, ◌≡◌, refl, sym, ap, ◌∙◌, List, [], ◌∷◌,
  ◌++◌, map, length, ◌==◌, if◌then◌else◌, bit_and, ok, arith, true, false, Bool-cases, inl, inr,
  All,
}
use krabitls_rs.Base.Bits.{clear_lowest_odd, clear_lowest_even}
use krabitls_rs.Dtls.Ack.{
  AckRecords, write_entries, write_ack, count_ones, trailing_zeros, bitmap_loop, write_ack_bitmap,
  parse_ack, collect,
}
use krabitls_rs.Dtls.Ack.RoundTrip.{IsRecordNumber, collect-write_ack}

-- The positions of the set bits among the low `width`, counted from `from`.
pub set_bits : ℕ → ℕ → ℕ → List ℕ
set_bits zero from x = []
set_bits (suc width) from x =
    if x % 2 == 1
    then from ∷ set_bits width (suc from) (x / 2)
    else set_bits width (suc from) (x / 2)

abbrev pub numbered : ℕ → List ℕ → List (ℕ × ℕ)
numbered epoch [] = []
numbered epoch (s ∷ seqs) = (epoch, s) ∷ numbered epoch seqs

-- The record numbers that the loop picks, at any width.
pick : ℕ → ℕ → ℕ → List ℕ
pick zero width bits = []
pick (suc fuel) width bits = elim (bits == 0) [
  | true ↦ []
  | false ↦ trailing_zeros width bits ∷ pick fuel width (bit_and bits (bits - 1))
]

bitmap_loop-pick :
    (fuel epoch bits : ℕ)
    → bitmap_loop fuel epoch bits ≡ write_entries (numbered epoch (pick fuel 128 bits))
unfolding bitmap_loop pick write_entries
bitmap_loop-pick zero epoch bits = refl
bitmap_loop-pick (suc fuel) epoch bits =
    ground (arith, bitmap_loop-pick fuel epoch (bit_and bits (bits - 1)))

-- Doubling moves every bit up by one.
pick_double : (fuel width y : ℕ) → pick fuel (suc width) (2 * y) ≡ map suc (pick fuel width y)
unfolding pick trailing_zeros
pick_double zero width y = refl
pick_double (suc fuel) width zero = refl
pick_double (suc fuel) width (suc y) =
    let half : 2 * suc y / 2 ≡ suc y = omega arith in
    ground (
      arith,
      ap (trailing_zeros width) half,
      ap (pick fuel (suc width)) (clear_lowest_even (suc y) (omega arith)),
      pick_double fuel width (bit_and (suc y) (suc y - 1)),
    )

set_bits-suc : (width from x : ℕ) → set_bits width (suc from) x ≡ map suc (set_bits width from x)
unfolding set_bits
set_bits-suc zero from x = refl
set_bits-suc (suc width) from x = ground (arith, set_bits-suc width (suc from) (x / 2))

pick_odd :
    (fuel width y : ℕ) → pick (suc fuel) (suc width) (2 * y + 1) ≡ 0 ∷ map suc (pick fuel width y)
unfolding pick trailing_zeros
pick_odd fuel width y = ground (arith, clear_lowest_odd y, pick_double fuel width y)

pick-set_bits : (width x : ℕ) → pick (count_ones width x) width x ≡ set_bits width 0 x
unfolding set_bits count_ones
pick-set_bits zero x = unfold pick in refl
pick-set_bits (suc width) x =
    let y = x / 2 in
    let ih = pick-set_bits width y in
    elim (Bool-cases (x % 2 == 1)) [
      | inl odd ↦
          let shape : x ≡ 2 * y + 1 = ground arith in
          let ones : x % 2 + count_ones width y ≡ suc (count_ones width y) = ground arith in
          rw (odd, ones)
            (ap (pick (suc (count_ones width y)) (suc width)) shape
              ∙ pick_odd (count_ones width y) width y
              ∙ ap (λ l. 0 ∷ map suc l) ih
              ∙ ap (◌∷◌ 0) (sym (set_bits-suc width 0 y)))
      | inr even ↦
          let shape : x ≡ 2 * y = ground arith in
          let ones : x % 2 + count_ones width y ≡ count_ones width y = ground arith in
          rw (even, ones)
            (ap (pick (count_ones width y) (suc width)) shape
              ∙ pick_double (count_ones width y) width y
              ∙ ap (map suc) ih
              ∙ sym (set_bits-suc width 0 y))
    ]

-- The fuel of the loop is enough, and what it writes are the set bits in ascending order.
bitmap_loop-set_bits :
    (epoch seqs : ℕ)
    → bitmap_loop (count_ones 128 seqs) epoch seqs
      ≡ write_entries (numbered epoch (set_bits 128 0 seqs))
bitmap_loop-set_bits epoch seqs =
    bitmap_loop-pick (count_ones 128 seqs) epoch seqs
    ∙ ap (λ l. write_entries (numbered epoch l)) (pick-set_bits 128 seqs)

length-set_bits : (width from x : ℕ) → length (set_bits width from x) ≡ count_ones width x
unfolding set_bits count_ones
length-set_bits zero from x = refl
length-set_bits (suc width) from x = ground (arith, length-set_bits width (suc from) (x / 2))

length-numbered : (epoch : ℕ) (seqs : List ℕ) → length (numbered epoch seqs) ≡ length seqs
length-numbered epoch [] = refl
length-numbered epoch (s ∷ seqs) = ap suc (length-numbered epoch seqs)

count_ones-le : (width x : ℕ) → count_ones width x ≤ width
unfolding count_ones
count_ones-le zero x = omega arith
count_ones-le (suc width) x = omega (arith, count_ones-le width (x / 2))

numbered-IsRecordNumber :
    (epoch width from x : ℕ)
    → epoch < 2 ^ 64
    → from + width < 2 ^ 64
    → All IsRecordNumber (numbered epoch (set_bits width from x))
unfolding set_bits
numbered-IsRecordNumber epoch zero from x he h = tt
numbered-IsRecordNumber epoch (suc width) from x he h =
    let rest = numbered-IsRecordNumber epoch width (suc from) (x / 2) he (omega arith) in
    elim (Bool-cases (x % 2 == 1)) [
      | inl odd ↦ rw odd ((he, omega arith), rest)
      | inr even ↦ rw even rest
    ]

-- The bitmap form writes the same ACK as the list form on the set bits, in ascending order.
pub write_ack_bitmap-write_ack :
    (epoch seqs out_len : ℕ)
    → write_ack_bitmap epoch seqs out_len ≡ write_ack (numbered epoch (set_bits 128 0 seqs)) out_len
unfolding write_ack_bitmap write_ack
write_ack_bitmap-write_ack epoch seqs out_len = ground (
  arith,
  bitmap_loop-set_bits epoch seqs,
  length-numbered epoch (set_bits 128 0 seqs),
  length-set_bits 128 0 seqs,
  count_ones-le 128 seqs,
)

-- Reading it back gives the numbers of the set bits, the lowest first.
pub collect-write_ack_bitmap :
    (epoch seqs out_len : ℕ) (bytes rest : List ℕ)
    → epoch < 2 ^ 64
    → write_ack_bitmap epoch seqs out_len ≡ ok bytes
    → (it : AckRecords) × (parse_ack (bytes ++ rest) ≡ ok it)
      × (collect it ≡ numbered epoch (set_bits 128 0 seqs))
collect-write_ack_bitmap epoch seqs out_len bytes rest he e =
    collect-write_ack (numbered epoch (set_bits 128 0 seqs)) out_len bytes rest
      (numbered-IsRecordNumber epoch 128 0 seqs he (omega arith))
      (sym (write_ack_bitmap-write_ack epoch seqs out_len) ∙ e)
