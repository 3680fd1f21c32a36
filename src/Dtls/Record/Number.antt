-- ===== src/Dtls/Record/Number.antt =====
-- reconstruct_seq of krabitls/src/dtls/record.rs finds the nearest number with the given low bits.
use krabitls_rs.Base.{
  ◌⊎◌, inl, inr, ℕ, ◌+◌, ◌-◌, ◌*◌, ◌/◌, ◌%◌, ◌^◌, ◌≤◌, ◌<◌, ◌≡◌, sym, ap, ap₂, subst, ◌∙◌, bit_and,
  bit_or, arith,
}
use native.Mathlib.Nat.{
  mod-lt, one-le-pow, div-add-mod', mul-le-mul_right, mul-add-mod_self_right, mod-eq_of_lt,
}
use native.Mathlib.Decide.{dec_lt}
use krabitls_rs.Base.Masks.{bit_and-low, bit_and-high, bit_or-disjoint}
use krabitls_rs.Dtls.Record.{abs_diff, checked_add, checked_sub, closer, reconstruct_seq}

-- The candidate: the high part of the expected number and the low part from the wire.
candidate_lem :
    (wire_low w expected : ℕ)
    → w ≤ 64
    → expected < 2 ^ 64
    → bit_or (bit_and expected (2 ^ 64 - 1 - (2 ^ w - 1))) (bit_and wire_low (2 ^ w - 1))
      ≡ expected / 2 ^ w * 2 ^ w + wire_low % 2 ^ w
candidate_lem wire_low w expected fits small =
    let positive : 1 ≤ 2 ^ w = one-le-pow w 2 (omega arith) in
    let complement : 2 ^ 64 - 1 - (2 ^ w - 1) ≡ 2 ^ 64 - 2 ^ w = omega arith in
    let high : bit_and expected (2 ^ 64 - 1 - (2 ^ w - 1)) ≡ expected / 2 ^ w * 2 ^ w =
      ap (bit_and expected) complement
      ∙ bit_and-high 64 w expected fits small
      ∙ omega (arith, div-add-mod' expected (2 ^ w)) in
    ap₂ bit_or high (bit_and-low w wire_low)
    ∙ bit_or-disjoint w (expected / 2 ^ w) (wire_low % 2 ^ w) (mod-lt wire_low positive)

-- Of a candidate less than a step away and its two neighbours the tests choose one as near as any
-- number that is a whole step or more beyond the candidate.
closest_of_three :
    (c s e v : ℕ)
    → c < e + s
    → e < c + s
    → v < 2 ^ 64
    → (v ≡ c) ⊎ (c + s ≤ v) ⊎ (v + s ≤ c)
    → abs_diff (closer e (closer e c (checked_add c s)) (checked_sub c s)) e ≤ abs_diff v e
closest_of_three c s e v below above small (inl same) = ground arith
closest_of_three c s e v below above small (inr (inl up)) = ground arith
closest_of_three c s e v below above small (inr (inr down)) = ground arith

one_of_three :
    (c s e : ℕ)
    → (closer e (closer e c (checked_add c s)) (checked_sub c s) ≡ c)
      ⊎ (closer e (closer e c (checked_add c s)) (checked_sub c s) ≡ c + s)
      ⊎ ((s ≤ c) × (closer e (closer e c (checked_add c s)) (checked_sub c s) ≡ c - s))
one_of_three c s e = ground arith

steps_apart :
    (q k s r : ℕ)
    → (k * s + r ≡ q * s + r) ⊎ (q * s + r + s ≤ k * s + r) ⊎ (k * s + r + s ≤ q * s + r)
steps_apart q k s r = elim (dec_lt k q) [
  | yes below ↦ inr (inr (omega (arith, mul-le-mul_right {m = k + 1} {n = q} s (omega arith))))
  | no reached ↦ elim (dec_lt q k) [
    | yes above ↦ inr (inl (omega (arith, mul-le-mul_right {m = q + 1} {n = k} s (omega arith))))
    | no other ↦ let same : k ≡ q = omega arith in inl (ap (λ t. t * s + r) same)
  ]
]

by_tests :
    (wire_low w expected : ℕ)
    → w < 64
    → expected < 2 ^ 64
    → reconstruct_seq wire_low w expected ≡ (
        let c = expected / 2 ^ w * 2 ^ w + wire_low % 2 ^ w in
        closer expected (closer expected c (checked_add c (2 ^ w))) (checked_sub c (2 ^ w)))
unfolding reconstruct_seq
by_tests wire_low w expected fits small =
    ap (λ c. closer expected (closer expected c (checked_add c (2 ^ w))) (checked_sub c (2 ^ w)))
      (candidate_lem wire_low w expected (omega arith) small)

nearest_of_low :
    (wire_low w expected v : ℕ)
    → w < 64
    → expected < 2 ^ 64
    → v < 2 ^ 64
    → v % 2 ^ w ≡ wire_low % 2 ^ w
    → abs_diff (reconstruct_seq wire_low w expected) expected ≤ abs_diff v expected
nearest_of_low wire_low w expected v fits small v_small low =
    let s = 2 ^ w in
    let positive : 1 ≤ s = one-le-pow w 2 (omega arith) in
    let r = wire_low % s in
    let c = expected / s * s + r in
    let r_small : r < s = mod-lt wire_low positive in
    let e_low : expected % s < s = mod-lt expected positive in
    let e_split : expected / s * s + expected % s ≡ expected = div-add-mod' expected s in
    let v_split : v / s * s + r ≡ v = ap (λ t. v / s * s + t) (sym low) ∙ div-add-mod' v s in
    let apart =
      subst (λ t. (t ≡ c) ⊎ (c + s ≤ t) ⊎ (t + s ≤ c)) v_split
        (steps_apart (expected / s) (v / s) s r) in
    subst (λ t. abs_diff t expected ≤ abs_diff v expected)
      (sym (by_tests wire_low w expected fits small))
      (closest_of_three c s expected v (omega arith) (omega arith) v_small apart)

-- The tests choose a number that differs from the candidate by whole steps.
steps_from :
    (q s r e : ℕ)
    → r < s
    → (k : ℕ) × (closer e
          (closer e (q * s + r) (checked_add (q * s + r) s))
          (checked_sub (q * s + r) s)
        ≡ k * s + r)
steps_from q s r e low = elim (one_of_three (q * s + r) s e) [
  | inl here ↦ (q, here)
  | inr (inl up) ↦ (q + 1, omega arith)
  | inr (inr (fits, down)) ↦ elim (dec_lt 0 q) [
    | yes positive ↦
        let one_less : q ≡ q - 1 + 1 = omega arith in
        (q - 1, down ∙ omega (arith, ap (λ t. t * s) one_less))
    | no none_below ↦
        let zero_steps : q ≡ 0 = omega arith in absurd (omega (arith, ap (λ t. t * s) zero_steps))
  ]
]

reconstruct_seq_low :
    (wire_low w expected : ℕ)
    → w < 64
    → expected < 2 ^ 64
    → reconstruct_seq wire_low w expected % 2 ^ w ≡ wire_low % 2 ^ w
reconstruct_seq_low wire_low w expected fits small =
    let s = 2 ^ w in
    let positive : 1 ≤ s = one-le-pow w 2 (omega arith) in
    let (k, e) = steps_from (expected / s) s (wire_low % s) expected (mod-lt wire_low positive) in
    ap (λ t. t % s) (by_tests wire_low w expected fits small ∙ e)
    ∙ mul-add-mod_self_right k s (wire_low % s)
    ∙ mod-eq_of_lt (mod-lt wire_low positive)

-- The number that `reconstruct_seq` returns has the low `w` bits from the wire, and no 64-bit number
-- with these bits is nearer to the expected one.
pub reconstruct_seq_nearest :
    (wire_low w expected v : ℕ)
    → w < 64
    → expected < 2 ^ 64
    → v < 2 ^ 64
    → v % 2 ^ w ≡ wire_low % 2 ^ w
    → (reconstruct_seq wire_low w expected % 2 ^ w ≡ wire_low % 2 ^ w)
      × (abs_diff (reconstruct_seq wire_low w expected) expected ≤ abs_diff v expected)
reconstruct_seq_nearest wire_low w expected v fits small v_small low = (
  reconstruct_seq_low wire_low w expected fits small,
  nearest_of_low wire_low w expected v fits small v_small low,
)

-- A number less than half a step away from the expected one is recovered from its low `w` bits.
pub reconstruct_seq_recovers :
    (seq w expected : ℕ)
    → w < 64
    → seq < 2 ^ 64
    → expected < 2 ^ 64
    → 2 * abs_diff seq expected < 2 ^ w
    → reconstruct_seq (seq % 2 ^ w) w expected ≡ seq
reconstruct_seq_recovers seq w expected fits seq_small small near =
    let s = 2 ^ w in
    let positive : 1 ≤ s = one-le-pow w 2 (omega arith) in
    let r = seq % s in
    let found = reconstruct_seq r w expected in
    let again : r % s ≡ r = mod-eq_of_lt (mod-lt seq positive) in
    let low : found % s ≡ r = reconstruct_seq_low r w expected fits small ∙ again in
    let nearest = nearest_of_low r w expected seq fits small seq_small (sym again) in
    let found_split : found / s * s + r ≡ found =
      ap (λ t. found / s * s + t) (sym low) ∙ div-add-mod' found s in
    let seq_split : seq / s * s + r ≡ seq = div-add-mod' seq s in
    elim (steps_apart (seq / s) (found / s) s r) [
      | inl same ↦ sym found_split ∙ same ∙ seq_split
      | inr (inl above) ↦ absurd (omega arith)
      | inr (inr below) ↦ absurd (omega arith)
    ]
