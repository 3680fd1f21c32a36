-- ===== src/Base/Bits.antt =====
-- Binary digits of a word, and what `|`, `&`, `^` and shifts do to each digit.
use Prim.Native.Nat.{
  ℕ, zero, suc, ◌+◌, ◌-◌, ◌*◌, ◌/◌, ◌%◌, ◌^◌, ◌≤◌, ◌<◌, min, max, bit_and, bit_or, bit_xor, digits,
  bitwise, differ, bit_and-bitwise, bit_or-bitwise, bit_xor-bitwise,
}
use native.Mathlib.Nat.{
  pow-suc, sub-zero, mul-one, suc-sub-suc, one-le-pow, mod-lt, mod-one, mod-eq_of_lt, div-add-mod',
  mul-add-mod_self_right,
}
use mathlib.Core.Path.{◌≡◌, refl, ap, ap₂, ◌∙◌}
use native.Mathlib.Omega.{arith}
use native.Mathlib.Decide.{dec_le}
use krabitls_rs.Base.Tests.{ltb, ◌==◌, if◌then◌else◌}

-- The digit of `x` of weight 2 ^ i.
pub bit : ℕ → ℕ → ℕ
bit zero x = x % 2
bit (suc i) x = bit i (x / 2)

pub bit_bound : (i x : ℕ) → bit i x ≤ 1
unfolding bit
bit_bound zero x = omega arith
bit_bound (suc i) x = bit_bound i (x / 2)

-- The native operations recurse on the digits with their left operand as fuel. A recursion with
-- any digit function `f`, started with `k` more than it needs, gives the same number.
module _ (last : ℕ → ℕ) (f : ℕ → ℕ → ℕ) where
  spare_one : (fuel x y : ℕ) → x ≤ fuel → digits last f (suc fuel) x y ≡ digits last f fuel x y
  spare_one zero zero y enough = refl
  spare_one zero (suc x) y enough = absurd (omega arith)
  spare_one (suc fuel) zero y enough = refl
  spare_one (suc fuel) (suc x) y enough =
      let rest = spare_one fuel (suc x / 2) (y / 2) (omega arith) in omega arith

  spare : (fuel x y : ℕ) → x ≤ fuel → digits last f fuel x y ≡ bitwise last f x y
  spare zero x y enough =
      let none_left : 0 ≡ x = omega arith in ap (λ n. digits last f n x y) none_left
  spare (suc fuel) x y enough = elim (dec_le x fuel) [
    | yes below ↦ spare_one fuel x y below ∙ spare fuel x y below
    | no above ↦ let exact : suc fuel ≡ x = omega arith in ap (λ n. digits last f n x y) exact
  ]

  -- An operation of this kind works on the halves and on the lowest digits.
  by_halves :
      (op : ℕ → ℕ → ℕ)
      → ((x y : ℕ) → op x y ≡ bitwise last f x y)
      → ((y : ℕ) → last y ≡ last (y / 2) * 2 + f 0 (y % 2))
      → (x y : ℕ) → op x y ≡ op (x / 2) (y / 2) * 2 + f (x % 2) (y % 2)
  by_halves op means at_end zero y = omega (arith, means 0 y, means 0 (y / 2), at_end y)
  by_halves op means at_end (suc x) y =
      let shorter = spare x (suc x / 2) (y / 2) (omega arith) in
      omega (arith, means (suc x) y, means (suc x / 2) (y / 2))

pub bit_or_halves : (x y : ℕ) → bit_or x y ≡ bit_or (x / 2) (y / 2) * 2 + max (x % 2) (y % 2)
bit_or_halves = by_halves (λ y. y) max bit_or (λ x y. bit_or-bitwise x y) (λ y. omega arith)

pub bit_and_halves : (x y : ℕ) → bit_and x y ≡ bit_and (x / 2) (y / 2) * 2 + min (x % 2) (y % 2)
bit_and_halves = by_halves (λ y. 0) min bit_and (λ x y. bit_and-bitwise x y) (λ y. omega arith)

pub bit_xor_halves : (x y : ℕ) → bit_xor x y ≡ bit_xor (x / 2) (y / 2) * 2 + differ (x % 2) (y % 2)
bit_xor_halves = by_halves (λ y. y) differ bit_xor (λ x y. bit_xor-bitwise x y) (λ y. omega arith)

pub bit-bit_or : (i x y : ℕ) → bit i (bit_or x y) ≡ max (bit i x) (bit i y)
unfolding bit
bit-bit_or zero x y = omega (arith, bit_or_halves x y)
bit-bit_or (suc i) x y =
    ap (bit i) (omega (arith, bit_or_halves x y)) ∙ bit-bit_or i (x / 2) (y / 2)

bit_and_none : (bound x : ℕ) → x ≤ bound → bit_and x 0 ≡ 0
bit_and_none bound zero small = refl
bit_and_none zero (suc x) small = absurd (omega arith)
bit_and_none (suc bound) (suc x) small =
    let rest = bit_and_none bound (suc x / 2) (omega arith) in
    omega (arith, bit_and_halves (suc x) 0)

pub bit_and-zero : (x : ℕ) → bit_and x 0 ≡ 0
bit_and-zero x = bit_and_none x x (omega arith)

half-two-pow : (d : ℕ) → 2 ^ suc d / 2 ≡ 2 ^ d
half-two-pow d = omega (arith, pow-suc 2 d)

pub mul-two-pow-suc : (x s : ℕ) → x * 2 ^ suc s ≡ 2 * (x * 2 ^ s)
mul-two-pow-suc x s = omega (arith, ap (λ (t : ℕ). x * t) (pow-suc 2 s))

-- `x & (1 << d)` keeps the digit at `d` alone.
pub bit_and_single : (d x : ℕ) → bit_and x (2 ^ d) ≡ bit d x * 2 ^ d
unfolding bit
bit_and_single zero x = omega (arith, bit_and_halves x 1, bit_and-zero (x / 2))
bit_and_single (suc d) x =
    let above = ap (bit_and (x / 2)) (half-two-pow d) ∙ bit_and_single d (x / 2) in
    let low : 2 ^ suc d % 2 ≡ 0 = omega (arith, pow-suc 2 d) in
    omega (arith, bit_and_halves x (2 ^ suc d), mul-two-pow-suc (bit d (x / 2)) d)

pub bit-zero : (i : ℕ) → bit i 0 ≡ 0
unfolding bit
bit-zero zero = refl
bit-zero (suc i) = bit-zero i

-- The digits of `1 << d`.
pub bit_two-pow : (i d : ℕ) → bit i (2 ^ d) ≡ (if i == d then 1 else 0)
unfolding bit
bit_two-pow zero zero = refl
bit_two-pow zero (suc d) = ground (arith, pow-suc 2 d)
bit_two-pow (suc i) zero = ground (arith, bit-zero i)
bit_two-pow (suc i) (suc d) = rw half-two-pow (ground (arith, bit_two-pow i d))

-- A left shift moves each digit up and fills with zeros.
pub bit-shift : (s i x : ℕ) → bit i (x * 2 ^ s) ≡ (if ltb i s then 0 else bit (i - s) x)
unfolding bit
bit-shift zero i x = ground (arith, sub-zero i, mul-one x)
bit-shift (suc s) zero x = ground (arith, mul-two-pow-suc x s)
bit-shift (suc s) (suc i) x =
    let half : x * 2 ^ suc s / 2 ≡ x * 2 ^ s = omega (arith, mul-two-pow-suc x s) in
    rw (half, suc-sub-suc) (ground (arith, bit-shift s i x))

pub mod_two-pow-suc : (w x : ℕ) → x % 2 ^ suc w ≡ 2 * (x / 2 % 2 ^ w) + x % 2
mod_two-pow-suc w x =
    let m = 2 ^ w in
    let r = x / 2 % m in
    let pos : 1 ≤ m = one-le-pow w 2 (omega arith) in
    let low : r < m = mod-lt (x / 2) pos in
    let split : x ≡ x / 2 / m * 2 ^ suc w + (2 * r + x % 2) =
      omega (arith, div-add-mod' (x / 2) m, mul-two-pow-suc (x / 2 / m) w) in
    ap (λ t. t % 2 ^ suc w) split
    ∙ mul-add-mod_self_right (x / 2 / m) (2 ^ suc w) (2 * r + x % 2)
    ∙ mod-eq_of_lt (omega (arith, pow-suc 2 w))

-- Keeping the low `w` bits drops the digits above.
pub bit-mod : (w i x : ℕ) → bit i (x % 2 ^ w) ≡ (if ltb i w then bit i x else 0)
unfolding bit
bit-mod zero i x = ground (arith, bit-zero i, mod-one x)
bit-mod (suc w) zero x = ground (arith, mod_two-pow-suc w x)
bit-mod (suc w) (suc i) x =
    let half : x % 2 ^ suc w / 2 ≡ x / 2 % 2 ^ w = omega (arith, mod_two-pow-suc w x) in
    rw half (ground (arith, bit-mod w i (x / 2)))

digit_cancel : (p q r : ℕ) → p ≤ 1 → q ≤ 1 → r ≤ 1 → differ p q ≡ differ p r → q ≡ r
digit_cancel zero q r hp hq hr h = h
digit_cancel (suc zero) zero zero hp hq hr h = refl
digit_cancel (suc zero) zero (suc zero) hp hq hr h = omega arith
digit_cancel (suc zero) (suc zero) zero hp hq hr h = omega arith
digit_cancel (suc zero) (suc zero) (suc zero) hp hq hr h = refl
digit_cancel (suc zero) (suc (suc q)) r hp hq hr h = absurd (omega arith)
digit_cancel (suc zero) q (suc (suc r)) hp hq hr h = absurd (omega arith)
digit_cancel (suc (suc p)) q r hp hq hr h = absurd (omega arith)

pub differ_bound : (p q : ℕ) → p ≤ 1 → q ≤ 1 → differ p q ≤ 1
differ_bound zero q hp hq = hq
differ_bound (suc zero) zero hp hq = omega arith
differ_bound (suc zero) (suc q) hp hq = omega arith
differ_bound (suc (suc p)) q hp hq = absurd (omega arith)

-- `a ^ b` determines `b`.
xor_cancel_fuel : (n a b c : ℕ) → a ≤ n → b ≤ n → c ≤ n → bit_xor a b ≡ bit_xor a c → b ≡ c
xor_cancel_fuel zero a b c ha hb hc h = omega arith
xor_cancel_fuel (suc n) a b c ha hb hc h =
    let p = differ_bound (a % 2) (b % 2) (omega arith) (omega arith) in
    let q = differ_bound (a % 2) (c % 2) (omega arith) (omega arith) in
    let low =
      digit_cancel (a % 2) (b % 2) (c % 2) (omega arith) (omega arith) (omega arith)
        (omega (arith, bit_xor_halves a b, bit_xor_halves a c)) in
    let high =
      xor_cancel_fuel n (a / 2) (b / 2) (c / 2) (omega arith) (omega arith) (omega arith)
        (omega (arith, bit_xor_halves a b, bit_xor_halves a c)) in
    omega arith

pub bit_xor_cancel : (a b c : ℕ) → bit_xor a b ≡ bit_xor a c → b ≡ c
bit_xor_cancel a b c = xor_cancel_fuel (a + b + c) a b c (omega arith) (omega arith) (omega arith)

-- `x & x`, and what clearing the lowest digit does below and at a digit.
bit_and_self_fuel : (n x : ℕ) → x ≤ n → bit_and x x ≡ x
bit_and_self_fuel n zero h = refl
bit_and_self_fuel zero (suc x) h = absurd (omega arith)
bit_and_self_fuel (suc n) (suc x) h =
    omega (arith, bit_and_halves (suc x) (suc x), bit_and_self_fuel n (suc x / 2) (omega arith))

pub clear_lowest_odd : (y : ℕ) → bit_and (2 * y + 1) (2 * y + 1 - 1) ≡ 2 * y
clear_lowest_odd y =
    let low : (2 * y + 1) / 2 ≡ y = omega arith in
    let high : (2 * y + 1 - 1) / 2 ≡ y = omega arith in
    omega (
      arith,
      bit_and_halves (2 * y + 1) (2 * y + 1 - 1),
      ap₂ bit_and low high,
      bit_and_self_fuel y y (omega arith),
    )

pub clear_lowest_even : (y : ℕ) → 0 < y → bit_and (2 * y) (2 * y - 1) ≡ 2 * bit_and y (y - 1)
clear_lowest_even y h =
    let low : 2 * y / 2 ≡ y = omega arith in
    let high : (2 * y - 1) / 2 ≡ y - 1 = omega arith in
    omega (arith, bit_and_halves (2 * y) (2 * y - 1), ap₂ bit_and low high)
