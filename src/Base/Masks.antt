-- ===== src/Base/Masks.antt =====
-- Masking with `2 ^ w - 1` and its complement, and `|` of disjoint parts.
use Prim.Native.Nat.{
  ℕ, zero, suc, ◌+◌, ◌-◌, ◌*◌, ◌/◌, ◌%◌, ◌^◌, ◌≤◌, ◌<◌, bit_and, bit_or, bit_xor, differ,
}
use native.Mathlib.Nat.{pow-suc, one-le-pow, mod-one, mul-one, mod-eq_of_lt}
use mathlib.Core.Path.{◌≡◌, refl, ap, ap₂, ◌∙◌}
use native.Mathlib.Omega.{arith}
use krabitls_rs.Base.Bits.{
  bit_or_halves, bit_and_halves, bit_xor_halves, bit_and-zero, differ_bound, mul-two-pow-suc,
  mod_two-pow-suc,
}

-- `x & (2 ^ w - 1)` keeps the low `w` digits.
pub bit_and-low : (w x : ℕ) → bit_and x (2 ^ w - 1) ≡ x % 2 ^ w
bit_and-low zero x = omega (arith, bit_and-zero x, mod-one x)
bit_and-low (suc w) x =
    let positive : 1 ≤ 2 ^ w = one-le-pow w 2 (omega arith) in
    let half : (2 ^ suc w - 1) / 2 ≡ 2 ^ w - 1 = omega (arith, pow-suc 2 w) in
    let odd : (2 ^ suc w - 1) % 2 ≡ 1 = omega (arith, pow-suc 2 w) in
    let above = ap (bit_and (x / 2)) half ∙ bit_and-low w (x / 2) in
    omega (arith, bit_and_halves x (2 ^ suc w - 1), mod_two-pow-suc w x)

-- `x & !(2 ^ w - 1)`, in a word of `m` digits, clears the low `w` digits.
pub bit_and-high : (m w x : ℕ) → w ≤ m → x < 2 ^ m → bit_and x (2 ^ m - 2 ^ w) ≡ x - x % 2 ^ w
bit_and-high m zero x shorter fits = bit_and-low m x ∙ omega (arith, mod-eq_of_lt fits, mod-one x)
bit_and-high zero (suc w) x shorter fits = absurd (omega arith)
bit_and-high (suc m) (suc w) x shorter fits =
    let half : (2 ^ suc m - 2 ^ suc w) / 2 ≡ 2 ^ m - 2 ^ w =
      omega (arith, pow-suc 2 w, pow-suc 2 m) in
    let even : (2 ^ suc m - 2 ^ suc w) % 2 ≡ 0 = omega (arith, pow-suc 2 w, pow-suc 2 m) in
    let above =
      ap (bit_and (x / 2)) half
      ∙ bit_and-high m w (x / 2) (omega arith) (omega (arith, pow-suc 2 m)) in
    omega (arith, bit_and_halves x (2 ^ suc m - 2 ^ suc w), mod_two-pow-suc w x)

pub bit_or-none : (bound x : ℕ) → x ≤ bound → bit_or x 0 ≡ x
bit_or-none bound zero small = refl
bit_or-none zero (suc x) small = absurd (omega arith)
bit_or-none (suc bound) (suc x) small =
    let rest = bit_or-none bound (suc x / 2) (omega arith) in omega (arith, bit_or_halves (suc x) 0)

pub bit_or-disjoint : (w y r : ℕ) → r < 2 ^ w → bit_or (y * 2 ^ w) r ≡ y * 2 ^ w + r
bit_or-disjoint zero y r fits =
    let none_low : r ≡ 0 = omega arith in
    ap₂ bit_or (mul-one y) none_low ∙ bit_or-none y y (omega arith) ∙ omega (arith, mul-one y)
bit_or-disjoint (suc w) y r fits =
    let half : y * 2 ^ suc w / 2 ≡ y * 2 ^ w = omega (arith, mul-two-pow-suc y w) in
    let above =
      ap (λ t. bit_or t (r / 2)) half ∙ bit_or-disjoint w y (r / 2) (omega (arith, pow-suc 2 w)) in
    omega (arith, bit_or_halves (y * 2 ^ suc w) r, mul-two-pow-suc y w)

-- Exclusive or with the same number twice.
digit_twice : (p q : ℕ) → p ≤ 1 → q ≤ 1 → differ (differ p q) q ≡ p
digit_twice zero zero hp hq = refl
digit_twice zero (suc zero) hp hq = refl
digit_twice (suc zero) zero hp hq = refl
digit_twice (suc zero) (suc zero) hp hq = refl
digit_twice (suc (suc p)) q hp hq = absurd (omega arith)
digit_twice p (suc (suc q)) hp hq = absurd (omega arith)

xor_twice_fuel : (bound x y : ℕ) → x ≤ bound → y ≤ bound → bit_xor (bit_xor x y) y ≡ x
xor_twice_fuel zero x y hx hy =
    let a : x ≡ 0 = omega arith in
    let b : y ≡ 0 = omega arith in ap₂ (λ s t. bit_xor (bit_xor s t) t) a b ∙ omega arith
xor_twice_fuel (suc bound) x y hx hy =
    let low = differ_bound (x % 2) (y % 2) (omega arith) (omega arith) in
    let half : bit_xor x y / 2 ≡ bit_xor (x / 2) (y / 2) = omega (arith, bit_xor_halves x y) in
    let digit : bit_xor x y % 2 ≡ differ (x % 2) (y % 2) = omega (arith, bit_xor_halves x y) in
    let above =
      ap (λ t. bit_xor t (y / 2)) half
      ∙ xor_twice_fuel bound (x / 2) (y / 2) (omega arith) (omega arith) in
    let below =
      ap (λ t. differ t (y % 2)) digit ∙ digit_twice (x % 2) (y % 2) (omega arith) (omega arith) in
    omega (arith, bit_xor_halves (bit_xor x y) y)

pub bit_xor_twice : (x y : ℕ) → bit_xor (bit_xor x y) y ≡ x
bit_xor_twice x y = xor_twice_fuel (x + y) x y (omega arith) (omega arith)
