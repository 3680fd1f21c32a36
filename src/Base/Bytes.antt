-- ===== src/Base/Bytes.antt =====
-- Bytes, slices of byte strings, and Rust's `to_be_bytes` and `from_be_bytes` at every width.
use Prim.Native.Nat.{ℕ, zero, suc, ◌+◌, ◌-◌, ◌*◌, ◌/◌, ◌%◌, ◌^◌, ◌≤◌, ◌<◌}
use native.Mathlib.Nat.{
  pow-suc, one-le-pow, mod-lt, mod-eq_of_lt, div-add-mod', mul-add-mod_self_right, mod-one,
  mul-le-mul_right, mul-add-div_right, div-eq_of_lt,
}
use mathlib.Core.Path.{◌≡◌, refl, ap, ap₂, ◌∙◌}
use mathlib.Core.List.{List, [], ◌∷◌, ◌++◌}
use mathlib.Core.Bool.{◌&&◌}
use mathlib.Core.Option.{Option, none, some}
use native.Mathlib.Omega.{arith}
use krabitls_rs.Base.Tests.{leb, if◌then◌else◌}
use krabitls_rs.Base.Lists.{
  length, get_or, take, drop, All, drop-append, take-append, length-append,
}

abbrev pub IsByte : ℕ → Type 0
IsByte b = b < 256

abbrev pub IsBytes : List ℕ → Type 0
IsBytes = All IsByte

-- `xs[i]`, for an index that the code has checked.
abbrev pub byte_at : List ℕ → ℕ → ℕ
byte_at xs i = get_or xs i 0

-- `&xs[a..b]`, for bounds that the code has checked.
abbrev pub slice : ℕ → ℕ → List ℕ → List ℕ
slice a b xs = take (b - a) (drop a xs)

-- `xs.get(a..b)`
abbrev pub get_range : ℕ → ℕ → List ℕ → Option (List ℕ)
get_range a b xs = if leb a b && leb b (length xs) then some (slice a b xs) else none

-- `get` at the seams of an appended list.
pub get_range-append :
    (front mid back : List ℕ) (a b : ℕ)
    → a ≡ length front
    → b ≡ a + length mid
    → get_range a b (front ++ (mid ++ back)) ≡ some mid
get_range-append front mid back a b ha hb = ground (
  arith,
  drop-append front (mid ++ back) a,
  take-append mid back (b - a),
  length-append front (mid ++ back),
  length-append mid back,
)

-- A slice at the seams of an appended list.
pub slice-append :
    (front mid back : List ℕ) (a b : ℕ)
    → a ≡ length front
    → b ≡ a + length mid
    → slice a b (front ++ (mid ++ back)) ≡ mid
slice-append front mid back a b ha hb =
    ap (take (b - a)) (drop-append front (mid ++ back) a ha)
    ∙ take-append mid back (b - a) (omega arith)

-- The `n` bytes of `v`, the most significant first; higher bytes are cut off.
abbrev pub to_be_bytes : ℕ → ℕ → List ℕ
to_be_bytes zero v = []
to_be_bytes (suc n) v = (v / 256 ^ n % 256) ∷ to_be_bytes n v

pub from_be_acc : ℕ → List ℕ → ℕ
from_be_acc acc [] = acc
from_be_acc acc (b ∷ bs) = from_be_acc (acc * 256 + b) bs

unfoldable pub from_be_bytes : List ℕ → ℕ
unfolding from_be_acc
from_be_bytes bs = from_be_acc 0 bs

pub length-to_be_bytes : (n v : ℕ) → length (to_be_bytes n v) ≡ n
length-to_be_bytes zero v = refl
length-to_be_bytes (suc n) v = ap suc (length-to_be_bytes n v)

pub to_be_bytes-IsBytes : (n v : ℕ) → IsBytes (to_be_bytes n v)
to_be_bytes-IsBytes zero v = tt
to_be_bytes-IsBytes (suc n) v = (omega arith, to_be_bytes-IsBytes n v)

mod-mul : (v m : ℕ) → 1 ≤ m → v % (m * 256) ≡ v / m % 256 * m + v % m
mod-mul v m pos =
    let d = v / m in
    let low : v % m < m = mod-lt v pos in
    let top : d % 256 < 256 = omega arith in
    let split : v ≡ d / 256 * (m * 256) + (d % 256 * m + v % m) =
      omega (arith, div-add-mod' v m, ap (λ (t : ℕ). t * m) (div-add-mod' d 256)) in
    ap (λ t. t % (m * 256)) split
    ∙ mul-add-mod_self_right (d / 256) (m * 256) (d % 256 * m + v % m)
    ∙ mod-eq_of_lt (grind arith)

from_be_acc-to_be_bytes :
    (n v acc : ℕ) → from_be_acc acc (to_be_bytes n v) ≡ acc * 256 ^ n + v % 256 ^ n
unfolding from_be_acc
from_be_acc-to_be_bytes zero v acc = omega (arith, mod-one v)
from_be_acc-to_be_bytes (suc n) v acc = omega (
  arith,
  from_be_acc-to_be_bytes n v (acc * 256 + v / 256 ^ n % 256),
  mod-mul v (256 ^ n) (one-le-pow n 256 (omega arith)),
  ap (λ (t : ℕ). v % t) (pow-suc 256 n),
  ap (λ (t : ℕ). acc * t) (pow-suc 256 n),
)

-- Reading back `n` big-endian bytes gives the value modulo 256 ^ n.
pub from_be_bytes-to_be_bytes : (n v : ℕ) → v < 256 ^ n → from_be_bytes (to_be_bytes n v) ≡ v
unfolding from_be_bytes
from_be_bytes-to_be_bytes n v h = omega (arith, from_be_acc-to_be_bytes n v 0, mod-eq_of_lt h)

-- A leading zero byte adds nothing.
pub from_be_bytes-zero : (bs : List ℕ) → from_be_bytes (0 ∷ bs) ≡ from_be_bytes bs
unfolding from_be_bytes
from_be_bytes-zero bs = refl

from_be_acc-lt :
    (acc : ℕ) (bs : List ℕ) → IsBytes bs → from_be_acc acc bs < (acc + 1) * 256 ^ length bs
unfolding from_be_acc
from_be_acc-lt acc [] h = omega arith
from_be_acc-lt acc (b ∷ bs) h = omega (
  arith,
  from_be_acc-lt (acc * 256 + b) bs h.1,
  mul-le-mul_right {m = acc * 256 + b + 1} {n = (acc + 1) * 256} (256 ^ length bs) (omega arith),
  ap (λ (t : ℕ). (acc + 1) * t) (pow-suc 256 (length bs)),
)

pub from_be_bytes-lt : (bs : List ℕ) → IsBytes bs → from_be_bytes bs < 256 ^ length bs
unfolding from_be_bytes
from_be_bytes-lt bs h = omega (arith, from_be_acc-lt 0 bs h)

from_be_acc-split :
    (acc : ℕ) (bs : List ℕ) → from_be_acc acc bs ≡ acc * 256 ^ length bs + from_be_acc 0 bs
unfolding from_be_acc
from_be_acc-split acc [] = omega arith
from_be_acc-split acc (b ∷ bs) = omega (
  arith,
  from_be_acc-split (acc * 256 + b) bs,
  from_be_acc-split (0 * 256 + b) bs,
  ap (λ (t : ℕ). acc * t) (pow-suc 256 (length bs)),
)

to_be_bytes-from_be_acc :
    (acc : ℕ) (bs : List ℕ) → IsBytes bs → to_be_bytes (length bs) (from_be_acc acc bs) ≡ bs
unfolding from_be_acc
to_be_bytes-from_be_acc acc [] h = refl
to_be_bytes-from_be_acc acc (b ∷ bs) h =
    let p = 256 ^ length bs in
    let low : from_be_acc 0 bs < p = omega (arith, from_be_acc-lt 0 bs h.1) in
    let top : from_be_acc (acc * 256 + b) bs / p ≡ acc * 256 + b =
      ap (λ t. t / p) (from_be_acc-split (acc * 256 + b) bs)
      ∙ mul-add-div_right (one-le-pow (length bs) 256 (omega arith)) (acc * 256 + b)
          (from_be_acc 0 bs)
      ∙ omega (arith, div-eq_of_lt low) in
    let digit : from_be_acc (acc * 256 + b) bs / p % 256 ≡ b =
      ap (λ t. t % 256) top ∙ omega (arith, h.0) in
    ap₂ ◌∷◌ digit (to_be_bytes-from_be_acc (acc * 256 + b) bs h.1)

-- Writing back what was read gives the bytes again.
pub to_be_bytes-from_be_bytes :
    (bs : List ℕ) → IsBytes bs → to_be_bytes (length bs) (from_be_bytes bs) ≡ bs
unfolding from_be_bytes
to_be_bytes-from_be_bytes bs h = to_be_bytes-from_be_acc 0 bs h
