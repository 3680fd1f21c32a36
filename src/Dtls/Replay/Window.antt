-- ===== src/Dtls/Replay/Window.antt =====
-- The bitmap implements the set of marked numbers, cut off 64 below the highest one.
use krabitls_rs.Base.{
  ℕ, zero, suc, ◌-◌, ◌*◌, ◌^◌, ◌≤◌, ◌<◌, ◌≡◌, refl, Bool, true, false, not, ◌||◌, ltb, leb, ◌==◌,
  if◌then◌else◌, max, bit_or, List, [], ◌∷◌, arith, Bool-cases, inl, inr,
}
use krabitls_rs.Base.Bits.{
  bit, bit-bit_or, bit_and_single, bit_two-pow, bit-zero, bit-shift, bit-mod,
}
use krabitls_rs.Dtls.Replay.{ReplayWindow, new, accepts, mark, window, shl64}
use native.Mathlib.Nat.{one-le-pow}

-- The window after a history of marks, the newest first.
unfoldable pub window_of : List ℕ → ReplayWindow
window_of [] = new
window_of (s ∷ history) = mark (window_of history) s

unfoldable pub contains : ℕ → List ℕ → Bool
contains s [] = false
contains s (x ∷ xs) = s == x || contains s xs

unfoldable pub max_of : List ℕ → ℕ
max_of [] = 0
max_of (x ∷ xs) = max (max_of xs) x

-- The specification: a number is fresh if nothing was marked, if it is above all marks, or if it
-- is less than 64 below the highest mark and was not marked.
unfoldable pub is_fresh : List ℕ → ℕ → Bool
is_fresh [] s = true
is_fresh (x ∷ xs) s =
    let top = max_of (x ∷ xs) in
    if ltb top s then true else if leb window (top - s) then false else not (contains s (x ∷ xs))

abbrev is_nonempty : List ℕ → Bool
is_nonempty [] = false
is_nonempty (x ∷ xs) = true

record Represents (w : ReplayWindow) (history : List ℕ) : Type 0 where
  top : w.highest ≡ max_of history
  any : w.seen_any ≡ is_nonempty history
  marks :
      (d : ℕ)
      → d < window
      → d ≤ w.highest
      → bit d w.bitmap ≡ (if contains (w.highest - d) history then 1 else 0)

pub contains-le-max_of : (s : ℕ) (history : List ℕ) → contains s history ≡ true → s ≤ max_of history
unfolding contains max_of
contains-le-max_of s [] h = absurd (ground arith)
contains-le-max_of s (x ∷ xs) h = ground (arith, contains-le-max_of s xs)

above-contains : (s : ℕ) (history : List ℕ) → max_of history < s → contains s history ≡ false
above-contains s history h = elim (Bool-cases (contains s history)) [
  | inl yes' ↦ absurd (omega (arith, contains-le-max_of s history yes'))
  | inr no' ↦ no'
]

digit_one : (d : ℕ) → bit d 1 ≡ (if d == 0 then 1 else 0)
digit_one d = bit_two-pow d 0

first_mark : (s d : ℕ) → d ≤ s → bit d 1 ≡ (if contains (s - d) (s ∷ []) then 1 else 0)
unfolding contains
first_mark s d h = ground (arith, digit_one d)

shl64_digit :
    (x shift d : ℕ)
    → d < window
    → bit d (shl64 x shift) ≡ (if ltb d shift then 0 else bit (d - shift) x)
shl64_digit x shift d h = ground (arith, bit-mod 64 d (x * 2 ^ shift), bit-shift shift d x)

module _ (w : ReplayWindow) (history : List ℕ) (s : ℕ) (r : Represents w history) where
  -- The digits of the bitmap that slides by `s - w.highest`.
  slide_digit :
      (d : ℕ)
      → w.highest < s
      → d < window
      → d ≤ s
      → bit d (bit_or (if leb window (s - w.highest) then 0 else shl64 w.bitmap (s - w.highest)) 1)
        ≡ (if contains (s - d) (s ∷ history) then 1 else 0)
  unfolding contains
  slide_digit d new_top small le = ground (
    arith,
    bit-bit_or d (if leb window (s - w.highest) then 0 else shl64 w.bitmap (s - w.highest)) 1,
    digit_one d,
    bit-zero d,
    shl64_digit w.bitmap (s - w.highest) d small,
    r.top,
    r.marks (d - (s - w.highest)),
    above-contains (s - d) history,
  )

  set_digit :
      (d : ℕ)
      → s ≤ w.highest
      → d < window
      → d ≤ w.highest
      → bit d
          (if ltb (w.highest - s) window then bit_or w.bitmap (2 ^ (w.highest - s)) else w.bitmap)
        ≡ (if contains (w.highest - d) (s ∷ history) then 1 else 0)
  unfolding contains
  set_digit d old small le =
      ground (
        arith,
        bit-bit_or d w.bitmap (2 ^ (w.highest - s)),
        bit_two-pow d (w.highest - s),
        r.marks d,
      )

mark-Represents :
    (w : ReplayWindow) (history : List ℕ) (s : ℕ)
    → Represents w history
    → Represents (mark w s) (s ∷ history)
unfolding mark max_of
mark-Represents w [] s r = record {
  top = ground (arith, r.any);
  any = ground (arith, r.any);
  marks = λ d small le. ground (arith, r.any, first_mark s d);
}
mark-Represents w (x ∷ xs) s r = record {
  top = ground (arith, r.any, r.top);
  any = ground (arith, r.any);
  marks =
      λ d small le. ground (arith, r.any, slide_digit w (x ∷ xs) s r d, set_digit w (x ∷ xs) s r d);
}

new-Represents : Represents new []
unfolding new contains max_of
new-Represents = record { top = refl; any = refl; marks = λ d small le. bit-zero d }

window_of-Represents : (history : List ℕ) → Represents (window_of history) history
unfolding window_of
window_of-Represents [] = new-Represents
window_of-Represents (s ∷ history) =
    mark-Represents (window_of history) history s (window_of-Represents history)

digit_test : (b p : ℕ) → 1 ≤ p → (b * p == 0) ≡ (b == 0)
digit_test zero p h = ground arith
digit_test (suc b) p h = grind arith

-- The window accepts exactly the numbers that are fresh for the history of its marks.
pub accepts-window_of :
    (history : List ℕ) (s : ℕ) → accepts (window_of history) s ≡ is_fresh history s
unfolding accepts is_fresh
accepts-window_of [] s = unfold window_of new in refl
accepts-window_of (x ∷ xs) s =
    let r = window_of-Represents (x ∷ xs) in
    let w = window_of (x ∷ xs) in
    let d = w.highest - s in
    ground (
      arith,
      r.top,
      r.any,
      r.marks d,
      bit_and_single d w.bitmap,
      digit_test (bit d w.bitmap) (2 ^ d) (one-le-pow d 2 (omega arith)),
    )

-- A number that was marked is refused for good, whatever was marked after it.
pub contains-accepts :
    (history : List ℕ) (s : ℕ) → contains s history ≡ true → accepts (window_of history) s ≡ false
contains-accepts [] s h = unfold contains in cc
contains-accepts (x ∷ xs) s h =
    rw accepts-window_of (unfold is_fresh in ground (arith, contains-le-max_of s (x ∷ xs) h))
