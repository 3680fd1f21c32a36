-- ===== src/Dtls/Replay/Once.antt =====
-- The gate that the receive loop of krabitls/src/dtls/client.rs puts before the payload:
-- a record is dropped unless its number is accepted, and its number is marked before it is used.
use krabitls_rs.Base.{
  ℕ, ◌+◌, ◌≤◌, ◌<◌, ◌≡◌, refl, true, ◌==◌, if◌then◌else◌, List, [], ◌∷◌, Option, none, some, arith,
}
use native.Mathlib.Nat.{zero-max, max-eq_right, le_of_lt}
use krabitls_rs.Dtls.Replay.{ReplayWindow, new, accepts, mark}
use krabitls_rs.Dtls.Replay.Window.{
  window_of, contains, max_of, is_fresh, accepts-window_of, contains-accepts,
}

unfoldable pub admit : ReplayWindow → ℕ → Option ReplayWindow
admit w seq = if accepts w seq then some (mark w seq) else none

-- The numbers of the records that pass the gate, in the order of arrival.
unfoldable pub delivered : ReplayWindow → List ℕ → List ℕ
delivered w [] = []
delivered w (s ∷ seqs) = elim (admit w s) [
  | none ↦ delivered w seqs
  | some w' ↦ s ∷ delivered w' seqs
]

pub count : ℕ → List ℕ → ℕ
count s [] = 0
count s (x ∷ xs) = (if s == x then 1 else 0) + count s xs

-- Each number is above all before it.
abbrev pub IsIncreasing : ℕ → List ℕ → Type 0
IsIncreasing top [] = Unit
IsIncreasing top (x ∷ xs) = (top < x) × IsIncreasing x xs

delivered_step :
    (w : ReplayWindow) (s : ℕ) (seqs : List ℕ)
    → delivered w (s ∷ seqs)
      ≡ (if accepts w s then s ∷ delivered (mark w s) seqs else delivered w seqs)
unfolding delivered admit
delivered_step w s seqs = ground arith

count-delivered_zero :
    (s : ℕ) (seqs history : List ℕ)
    → contains s history ≡ true
    → count s (delivered (window_of history) seqs) ≡ 0
unfolding count contains window_of
count-delivered_zero s [] history h = unfold delivered in refl
count-delivered_zero s (x ∷ xs) history h = ground (
  arith,
  delivered_step (window_of history) x xs,
  contains-accepts history x,
  count-delivered_zero s xs history,
  count-delivered_zero s xs (x ∷ history),
)

count-delivered_le :
    (s : ℕ) (seqs history : List ℕ) → count s (delivered (window_of history) seqs) ≤ 1
unfolding count contains window_of
count-delivered_le s [] history = unfold delivered in omega arith
count-delivered_le s (x ∷ xs) history = ground (
  arith,
  delivered_step (window_of history) x xs,
  count-delivered_zero s xs (x ∷ history),
  count-delivered_le s xs history,
  count-delivered_le s xs (x ∷ history),
)

-- No record number passes the gate twice, in whatever order and however often records arrive.
pub delivered_once : (s : ℕ) (seqs : List ℕ) → count s (delivered new seqs) ≤ 1
unfolding window_of
delivered_once s seqs = count-delivered_le s seqs []

above_fresh : (s : ℕ) (history : List ℕ) → max_of history < s → is_fresh history s ≡ true
unfolding is_fresh
above_fresh s [] h = refl
above_fresh s (x ∷ xs) h = ground arith

unmarked_fresh : (s : ℕ) → is_fresh [] s ≡ true
unfolding is_fresh
unmarked_fresh s = refl

increasing_run :
    (seqs history : List ℕ)
    → IsIncreasing (max_of history) seqs
    → delivered (window_of history) seqs ≡ seqs
unfolding window_of max_of
increasing_run [] history h = unfold delivered in refl
increasing_run (s ∷ seqs) history h = ground (
  arith,
  delivered_step (window_of history) s seqs,
  accepts-window_of history s,
  above_fresh s history,
  increasing_run seqs (s ∷ history) (rw (max-eq_right (le_of_lt h.0)) h.1),
)

-- Records that arrive in order all pass, the first with any number.
delivered_in_order :
    (s : ℕ) (seqs : List ℕ) → IsIncreasing s seqs → delivered new (s ∷ seqs) ≡ s ∷ seqs
unfolding window_of max_of
delivered_in_order s seqs h = ground (
  arith,
  delivered_step new s seqs,
  accepts-window_of [] s,
  unmarked_fresh s,
  increasing_run seqs (s ∷ []) (rw zero-max h),
)
