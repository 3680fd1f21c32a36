-- ===== src/Dtls/Reassembly/Flight.antt =====
-- When a flight counts as complete.
use krabitls_rs.Base.{
  ℕ, zero, suc, ◌+◌, ◌-◌, ◌≤◌, ◌<◌, ◌≡◌, ◌==◌, ◌&&◌, ◌++◌, refl, sym, ap, ap₂, subst, ◌∙◌, true,
  List, [], ◌∷◌, some, arith, ◌↔◌, inl, inr, All, Option, Bool-cases, Option-cases,
}
use krabitls_rs.Dtls.Reassembly.{
  Slot, Reassembler, is_whole, is_complete, find_finished, any_complete, all_complete,
  flight_complete,
}

all_complete→any :
    (count first q : ℕ) (slots : List Slot)
    → all_complete count first slots ≡ true
    → first ≤ q
    → q < first + count
    → any_complete q slots ≡ true
unfolding all_complete
all_complete→any zero first q slots e lo hi = absurd (omega arith)
all_complete→any (suc count) first q slots e lo hi =
    ground (arith, all_complete→any count (suc first) q slots)

any→all_complete :
    (count first : ℕ) (slots : List Slot)
    → ((q : ℕ) → first ≤ q → q < first + count → any_complete q slots ≡ true)
    → all_complete count first slots ≡ true
unfolding all_complete
any→all_complete zero first slots all = refl
any→all_complete (suc count) first slots all =
    let rest =
      any→all_complete count (suc first) slots (λ q lo hi. all q (omega arith) (omega arith)) in
    ground (arith, all first (omega arith) (omega arith), rest)

-- A message of which all bytes were received: the one range of its slot is the whole body.
abbrev pub IsReceived : Slot → Type 0
IsReceived s = s.ranges ≡ (0, s.len) ∷ []

is_whole-ranges :
    (len : ℕ) (ranges : List (ℕ × ℕ)) → (is_whole len ranges ≡ true) ↔ (ranges ≡ (0, len) ∷ [])
unfolding is_whole
is_whole-ranges len [] = (λ h. absurd (cc h), λ h. absurd (cc h))
is_whole-ranges len ((s, e) ∷ []) = (
  λ h.
      let s_eq : s ≡ 0 = ground (arith, h) in
      let e_eq : e ≡ len = ground (arith, h) in ap₂ (λ x y. (x, y) ∷ []) s_eq e_eq,
  λ h. subst (λ r. is_whole len r ≡ true) (sym h) (ground arith),
)
is_whole-ranges len (r ∷ q ∷ ranges) = (λ h. absurd (cc h), λ h. absurd (cc h))

is_complete-IsReceived : (s : Slot) → (is_complete s ≡ true) ↔ IsReceived s
unfolding is_complete
is_complete-IsReceived s = is_whole-ranges s.len s.ranges

-- A slot of the list.
abbrev pub IsAmong : Slot → List Slot → Type 0
IsAmong s slots = (before : List Slot) × (after : List Slot) × (slots ≡ before ++ s ∷ after)

abbrev pub HasReceived : ℕ → List Slot → Type 0
HasReceived q slots = (s : Slot) × IsAmong s slots × (s.seq ≡ q) × IsReceived s

any_complete→HasReceived :
    (q : ℕ) (slots : List Slot) → any_complete q slots ≡ true → HasReceived q slots
unfolding any_complete
any_complete→HasReceived q [] h = absurd (cc h)
any_complete→HasReceived q (s ∷ slots) h = elim (Bool-cases (s.seq == q && is_complete s)) [
  | inl here ↦
      let same : s.seq ≡ q = ground (arith, here) in
      let done : is_complete s ≡ true = ground (arith, here) in
      (s, ([], slots, refl), same, (is_complete-IsReceived s).0 done)
  | inr other ↦
      let later : any_complete q slots ≡ true = sym (rw other refl) ∙ h in
      let (t, (before, after, split), same, done) = any_complete→HasReceived q slots later in
      (t, (s ∷ before, after, ap (λ l. s ∷ l) split), same, done)
]

any_complete-append :
    (q : ℕ) (before : List Slot) (s : Slot) (after : List Slot)
    → s.seq ≡ q
    → is_complete s ≡ true
    → any_complete q (before ++ s ∷ after) ≡ true
unfolding any_complete
any_complete-append q [] s after same done = ground arith
any_complete-append q (t ∷ before) s after same done =
    let later = any_complete-append q before s after same done in ground (arith, later)

HasReceived→any_complete :
    (q : ℕ) (slots : List Slot) → HasReceived q slots → any_complete q slots ≡ true
HasReceived→any_complete q slots (s, (before, after, split), same, done) =
    subst (λ l. any_complete q l ≡ true) (sym split)
      (any_complete-append q before s after same ((is_complete-IsReceived s).1 done))

-- A received message of the finishing type.
abbrev pub IsLast : ℕ → Slot → Type 0
IsLast finished_type s = (s.msg_type ≡ finished_type) × IsReceived s

-- The first received message of the finishing type.
abbrev pub IsFirstLast : ℕ → List Slot → Slot → Type 0
IsFirstLast finished_type slots fin =
    (before : List Slot) × (after : List Slot) × (slots ≡ before ++ fin ∷ after)
    × IsLast finished_type fin
    × All (λ s. ¬ IsLast finished_type s) before

find_finished→IsFirstLast :
    (finished_type : ℕ) (slots : List Slot) (fin : Slot)
    → find_finished finished_type slots ≡ some fin
    → IsFirstLast finished_type slots fin
unfolding find_finished
find_finished→IsFirstLast finished_type [] fin h = absurd (cc h)
find_finished→IsFirstLast finished_type (s ∷ slots) fin h =
    elim (Bool-cases (s.msg_type == finished_type && is_complete s)) [
      | inl here ↦
          let found : ◌≡◌ {A = Option Slot} (some s) (some fin) = sym (rw here refl) ∙ h in
          let same : s ≡ fin = cc found in
          let kind : s.msg_type ≡ finished_type = ground (arith, here) in
          let done : is_complete s ≡ true = ground (arith, here) in
          subst (λ t. IsFirstLast finished_type (s ∷ slots) t) same
            ([], slots, refl, (kind, (is_complete-IsReceived s).0 done), tt)
      | inr other ↦
          let later : find_finished finished_type slots ≡ some fin = sym (rw other refl) ∙ h in
          let (before, after, split, last, none_before) =
            find_finished→IsFirstLast finished_type slots fin later in
          let not_here : ¬ IsLast finished_type s = λ (kind, done).
            let whole = (is_complete-IsReceived s).1 done in
            absurd (ground (arith, other, kind, whole)) in
          (s ∷ before, after, ap (λ l. s ∷ l) split, last, (not_here, none_before))
    ]

find_finished-append :
    (finished_type : ℕ) (before : List Slot) (fin : Slot) (after : List Slot)
    → IsLast finished_type fin
    → All (λ s. ¬ IsLast finished_type s) before
    → find_finished finished_type (before ++ fin ∷ after) ≡ some fin
unfolding find_finished
find_finished-append finished_type [] fin after (kind, done) none_before =
    let whole = (is_complete-IsReceived fin).1 done in
    let here : (fin.msg_type == finished_type && is_complete fin) ≡ true =
      ground (arith, kind, whole) in
    rw here refl
find_finished-append finished_type (s ∷ before) fin after last (not_here, none_before) =
    let later = find_finished-append finished_type before fin after last none_before in
    elim (Bool-cases (s.msg_type == finished_type && is_complete s)) [
      | inl here ↦
          let kind : s.msg_type ≡ finished_type = ground (arith, here) in
          let done : is_complete s ≡ true = ground (arith, here) in
          absurd (not_here (kind, (is_complete-IsReceived s).0 done))
      | inr other ↦ rw other later
    ]

-- A flight that starts at `base_seq` is complete exactly when, of its messages received whole, the
-- first slot of the finishing type is not numbered before `base_seq`, and each number from
-- `base_seq` up to its own has a message received whole.
pub flight_complete_iff :
    (r : Reassembler) (base_seq finished_type : ℕ)
    → (flight_complete r base_seq finished_type ≡ true) ↔ (
        (fin : Slot) × IsFirstLast finished_type r.slots fin
        × (base_seq ≤ fin.seq)
        × ((q : ℕ) → base_seq ≤ q → q ≤ fin.seq → HasReceived q r.slots))
unfolding flight_complete
flight_complete_iff r base_seq finished_type = (
  λ e. elim (Option-cases (find_finished finished_type r.slots)) [
    | inl absent ↦ absurd (ground arith)
    | inr (fin, found) ↦
        let low : base_seq ≤ fin.seq = ground arith in
        let all : all_complete (fin.seq - base_seq + 1) base_seq r.slots ≡ true = ground arith in
        (
          fin,
          find_finished→IsFirstLast finished_type r.slots fin found,
          low,
          λ q lo hi.
              any_complete→HasReceived q r.slots
                (all_complete→any (fin.seq - base_seq + 1) base_seq q r.slots all lo (omega arith)),
        )
  ],
  λ (fin, (before, after, split, last, none_before), low, each).
      let found : find_finished finished_type r.slots ≡ some fin =
        ap (find_finished finished_type) split
        ∙ find_finished-append finished_type before fin after last none_before in
      let all =
        any→all_complete (fin.seq - base_seq + 1) base_seq r.slots
          (λ q lo hi. HasReceived→any_complete q r.slots (each q lo (omega arith))) in
      ground (arith, found, all),
)
