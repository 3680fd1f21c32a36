-- ===== src/Dtls/Reassembly/Complete.antt =====
-- A message counts as complete exactly when every byte of it was received.
use krabitls_rs.Base.{
  ℕ, suc, ◌≤◌, ◌<◌, ◌≡◌, min, max, true, ◌&&◌, ◌||◌, ltb, leb, List, [], ◌∷◌, ok, arith, ◌↔◌, ◌⊎◌,
  inl, inr, Bool-cases,
}
use krabitls_rs.Dtls.Reassembly.{is_whole, add_range}
use krabitls_rs.Dtls.Reassembly.Ranges.{
  IsSeparated, covers, insert_range, low_uncovered, add_range-insert_range,
  insert_range-IsSeparated, covers-insert_range,
}

-- No range ends behind `len`.
abbrev pub IsBounded : ℕ → List (ℕ × ℕ) → Type 0
IsBounded len [] = Unit
IsBounded len ((s, e) ∷ ranges) = (e ≤ len) × IsBounded len ranges

pub insert_range-IsBounded :
    (len lo hi : ℕ) (ranges : List (ℕ × ℕ))
    → hi ≤ len
    → IsBounded len ranges
    → IsBounded len (insert_range lo hi ranges)
unfolding insert_range
insert_range-IsBounded len lo hi [] h hb = ground arith
insert_range-IsBounded len lo hi ((s, e) ∷ ranges) h hb = ground (
  arith,
  insert_range-IsBounded len lo hi ranges,
  insert_range-IsBounded len (min lo s) (max hi e) ranges,
)

whole_covers :
    (len i : ℕ) (ranges : List (ℕ × ℕ))
    → is_whole len ranges ≡ true
    → i < len
    → covers ranges i ≡ true
unfolding is_whole covers
whole_covers len i [] h p = h
whole_covers len i ((s, e) ∷ []) h p = ground arith
whole_covers len i (r ∷ q ∷ ranges) h p = cc

covered_whole :
    (len : ℕ) (ranges : List (ℕ × ℕ))
    → 0 < len
    → IsSeparated 0 ranges
    → IsBounded len ranges
    → ((i : ℕ) → i < len → covers ranges i ≡ true)
    → is_whole len ranges ≡ true
unfolding is_whole covers
covered_whole len [] pos hs hb all = all 0 pos
covered_whole len ((s, e) ∷ []) pos hs hb all = ground (arith, all 0, all e)
covered_whole len ((s, e) ∷ (s', e') ∷ ranges) pos hs hb all =
    ground (arith, all e, low_uncovered (suc e') e ranges)

whole_pos :
    (len : ℕ) (ranges : List (ℕ × ℕ)) → IsSeparated 0 ranges → is_whole len ranges ≡ true → 0 < len
unfolding is_whole
whole_pos len [] hs h = absurd (ground arith)
whole_pos len ((s, e) ∷ []) hs h = ground arith
whole_pos len (r ∷ q ∷ ranges) hs h = absurd (ground arith)

-- For a separated set of ranges inside `[0, len)`, the code's test says whether all of it is
-- covered. A message of length 0 never passes the test.
pub is_whole_iff :
    (len : ℕ) (ranges : List (ℕ × ℕ))
    → IsSeparated 0 ranges
    → IsBounded len ranges
    → (is_whole len ranges ≡ true) ↔ ((0 < len) × ((i : ℕ) → i < len → covers ranges i ≡ true))
is_whole_iff len ranges hs hb = (
  λ h. (whole_pos len ranges hs h, λ i p. whole_covers len i ranges h p),
  λ h. covered_whole len ranges h.0 hs hb h.1,
)

add_range_result :
    (room start end : ℕ) (ranges ranges' : List (ℕ × ℕ))
    → start ≤ end
    → IsSeparated 0 ranges
    → add_range room ranges start end ≡ ok ranges'
    → ((start < end) × (ranges' ≡ insert_range start end ranges))
      ⊎ ((start ≡ end) × (ranges' ≡ ranges))
add_range_result room start end ranges ranges' h hs e = elim (Bool-cases (leb end start)) [
  | inl empty ↦ inr (ground arith, unfold add_range in ground arith)
  | inr new ↦
      let p : start < end = ground arith in
      inl (p, ground (arith, add_range-insert_range room 0 start end ranges p hs))
]

pub add_range_lem :
    (room len start end : ℕ) (ranges ranges' : List (ℕ × ℕ))
    → start ≤ end
    → end ≤ len
    → IsSeparated 0 ranges
    → IsBounded len ranges
    → add_range room ranges start end ≡ ok ranges'
    → IsSeparated 0 ranges'
      × IsBounded len ranges'
      × ((i : ℕ) → covers ranges' i ≡ ((leb start i && ltb i end) || covers ranges i))
add_range_lem room len start end ranges ranges' h hl hs hb e =
    elim (add_range_result room start end ranges ranges' h hs e) [
      | inl (p, same) ↦ rw same (
        insert_range-IsSeparated 0 start end ranges p (omega arith) hs,
        insert_range-IsBounded len start end ranges hl hb,
        λ i. covers-insert_range 0 start end i ranges p hs,
      )
      | inr (p, same) ↦ rw same (hs, hb, λ i. ground arith)
    ]
