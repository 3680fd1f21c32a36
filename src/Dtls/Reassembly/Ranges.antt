-- ===== src/Dtls/Reassembly/Ranges.antt =====
-- `add_range` keeps a sorted set of disjoint ranges, and adds exactly the new bytes to it.
use krabitls_rs.Base.{
  ℕ, suc, ◌≤◌, ◌<◌, ◌≡◌, refl, min, max, Bool, true, false, ◌&&◌, ◌||◌, ltb, leb, if◌then◌else◌,
  List, [], ◌∷◌, ◌++◌, append_assoc, append-nil, length, length-append, Result, ok, err, ◌>>=◌,
  >>=_assoc, arith, Bool-cases, inl, inr,
}
use krabitls_rs.Dtls.Reassembly.{
  ReasmError, too_many_fragments, Merge, push_range, place, merge_step, merge_loop, add_range,
}

-- Sorted, from `low` on, none empty, and with a gap between any two.
abbrev pub IsSeparated : ℕ → List (ℕ × ℕ) → Type 0
IsSeparated low [] = Unit
IsSeparated low ((s, e) ∷ ranges) = (low ≤ s) × (s < e) × IsSeparated (suc e) ranges

-- Position `i` has been received.
unfoldable pub covers : List (ℕ × ℕ) → ℕ → Bool
covers [] i = false
covers ((s, e) ∷ ranges) i = (leb s i && ltb i e) || covers ranges i

-- The reference: one pass that joins whatever meets `[lo, hi)`.
unfoldable pub insert_range : ℕ → ℕ → List (ℕ × ℕ) → List (ℕ × ℕ)
insert_range lo hi [] = (lo, hi) ∷ []
insert_range lo hi ((s, e) ∷ ranges) =
    let before = (s, e) ∷ insert_range lo hi ranges in
    let joined = insert_range (min lo s) (max hi e) ranges in
    if ltb e lo then before else if ltb hi s then (lo, hi) ∷ (s, e) ∷ ranges else joined

abbrev pub within_cap : ℕ → List (ℕ × ℕ) → Result ReasmError (List (ℕ × ℕ))
within_cap room l = if leb (length l) room then ok l else err too_many_fragments

-- The rest of `add_range` from a state of its loop.
finish : ℕ → Merge → List (ℕ × ℕ) → Result ReasmError (List (ℕ × ℕ))
finish room m ranges = do m' ← merge_loop room m ranges; m'' ← place room m'; ok m''.merged

finish-cons :
    (room : ℕ) (m : Merge) (r : ℕ × ℕ) (ranges : List (ℕ × ℕ))
    → finish room m (r ∷ ranges) ≡ (merge_step room m r >>= λ m'. finish room m' ranges)
unfolding finish merge_loop
finish-cons room m r ranges = >>=_assoc (merge_step room m r) _ _

IsSeparated-lower :
    (low low' : ℕ) (ranges : List (ℕ × ℕ))
    → low' ≤ low
    → IsSeparated low ranges
    → IsSeparated low' ranges
IsSeparated-lower low low' [] h p = tt
IsSeparated-lower low low' (r ∷ ranges) h p = (omega arith, p.1, p.2)

abbrev pushed : Merge → ℕ × ℕ → Merge
pushed m r = record m { merged = m.merged ++ r ∷ [] }

finish-nil : (room : ℕ) (m : Merge) → finish room m [] ≡ (place room m >>= λ m'. ok m'.merged)
unfolding finish merge_loop
finish-nil room m = refl

-- Once `[lo, hi)` is placed, all that follows is copied.
finish_placed :
    (room : ℕ) (m : Merge) (ranges : List (ℕ × ℕ))
    → m.placed ≡ true
    → IsSeparated (suc m.hi) ranges
    → length m.merged ≤ room
    → finish room m ranges ≡ within_cap room (m.merged ++ ranges)
unfolding merge_step push_range place
finish_placed room m [] hp hs hc = rw finish-nil (ground (arith, append-nil m.merged))
finish_placed room m ((s, e) ∷ ranges) hp hs hc =
    let lower = IsSeparated-lower (suc e) (suc m.hi) ranges (omega arith) hs.2 in
    rw finish-cons (
      ground (
        arith,
        finish_placed room (pushed m (s, e)) ranges hp lower,
        length-append m.merged ((s, e) ∷ []),
        length-append m.merged ((s, e) ∷ ranges),
        append_assoc m.merged ((s, e) ∷ []) ranges,
      ))

finish_open :
    (room low : ℕ) (m : Merge) (ranges : List (ℕ × ℕ))
    → m.placed ≡ false
    → m.lo < m.hi
    → IsSeparated low ranges
    → length m.merged ≤ room
    → finish room m ranges ≡ within_cap room (m.merged ++ insert_range m.lo m.hi ranges)
unfolding merge_step push_range place insert_range
finish_open room low m [] hp hl hs hc =
    rw finish-nil (ground (arith, length-append m.merged ((m.lo, m.hi) ∷ [])))
finish_open room low m ((s, e) ∷ ranges) hp hl hs hc =
    rw finish-cons (elim (Bool-cases (ltb e m.lo)) [
      | inl before ↦ ground (
        arith,
        finish_open room (suc e) (pushed m (s, e)) ranges hp hl hs.2,
        length-append m.merged ((s, e) ∷ []),
        length-append m.merged ((s, e) ∷ insert_range m.lo m.hi ranges),
        append_assoc m.merged ((s, e) ∷ []) (insert_range m.lo m.hi ranges),
      )
      | inr not_before ↦ elim (Bool-cases (ltb m.hi s)) [
        | inl after ↦
            let first : List (ℕ × ℕ) = m.merged ++ (m.lo, m.hi) ∷ [] in
            let m'' = record m { merged = first ++ (s, e) ∷ []; placed = true } in
            let gap : suc m.hi ≤ suc e = ground arith in
            let lower = IsSeparated-lower (suc e) (suc m.hi) ranges gap hs.2 in
            ground (
              arith,
              finish_placed room m'' ranges refl lower,
              length-append m.merged ((m.lo, m.hi) ∷ []),
              length-append first ((s, e) ∷ []),
              length-append m.merged ((m.lo, m.hi) ∷ (s, e) ∷ ranges),
              append_assoc m.merged ((m.lo, m.hi) ∷ []) ((s, e) ∷ ranges),
              append_assoc first ((s, e) ∷ []) ranges,
            )
        | inr joined ↦
            rw (not_before, joined)
              (finish_open room (suc e) (record m { lo = min m.lo s; hi = max m.hi e }) ranges hp
                (omega arith) hs.2 hc)
      ]
    ])

-- `add_range` on a separated set: the reference result if it fits the vector, else an error.
pub add_range-insert_range :
    (room low start end : ℕ) (ranges : List (ℕ × ℕ))
    → start < end
    → IsSeparated low ranges
    → add_range room ranges start end ≡ within_cap room (insert_range start end ranges)
unfolding add_range finish
add_range-insert_range room low start end ranges h hs =
    let m : Merge = record { lo = start; hi = end; merged = []; placed = false } in
    ground (arith, finish_open room low m ranges refl h hs (omega arith))

pub insert_range-IsSeparated :
    (low lo hi : ℕ) (ranges : List (ℕ × ℕ))
    → lo < hi
    → low ≤ lo
    → IsSeparated low ranges
    → IsSeparated low (insert_range lo hi ranges)
unfolding insert_range
insert_range-IsSeparated low lo hi [] h hl hs = ground arith
insert_range-IsSeparated low lo hi ((s, e) ∷ ranges) h hl hs = ground (
  arith,
  insert_range-IsSeparated (suc e) lo hi ranges,
  insert_range-IsSeparated low (min lo s) (max hi e) ranges,
  IsSeparated-lower (suc e) low ranges,
)

pub low_uncovered :
    (low i : ℕ) (ranges : List (ℕ × ℕ)) → IsSeparated low ranges → i < low → covers ranges i ≡ false
unfolding covers
low_uncovered low i [] h p = refl
low_uncovered low i ((s, e) ∷ ranges) h p = ground (arith, low_uncovered (suc e) i ranges h.2)

-- The new set covers what the old one covered, and the new range.
pub covers-insert_range :
    (low lo hi i : ℕ) (ranges : List (ℕ × ℕ))
    → lo < hi
    → IsSeparated low ranges
    → covers (insert_range lo hi ranges) i ≡ ((leb lo i && ltb i hi) || covers ranges i)
unfolding covers insert_range
covers-insert_range low lo hi i [] h hs = ground arith
covers-insert_range low lo hi i ((s, e) ∷ ranges) h hs = ground (
  arith,
  covers-insert_range (suc e) lo hi i ranges h hs.2,
  covers-insert_range (suc e) (min lo s) (max hi e) i ranges (omega arith) hs.2,
)
