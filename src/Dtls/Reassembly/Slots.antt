-- ===== src/Dtls/Reassembly/Slots.antt =====
-- The slots lie in disjoint regions of the arena, and a write into one leaves the others alone.
use krabitls_rs.Base.{
  ℕ, ◌+◌, ◌≤◌, ◌<◌, ◌≡◌, refl, true, List, [], ◌∷◌, ◌++◌, length, get_elem?, arith, ◌⊎◌, inl, inr,
}
use krabitls_rs.Dtls.Reassembly.{Slot, copy_at}
use krabitls_rs.Dtls.Reassembly.Ranges.{IsSeparated, covers}
use krabitls_rs.Dtls.Reassembly.Complete.{IsBounded}
use krabitls_rs.Dtls.Reassembly.Copy.{length-copy_at, get_elem?-copy_at}

module _ (body : ℕ → List ℕ) where
  -- A slot holds the bytes of its message at every position that it has received.
  pub record IsSlot (arena : List ℕ) (s : Slot) : Type 0 where
    pub len_eq : s.len ≡ length (body s.seq)
    pub separated : IsSeparated 0 s.ranges
    pub bounded : IsBounded s.len s.ranges
    pub inside : s.off + s.len ≤ length arena
    pub holds :
        (i : ℕ) → covers s.ranges i ≡ true → get_elem? arena (s.off + i) ≡ get_elem? (body s.seq) i

  -- The slots lie one after the other from `low` on.
  abbrev pub AreSlots : List ℕ → ℕ → List Slot → Type 0
  AreSlots arena low [] = Unit
  AreSlots arena low (s ∷ slots) =
      (low ≤ s.off) × IsSlot arena s × AreSlots arena (s.off + s.len) slots

-- Where the last slot ends.
unfoldable pub end_of : ℕ → List Slot → ℕ
end_of low [] = low
end_of low (s ∷ slots) = end_of (s.off + s.len) slots

covers-lt :
    (len i : ℕ) (ranges : List (ℕ × ℕ)) → IsBounded len ranges → covers ranges i ≡ true → i < len
unfolding covers
covers-lt len i [] hb h = absurd (ground arith)
covers-lt len i ((s, e) ∷ ranges) hb h = ground (arith, covers-lt len i ranges)

low-le-end_of :
    (body : ℕ → List ℕ) (arena : List ℕ) (low : ℕ) (slots : List Slot)
    → AreSlots body arena low slots
    → low ≤ end_of low slots
unfolding end_of
low-le-end_of body arena low [] h = omega arith
low-le-end_of body arena low (s ∷ slots) h =
    omega (arith, low-le-end_of body arena (s.off + s.len) slots h.2)

module _ (body : ℕ → List ℕ) (arena : List ℕ) (at : ℕ) (bytes : List ℕ)
    (fits : at + length bytes ≤ length arena) where
  -- A write beside a slot does not touch it.
  IsSlot-beside :
      (s : Slot)
      → (s.off + s.len ≤ at) ⊎ (at + length bytes ≤ s.off)
      → IsSlot body arena s
      → IsSlot body (copy_at at bytes arena) s
  IsSlot-beside s far h = record {
    len_eq = h.len_eq;
    separated = h.separated;
    bounded = h.bounded;
    inside = rw (length-copy_at at bytes arena fits) h.inside;
    holds = λ i c. ground (
      arith,
      get_elem?-copy_at at bytes arena (s.off + i) fits,
      covers-lt s.len i s.ranges h.bounded c,
      h.holds i c,
    );
  }

  pub AreSlots-before :
      (low : ℕ) (slots : List Slot)
      → end_of low slots ≤ at
      → AreSlots body arena low slots
      → AreSlots body (copy_at at bytes arena) low slots
  unfolding end_of
  AreSlots-before low [] p h = tt
  AreSlots-before low (s ∷ slots) p h =
      let le = low-le-end_of body arena (s.off + s.len) slots h.2 in
      (h.0, IsSlot-beside s (inl (omega arith)) h.1, AreSlots-before (s.off + s.len) slots p h.2)

  pub AreSlots-behind :
      (low : ℕ) (slots : List Slot)
      → at + length bytes ≤ low
      → AreSlots body arena low slots
      → AreSlots body (copy_at at bytes arena) low slots
  AreSlots-behind low [] p h = tt
  AreSlots-behind low (s ∷ slots) p h = (
    h.0,
    IsSlot-beside s (inr (omega (arith, h.0))) h.1,
    AreSlots-behind (s.off + s.len) slots (omega (arith, h.0)) h.2,
  )

pub AreSlots-split :
    (body : ℕ → List ℕ) (arena : List ℕ) (low : ℕ) (front : List Slot) (s : Slot) (back : List Slot)
    → AreSlots body arena low (front ++ s ∷ back)
    → AreSlots body arena low front
      × (end_of low front ≤ s.off)
      × IsSlot body arena s
      × AreSlots body arena (s.off + s.len) back
unfolding end_of
AreSlots-split body arena low [] s back h = (tt, h.0, h.1, h.2)
AreSlots-split body arena low (t ∷ front) s back h =
    let (f, le, here, rest) = AreSlots-split body arena (t.off + t.len) front s back h.2 in
    ((h.0, h.1, f), le, here, rest)

pub AreSlots-join :
    (body : ℕ → List ℕ) (arena : List ℕ) (low : ℕ) (front : List Slot) (s : Slot) (back : List Slot)
    → AreSlots body arena low front
    → end_of low front ≤ s.off
    → IsSlot body arena s
    → AreSlots body arena (s.off + s.len) back
    → AreSlots body arena low (front ++ s ∷ back)
unfolding end_of
AreSlots-join body arena low [] s back f le here rest = (le, here, rest)
AreSlots-join body arena low (t ∷ front) s back f le here rest =
    (f.0, f.1, AreSlots-join body arena (t.off + t.len) front s back f.2 le here rest)

pub end_of-append :
    (low : ℕ) (front : List Slot) (s : Slot) (back : List Slot)
    → end_of low (front ++ s ∷ back) ≡ end_of (s.off + s.len) back
unfolding end_of
end_of-append low [] s back = refl
end_of-append low (t ∷ front) s back = end_of-append (t.off + t.len) front s back
