-- ===== src/Dtls/Reassembly/Bodies.antt =====
-- Whatever the order, overlap and repetition of the fragments, a complete message is the one that
-- was sent.
use krabitls_rs.Base.{
  ℕ, ◌+◌, ◌-◌, ◌%◌, ◌^◌, ◌≤◌, ◌<◌, ◌≡◌, refl, sym, ◌∙◌, true, ◌&&◌, ◌||◌, ltb, leb, ◌==◌, List, [],
  ◌∷◌, ◌++◌, some, length, get_elem?, Result, ok, err, arith, ◌⊎◌, inl, inr, Bool-cases,
  Option-cases,
}
use native.Mathlib.Nat.{mod-eq_of_lt}
use krabitls_rs.Dtls.Reassembly.{Slot, Reassembler, find_slot, copy_at, store, push, add_range}
use krabitls_rs.Dtls.Reassembly.Ranges.{IsSeparated, covers}
use krabitls_rs.Dtls.Reassembly.Complete.{IsBounded, add_range_lem}
use krabitls_rs.Dtls.Reassembly.Copy.{length-copy_at, get_elem?-copy_at}
use krabitls_rs.Dtls.Reassembly.Slots.{
  IsSlot, AreSlots, end_of, AreSlots-before, AreSlots-behind, AreSlots-split, AreSlots-join,
  end_of-append,
}

-- The fragment is a piece of the message `body seq`, and states its length.
pub record IsFragment (body : ℕ → List ℕ) (seq msg_len frag_off : ℕ) (frag : List ℕ) : Type 0 where
  pub len_eq : msg_len ≡ length (body seq)
  pub small : msg_len < 2 ^ 32
  pub agrees : (k : ℕ) → k < length frag → get_elem? frag k ≡ get_elem? (body seq) (frag_off + k)

pub record IsStore (body : ℕ → List ℕ) (r : Reassembler) (arena : List ℕ) : Type 0 where
  pub slots : AreSlots body arena 0 r.slots
  pub end_le : end_of 0 r.slots ≤ r.used
  pub used_le : r.used ≤ length arena

module _ (body : ℕ → List ℕ) (arena : List ℕ) (s : Slot) (frag_off : ℕ) (frag : List ℕ)
    (fragment : IsFragment body s.seq s.len frag_off frag) (inside : frag_off + length frag ≤ s.len)
    (h : IsSlot body arena s) where
  -- Any set of ranges that claims only the old positions and those of the fragment.
  IsSlot-write :
      (ranges : List (ℕ × ℕ))
      → IsSeparated 0 ranges
      → IsBounded s.len ranges
      → ((i : ℕ)
          → covers ranges i ≡ true
          → ((leb frag_off i && ltb i (frag_off + length frag)) || covers s.ranges i) ≡ true)
      → IsSlot body (copy_at (s.off + frag_off) frag arena) (record s { ranges = ranges })
  IsSlot-write ranges sep bnd claims =
      let fits : s.off + frag_off + length frag ≤ length arena = omega (arith, h.inside) in
      record {
        len_eq = h.len_eq;
        separated = sep;
        bounded = bnd;
        inside = rw (length-copy_at (s.off + frag_off) frag arena fits) h.inside;
        holds = λ i c. ground (
          arith,
          claims i c,
          get_elem?-copy_at (s.off + frag_off) frag arena (s.off + i) fits,
          h.holds i,
          fragment.agrees (i - frag_off),
        );
      }

Result-cases {ℓ κ} :
    {E : Type ℓ} {A : Type κ} (r : Result E A) → ((a : A) × (r ≡ ok a)) ⊎ ((e : E) × (r ≡ err e))
Result-cases (ok a) = inl (a, refl)
Result-cases (err e) = inr (e, refl)

module _ (body : ℕ → List ℕ) (max_frags : ℕ) (arena : List ℕ) (used frag_off : ℕ) (frag : List ℕ)
    (front : List Slot) (s : Slot) (back : List Slot)
    (fragment : IsFragment body s.seq s.len frag_off frag) (inside : frag_off + length frag ≤ s.len)
    (before : AreSlots body arena 0 front) (gap : end_of 0 front ≤ s.off)
    (here : IsSlot body arena s) (behind : AreSlots body arena (s.off + s.len) back)
    (end_le : end_of (s.off + s.len) back ≤ used) (used_le : used ≤ length arena) where
  fits : s.off + frag_off + length frag ≤ length arena
  fits = omega (arith, here.inside)

  -- The store after the write, with ranges that claim no more than was received.
  written :
      (ranges : List (ℕ × ℕ))
      → IsSlot body (copy_at (s.off + frag_off) frag arena) (record s { ranges = ranges })
      → IsStore body
          (record { slots = front ++ record s { ranges = ranges } ∷ back; used = used })
          (copy_at (s.off + frag_off) frag arena)
  written ranges h = record {
    slots =
        AreSlots-join body _ 0 front (record s { ranges = ranges }) back
          (AreSlots-before body arena (s.off + frag_off) frag fits 0 front (omega arith) before) gap
          h
          (AreSlots-behind body arena (s.off + frag_off) frag fits (s.off + s.len) back
            (omega arith) behind);
    end_le = rw end_of-append end_le;
    used_le = rw (length-copy_at (s.off + frag_off) frag arena fits) used_le;
  }

  store-IsStore :
      let p = store max_frags arena used frag_off frag front s back in IsStore body p.reasm p.arena
  unfolding store
  store-IsStore =
      let lo : frag_off % 2 ^ 32 ≡ frag_off = mod-eq_of_lt (omega (arith, fragment.small)) in
      let hi : (frag_off + length frag) % 2 ^ 32 ≡ frag_off + length frag =
        mod-eq_of_lt (omega (arith, fragment.small)) in
      let write = IsSlot-write body arena s frag_off frag fragment inside here in
      elim (Result-cases (add_range max_frags s.ranges frag_off (frag_off + length frag))) [
        | inl (ranges, e) ↦
            let (sep, bnd, cov) =
              add_range_lem max_frags s.len frag_off (frag_off + length frag) s.ranges ranges
                (omega arith) inside here.separated here.bounded e in
            rw (lo, hi, e, store) (written ranges (write ranges sep bnd (λ i c. sym (cov i) ∙ c)))
        | inr (x, e) ↦
            rw (lo, hi, e, store)
              (written s.ranges (write s.ranges here.separated here.bounded (λ i c. ground arith)))
      ]

pub find_slot-eq :
    (seq : ℕ) (slots front : List Slot) (s : Slot) (back : List Slot)
    → find_slot seq slots ≡ some (front, s, back)
    → (slots ≡ front ++ s ∷ back) × (s.seq ≡ seq)
unfolding find_slot
find_slot-eq seq [] front s back e = absurd (ground arith)
find_slot-eq seq (t ∷ slots) front s back e = elim (Bool-cases (t.seq == seq)) [
  | inl hit ↦ ground (arith, hit)
  | inr miss ↦ elim (Option-cases (find_slot seq slots)) [
    | inl absent ↦ absurd (ground arith)
    | inr ((f, u, b), found) ↦ ground (arith, find_slot-eq seq slots f u b found)
  ]
]

module _ (body : ℕ → List ℕ) (max_frags : ℕ) (r : Reassembler) (arena : List ℕ)
    (msg_type seq msg_len frag_off : ℕ) (frag : List ℕ)
    (fragment : IsFragment body seq msg_len frag_off frag)
    (inside : frag_off + length frag ≤ msg_len) (h : IsStore body r arena) where
  first_fragment :
      r.used + msg_len ≤ length arena
      → let s : Slot = record {
        seq = seq;
        msg_type = msg_type;
        len = msg_len;
        off = r.used;
        ranges = [];
      } in
        let p = store max_frags arena (r.used + msg_len) frag_off frag r.slots s [] in
        IsStore body p.reasm p.arena
  unfolding covers end_of
  first_fragment room =
      store-IsStore body max_frags arena (r.used + msg_len) frag_off frag r.slots _ [] fragment
        inside h.slots h.end_le
        (record {
          len_eq = fragment.len_eq;
          separated = tt;
          bounded = tt;
          inside = room;
          holds = λ i c. absurd (ground arith);
        })
        tt (omega arith) room

  later_fragment :
      (front : List Slot) (s : Slot) (back : List Slot)
      → find_slot seq r.slots ≡ some (front, s, back)
      → s.len ≡ msg_len
      → let p = store max_frags arena r.used frag_off frag front s back in
        IsStore body p.reasm p.arena
  later_fragment front s back found same =
      let (shape, number) = find_slot-eq seq r.slots front s back found in
      let (before, gap, here, behind) =
        AreSlots-split body arena 0 front s back (rw shape at h.slots) in
      let end_le : end_of (s.off + s.len) back ≤ r.used =
        rw (← end_of-append 0 front s back, ← shape) h.end_le in
      store-IsStore body max_frags arena r.used frag_off frag front s back
        (rw (number, same) fragment) (omega arith) before gap here behind end_le h.used_le

-- In a store every slot holds what was received of its message. `push` of a fragment of a message
-- keeps it so, whether it succeeds or fails.
pub push-IsStore :
    (body : ℕ → List ℕ) (max_msgs max_frags : ℕ) (r : Reassembler) (arena : List ℕ)
    (msg_type seq msg_len frag_off : ℕ) (frag : List ℕ)
    → IsFragment body seq msg_len frag_off frag
    → IsStore body r arena
    → let p = push max_msgs max_frags r arena msg_type seq msg_len frag_off frag in
      IsStore body p.reasm p.arena
unfolding push
push-IsStore body max_msgs max_frags r arena msg_type seq msg_len frag_off frag fragment h =
    elim (Bool-cases (ltb msg_len (frag_off + length frag))) [
      | inl bad ↦ rw bad h
      | inr good ↦
          let inside : frag_off + length frag ≤ msg_len = ground arith in
          elim (Option-cases (find_slot seq r.slots)) [
            | inl absent ↦ elim (Bool-cases (ltb (length arena) (r.used + msg_len))) [
              | inl full ↦ rw (good, absent, full) h
              | inr room ↦ elim (Bool-cases (leb max_msgs (length r.slots))) [
                | inl many ↦ rw (good, absent, room, many) h
                | inr few ↦
                    rw (good, absent, room, few)
                      (first_fragment body max_frags r arena msg_type seq msg_len frag_off frag
                        fragment inside h (ground arith))
              ]
            ]
            | inr ((front, s, back), found) ↦
                elim (Bool-cases (s.msg_type == msg_type && s.len == msg_len)) [
                  | inl same ↦
                      rw (good, found, same)
                        (later_fragment body max_frags r arena msg_type seq msg_len frag_off frag
                          fragment inside h front s back found (ground arith))
                  | inr other ↦ rw (good, found, other) h
                ]
          ]
    ]
