-- ===== src/Dtls/Reassembly/Assembled.antt =====
-- A run of `push` over any list of fragments, and the bodies of the messages that are complete.
use krabitls_rs.Base.{
  ℕ, ◌+◌, ◌-◌, ◌^◌, ◌<◌, ◌≡◌, refl, true, List, [], ◌∷◌, some, length, take, drop, All, arith,
  length-take, length-drop,
}
use krabitls_rs.Base.Bytes.{slice}
use krabitls_rs.Base.Index.{get_elem?-take, get_elem?-drop, get_elem?_ext, get_elem?-end}
use krabitls_rs.Dtls.Reassembly.{Slot, Reassembler, new, find_slot, push, is_complete}
use krabitls_rs.Dtls.Reassembly.Complete.{is_whole_iff}
use krabitls_rs.Dtls.Reassembly.Slots.{IsSlot, AreSlots-split, end_of}
use krabitls_rs.Dtls.Reassembly.Bodies.{IsFragment, IsStore, push-IsStore, find_slot-eq}

-- The arguments of one call of `push`.
pub record Fragment : Type 0 where
  pub msg_type : ℕ
  pub seq : ℕ
  pub msg_len : ℕ
  pub frag_off : ℕ
  pub frag : List ℕ

pub record Store : Type 0 where
  pub reasm : Reassembler
  pub arena : List ℕ

-- All the calls, one after the other, whether or not one fails.
unfoldable pub push_all : ℕ → ℕ → Store → List Fragment → Store
push_all max_msgs max_frags st [] = st
push_all max_msgs max_frags st (f ∷ fs) =
    let p =
      push max_msgs max_frags st.reasm st.arena f.msg_type f.seq f.msg_len f.frag_off f.frag in
    push_all max_msgs max_frags (record { reasm = p.reasm; arena = p.arena }) fs

abbrev pub IsPiece : (ℕ → List ℕ) → Fragment → Type 0
IsPiece body f = IsFragment body f.seq f.msg_len f.frag_off f.frag

-- A slice of a message is a piece of it.
pub slice-IsPiece :
    (body : ℕ → List ℕ) (msg_type seq off n : ℕ)
    → length (body seq) < 2 ^ 32
    → IsPiece body (record {
      msg_type = msg_type;
      seq = seq;
      msg_len = length (body seq);
      frag_off = off;
      frag = take n (drop off (body seq));
    })
slice-IsPiece body msg_type seq off n h = record {
  len_eq = refl;
  small = h;
  agrees = λ k p. ground (
    arith,
    get_elem?-take n (drop off (body seq)) k,
    get_elem?-drop off (body seq) k,
    length-take n (drop off (body seq)),
    length-drop off (body seq),
  );
}

push_all-IsStore :
    (body : ℕ → List ℕ) (max_msgs max_frags : ℕ) (st : Store) (fs : List Fragment)
    → All (IsPiece body) fs
    → IsStore body st.reasm st.arena
    → let st' = push_all max_msgs max_frags st fs in IsStore body st'.reasm st'.arena
unfolding push_all
push_all-IsStore body max_msgs max_frags st [] ps h = h
push_all-IsStore body max_msgs max_frags st (f ∷ fs) ps h =
    let p =
      push max_msgs max_frags st.reasm st.arena f.msg_type f.seq f.msg_len f.frag_off f.frag in
    push_all-IsStore body max_msgs max_frags (record { reasm = p.reasm; arena = p.arena }) fs ps.1
      (push-IsStore body max_msgs max_frags st.reasm st.arena f.msg_type f.seq f.msg_len f.frag_off
        f.frag ps.0 h)

complete_slot :
    (body : ℕ → List ℕ) (arena : List ℕ) (s : Slot)
    → IsSlot body arena s
    → is_complete s ≡ true
    → slice s.off (s.off + s.len) arena ≡ body s.seq
unfolding is_complete
complete_slot body arena s h done =
    let (pos, all) = (is_whole_iff s.len s.ranges h.separated h.bounded).0 done in
    get_elem?_ext _ _ λ j. ground (
      arith,
      get_elem?-take (s.off + s.len - s.off) (drop s.off arena) j,
      get_elem?-drop s.off arena j,
      all j,
      h.holds j,
      h.len_eq,
      get_elem?-end (body s.seq) j,
    )

new-IsStore : (body : ℕ → List ℕ) (arena : List ℕ) → IsStore body new arena
unfolding new end_of
new-IsStore body arena = record { slots = tt; end_le = omega arith; used_le = omega arith }

-- Start with an empty reassembler and any arena, and push any list of pieces of the messages
-- `body`, in any order, with repetitions and overlaps, whether or not single calls fail. Then the
-- slot of number `seq`, if it is complete, holds the message of that number in the arena.
pub assembled-body :
    (body : ℕ → List ℕ) (max_msgs max_frags : ℕ) (arena : List ℕ) (fs : List Fragment) (seq : ℕ)
    (front : List Slot) (s : Slot) (back : List Slot)
    → All (IsPiece body) fs
    → find_slot seq
        (push_all max_msgs max_frags (record { reasm = new; arena = arena }) fs).reasm.slots
      ≡ some (front, s, back)
    → is_complete s ≡ true
    → slice s.off
        (s.off + s.len)
        (push_all max_msgs max_frags (record { reasm = new; arena = arena }) fs).arena
      ≡ body seq
assembled-body body max_msgs max_frags arena fs seq front s back ps found done =
    let st = push_all max_msgs max_frags (record { reasm = new; arena = arena }) fs in
    let h = push_all-IsStore body max_msgs max_frags _ fs ps (new-IsStore body arena) in
    let (shape, number) = find_slot-eq seq st.reasm.slots front s back found in
    let split = AreSlots-split body st.arena 0 front s back (rw shape at h.slots) in
    rw (← number) (complete_slot body st.arena s split.2 done)
