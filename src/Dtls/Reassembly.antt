-- ===== src/Dtls/Reassembly.antt =====
-- krabitls/src/dtls/reassembly.rs: handshake messages put together from fragments.
-- `max_msgs` and `max_frags` are the capacities of the fixed-size vectors; the arena that holds the
-- bodies is the caller's. `usize` has at least 32 bits and fragments stem from a datagram with
-- 24-bit fields, so the checked additions cannot fail.
pub mod Ranges
pub mod Complete
pub mod Copy
pub mod Slots
pub mod Bodies
pub mod Assembled
pub mod Flight
mod Tests
use krabitls_rs.Base.{
  ℕ, zero, suc, ◌+◌, ◌-◌, ◌/◌, ◌%◌, ◌^◌, min, max, Bool, true, false, ◌&&◌, not, ltb, leb, ◌==◌,
  if◌then◌else◌, List, [], ◌∷◌, ◌++◌, Option, none, some, length, take, drop, Result, ok, err,
  ◌>>=◌, ◌>>◌, fail_if,
}
use krabitls_rs.Base.Bytes.{slice}

pub data ReasmError : Type 0 where
  too_many_messages too_many_fragments arena_full bad_fragment inconsistent : ReasmError

pub record Slot : Type 0 where
  pub seq : ℕ
  pub msg_type : ℕ
  pub len : ℕ
  pub off : ℕ
  pub ranges : List (ℕ × ℕ)

-- The test of `is_complete`: one range, from 0 to `len`.
pub is_whole : ℕ → List (ℕ × ℕ) → Bool
is_whole len [] = false
is_whole len ((s, e) ∷ []) = s == 0 && e == len
is_whole len (r ∷ q ∷ rest) = false

pub is_complete : Slot → Bool
is_complete slot = is_whole slot.len slot.ranges

-- `Vec::push` on a vector of capacity `max_frags`.
pub push_range : ℕ → List (ℕ × ℕ) → ℕ × ℕ → Result ReasmError (List (ℕ × ℕ))
push_range max_frags merged r =
    if ltb (length merged) max_frags then ok (merged ++ r ∷ []) else err too_many_fragments

-- The variables of the loop of `add_range`.
pub record Merge : Type 0 where
  pub lo : ℕ
  pub hi : ℕ
  pub merged : List (ℕ × ℕ)
  pub placed : Bool

pub place : ℕ → Merge → Result ReasmError Merge
place max_frags m = if m.placed then ok m else do
  merged ← push_range max_frags m.merged (m.lo, m.hi)
  ok (record m { merged = merged; placed = true })

pub merge_step : ℕ → Merge → ℕ × ℕ → Result ReasmError Merge
merge_step max_frags m (s, e) =
    if ltb e m.lo
    then (do merged ← push_range max_frags m.merged (s, e); ok (record m { merged = merged }))
    else if ltb m.hi s
    then (do
      m' ← place max_frags m
      merged ← push_range max_frags m'.merged (s, e)
      ok (record m' { merged = merged }))
    else ok (record m { lo = min m.lo s; hi = max m.hi e })

pub merge_loop : ℕ → Merge → List (ℕ × ℕ) → Result ReasmError Merge
merge_loop max_frags m [] = ok m
merge_loop max_frags m (r ∷ ranges) = do
  m' ← merge_step max_frags m r
  merge_loop max_frags m' ranges

-- The new ranges of `add_range`.
pub add_range : ℕ → List (ℕ × ℕ) → ℕ → ℕ → Result ReasmError (List (ℕ × ℕ))
add_range max_frags ranges start end = if leb end start then ok ranges else do
  m ← merge_loop max_frags (record { lo = start; hi = end; merged = []; placed = false }) ranges
  m' ← place max_frags m
  ok m'.merged

pub record Reassembler : Type 0 where
  pub slots : List Slot
  pub used : ℕ

pub new : Reassembler
new = record { slots = []; used = 0 }

-- `iter().position(..)`, as the slots before the first one with this number, that slot, and those
-- after it.
unfoldable pub find_slot : ℕ → List Slot → Option (List Slot × Slot × List Slot)
find_slot seq [] = none
find_slot seq (s ∷ slots) =
    if s.seq == seq then some ([], s, slots) else elim (find_slot seq slots) [
      | none ↦ none
      | some (front, t, back) ↦ some (s ∷ front, t, back)
    ]

-- `arena[at..at + bytes.len()].copy_from_slice(bytes)`
pub copy_at : ℕ → List ℕ → List ℕ → List ℕ
copy_at at bytes arena = take at arena ++ (bytes ++ drop (at + length bytes) arena)

-- What a call leaves behind: the reassembler and the arena, which change also on some errors.
pub record Pushed : Type 0 where
  pub reasm : Reassembler
  pub arena : List ℕ
  pub result : Result ReasmError (Unit {0})

-- The end of `push`, where the slot is known: copy the bytes, then record the range.
pub store : ℕ → List ℕ → ℕ → ℕ → List ℕ → List Slot → Slot → List Slot → Pushed
store max_frags arena used frag_off frag front slot back =
    let frag_end = frag_off + length frag in
    let arena' = copy_at (slot.off + frag_off) frag arena in
    elim (add_range max_frags slot.ranges (frag_off % 2 ^ 32) (frag_end % 2 ^ 32)) [
      | ok ranges ↦ record {
        reasm = record { slots = front ++ record slot { ranges = ranges } ∷ back; used = used };
        arena = arena';
        result = ok tt;
      }
      | err e ↦ record {
        reasm = record { slots = front ++ slot ∷ back; used = used };
        arena = arena';
        result = err e;
      }
    ]

pub push : ℕ → ℕ → Reassembler → List ℕ → ℕ → ℕ → ℕ → ℕ → List ℕ → Pushed
push max_msgs max_frags r arena msg_type seq msg_len frag_off frag =
    let fails : ReasmError → Pushed = λ e. record { reasm = r; arena = arena; result = err e } in
    if ltb msg_len (frag_off + length frag)
    then fails bad_fragment
    else elim (find_slot seq r.slots) [
      | some (front, slot, back) ↦
          if not (slot.msg_type == msg_type && slot.len == msg_len)
          then fails inconsistent
          else store max_frags arena r.used frag_off frag front slot back
      | none ↦
          if ltb (length arena) (r.used + msg_len)
          then fails arena_full
          else if leb max_msgs (length r.slots)
          then fails too_many_messages
          else store max_frags arena (r.used + msg_len) frag_off frag r.slots
              (record { seq = seq; msg_type = msg_type; len = msg_len; off = r.used; ranges = [] })
              []
    ]

-- `flight_complete`: the first complete message of the finishing type, and no gap before it.
pub find_finished : ℕ → List Slot → Option Slot
find_finished finished_type [] = none
find_finished finished_type (s ∷ slots) =
    if s.msg_type == finished_type && is_complete s
    then some s
    else find_finished finished_type slots

pub any_complete : ℕ → List Slot → Bool
any_complete seq [] = false
any_complete seq (s ∷ slots) =
    if s.seq == seq && is_complete s then true else any_complete seq slots

-- `(first..first + count).all(..)`
pub all_complete : ℕ → ℕ → List Slot → Bool
all_complete zero first slots = true
all_complete (suc count) first slots =
    any_complete first slots && all_complete count (suc first) slots

pub flight_complete : Reassembler → ℕ → ℕ → Bool
flight_complete r base_seq finished_type = elim (find_finished finished_type r.slots) [
  | none ↦ false
  | some fin ↦
      if ltb fin.seq base_seq then false else all_complete (fin.seq - base_seq + 1) base_seq r.slots
]

-- `filter(prev.is_none_or(|p| s.seq > p)).min_by_key(seq)`: the first slot of the lowest number.
pub is_after : Option ℕ → ℕ → Bool
is_after none seq = true
is_after (some p) seq = ltb p seq

pub next_slot : Option ℕ → List Slot → Option Slot
next_slot prev [] = none
next_slot prev (s ∷ slots) =
    let rest = next_slot prev slots in
    if is_after prev s.seq
    then elim rest [ none ↦ some s | some t ↦ if ltb t.seq s.seq then some t else some s ]
    else rest

-- One message of the transcript: type, 24-bit length, body.
pub message_bytes : Slot → List ℕ → List ℕ
message_bytes s arena =
    s.msg_type
    ∷ s.len / 2 ^ 16 % 256
    ∷ s.len / 2 ^ 8 % 256
    ∷ s.len % 256
    ∷ slice s.off (s.off + s.len) arena

-- Each round handles one more slot, so one more round than there are slots is enough fuel.
pub serialize_loop : ℕ → List Slot → List ℕ → ℕ → Option ℕ → List ℕ → Result ReasmError (List ℕ)
serialize_loop zero slots arena out_len prev out = ok out
serialize_loop (suc fuel) slots arena out_len prev out = elim (next_slot prev slots) [
  | none ↦ ok out
  | some s ↦
      let skip = serialize_loop fuel slots arena out_len (some s.seq) out in
      let emit =
        serialize_loop fuel slots arena out_len (some s.seq) (out ++ message_bytes s arena) in
      if not (is_complete s)
      then skip
      else if ltb out_len (length out + (4 + s.len))
      then err arena_full
      else emit
]

pub serialize_flight : Reassembler → List ℕ → ℕ → Result ReasmError (List ℕ)
serialize_flight r arena out_len =
    serialize_loop (suc (length r.slots)) r.slots arena out_len none []
