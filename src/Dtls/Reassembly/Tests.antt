-- ===== src/Dtls/Reassembly/Tests.antt =====
-- A message in three overlapping fragments, and the theorems at concrete inputs.
use krabitls_rs.Base.{
  ℕ, ◌≤◌, ◌≡◌, ◌↔◌, refl, true, ◌==◌, if◌then◌else◌, List, [], ◌∷◌, some, take, drop, ok, All,
  arith,
}
use krabitls_rs.Base.Bytes.{slice}
use krabitls_rs.Dtls.Reassembly.{
  Slot, new, push_range, place, merge_step, merge_loop, add_range, is_whole, is_complete, find_slot,
  copy_at, store, push, find_finished, any_complete, all_complete, flight_complete, next_slot,
  is_after, message_bytes, serialize_loop, serialize_flight,
}
use krabitls_rs.Dtls.Reassembly.Ranges.{insert_range, within_cap, add_range-insert_range}
use krabitls_rs.Dtls.Reassembly.Assembled.{
  Fragment, Store, push_all, IsPiece, slice-IsPiece, assembled-body,
}
use krabitls_rs.Dtls.Reassembly.Flight.{IsFirstLast, HasReceived, flight_complete_iff}

abbrev message : List ℕ
message = 0xa0 ∷ 0xa1 ∷ 0xb0 ∷ 0xb1 ∷ 0xc0 ∷ 0xc1 ∷ []

abbrev body : ℕ → List ℕ
body seq = if seq == 5 then message else []

abbrev piece : ℕ → ℕ → Fragment
piece off n = record {
  msg_type = 20;
  seq = 5;
  msg_len = 6;
  frag_off = off;
  frag = take n (drop off message);
}

-- The last bytes come first, the first come twice.
abbrev pieces : List Fragment
pieces = piece 4 2 ∷ piece 0 3 ∷ piece 0 3 ∷ piece 2 2 ∷ []

abbrev start : Store
start = record { reasm = new; arena = 0 ∷ 0 ∷ 0 ∷ 0 ∷ 0 ∷ 0 ∷ 0 ∷ [] }

abbrev finished : Slot
finished = record { seq = 5; msg_type = 20; len = 6; off = 0; ranges = (0, 6) ∷ [] }

found : find_slot 5 (push_all 8 16 start pieces).reasm.slots ≡ some ([], finished, [])
unfolding push_all new push find_slot store copy_at add_range merge_loop merge_step place push_range
    take drop
found = refl

complete : is_complete finished ≡ true
unfolding is_complete is_whole
complete = refl

flight : flight_complete (record { slots = finished ∷ []; used = 6 }) 5 20 ≡ true
unfolding flight_complete find_finished all_complete any_complete is_complete is_whole
flight = refl

serialized :
    serialize_flight (record { slots = finished ∷ []; used = 6 }) message 10
    ≡ ok (20 ∷ 0 ∷ 0 ∷ 6 ∷ message)
unfolding serialize_flight serialize_loop next_slot is_after message_bytes is_complete is_whole take
    drop
serialized = refl

pieces-IsPiece : All (IsPiece body) pieces
pieces-IsPiece = (
  slice-IsPiece body 20 5 4 2 (omega arith),
  (
    slice-IsPiece body 20 5 0 3 (omega arith),
    (slice-IsPiece body 20 5 0 3 (omega arith), (slice-IsPiece body 20 5 2 2 (omega arith), tt)),
  ),
)

assembled-body_example : slice 0 6 (push_all 8 16 start pieces).arena ≡ message
assembled-body_example =
    assembled-body body 8 16 start.arena pieces 5 [] finished [] pieces-IsPiece found complete

flight_complete_iff_example :
    (flight_complete (record { slots = finished ∷ []; used = 6 }) 5 20 ≡ true) ↔ (
      (fin : Slot) × IsFirstLast 20 (finished ∷ []) fin
      × (5 ≤ fin.seq)
      × ((q : ℕ) → 5 ≤ q → q ≤ fin.seq → HasReceived q (finished ∷ [])))
flight_complete_iff_example = flight_complete_iff (record { slots = finished ∷ []; used = 6 }) 5 20

abbrev two_ranges : List (ℕ × ℕ)
two_ranges = (0, 2) ∷ (6, 8) ∷ []

add_range-insert_range_example :
    add_range 1 two_ranges 3 5 ≡ within_cap 1 (insert_range 3 5 two_ranges)
add_range-insert_range_example =
    add_range-insert_range 1 0 3 5 two_ranges (omega arith) (omega arith)
