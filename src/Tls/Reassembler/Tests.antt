-- ===== src/Tls/Reassembler/Tests.antt =====
-- Runs of the flight buffer, and its theorem at a concrete input.
use krabitls_rs.Base.{ℕ, ◌≡◌, refl, List, [], ◌∷◌, ok, err, some, false, arith}
use krabitls_rs.Base.Bytes.{from_be_bytes}
use krabitls_rs.Tls.Reassembler.{
  new, ServerFlightReassembler, overflow, push_content, end_loop, flight_end_offset, flight_bytes,
  is_complete,
}
use krabitls_rs.Tls.Reassembler.Flight.{push_contents, flight_bytes-push_contents}

-- EncryptedExtensions of two bytes, cut in the middle, `Finished`, and what follows it.
abbrev cut : List (List ℕ)
cut = (8 ∷ 0 ∷ 0 ∷ []) ∷ (2 ∷ 0 ∷ 0 ∷ 20 ∷ 0 ∷ []) ∷ (0 ∷ 1 ∷ 7 ∷ 4 ∷ []) ∷ []

flight_bytes-push_contents_example :
    (r : ServerFlightReassembler) × (push_contents 16 new cut ≡ ok r)
    × (flight_bytes r ≡ some (8 ∷ 0 ∷ 0 ∷ 2 ∷ 0 ∷ 0 ∷ 20 ∷ 0 ∷ 0 ∷ 1 ∷ 7 ∷ []))
flight_bytes-push_contents_example =
    flight_bytes-push_contents 16 cut ((8, 0 ∷ 0 ∷ []) ∷ []) (7 ∷ []) (4 ∷ []) refl (omega arith)
      (((λ h. omega arith), omega arith), tt) (omega arith)

full : push_contents 8 new cut ≡ err overflow
unfolding push_contents push_content
full = refl

waiting : is_complete (record { buf = 8 ∷ 0 ∷ 0 ∷ 2 ∷ 0 ∷ [] }) ≡ false
unfolding is_complete flight_end_offset end_loop from_be_bytes
waiting = refl
