-- ===== src/Tls/Reassembler.antt =====
-- krabitls/src/reassembler.rs: the buffer that collects the server's flight from several records,
-- and the walk over its messages to the end of `Finished`. The state is the list of the bytes in
-- the buffer, and `capacity` is its `N`. The walk moves by at least four bytes a step, so the
-- length of the buffer is fuel enough.
pub mod Flight
mod Tests
use krabitls_rs.Base.{
  ℕ, zero, suc, ◌+◌, ◌-◌, List, [], ◌∷◌, ◌++◌, length, take, leb, ltb, ◌==◌, if◌then◌else◌, Option,
  none, some, Bool, true, false, Result, ok, err,
}
use krabitls_rs.Base.Bytes.{byte_at, from_be_bytes}

-- `HS_FINISHED`
abbrev pub hs_finished : ℕ
hs_finished = 20

pub data ReassemblyError : Type 0 where
  overflow : ReassemblyError

pub record ServerFlightReassembler : Type 0 where
  pub buf : List ℕ

abbrev pub new : ServerFlightReassembler
new = record { buf = [] }

abbrev pub clear : ServerFlightReassembler → ServerFlightReassembler
clear r = record r { buf = [] }

unfoldable pub push_content :
    ℕ → ServerFlightReassembler → List ℕ → Result ReassemblyError ServerFlightReassembler
push_content capacity r content =
    if leb (length r.buf + length content) capacity
    then ok (record r { buf = r.buf ++ content })
    else err overflow

-- The loop of `flight_end_offset` from offset `i`.
unfoldable pub end_loop : ℕ → List ℕ → ℕ → Option ℕ
end_loop zero buf i = none
end_loop (suc fuel) buf i =
    let len =
      from_be_bytes (0 ∷ byte_at buf (i + 1) ∷ byte_at buf (i + 2) ∷ byte_at buf (i + 3) ∷ []) in
    let next = i + (4 + len) in
    let rest = end_loop fuel buf next in
    if leb (i + 4) (length buf)
    then (if ltb (length buf - i - 4) len
        then none
        else if byte_at buf i == hs_finished
        then some next
        else rest)
    else none

unfoldable pub flight_end_offset : ServerFlightReassembler → Option ℕ
flight_end_offset r = end_loop (length r.buf) r.buf 0

unfoldable pub is_complete : ServerFlightReassembler → Bool
is_complete r = elim (flight_end_offset r) [ none ↦ false | some end ↦ true ]

unfoldable pub flight_bytes : ServerFlightReassembler → Option (List ℕ)
flight_bytes r = elim (flight_end_offset r) [ none ↦ none | some end ↦ some (take end r.buf) ]
