-- ===== src/Tls/Reassembler/Flight.antt =====
-- The flight that krabitls/src/reassembler.rs finds in its buffer.
use krabitls_rs.Base.{
  ℕ, zero, suc, ◌+◌, ◌^◌, ◌≤◌, ◌<◌, ◌≡◌, ◌≢◌, refl, sym, ap, ◌∙◌, List, [], ◌∷◌, ◌++◌, length, take,
  leb, ◌==◌, if◌then◌else◌, Option, none, some, true, false, Result, ok, err, ◌>>=◌, All, arith,
  append_assoc, append-nil,
}
use krabitls_rs.Base.Lists.{length-append, get_or_past, take-append}
use krabitls_rs.Base.Bytes.{
  to_be_bytes, from_be_bytes, from_be_bytes-zero, from_be_bytes-to_be_bytes,
}
use krabitls_rs.Tls.Reassembler.{
  hs_finished, new, ServerFlightReassembler, ReassemblyError, overflow, push_content, end_loop,
  flight_end_offset, flight_bytes,
}

-- A handshake message: its type, the length of its body in 24 bits, and the body.
abbrev pub message : ℕ → List ℕ → List ℕ
message msg_type body = msg_type ∷ (to_be_bytes 3 (length body) ++ body)

abbrev pub messages : List (ℕ × List ℕ) → List ℕ
messages [] = []
messages (m ∷ ms) = message m.0 m.1 ++ messages ms

-- Messages before `Finished`, with bodies that 24 bits can measure.
abbrev pub IsBeforeFinished : ℕ × List ℕ → Type 0
IsBeforeFinished m = (m.0 ≢ hs_finished) × (length m.1 < 2 ^ 24)

one_message :
    (fuel : ℕ) (before : List ℕ) (msg_type : ℕ) (body after : List ℕ) (i : ℕ)
    → i ≡ length before
    → length body < 2 ^ 24
    → end_loop (suc fuel) (before ++ (message msg_type body ++ after)) i ≡ (
        if msg_type == hs_finished
        then some (i + (4 + length body))
        else end_loop fuel (before ++ (message msg_type body ++ after)) (i + (4 + length body)))
unfolding end_loop
one_message fuel before msg_type body after i here small =
    let m = message msg_type body ++ after in
    let byte = λ (k : ℕ). get_or_past before m (i + k) k 0 (omega arith) in
    let first = get_or_past before m i 0 0 (omega arith) in
    let read : from_be_bytes (0 ∷ to_be_bytes 3 (length body)) ≡ length body =
      from_be_bytes-zero (to_be_bytes 3 (length body))
      ∙ from_be_bytes-to_be_bytes 3 (length body) small in
    let room : length (before ++ m) ≡ i + 4 + length body + length after =
      omega (arith, length-append before m, length-append body after) in
    rw (first, byte 1, byte 2, byte 3, read, room) (ground arith)

not_finished : (msg_type : ℕ) → msg_type ≢ hs_finished → (msg_type == hs_finished) ≡ false
not_finished msg_type other = ground arith

end_loop-messages :
    (fuel : ℕ) (before : List ℕ) (ms : List (ℕ × List ℕ)) (last after : List ℕ) (i : ℕ)
    → i ≡ length before
    → length (messages ms) < fuel
    → All IsBeforeFinished ms
    → length last < 2 ^ 24
    → end_loop fuel (before ++ (messages ms ++ (message hs_finished last ++ after))) i
      ≡ some (i + length (messages ms) + (4 + length last))
end_loop-messages zero before ms last after i here enough good small = absurd (omega arith)
end_loop-messages (suc fuel) before [] last after i here enough good small =
    one_message fuel before hs_finished last after i here small ∙ ap some (omega arith)
end_loop-messages (suc fuel) before (m ∷ ms) last after i here enough good small =
    let first = message m.0 m.1 in
    let rest = messages ms ++ (message hs_finished last ++ after) in
    let size = length-append first (messages ms) in
    let split = append_assoc first (messages ms) (message hs_finished last ++ after) in
    let unfinished : (m.0 == hs_finished) ≡ false = not_finished m.0 good.0.0 in
    let next = i + (4 + length m.1) in
    ap (λ s. end_loop (suc fuel) (before ++ s) i) split
    ∙ one_message fuel before m.0 m.1 rest i here good.0.1
    ∙ ap (λ b. if b then some next else end_loop fuel (before ++ (first ++ rest)) next) unfinished
    ∙ ap (λ s. end_loop fuel s next) (sym (append_assoc before first rest))
    ∙ end_loop-messages fuel (before ++ first) ms last after next
        (omega (arith, length-append before first)) (omega arith) good.1 small
    ∙ ap some (omega arith)

-- Records pushed one after the other.
unfoldable pub push_contents :
    ℕ → ServerFlightReassembler → List (List ℕ) → Result ReassemblyError ServerFlightReassembler
push_contents capacity r [] = ok r
push_contents capacity r (content ∷ contents) =
    push_content capacity r content >>= λ r'. push_contents capacity r' contents

abbrev pub concat : List (List ℕ) → List ℕ
concat [] = []
concat (content ∷ contents) = content ++ concat contents

pub push_contents_fits :
    (capacity : ℕ) (r : ServerFlightReassembler) (contents : List (List ℕ))
    → length r.buf + length (concat contents) ≤ capacity
    → push_contents capacity r contents ≡ ok (record { buf = r.buf ++ concat contents })
unfolding push_contents push_content
push_contents_fits capacity r [] room = ap (λ b. ok (record { buf = b })) (sym (append-nil r.buf))
push_contents_fits capacity r (content ∷ contents) room =
    let fits : leb (length r.buf + length content) capacity ≡ true =
      let size = length-append content (concat contents) in ground arith in
    let size = length-append r.buf content in
    ap
      (λ b. (if b then ok (record { buf = r.buf ++ content }) else err overflow) >>= λ r'.
        push_contents capacity r' contents)
      fits
    ∙ push_contents_fits capacity (record { buf = r.buf ++ content }) contents
        (omega (arith, length-append content (concat contents)))
    ∙ ap (λ b. ok (record { buf = b })) (append_assoc r.buf content (concat contents))

-- However the flight is cut into records, once all of it is in a buffer that has the room, the
-- flight that is found is the messages up to the end of `Finished`, and not what comes after.
pub flight_bytes-push_contents :
    (capacity : ℕ) (contents : List (List ℕ)) (ms : List (ℕ × List ℕ)) (last after : List ℕ)
    → concat contents ≡ messages ms ++ (message hs_finished last ++ after)
    → length (concat contents) ≤ capacity
    → All IsBeforeFinished ms
    → length last < 2 ^ 24
    → (r : ServerFlightReassembler) × (push_contents capacity new contents ≡ ok r)
      × (flight_bytes r ≡ some (messages ms ++ message hs_finished last))
unfolding flight_bytes flight_end_offset
flight_bytes-push_contents capacity contents ms last after whole room good small =
    let buf = concat contents in
    let found : end_loop (length buf) buf 0 ≡ some (0 + length (messages ms) + (4 + length last)) =
      ap (λ s. end_loop (length buf) s 0) whole
      ∙ end_loop-messages (length buf) [] ms last after 0 refl
          (omega (
            arith,
            ap length whole,
            length-append (messages ms) (message hs_finished last ++ after),
          ))
          good small in
    let grouped = whole ∙ sym (append_assoc (messages ms) (message hs_finished last) after) in
    let size = length-append (messages ms) (message hs_finished last) in
    (
      record { buf = buf },
      push_contents_fits capacity new contents (omega arith),
      ap (λ o. elim o as (λ x. Option (List ℕ)) [ none ↦ none | some end ↦ some (take end buf) ])
            found
          ∙ ap some (
              ap (take (0 + length (messages ms) + (4 + length last))) grouped
              ∙ take-append (messages ms ++ message hs_finished last) after _ (omega arith)),
    )
