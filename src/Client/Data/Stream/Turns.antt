-- ===== src/Client/Data/Stream/Turns.antt =====
-- feed_post_handshake of krabitls/src/client/engine.rs beside the machine of one byte at a time.
use krabitls_rs.Base.{
  ℕ, zero, suc, ◌+◌, ◌-◌, min, ◌≤◌, ◌<◌, ◌≡◌, inl, inr, refl, sym, ap, ◌∙◌, Bool, true, false, List,
  [], ◌∷◌, ◌++◌, length, take, drop, ltb, ◌==◌, if◌then◌else◌, Option, none, Result, ok, err, ◌>>=◌,
  append-nil, Bool-cases, arith,
}
use krabitls_rs.Base.Lists.{length-append, length-take, length-drop, get_or_past}
use krabitls_rs.Base.Bytes.{byte_at}
use krabitls_rs.Client.Errors.{HandshakeError, post_handshake_not_supported, malformed_key_update}
use krabitls_rs.Client.Data.{PostHandshakeReasm, hs_new_session_ticket, handle_message, feed_loop}
use krabitls_rs.Client.Data.Received.{idle}
use krabitls_rs.Tls.Connection.Data.{hs_key_update}
use krabitls_rs.Client.Data.Stream.{
  skipping, staged, body_len, read_header, take_byte, go_on, take_bytes, IsPartial,
}
use krabitls_rs.Client.Data.Stream.Taken.{
  take_all, stage_until_lem, take_bytes-skipping, take_bytes-staged,
}

-- A key update whose header is staged.
handle_message-key_update :
    (next : PostHandshakeReasm → List ℕ → Result HandshakeError (PostHandshakeReasm × Option Bool))
    (s bytes : List ℕ)
    → length s ≡ 4
    → (byte_at s 0 == hs_new_session_ticket) ≡ false
    → (byte_at s 0 == hs_key_update) ≡ true
    → (body_len s == 1) ≡ true
    → handle_message next s bytes ≡ take_bytes (staged s) bytes
unfolding handle_message take_bytes take_byte go_on take drop
handle_message-key_update next s [] four other update one =
    let staged_all = stage_until_lem 5 s 1 [] (omega arith) in
    let short : ltb (length (s ++ [])) 5 ≡ true = let size = length-append s [] in ground arith in
    rw (staged_all, other, update, one, short) (ap (λ t. ok (staged t, none)) (append-nil s))
handle_message-key_update next s (b ∷ []) four other update one =
    let staged_all = stage_until_lem 5 s 1 (b ∷ []) (omega arith) in
    let full : ltb (length (s ++ (b ∷ []))) 5 ≡ false =
      let size = length-append s (b ∷ []) in ground arith in
    let last : byte_at (s ++ (b ∷ [])) 4 ≡ b = get_or_past s (b ∷ []) 4 0 0 (omega arith) in
    let g1 : ltb (length s) 3 ≡ false = ground arith in
    let g2 : (length s == 3) ≡ false = ground arith in
    rw (staged_all, other, update, one, full, last, g1, g2)
      (elim (Bool-cases (ltb 1 b)) [ inl wrong ↦ rw (wrong) refl | inr flag ↦ rw (flag) refl ])
handle_message-key_update next s (b ∷ c ∷ bytes) four other update one =
    let staged_all = stage_until_lem 5 s 1 (b ∷ c ∷ bytes) (omega arith) in
    let full : ltb (length (s ++ (b ∷ []))) 5 ≡ false =
      let size = length-append s (b ∷ []) in ground arith in
    let g1 : ltb (length s) 3 ≡ false = ground arith in
    let g2 : (length s == 3) ≡ false = ground arith in
    let g3 : (suc (length bytes) == 0) ≡ false = ground arith in
    rw (staged_all, other, update, one, full, g1, g2, g3)
      (elim (Bool-cases (ltb 1 b)) [ inl wrong ↦ rw (wrong) refl | inr flag ↦ rw (flag) refl ])

-- A ticket whose header is staged.
ticket_skipped :
    (next : PostHandshakeReasm → List ℕ → Result HandshakeError (PostHandshakeReasm × Option Bool))
    (len : ℕ) (bytes : List ℕ)
    → ((rest : List ℕ) → length rest ≤ length bytes → next idle rest ≡ take_bytes idle rest)
    → (if ltb (min len (length bytes)) len
        then ok (skipping (len - min len (length bytes)), none)
        else next idle (drop (min len (length bytes)) bytes))
      ≡ take_bytes (skipping len) bytes
ticket_skipped next len bytes later =
    let skipped = take_bytes-skipping len bytes in
    elim (Bool-cases (ltb (length bytes) len)) [
      | inl short ↦
          let all : min len (length bytes) ≡ length bytes = ground (arith, short) in
          rw (all, short) (rw (skipped, short) refl)
      | inr enough ↦
          let first : min len (length bytes) ≡ len = ground (arith, enough) in
          let never : ltb len len ≡ false = ground arith in
          rw (first, never)
            (later (drop len bytes) (omega (arith, length-drop len bytes))
              ∙ sym (rw (skipped, enough) refl))
    ]

-- Any message whose header is staged.
handle_message-read_header :
    (next : PostHandshakeReasm → List ℕ → Result HandshakeError (PostHandshakeReasm × Option Bool))
    (s bytes : List ℕ)
    → length s ≡ 4
    → ((rest : List ℕ) → length rest ≤ length bytes → next idle rest ≡ take_bytes idle rest)
    → handle_message next s bytes ≡ (read_header s >>= λ ph. take_bytes ph bytes)
unfolding handle_message read_header
handle_message-read_header next s bytes four later =
    elim (Bool-cases (byte_at s 0 == hs_new_session_ticket)) [
      | inl ticket ↦ rw (ticket) (ticket_skipped next (body_len s) bytes later)
      | inr other ↦ elim (Bool-cases (byte_at s 0 == hs_key_update)) [
        | inl update ↦ elim (Bool-cases (body_len s == 1)) [
          | inl one ↦
              handle_message-key_update next s bytes four other update one
              ∙ sym (rw (other, update, one) refl)
          | inr wrong ↦ rw (other, update, wrong) refl
        ]
        | inr neither ↦ rw (other, neither) refl
      ]
    ]

-- The end of one turn of the loop, when the header is not complete before it.
turn_staged :
    (next : PostHandshakeReasm → List ℕ → Result HandshakeError (PostHandshakeReasm × Option Bool))
    (s : List ℕ) (j : ℕ) (bytes : List ℕ)
    → length s + suc j ≡ 4
    → ((rest : List ℕ) → length rest < length bytes → next idle rest ≡ take_bytes idle rest)
    → (if ltb (length (s ++ take (suc j) bytes)) 4
        then ok (staged (s ++ take (suc j) bytes), none)
        else handle_message next (s ++ take (suc j) bytes) (drop (suc j) bytes))
      ≡ take_bytes (staged s) bytes
turn_staged next s j bytes size later =
    let split = take_bytes-staged s j bytes size in
    let front = length-append s (take (suc j) bytes) in
    let cut = length-take (suc j) bytes in
    elim (Bool-cases (ltb (length bytes) (suc j))) [
      | inl short ↦
          let all : take (suc j) bytes ≡ bytes = take_all (suc j) bytes (ground (arith, short)) in
          let fewer : ltb (length s + length bytes) 4 ≡ true = ground (arith, short) in
          let size' = length-append s bytes in rw (all, size', fewer) (rw (split, short) refl)
      | inr enough ↦
          let four : length (s ++ take (suc j) bytes) ≡ 4 = ground (arith, enough) in
          let full : ltb (length (s ++ take (suc j) bytes)) 4 ≡ false = ground arith in
          let back = length-drop (suc j) bytes in
          rw (full) (
            handle_message-read_header next (s ++ take (suc j) bytes) (drop (suc j) bytes) four
              (λ rest less. later rest (ground (arith, enough)))
            ∙ sym (rw (split, enough) refl))
    ]

-- A header that waits for its flag is one of a key update.
waiting_header :
    (s : List ℕ)
    → length s ≡ 4
    → read_header s ≡ ok (staged s)
    → ((byte_at s 0 == hs_new_session_ticket) ≡ false)
      × ((byte_at s 0 == hs_key_update) ≡ true)
      × ((body_len s == 1) ≡ true)
unfolding read_header
waiting_header s four waits = elim (Bool-cases (byte_at s 0 == hs_new_session_ticket)) [
  | inl ticket ↦
      let empty : ◌≡◌ {A = Result HandshakeError PostHandshakeReasm} (ok (skipping (body_len s)))
          (ok (staged s)) =
        sym (rw (ticket) refl) ∙ waits in
      let none_staged : [] ≡ s = cc empty in absurd (omega (arith, ap length none_staged))
  | inr other ↦ elim (Bool-cases (byte_at s 0 == hs_key_update)) [
    | inl update ↦ elim (Bool-cases (body_len s == 1)) [
      | inl one ↦ (other, update, one)
      | inr wrong ↦
          let refused : ◌≡◌ {A = Result HandshakeError PostHandshakeReasm}
              (err malformed_key_update) (ok (staged s)) =
            sym (rw (other, update, wrong) refl) ∙ waits in
          absurd (cc refused)
    ]
    | inr neither ↦
        let refused : ◌≡◌ {A = Result HandshakeError PostHandshakeReasm}
            (err post_handshake_not_supported) (ok (staged s)) =
          sym (rw (other, neither) refl) ∙ waits in
        absurd (cc refused)
  ]
]

-- The turns of the loop, with what later turns do known.
module _ (fuel : ℕ) (bytes : List ℕ)
    (later : (rest : List ℕ)
      → length rest < length bytes
      → feed_loop fuel idle rest ≡ take_bytes idle rest) where
  turn_in_header :
      (s : List ℕ)
      → length s < 4
      → feed_loop (suc fuel) (staged s) bytes ≡ take_bytes (staged s) bytes
  unfolding feed_loop drop
  turn_in_header s small =
      let none_skipped : min 0 (length bytes) ≡ 0 = omega arith in
      let j = 3 - length s in
      let size : length s + suc j ≡ 4 = omega arith in
      rw (none_skipped, stage_until_lem 4 s (suc j) bytes size)
        (turn_staged (feed_loop fuel) s j bytes size later)

  turn_waiting :
      (s : List ℕ)
      → length s ≡ 4
      → read_header s ≡ ok (staged s)
      → feed_loop (suc fuel) (staged s) bytes ≡ take_bytes (staged s) bytes
  unfolding feed_loop drop take
  turn_waiting s four waits =
      let none_skipped : min 0 (length bytes) ≡ 0 = omega arith in
      let (other, update, one) = waiting_header s four waits in
      let full : ltb (length s) 4 ≡ false = ground arith in
      rw (none_skipped, stage_until_lem 4 s 0 bytes (omega arith), append-nil s, full)
        (handle_message-key_update (feed_loop fuel) s bytes four other update one)

  turn_skipping : (n : ℕ) → feed_loop (suc fuel) (skipping n) bytes ≡ take_bytes (skipping n) bytes
  unfolding feed_loop
  turn_skipping n =
      let split = take_bytes-skipping n bytes in
      elim (Bool-cases (ltb (length bytes) n)) [
        | inl short ↦
            let all : min n (length bytes) ≡ length bytes = ground (arith, short) in
            rw (all, short) (rw (split, short) refl)
        | inr enough ↦
            let first : min n (length bytes) ≡ n = ground (arith, enough) in
            let never : ltb n n ≡ false = ground arith in
            let left = length-drop n bytes in
            rw (first, never, stage_until_lem 4 [] 4 (drop n bytes) (omega arith))
              (turn_staged (feed_loop fuel) [] 3 (drop n bytes) (omega arith)
                  (λ rest less. later rest (omega arith))
                ∙ sym (rw (split, enough) refl))
      ]

-- The loop of `feed_post_handshake` does to the bytes of one record, of which it has more fuel than
-- there are, what the machine does to them one by one.
pub feed_loop-take_bytes :
    (fuel : ℕ) (ph : PostHandshakeReasm) (bytes : List ℕ)
    → IsPartial ph
    → length bytes < fuel
    → feed_loop fuel ph bytes ≡ take_bytes ph bytes
feed_loop-take_bytes zero ph bytes partial enough = absurd (omega arith)
feed_loop-take_bytes (suc fuel) ph bytes partial enough =
    let later = λ (rest : List ℕ) (less : length rest < length bytes).
      feed_loop-take_bytes fuel idle rest (inl (0, refl)) (omega arith) in
    elim partial [
      | inl (n, same) ↦ rw (same) (turn_skipping fuel bytes later n)
      | inr (inl (s, same, small)) ↦ rw (same) (turn_in_header fuel bytes later s small)
      | inr (inr (s, same, four, waits)) ↦ rw (same) (turn_waiting fuel bytes later s four waits)
    ]
