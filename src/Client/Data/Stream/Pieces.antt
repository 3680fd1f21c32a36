-- ===== src/Client/Data/Stream/Pieces.antt =====
-- The post-handshake messages of krabitls/src/client/engine.rs however they are cut into records.
use krabitls_rs.Base.{
  ℕ, zero, suc, ◌-◌, ◌≤◌, ◌≡◌, inl, inr, refl, sym, ap, subst, ◌∙◌, Bool, true, false, List, [],
  ◌∷◌, ◌++◌, length, ltb, ◌==◌, Option, none, some, Result, ok, err, ◌>>=◌, Bool-cases, arith,
}
use krabitls_rs.Base.Lists.{length-append}
use krabitls_rs.Base.Results.{>>=-eq-ok}
use krabitls_rs.Base.Bytes.{byte_at}
use krabitls_rs.Client.Errors.{HandshakeError, post_handshake_not_supported, malformed_key_update}
use krabitls_rs.Client.Data.{PostHandshakeReasm, hs_new_session_ticket, feed_loop}
use krabitls_rs.Client.Data.Received.{idle}
use krabitls_rs.Tls.Connection.Data.{hs_key_update}
use krabitls_rs.Client.Data.Stream.{
  skipping, staged, body_len, read_header, take_byte, go_on, take_bytes, IsPartial,
}
use krabitls_rs.Client.Data.Stream.Turns.{feed_loop-take_bytes}

-- What comes after the content of a record: the flag of its key update is listed, and the next
-- record is taken.
unfoldable pub collect :
    (PostHandshakeReasm → Result HandshakeError (PostHandshakeReasm × List Bool))
    → PostHandshakeReasm × Option Bool
    → Result HandshakeError (PostHandshakeReasm × List Bool)
collect rest (ph, none) = rest ph
collect rest (ph, some flag) = rest ph >>= λ r. ok (r.0, flag ∷ r.1)

-- The loop of `feed_post_handshake` on the contents of records one after the other, and the flags of
-- the key updates that it gives out.
unfoldable pub feed_pieces :
    PostHandshakeReasm → List (List ℕ) → Result HandshakeError (PostHandshakeReasm × List Bool)
feed_pieces ph [] = ok (ph, [])
feed_pieces ph (content ∷ contents) =
    feed_loop (suc (length content)) ph content >>= collect (λ ph'. feed_pieces ph' contents)

abbrev pub is_empty : List ℕ → Bool
is_empty [] = true
is_empty (b ∷ bytes) = false

-- The bytes of a content, each with whether it is the last one.
abbrev pub marks : List ℕ → List (ℕ × Bool)
marks [] = []
marks (b ∷ bytes) = (b, is_empty bytes) ∷ marks bytes

abbrev pub all_marks : List (List ℕ) → List (ℕ × Bool)
all_marks [] = []
all_marks (content ∷ contents) = marks content ++ all_marks contents

-- After a byte: a key update must end with the last byte of a record.
unfoldable pub close :
    (PostHandshakeReasm → Result HandshakeError (PostHandshakeReasm × List Bool))
    → Bool
    → PostHandshakeReasm × Option Bool
    → Result HandshakeError (PostHandshakeReasm × List Bool)
close rest last (ph, none) = rest ph
close rest true (ph, some flag) = rest ph >>= λ r. ok (r.0, flag ∷ r.1)
close rest false (ph, some flag) = err malformed_key_update

-- The machine on the bytes of all records.
unfoldable pub take_marked :
    PostHandshakeReasm → List (ℕ × Bool) → Result HandshakeError (PostHandshakeReasm × List Bool)
take_marked ph [] = ok (ph, [])
take_marked ph ((b, last) ∷ bytes) = take_byte ph b >>= close (λ ph'. take_marked ph' bytes) last

abbrev Header : Type 0
Header = Result HandshakeError PostHandshakeReasm

read_header-IsPartial :
    (s : List ℕ) (ph : PostHandshakeReasm) → length s ≡ 4 → read_header s ≡ ok ph → IsPartial ph
unfolding read_header
read_header-IsPartial s ph four run = elim (Bool-cases (byte_at s 0 == hs_new_session_ticket)) [
  | inl ticket ↦
      let skips : ◌≡◌ {A = Header} (ok (skipping (body_len s))) (ok ph) =
        sym (rw (ticket) refl) ∙ run in
      inl (body_len s, sym (cc skips))
  | inr other ↦ elim (Bool-cases (byte_at s 0 == hs_key_update)) [
    | inl update ↦ elim (Bool-cases (body_len s == 1)) [
      | inl one ↦
          let waits : ◌≡◌ {A = Header} (ok (staged s)) (ok ph) =
            sym (rw (other, update, one) refl) ∙ run in
          inr (inr (s, sym (cc waits), four, run ∙ sym waits))
      | inr wrong ↦
          let refused : ◌≡◌ {A = Header} (err malformed_key_update) (ok ph) =
            sym (rw (other, update, wrong) refl) ∙ run in
          absurd (cc refused)
    ]
    | inr neither ↦
        let refused : ◌≡◌ {A = Header} (err post_handshake_not_supported) (ok ph) =
          sym (rw (other, neither) refl) ∙ run in
        absurd (cc refused)
  ]
]

-- A byte leaves the machine between two bytes.
abbrev Keeps : Result HandshakeError (PostHandshakeReasm × Option Bool) → Type 0
Keeps m = (ph' : PostHandshakeReasm) (update : Option Bool) → m ≡ ok (ph', update) → IsPartial ph'

read_header-Keeps : (s : List ℕ) → length s ≡ 4 → Keeps (read_header s >>= λ ph. ok (ph, none))
read_header-Keeps s four ph' update run =
    let (ph, header, same) = >>=-eq-ok (read_header s) _ (ph', update) run in
    let same_ph : ph ≡ ph' = cc same in
    subst IsPartial same_ph (read_header-IsPartial s ph four header)

take_byte-staged : (s : List ℕ) (b : ℕ) → length s ≤ 4 → Keeps (take_byte (staged s) b)
unfolding take_byte
take_byte-staged s b small ph' update run =
    let size = length-append s (b ∷ []) in
    elim (Bool-cases (ltb (length s) 3)) [
      | inl fewer ↦
          let more : ◌≡◌ {A = Result HandshakeError (PostHandshakeReasm × Option Bool)}
              (ok (staged (s ++ (b ∷ [])), none)) (ok (ph', update)) =
            sym (rw (fewer) refl) ∙ run in
          inr (inl (s ++ (b ∷ []), sym (cc more), ground (arith, fewer)))
      | inr enough ↦ elim (Bool-cases (length s == 3)) [
        | inl three ↦
            read_header-Keeps (s ++ (b ∷ [])) (ground (arith, three)) ph' update
              (sym (rw (enough, three) refl) ∙ run)
        | inr four ↦ elim (Bool-cases (ltb 1 b)) [
          | inl wrong ↦
              let refused : ◌≡◌ {A = Result HandshakeError (PostHandshakeReasm × Option Bool)}
                  (err malformed_key_update) (ok (ph', update)) =
                sym (rw (enough, four, wrong) refl) ∙ run in
              absurd (cc refused)
          | inr flag ↦
              let done : ◌≡◌ {A = Result HandshakeError (PostHandshakeReasm × Option Bool)}
                  (ok (idle, some (b == 1))) (ok (ph', update)) =
                sym (rw (enough, four, flag) refl) ∙ run in
              inl (0, sym (cc done))
        ]
      ]
    ]

take_byte-skipping : (n b : ℕ) → Keeps (take_byte (skipping (suc n)) b)
unfolding take_byte
take_byte-skipping n b ph' update run =
    let some_left : ltb 0 (suc n) ≡ true = ground arith in
    let one_less : ◌≡◌ {A = Result HandshakeError (PostHandshakeReasm × Option Bool)}
        (ok (skipping (suc n - 1), none)) (ok (ph', update)) =
      sym (rw (some_left) refl) ∙ run in
    inl (suc n - 1, sym (cc one_less))

take_byte-IsPartial : (ph : PostHandshakeReasm) (b : ℕ) → IsPartial ph → Keeps (take_byte ph b)
take_byte-IsPartial ph b (inl (zero, same)) =
    subst (λ x. Keeps (take_byte x b)) (sym same) (take_byte-staged [] b (omega arith))
take_byte-IsPartial ph b (inl (suc n, same)) =
    subst (λ x. Keeps (take_byte x b)) (sym same) (take_byte-skipping n b)
take_byte-IsPartial ph b (inr (inl (s, same, small))) =
    subst (λ x. Keeps (take_byte x b)) (sym same) (take_byte-staged s b (omega arith))
take_byte-IsPartial ph b (inr (inr (s, same, four, waits))) =
    subst (λ x. Keeps (take_byte x b)) (sym same) (take_byte-staged s b (omega arith))

abbrev Step : Type 0
Step = Result HandshakeError (PostHandshakeReasm × Option Bool)

go_on-Keeps :
    (m : Step) (f : PostHandshakeReasm → Step) (bytes : List ℕ)
    → Keeps m
    → ((ph : PostHandshakeReasm) → IsPartial ph → Keeps (f ph))
    → Keeps (m >>= go_on f bytes)
unfolding go_on
go_on-Keeps (err e) f bytes kept later ph' update run = absurd (cc run)
go_on-Keeps (ok (ph, none)) f bytes kept later ph' update run =
    later ph (kept ph none refl) ph' update run
go_on-Keeps (ok (ph, some flag)) f [] kept later ph' update run = kept ph' update run
go_on-Keeps (ok (ph, some flag)) f (x ∷ bytes) kept later ph' update run = absurd (cc run)

take_bytes-IsPartial :
    (ph : PostHandshakeReasm) (bytes : List ℕ) → IsPartial ph → Keeps (take_bytes ph bytes)
unfolding take_bytes
take_bytes-IsPartial ph [] partial ph' update run = subst IsPartial (cc run) partial
take_bytes-IsPartial ph (x ∷ bytes) partial ph' update run =
    go_on-Keeps (take_byte ph x) (λ next. take_bytes next bytes) bytes
      (take_byte-IsPartial ph x partial) (λ next partial'. take_bytes-IsPartial next bytes partial')
      ph' update run

abbrev Flags : Type 0
Flags = Result HandshakeError (PostHandshakeReasm × List Bool)

same_step :
    (m : Step) (f g : PostHandshakeReasm → Flags)
    → Keeps m
    → ((ph : PostHandshakeReasm) → IsPartial ph → f ph ≡ g ph)
    → (m >>= collect f) ≡ (m >>= collect g)
unfolding collect
same_step (err e) f g kept same = refl
same_step (ok (ph, none)) f g kept same = same ph (kept ph none refl)
same_step (ok (ph, some flag)) f g kept same =
    ap (λ (r : Flags). r >>= λ x. ok (x.0, flag ∷ x.1)) (same ph (kept ph (some flag) refl))

close_step :
    (m : Step) (bytes : List ℕ) (f : PostHandshakeReasm → Flags) (k : PostHandshakeReasm → Flags)
    → ((ph : PostHandshakeReasm) → f ph ≡ (take_bytes ph bytes >>= collect k))
    → (m >>= close f (is_empty bytes))
      ≡ ((m >>= go_on (λ ph'. take_bytes ph' bytes) bytes) >>= collect k)
unfolding close go_on collect take_bytes
close_step (err e) bytes f k later = refl
close_step (ok (ph, none)) bytes f k later = later ph
close_step (ok (ph, some flag)) [] f k later =
    ap (λ (r : Flags). r >>= λ x. ok (x.0, flag ∷ x.1)) (later ph)
close_step (ok (ph, some flag)) (x ∷ bytes) f k later = refl

-- One record on the machine.
take_marked-marks :
    (ph : PostHandshakeReasm) (content : List ℕ) (rest : List (ℕ × Bool))
    → take_marked ph (marks content ++ rest)
      ≡ (take_bytes ph content >>= collect (λ ph'. take_marked ph' rest))
unfolding take_marked take_bytes collect
take_marked-marks ph [] rest = refl
take_marked-marks ph (b ∷ content) rest =
    close_step (take_byte ph b) content (λ ph'. take_marked ph' (marks content ++ rest))
      (λ ph'. take_marked ph' rest) (λ ph'. take_marked-marks ph' content rest)

-- Post-handshake messages, however they are cut into records and from any state between two bytes,
-- go through the loop of `feed_post_handshake` as through a machine that takes the bytes one by one
-- and knows of the records only which bytes are the last ones: the same state at the end and the
-- same key updates, or the same error, which a key update that does not end its record is too.
pub feed_pieces-take_marked :
    (ph : PostHandshakeReasm) (contents : List (List ℕ))
    → IsPartial ph
    → feed_pieces ph contents ≡ take_marked ph (all_marks contents)
unfolding feed_pieces take_marked
feed_pieces-take_marked ph [] partial = refl
feed_pieces-take_marked ph (content ∷ contents) partial =
    ap (λ (m : Step). m >>= collect (λ ph'. feed_pieces ph' contents))
      (feed_loop-take_bytes (suc (length content)) ph content partial (omega arith))
    ∙ same_step (take_bytes ph content) _ _ (take_bytes-IsPartial ph content partial)
        (λ ph' partial'. feed_pieces-take_marked ph' contents partial')
    ∙ sym (take_marked-marks ph content (all_marks contents))
