-- ===== src/Tls/ServerFlight/Messages.antt =====
-- What krabitls/src/server_flight.rs parses as a server's flight.
use krabitls_rs.Base.{
  ℕ, suc, ◌+◌, ◌-◌, ◌^◌, ◌≤◌, ◌<◌, ◌≡◌, refl, sym, subst, ap, ◌∙◌, List, [], ◌∷◌, ◌++◌, length,
  take, drop, ltb, false, ok, ◌>>◌, fail_if, fail_if-eq-ok, arith,
}
use krabitls_rs.Base.Lists.{
  length-append, drop-drop, get_or-drop, take-append, drop-append, take-append-drop, length-take,
  All-append,
}
use krabitls_rs.Base.Bytes.{
  IsBytes, byte_at, to_be_bytes, from_be_bytes, from_be_bytes-zero, from_be_bytes-to_be_bytes,
  to_be_bytes-from_be_bytes, from_be_bytes-lt,
}
use krabitls_rs.Tls.Reassembler.Flight.{message}
use krabitls_rs.Tls.ServerFlight.{FlightError, HsReader, HsMsg, next_msg}

-- The reader stands before `s`, which reaches to the end of its buffer.
pub record IsAt (r : HsReader) (s : List ℕ) : Type 0 where
  pub rest_eq : drop r.pos r.buf ≡ s
  pub inside : r.pos + length s ≡ length r.buf

-- The three bytes after the type.
abbrev len_of : List ℕ → ℕ
len_of s = from_be_bytes (0 ∷ byte_at s 1 ∷ byte_at s 2 ∷ byte_at s 3 ∷ [])

-- What `next_msg` makes of the bytes before which the reader stands.
next_msg_lem :
    (r : HsReader) (s : List ℕ)
    → IsAt r s
    → next_msg r ≡ (do
      fail_if (ltb (length s) 4) FlightError.truncated
      fail_if (ltb (length s - 4) (len_of s)) FlightError.truncated
      ok (
        record {
          msg_type = byte_at s 0;
          body = take (len_of s) (drop 4 s);
          full = take (4 + len_of s) s;
        },
        record r { pos = r.pos + (4 + len_of s) },
      ))
unfolding next_msg
next_msg_lem r s here =
    let byte = λ (k : ℕ). sym (get_or-drop r.pos k r.buf 0) ∙ ap (λ t. byte_at t k) here.rest_eq in
    let first : byte_at r.buf r.pos ≡ byte_at s 0 = ap (byte_at r.buf) (omega arith) ∙ byte 0 in
    let cut = sym (drop-drop r.pos 4 r.buf) ∙ ap (drop 4) here.rest_eq in
    let inside = here.inside in
    let whole = here.rest_eq in
    let short : ltb (length r.buf) (r.pos + 4) ≡ ltb (length s) 4 = ground arith in
    let left : length r.buf - r.pos - 4 ≡ length s - 4 = omega arith in
    let body_len : r.pos + 4 + len_of s - (r.pos + 4) ≡ len_of s = omega arith in
    let full_len : r.pos + 4 + len_of s - r.pos ≡ 4 + len_of s = omega arith in
    let end : r.pos + 4 + len_of s ≡ r.pos + (4 + len_of s) = omega arith in
    rw (byte 1, byte 2, byte 3, first, short, left, body_len, full_len, cut, whole, end) refl

-- A reader that moves over the first part of what it stands before.
after_cut :
    (r : HsReader) (front back : List ℕ) (n : ℕ)
    → IsAt r (front ++ back)
    → n ≡ length front
    → IsAt (record r { pos = r.pos + n }) back
after_cut r front back n here same =
    let size = length-append front back in
    let whole = here.inside in
    record {
      rest_eq =
          sym (drop-drop r.pos n r.buf) ∙ ap (drop n) here.rest_eq ∙ drop-append front back n same;
      inside = omega arith;
    }

-- A message of less than 2^24 bytes is read.
pub next_msg-message :
    (r : HsReader) (msg_type : ℕ) (body after : List ℕ)
    → IsAt r (message msg_type body ++ after)
    → length body < 2 ^ 24
    → (r' : HsReader) × (next_msg r
        ≡ ok (record { msg_type = msg_type; body = body; full = message msg_type body }, r'))
      × IsAt r' after
next_msg-message r msg_type body after here small =
    let s = message msg_type body ++ after in
    let len : len_of s ≡ length body =
      from_be_bytes-zero (to_be_bytes 3 (length body))
      ∙ from_be_bytes-to_be_bytes 3 (length body) small in
    let size = length-append body after in
    let enough : ltb (length s) 4 ≡ false = ground arith in
    let room : ltb (length s - 4) (length body) ≡ false = ground arith in
    let body_eq : take (length body) (drop 4 s) ≡ body =
      ap (take (length body))
        (drop-append (msg_type ∷ to_be_bytes 3 (length body)) (body ++ after) 4 refl)
      ∙ take-append body after (length body) refl in
    let full_eq : take (4 + length body) s ≡ message msg_type body =
      take-append (message msg_type body) after (4 + length body) (omega arith) in
    (
      record r { pos = r.pos + (4 + length body) },
      next_msg_lem r s here ∙ rw (len, enough, room, body_eq, full_eq) refl,
      after_cut r (message msg_type body) after (4 + length body) here (omega arith),
    )

-- What was read by `next_msg` from `s`, with what is left.
pub record IsRead (s : List ℕ) (m : HsMsg) (r' : HsReader) : Type 0 where
  pub after : List ℕ
  pub split : s ≡ message m.msg_type m.body ++ after
  pub framed : m.full ≡ message m.msg_type m.body
  pub small : length m.body < 2 ^ 24
  pub moved : IsAt r' after
  pub bytes : IsBytes after

-- Four bytes and what follows them are a message when the length in them is there.
four_bytes :
    (s : List ℕ)
    → IsBytes s
    → 4 ≤ length s
    → len_of s ≤ length s - 4
    → (take (4 + len_of s) s ≡ message (byte_at s 0) (take (len_of s) (drop 4 s)))
      × (len_of s < 2 ^ 24)
      × (length (take (len_of s) (drop 4 s)) ≡ len_of s)
unfolding take drop
four_bytes [] bytes four room = absurd (omega arith)
four_bytes (a ∷ []) bytes four room = absurd (omega arith)
four_bytes (a ∷ b ∷ []) bytes four room = absurd (omega arith)
four_bytes (a ∷ b ∷ c ∷ []) bytes four room = absurd (omega arith)
four_bytes (a ∷ b ∷ c ∷ d ∷ s) bytes four room =
    let (ha, others) = bytes in
    let (hb, others') = others in
    let (hc, others'') = others' in
    let (hd, hs) = others'' in
    let digits = b ∷ c ∷ d ∷ [] in
    let digits_IsBytes : IsBytes digits = (hb, (hc, (hd, tt))) in
    let len = len_of (a ∷ b ∷ c ∷ d ∷ s) in
    let same : len ≡ from_be_bytes digits = from_be_bytes-zero digits in
    let below : from_be_bytes digits < 2 ^ 24 = from_be_bytes-lt digits digits_IsBytes in
    let count : length (take len s) ≡ len = omega (arith, length-take len s, room) in
    let written : to_be_bytes 3 (length (take len s)) ≡ digits =
      ap (to_be_bytes 3) (count ∙ same) ∙ to_be_bytes-from_be_bytes digits digits_IsBytes in
    let next : 4 + len ≡ suc (suc (suc (suc len))) = omega arith in
    (
      ap (λ t. take t (a ∷ b ∷ c ∷ d ∷ s)) next ∙ ap (λ t. a ∷ (t ++ take len s)) (sym written),
      omega (arith, same, below),
      count,
    )

-- What was read is a message, and the reader stands behind it.
pub next_msg-eq-ok :
    (r : HsReader) (s : List ℕ) (m : HsMsg) (r' : HsReader)
    → IsAt r s
    → IsBytes s
    → next_msg r ≡ ok (m, r')
    → IsRead s m r'
next_msg-eq-ok r s m r' here bytes h =
    let (four, h1) = fail_if-eq-ok (ltb (length s) 4) _ _ _ (sym (next_msg_lem r s here) ∙ h) in
    let (room, h2) = fail_if-eq-ok (ltb (length s - 4) (len_of s)) _ _ _ h1 in
    let full = take (4 + len_of s) s in
    let back = drop (4 + len_of s) s in
    let body = take (len_of s) (drop 4 s) in
    let four_le : 4 ≤ length s = ground arith in
    let room_le : len_of s ≤ length s - 4 = ground arith in
    let (framed, small, count) = four_bytes s bytes four_le room_le in
    let cut : s ≡ full ++ back = sym (take-append-drop (4 + len_of s) s) in
    let size : 4 + len_of s ≡ length full = omega (arith, length-take (4 + len_of s) s) in
    let (front, behind) = All-append _ full back (subst IsBytes cut bytes) in
    let read : IsRead s (record { msg_type = byte_at s 0; body = body; full = full })
        (record r { pos = r.pos + (4 + len_of s) }) =
      record {
        after = back;
        split = cut ∙ ap (λ t. t ++ back) framed;
        framed = framed;
        small = omega (arith, count, small);
        moved = after_cut r full back (4 + len_of s) (subst (IsAt r) cut here) size;
        bytes = behind;
      } in
    let found : (
      record { msg_type = byte_at s 0; body = body; full = full },
      record r { pos = r.pos + (4 + len_of s) },
    )
        ≡ (m, r') =
      cc h2 in
    subst (λ (p : HsMsg × HsReader). IsRead s p.0 p.1) found read
