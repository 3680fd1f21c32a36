-- ===== src/Client/Data/Stream.antt =====
-- The post-handshake messages of krabitls/src/client/engine.rs as a machine that takes one byte at a
-- time.
pub mod Pieces
pub mod Taken
pub mod Turns
use krabitls_rs.Base.{
  ℕ, zero, suc, ◌+◌, ◌-◌, min, ◌≤◌, ◌<◌, ◌≡◌, ◌⊎◌, inl, inr, refl, sym, ap, ap₂, ◌∙◌, Bool, true,
  false, not, List, [], ◌∷◌, ◌++◌, length, take, drop, ltb, ◌==◌, if◌then◌else◌, Option, none, some,
  Result, ok, err, ◌>>=◌, ◌>>◌, fail_if, append-nil, append_assoc, Bool-cases, arith,
}
use krabitls_rs.Base.Lists.{length-append, length-take, length-drop, drop-drop, get_or_past}
use krabitls_rs.Base.Bytes.{byte_at, from_be_bytes}
use krabitls_rs.Client.Errors.{HandshakeError, post_handshake_not_supported, malformed_key_update}
use krabitls_rs.Client.Data.{
  PostHandshakeReasm, hs_new_session_ticket, stage_until, handle_message, feed_loop,
}
use krabitls_rs.Client.Data.Received.{idle}
use krabitls_rs.Tls.Connection.Data.{hs_key_update}

abbrev pub skipping : ℕ → PostHandshakeReasm
skipping n = record { stage = []; skip_remaining = n }

abbrev pub staged : List ℕ → PostHandshakeReasm
staged s = record { stage = s; skip_remaining = 0 }

-- The three bytes of a length after the type.
abbrev pub body_len : List ℕ → ℕ
body_len s = from_be_bytes (0 ∷ byte_at s 1 ∷ byte_at s 2 ∷ byte_at s 3 ∷ [])

-- A header of four bytes: a ticket is skipped, a key update waits for its flag.
unfoldable pub read_header : List ℕ → Result HandshakeError PostHandshakeReasm
read_header s =
    if byte_at s 0 == hs_new_session_ticket
    then ok (skipping (body_len s))
    else if byte_at s 0 == hs_key_update
    then (if body_len s == 1 then ok (staged s) else err malformed_key_update)
    else err post_handshake_not_supported

-- One byte. A key update that is complete is `some` of its flag.
unfoldable pub take_byte :
    PostHandshakeReasm → ℕ → Result HandshakeError (PostHandshakeReasm × Option Bool)
take_byte ph b =
    if ltb 0 ph.skip_remaining
    then ok (record ph { skip_remaining = ph.skip_remaining - 1 }, none)
    else if ltb (length ph.stage) 3
    then ok (staged (ph.stage ++ (b ∷ [])), none)
    else if length ph.stage == 3
    then (read_header (ph.stage ++ (b ∷ [])) >>= λ ph'. ok (ph', none))
    else if ltb 1 b
    then err malformed_key_update
    else ok (idle, some (b == 1))

-- What comes after a step: the rest of the bytes, of which a key update allows none.
unfoldable pub go_on :
    (PostHandshakeReasm → Result HandshakeError (PostHandshakeReasm × Option Bool))
    → List ℕ
    → PostHandshakeReasm × Option Bool
    → Result HandshakeError (PostHandshakeReasm × Option Bool)
go_on rest bytes (ph, none) = rest ph
go_on rest [] (ph, some flag) = ok (ph, some flag)
go_on rest (b ∷ bytes) (ph, some flag) = err malformed_key_update

unfoldable pub take_bytes :
    PostHandshakeReasm → List ℕ → Result HandshakeError (PostHandshakeReasm × Option Bool)
take_bytes ph [] = ok (ph, none)
take_bytes ph (b ∷ bytes) = take_byte ph b >>= go_on (λ ph'. take_bytes ph' bytes) bytes

-- A machine between two bytes: skipping, in a header, or before the flag of a key update.
abbrev pub IsPartial : PostHandshakeReasm → Type 0
IsPartial ph =
    ((n : ℕ) × (ph ≡ skipping n))
    ⊎ (((s : List ℕ) × (ph ≡ staged s) × (length s < 4))
        ⊎ ((s : List ℕ) × (ph ≡ staged s) × (length s ≡ 4) × (read_header s ≡ ok (staged s))))
