-- ===== src/Tls/ServerFlight/SizeLimit.antt =====
-- krabitls/src/reassembler.rs, peek_ee_record_size_limit. The loop over the extensions moves by at
-- least four bytes, so the length of the block is fuel enough.
use krabitls_rs.Base.{
  ℕ, zero, suc, ◌+◌, ◌*◌, ◌^◌, ◌<◌, ◌≡◌, refl, ap, ◌∙◌, List, [], ◌∷◌, ◌++◌, length, drop, ltb,
  ◌==◌, not, if◌then◌else◌, Option, none, some, true, false, Result, ok, err, ◌>>=◌, ◌>>◌, fail_if,
  ok_or, All, arith, sym, inl, inr, Bool-cases,
}
use mathlib.Core.Path.{fun_ext}
use krabitls_rs.Base.Lists.{length-append, drop-append}
use krabitls_rs.Base.Bytes.{
  byte_at, slice, slice-append, to_be_bytes, from_be_bytes, from_be_bytes-zero,
  from_be_bytes-to_be_bytes,
}
use krabitls_rs.Tls.Reassembler.{ServerFlightReassembler, flight_bytes}
use krabitls_rs.Tls.Reassembler.Flight.{message}
use krabitls_rs.Tls.ServerFlight.{FlightError, hs_encrypted_extensions}
use krabitls_rs.Tls.ServerFlight.Requested.{extension, extensions, IsSmallExtension}

-- `EXT_RECORD_SIZE_LIMIT`
abbrev pub ext_record_size_limit : ℕ
ext_record_size_limit = 28

-- What one extension does to the limit that was found.
unfoldable pub read_limit : Option ℕ → ℕ → List ℕ → Result FlightError (Option ℕ)
read_limit found ext_type body =
    if ext_type == ext_record_size_limit
    then (if not (length body == 2) then err FlightError.truncated else elim found [
      | some limit ↦ err (FlightError.duplicate_extension ext_type)
      | none ↦ ok (some (from_be_bytes (byte_at body 0 ∷ byte_at body 1 ∷ [])))
    ])
    else ok found

-- The loop of `peek_ee_record_size_limit`.
unfoldable pub limit_loop : ℕ → Option ℕ → List ℕ → Result FlightError (Option ℕ)
limit_loop zero found rest = err FlightError.truncated
limit_loop (suc fuel) found rest =
    let ext_type = from_be_bytes (byte_at rest 0 ∷ byte_at rest 1 ∷ []) in
    let ext_len = from_be_bytes (byte_at rest 2 ∷ byte_at rest 3 ∷ []) in
    let more = λ (found' : Option ℕ). limit_loop fuel found' (drop (4 + ext_len) rest) in
    if length rest == 0 then ok found else (do
      fail_if (ltb (length rest) 4) FlightError.truncated
      fail_if (ltb (length rest) (4 + ext_len)) FlightError.truncated
      read_limit found ext_type (slice 4 (4 + ext_len) rest) >>= more)

unfoldable pub peek_ee_record_size_limit : ServerFlightReassembler → Result FlightError (Option ℕ)
peek_ee_record_size_limit r = do
  buf ← ok_or (flight_bytes r) FlightError.truncated
  fail_if (ltb (length buf) 4) FlightError.truncated
  fail_if (not (byte_at buf 0 == hs_encrypted_extensions))
      (FlightError.unexpected_handshake_type hs_encrypted_extensions (byte_at buf 0))
  let ee_body_len = from_be_bytes (0 ∷ byte_at buf 1 ∷ byte_at buf 2 ∷ byte_at buf 3 ∷ [])
  fail_if (ltb (length buf) (4 + ee_body_len)) FlightError.truncated
  let ee_body = slice 4 (4 + ee_body_len) buf
  fail_if (ltb (length ee_body) 2) FlightError.truncated
  let ext_total = from_be_bytes (byte_at ee_body 0 ∷ byte_at ee_body 1 ∷ [])
  fail_if (not (length ee_body == 2 + ext_total)) FlightError.truncated
  limit_loop (suc (length ee_body)) none (drop 2 ee_body)

-- Extensions read one after the other.
abbrev read_limits : Option ℕ → List (ℕ × List ℕ) → Result FlightError (Option ℕ)
read_limits found [] = ok found
read_limits found (e ∷ es) = read_limit found e.0 e.1 >>= λ found'. read_limits found' es

limit_loop-extensions :
    (fuel : ℕ) (found : Option ℕ) (es : List (ℕ × List ℕ))
    → length (extensions es) < fuel
    → All IsSmallExtension es
    → limit_loop fuel found (extensions es) ≡ read_limits found es
unfolding limit_loop
limit_loop-extensions zero found es enough small = absurd (omega arith)
limit_loop-extensions (suc fuel) found [] enough small = refl
limit_loop-extensions (suc fuel) found (e ∷ es) enough small =
    let header = to_be_bytes 2 e.0 ++ to_be_bytes 2 (length e.1) in
    let rest = extension e ++ extensions es in
    let size = length-append e.1 (extensions es) in
    let type_eq = from_be_bytes-to_be_bytes 2 e.0 small.0.0 in
    let len_eq = from_be_bytes-to_be_bytes 2 (length e.1) small.0.1 in
    let body_eq : slice 4 (4 + length e.1) rest ≡ e.1 =
      slice-append header e.1 (extensions es) 4 (4 + length e.1) (omega arith) refl in
    let back : drop (4 + length e.1) rest ≡ extensions es =
      drop-append (extension e) (extensions es) (4 + length e.1) (omega arith) in
    let some_bytes : (length rest == 0) ≡ false = ground arith in
    let four : ltb (length rest) 4 ≡ false = ground arith in
    let room : ltb (length rest) (4 + length e.1) ≡ false = ground arith in
    let go = λ (found' : Option ℕ).
      ap (limit_loop fuel found') back
      ∙ limit_loop-extensions fuel found' es (omega arith) small.1 in
    rw (type_eq, len_eq, some_bytes, four, room, body_eq)
      (ap (λ k. read_limit found e.0 e.1 >>= k) (fun_ext go))

-- The data of the extensions with type 28, in their order.
abbrev pub offered_limits : List (ℕ × List ℕ) → List (List ℕ)
offered_limits [] = []
offered_limits (e ∷ es) = let rest = offered_limits es in if e.0 == 28 then e.1 ∷ rest else rest

-- A value of two bytes.
abbrev pub limit_value : List ℕ → Option ℕ
limit_value [] = none
limit_value (hi ∷ []) = none
limit_value (hi ∷ lo ∷ []) = some (hi * 256 + lo)
limit_value (hi ∷ lo ∷ x ∷ more) = none

abbrev pub second_limit : Option ℕ → Result FlightError (Option ℕ)
second_limit none = err FlightError.truncated
second_limit (some other) = err (FlightError.duplicate_extension 28)

-- A first value, and those after it.
abbrev pub first_limit : Option ℕ → List (List ℕ) → Result FlightError (Option ℕ)
first_limit none more = err FlightError.truncated
first_limit (some limit) [] = ok (some limit)
first_limit (some limit) (second ∷ more) = second_limit (limit_value second)

-- One value is the limit and no value is none. Of more values the first of a wrong length is the
-- error when it is among the first two, and else that there is a second one.
abbrev pub limit_of : List (List ℕ) → Result FlightError (Option ℕ)
limit_of [] = ok none
limit_of (first ∷ more) = first_limit (limit_value first) more

-- What one extension with type 28 does.
abbrev one_value : Option ℕ → Option ℕ → Result FlightError (Option ℕ)
one_value found none = err FlightError.truncated
one_value none (some limit) = ok (some limit)
one_value (some before) (some limit) = err (FlightError.duplicate_extension 28)

read_limit-value :
    (found : Option ℕ) (data_ : List ℕ)
    → read_limit found 28 data_ ≡ one_value found (limit_value data_)
unfolding read_limit from_be_bytes
read_limit-value found [] = refl
read_limit-value found (hi ∷ []) = refl
read_limit-value none (hi ∷ lo ∷ []) = ap (λ t. ok (some (t * 256 + lo))) (omega arith)
read_limit-value (some before) (hi ∷ lo ∷ []) = refl
read_limit-value found (hi ∷ lo ∷ x ∷ more) =
    let longer : (length (hi ∷ lo ∷ x ∷ more) == 2) ≡ false = ground arith in rw longer refl

-- The run after an extension with type 28.
value_then :
    (found value : Option ℕ) (es : List (ℕ × List ℕ))
    → ((limit : ℕ) → read_limits (some limit) es ≡ first_limit (some limit) (offered_limits es))
    → (one_value found value >>= λ found'. read_limits found' es)
      ≡ elim found as (λ x. Result FlightError (Option ℕ)) [
        | none ↦ first_limit value (offered_limits es)
        | some limit ↦ second_limit value
      ]
value_then none none es go = refl
value_then none (some limit) es go = go limit
value_then (some before) none es go = refl
value_then (some before) (some limit) es go = refl

read_limits-some :
    (limit : ℕ) (es : List (ℕ × List ℕ))
    → read_limits (some limit) es ≡ first_limit (some limit) (offered_limits es)
unfolding read_limit
read_limits-some limit [] = refl
read_limits-some limit (e ∷ es) = elim (Bool-cases (e.0 == 28)) [
  | inl here ↦
      let kind : e.0 ≡ 28 = ground (arith, here) in
      let listed : offered_limits (e ∷ es) ≡ e.1 ∷ offered_limits es = rw here refl in
      ap (λ k. read_limit (some limit) k e.1 >>= λ found'. read_limits found' es) kind
      ∙ ap (λ m. m >>= λ found'. read_limits found' es) (read_limit-value (some limit) e.1)
      ∙ value_then (some limit) (limit_value e.1) es (λ l. read_limits-some l es)
      ∙ sym (ap (first_limit (some limit)) listed)
  | inr other ↦ rw other (read_limits-some limit es)
]

read_limits-none : (es : List (ℕ × List ℕ)) → read_limits none es ≡ limit_of (offered_limits es)
unfolding read_limit
read_limits-none [] = refl
read_limits-none (e ∷ es) = elim (Bool-cases (e.0 == 28)) [
  | inl here ↦
      let kind : e.0 ≡ 28 = ground (arith, here) in
      let listed : offered_limits (e ∷ es) ≡ e.1 ∷ offered_limits es = rw here refl in
      ap (λ k. read_limit none k e.1 >>= λ found'. read_limits found' es) kind
      ∙ ap (λ m. m >>= λ found'. read_limits found' es) (read_limit-value none e.1)
      ∙ value_then none (limit_value e.1) es (λ l. read_limits-some l es)
      ∙ sym (ap limit_of listed)
  | inr other ↦ rw other (read_limits-none es)
]

-- Of a complete flight that starts with EncryptedExtensions, whose extensions are within their
-- length fields, the limit is the two-byte value of the one extension with type 28, none without
-- such an extension, and an error for a second one or a value that is not two bytes.
pub peek_ee_record_size_limit-message :
    (r : ServerFlightReassembler) (es : List (ℕ × List ℕ)) (after : List ℕ)
    → flight_bytes r
      ≡ some (
          message hs_encrypted_extensions (to_be_bytes 2 (length (extensions es)) ++ extensions es)
          ++ after)
    → length (extensions es) < 2 ^ 16
    → All IsSmallExtension es
    → peek_ee_record_size_limit r ≡ limit_of (offered_limits es)
unfolding peek_ee_record_size_limit drop
peek_ee_record_size_limit-message r es after flight small_exts small =
    let exts = extensions es in
    let body = to_be_bytes 2 (length exts) ++ exts in
    let buf = message hs_encrypted_extensions body ++ after in
    let size = length-append body after in
    let len : from_be_bytes (0 ∷ to_be_bytes 3 (length body)) ≡ length body =
      from_be_bytes-zero (to_be_bytes 3 (length body))
      ∙ from_be_bytes-to_be_bytes 3 (length body) (omega arith) in
    let four : ltb (length buf) 4 ≡ false = ground arith in
    let room : ltb (length buf) (4 + length body) ≡ false = ground arith in
    let body_eq : slice 4 (4 + length body) buf ≡ body =
      slice-append (hs_encrypted_extensions ∷ to_be_bytes 3 (length body)) body after 4
        (4 + length body) refl refl in
    let total = from_be_bytes-to_be_bytes 2 (length exts) small_exts in
    let two : ltb (length body) 2 ≡ false = ground arith in
    let exact : (length body == 2 + length exts) ≡ true = ground arith in
    rw (flight, four, len, room, body_eq, two, total, exact) refl
    ∙ limit_loop-extensions (suc (length body)) none es (omega arith) small
    ∙ read_limits-none es
