-- ===== src/Tls/ServerFlight/Requested.antt =====
-- What krabitls/src/server_flight.rs reads of a CertificateRequest.
use krabitls_rs.Base.{
  ℕ, zero, suc, ◌+◌, ◌-◌, ◌%◌, ◌^◌, ◌≤◌, ◌<◌, ◌≡◌, ◌≢◌, bit_and, refl, sym, ap, ◌∙◌, List, [], ◌∷◌,
  ◌++◌, length, drop, leb, ltb, ◌==◌, if◌then◌else◌, Option, none, some, true, false, Result, ok,
  ◌>>=◌, arith, All, append_assoc, append-nil,
}
use krabitls_rs.Base.Masks.{bit_and-low}
use krabitls_rs.Base.Lists.{length-append, drop-append, get_or_past}
use krabitls_rs.Base.Bytes.{
  slice, slice-append, get_range, get_range-append, to_be_bytes, from_be_bytes-to_be_bytes,
}
use krabitls_rs.Tls.Reassembler.Flight.{message}
use krabitls_rs.Tls.ServerFlight.{FlightError, hs_certificate_request}
use krabitls_rs.Tls.ServerFlight.Request.{
  cert_request_parts, certificate_request_context, certificate_request_sig_algs, sig_algs_loop,
  scheme_list, ext_signature_algorithms,
}

-- The body of a CertificateRequest: a context and a block of extensions, each after its length.
abbrev pub request_body : List ℕ → List ℕ → List ℕ
request_body context exts = length context ∷ (context ++ (to_be_bytes 2 (length exts) ++ exts))

-- The parts of a CertificateRequest are read back.
cert_request_parts-message :
    (context exts : List ℕ)
    → length context < 2 ^ 8
    → length exts < 2 ^ 16
    → cert_request_parts (message hs_certificate_request (request_body context exts))
      ≡ ok (context, exts)
unfolding cert_request_parts
cert_request_parts-message context exts context_lt exts_lt =
    let n = length context in
    let len2 = to_be_bytes 2 (length exts) in
    let body = request_body context exts in
    let tail = len2 ++ exts in
    let size = length-append context tail in
    let whole = message hs_certificate_request body in
    let front = hs_certificate_request ∷ to_be_bytes 3 (length body) in
    let body_eq : get_range 4 (length whole) whole ≡ some body =
      ap (λ t. get_range 4 (length whole) (front ++ t)) (sym (append-nil body))
      ∙ get_range-append front body [] 4 (length whole) (omega arith) (omega arith) in
    let context_eq : get_range 1 (1 + n) body ≡ some context =
      get_range-append (n ∷ []) context tail 1 (1 + n) (omega arith) (omega arith) in
    let len_eq : get_range (1 + n) (1 + n + 2) body ≡ some len2 =
      get_range-append (n ∷ context) len2 exts (1 + n) (1 + n + 2) (omega arith) (omega arith) in
    let grouped : body ≡ ((n ∷ context) ++ len2) ++ exts =
      sym (append_assoc (n ∷ context) len2 exts) in
    let front_size = length-append context len2 in
    let exts_eq : drop (1 + n + 2) body ≡ exts =
      ap (drop (1 + n + 2)) grouped
      ∙ drop-append ((n ∷ context) ++ len2) exts (1 + n + 2) (omega arith) in
    let count : length body - (1 + n + 2) ≡ length exts = omega arith in
    let read = from_be_bytes-to_be_bytes 2 (length exts) exts_lt in
    let exact : ltb (length exts) (length exts) ≡ false = ground arith in
    let some_bytes : ltb (length whole) 1 ≡ false = ground arith in
    rw (some_bytes, body_eq, context_eq, len_eq, count, read, exact, exts_eq) refl

-- An extension: its type, and its data after their length.
abbrev pub extension : ℕ × List ℕ → List ℕ
extension e = to_be_bytes 2 e.0 ++ (to_be_bytes 2 (length e.1) ++ e.1)

abbrev pub extensions : List (ℕ × List ℕ) → List ℕ
extensions [] = []
extensions (e ∷ es) = extension e ++ extensions es

abbrev pub IsSmallExtension : ℕ × List ℕ → Type 0
IsSmallExtension e = (e.0 < 2 ^ 16) × (length e.1 < 2 ^ 16)

-- The schemes of the first signature_algorithms extension, or none.
abbrev first_schemes : List (ℕ × List ℕ) → Result FlightError (List ℕ)
first_schemes [] = ok []
first_schemes (e ∷ es) =
    let rest = first_schemes es in if e.0 == ext_signature_algorithms then scheme_list e.1 else rest

one_extension :
    (fuel : ℕ) (before : List ℕ) (etype : ℕ) (data_ after : List ℕ) (i : ℕ)
    → i ≡ length before
    → IsSmallExtension (etype, data_)
    → sig_algs_loop (suc fuel) (before ++ (extension (etype, data_) ++ after)) i ≡ (
        if etype == ext_signature_algorithms
        then scheme_list data_
        else sig_algs_loop fuel
            (before ++ (extension (etype, data_) ++ after))
            (i + length (extension (etype, data_))))
unfolding sig_algs_loop
one_extension fuel before etype data_ after i here small =
    let (etype_lt, data_lt) = small in
    let header = to_be_bytes 2 etype ++ to_be_bytes 2 (length data_) in
    let list = before ++ (header ++ (data_ ++ after)) in
    let byte =
      λ (k : ℕ). get_or_past before (header ++ (data_ ++ after)) (i + k) k 0 (omega arith) in
    let first = get_or_past before (header ++ (data_ ++ after)) i 0 0 (omega arith) in
    let type_eq = from_be_bytes-to_be_bytes 2 etype etype_lt in
    let len_eq = from_be_bytes-to_be_bytes 2 (length data_) data_lt in
    let head = length-append before header in
    let found : slice (i + 4) (i + 4 + length data_) list ≡ data_ =
      ap (slice (i + 4) (i + 4 + length data_)) (sym (append_assoc before header (data_ ++ after)))
      ∙ slice-append (before ++ header) data_ after (i + 4) (i + 4 + length data_) (omega arith)
          refl in
    let size1 = length-append before (header ++ (data_ ++ after)) in
    let size2 = length-append data_ after in
    let next : i + 4 + length data_ ≡ i + length (extension (etype, data_)) = omega arith in
    rw (first, byte 1, byte 2, byte 3, type_eq, len_eq, found, next) (ground arith)

sig_algs_loop-extensions :
    (fuel : ℕ) (before : List ℕ) (es : List (ℕ × List ℕ)) (i : ℕ)
    → i ≡ length before
    → length (extensions es) < fuel
    → All IsSmallExtension es
    → sig_algs_loop fuel (before ++ extensions es) i ≡ first_schemes es
unfolding sig_algs_loop
sig_algs_loop-extensions zero before es i here enough small = absurd (omega arith)
sig_algs_loop-extensions (suc fuel) before [] i here enough small =
    let whole = append-nil before in
    let done : leb 4 (length before - i) ≡ false = ground arith in
    let end : (i == length before) ≡ true = ground arith in rw (whole, done, end) refl
sig_algs_loop-extensions (suc fuel) before (e ∷ es) i here enough small =
    let first = extension e in
    let size = length-append before first in
    let size' = length-append first (extensions es) in
    let go =
      sig_algs_loop-extensions fuel (before ++ first) es (i + length first) (omega arith)
        (omega arith) small.1 in
    one_extension fuel before e.0 e.1 (extensions es) i here small.0
    ∙ ap (λ t. if e.0 == ext_signature_algorithms then scheme_list e.1 else t)
        (ap (λ l. sig_algs_loop fuel l (i + length first))
            (sym (append_assoc before first (extensions es)))
          ∙ go)

-- The extensions before the first one with type 13, and, when there is one, the schemes that it
-- lists and the extensions after it.
abbrev pub asked_extensions :
    List (ℕ × List ℕ) → Option (List ℕ × List (ℕ × List ℕ)) → List (ℕ × List ℕ)
asked_extensions before none = before
asked_extensions before (some (schemes, after)) =
    before ++ (13, to_be_bytes 2 (length schemes) ++ schemes) ∷ after

abbrev pub asked_schemes : Option (List ℕ × List (ℕ × List ℕ)) → List ℕ
asked_schemes none = []
asked_schemes (some (schemes, after)) = schemes

-- A list of schemes has two bytes for each, and at least one.
abbrev pub IsSchemes : Option (List ℕ × List (ℕ × List ℕ)) → Type 0
IsSchemes none = Unit
IsSchemes (some (schemes, after)) = (2 ≤ length schemes) × (length schemes % 2 ≡ 0)

scheme_list-written :
    (schemes : List ℕ)
    → length schemes < 2 ^ 16
    → 2 ≤ length schemes
    → length schemes % 2 ≡ 0
    → scheme_list (to_be_bytes 2 (length schemes) ++ schemes) ≡ ok schemes
unfolding scheme_list
scheme_list-written schemes lt least even =
    let n = length schemes in
    let front = to_be_bytes 2 n in
    let data_ = front ++ schemes in
    let size = length-append front schemes in
    let len_eq : get_range 0 2 data_ ≡ some front =
      get_range-append [] front schemes 0 2 refl refl in
    let read = from_be_bytes-to_be_bytes 2 n lt in
    let found : slice 2 (2 + n) data_ ≡ schemes =
      ap (λ t. slice 2 (2 + n) (front ++ t)) (sym (append-nil schemes))
      ∙ slice-append front schemes [] 2 (2 + n) refl refl in
    let exact : (n == length data_ - 2) ≡ true = ground arith in
    let two : ltb n 2 ≡ false = ground arith in
    let pairs : bit_and n 1 ≡ 0 = bit_and-low 1 n ∙ even in
    rw (len_eq, read, exact, two, pairs, found) refl

first_schemes-append :
    (before : List (ℕ × List ℕ)) (es : List (ℕ × List ℕ))
    → All (λ e. e.0 ≢ 13) before
    → first_schemes (before ++ es) ≡ first_schemes es
first_schemes-append [] es others = refl
first_schemes-append (e ∷ before) es (other, others) =
    let skip : (e.0 == 13) ≡ false = ground (arith, other) in
    rw skip (first_schemes-append before es others)

All-append :
    (before : List (ℕ × List ℕ)) (e : ℕ × List ℕ) (after : List (ℕ × List ℕ))
    → All IsSmallExtension (before ++ e ∷ after)
    → IsSmallExtension e
All-append [] e after (small, rest) = small
All-append (x ∷ before) e after (small, rest) = All-append before e after rest

first_schemes-asked :
    (before : List (ℕ × List ℕ)) (asked : Option (List ℕ × List (ℕ × List ℕ)))
    → All (λ e. e.0 ≢ 13) before
    → All IsSmallExtension (asked_extensions before asked)
    → IsSchemes asked
    → first_schemes (asked_extensions before asked) ≡ ok (asked_schemes asked)
first_schemes-asked before none others small listed =
    ap first_schemes (sym (append-nil before)) ∙ first_schemes-append before [] others
first_schemes-asked before (some (schemes, after)) others small (least, even) =
    let front = to_be_bytes 2 (length schemes) in
    let size = length-append front schemes in
    let fits = All-append before (13, front ++ schemes) after small in
    first_schemes-append before ((13, front ++ schemes) ∷ after) others
    ∙ scheme_list-written schemes (omega (arith, fits.1)) least even

-- Of a CertificateRequest with a context of at most 255 bytes and extensions that their length
-- fields can measure, the context is read back, and the schemes are those that the first extension
-- with type 13 lists after their length, two bytes for each of at least one; without such an
-- extension there are none. The extensions after the first one with type 13 do not matter.
pub certificate_request-message :
    (context : List ℕ) (before : List (ℕ × List ℕ)) (asked : Option (List ℕ × List (ℕ × List ℕ)))
    → length context < 2 ^ 8
    → length (extensions (asked_extensions before asked)) < 2 ^ 16
    → All IsSmallExtension (asked_extensions before asked)
    → All (λ e. e.0 ≢ 13) before
    → IsSchemes asked
    → (certificate_request_context (
          message hs_certificate_request
            (request_body context (extensions (asked_extensions before asked))))
        ≡ ok context)
      × (certificate_request_sig_algs (
            message hs_certificate_request
              (request_body context (extensions (asked_extensions before asked))))
          ≡ ok (asked_schemes asked))
unfolding certificate_request_context certificate_request_sig_algs
certificate_request-message context before asked context_lt exts_lt small others listed =
    let es = asked_extensions before asked in
    let parts = cert_request_parts-message context (extensions es) context_lt exts_lt in
    (
      ap (λ m. m >>= λ p. ok p.0) parts,
      ap (λ m. m >>= λ p. sig_algs_loop (suc (length p.1)) p.1 0) parts
          ∙ sig_algs_loop-extensions (suc (length (extensions es))) [] es 0 refl (omega arith) small
          ∙ first_schemes-asked before asked others small listed,
    )
