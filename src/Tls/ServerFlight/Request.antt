-- ===== src/Tls/ServerFlight/Request.antt =====
-- krabitls/src/server_flight.rs, what the client reads of a CertificateRequest. The loop over the
-- extensions moves by at least four bytes, so the length of the block is fuel enough.
use krabitls_rs.Base.{
  ℕ, zero, suc, ◌+◌, ◌-◌, bit_and, ◌||◌, not, List, [], ◌∷◌, length, drop, get_elem?, leb, ltb,
  ◌==◌, if◌then◌else◌, Option, Result, ok, err, ◌>>=◌, ◌>>◌, fail_if, ok_or,
}
use krabitls_rs.Base.Bytes.{byte_at, slice, get_range, from_be_bytes}
use krabitls_rs.Tls.ServerFlight.{FlightError, hs_certificate_request}

-- `EXT_SIGNATURE_ALGORITHMS`
abbrev pub ext_signature_algorithms : ℕ
ext_signature_algorithms = 13

-- `first()`, and its value or 0.
abbrev first : List ℕ → Option ℕ
first bytes = get_elem? bytes 0

unfoldable pub cert_request_parts : List ℕ → Result FlightError (List ℕ × List ℕ)
cert_request_parts creq_full = do
  fail_if (ltb (length creq_full) 1 || not (byte_at creq_full 0 == hs_certificate_request))
      (FlightError.unexpected_handshake_type hs_certificate_request (byte_at creq_full 0))
  body ← ok_or (get_range 4 (length creq_full) creq_full) FlightError.truncated
  ctx_len ← ok_or (first body) FlightError.truncated
  let ctx_end = 1 + ctx_len
  ctx ← ok_or (get_range 1 ctx_end body) FlightError.truncated
  ext_len_bytes ← ok_or (get_range ctx_end (ctx_end + 2) body) FlightError.truncated
  let ext_len = from_be_bytes (byte_at ext_len_bytes 0 ∷ byte_at ext_len_bytes 1 ∷ [])
  let exts_start = ctx_end + 2
  let remaining = length body - exts_start
  fail_if (ltb remaining ext_len) FlightError.truncated
  fail_if (ltb ext_len remaining) FlightError.trailing_bytes
  ok (ctx, drop exts_start body)

unfoldable pub certificate_request_context : List ℕ → Result FlightError (List ℕ)
certificate_request_context creq_full = cert_request_parts creq_full >>= λ parts. ok parts.0

-- The list of schemes in the data of the extension.
unfoldable pub scheme_list : List ℕ → Result FlightError (List ℕ)
scheme_list data_ = do
  llen_bytes ← ok_or (get_range 0 2 data_) FlightError.truncated
  let llen = from_be_bytes (byte_at llen_bytes 0 ∷ byte_at llen_bytes 1 ∷ [])
  fail_if (not (llen == length data_ - 2) || ltb llen 2 || not (bit_and llen 1 == 0))
      FlightError.truncated
  ok (slice 2 (2 + llen) data_)

-- The loop of `certificate_request_sig_algs` from offset `i`.
unfoldable pub sig_algs_loop : ℕ → List ℕ → ℕ → Result FlightError (List ℕ)
sig_algs_loop zero exts i = err FlightError.truncated
sig_algs_loop (suc fuel) exts i =
    let etype = from_be_bytes (byte_at exts i ∷ byte_at exts (i + 1) ∷ []) in
    let dlen = from_be_bytes (byte_at exts (i + 2) ∷ byte_at exts (i + 3) ∷ []) in
    let data_start = i + 4 in
    let rest = sig_algs_loop fuel exts (data_start + dlen) in
    if leb 4 (length exts - i)
    then (if ltb (length exts - data_start) dlen
        then err FlightError.truncated
        else if etype == ext_signature_algorithms
        then scheme_list (slice data_start (data_start + dlen) exts)
        else rest)
    else if i == length exts
    then ok []
    else err FlightError.truncated

unfoldable pub certificate_request_sig_algs : List ℕ → Result FlightError (List ℕ)
certificate_request_sig_algs creq_full = do
  parts ← cert_request_parts creq_full
  sig_algs_loop (suc (length parts.1)) parts.1 0
