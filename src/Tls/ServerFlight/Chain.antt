-- ===== src/Tls/ServerFlight/Chain.antt =====
-- krabitls/src/server_flight.rs, `extract_chain`. The loop over the entries moves by at least five
-- bytes, so the length of the list is fuel enough.
use krabitls_rs.Base.{
  ℕ, zero, suc, ◌+◌, ◌-◌, ◌||◌, not, List, [], ◌∷◌, ◌++◌, length, ltb, ◌==◌, if◌then◌else◌, Result,
  ok, err, ◌>>◌, fail_if,
}
use krabitls_rs.Base.Bytes.{byte_at, slice, from_be_bytes}
use krabitls_rs.Tls.ServerFlight.{FlightError}

unfoldable pub read_u24 : List ℕ → ℕ
read_u24 b = from_be_bytes (0 ∷ byte_at b 0 ∷ byte_at b 1 ∷ byte_at b 2 ∷ [])

-- The loop of `extract_chain` from offset `pos`, with the certificates that were found so far in a
-- vector of `max`.
unfoldable pub chain_loop : ℕ → ℕ → List ℕ → List (List ℕ) → ℕ → Result FlightError (List (List ℕ))
chain_loop max zero list chain pos = err FlightError.truncated
chain_loop max (suc fuel) list chain pos =
    let cert_data_len = read_u24 (slice pos (pos + 3) list) in
    let cert_start = pos + 3 in
    let cert_end = cert_start + cert_data_len in
    let exts_len = from_be_bytes (byte_at list cert_end ∷ byte_at list (cert_end + 1) ∷ []) in
    let rest =
      chain_loop max fuel list (chain ++ (slice cert_start cert_end list ∷ []))
        (cert_end + 2 + exts_len) in
    if ltb pos (length list)
    then (do
      fail_if (ltb (length list - pos) 3) FlightError.truncated
      fail_if
          (ltb (length list - cert_start) cert_data_len
            || ltb (length list - cert_start - cert_data_len) 2)
          FlightError.truncated
      fail_if (not (ltb (length chain) max)) FlightError.cert_chain_too_long
      fail_if (ltb (length list - cert_end - 2) exts_len) FlightError.truncated
      rest)
    else ok chain

unfoldable pub extract_chain : ℕ → List ℕ → Result FlightError (List (List ℕ))
extract_chain max cert_body = do
  fail_if (length cert_body == 0) FlightError.truncated
  let ctx_len = byte_at cert_body 0
  let after_ctx = 1 + ctx_len
  fail_if (ltb (length cert_body) (after_ctx + 3)) FlightError.truncated
  let list_len = read_u24 (slice after_ctx (after_ctx + 3) cert_body)
  let list_start = after_ctx + 3
  fail_if (ltb (length cert_body - list_start) list_len) FlightError.truncated
  let list = slice list_start (list_start + list_len) cert_body
  chain_loop max (suc (length list)) list [] 0
