-- ===== src/Tls/Connection/Fragments.antt =====
-- krabitls/src/connection.rs, the records that `encrypt_handshake_flight` cuts a flight into.
use krabitls_rs.Base.{
  ℕ, zero, suc, ◌+◌, ◌-◌, max, ◌≤◌, ◌≡◌, refl, sym, ap, ◌∙◌, List, [], ◌∷◌, ◌++◌, length, take,
  drop, ok, map_err, All, arith, append_assoc, append-nil,
}
use krabitls_rs.Base.Results.{>>=-eq-ok, map_err-eq-ok}
use krabitls_rs.Base.Lists.{length-take, length-drop, take-append-drop}
use krabitls_rs.Tls.ClientFlight.{ct_handshake}
use krabitls_rs.Tls.Connection.{StepError, ConnectionError}
use krabitls_rs.Tls.Connection.Fed.{IsSealed}
use krabitls_rs.Tls.Connection.Finish.{chunk_loop, encrypt_handshake_flight}
use krabitls_rs.Tls.Reassembler.Flight.{concat}
use krabitls_rs.Tls.RecordKeys.{CipherSuite, RecordKeys, encrypt_record}

-- At least one byte, and no more than the limit.
abbrev pub IsChunk : ℕ → List ℕ → Type 0
IsChunk limit chunk = (1 ≤ length chunk) × (length chunk ≤ limit)

-- What the records of a run of the loop from chunk `i` are.
abbrev pub IsCut :
    CipherSuite → RecordKeys → ℕ → ℕ → List ℕ → List (List ℕ) → List (List ℕ) → Type 0
IsCut s keys limit i plaintext chunks records =
    (concat chunks ≡ plaintext) × All (IsChunk limit) chunks × IsSealed s keys i chunks records

-- What one turn of the loop did when the loop succeeds.
chunk_loop-cons :
    (fuel : ℕ) (s : CipherSuite) (keys : RecordKeys) (limit i b : ℕ) (rest : List ℕ) (out_len : ℕ)
    (written out : List ℕ)
    → chunk_loop (suc fuel) s keys limit i (b ∷ rest) out_len written ≡ ok out
    → (bytes : List ℕ) × (encrypt_record s keys
          (take limit (b ∷ rest))
          ct_handshake
          i
          (out_len - length written)
        ≡ ok bytes)
      × (chunk_loop fuel s keys limit (i + 1) (drop limit (b ∷ rest)) out_len (written ++ bytes)
          ≡ ok out)
unfolding chunk_loop
chunk_loop-cons fuel s keys limit i b rest out_len written out run =
    let (bytes, sealed, run') =
      >>=-eq-ok
        (map_err {F = StepError} ConnectionError.encrypt
          (encrypt_record s keys (take limit (b ∷ rest)) ct_handshake i (out_len - length written)))
        _ out run in
    (bytes, map_err-eq-ok _ _ _ sealed, run')

chunk_loop-IsCut :
    (fuel : ℕ) (s : CipherSuite) (keys : RecordKeys) (limit i : ℕ) (plaintext : List ℕ)
    (out_len : ℕ) (written out : List ℕ)
    → length plaintext ≤ fuel
    → 1 ≤ limit
    → chunk_loop fuel s keys limit i plaintext out_len written ≡ ok out
    → (chunks : List (List ℕ)) × (records : List (List ℕ)) × IsCut s keys limit i plaintext chunks
        records
      × (out ≡ written ++ concat records)
unfolding chunk_loop
chunk_loop-IsCut fuel s keys limit i [] out_len written out enough positive run =
    ([], [], (refl, tt, tt), cc (run, append-nil written))
chunk_loop-IsCut zero s keys limit i (b ∷ rest) out_len written out enough positive run =
    absurd (omega arith)
chunk_loop-IsCut (suc fuel) s keys limit i (b ∷ rest) out_len written out enough positive run =
    let chunk = take limit (b ∷ rest) in
    let left = drop limit (b ∷ rest) in
    let (bytes, sealed, run') =
      chunk_loop-cons fuel s keys limit i b rest out_len written out run in
    let front = length-take limit (b ∷ rest) in
    let back = length-drop limit (b ∷ rest) in
    let (chunks, records, (whole, sizes, others), joined) =
      chunk_loop-IsCut fuel s keys limit (i + 1) left out_len (written ++ bytes) out (omega arith)
        positive run' in
    (
      chunk ∷ chunks,
      bytes ∷ records,
      (
        ap (λ t. chunk ++ t) whole ∙ take-append-drop limit (b ∷ rest),
        ((omega arith, omega arith), sizes),
        ((out_len - length written, sealed), others),
      ),
      joined ∙ append_assoc written bytes (concat records),
    )

-- A flight that `encrypt_handshake_flight` encrypts is cut into chunks of at least one byte that
-- join to it, each with its content type within the peer's limit of at least 2; the output is the
-- records of the chunks in their order, numbered from 0.
pub encrypt_handshake_flight-IsChunk :
    (s : CipherSuite) (keys : RecordKeys) (plaintext : List ℕ) (peer_rsl out_len : ℕ) (out : List ℕ)
    → 2 ≤ peer_rsl
    → encrypt_handshake_flight s keys plaintext peer_rsl out_len ≡ ok out
    → (chunks : List (List ℕ)) × (records : List (List ℕ)) × (concat chunks ≡ plaintext)
      × All (IsChunk (peer_rsl - 1)) chunks
      × IsSealed s keys 0 chunks records
      × (out ≡ concat records)
unfolding encrypt_handshake_flight
encrypt_handshake_flight-IsChunk s keys plaintext peer_rsl out_len out two run =
    let limit : max (peer_rsl - 1) 1 ≡ peer_rsl - 1 = omega arith in
    let (chunks, records, (whole, sizes, sealed), joined) =
      chunk_loop-IsCut (length plaintext) s keys (peer_rsl - 1) 0 plaintext out_len [] out
        (omega arith) (omega arith)
        (ap (λ m. chunk_loop (length plaintext) s keys m 0 plaintext out_len []) (sym limit)
          ∙ run) in
    (chunks, records, whole, sizes, sealed, joined)
