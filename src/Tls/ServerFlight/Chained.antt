-- ===== src/Tls/ServerFlight/Chained.antt =====
-- The certificates that `extract_chain` of krabitls/src/server_flight.rs finds.
use krabitls_rs.Base.{
  ℕ, zero, suc, ◌+◌, ◌-◌, ◌^◌, ◌<◌, ◌≤◌, ◌≡◌, refl, sym, ap, ◌∙◌, List, [], ◌∷◌, ◌++◌, length, leb,
  ltb, ◌==◌, if◌then◌else◌, append_assoc, append-nil, true, false, ok, err, arith, All, inl, inr,
  Bool-cases,
}
use krabitls_rs.Base.Lists.{length-append, get_or_past}
use krabitls_rs.Base.Bytes.{
  byte_at, slice, slice-append, to_be_bytes, from_be_bytes, from_be_bytes-zero,
  from_be_bytes-to_be_bytes,
}
use krabitls_rs.Tls.ServerFlight.{FlightError}
use krabitls_rs.Tls.ServerFlight.Chain.{read_u24, chain_loop, extract_chain}

-- A `CertificateEntry`: a certificate and its extensions, each after its length.
abbrev pub entry : List ℕ × List ℕ → List ℕ
entry e = to_be_bytes 3 (length e.0) ++ (e.0 ++ (to_be_bytes 2 (length e.1) ++ e.1))

abbrev pub entries : List (List ℕ × List ℕ) → List ℕ
entries [] = []
entries (e ∷ es) = entry e ++ entries es

abbrev pub IsSmallEntry : List ℕ × List ℕ → Type 0
IsSmallEntry e = (length e.0 < 2 ^ 24) × (length e.1 < 2 ^ 16)

abbrev pub certs : List (List ℕ × List ℕ) → List (List ℕ)
certs [] = []
certs (e ∷ es) = e.0 ∷ certs es

read_u24-slice :
    (front : List ℕ) (n : ℕ) (back : List ℕ) (pos : ℕ)
    → pos ≡ length front
    → n < 2 ^ 24
    → read_u24 (slice pos (pos + 3) (front ++ (to_be_bytes 3 n ++ back))) ≡ n
unfolding read_u24
read_u24-slice front n back pos here small =
    ap read_u24 (slice-append front (to_be_bytes 3 n) back pos (pos + 3) here (omega arith))
    ∙ from_be_bytes-zero (to_be_bytes 3 n)
    ∙ from_be_bytes-to_be_bytes 3 n small

-- One entry is read, or refused when the vector is full.
one_entry :
    (max fuel : ℕ) (before cert exts after : List ℕ) (chain : List (List ℕ)) (pos : ℕ)
    → pos ≡ length before
    → IsSmallEntry (cert, exts)
    → chain_loop max (suc fuel) (before ++ (entry (cert, exts) ++ after)) chain pos ≡ (
        if ltb (length chain) max
        then chain_loop max fuel
            (before ++ (entry (cert, exts) ++ after))
            (chain ++ (cert ∷ []))
            (pos + length (entry (cert, exts)))
        else err FlightError.cert_chain_too_long)
unfolding chain_loop
one_entry max fuel before cert exts after chain pos here small =
    let (cert_lt, exts_lt) = small in
    let sizes = to_be_bytes 2 (length exts) in
    let tail = sizes ++ (exts ++ after) in
    let len3 = to_be_bytes 3 (length cert) in
    let inner : entry (cert, exts) ++ after ≡ len3 ++ (cert ++ tail) =
      ap (λ t. len3 ++ t) (append_assoc cert (sizes ++ exts) after) in
    let list = before ++ (len3 ++ (cert ++ tail)) in
    let size1 = length-append before (len3 ++ (cert ++ tail)) in
    let size2 = length-append cert tail in
    let size3 = length-append exts after in
    let size4 = length-append cert (sizes ++ exts) in
    let cert_len = read_u24-slice before (length cert) (cert ++ tail) pos here cert_lt in
    let grouped : list ≡ (before ++ len3) ++ (cert ++ tail) =
      sym (append_assoc before len3 (cert ++ tail)) in
    let head = length-append before len3 in
    let found : slice (pos + 3) (pos + 3 + length cert) list ≡ cert =
      ap (slice (pos + 3) (pos + 3 + length cert)) grouped
      ∙ slice-append (before ++ len3) cert tail (pos + 3) (pos + 3 + length cert) (omega arith)
          refl in
    let byte = λ (n k : ℕ) (at : n ≡ pos + 3 + length cert + k).
      ap (λ t. byte_at t n) grouped
      ∙ get_or_past (before ++ len3) (cert ++ tail) n (length cert + k) 0 (omega arith)
      ∙ get_or_past cert tail (length cert + k) k 0 refl in
    let b0 = byte (pos + 3 + length cert) 0 (omega arith) in
    let b1 = byte (pos + 3 + length cert + 1) 1 refl in
    let exts_len = from_be_bytes-to_be_bytes 2 (length exts) exts_lt in
    let next : pos + 3 + length cert + 2 + length exts ≡ pos + length (entry (cert, exts)) =
      omega arith in
    rw (inner, cert_len, found, b0, b1, exts_len, next) (ground arith)

chain_loop-entries :
    (max fuel : ℕ) (before : List ℕ) (es : List (List ℕ × List ℕ)) (chain : List (List ℕ)) (pos : ℕ)
    → pos ≡ length before
    → length (entries es) < fuel
    → All IsSmallEntry es
    → length chain ≤ max
    → chain_loop max fuel (before ++ entries es) chain pos ≡ (
        if leb (length chain + length es) max
        then ok (chain ++ certs es)
        else err FlightError.cert_chain_too_long)
unfolding chain_loop
chain_loop-entries max zero before es chain pos here enough small fits = absurd (omega arith)
chain_loop-entries max (suc fuel) before [] chain pos here enough small fits =
    let whole = append-nil before in
    let end : ltb pos (length before) ≡ false = ground arith in
    let room : leb (length chain + 0) max ≡ true = ground arith in
    rw (whole, end, room, append-nil chain) refl
chain_loop-entries max (suc fuel) before (e ∷ es) chain pos here enough small fits =
    let first = entry e in
    let step = one_entry max fuel before e.0 e.1 (entries es) chain pos here small.0 in
    let grouped = sym (append_assoc before first (entries es)) in
    let size = length-append before first in
    let size' = length-append first (entries es) in
    let more = length-append chain (e.0 ∷ []) in
    let joined = append_assoc chain (e.0 ∷ []) (certs es) in
    elim (Bool-cases (ltb (length chain) max)) [
      | inl room ↦
          let go =
            chain_loop-entries max fuel (before ++ first) es (chain ++ (e.0 ∷ []))
              (pos + length first) (omega arith) (omega arith) small.1 (ground arith) in
          let count : leb (length (chain ++ (e.0 ∷ [])) + length es) max
              ≡ leb (length chain + suc (length es)) max =
            ap (λ n. leb n max) (omega arith) in
          step
          ∙ rw room (
              ap (λ l. chain_loop max fuel l (chain ++ (e.0 ∷ [])) (pos + length first)) grouped
              ∙ go
              ∙ rw (count, joined) refl)
      | inr full ↦
          let over : leb (length chain + suc (length es)) max ≡ false = ground arith in
          step ∙ rw (full, over) refl
    ]

-- The body of a Certificate message: its context, and its entries after their length in 24 bits.
abbrev pub certificate_body : List ℕ → List (List ℕ × List ℕ) → List ℕ
certificate_body context es =
    length context ∷ (context ++ (to_be_bytes 3 (length (entries es)) ++ entries es))

-- Of the body of a Certificate message, whatever follows it, `extract_chain` returns the
-- certificates of all entries in their order, or the error that they are too many; the context is
-- within 255 bytes, and each length is within its field.
pub extract_chain-certificate_body :
    (max : ℕ) (context : List ℕ) (es : List (List ℕ × List ℕ)) (after : List ℕ)
    → length context < 2 ^ 8
    → length (entries es) < 2 ^ 24
    → All IsSmallEntry es
    → extract_chain max (certificate_body context es ++ after)
      ≡ (if leb (length es) max then ok (certs es) else err FlightError.cert_chain_too_long)
unfolding extract_chain
extract_chain-certificate_body max context es after context_lt list_lt small =
    let list = entries es in
    let len3 = to_be_bytes 3 (length list) in
    let n = length context in
    let front = n ∷ context in
    let body = front ++ (len3 ++ (list ++ after)) in
    let whole : certificate_body context es ++ after ≡ body =
      append_assoc front (len3 ++ list) after in
    let size1 = length-append context (len3 ++ (list ++ after)) in
    let size2 = length-append list after in
    let list_len =
      read_u24-slice front (length list) (list ++ after) (1 + n) (omega arith) list_lt in
    let size3 = length-append context len3 in
    let found : slice (1 + n + 3) (1 + n + 3 + length list) body ≡ list =
      ap (slice (1 + n + 3) (1 + n + 3 + length list))
        (sym (append_assoc front len3 (list ++ after)))
      ∙ slice-append (front ++ len3) list after (1 + n + 3) (1 + n + 3 + length list) (omega arith)
          refl in
    let none_before : 0 + length es ≡ length es = omega arith in
    let some_bytes : (length body == 0) ≡ false = ground arith in
    let first : ltb (length body) (1 + n + 3) ≡ false = ground arith in
    let second : ltb (length body - (1 + n + 3)) (length list) ≡ false = ground arith in
    ap (extract_chain max) whole
    ∙ rw (some_bytes, first, list_len, second, found)
        (chain_loop-entries max (suc (length list)) [] es [] 0 refl (omega arith) small
            (omega arith)
          ∙ ap (λ n. if leb n max then ok (certs es) else err FlightError.cert_chain_too_long)
              none_before)

-- The fuel that `extract_chain` gives its loop is enough: more fuel changes nothing.
pub chain_loop_fuel :
    (max fuel extra : ℕ) (list : List ℕ) (chain : List (List ℕ)) (pos : ℕ)
    → length list - pos < fuel
    → chain_loop max (fuel + extra) list chain pos ≡ chain_loop max fuel list chain pos
unfolding chain_loop
chain_loop_fuel max zero extra list chain pos enough = absurd (omega arith)
chain_loop_fuel max (suc fuel) extra list chain pos enough =
    let cert_start = pos + 3 in
    let cert_end = cert_start + read_u24 (slice pos (pos + 3) list) in
    let next =
      cert_end + 2 + from_be_bytes (byte_at list cert_end ∷ byte_at list (cert_end + 1) ∷ []) in
    let chain' = chain ++ (slice cert_start cert_end list ∷ []) in
    let more : suc fuel + extra ≡ suc (fuel + extra) = omega arith in
    elim (Bool-cases (ltb pos (length list))) [
      | inl inside ↦
          let rest = chain_loop_fuel max fuel extra list chain' next (ground (arith, inside)) in
          ap (λ f. chain_loop max f list chain pos) more ∙ rw rest refl
      | inr end ↦ ap (λ f. chain_loop max f list chain pos) more ∙ rw end refl
    ]
