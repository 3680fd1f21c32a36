-- ===== src/Keys/Schedule/Total.antt =====
-- The key schedules of krabitls/src/hkdf.rs succeed whenever the backend does.
use krabitls_rs.Base.{
  ℕ, replicate, ◌+◌, ◌≤◌, ◌≡◌, ◌⊎◌, ap, ◌∙◌, List, [], length, Result, ok, ◌>>=◌, map_err, arith,
}
use krabitls_rs.Keys.Hkdf.{
  HkdfSha256, HkdfLabelError, tls13_label_prefix, dtls13_label_prefix, encode_label,
  hkdf_expand_label_prefixed, hkdf_expand_label, dtls_expand_label,
}
use krabitls_rs.Keys.Hkdf.Label.{hkdf_label, encode_label_cases}
use krabitls_rs.Keys.Schedule.{
  derived, empty_transcript_hash, c_hs_traffic, s_hs_traffic, c_ap_traffic, s_ap_traffic,
  traffic_upd, key_label, iv_label, sn_label, finished_label, extract, early_secret, derive_secret,
  handshake_secret, handshake_traffic_secrets, traffic_keys, master_secret,
  application_traffic_secrets, finished_mac, dtls_derive_secret, dtls_handshake_secret,
  dtls_handshake_traffic_secrets, dtls_traffic_keys, dtls_master_secret,
  dtls_application_traffic_secrets, dtls_finished_mac, sn_key, next_application_traffic_secret,
}

-- A backend that does not fail: HKDF-Extract gives 32 bytes, and HKDF-Expand of a secret of 32 bytes
-- gives as many bytes as it is asked for, up to the limit of RFC 5869.
pub record IsTotal (h : HkdfSha256) : Type 0 where
  pub extract_lem :
      (salt ikm : List ℕ) → (prk : List ℕ) × (h.extract salt ikm ≡ ok prk) × (length prk ≡ 32)
  pub expand_lem :
      (prk info : List ℕ) (n : ℕ)
      → length prk ≡ 32
      → n ≤ 8160
      → (out : List ℕ) × (h.expand prk info n ≡ ok out) × (length out ≡ n)

-- A result of the given length.
abbrev pub Gives : Result HkdfLabelError (List ℕ) → ℕ → Type 0
Gives m n = (out : List ℕ) × (m ≡ ok out) × (length out ≡ n)

abbrev pub GivesPair : Result HkdfLabelError (List ℕ × List ℕ) → ℕ → ℕ → Type 0
GivesPair m a b = (x : List ℕ) × (y : List ℕ) × (m ≡ ok (x, y)) × (length x ≡ a) × (length y ≡ b)

-- A label that fits in the encoding is expanded.
hkdf_expand_label_prefixed_total :
    (h : HkdfSha256)
    → IsTotal h
    → (prefix secret label context : List ℕ) (n : ℕ) → length secret ≡ 32
    → n ≤ 8160
    → length prefix + length label + length context ≤ 60
    → Gives (hkdf_expand_label_prefixed h prefix secret label context n) n
unfolding hkdf_expand_label_prefixed
hkdf_expand_label_prefixed_total h total prefix secret label context n size limit room =
    let info = hkdf_label prefix label context n in
    let (out, expanded, count) = total.expand_lem secret info n size limit in
    let encoded : encode_label prefix label context n ≡ ok info =
      encode_label_cases prefix label context n ∙ ground arith in
    (
      out,
      ap (λ m. m >>= λ i. map_err HkdfLabelError.expand (h.expand secret i n)) encoded
          ∙ ap (map_err HkdfLabelError.expand) expanded,
      count,
    )

module _ (h : HkdfSha256) (total : IsTotal h) where
  tls_label :
      (secret label context : List ℕ) (n : ℕ)
      → length secret ≡ 32
      → n ≤ 8160
      → length label + length context ≤ 54
      → Gives (hkdf_expand_label h secret label context n) n
  unfolding hkdf_expand_label
  tls_label secret label context n size limit room =
      hkdf_expand_label_prefixed_total h total tls13_label_prefix secret label context n size limit
        (omega arith)

  dtls_label :
      (secret label context : List ℕ) (n : ℕ)
      → length secret ≡ 32
      → n ≤ 8160
      → length label + length context ≤ 54
      → Gives (dtls_expand_label h secret label context n) n
  unfolding dtls_expand_label
  dtls_label secret label context n size limit room =
      hkdf_expand_label_prefixed_total h total dtls13_label_prefix secret label context n size limit
        (omega arith)

  extract_total : (salt ikm : List ℕ) → Gives (extract h salt ikm) 32
  extract_total salt ikm =
      let (prk, run, size) = total.extract_lem salt ikm in
      (prk, ap (map_err HkdfLabelError.backend) run, size)

-- A step that succeeds, and then one that does.
and_then :
    (m : Result HkdfLabelError (List ℕ)) (f : List ℕ → Result HkdfLabelError (List ℕ)) (a b : ℕ)
    → Gives m a
    → ((out : List ℕ) → length out ≡ a → Gives (f out) b)
    → Gives (m >>= f) b
and_then m f a b (x, run, size) next =
    let (y, run', size') = next x size in (y, ap (λ r. r >>= f) run ∙ run', size')

-- Two secrets from one step each.
both_give :
    (m k : Result HkdfLabelError (List ℕ)) (a b : ℕ)
    → Gives m a
    → Gives k b
    → GivesPair (m >>= λ x. k >>= λ y. ok (x, y)) a b
both_give m k a b (x, run, size) (y, run', size') = (
  x,
  y,
  ap (λ r. r >>= λ x'. k >>= λ y'. ok (x', y')) run ∙ ap (λ r. r >>= λ y'. ok (x, y')) run',
  size,
  size',
)

early_total : (h : HkdfSha256) → IsTotal h → Gives (early_secret h) 32
unfolding early_secret
early_total h total = extract_total h total (replicate 32 0) (replicate 32 0)

-- With a backend that does not fail, every step of the key schedule of TLS succeeds on secrets and
-- transcript hashes of 32 bytes and on a shared secret of 32 or 64 bytes, which is what the code
-- asserts of it: secrets and MACs have 32 bytes, vectors have 12, and a key has the n ≤ 8160 bytes
-- that are asked for.
pub schedule_total :
    (h : HkdfSha256)
    → IsTotal h
    → (n : ℕ) (dhe secret hash : List ℕ) → n ≤ 8160
    → (length dhe ≡ 32) ⊎ (length dhe ≡ 64)
    → length secret ≡ 32
    → length hash ≡ 32
    → Gives (handshake_secret h dhe) 32
      × GivesPair (handshake_traffic_secrets h secret hash) 32 32
      × GivesPair (traffic_keys h n secret) n 12
      × Gives (master_secret h secret) 32
      × GivesPair (application_traffic_secrets h secret hash) 32 32
      × Gives (finished_mac h secret hash) 32
      × Gives (next_application_traffic_secret h secret) 32
unfolding derive_secret handshake_secret handshake_traffic_secrets traffic_keys master_secret
    application_traffic_secrets finished_mac next_application_traffic_secret
schedule_total h total n dhe secret hash limit shared size size' =
    let label =
      λ (s : List ℕ) (fits : length s ≡ 32) (l c : List ℕ) (k : ℕ) (small : k ≤ 8160)
          (room : length l + length c ≤ 54).
        tls_label h total s l c k fits small room in
    let make = λ (salt ikm : List ℕ). extract_total h total salt ikm in
    (
      and_then _ _ 32 32 (early_total h total) (λ early fits.
          and_then _ _ 32 32
            (label early fits derived empty_transcript_hash 32 (omega arith) (omega arith))
            (λ salt _. make salt dhe)),
      both_give _ _ 32 32 (label secret size c_hs_traffic hash 32 (omega arith) (omega arith))
          (label secret size s_hs_traffic hash 32 (omega arith) (omega arith)),
      both_give _ _ n 12 (label secret size key_label [] n limit (omega arith))
          (label secret size iv_label [] 12 (omega arith) (omega arith)),
      and_then _ _ 32 32
          (label secret size derived empty_transcript_hash 32 (omega arith) (omega arith))
          (λ salt _. make salt (replicate 32 0)),
      both_give _ _ 32 32 (label secret size c_ap_traffic hash 32 (omega arith) (omega arith))
          (label secret size s_ap_traffic hash 32 (omega arith) (omega arith)),
      and_then _ _ 32 32 (label secret size finished_label [] 32 (omega arith) (omega arith))
          (λ key _. make key hash),
      label secret size traffic_upd [] 32 (omega arith) (omega arith),
    )

-- With a backend that does not fail, every step of the key schedule of DTLS succeeds on secrets and
-- transcript hashes of 32 bytes and on any shared secret: secrets and MACs have 32 bytes, vectors
-- have 12, and a key or a key for sequence numbers has the n ≤ 8160 bytes that are asked for.
dtls_schedule_total :
    (h : HkdfSha256)
    → IsTotal h
    → (n : ℕ) (dhe secret hash : List ℕ) → n ≤ 8160
    → length secret ≡ 32
    → length hash ≡ 32
    → Gives (dtls_handshake_secret h dhe) 32
      × GivesPair (dtls_handshake_traffic_secrets h secret hash) 32 32
      × GivesPair (dtls_traffic_keys h n secret) n 12
      × Gives (dtls_master_secret h secret) 32
      × GivesPair (dtls_application_traffic_secrets h secret hash) 32 32
      × Gives (dtls_finished_mac h secret hash) 32
      × Gives (sn_key h n secret) n
unfolding dtls_derive_secret dtls_handshake_secret dtls_handshake_traffic_secrets dtls_traffic_keys
    dtls_master_secret dtls_application_traffic_secrets dtls_finished_mac sn_key
dtls_schedule_total h total n dhe secret hash limit size size' =
    let label =
      λ (s : List ℕ) (fits : length s ≡ 32) (l c : List ℕ) (k : ℕ) (small : k ≤ 8160)
          (room : length l + length c ≤ 54).
        dtls_label h total s l c k fits small room in
    let make = λ (salt ikm : List ℕ). extract_total h total salt ikm in
    (
      and_then _ _ 32 32 (early_total h total) (λ early fits.
          and_then _ _ 32 32
            (label early fits derived empty_transcript_hash 32 (omega arith) (omega arith))
            (λ salt _. make salt dhe)),
      both_give _ _ 32 32 (label secret size c_hs_traffic hash 32 (omega arith) (omega arith))
          (label secret size s_hs_traffic hash 32 (omega arith) (omega arith)),
      both_give _ _ n 12 (label secret size key_label [] n limit (omega arith))
          (label secret size iv_label [] 12 (omega arith) (omega arith)),
      and_then _ _ 32 32
          (label secret size derived empty_transcript_hash 32 (omega arith) (omega arith))
          (λ salt _. make salt (replicate 32 0)),
      both_give _ _ 32 32 (label secret size c_ap_traffic hash 32 (omega arith) (omega arith))
          (label secret size s_ap_traffic hash 32 (omega arith) (omega arith)),
      and_then _ _ 32 32 (label secret size finished_label [] 32 (omega arith) (omega arith))
          (λ key _. make key hash),
      label secret size sn_label [] n limit (omega arith),
    )
