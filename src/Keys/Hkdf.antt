-- ===== src/Keys/Hkdf.antt =====
-- krabitls/src/hkdf.rs, HKDF-Expand-Label, and push_bytes of krabitls/src/bytecopy.rs. The hash and
-- HKDF are a backend: a record of the functions of the trait HkdfSha256. A hasher is the list of
-- the bytes that were fed to it. Secrets are lists of bytes; erasing them has no counterpart.
pub mod Label
use krabitls_rs.Base.{
  ℕ, ◌+◌, ◌%◌, ◌^◌, List, [], ◌∷◌, ◌++◌, length, ltb, if◌then◌else◌, Result, ok, err, ◌>>=◌, ◌>>◌,
  fail_if, map_err,
}
use krabitls_rs.Base.Bytes.{to_be_bytes}

pub data HkdfBackendError : Type 0 where
  failed : HkdfBackendError

pub data HkdfExpandError : Type 0 where
  output_too_long invalid_prk : HkdfExpandError
  backend : HkdfBackendError → HkdfExpandError

-- `HkdfSha256` and its hasher: the digest of the bytes fed so far, HKDF-Extract of a salt and a key,
-- and HKDF-Expand of a secret, an info string and the length of the output.
pub record HkdfSha256 : Type 0 where
  pub snapshot : List ℕ → Result HkdfBackendError (List ℕ)
  pub extract : List ℕ → List ℕ → Result HkdfBackendError (List ℕ)
  pub expand : List ℕ → List ℕ → ℕ → Result HkdfExpandError (List ℕ)

pub data HkdfLabelError : Type 0 where
  output_too_long label_too_long context_too_long encoded_too_long : HkdfLabelError
  expand : HkdfExpandError → HkdfLabelError
  backend : HkdfBackendError → HkdfLabelError

-- `HKDF_LABEL_MAX`
abbrev pub hkdf_label_max : ℕ
hkdf_label_max = 64

-- `TLS13_LABEL_PREFIX`, "tls13 "
abbrev pub tls13_label_prefix : List ℕ
tls13_label_prefix = 116 ∷ 108 ∷ 115 ∷ 49 ∷ 51 ∷ 32 ∷ []

-- `DTLS13_LABEL_PREFIX`, "dtls13"
abbrev pub dtls13_label_prefix : List ℕ
dtls13_label_prefix = 100 ∷ 116 ∷ 108 ∷ 115 ∷ 49 ∷ 51 ∷ []

pub data CapacityError : Type 0 where
  capacity_error : CapacityError

-- `push_bytes` into a vector of the given capacity: byte after byte, until it is full.
unfoldable pub push_bytes : ℕ → List ℕ → List ℕ → Result CapacityError (List ℕ)
push_bytes capacity out [] = ok out
push_bytes capacity out (byte ∷ bytes) =
    let rest = push_bytes capacity (out ++ (byte ∷ [])) bytes in
    if ltb (length out) capacity then rest else err capacity_error

-- `push_bytes` under `?` in a function that returns `HkdfLabelError`.
abbrev pub push : List ℕ → List ℕ → Result HkdfLabelError (List ℕ)
push info bytes = map_err (λ _. encoded_too_long) (push_bytes hkdf_label_max info bytes)

-- `hkdf_expand_label_prefixed` up to the call of the backend: the encoded `HkdfLabel`.
unfoldable pub encode_label : List ℕ → List ℕ → List ℕ → ℕ → Result HkdfLabelError (List ℕ)
encode_label prefix label context out_len = do
  fail_if (ltb 0xffff out_len) HkdfLabelError.output_too_long
  let label_total = length prefix + length label
  fail_if (ltb 0xff label_total) label_too_long
  fail_if (ltb 0xff (length context)) context_too_long
  info ← push [] (to_be_bytes 2 (out_len % 2 ^ 16))
  info ← push info ((label_total % 2 ^ 8) ∷ [])
  info ← push info prefix
  info ← push info label
  info ← push info ((length context % 2 ^ 8) ∷ [])
  push info context

unfoldable pub hkdf_expand_label_prefixed :
    HkdfSha256 → List ℕ → List ℕ → List ℕ → List ℕ → ℕ → Result HkdfLabelError (List ℕ)
hkdf_expand_label_prefixed h prefix secret label context out_len = do
  info ← encode_label prefix label context out_len
  map_err HkdfLabelError.expand (h.expand secret info out_len)

unfoldable pub hkdf_expand_label :
    HkdfSha256 → List ℕ → List ℕ → List ℕ → ℕ → Result HkdfLabelError (List ℕ)
hkdf_expand_label h secret label context out_len =
    hkdf_expand_label_prefixed h tls13_label_prefix secret label context out_len

unfoldable pub dtls_expand_label :
    HkdfSha256 → List ℕ → List ℕ → List ℕ → ℕ → Result HkdfLabelError (List ℕ)
dtls_expand_label h secret label context out_len =
    hkdf_expand_label_prefixed h dtls13_label_prefix secret label context out_len
