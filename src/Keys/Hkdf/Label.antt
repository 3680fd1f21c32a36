-- ===== src/Keys/Hkdf/Label.antt =====
-- The encoding of labels in krabitls/src/hkdf.rs.
use krabitls_rs.Base.{
  ℕ, ◌+◌, ◌%◌, ◌^◌, ◌≤◌, ◌≡◌, refl, sym, ap, ◌∙◌, List, [], ◌∷◌, ◌++◌, length, leb, ltb,
  if◌then◌else◌, Result, ok, err, ◌>>=◌, map_err, Bool, true, append-nil, ◌/◌, append_assoc, arith,
  Bool-cases, inl, inr,
}
use mathlib.Core.Path.{fun_ext}
use krabitls_rs.Base.Lists.{length-append, append_cancel}
use krabitls_rs.Base.Bytes.{to_be_bytes}
use krabitls_rs.Keys.Hkdf.{
  capacity_error, HkdfLabelError, label_too_long, context_too_long, encoded_too_long, push_bytes,
  push, hkdf_label_max, encode_label,
}

-- `push_bytes` appends all the bytes or fails, when they do not fit.
pub push_bytes_lem :
    (capacity : ℕ) (out bytes : List ℕ)
    → length out ≤ capacity
    → push_bytes capacity out bytes
      ≡ (if leb (length out + length bytes) capacity then ok (out ++ bytes) else err capacity_error)
unfolding push_bytes
push_bytes_lem capacity out [] fits = rw (append-nil out) (ground arith)
push_bytes_lem capacity out (byte ∷ bytes) fits =
    let size = length-append out (byte ∷ []) in
    let joined = append_assoc out (byte ∷ []) bytes in
    ground (arith, push_bytes_lem capacity (out ++ (byte ∷ [])) bytes)

-- `push` on a vector that is not over its capacity.
push_lem :
    (info bytes : List ℕ)
    → length info ≤ hkdf_label_max
    → push info bytes ≡ (
        if leb (length info + length bytes) hkdf_label_max
        then ok (info ++ bytes)
        else err encoded_too_long)
push_lem info bytes fits =
    ap (map_err (λ _. encoded_too_long)) (push_bytes_lem 64 info bytes fits) ∙ ground arith

-- Two pushes are one push of both.
push_then :
    (info first second : List ℕ) (k : List ℕ → Result HkdfLabelError (List ℕ))
    → length info ≤ hkdf_label_max
    → (push info first >>= λ i. push i second >>= k) ≡ (push info (first ++ second) >>= k)
push_then info first second k fits =
    elim (Bool-cases (leb (length info + length first) hkdf_label_max)) [
      | inl room ↦
          let size = length-append info first in
          let small : length (info ++ first) ≤ hkdf_label_max = ground arith in
          let pushed : push info first ≡ ok (info ++ first) =
            push_lem info first fits ∙ ground (arith) in
          let total = length-append first second in
          let joined = append_assoc info first second in
          ap (λ m. m >>= λ i. push i second >>= k) pushed
          ∙ ap (λ m. m >>= k)
              (push_lem (info ++ first) second small
                ∙ ground arith
                ∙ sym (push_lem info (first ++ second) fits))
      | inr full ↦
          let pushed : push info first ≡ err encoded_too_long =
            push_lem info first fits ∙ ground (arith) in
          let total = length-append first second in
          let refused : push info (first ++ second) ≡ err encoded_too_long =
            push_lem info (first ++ second) fits ∙ ground (arith) in
          ap (λ m. m >>= λ i. push i second >>= k) pushed ∙ sym (ap (λ m. m >>= k) refused)
    ]

>>=-ok : (m : Result HkdfLabelError (List ℕ)) → (m >>= λ i. ok i) ≡ m
>>=-ok (ok i) = refl
>>=-ok (err e) = refl

-- The pushes of `encode_label` are one push.
pushes :
    (a b c d e f : List ℕ)
    → (do i ← push [] a; i ← push i b; i ← push i c; i ← push i d; i ← push i e; push i f)
      ≡ push [] (((((a ++ b) ++ c) ++ d) ++ e) ++ f)
pushes a b c d e f =
    let k4 = λ (i : List ℕ). push i f in
    let k3 = λ (i : List ℕ). push i e >>= k4 in
    let k2 = λ (i : List ℕ). push i d >>= k3 in
    let k1 = λ (i : List ℕ). push i c >>= k2 in
    push_then [] a b k1 (omega arith)
    ∙ push_then [] (a ++ b) c k2 (omega arith)
    ∙ push_then [] ((a ++ b) ++ c) d k3 (omega arith)
    ∙ push_then [] (((a ++ b) ++ c) ++ d) e k4 (omega arith)
    ∙ ap
        (λ (g : List ℕ → Result HkdfLabelError (List ℕ)).
          push [] ((((a ++ b) ++ c) ++ d) ++ e) >>= g)
        (fun_ext (λ i. sym (>>=-ok (push i f))))
    ∙ push_then [] ((((a ++ b) ++ c) ++ d) ++ e) f (λ i. ok i) (omega arith)
    ∙ >>=-ok (push [] (((((a ++ b) ++ c) ++ d) ++ e) ++ f))

-- `HkdfLabel`: the length of the output, the label with its prefix, and the context, each of the
-- last two after its length.
abbrev pub hkdf_label : List ℕ → List ℕ → List ℕ → ℕ → List ℕ
hkdf_label prefix label context out_len =
    to_be_bytes 2 (out_len % 2 ^ 16)
    ++ (((length prefix + length label) % 2 ^ 8)
        ∷ (prefix ++ (label ++ ((length context % 2 ^ 8) ∷ context))))

-- The outcome of the encoding on every input.
pub encode_label_cases :
    (prefix label context : List ℕ) (out_len : ℕ)
    → encode_label prefix label context out_len ≡ (
        if ltb 0xffff out_len
        then err HkdfLabelError.output_too_long
        else if ltb 0xff (length prefix + length label)
        then err label_too_long
        else if ltb 0xff (length context)
        then err context_too_long
        else if leb (length prefix + length label + length context + 4) hkdf_label_max
        then ok (hkdf_label prefix label context out_len)
        else err encoded_too_long)
unfolding encode_label
encode_label_cases prefix label context out_len =
    let count = (length prefix + length label) % 2 ^ 8 in
    let tail = (length context % 2 ^ 8) ∷ [] in
    let size = to_be_bytes 2 (out_len % 2 ^ 16) in
    let chain = pushes size (count ∷ []) prefix label tail context in
    let head = size ++ (count ∷ []) in
    let whole : ((((head ++ prefix) ++ label) ++ tail) ++ context)
        ≡ hkdf_label prefix label context out_len =
      append_assoc ((head ++ prefix) ++ label) tail context
      ∙ append_assoc (head ++ prefix) label (tail ++ context)
      ∙ append_assoc head prefix (label ++ (tail ++ context)) in
    let one_push =
      chain
      ∙ ap (push []) whole
      ∙ push_lem [] (hkdf_label prefix label context out_len) (omega arith) in
    let inner = length-append label (tail ++ context) in
    let outer = length-append prefix (label ++ (tail ++ context)) in rw one_push (ground arith)

limits :
    (out_len total context : ℕ) (long : Bool) (found info : List ℕ)
    → ◌≡◌ {A = Result HkdfLabelError (List ℕ)}
        (if ltb 0xffff out_len
          then err HkdfLabelError.output_too_long
          else if ltb 0xff total
          then err label_too_long
          else if ltb 0xff context
          then err context_too_long
          else if long
          then ok found
          else err encoded_too_long)
        (ok info)
    → (out_len ≤ 0xffff) × (total ≤ 0xff) × (context ≤ 0xff) × (long ≡ true) × (found ≡ info)
limits out_len total context long found info h = ground arith

-- A label that was encoded is within the limits.
pub encode_label-eq-ok :
    (prefix label context : List ℕ) (out_len : ℕ) (info : List ℕ)
    → encode_label prefix label context out_len ≡ ok info
    → (out_len ≤ 0xffff)
      × (length prefix + length label ≤ 0xff)
      × (length context ≤ 0xff)
      × (leb (length prefix + length label + length context + 4) hkdf_label_max ≡ true)
      × (hkdf_label prefix label context out_len ≡ info)
encode_label-eq-ok prefix label context out_len info h =
    limits out_len (length prefix + length label) (length context)
      (leb (length prefix + length label + length context + 4) hkdf_label_max)
      (hkdf_label prefix label context out_len) info
      (sym (encode_label_cases prefix label context out_len) ∙ h)

-- One encoded label stands for one prefix of its length, one label, one context and one length of
-- the output: secrets for different purposes, and those of TLS and of DTLS, are never expanded
-- from the same string.
pub encode_label_distinct :
    (prefix prefix' label label' context context' : List ℕ) (out_len out_len' : ℕ) (info : List ℕ)
    → length prefix ≡ length prefix'
    → encode_label prefix label context out_len ≡ ok info
    → encode_label prefix' label' context' out_len' ≡ ok info
    → (prefix ≡ prefix') × (label ≡ label') × (context ≡ context') × (out_len ≡ out_len')
encode_label_distinct prefix prefix' label label' context context' out_len out_len' info same h h' =
    let (fits, total, ctx, room, e) = encode_label-eq-ok prefix label context out_len info h in
    let (fits', total', ctx', room', e') =
      encode_label-eq-ok prefix' label' context' out_len' info h' in
    let equal = e ∙ sym e' in
    let high : out_len % 2 ^ 16 / 256 % 256 ≡ out_len' % 2 ^ 16 / 256 % 256 = cc equal in
    let low : out_len % 2 ^ 16 / 1 % 256 ≡ out_len' % 2 ^ 16 / 1 % 256 = cc equal in
    let count : (length prefix + length label) % 2 ^ 8 ≡ (length prefix' + length label') % 2 ^ 8 =
      cc equal in
    let tails : prefix ++ (label ++ ((length context % 2 ^ 8) ∷ context))
        ≡ prefix' ++ (label' ++ ((length context' % 2 ^ 8) ∷ context')) =
      cc equal in
    let (prefixes, rest) = append_cancel prefix prefix' _ _ same tails in
    let (labels, contexts) = append_cancel label label' _ _ (omega arith) rest in
    (prefixes, labels, cc contexts, omega arith)
