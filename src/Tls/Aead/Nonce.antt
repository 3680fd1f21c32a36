-- ===== src/Tls/Aead/Nonce.antt =====
-- The per-record nonce of krabitls/src/aead.rs.
use krabitls_rs.Base.{
  ℕ, bit_xor, ◌<◌, ◌≤◌, ◌^◌, ◌≡◌, ◌≢◌, refl, ap, ap₂, sym, ◌∙◌, List, [], ◌∷◌, length, take, drop,
  arith,
}
use krabitls_rs.Base.Lists.{drop-append, length-drop, length-take}
use krabitls_rs.Base.Bits.{bit_xor_cancel}
use krabitls_rs.Base.Bytes.{
  to_be_bytes, length-to_be_bytes, from_be_bytes, from_be_bytes-to_be_bytes,
}
use krabitls_rs.Tls.Aead.{xor_into, aead_nonce}

xor_into_cancel :
    (dst left right : List ℕ)
    → length left ≤ length dst
    → length left ≡ length right
    → xor_into dst left ≡ xor_into dst right
    → left ≡ right
unfolding xor_into
xor_into_cancel dst [] [] fits same h = refl
xor_into_cancel dst [] (r ∷ right) fits same h = absurd (omega arith)
xor_into_cancel dst (l ∷ left) [] fits same h = absurd (omega arith)
xor_into_cancel [] (l ∷ left) (r ∷ right) fits same h = absurd (omega arith)
xor_into_cancel (n ∷ dst) (l ∷ left) (r ∷ right) fits same h =
    let head : bit_xor n l ≡ bit_xor n r = cc h in
    let tail : xor_into dst left ≡ xor_into dst right = cc h in
    ap₂ ◌∷◌ (bit_xor_cancel n l r head)
      (xor_into_cancel dst left right (omega arith) (omega arith) tail)

to_be_bytes_cancel :
    (n v w : ℕ) → v < 256 ^ n → w < 256 ^ n → to_be_bytes n v ≡ to_be_bytes n w → v ≡ w
to_be_bytes_cancel n v w hv hw h =
    sym (from_be_bytes-to_be_bytes n v hv) ∙ ap from_be_bytes h ∙ from_be_bytes-to_be_bytes n w hw

aead_nonce_cancel :
    (iv : List ℕ) (s t : ℕ)
    → length iv ≡ 12
    → s < 2 ^ 64
    → t < 2 ^ 64
    → aead_nonce iv s ≡ aead_nonce iv t
    → s ≡ t
unfolding aead_nonce
aead_nonce_cancel iv s t twelve hs ht h =
    let four = length-take 4 iv in
    let low =
      λ (v : ℕ). drop-append (take 4 iv) (xor_into (drop 4 iv) (to_be_bytes 8 v)) 4 (omega arith) in
    to_be_bytes_cancel 8 s t hs ht (
      xor_into_cancel (drop 4 iv) (to_be_bytes 8 s) (to_be_bytes 8 t)
        (omega (arith, length-drop 4 iv, length-to_be_bytes 8 s))
        (length-to_be_bytes 8 s ∙ sym (length-to_be_bytes 8 t))
        (sym (low s) ∙ ap (drop 4) h ∙ low t))

-- Under one initialization vector of twelve bytes, two 64-bit record numbers never share a nonce.
pub aead_nonce_distinct :
    (iv : List ℕ) (s t : ℕ)
    → length iv ≡ 12
    → s < 2 ^ 64
    → t < 2 ^ 64
    → s ≢ t
    → aead_nonce iv s ≢ aead_nonce iv t
aead_nonce_distinct iv s t twelve hs ht different h =
    different (aead_nonce_cancel iv s t twelve hs ht h)
