-- ===== src/Client/Data/Stream/Taken.antt =====
-- What the machine of one byte at a time makes of tickets and headers, beside the loops of
-- krabitls/src/client/engine.rs.
use krabitls_rs.Base.{
  ℕ, zero, suc, ◌+◌, ◌-◌, ◌≤◌, ◌≡◌, refl, sym, ap, ap₂, ◌∙◌, Bool, true, false, List, [], ◌∷◌, ◌++◌,
  length, take, drop, ltb, ◌==◌, if◌then◌else◌, Option, none, Result, ok, err, ◌>>=◌, append-nil,
  append_assoc, arith,
}
use krabitls_rs.Base.Lists.{length-append}
use krabitls_rs.Client.Errors.{HandshakeError}
use krabitls_rs.Client.Data.{PostHandshakeReasm, stage_until}
use krabitls_rs.Client.Data.Received.{idle}
use krabitls_rs.Client.Data.Stream.{skipping, staged, read_header, take_byte, go_on, take_bytes}

pub take_all : (n : ℕ) (xs : List ℕ) → length xs ≤ n → take n xs ≡ xs
unfolding take
take_all zero [] small = refl
take_all zero (x ∷ xs) small = absurd (omega arith)
take_all (suc n) [] small = refl
take_all (suc n) (x ∷ xs) small = ap (◌∷◌ x) (take_all n xs (omega arith))

-- The loop that stages takes as many bytes as are missing.
pub stage_until_lem :
    (limit : ℕ) (stage : List ℕ) (k : ℕ) (bytes : List ℕ)
    → length stage + k ≡ limit
    → stage_until limit stage bytes ≡ (stage ++ take k bytes, drop k bytes)
unfolding stage_until take drop
stage_until_lem limit stage zero [] same = ap (λ t. (t, [])) (sym (append-nil stage))
stage_until_lem limit stage zero (b ∷ bytes) same =
    let full : ltb (length stage) limit ≡ false = ground arith in
    rw (full) (ap (λ t. (t, b ∷ bytes)) (sym (append-nil stage)))
stage_until_lem limit stage (suc k) [] same = ap (λ t. (t, [])) (sym (append-nil stage))
stage_until_lem limit stage (suc k) (b ∷ bytes) same =
    let more : ltb (length stage) limit ≡ true = ground arith in
    rw (more) (
      stage_until_lem limit (stage ++ (b ∷ [])) k bytes
        (omega (arith, length-append stage (b ∷ [])))
      ∙ ap (λ t. (t, drop k bytes)) (append_assoc stage (b ∷ []) (take k bytes)))

pub take_bytes-skipping :
    (n : ℕ) (bytes : List ℕ)
    → take_bytes (skipping n) bytes ≡ (
        if ltb (length bytes) n
        then ok (skipping (n - length bytes), none)
        else take_bytes idle (drop n bytes))
unfolding take_bytes take_byte go_on drop
take_bytes-skipping zero bytes =
    let never : ltb (length bytes) 0 ≡ false = ground arith in rw (never) refl
take_bytes-skipping (suc n) [] =
    let always : ltb 0 (suc n) ≡ true = ground arith in
    let same : suc n - 0 ≡ suc n = omega arith in rw (always, same) refl
take_bytes-skipping (suc n) (b ∷ bytes) =
    let some_left : ltb 0 (suc n) ≡ true = ground arith in
    let one_less : suc n - 1 ≡ n = omega arith in
    let same : ltb (suc (length bytes)) (suc n) ≡ ltb (length bytes) n = ground arith in
    let less : suc n - suc (length bytes) ≡ n - length bytes = omega arith in
    rw (some_left, one_less, same, less) (take_bytes-skipping n bytes)

after_header :
    (m : Result HandshakeError PostHandshakeReasm)
    (f : PostHandshakeReasm → Result HandshakeError (PostHandshakeReasm × Option Bool))
    (bytes : List ℕ)
    → ◌≡◌ {A = Result HandshakeError (PostHandshakeReasm × Option Bool)}
        (◌>>=◌ {A = PostHandshakeReasm × Option Bool} (m >>= λ ph. ok (ph, none)) (go_on f bytes))
        (m >>= f)
unfolding go_on
after_header (ok ph) f bytes = refl
after_header (err e) f bytes = refl

pub take_bytes-staged :
    (s : List ℕ) (j : ℕ) (bytes : List ℕ)
    → length s + suc j ≡ 4
    → take_bytes (staged s) bytes ≡ (
        if ltb (length bytes) (suc j)
        then ok (staged (s ++ bytes), none)
        else read_header (s ++ take (suc j) bytes) >>= λ ph. take_bytes ph (drop (suc j) bytes))
unfolding take_bytes take_byte go_on take drop
take_bytes-staged s j [] size =
    let short : ltb 0 (suc j) ≡ true = ground arith in
    rw (short) (ap (λ t. ok (staged t, none)) (sym (append-nil s)))
take_bytes-staged s zero (b ∷ bytes) size =
    let three : ltb (length s) 3 ≡ false = ground arith in
    let three' : (length s == 3) ≡ true = ground arith in
    let enough : ltb (suc (length bytes)) 1 ≡ false = ground arith in
    rw (three, three', enough)
      (after_header (read_header (s ++ (b ∷ []))) (λ ph. take_bytes ph bytes) bytes)
take_bytes-staged s (suc j) (b ∷ bytes) size =
    let fewer : ltb (length s) 3 ≡ true = ground arith in
    let same : ltb (suc (length bytes)) (suc (suc j)) ≡ ltb (length bytes) (suc j) = ground arith in
    let rest =
      take_bytes-staged (s ++ (b ∷ [])) j bytes (omega (arith, length-append s (b ∷ []))) in
    rw (fewer, same)
      (rest
        ∙ ap₂
            (λ u v.
              if ltb (length bytes) (suc j)
              then ok (staged u, none)
              else read_header v >>= λ ph. take_bytes ph (drop (suc j) bytes))
            (append_assoc s (b ∷ []) bytes) (append_assoc s (b ∷ []) (take (suc j) bytes)))
