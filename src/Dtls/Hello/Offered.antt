-- ===== src/Dtls/Hello/Offered.antt =====
-- The ServerHello that krabitls/src/dtls/handshake.rs parses.
use krabitls_rs.Base.{
  ℕ, zero, suc, ◌+◌, ◌^◌, ◌<◌, ◌≡◌, refl, sym, ap, ◌∙◌, List, [], ◌∷◌, ◌++◌, length, get_elem?, leb,
  ltb, true, false, none, some, Result, ok, ◌>>=◌, ok_or, All, arith, append_assoc,
}
use mathlib.Core.Path.{fun_ext}
use krabitls_rs.Base.Lists.{length-append}
use krabitls_rs.Base.Bytes.{
  byte_at, get_range, get_range-append, to_be_bytes, from_be_bytes, from_be_bytes-to_be_bytes,
}
use krabitls_rs.Tls.ServerFlight.Requested.{extension, extensions, IsSmallExtension}
use krabitls_rs.Dtls.Hello.{
  ParseError, malformed, Found, hrr_random, read_u16, read_extension, extension_loop, same_random,
  hello_kind, parse_server_hello,
}

pub read_u16-append :
    (front : List ℕ) (v : ℕ) (back : List ℕ) (at : ℕ)
    → at ≡ length front
    → v < 2 ^ 16
    → read_u16 (front ++ (to_be_bytes 2 v ++ back)) at ≡ ok v
unfolding read_u16
read_u16-append front v back at here small =
    ap
      (λ o.
        ok_or o malformed >>= λ bytes. ok (from_be_bytes (byte_at bytes 0 ∷ byte_at bytes 1 ∷ [])))
      (get_range-append front (to_be_bytes 2 v) back at (at + 2) here refl)
    ∙ ap ok (from_be_bytes-to_be_bytes 2 v small)

-- The element at the seam of an appended list.
at_seam :
    (front : List ℕ) (x : ℕ) (back : List ℕ) (n : ℕ)
    → n ≡ length front
    → get_elem? (front ++ (x ∷ back)) n ≡ some x
at_seam [] x back zero here = refl
at_seam [] x back (suc n) here = absurd (omega arith)
at_seam (y ∷ front) x back zero here = absurd (omega arith)
at_seam (y ∷ front) x back (suc n) here = at_seam front x back n (omega arith)

-- Extensions read one after the other.
abbrev pub read_all : Found → List (ℕ × List ℕ) → Result ParseError Found
read_all f [] = ok f
read_all f (e ∷ es) = read_extension f e.0 e.1 >>= λ f'. read_all f' es

extension_loop-extensions :
    (fuel : ℕ) (before : List ℕ) (es : List (ℕ × List ℕ)) (f : Found) (i end : ℕ)
    → i ≡ length before
    → end ≡ i + length (extensions es)
    → length (extensions es) < fuel
    → All IsSmallExtension es
    → extension_loop fuel (before ++ extensions es) end f i ≡ read_all f es
unfolding extension_loop
extension_loop-extensions zero before es f i end here whole enough small = absurd (omega arith)
extension_loop-extensions (suc fuel) before [] f i end here whole enough small =
    let done : leb (i + 4) end ≡ false = ground arith in rw done refl
extension_loop-extensions (suc fuel) before (e ∷ es) f i end here whole enough small =
    let et = to_be_bytes 2 e.0 in
    let el = to_be_bytes 2 (length e.1) in
    let rest = extensions es in
    let body = before ++ (et ++ (el ++ (e.1 ++ rest))) in
    let size = length-append (extension e) rest in
    let size1 = length-append before et in
    let size2 = length-append before (et ++ el) in
    let size3 = length-append before (extension e) in
    let type_eq : read_u16 body i ≡ ok e.0 =
      read_u16-append before e.0 (el ++ (e.1 ++ rest)) i here small.0.0 in
    let len_eq : read_u16 body (i + 2) ≡ ok (length e.1) =
      ap (λ l. read_u16 l (i + 2)) (sym (append_assoc before et (el ++ (e.1 ++ rest))))
      ∙ read_u16-append (before ++ et) (length e.1) (e.1 ++ rest) (i + 2) (omega arith) small.0.1 in
    let data_eq : get_range (i + 4) (i + 4 + length e.1) body ≡ some e.1 =
      ap (get_range (i + 4) (i + 4 + length e.1))
        (sym (append_assoc before (et ++ el) (e.1 ++ rest)))
      ∙ get_range-append (before ++ (et ++ el)) e.1 rest (i + 4) (i + 4 + length e.1) (omega arith)
          refl in
    let more : leb (i + 4) end ≡ true = ground arith in
    let go = λ (f' : Found).
      ap (λ l. extension_loop fuel l end f' (i + (4 + length e.1)))
        (sym (append_assoc before (extension e) rest))
      ∙ extension_loop-extensions fuel (before ++ extension e) es f' (i + (4 + length e.1)) end
          (omega arith) (omega arith) (omega arith) small.1 in
    rw (more, type_eq, len_eq, data_eq) (ap (λ k. read_extension f e.0 e.1 >>= k) (fun_ext go))

-- The body of a ServerHello: a version, a random, a session id after its length, a suite, a
-- compression method, and a block of extensions after its length.
abbrev pub server_hello : List ℕ → List ℕ → List ℕ → ℕ → ℕ → List (ℕ × List ℕ) → List ℕ
server_hello version random session_id suite compression es =
    version
    ++ (random
        ++ (length session_id
            ∷ (session_id
                ++ (to_be_bytes 2 suite
                    ++ (compression ∷ (to_be_bytes 2 (length (extensions es)) ++ extensions es))))))

abbrev pub nothing_found : Found
nothing_found = record { cookie = none; key_share = none; server_cid = none }

-- Of a ServerHello with fields of the lengths that their types have, the parser reads every
-- extension once and in order, and then answers by whether the random marks a retry: the suite
-- with the cookie, or with the key share and the connection id, or the error that it lacks.
pub parse_server_hello-server_hello :
    (version random session_id : List ℕ) (suite compression : ℕ) (es : List (ℕ × List ℕ))
    → length version ≡ 2
    → length random ≡ 32
    → suite < 2 ^ 16
    → length (extensions es) < 2 ^ 16
    → All IsSmallExtension es
    → parse_server_hello (server_hello version random session_id suite compression es)
      ≡ (read_all nothing_found es >>= hello_kind (same_random random hrr_random) suite)
unfolding parse_server_hello
parse_server_hello-server_hello version random session_id suite compression es version_len
      random_len suite_lt exts_lt small =
    let body = server_hello version random session_id suite compression es in
    let exts = extensions es in
    let n = length session_id in
    let len2 = to_be_bytes 2 (length exts) in
    let suite2 = to_be_bytes 2 suite in
    let tail = suite2 ++ (compression ∷ (len2 ++ exts)) in
    let after_random = n ∷ (session_id ++ tail) in
    let front1 = version ++ random in
    let size1 = length-append version random in
    let random_eq : get_range 2 34 body ≡ some random =
      get_range-append version random after_random 2 34 (omega arith) (omega arith) in
    let by_front1 : body ≡ front1 ++ after_random =
      sym (append_assoc version random after_random) in
    let sid_eq : get_elem? body 34 ≡ some n =
      ap (λ l. get_elem? l 34) by_front1 ∙ at_seam front1 n (session_id ++ tail) 34 (omega arith) in
    let front2 = front1 ++ (n ∷ session_id) in
    let size2 = length-append front1 (n ∷ session_id) in
    let by_front2 : body ≡ front2 ++ tail =
      by_front1 ∙ sym (append_assoc front1 (n ∷ session_id) tail) in
    let i = 34 + (1 + n) in
    let suite_eq : read_u16 body i ≡ ok suite =
      ap (λ l. read_u16 l i) by_front2
      ∙ read_u16-append front2 suite (compression ∷ (len2 ++ exts)) i (omega arith) suite_lt in
    let front3 = front2 ++ (suite2 ++ (compression ∷ [])) in
    let size3 = length-append front2 (suite2 ++ (compression ∷ [])) in
    let by_front3 : body ≡ front3 ++ (len2 ++ exts) =
      by_front2 ∙ sym (append_assoc front2 (suite2 ++ (compression ∷ [])) (len2 ++ exts)) in
    let len_eq : read_u16 body (i + 3) ≡ ok (length exts) =
      ap (λ l. read_u16 l (i + 3)) by_front3
      ∙ read_u16-append front3 (length exts) exts (i + 3) (omega arith) exts_lt in
    let front4 = front3 ++ len2 in
    let size4 = length-append front3 len2 in
    let by_front4 : body ≡ front4 ++ exts = by_front3 ∙ sym (append_assoc front3 len2 exts) in
    let total : length body ≡ i + 3 + 2 + length exts =
      ap length by_front4 ∙ omega (arith, length-append front4 exts) in
    let room : ltb (length body) (i + 3 + 2 + length exts) ≡ false = ground arith in
    let loop : extension_loop (suc (length body)) body (i + 3 + 2 + length exts) nothing_found
          (i + 3 + 2)
        ≡ read_all nothing_found es =
      ap
        (λ l.
          extension_loop (suc (length body)) l (i + 3 + 2 + length exts) nothing_found (i + 3 + 2))
        by_front4
      ∙ extension_loop-extensions (suc (length body)) front4 es nothing_found (i + 3 + 2)
          (i + 3 + 2 + length exts) (omega arith) refl (omega arith) small in
    rw (random_eq, sid_eq, suite_eq, len_eq, room, loop) refl
