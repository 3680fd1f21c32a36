-- ===== src/Tls/Hello/Fields.antt =====
-- krabitls/src/lib.rs, the `Reader` of the hello codec: a buffer and a position in it. A length of
-- three bytes fits the code's `usize`, which has 32 bits or more.
use krabitls_rs.Base.{
  ℕ, ◌+◌, ◌-◌, Bool, List, [], ◌∷◌, length, ltb, ◌==◌, Result, ok, ◌>>=◌, ◌>>◌, fail_if,
}
use krabitls_rs.Base.Bytes.{byte_at, slice, from_be_bytes}
use krabitls_rs.Tls.HelloErrors.{ParseError}

pub record Reader : Type 0 where
  pub buf : List ℕ
  pub pos : ℕ

abbrev pub new : List ℕ → Reader
new buf = record { buf = buf; pos = 0 }

abbrev pub remaining : Reader → ℕ
remaining r = length r.buf - r.pos

abbrev pub at_end : Reader → Bool
at_end r = r.pos == length r.buf

-- `take`, and `take_array`, whose second test never fails.
unfoldable pub take : ℕ → Reader → Result ParseError (List ℕ × Reader)
take n r = do
  fail_if (ltb (remaining r) n) ParseError.truncated
  ok (slice r.pos (r.pos + n) r.buf, record r { pos = r.pos + n })

unfoldable pub u8 : Reader → Result ParseError (ℕ × Reader)
u8 r = do (bytes, r) ← take 1 r; ok (byte_at bytes 0, r)

unfoldable pub u16 : Reader → Result ParseError (ℕ × Reader)
u16 r = do (bytes, r) ← take 2 r; ok (from_be_bytes (byte_at bytes 0 ∷ byte_at bytes 1 ∷ []), r)

unfoldable pub u24 : Reader → Result ParseError (ℕ × Reader)
u24 r = do
  (bytes, r) ← take 3 r
  ok (from_be_bytes (0 ∷ byte_at bytes 0 ∷ byte_at bytes 1 ∷ byte_at bytes 2 ∷ []), r)

unfoldable pub vec_u8 : Reader → Result ParseError (List ℕ × Reader)
vec_u8 r = do (n, r) ← u8 r; take n r

unfoldable pub vec_u16 : Reader → Result ParseError (List ℕ × Reader)
vec_u16 r = do (n, r) ← u16 r; take n r

unfoldable pub vec_u24 : Reader → Result ParseError (List ℕ × Reader)
vec_u24 r = do (n, r) ← u24 r; take n r
