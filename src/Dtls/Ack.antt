-- ===== src/Dtls/Ack.antt =====
-- krabitls/src/dtls/ack.rs: the body of an ACK record. Of the output buffer only the length counts;
-- the result is what is written to its front, and its length is the number that the code returns.
pub mod RoundTrip
pub mod Bitmap
mod Tests
use krabitls_rs.Base.{
  ℕ, zero, suc, ◌+◌, ◌-◌, ◌*◌, ◌/◌, ◌%◌, List, [], ◌∷◌, ◌++◌, Option, none, some, true, false,
  length, take, drop, ltb, ◌==◌, if◌then◌else◌, not, bit_and, Result, ok, err, ◌>>=◌, ◌>>◌, fail_if,
  ok_or,
}
use krabitls_rs.Base.Bytes.{get_range, to_be_bytes, from_be_bytes}

pub data AckError : Type 0 where
  buffer_too_small too_many malformed : AckError

-- `RECORD_NUMBER_LEN`
abbrev pub record_number_len : ℕ
record_number_len = 16

-- The entries, one after the other: `epoch ‖ sequence_number`, eight bytes each.
pub write_entries : List (ℕ × ℕ) → List ℕ
write_entries [] = []
write_entries ((epoch, seq) ∷ records) =
    to_be_bytes 8 epoch ++ (to_be_bytes 8 seq ++ write_entries records)

pub write_ack : List (ℕ × ℕ) → ℕ → Result AckError (List ℕ)
write_ack records out_len = do
  let list_len = length records * record_number_len
  fail_if (ltb 0xffff list_len) too_many
  fail_if (ltb out_len (2 + list_len)) buffer_too_small
  ok (to_be_bytes 2 list_len ++ write_entries records)

-- `u128::count_ones` and `u128::trailing_zeros`, at every width.
pub count_ones : ℕ → ℕ → ℕ
count_ones zero x = 0
count_ones (suc width) x = x % 2 + count_ones width (x / 2)

pub trailing_zeros : ℕ → ℕ → ℕ
trailing_zeros zero x = 0
trailing_zeros (suc width) x = elim (x % 2 == 1) [
  | true ↦ 0
  | false ↦ suc (trailing_zeros width (x / 2))
]

-- The loop of `write_ack_bitmap` on the bits that are left: `bits &= bits - 1` clears the lowest.
-- Each round clears one, so the number of bits is enough fuel.
pub bitmap_loop : ℕ → ℕ → ℕ → List ℕ
bitmap_loop zero epoch bits = []
bitmap_loop (suc fuel) epoch bits = elim (bits == 0) [
  | true ↦ []
  | false ↦
      to_be_bytes 8 epoch
      ++ (to_be_bytes 8 (trailing_zeros 128 bits)
          ++ bitmap_loop fuel epoch (bit_and bits (bits - 1)))
]

pub write_ack_bitmap : ℕ → ℕ → ℕ → Result AckError (List ℕ)
write_ack_bitmap epoch seqs out_len = do
  let ones = count_ones 128 seqs
  let list_len = ones * record_number_len
  fail_if (ltb out_len (2 + list_len)) buffer_too_small
  ok (to_be_bytes 2 list_len ++ bitmap_loop ones epoch seqs)

pub record AckRecords : Type 0 where
  pub entries : List ℕ
  pub pos : ℕ

pub parse_ack : List ℕ → Result AckError AckRecords
parse_ack body = do
  len_bytes ← ok_or (get_range 0 2 body) malformed
  let list_len = from_be_bytes len_bytes
  entries ← ok_or (get_range 2 (2 + list_len) body) malformed
  fail_if (not (length entries % record_number_len == 0)) malformed
  ok (record { entries = entries; pos = 0 })

-- `Iterator::next`
pub next : AckRecords → Option ((ℕ × ℕ) × AckRecords)
next it = elim (get_range it.pos (it.pos + record_number_len) it.entries) [
  | none ↦ none
  | some chunk ↦ some (
    (from_be_bytes (take 8 chunk), from_be_bytes (take 8 (drop 8 chunk))),
    record it { pos = it.pos + record_number_len },
  )
]

-- All that the iterator yields; each round moves it on, so the length of the entries is enough fuel.
pub collect_loop : ℕ → AckRecords → List (ℕ × ℕ)
collect_loop zero it = []
collect_loop (suc fuel) it = elim (next it) [
  | none ↦ []
  | some (r, it') ↦ r ∷ collect_loop fuel it'
]

pub collect : AckRecords → List (ℕ × ℕ)
collect it = collect_loop (length it.entries) it
