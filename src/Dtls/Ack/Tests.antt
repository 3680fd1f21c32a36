-- ===== src/Dtls/Ack/Tests.antt =====
-- Small ACK bodies, and the theorems at concrete inputs.
use krabitls_rs.Base.{ℕ, ◌≡◌, refl, List, [], ◌∷◌, ◌++◌, take, drop, ok, err, arith}
use krabitls_rs.Base.Bytes.{from_be_bytes}
use krabitls_rs.Dtls.Ack.{
  AckRecords, malformed, write_entries, write_ack, count_ones, trailing_zeros, bitmap_loop,
  write_ack_bitmap, parse_ack, collect,
}
use krabitls_rs.Dtls.Ack.RoundTrip.{collect-write_ack}
use krabitls_rs.Dtls.Ack.Bitmap.{
  set_bits, numbered, write_ack_bitmap-write_ack, collect-write_ack_bitmap,
}

abbrev two_records : List (ℕ × ℕ)
two_records = (2, 0) ∷ (2, 0x103) ∷ []

abbrev two_entries : List ℕ
two_entries =
    0 ∷ 0 ∷ 0 ∷ 0 ∷ 0 ∷ 0 ∷ 0 ∷ 2 ∷ 0 ∷ 0 ∷ 0 ∷ 0 ∷ 0 ∷ 0 ∷ 0 ∷ 0 ∷ 0 ∷ 0 ∷ 0 ∷ 0 ∷ 0 ∷ 0 ∷ 0 ∷ 2
    ∷ 0 ∷ 0 ∷ 0 ∷ 0 ∷ 0 ∷ 0 ∷ 1 ∷ 3 ∷ []

two_written : write_ack two_records 34 ≡ ok (0 ∷ 32 ∷ two_entries)
unfolding write_ack write_entries
two_written = refl

two_read : parse_ack (0 ∷ 32 ∷ two_entries) ≡ ok (record { entries = two_entries; pos = 0 })
unfolding parse_ack take drop from_be_bytes
two_read = refl

uneven : parse_ack (0 ∷ 3 ∷ 1 ∷ 2 ∷ 3 ∷ []) ≡ err malformed
unfolding parse_ack take drop from_be_bytes
uneven = refl

bitmap_written : write_ack_bitmap 2 0b101 34 ≡ write_ack ((2, 0) ∷ (2, 2) ∷ []) 34
unfolding write_ack_bitmap count_ones bitmap_loop trailing_zeros write_ack write_entries
bitmap_written = refl

abbrev bitmap_bytes : List ℕ
bitmap_bytes = 0 ∷ 16 ∷ 0 ∷ 0 ∷ 0 ∷ 0 ∷ 0 ∷ 0 ∷ 0 ∷ 2 ∷ 0 ∷ 0 ∷ 0 ∷ 0 ∷ 0 ∷ 0 ∷ 0 ∷ 3 ∷ []

bitmap_run : write_ack_bitmap 2 8 18 ≡ ok bitmap_bytes
unfolding write_ack_bitmap count_ones bitmap_loop trailing_zeros
bitmap_run = refl

collect-write_ack_example :
    (it : AckRecords) × (parse_ack ((0 ∷ 32 ∷ two_entries) ++ 7 ∷ []) ≡ ok it)
    × (collect it ≡ two_records)
collect-write_ack_example =
    collect-write_ack two_records 34 (0 ∷ 32 ∷ two_entries) (7 ∷ []) (omega arith) two_written

write_ack_bitmap-write_ack_example :
    write_ack_bitmap 2 8 18 ≡ write_ack (numbered 2 (set_bits 128 0 8)) 18
write_ack_bitmap-write_ack_example = write_ack_bitmap-write_ack 2 8 18

collect-write_ack_bitmap_example :
    (it : AckRecords) × (parse_ack (bitmap_bytes ++ 7 ∷ []) ≡ ok it)
    × (collect it ≡ numbered 2 (set_bits 128 0 8))
collect-write_ack_bitmap_example =
    collect-write_ack_bitmap 2 8 18 bitmap_bytes (7 ∷ []) (omega arith) bitmap_run
