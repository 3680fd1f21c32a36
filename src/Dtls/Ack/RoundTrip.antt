-- ===== src/Dtls/Ack/RoundTrip.antt =====
-- The record numbers of an ACK that was written are read back.
use krabitls_rs.Base.{
  ℕ, zero, suc, ◌+◌, ◌*◌, ◌%◌, ◌^◌, ◌≤◌, ◌<◌, ◌≡◌, refl, ap, List, [], ◌∷◌, ◌++◌, append_assoc,
  append-nil, none, some, All, length, take, drop, ltb, if◌then◌else◌, ok, err, arith,
  length-append,
}
use krabitls_rs.Base.Bytes.{get_range-append, to_be_bytes, from_be_bytes-to_be_bytes}
use krabitls_rs.Dtls.Ack.{
  AckRecords, too_many, buffer_too_small, write_entries, write_ack, parse_ack, next, collect_loop,
  collect,
}

abbrev pub IsRecordNumber : ℕ × ℕ → Type 0
IsRecordNumber r = (r.0 < 2 ^ 64) × (r.1 < 2 ^ 64)

pub length-write_entries :
    (records : List (ℕ × ℕ)) → length (write_entries records) ≡ 16 * length records
unfolding write_entries
length-write_entries [] = refl
length-write_entries ((epoch, seq) ∷ records) = omega (arith, length-write_entries records)

-- What `next` does where one entry stands behind `pos` bytes.
next_entry :
    (front back : List ℕ) (epoch seq : ℕ)
    → epoch < 2 ^ 64
    → seq < 2 ^ 64
    → next (record {
      entries = front ++ (to_be_bytes 8 epoch ++ (to_be_bytes 8 seq ++ back));
      pos = length front;
    })
      ≡ some (
        (epoch, seq),
        record {
          entries = front ++ (to_be_bytes 8 epoch ++ (to_be_bytes 8 seq ++ back));
          pos = length front + 16;
        },
      )
unfolding next take drop
next_entry front back epoch seq he hs =
    let found =
      get_range-append front (to_be_bytes 8 epoch ++ to_be_bytes 8 seq) back (length front)
        (length front + 16) refl refl in
    rw (found, next)
      (rw (from_be_bytes-to_be_bytes 8 epoch he, from_be_bytes-to_be_bytes 8 seq hs) refl)

next_end : (front : List ℕ) → next (record { entries = front; pos = length front }) ≡ none
unfolding next
next_end front = ground arith

collect_loop-write_entries :
    (records : List (ℕ × ℕ)) (front : List ℕ) (fuel : ℕ)
    → All IsRecordNumber records
    → length records ≤ fuel
    → collect_loop fuel (record { entries = front ++ write_entries records; pos = length front })
      ≡ records
unfolding collect_loop write_entries
collect_loop-write_entries [] front zero h hf = refl
collect_loop-write_entries [] front (suc fuel) h hf =
    rw append-nil (rw (next_end front, collect_loop))
collect_loop-write_entries (r ∷ records) front zero h hf = absurd (omega arith)
collect_loop-write_entries ((epoch, seq) ∷ records) front (suc fuel) h hf =
    let mid : List ℕ = to_be_bytes 8 epoch ++ to_be_bytes 8 seq in
    let rest = collect_loop-write_entries records (front ++ mid) fuel h.1 (omega arith) in
    rw (next_entry front (write_entries records) epoch seq h.0.0 h.0.1, collect_loop)
      (ap (◌∷◌ (epoch, seq))
        (rw (append_assoc front mid (write_entries records), length-append front mid) at rest))

parse_ack-entries :
    (entries rest : List ℕ) (len : ℕ)
    → len ≡ length entries
    → len ≤ 0xffff
    → len % 16 ≡ 0
    → parse_ack (to_be_bytes 2 len ++ (entries ++ rest))
      ≡ ok (record { entries = entries; pos = 0 })
unfolding parse_ack
parse_ack-entries entries rest len same small whole =
    let header = get_range-append [] (to_be_bytes 2 len) (entries ++ rest) 0 2 refl refl in
    let body = get_range-append (to_be_bytes 2 len) entries rest 2 (2 + len) refl (omega arith) in
    rw (header, parse_ack) (rw (from_be_bytes-to_be_bytes 2 len (omega arith), body) (ground arith))

-- The records of an ACK that was written, whatever follows its body, are read back in their order.
pub collect-write_ack :
    (records : List (ℕ × ℕ)) (out_len : ℕ) (bytes rest : List ℕ)
    → All IsRecordNumber records
    → write_ack records out_len ≡ ok bytes
    → (it : AckRecords) × (parse_ack (bytes ++ rest) ≡ ok it) × (collect it ≡ records)
unfolding collect write_ack
collect-write_ack records out_len bytes rest h e = (
  record { entries = write_entries records; pos = 0 },
  ground (
    arith,
    append_assoc (to_be_bytes 2 (length records * 16)) (write_entries records) rest,
    length-write_entries records,
    parse_ack-entries (write_entries records) rest (length records * 16),
  ),
  collect_loop-write_entries records [] (length (write_entries records)) h
      (omega (arith, length-write_entries records)),
)

-- `write_ack` fails exactly when the list is longer than a `u16` can say, or than the buffer.
write_ack_cases :
    (records : List (ℕ × ℕ)) (out_len : ℕ)
    → write_ack records out_len ≡ (
        if ltb 4095 (length records)
        then err too_many
        else if ltb out_len (2 + 16 * length records)
        then err buffer_too_small
        else ok (to_be_bytes 2 (16 * length records) ++ write_entries records))
unfolding write_ack
write_ack_cases records out_len = ground arith
