-- ===== src/Dtls/Record/Tests.antt =====
-- Runs of the DTLS record layer under a no-op cipher, and the theorems at concrete inputs.
use krabitls_rs.Base.{
  ℕ, ◌%◌, ◌^◌, ◌≤◌, ◌≡◌, refl, List, [], ◌∷◌, ◌++◌, replicate, some, true, ok, err, arith, take,
  drop,
}
use krabitls_rs.Tls.Aead.{IsAead, xor_into, aead_nonce}
use krabitls_rs.Dtls.Record.{
  two, abs_diff, reconstruct_seq, SealHeader, EpochKeys, cid_mismatch, first_byte, write_seq, seal,
  check_header, open_sealed,
}
use krabitls_rs.Dtls.Record.Number.{reconstruct_seq_nearest}
use krabitls_rs.Dtls.Record.RoundTrip.{open_sealed-seal}

abbrev keys : EpochKeys
keys = record {
  cipher = record {
    encrypt = λ nonce aad plain. some (plain, 9 ∷ replicate 15 0);
    decrypt = λ nonce aad buffer tag. (true, buffer);
  };
  iv = replicate 12 0;
  masker = λ sample. sample;
}

keys-IsAead : IsAead keys.cipher
keys-IsAead = record { encrypt-length = λ h. (cc h, cc h); decrypt-encrypt = λ h. cc h }

abbrev hdr : SealHeader
hdr = record { epoch = 6; seq = 0x1_0002; seq_len = two; cid = some (77 ∷ []) }

abbrev content : List ℕ
content = 104 ∷ 105 ∷ []

-- The number 2 of the wire is masked with the first two bytes of the ciphertext.
abbrev sealed : List ℕ
sealed = 0b0011_1110 ∷ 77 ∷ 104 ∷ 107 ∷ 0 ∷ 19 ∷ 104 ∷ 105 ∷ 23 ∷ 9 ∷ replicate 15 0

sealed_lem : seal keys hdr content 23 64 ≡ ok sealed
unfolding seal first_byte write_seq xor_into aead_nonce take drop
sealed_lem = refl

no_cid : open_sealed keys 0 0xffff sealed ≡ err cid_mismatch
unfolding open_sealed check_header
no_cid = refl

-- A number after the wrap of its low digits is found.
wrapped : reconstruct_seq 2 16 0xffff ≡ 0x1_0002
unfolding reconstruct_seq
wrapped = refl

reconstruct_seq_nearest_example :
    (reconstruct_seq 2 16 0xffff % 2 ^ 16 ≡ 2)
    × (abs_diff (reconstruct_seq 2 16 0xffff) 0xffff ≤ abs_diff 2 0xffff)
reconstruct_seq_nearest_example =
    reconstruct_seq_nearest 2 16 0xffff 2 (omega arith) (omega arith) (omega arith) refl

open_sealed-seal_example :
    open_sealed keys 1 0xffff (sealed ++ (1 ∷ 2 ∷ []))
    ≡ ok (record {
      epoch_low2 = 2;
      seq = 0x1_0002;
      content_type = 23;
      content = content;
      record_len = 25;
    })
open_sealed-seal_example =
    open_sealed-seal keys keys-IsAead hdr content 23 64 1 0xffff sealed (1 ∷ 2 ∷ [])
      (λ h. omega arith) (omega arith) refl refl (omega arith) (omega arith) (omega arith)
      sealed_lem
