-- ===== src/Keys/Tests.antt =====
-- Runs of krabitls/src/hkdf.rs over a toy backend, and its theorems at concrete inputs.
use krabitls_rs.Base.{
  ℕ, ◌+◌, ◌≡◌, refl, inl, List, [], ◌∷◌, length, replicate, ok, err, if◌then◌else◌, leb, ltb, arith,
}
use krabitls_rs.Base.Lists.{length-replicate}
use krabitls_rs.Base.Bytes.{from_be_bytes}
use krabitls_rs.Keys.Hkdf.{
  HkdfSha256, HkdfLabelError, label_too_long, context_too_long, encoded_too_long, hkdf_label_max,
  tls13_label_prefix, encode_label, push_bytes,
}
use krabitls_rs.Keys.Hkdf.Label.{hkdf_label, encode_label_cases, encode_label_distinct}
use krabitls_rs.Keys.Schedule.{
  new, update_record, record_too_short, key_label, handshake_secret, handshake_traffic_secrets,
  traffic_keys, master_secret, application_traffic_secrets, finished_mac,
  next_application_traffic_secret,
}
use krabitls_rs.Keys.Schedule.Total.{IsTotal, Gives, GivesPair, schedule_total}

-- A backend of constant bytes.
abbrev toy : HkdfSha256
toy = record {
  snapshot = λ fed. ok (replicate 32 (length fed));
  extract = λ salt ikm. ok (replicate 32 1);
  expand = λ prk info n. ok (replicate n 2);
}

toy-IsTotal : IsTotal toy
toy-IsTotal = record {
  extract_lem = λ salt ikm. (replicate 32 1, refl, refl);
  expand_lem = λ prk info n size limit. (replicate n 2, refl, length-replicate n 2);
}

abbrev some_secret : List ℕ
some_secret = replicate 32 7

abbrev some_hash : List ℕ
some_hash = replicate 32 9

schedule_total_example :
    Gives (handshake_secret toy (replicate 32 5)) 32
    × GivesPair (handshake_traffic_secrets toy some_secret some_hash) 32 32
    × GivesPair (traffic_keys toy 16 some_secret) 16 12
    × Gives (master_secret toy some_secret) 32
    × GivesPair (application_traffic_secrets toy some_secret some_hash) 32 32
    × Gives (finished_mac toy some_secret some_hash) 32
    × Gives (next_application_traffic_secret toy some_secret) 32
schedule_total_example =
    schedule_total toy toy-IsTotal 16 (replicate 32 5) some_secret some_hash (omega arith)
      (inl refl) refl refl

-- The string from which a key of 16 bytes is expanded.
abbrev key_info : List ℕ
key_info = 0 ∷ 16 ∷ 9 ∷ 116 ∷ 108 ∷ 115 ∷ 49 ∷ 51 ∷ 32 ∷ 107 ∷ 101 ∷ 121 ∷ 0 ∷ []

encoded_key : encode_label tls13_label_prefix key_label [] 16 ≡ ok key_info
unfolding encode_label push_bytes
encoded_key = refl

abbrev key_size : ℕ
key_size = 16

encode_label_distinct_example :
    (tls13_label_prefix ≡ tls13_label_prefix)
    × (key_label ≡ key_label)
    × (◌≡◌ {A = List ℕ} [] [])
    × (key_size ≡ key_size)
encode_label_distinct_example =
    encode_label_distinct tls13_label_prefix tls13_label_prefix key_label key_label [] [] 16 16
      key_info refl encoded_key encoded_key

encode_label_cases_example : encode_label tls13_label_prefix key_label some_hash 70000 ≡ (
    if ltb 0xffff 70000
    then err HkdfLabelError.output_too_long
    else if ltb 0xff (length tls13_label_prefix + length key_label)
    then err label_too_long
    else if ltb 0xff (length some_hash)
    then err context_too_long
    else if leb (length tls13_label_prefix + length key_label + length some_hash + 4) hkdf_label_max
    then ok (hkdf_label tls13_label_prefix key_label some_hash 70000)
    else err encoded_too_long)
encode_label_cases_example = encode_label_cases tls13_label_prefix key_label some_hash 70000

short_record : update_record new (22 ∷ 3 ∷ 3 ∷ 0 ∷ 2 ∷ 1 ∷ []) ≡ err record_too_short
unfolding update_record from_be_bytes
short_record = refl
