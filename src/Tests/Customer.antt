-- ===== src/Tests/Customer.antt =====
-- The theorems on partition keys at inputs that meet their hypotheses. The digest stands for SHA-256
-- as the function that returns its input.
use solace_broker_autoscale.Customer.Encoding.{Collision}
use solace_broker_autoscale.Customer.Encoding.{
  canonical_bytes-injective, entity_hash-injective, sha256_rendezvous_score-injective,
}
use solace_broker_autoscale.Customer.Hex.{
  IsLowerHex, parse_business_hash-IsLowerHex_iff, parse_business_hash-encode_hex,
}
use solace_broker_autoscale.Customer.Keys.{
  ScoreInput, canonical_bytes, canonical_strings, check_sizes, decode_hex, digest_bytes,
  encode_components, encode_hex, entity_hash, entity_input, parse_business_hash, put_uint32,
  rendezvous_contract, score_input, sha256_rendezvous_score,
}
use solace_broker_autoscale.Prelude.{
  All, Result, [], arith, bool_eq, err, length, list_eq, nat_eq, ok, option_eq, pair_eq, refl, suc,
  zero, ℕ, ◌<◌, ◌∷◌, ◌≡◌, ◌⊎◌,
}
use solace_broker_autoscale.Text.{Bytes, bytes}
use solace_broker_autoscale.Text.{runes}
use solace_broker_autoscale.Customer.Keys.{bad_digest}
use solace_broker_autoscale.Prelude.{int_eq, ◌*◌, ◌↔◌}

abbrev text_itself : Bytes → Bytes
text_itself text = text

abbrev result_text : {E : Type 0} → Result E Bytes → Bytes
result_text (ok s) = s
result_text (err e) = []

abbrev encoded_two : Bytes
encoded_two = result_text (canonical_bytes (bytes "a" ∷ bytes "b" ∷ []))

encodes_two : canonical_bytes (bytes "a" ∷ bytes "b" ∷ []) ≡ ok encoded_two
unfolding canonical_bytes check_sizes encode_components put_uint32
encodes_two = refl

canonical_bytes-injective_example : bytes "a" ∷ bytes "b" ∷ [] ≡ bytes "a" ∷ bytes "b" ∷ []
canonical_bytes-injective_example =
    canonical_bytes-injective (bytes "a" ∷ bytes "b" ∷ []) (bytes "a" ∷ bytes "b" ∷ []) encoded_two
      encodes_two encodes_two

abbrev entity_digest : Bytes
entity_digest = result_text (entity_hash text_itself (bytes "events-a") (bytes "7"))

hashes_entity : entity_hash text_itself (bytes "events-a") (bytes "7") ≡ ok entity_digest
unfolding entity_hash entity_input canonical_strings canonical_bytes check_sizes encode_components
    put_uint32 runes
hashes_entity = refl

entity_hash-injective_example :
    ((bytes "events-a" ≡ bytes "events-a") × (bytes "7" ≡ bytes "7")) ⊎ Collision text_itself
entity_hash-injective_example =
    entity_hash-injective text_itself (bytes "events-a") (bytes "7") (bytes "events-a") (bytes "7")
      entity_digest hashes_entity hashes_entity

abbrev score_of_a : ScoreInput
score_of_a = record {
  algorithm = rendezvous_contract;
  scaling_group = bytes "events-a";
  business_hash = bytes "h";
  broker_id = bytes "a";
}

abbrev score_digest : Bytes
score_digest = result_text (sha256_rendezvous_score text_itself score_of_a)

scores_a : sha256_rendezvous_score text_itself score_of_a ≡ ok score_digest
unfolding sha256_rendezvous_score score_input canonical_strings canonical_bytes check_sizes
    encode_components put_uint32 runes
scores_a = refl

sha256_rendezvous_score-injective_example : (score_of_a ≡ score_of_a) ⊎ Collision text_itself
sha256_rendezvous_score-injective_example =
    sha256_rendezvous_score-injective text_itself score_of_a score_of_a score_digest scores_a
      scores_a

abbrev repeated : ℕ → ℕ → Bytes
repeated zero b = []
repeated (suc n) b = b ∷ repeated n b

abbrev digest : Bytes
digest = 255 ∷ repeated 31 16

repeated-All : (n b : ℕ) → b < 256 → All (λ c. c < 256) (repeated n b)
repeated-All zero b h = tt
repeated-All (suc n) b h = (h, repeated-All n b h)

parse_business_hash-encode_hex_example : parse_business_hash (encode_hex digest) ≡ ok digest
parse_business_hash-encode_hex_example =
    parse_business_hash-encode_hex digest refl (omega arith, repeated-All 31 16 (omega arith))

abbrev digest_text : Bytes
digest_text = encode_hex digest

parses : parse_business_hash digest_text ≡ ok digest
unfolding parse_business_hash decode_hex encode_hex
parses = refl

parse_business_hash-IsLowerHex_iff_example :
    ((d : Bytes) × (parse_business_hash digest_text ≡ ok d))
    ↔ ((length digest_text ≡ 2 * digest_bytes) × All IsLowerHex digest_text)
parse_business_hash-IsLowerHex_iff_example = parse_business_hash-IsLowerHex_iff digest_text

-- Uppercase digits are read by the decoder and are refused all the same.
abbrev shouted : Bytes
shouted = repeated 64 b'F'

shouted-refused : parse_business_hash shouted ≡ err bad_digest
unfolding parse_business_hash decode_hex encode_hex
shouted-refused = refl
