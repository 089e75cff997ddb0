-- ===== src/Customer/Keys.antt =====
-- customer/customer.go: the canonical encoding of routing keys and the text of a business hash.
-- `sha256.Sum256` is a function argument.
use solace_broker_autoscale.Prelude.{
  ℕ, ◌+◌, ◌-◌, ◌*◌, ◌/◌, ◌%◌, ◌^◌, Bool, true, false, ◌||◌, not, Option, none, some, List, [], ◌∷◌,
  ◌++◌, length, is_empty, contains, all, ltb, ◌==◌, if◌then◌else◌, Result, ok, err, ◌▸◌, fails,
  nat_eq, list_eq,
}
use solace_broker_autoscale.Text.{Bytes, bytes, runes, within}
use solace_broker_autoscale.Prelude.{bool_eq, option_eq}

pub data Error : Type 0 where
  not_utf8 too_large component_missing component_nul : Error
  unsupported_algorithm bad_score_input unsupported_group bad_digest : Error
  not_configured not_a_policy no_algorithm : Error

abbrev pub digest_bytes : ℕ
digest_bytes = 32

abbrev pub max_uint32 : ℕ
max_uint32 = 4294967295

abbrev pub max_int : ℕ
max_int = 9223372036854775807

abbrev pub is_utf8 : Bytes → Bool
is_utf8 v = elim (runes v) [ none ↦ false | some rs ↦ true ]

-- The first loop of `canonicalBytes`, with `total`.
unfoldable pub check_sizes : ℕ → List Bytes → Bool
check_sizes total [] = true
check_sizes total (c ∷ cs) =
    let rest = check_sizes (total + 4 + length c) cs in
    if ltb max_uint32 (length c) || ltb (max_int - 4 - length c) total then false else rest

-- `binary.BigEndian.PutUint32(length[:], uint32(n))`.
unfoldable pub put_uint32 : ℕ → Bytes
put_uint32 n = (n / 2 ^ 24 % 256) ∷ (n / 2 ^ 16 % 256) ∷ (n / 2 ^ 8 % 256) ∷ (n % 256) ∷ []

unfoldable pub encode_components : List Bytes → Bytes
encode_components [] = []
encode_components (c ∷ cs) = put_uint32 (length c) ++ c ++ encode_components cs

unfoldable pub canonical_bytes : List Bytes → Result Error Bytes
canonical_bytes cs = if check_sizes 0 cs then ok (encode_components cs) else err too_large

unfoldable pub canonical_strings : List Bytes → Result Error Bytes
canonical_strings cs = if all is_utf8 cs then canonical_bytes cs else err not_utf8

abbrev check_component : Bytes → Option Error
check_component c = fails (is_empty c) component_missing ▸ fails (contains c 0) component_nul

abbrev pub entity_affinity_domain : Bytes
entity_affinity_domain = bytes "entity-affinity-v1"

abbrev pub rendezvous_contract : Bytes
rendezvous_contract = bytes "swlb-rendezvous-v1"

-- What a hash is computed from, or the error in its place.
unfoldable pub entity_input : Bytes → Bytes → Result Error Bytes
entity_input group entity = elim (check_component group ▸ check_component entity) [
  | some e ↦ err e
  | none ↦ canonical_strings (entity_affinity_domain ∷ group ∷ entity ∷ [])
]

pub record ScoreInput : Type 0 where
  pub algorithm : Bytes
  pub scaling_group : Bytes
  pub business_hash : Bytes
  pub broker_id : Bytes

unfoldable pub score_input : ScoreInput → Result Error Bytes
score_input i =
    if not (i.algorithm == rendezvous_contract)
    then err unsupported_algorithm
    else if is_empty i.scaling_group
        || is_empty i.broker_id
        || not (is_utf8 i.scaling_group)
        || not (is_utf8 i.broker_id)
    then err bad_score_input
    else canonical_bytes (i.algorithm ∷ i.scaling_group ∷ i.business_hash ∷ i.broker_id ∷ [])

abbrev pub hashed : (Bytes → Bytes) → Result Error Bytes → Result Error Bytes
hashed sha256 (ok encoded) = ok (sha256 encoded)
hashed sha256 (err e) = err e

module _ (sha256 : Bytes → Bytes) where
  unfoldable pub entity_hash : Bytes → Bytes → Result Error Bytes
  entity_hash group entity = hashed sha256 (entity_input group entity)

  unfoldable pub sha256_rendezvous_score : ScoreInput → Result Error Bytes
  sha256_rendezvous_score i = hashed sha256 (score_input i)

-- `hex.EncodeToString` and `hex.DecodeString`.
abbrev pub hex_digit : ℕ → ℕ
hex_digit n = if ltb n 10 then b'0' + n else b'a' + (n - 10)

unfoldable pub encode_hex : Bytes → Bytes
encode_hex [] = []
encode_hex (b ∷ bs) = hex_digit (b / 16) ∷ hex_digit (b % 16) ∷ encode_hex bs

abbrev pub hex_value : ℕ → Option ℕ
hex_value c =
    if within b'0' b'9' c
    then some (c - b'0')
    else if within b'a' b'f' c
    then some (c - b'a' + 10)
    else if within b'A' b'F' c
    then some (c - b'A' + 10)
    else none

abbrev pub byte_of : Option ℕ → Option ℕ → Option ℕ
byte_of (some hi) (some lo) = some (16 * hi + lo)
byte_of _ _ = none

abbrev pub cons_byte : Option ℕ → Option Bytes → Option Bytes
cons_byte (some b) (some bs) = some (b ∷ bs)
cons_byte _ _ = none

unfoldable pub decode_hex : Bytes → Option Bytes
decode_hex [] = some []
decode_hex (c ∷ []) = none
decode_hex (c ∷ d ∷ rest) = cons_byte (byte_of (hex_value c) (hex_value d)) (decode_hex rest)

unfoldable pub parse_business_hash : Bytes → Result Error Bytes
parse_business_hash v =
    if not (length v == 2 * digest_bytes) then err bad_digest else elim (decode_hex v) [
      | none ↦ err bad_digest
      | some d ↦ if encode_hex d == v then ok d else err bad_digest
    ]
