-- ===== src/Customer/Hex.antt =====
-- The text of a business hash (customer/customer.go `ParseBusinessHash`) is read back.
use solace_broker_autoscale.Customer.Keys.{
  encode_hex, decode_hex, hex_value, byte_of, parse_business_hash, digest_bytes,
}
use solace_broker_autoscale.Customer.Keys.{hex_digit}
use mathlib.Core.Option.{some-injective}
use native.Mathlib.Decide.{dec_lt}
use solace_broker_autoscale.Prelude.{
  ==_iff, ==_refl, All, [], arith, bool_eq, length, list_eq, nat_eq, ok, option_eq, refl, some, ℕ,
  ◌%◌, ◌*◌, ◌/◌, ◌<◌, ◌∷◌, ◌≡◌,
}
use solace_broker_autoscale.Text.{Bytes}
use solace_broker_autoscale.Prelude.{Option-cases, inl, inr, pair_eq, ◌+◌, ◌-◌, ◌↔◌, ◌≤◌, ◌⊎◌}
use solace_broker_autoscale.Customer.Keys.{cons_byte}
use solace_broker_autoscale.Prelude.{Option, none}

hex_value_digit : (n : ℕ) → n < 16 → hex_value (hex_digit n) ≡ some n
hex_value_digit n h = ground arith

byte_halves :
    (b : ℕ)
    → b < 256
    → byte_of (hex_value (hex_digit (b / 16))) (hex_value (hex_digit (b % 16))) ≡ some b
byte_halves b h =
    rw (hex_value_digit (b / 16) (omega arith), hex_value_digit (b % 16) (omega arith))
      (ground arith)

decode_hex-encode_hex : (d : Bytes) → All (λ b. b < 256) d → decode_hex (encode_hex d) ≡ some d
unfolding decode_hex encode_hex
decode_hex-encode_hex [] h = refl
decode_hex-encode_hex (b ∷ bs) (small, rest) =
    rw (byte_halves b small, decode_hex-encode_hex bs rest) refl

length-encode_hex : (d : Bytes) → length (encode_hex d) ≡ 2 * length d
unfolding encode_hex
length-encode_hex [] = refl
length-encode_hex (b ∷ bs) = omega (arith, length-encode_hex bs)

-- The text of every digest of 32 bytes is parsed to that digest.
pub parse_business_hash-encode_hex :
    (d : Bytes)
    → length d ≡ digest_bytes
    → All (λ b. b < 256) d
    → parse_business_hash (encode_hex d) ≡ ok d
unfolding parse_business_hash
parse_business_hash-encode_hex d l h =
    let read = decode_hex-encode_hex d h in
    let size = length-encode_hex d in ground (arith, ==_refl (encode_hex d))

abbrev pub IsLowerHex : ℕ → Type 0
IsLowerHex c = ((b'0' ≤ c) × (c ≤ b'9')) ⊎ ((b'a' ≤ c) × (c ≤ b'f'))

hex_digit-IsLowerHex : (n : ℕ) → n < 16 → IsLowerHex (hex_digit n)
hex_digit-IsLowerHex n h = elim (dec_lt n 10) [
  | yes lt ↦ inl (ground arith)
  | no ge ↦ inr (ground arith)
]

hex_value-lower :
    (c : ℕ) → IsLowerHex c → (n : ℕ) × (hex_value c ≡ some n) × (n < 16) × (hex_digit n ≡ c)
hex_value-lower c (inl (lo, hi)) = (c - b'0', ground arith, omega arith, ground arith)
hex_value-lower c (inr (lo, hi)) = (c - b'a' + 10, ground arith, omega arith, ground arith)

hex_value-small : (c n : ℕ) → hex_value c ≡ some n → n < 16
hex_value-small c n h = ground arith

encode_hex-lower : (d : Bytes) → All (λ b. b < 256) d → All IsLowerHex (encode_hex d)
unfolding encode_hex
encode_hex-lower [] h = h
encode_hex-lower (b ∷ bs) (small, rest) = (
  hex_digit-IsLowerHex (b / 16) (omega arith),
  (hex_digit-IsLowerHex (b % 16) (omega arith), encode_hex-lower bs rest),
)

byte_of-small : (c e n : ℕ) → byte_of (hex_value c) (hex_value e) ≡ some n → n < 256
byte_of-small c e n h = elim (Option-cases (hex_value c)) [
  | inl k ↦ ground (arith, k)
  | inr (hi, k) ↦ elim (Option-cases (hex_value e)) [
    | inl m ↦ ground (arith, k, m)
    | inr (lo, m) ↦
        let top = hex_value-small c hi k in let low = hex_value-small e lo m in ground (arith, k, m)
  ]
]

cons_byte-small :
    (o : Option ℕ) (p : Option Bytes) (d : Bytes)
    → ((n : ℕ) → o ≡ some n → n < 256)
    → ((x : Bytes) → p ≡ some x → All (λ b. b < 256) x)
    → cons_byte o p ≡ some d
    → All (λ b. b < 256) d
cons_byte-small none p d head rest h = ground arith
cons_byte-small (some n) none d head rest h = ground arith
cons_byte-small (some n) (some x) d head rest h =
    rw (← some-injective (n ∷ x) d h) (head n refl, rest x refl)

decode_hex-small : (v d : Bytes) → decode_hex v ≡ some d → All (λ b. b < 256) d
unfolding decode_hex
decode_hex-small [] d h = rw (← some-injective [] d h) tt
decode_hex-small (c ∷ []) d h = ground arith
decode_hex-small (c ∷ e ∷ rest) d h =
    cons_byte-small (byte_of (hex_value c) (hex_value e)) (decode_hex rest) d (byte_of-small c e)
      (decode_hex-small rest) h

decode_hex-lower :
    (v : Bytes) (n : ℕ)
    → length v ≡ 2 * n
    → All IsLowerHex v
    → (d : Bytes) × (decode_hex v ≡ some d) × (encode_hex d ≡ v)
unfolding decode_hex encode_hex
decode_hex-lower [] n l h = ([], refl, refl)
decode_hex-lower (c ∷ []) n l h = absurd (omega (arith, l))
decode_hex-lower (c ∷ e ∷ rest) n l (lc, (le, more)) =
    let (hi, hi_read, hi_small, hi_text) = hex_value-lower c lc in
    let (lo, lo_read, lo_small, lo_text) = hex_value-lower e le in
    let (d, read, text) = decode_hex-lower rest (n - 1) (omega (arith, l)) more in
    let top : (16 * hi + lo) / 16 ≡ hi = omega arith in
    let low : (16 * hi + lo) % 16 ≡ lo = omega arith in
    (
      (16 * hi + lo) ∷ d,
      rw (hi_read, lo_read, read) refl,
      rw (top, low, hi_text, lo_text, text) refl,
    )

-- `ParseBusinessHash` accepts exactly the texts of 64 characters that are all decimal digits or
-- lowercase letters from a to f.
pub parse_business_hash-IsLowerHex_iff :
    (v : Bytes)
    → ((d : Bytes) × (parse_business_hash v ≡ ok d))
      ↔ ((length v ≡ 2 * digest_bytes) × All IsLowerHex v)
unfolding parse_business_hash
parse_business_hash-IsLowerHex_iff v = (
  λ (d, h). elim (Option-cases (decode_hex v)) [
    | inl e ↦ ground (arith, e)
    | inr (x, e) ↦
        let same : encode_hex x ≡ v = ground (arith, e, ==_iff (encode_hex x) v) in
        (ground (arith, e), rw (← same) (encode_hex-lower x (decode_hex-small v x e)))
  ],
  λ (l, h).
      let (d, read, text) = decode_hex-lower v digest_bytes l h in
      (d, ground (arith, read, l, (==_iff (encode_hex d) v).1 text)),
)
