-- ===== src/Customer/Encoding.antt =====
-- The canonical encoding of customer/customer.go keeps keys apart.
use solace_broker_autoscale.Customer.Keys.{put_uint32, max_uint32}
use solace_broker_autoscale.Prelude.{
  [], arith, bool_eq, length, list_eq, nat_eq, option_eq, refl, ℕ, ◌++◌, ◌∷◌, ◌≡◌, ◌≤◌,
}
use solace_broker_autoscale.Text.{Bytes}
use solace_broker_autoscale.Customer.Keys.{
  Error, ScoreInput, canonical_bytes, canonical_strings, check_sizes, encode_components,
  entity_affinity_domain, entity_hash, entity_input, hashed, score_input, sha256_rendezvous_score,
}
use solace_broker_autoscale.Prelude.{
  ==_iff, All, Bool-cases, List, Result, err, false, inl, inr, ok, sym, true, ◌+◌, ◌==◌, ◌∙◌, ◌≢◌,
  ◌⊎◌,
}

-- A prefix of known length is read back.
append-cancel :
    (xs ys us vs : Bytes) → length xs ≡ length ys → xs ++ us ≡ ys ++ vs → (xs ≡ ys) × (us ≡ vs)
append-cancel [] [] us vs l e = (refl, e)
append-cancel [] (y ∷ ys) us vs l e = absurd (omega (arith, l))
append-cancel (x ∷ xs) [] us vs l e = absurd (omega (arith, l))
append-cancel (x ∷ xs) (y ∷ ys) us vs l e =
    let rest : xs ++ us ≡ ys ++ vs = cc in
    let head : x ≡ y = cc in
    let (same, tail) = append-cancel xs ys us vs (omega (arith, l)) rest in (cc, tail)

put_uint32-injective :
    (m n : ℕ) → m ≤ max_uint32 → n ≤ max_uint32 → put_uint32 m ≡ put_uint32 n → m ≡ n
unfolding put_uint32
put_uint32-injective m n hm hn e = ground arith

put_uint32-length : (m n : ℕ) → length (put_uint32 m) ≡ length (put_uint32 n)
unfolding put_uint32
put_uint32-length m n = refl

check_sizes-Small :
    (total : ℕ) (cs : List Bytes)
    → check_sizes total cs ≡ true
    → All (λ c. length c ≤ max_uint32) cs
unfolding check_sizes
check_sizes-Small total [] h = tt
check_sizes-Small total (c ∷ cs) h =
    (ground arith, check_sizes-Small (total + 4 + length c) cs (ground arith))

encode_components-injective :
    (xs ys : List Bytes)
    → All (λ c. length c ≤ max_uint32) xs
    → All (λ c. length c ≤ max_uint32) ys
    → encode_components xs ≡ encode_components ys
    → xs ≡ ys
unfolding encode_components put_uint32
encode_components-injective [] [] hx hy e = refl
encode_components-injective [] (y ∷ ys) hx hy e = cc
encode_components-injective (x ∷ xs) [] hx hy e = cc
encode_components-injective (x ∷ xs) (y ∷ ys) (bx, hx) (by, hy) e =
    let (lengths, after) =
      append-cancel (put_uint32 (length x)) (put_uint32 (length y)) (x ++ encode_components xs)
        (y ++ encode_components ys) (put_uint32-length (length x) (length y)) e in
    let same = put_uint32-injective (length x) (length y) bx by lengths in
    let (first, rest) =
      append-cancel x y (encode_components xs) (encode_components ys) same after in
    let tail = encode_components-injective xs ys hx hy rest in cc

-- Two sequences of components with one canonical encoding are the same sequence.
pub canonical_bytes-injective :
    (xs ys : List Bytes) (encoded : Bytes)
    → canonical_bytes xs ≡ ok encoded
    → canonical_bytes ys ≡ ok encoded
    → xs ≡ ys
unfolding canonical_bytes
canonical_bytes-injective xs ys encoded hx hy =
    encode_components-injective xs ys (check_sizes-Small 0 xs (ground arith))
      (check_sizes-Small 0 ys (ground arith)) (ground arith)

canonical_strings-bytes :
    (cs : List Bytes) (encoded : Bytes)
    → canonical_strings cs ≡ ok encoded
    → canonical_bytes cs ≡ ok encoded
unfolding canonical_strings
canonical_strings-bytes cs encoded h = ground arith

entity_input-bytes :
    (group entity encoded : Bytes)
    → entity_input group entity ≡ ok encoded
    → canonical_bytes (entity_affinity_domain ∷ group ∷ entity ∷ []) ≡ ok encoded
unfolding entity_input
entity_input-bytes group entity encoded h =
    canonical_strings-bytes (entity_affinity_domain ∷ group ∷ entity ∷ []) encoded (ground arith)

hashed-ok :
    (sha256 : Bytes → Bytes) (r : Result Error Bytes) (h : Bytes)
    → hashed sha256 r ≡ ok h
    → (encoded : Bytes) × (r ≡ ok encoded) × (sha256 encoded ≡ h)
hashed-ok sha256 (ok encoded) h e = (encoded, refl, cc)
hashed-ok sha256 (err e') h e = cc

score_input-bytes :
    (i : ScoreInput) (encoded : Bytes)
    → score_input i ≡ ok encoded
    → canonical_bytes (i.algorithm ∷ i.scaling_group ∷ i.business_hash ∷ i.broker_id ∷ [])
      ≡ ok encoded
unfolding score_input
score_input-bytes i encoded h = ground arith

-- Two different texts with one SHA-256 digest.
pub record Collision (sha256 : Bytes → Bytes) : Type 0 where
  pub left : Bytes
  pub right : Bytes
  pub different : left ≢ right
  pub same_digest : sha256 left ≡ sha256 right

module _ (sha256 : Bytes → Bytes) where
  differ : (x y : Bytes) → x == y ≡ false → x ≢ y
  differ x y apart same = let e = (==_iff x y).1 same in cc

  collide : (x y h : Bytes) → (x ≢ y) → sha256 x ≡ h → sha256 y ≡ h → Collision sha256
  collide x y h apart hx hy = record {
    left = x;
    right = y;
    different = apart;
    same_digest = hx ∙ sym hy;
  }

  -- Two entities with one business hash are the same entity of the same group, or show two texts
  -- with one SHA-256 digest.
  pub entity_hash-injective :
      (group entity group' entity' h : Bytes)
      → entity_hash sha256 group entity ≡ ok h
      → entity_hash sha256 group' entity' ≡ ok h
      → ((group ≡ group') × (entity ≡ entity')) ⊎ Collision sha256
  unfolding entity_hash
  entity_hash-injective group entity group' entity' h p q =
      let (x, px, hx) = hashed-ok sha256 (entity_input group entity) h p in
      let (y, qy, hy) = hashed-ok sha256 (entity_input group' entity') h q in
      elim (Bool-cases (x == y)) [
        | inl equal ↦
            let same = (==_iff x y).0 equal in
            let e =
              canonical_bytes-injective (entity_affinity_domain ∷ group ∷ entity ∷ [])
                (entity_affinity_domain ∷ group' ∷ entity' ∷ []) y
                (rw (← same) (entity_input-bytes group entity x px))
                (entity_input-bytes group' entity' y qy) in
            inl (cc, cc)
        | inr apart ↦ inr (collide x y h (differ x y apart) hx hy)
      ]

  -- Two candidates with one default score are the same candidate, or show two texts with one SHA-256
  -- digest.
  pub sha256_rendezvous_score-injective :
      (i j : ScoreInput) (h : Bytes)
      → sha256_rendezvous_score sha256 i ≡ ok h
      → sha256_rendezvous_score sha256 j ≡ ok h
      → (i ≡ j) ⊎ Collision sha256
  unfolding sha256_rendezvous_score
  sha256_rendezvous_score-injective i j h p q =
      let (x, px, hx) = hashed-ok sha256 (score_input i) h p in
      let (y, qy, hy) = hashed-ok sha256 (score_input j) h q in
      elim (Bool-cases (x == y)) [
        | inl equal ↦
            let same = (==_iff x y).0 equal in
            let e =
              canonical_bytes-injective
                (i.algorithm ∷ i.scaling_group ∷ i.business_hash ∷ i.broker_id ∷ [])
                (j.algorithm ∷ j.scaling_group ∷ j.business_hash ∷ j.broker_id ∷ []) y
                (rw (← same) (score_input-bytes i x px)) (score_input-bytes j y qy) in
            inl (ground arith)
        | inr apart ↦ inr (collide x y h (differ x y apart) hx hy)
      ]
