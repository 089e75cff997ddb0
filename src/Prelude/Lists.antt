-- ===== src/Prelude/Lists.antt =====
-- Lists measured by native numbers, and finite sets of keys as lists.
use Prim.Native.Nat.{ℕ, suc, ◌+◌}
use mathlib.Core.Path.{◌≡◌, refl, ap}
use mathlib.Core.Bool.{Bool, true, false, ◌&&◌, ◌||◌}
use mathlib.Core.List.{List, [], ◌∷◌, ◌++◌, map, Memᴰ}
use native.Mathlib.Omega.{arith}
use mathlib.Core.Logic.{inl, inr}
use solace_broker_autoscale.Prelude.Tests.{if◌then◌else◌, Bool-cases}
use solace_broker_autoscale.Prelude.Classes.{Eq, ◌==◌, ==_iff}

module _ {ℓ} {A : Type ℓ} where
  abbrev pub length : List A → ℕ
  length [] = 0
  length (x ∷ xs) = suc (length xs)

  abbrev pub is_empty : List A → Bool
  is_empty [] = true
  is_empty (x ∷ xs) = false

  abbrev pub any : (A → Bool) → List A → Bool
  any p [] = false
  any p (x ∷ xs) = p x || any p xs

  abbrev pub all : (A → Bool) → List A → Bool
  all p [] = true
  all p (x ∷ xs) = p x && all p xs

  abbrev pub All {κ} : (A → Type κ) → List A → Type κ
  All P [] = Unit
  All P (x ∷ xs) = P x × All P xs

  pub length-append : (xs ys : List A) → length (xs ++ ys) ≡ length xs + length ys
  length-append [] ys = omega arith
  length-append (x ∷ xs) ys = omega (arith, length-append xs ys)

module _ {ℓ κ} {A : Type ℓ} {B : Type κ} where
  pub length-map : (f : A → B) (xs : List A) → length (map f xs) ≡ length xs
  length-map f [] = refl
  length-map f (x ∷ xs) = ap suc (length-map f xs)

module _ {ℓ} {A : Type ℓ} ⦃e : Eq A⦄ where
  -- `slices.Contains`, and a lookup in a `map[A]struct{}`.
  abbrev pub contains : List A → A → Bool
  contains [] a = false
  contains (x ∷ xs) a = x == a || contains xs a

  -- A write to a `map[A]struct{}`.
  abbrev pub add_key : A → List A → List A
  add_key a xs = if contains xs a then xs else a ∷ xs

  abbrev pub Distinct : List A → Type 0
  Distinct [] = Unit
  Distinct (x ∷ xs) = (contains xs x ≡ false) × Distinct xs

  pub contains-append :
      (xs ys : List A) (a : A) → contains (xs ++ ys) a ≡ (contains xs a || contains ys a)
  contains-append [] ys a = refl
  contains-append (x ∷ xs) ys a = ground (arith, contains-append xs ys a)

  pub contains-add_key :
      (x : A) (xs : List A) (a : A) → contains (add_key x xs) a ≡ (x == a || contains xs a)
  contains-add_key x xs a = ground (arith, ==_iff x a)

module _ {ℓ} {A : Type ℓ} ⦃e : Eq A⦄ where
  -- A key of the list and one outside differ.
  pub contains_apart :
      (k j : A) (ks : List A) → contains ks k ≡ false → contains ks j ≡ true → (k == j) ≡ false
  contains_apart k j ks out inside = elim (Bool-cases (k == j)) [
    | inr other ↦ other
    | inl same ↦ ground (arith, ap (contains ks) ((==_iff k j).0 same))
  ]

-- A long conjunction, as `a && b && …` in the source.
abbrev pub conj : List Bool → Bool
conj [] = true
conj (b ∷ bs) = b && conj bs

pub All-of_conj : (bs : List Bool) → conj bs ≡ true → All (λ b. b ≡ true) bs
All-of_conj [] h = tt
All-of_conj (true ∷ bs) h = (refl, All-of_conj bs h)
All-of_conj (false ∷ bs) h = cc

pub conj_of_All : (bs : List Bool) → All (λ b. b ≡ true) bs → conj bs ≡ true
conj_of_All [] h = refl
conj_of_All (true ∷ bs) h = conj_of_All bs h.1
conj_of_All (false ∷ bs) h = h.0

module _ {ℓ κ} {A : Type ℓ} where
  pub All-append : (P : A → Type κ) (xs ys : List A) → All P xs → All P ys → All P (xs ++ ys)
  All-append P (x ∷ xs) ys (first, rest) h = (first, All-append P xs ys rest h)
  All-append P [] ys _ h = h

module _ {ℓ κ} {A : Type ℓ} where
  pub All_lookup : (P : A → Type κ) (xs : List A) (a : A) → All P xs → Memᴰ a xs → P a
  All_lookup P [] a h m = elim m [ ]
  All_lookup P (x ∷ xs) a h (Memᴰ.head e) = rw e h.0
  All_lookup P (x ∷ xs) a h (Memᴰ.tail m) = All_lookup P xs a h.1 m

module _ {ℓ κ} {A : Type ℓ} {K : Type κ} ⦃e : Eq K⦄ where
  pub contains-map :
      (f : A → K) (xs : List A) (a : A) → Memᴰ a xs → contains (map f xs) (f a) ≡ true
  contains-map f [] a at = elim at [ ]
  contains-map f (x ∷ xs) a (Memᴰ.head same) = ground (arith, ==_iff (f x) (f a), ap f same)
  contains-map f (x ∷ xs) a (Memᴰ.tail at) = ground (arith, contains-map f xs a at)

abbrev pub sum_by {ℓ} : {A : Type ℓ} → (A → ℕ) → List A → ℕ
sum_by f [] = 0
sum_by f (x ∷ xs) = f x + sum_by f xs

pub All-weaken {ℓ κ} :
    {A : Type ℓ} (P Q : A → Type κ) → ((a : A) → P a → Q a) → (xs : List A) → All P xs → All Q xs
All-weaken P Q f [] h = tt
All-weaken P Q f (x ∷ xs) (p, h) = (f x p, All-weaken P Q f xs h)

pub All-self {ℓ} : {A : Type ℓ} (xs : List A) → All (λ a. Memᴰ a xs) xs
All-self [] = tt
All-self (x ∷ xs) = (
  Memᴰ.head refl,
  All-weaken (λ a. Memᴰ a xs) (λ a. Memᴰ a (x ∷ xs)) (λ a m. Memᴰ.tail m) xs (All-self xs),
)
