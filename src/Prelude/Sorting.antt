-- ===== src/Prelude/Sorting.antt =====
-- `sort.Strings`, `sort.Slice` and `slices.SortFunc`: insertion into a sorted list.
use Prim.Native.Nat.{ℕ, ◌+◌}
use mathlib.Core.Path.{◌≡◌, refl, ◌∙◌}
use mathlib.Core.Bool.{Bool, false, ◌||◌}
use mathlib.Core.List.{List, [], ◌∷◌, map, Memᴰ}
use native.Mathlib.Omega.{arith}
use solace_broker_autoscale.Prelude.Tests.{if◌then◌else◌, if-both}
use solace_broker_autoscale.Prelude.Classes.{Eq, ◌==◌, ==_iff}
use solace_broker_autoscale.Prelude.Lists.{All, Distinct, contains, sum_by}

module _ {ℓ} {A : Type ℓ} (less : A → A → Bool) where
  unfoldable pub insert_by : A → List A → List A
  insert_by a [] = a ∷ []
  insert_by a (b ∷ rest) = if less b a then b ∷ insert_by a rest else a ∷ b ∷ rest

  unfoldable pub sort_by : List A → List A
  sort_by [] = []
  sort_by (a ∷ rest) = insert_by a (sort_by rest)

  All-insert_by {κ} :
      (P : A → Type κ) (a : A) (xs : List A) → P a → All P xs → All P (insert_by a xs)
  unfolding insert_by
  All-insert_by P a [] p h = (p, tt)
  All-insert_by P a (b ∷ xs) p (q, h) =
      elim (less b a) as (λ t. All P (if t then b ∷ insert_by a xs else a ∷ b ∷ xs)) [
        | Bool.true ↦ (q, All-insert_by P a xs p h)
        | Bool.false ↦ (p, (q, h))
      ]

  pub All-sort_by {κ} : (P : A → Type κ) (xs : List A) → All P xs → All P (sort_by xs)
  unfolding sort_by
  All-sort_by P [] h = tt
  All-sort_by P (a ∷ xs) (p, h) = All-insert_by P a (sort_by xs) p (All-sort_by P xs h)

  module _ (f : A → ℕ) where
    sum_by-insert_by : (a : A) (xs : List A) → sum_by f (insert_by a xs) ≡ f a + sum_by f xs
    unfolding insert_by
    sum_by-insert_by a [] = refl
    sum_by-insert_by a (b ∷ xs) =
        if-both (λ ys. sum_by f ys ≡ f a + (f b + sum_by f xs)) (less b a)
          (λ before. omega (arith, sum_by-insert_by a xs)) (λ after. refl)

    pub sum_by-sort_by : (xs : List A) → sum_by f (sort_by xs) ≡ sum_by f xs
    unfolding sort_by
    sum_by-sort_by [] = refl
    sum_by-sort_by (a ∷ xs) = sum_by-insert_by a (sort_by xs) ∙ omega (arith, sum_by-sort_by xs)

  Memᴰ-insert_by : (a b : A) (xs : List A) → Memᴰ b (a ∷ xs) → Memᴰ b (insert_by a xs)
  unfolding insert_by
  Memᴰ-insert_by a b [] at = at
  Memᴰ-insert_by a b (c ∷ xs) (Memᴰ.head same) =
      if-both (λ ys. Memᴰ b ys) (less c a)
        (λ before. Memᴰ.tail (Memᴰ-insert_by a b xs (Memᴰ.head same))) (λ after. Memᴰ.head same)
  Memᴰ-insert_by a b (c ∷ xs) (Memᴰ.tail (Memᴰ.head same)) =
      if-both (λ ys. Memᴰ b ys) (less c a) (λ before. Memᴰ.head same)
        (λ after. Memᴰ.tail (Memᴰ.head same))
  Memᴰ-insert_by a b (c ∷ xs) (Memᴰ.tail (Memᴰ.tail more)) =
      if-both (λ ys. Memᴰ b ys) (less c a)
        (λ before. Memᴰ.tail (Memᴰ-insert_by a b xs (Memᴰ.tail more)))
        (λ after. Memᴰ.tail (Memᴰ.tail more))

  pub Memᴰ-sort_by : (b : A) (xs : List A) → Memᴰ b xs → Memᴰ b (sort_by xs)
  unfolding sort_by
  Memᴰ-sort_by b [] at = at
  Memᴰ-sort_by b (a ∷ xs) (Memᴰ.head same) = Memᴰ-insert_by a b (sort_by xs) (Memᴰ.head same)
  Memᴰ-sort_by b (a ∷ xs) (Memᴰ.tail more) =
      Memᴰ-insert_by a b (sort_by xs) (Memᴰ.tail (Memᴰ-sort_by b xs more))

  module _ {κ} {K : Type κ} ⦃e : Eq K⦄ (f : A → K) where
    contains-insert_by :
        (a : A) (xs : List A) (k : K)
        → contains (map f (insert_by a xs)) k ≡ (f a == k || contains (map f xs) k)
    unfolding insert_by
    contains-insert_by a [] k = refl
    contains-insert_by a (b ∷ xs) k =
        if-both (λ ys. contains (map f ys) k ≡ (f a == k || (f b == k || contains (map f xs) k)))
          (less b a) (λ before. ground (arith, contains-insert_by a xs k)) (λ after. refl)

    contains-sort_by :
        (xs : List A) (k : K) → contains (map f (sort_by xs)) k ≡ contains (map f xs) k
    unfolding sort_by
    contains-sort_by [] k = refl
    contains-sort_by (a ∷ xs) k =
        contains-insert_by a (sort_by xs) k ∙ ground (arith, contains-sort_by xs k)

    Distinct-insert_by :
        (a : A) (xs : List A)
        → contains (map f xs) (f a) ≡ false
        → Distinct (map f xs)
        → Distinct (map f (insert_by a xs))
    unfolding insert_by
    Distinct-insert_by a [] new d = (refl, tt)
    Distinct-insert_by a (b ∷ xs) new (first, d) =
        if-both (λ ys. Distinct (map f ys)) (less b a)
          (λ before. (
            ground (arith, contains-insert_by a xs (f b), ==_iff (f a) (f b), ==_iff (f b) (f a)),
            Distinct-insert_by a xs (ground arith) d,
          ))
          (λ after. (new, (first, d)))

    pub Distinct-sort_by : (xs : List A) → Distinct (map f xs) → Distinct (map f (sort_by xs))
    unfolding sort_by
    Distinct-sort_by [] d = tt
    Distinct-sort_by (a ∷ xs) (new, d) =
        Distinct-insert_by a (sort_by xs) (contains-sort_by xs (f a) ∙ new) (Distinct-sort_by xs d)
