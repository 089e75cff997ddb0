-- ===== src/Prelude/Checks.antt =====
-- Go's `error`: `none` is nil. A chain of checks returns the first error.
use native.Mathlib.Omega.{arith}
use mathlib.Core.Path.{◌≡◌, refl}
use mathlib.Core.Logic.{◌↔◌, ◌⊎◌, inl, inr}
use mathlib.Core.Bool.{Bool, true, false}
use mathlib.Core.Option.{Option, none, some}

infixr 6 ◌▸◌
abbrev pub ◌▸◌ {ℓ} : {E : Type ℓ} → Option E → Option E → Option E
none ▸ next = next
some e ▸ next = some e

-- `if bad { return e }`.
abbrev pub fails {ℓ} : {E : Type ℓ} → Bool → E → Option E
fails true e = some e
fails false e = none

-- A value with an error: one of the two is returned.
pub data Result {ℓ κ} (E : Type κ) (A : Type ℓ) : Type (ℓ ⊔ κ) where
  ok : A → Result E A
  err : E → Result E A

abbrev pub or_fail {ℓ κ} : {E : Type κ} {A : Type ℓ} → Option E → A → Result E A
or_fail none a = ok a
or_fail (some e) a = err e

module _ {κ ℓ ι} {E : Type κ} {A : Type ℓ} {B : Type ι} where
  infixl 5 ◌>>=◌
  -- An error skips what is left.
  abbrev pub ◌>>=◌ : Result E A → (A → Result E B) → Result E B
  err e >>= next = err e
  ok a >>= next = next a

  pub >>=-eq-ok :
      (first : Result E A) (next : A → Result E B) {b : B}
      → (first >>= next) ≡ ok b
      → (a : A) × (first ≡ ok a) × (next a ≡ ok b)
  >>=-eq-ok (err e) next h = cc
  >>=-eq-ok (ok a) next h = (a, refl, h)

module _ {ℓ} {E : Type ℓ} where
  pub ▸-none : (a b : Option E) → ((a ▸ b) ≡ none) ↔ ((a ≡ none) × (b ≡ none))
  ▸-none none b = (λ h. (refl, h), λ h. h.1)
  ▸-none (some e) b = (λ h. cc, λ h. cc)

  pub fails-none : (b : Bool) (e : E) → (fails b e ≡ none) ↔ (b ≡ false)
  fails-none true e = (λ h. cc, λ h. cc)
  fails-none false e = (λ h. refl, λ h. refl)

pub Result-cases {ℓ κ} :
    {E : Type κ} {A : Type ℓ} (m : Result E A) → ((e : E) × (m ≡ err e)) ⊎ ((a : A) × (m ≡ ok a))
Result-cases (ok a) = inr (a, refl)
Result-cases (err e) = inl (e, refl)

pub or_fail-ok {ℓ κ} :
    {E : Type κ} {A : Type ℓ} (o : Option E) (a b : A) → or_fail o a ≡ ok b → (o ≡ none) × (a ≡ b)
or_fail-ok none a b h = (refl, ground arith)
or_fail-ok (some e) a b h = cc

pub ok-injective {ℓ κ} :
    {E : Type κ} {A : Type ℓ} (e : Result E A) {a b : A} → e ≡ ok a → e ≡ ok b → a ≡ b
ok-injective e p q = ground arith

-- A check before a computation.
abbrev pub guarded {ℓ κ} : {E : Type κ} {A : Type ℓ} → Option E → Result E A → Result E A
guarded none m = m
guarded (some e) m = err e

pub guarded-ok {ℓ κ} :
    {E : Type κ} {A : Type ℓ} (o : Option E) (m : Result E A) (a : A)
    → guarded o m ≡ ok a
    → (o ≡ none) × (m ≡ ok a)
guarded-ok none m a h = (refl, h)
guarded-ok (some e) m a h = cc
