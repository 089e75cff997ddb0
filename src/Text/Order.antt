-- ===== src/Text/Order.antt =====
-- The order of Go strings is a strict total order.
use solace_broker_autoscale.Prelude.{◌≡◌, refl, true, false, ◌⊎◌, inl, inr, [], ◌∷◌, arith, nat_eq}
use solace_broker_autoscale.Text.{Bytes, bytes_lt}

pub bytes_lt_irrefl : (a : Bytes) → bytes_lt a a ≡ false
bytes_lt_irrefl [] = refl
bytes_lt_irrefl (x ∷ xs) = ground (arith, bytes_lt_irrefl xs)

pub bytes_lt_trans :
    (a b c : Bytes) → bytes_lt a b ≡ true → bytes_lt b c ≡ true → bytes_lt a c ≡ true
bytes_lt_trans [] [] c p q = cc
bytes_lt_trans [] (y ∷ ys) [] p q = cc
bytes_lt_trans [] (y ∷ ys) (z ∷ zs) p q = refl
bytes_lt_trans (x ∷ xs) [] c p q = cc
bytes_lt_trans (x ∷ xs) (y ∷ ys) [] p q = cc
bytes_lt_trans (x ∷ xs) (y ∷ ys) (z ∷ zs) p q = ground (arith, bytes_lt_trans xs ys zs)

pub bytes_lt_total : (a b : Bytes) → (a ≡ b) ⊎ (bytes_lt a b ≡ true) ⊎ (bytes_lt b a ≡ true)
bytes_lt_total [] [] = inl refl
bytes_lt_total [] (y ∷ ys) = inr (inl refl)
bytes_lt_total (x ∷ xs) [] = inr (inr refl)
bytes_lt_total (x ∷ xs) (y ∷ ys) = ground (arith, bytes_lt_total xs ys)

pub bytes_lt_asym : (a b : Bytes) → bytes_lt a b ≡ true → bytes_lt b a ≡ false
bytes_lt_asym [] [] p = refl
bytes_lt_asym [] (y ∷ ys) p = refl
bytes_lt_asym (x ∷ xs) [] p = cc
bytes_lt_asym (x ∷ xs) (y ∷ ys) p = ground (arith, bytes_lt_asym xs ys)
