-- ===== src/Prelude/Ints.antt =====
-- Go's `int` and `time.Duration`: signed integers on 64 bits.
use Prim.Native.Nat.{ℕ, suc, ◌+◌, ◌-◌, ◌%◌, ◌^◌, ◌≤◌}
use mathlib.Core.Path.{◌≡◌}
use mathlib.Core.Bool.{Bool}
use native.Mathlib.Omega.{arith}
use solace_broker_autoscale.Prelude.Tests.{ltb, leb, if◌then◌else◌}

abbrev pub int_max : ℕ
int_max = 9223372036854775807

-- `negsuc n` is -(n + 1).
pub data ℤ : Type 0 where
  pos negsuc : ℕ → ℤ

abbrev pub pos_part : ℤ → ℕ
pos_part (pos n) = n
pos_part (negsuc n) = 0

abbrev pub neg_part : ℤ → ℕ
neg_part (pos n) = 0
neg_part (negsuc n) = suc n

-- The difference of two numbers, such as the time from one instant to another.
abbrev pub difference : ℕ → ℕ → ℤ
difference a b = if ltb a b then negsuc (b - a - 1) else pos (a - b)

abbrev pub ltb_ℤ : ℤ → ℤ → Bool
ltb_ℤ a b = ltb (pos_part a + neg_part b) (pos_part b + neg_part a)

abbrev pub leb_ℤ : ℤ → ℤ → Bool
leb_ℤ a b = leb (pos_part a + neg_part b) (pos_part b + neg_part a)

-- The bit pattern of an integer, and the integer of a pattern.
abbrev pub pattern_of : ℤ → ℕ
pattern_of (pos n) = n % 2 ^ 64
pattern_of (negsuc n) = 2 ^ 64 - 1 - n % 2 ^ 64

abbrev pub signed64 : ℕ → ℤ
signed64 w = if ltb w (2 ^ 63) then pos w else negsuc (2 ^ 64 - 1 - w)

-- Sum and difference, which wrap around.
unfoldable pub add64 : ℤ → ℤ → ℤ
add64 a b = signed64 ((pattern_of a + pattern_of b) % 2 ^ 64)

unfoldable pub sub64 : ℤ → ℤ → ℤ
sub64 a b = signed64 ((pattern_of a + (2 ^ 64 - pattern_of b)) % 2 ^ 64)

-- On numbers from 0 up that fit, the wrap-around does nothing.
pub add64-pos : (a b : ℕ) → a + b ≤ int_max → add64 (pos a) (pos b) ≡ pos (a + b)
unfolding add64
add64-pos a b h = ground arith

pub sub64-difference :
    (l s n : ℕ)
    → l ≤ int_max
    → s + n ≤ int_max
    → sub64 (difference l s) (pos n) ≡ difference l (s + n)
unfolding sub64
sub64-difference l s n hl hs = ground arith

pub sub64-suc : (n : ℕ) → suc n ≤ int_max → sub64 (pos (suc n)) (pos 1) ≡ pos n
unfolding sub64
sub64-suc n h = ground arith

pub difference_zero : (l : ℕ) → difference l 0 ≡ pos l
difference_zero l = ground arith
