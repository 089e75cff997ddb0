-- ===== src/Text.antt =====
-- Go strings as byte sequences: literals, UTF-8 decoding as `range` and `utf8.ValidString` do it,
-- `unicode.IsControl`, the byte order of `<`, and what control/snapshot.go reads of a parsed URL.
pub mod Order
use Prim.Native.Char.{code}
use Prim.Native.String.{String}
use mathlib.Core.Option
use solace_broker_autoscale.Prelude.{
  ℕ, zero, suc, ◌+◌, ◌-◌, ◌*◌, Bool, true, false, ◌&&◌, ◌||◌, Option, none, some, List, [], ◌∷◌,
  ltb, leb, if◌then◌else◌, ◌==◌,
}
use solace_broker_autoscale.Prelude.{bool_eq, list_eq, nat_eq, option_eq}

abbrev pub Bytes : Type 0
Bytes = List ℕ

-- The bytes of an ASCII literal.
abbrev pub bytes : String → Bytes
bytes String.[] = []
bytes (String.◌∷◌ c s) = code c ∷ bytes s

abbrev pub within : ℕ → ℕ → ℕ → Bool
within lo hi b = leb lo b && leb b hi

-- What is left of a rune: the number of further bytes, the range of the next, the value so far.
pub record Partial : Type 0 where
  pub need : ℕ
  pub lo : ℕ
  pub hi : ℕ
  pub value : ℕ

abbrev partial : ℕ → ℕ → ℕ → ℕ → Option Partial
partial need lo hi value = some (record { need = need; lo = lo; hi = hi; value = value })

-- The first byte of a rune. Overlong forms, surrogates and values past U+10FFFF are refused here
-- by the range of the second byte.
unfoldable pub first_byte : ℕ → Option Partial
first_byte b =
    if ltb b 0x80
    then partial 0 0 0 b
    else if within 0xC2 0xDF b
    then partial 1 0x80 0xBF (b - 0xC0)
    else if b == 0xE0
    then partial 2 0xA0 0xBF 0
    else if b == 0xED
    then partial 2 0x80 0x9F 13
    else if within 0xE1 0xEF b
    then partial 2 0x80 0xBF (b - 0xE0)
    else if b == 0xF0
    then partial 3 0x90 0xBF 0
    else if within 0xF1 0xF3 b
    then partial 3 0x80 0xBF (b - 0xF0)
    else if b == 0xF4
    then partial 3 0x80 0x8F 4
    else none

unfoldable pub next_byte : Partial → ℕ → Option Partial
next_byte p b =
    if within p.lo p.hi b then partial (p.need - 1) 0x80 0xBF (p.value * 64 + (b - 0x80)) else none

unfoldable pub decode_byte : ℕ → Partial → ℕ → Option Partial
unfolding first_byte next_byte
decode_byte zero p b = first_byte b
decode_byte (suc n) p b = next_byte p b

abbrev emit : ℕ → ℕ → Option (List ℕ) → Option (List ℕ)
emit zero rune rest = Option.map (λ rs. rune ∷ rs) rest
emit (suc n) rune rest = rest

unfoldable pub decode : Partial → Bytes → Option (List ℕ)
unfolding decode_byte
decode p [] = if p.need == 0 then some [] else none
decode p (b ∷ bs) = elim (decode_byte p.need p b) [
  | none ↦ none
  | some q ↦ emit q.need q.value (decode q bs)
]

-- The runes of a string, or `none` where it is not valid UTF-8.
unfoldable pub runes : Bytes → Option (List ℕ)
unfolding decode
runes = decode (record { need = 0; lo = 0; hi = 0; value = 0 })

abbrev pub is_control : ℕ → Bool
is_control r = ltb r 0x20 || within 0x7F 0x9F r

-- `<` on Go strings is the order of their bytes.
abbrev pub bytes_lt : Bytes → Bytes → Bool
bytes_lt [] [] = false
bytes_lt [] (y ∷ ys) = true
bytes_lt (x ∷ xs) [] = false
bytes_lt (x ∷ xs) (y ∷ ys) = ltb x y || (x == y && bytes_lt xs ys)

-- The parts of a `url.URL` that the program reads.
pub record Url : Type 0 where
  pub scheme : Bytes
  pub host : Bytes
  pub has_user : Bool
  pub path : Bytes
  pub raw_query : Bytes
  pub fragment : Bytes

-- `url.Parse`, of package net/url: `none` where it returns an error.
abbrev pub UrlParser : Type 0
UrlParser = Bytes → Option Url
