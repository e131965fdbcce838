-- ===== src/Text.antt =====
-- Go strings as lists of bytes: what the program uses of the packages `strings`, `strconv` and
-- `path`, written out byte by byte.
pub mod Affix
pub mod Split
pub mod Number
pub mod Occurs
pub mod Trimmed
pub mod Utf8
use Prim.Native.Char.{code}
use Prim.Native.String.{String}
use sbnn.Prelude.{Bool, Bytes, [], arith, false, refl, true, ◌&&◌, ◌==◌, ◌↔◌, ◌∷◌, ◌≡◌}

-- The bytes of an ASCII literal.
abbrev pub codes : String → Bytes
codes String.[] = []
codes (String.◌∷◌ c s) = code c ∷ codes s

abbrev pub is_empty : Bytes → Bool
is_empty [] = true
is_empty (x ∷ xs) = false

-- `==` on strings.
unfoldable pub eq_bytes : Bytes → Bytes → Bool
eq_bytes [] t = is_empty t
eq_bytes (c ∷ s) [] = false
eq_bytes (c ∷ s) (d ∷ t) = c == d && eq_bytes s t

pub eq_bytes_iff : (s t : Bytes) → (eq_bytes s t ≡ true) ↔ (s ≡ t)
unfolding eq_bytes
eq_bytes_iff [] [] = ground arith
eq_bytes_iff [] (d ∷ t) = ground arith
eq_bytes_iff (c ∷ s) [] = ground arith
eq_bytes_iff (c ∷ s) (d ∷ t) = ground (arith, eq_bytes_iff s t)

pub eq_bytes_refl : (a : Bytes) → eq_bytes a a ≡ true
eq_bytes_refl a = (eq_bytes_iff a a).1 (λ i. a)

pub eq_bytes_comm : (s t : Bytes) → eq_bytes s t ≡ eq_bytes t s
unfolding eq_bytes
eq_bytes_comm [] [] = refl
eq_bytes_comm [] (d ∷ t) = refl
eq_bytes_comm (c ∷ s) [] = refl
eq_bytes_comm (c ∷ s) (d ∷ t) = ground (arith, eq_bytes_comm s t)
