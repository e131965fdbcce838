-- ===== src/Text/Affix.antt =====
-- Prefixes, suffixes and trimming: `strings.HasPrefix`, `TrimPrefix`, `HasSuffix`, `TrimSuffix`,
-- `TrimLeft`, `TrimRight` and `TrimSpace`.
use sbnn.Prelude.{
  Bool, Bytes, Option, [], if◌then◌else◌, is_some, leb, none, reverse, some, suc, zero, ℕ, ◌&&◌,
  ◌==◌, ◌||◌, ◌∷◌,
}

-- What follows the prefix, if the string has it.
unfoldable pub after_prefix : Bytes → Bytes → Option Bytes
after_prefix s [] = some s
after_prefix [] (p ∷ ps) = none
after_prefix (c ∷ s) (p ∷ ps) = if c == p then after_prefix s ps else none

unfoldable pub has_prefix : Bytes → Bytes → Bool
unfolding after_prefix
has_prefix s p = is_some (after_prefix s p)

unfoldable pub trim_prefix : Bytes → Bytes → Bytes
unfolding after_prefix
trim_prefix s p = elim (after_prefix s p) [ none ↦ s | some r ↦ r ]

unfoldable pub has_suffix : Bytes → Bytes → Bool
unfolding has_prefix
has_suffix s p = has_prefix (reverse s) (reverse p)

unfoldable pub trim_suffix : Bytes → Bytes → Bytes
unfolding after_prefix
trim_suffix s p = elim (after_prefix (reverse s) (reverse p)) [ none ↦ s | some r ↦ reverse r ]

-- `strings.TrimLeft` and `strings.TrimRight` with a cutset of one byte.
unfoldable pub trim_left : ℕ → Bytes → Bytes
trim_left b [] = []
trim_left b (c ∷ s) = if c == b then trim_left b s else c ∷ s

unfoldable pub trim_right : ℕ → Bytes → Bytes
unfolding trim_left
trim_right b s = reverse (trim_left b (reverse s))

-- `unicode.IsSpace` on the bytes of one ASCII character.
unfoldable pub is_ascii_space : ℕ → Bool
is_ascii_space c = c == b' ' || (leb 9 c && leb c 13)

-- The last byte of U+2000 to U+200A, U+2028, U+2029 and U+202F behind E2 80.
unfoldable pub is_general_space : ℕ → Bool
is_general_space c = leb 0x80 c && leb c 0x8a || c == 0xa8 || c == 0xa9 || c == 0xaf

-- How many bytes the white space character takes that stands first; 0 if none does. A byte that
-- starts no character never starts one of these.
unfoldable pub space_width : Bytes → ℕ
unfolding is_ascii_space is_general_space
space_width [] = 0
space_width (a ∷ []) = if is_ascii_space a then 1 else 0
space_width (a ∷ b ∷ []) =
    if is_ascii_space a then 1 else if a == 0xc2 && (b == 0x85 || b == 0xa0) then 2 else 0
space_width (a ∷ b ∷ c ∷ s) =
    if is_ascii_space a
    then 1
    else if a == 0xc2 && (b == 0x85 || b == 0xa0)
    then 2
    else if a == 0xe2 && b == 0x80 && is_general_space c
        || (a == 0xe2 && b == 0x81 && c == 0x9f)
        || (a == 0xe1 && b == 0x9a && c == 0x80)
        || (a == 0xe3 && b == 0x80 && c == 0x80)
    then 3
    else 0

-- The same at the end of a string, given its bytes from the last to the first.
unfoldable pub space_width_end : Bytes → ℕ
unfolding space_width
space_width_end [] = 0
space_width_end (a ∷ []) = space_width (a ∷ [])
space_width_end (b ∷ a ∷ []) = elim (space_width (b ∷ [])) [
  | zero ↦ (if space_width (a ∷ b ∷ []) == 2 then 2 else 0)
  | suc n ↦ 1
]
space_width_end (c ∷ b ∷ a ∷ s) = elim (space_width (c ∷ [])) [
  | zero ↦
      if space_width (b ∷ c ∷ []) == 2
      then 2
      else if space_width (a ∷ b ∷ c ∷ []) == 3
      then 3
      else 0
  | suc n ↦ 1
]

-- Drop white space from the front, where the width of the first character is measured by `w`. The
-- number is how many bytes of a character already measured are still to be dropped.
unfoldable pub drop_space : (Bytes → ℕ) → ℕ → Bytes → Bytes
drop_space w k [] = []
drop_space w (suc k) (c ∷ s) = drop_space w k s
drop_space w zero (c ∷ s) = elim (w (c ∷ s)) [ zero ↦ c ∷ s | suc k ↦ drop_space w k s ]

unfoldable pub trim_space : Bytes → Bytes
unfolding drop_space space_width space_width_end
trim_space s = reverse (drop_space space_width_end 0 (reverse (drop_space space_width 0 s)))
