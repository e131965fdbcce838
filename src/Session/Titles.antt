-- ===== src/Session/Titles.antt =====
-- internal/server/store.go: `cleanTitle` and `ValidateGroupName`. A title is a list of code points.
use sbnn.Prelude.{
  Bool, Bytes, List, Option, [], any, if◌then◌else◌, leb, length, ltb, map, none, not, some, take,
  ℕ, ◌&&◌, ◌++◌, ◌-◌, ◌==◌, ◌||◌, ◌∷◌,
}
use sbnn.Text.{codes}
use sbnn.Text.Affix.{trim_right}
use sbnn.Text.Split.{close_field, join}

abbrev pub max_title_len : ℕ
max_title_len = 120

-- `unicode.IsControl`
unfoldable pub is_control : ℕ → Bool
is_control c = ltb c 32 || (leb 0x7f c && leb c 0x9f)

-- `unicode.IsSpace` on a code point.
unfoldable pub is_space : ℕ → Bool
is_space c =
    c == 32
    || (leb 9 c && leb c 13)
    || c == 0x85
    || c == 0xa0
    || c == 0x1680
    || (leb 0x2000 c && leb c 0x200a)
    || c == 0x2028
    || c == 0x2029
    || c == 0x202f
    || c == 0x205f
    || c == 0x3000

-- `strings.Fields` on code points; `word` holds the word being read, the last one first.
unfoldable pub words_from : Bytes → Bytes → List Bytes
unfolding is_space
words_from word [] = close_field word []
words_from word (c ∷ s) =
    let inside = words_from (c ∷ word) s in
    let outside = words_from [] s in if is_space c then close_field word outside else inside

abbrev pub plain : ℕ → ℕ
plain c = if is_control c then b' ' else c

unfoldable pub clean_title : Bytes → Bytes
unfolding is_control words_from join trim_right
clean_title title =
    let joined = join b' ' (words_from [] (map plain title)) in
    if ltb max_title_len (length joined)
    then trim_right b' ' (take (max_title_len - 1) joined) ++ 0x2026 ∷ []
    else joined

-- `groupNamePattern`: letters, digits and, behind the first, '.', '_' and '-'.
unfoldable pub is_alphanumeric : ℕ → Bool
is_alphanumeric c = leb b'A' c && leb c b'Z' || leb b'a' c && leb c b'z' || leb b'0' c && leb c b'9'

abbrev pub is_name_byte : ℕ → Bool
is_name_byte c = is_alphanumeric c || c == b'.' || c == b'_' || c == b'-'

unfoldable pub validate_group_name : Bytes → Option Bytes
unfolding is_alphanumeric
validate_group_name [] = some (codes "default")
validate_group_name (c ∷ s) =
    if is_alphanumeric c && not (any (λ b. not (is_name_byte b)) s) && leb (length s) 63
    then some (c ∷ s)
    else none
