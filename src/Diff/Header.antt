-- ===== src/Diff/Header.antt =====
-- internal/diff/parse.go: `parseHunkHeader`, `parseRange` and `parseCount`.
use sbnn.Model.{Hunk}
use sbnn.Prelude.{Bytes, List, Option, [], if◌then◌else◌, none, some, ℕ, ◌==◌, ◌>>=◌, ◌∷◌}
use sbnn.Text.{codes}
use sbnn.Text.Affix.{trim_prefix, trim_space}
use sbnn.Text.Number.{all_digits, atoi}
use sbnn.Text.Split.{cut, fields}

unfoldable pub parse_count : Bytes → Option ℕ
unfolding all_digits atoi
parse_count [] = none
parse_count (c ∷ s) = if all_digits (c ∷ s) then atoi (c ∷ s) else none

-- A range without its sign: the start and the count.
unfoldable pub parse_numbers : Bytes → Option (ℕ × ℕ)
unfolding cut parse_count
parse_numbers s = elim (cut (b',' ∷ []) s) [
  | none ↦ do start ← parse_count s; some (start, 1)
  | some (before, after) ↦ do
    count ← parse_count after
    start ← parse_count before
    some (start, count)
]

unfoldable pub parse_range : Bytes → ℕ → Option (ℕ × ℕ)
unfolding parse_numbers
parse_range [] sign = none
parse_range (c ∷ s) sign = if c == sign then parse_numbers s else none

-- The two ranges of a header; what stands behind the second is ignored.
unfoldable pub parse_ranges : List Bytes → Option (ℕ × ℕ × ℕ × ℕ)
unfolding parse_range
parse_ranges (old ∷ new ∷ more) = do
  o ← parse_range old b'-'
  n ← parse_range new b'+'
  some (o.0, o.1, n.0, n.1)
parse_ranges _ = none

unfoldable pub parse_hunk_header : Bytes → Option Hunk
unfolding trim_prefix cut fields parse_ranges trim_space
parse_hunk_header line = do
  halves ← cut (codes "@@") (trim_prefix line (codes "@@"))
  r ← parse_ranges (fields halves.0)
  some (record {
    header = line;
    old_start = r.0;
    old_lines = r.1;
    new_start = r.2;
    new_lines = r.3;
    section = trim_space halves.1;
    lines = [];
  })
