-- ===== src/Cmd/Lines.antt =====
-- cmd/comment.go: the place of a comment as it is typed and printed (`parseLineSpec`, `parseLines`,
-- `lineNumber`, `lineSuffix`). An error is `none`.
pub mod RoundTrip
use sbnn.Diff.Parser.{start}
use sbnn.Model.{path}
use sbnn.Prelude.{
  Bool, Bytes, Option, [], false, if◌then◌else◌, ltb, none, not, some, ℕ, ◌&&◌, ◌++◌, ◌==◌, ◌>>=◌,
  ◌||◌, ◌∷◌,
}
use sbnn.Text.{is_empty}
use sbnn.Text.Affix.{trim_space}
use sbnn.Text.Number.{all_digits, atoi, is_digit, itoa}
use sbnn.Text.Split.{cut}

unfoldable pub line_suffix : ℕ → ℕ → Bytes
unfolding itoa
line_suffix start end =
    if start == 0
    then []
    else if ltb start end
    then b':' ∷ (itoa start ++ b'-' ∷ itoa end)
    else b':' ∷ itoa start

abbrev pub starts_with_digit : Bytes → Bool
starts_with_digit [] = false
starts_with_digit (c ∷ s) = is_digit c

-- What a match of `\d+` holds.
abbrev pub is_number : Bytes → Bool
is_number s = not (is_empty s) && all_digits s

-- `lineSpecPattern`: the first group, and the second one if it is there.
unfoldable pub match_lines : Bytes → Option (Bytes × Bytes)
unfolding cut all_digits
match_lines s = elim (cut (b'-' ∷ []) s) [
  | none ↦ if is_number s then some (s, []) else none
  | some (from, to) ↦ if is_number from && is_number to then some (from, to) else none
]

-- The last test of `parseLines`.
abbrev pub in_order : ℕ → ℕ → Option (ℕ × ℕ)
in_order start end = if start == 0 || ltb end start then none else some (start, end)

unfoldable pub parse_lines : Bytes → Option (ℕ × ℕ)
unfolding match_lines trim_space atoi
parse_lines s = do
  m ← match_lines (trim_space s)
  start ← atoi m.0
  end ← (if is_empty m.1 then some start else atoi m.1)
  in_order start end

-- What stands before and after the last colon.
unfoldable pub cut_last : Bytes → Option (Bytes × Bytes)
cut_last [] = none
cut_last (c ∷ s) =
    let here = if c == b':' then some ([], s) else none in
    elim (cut_last s) [ none ↦ here | some (b, a) ↦ some (c ∷ b, a) ]

unfoldable pub parse_line_spec : Bytes → Option (Bytes × ℕ × ℕ)
unfolding cut_last parse_lines is_digit
parse_line_spec spec = elim (cut_last spec) [
  | none ↦ some (spec, 0, 0)
  | some (path, place) ↦
      let lines = parse_lines place in
      if is_empty path || not (starts_with_digit place)
      then some (spec, 0, 0)
      else (do l ← lines; some (path, l.0, l.1))
]
