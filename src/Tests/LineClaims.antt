-- ===== src/Tests/LineClaims.antt =====
-- What is proved of the places of comments, at a path with a colon.
use sbnn.Cmd.Lines.{cut_last, line_suffix, match_lines, parse_line_spec, parse_lines}
use sbnn.Cmd.Lines.RoundTrip.{parse_line_spec-line_suffix}
use sbnn.Prelude.{arith, none, refl, some, ◌++◌, ◌≡◌}
use sbnn.Text.{codes}
use sbnn.Text.Affix.{trim_space}
use sbnn.Text.Split.{cut}

parse_line_spec-line_suffix_example :
    parse_line_spec (codes "odd:name.txt" ++ line_suffix 12 18)
    ≡ some (codes "odd:name.txt", 12, 18)
parse_line_spec-line_suffix_example =
    parse_line_spec-line_suffix (codes "odd:name.txt") 12 18 refl (omega arith) (omega arith)
      (omega arith)

whole_file : parse_line_spec (codes "odd:name.txt") ≡ some (codes "odd:name.txt", 0, 0)
unfolding parse_line_spec cut_last
whole_file = refl

no_line : parse_line_spec (codes "main.go:4x") ≡ none
unfolding parse_line_spec cut_last parse_lines match_lines trim_space cut
no_line = refl
