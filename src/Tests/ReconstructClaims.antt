-- ===== src/Tests/ReconstructClaims.antt =====
-- What is proved of the reconstruction of files, at a file of two hunks.
use sbnn.Diff.Containers.{
  container, digit_run, fence_at, leading_spaces, list_marker_len, marker_width, peel, space,
  split_containers,
}
use sbnn.Diff.Containers.Markers.{split_containers-leaves}
use sbnn.Diff.NewSide.{lines_onto}
use sbnn.Diff.Reconstruct.{
  blank_in, gap_in, gap_lines, gap_marker, in_snippet, marker, print_int, reconstruct, snippet,
  snippet_hunks, snippet_lines, track, write_gap, write_hole, write_hunks, write_line, write_lines,
}
use sbnn.Diff.Reconstruct.Beginning.{contents_by, reconstruct-lines_onto}
use sbnn.Diff.Reconstruct.Plain.{reconstruct-shown, shown_by}
use sbnn.Model.{File, Hunk, Line, LineKind, add, context, delete, empty_file, modified, next_int}
use sbnn.Prelude.{
  Bytes, List, [], arith, false, inl, inr, length, refl, replicate, take, true, ℕ, ◌++◌, ◌+◌, ◌∷◌,
  ◌≡◌, ◌≢◌,
}
use sbnn.Text.{codes}
use sbnn.Text.Affix.{trim_right}
use sbnn.Text.Number.{all_digits, is_digit, itoa}

abbrev line : LineKind → ℕ → ℕ → Bytes → Line
line k o n s = record { kind = k; old_number = o; new_number = n; content = s; no_newline = false }

abbrev first_hunk : Hunk
first_hunk = record {
  header = [];
  old_start = 1;
  old_lines = 2;
  new_start = 1;
  new_lines = 2;
  section = [];
  lines =
      line context 1 1 (codes "a") ∷ line delete 2 0 (codes "b") ∷ line add 0 2 (codes "c") ∷ [];
}

abbrev second_hunk : Hunk
second_hunk = record {
  header = [];
  old_start = 3;
  old_lines = 1;
  new_start = 3;
  new_lines = 1;
  section = [];
  lines = line context 3 3 (codes "d") ∷ [];
}

abbrev two_hunks : File
two_hunks = record empty_file { status = modified; hunks = first_hunk ∷ second_hunk ∷ [] }

abbrev four_lines : List Bytes
four_lines = codes "a" ∷ codes "c" ∷ codes "d" ∷ codes "e" ∷ []

reconstruct-lines_onto_example :
    (reconstruct two_hunks).0
    ≡ lines_onto (take (length (contents_by two_hunks.hunks)) four_lines) []
reconstruct-lines_onto_example =
    reconstruct-lines_onto two_hunks four_lines
      ((inr refl, (inl refl, (inr refl, tt))), ((inr refl, tt), tt))
      (unfold next_int in
        (((refl, refl), ((refl, refl), ((refl, refl), tt))), (((refl, refl), tt), tt)))
      (inr (omega arith, omega arith, inr (omega arith, omega arith, tt))) refl
      (unfold reconstruct write_hunks write_hole write_lines write_line track next_int in refl)

reconstruct-shown_example : (reconstruct two_hunks).0 ≡ shown_by two_hunks.hunks
reconstruct-shown_example = reconstruct-shown two_hunks refl

split_containers-leaves_example :
    ((split_containers (codes "- > 1. ```go")).1 ≢ b'>' ∷ codes "x")
    × ((split_containers (codes "- > 1. ```go")).1 ≢ codes "1." ++ (replicate 1 space ++ codes "x"))
    × (length (split_containers (codes "- > 1. ```go")).0
          + length (split_containers (codes "- > 1. ```go")).1
        ≡ length (codes "- > 1. ```go"))
split_containers-leaves_example =
    split_containers-leaves (codes "- > 1. ```go") (codes "x") (codes "1.") (codes "x") 1
      (inr (
        codes "1",
        b'.',
        refl,
        unfold all_digits is_digit in refl,
        omega arith,
        omega arith,
        inl refl,
      ))
      (omega arith) (omega arith) refl

quoted_item : split_containers (codes "- > 1. ```go") ≡ (codes "  >    ", codes "```go")
unfolding split_containers peel container list_marker_len marker_width digit_run leading_spaces
quoted_item = refl

-- A gap inside a list item: the fence is closed and opened again behind the marks.
abbrev listed_code : File
listed_code = record empty_file {
  status = modified;
  is_markdown = true;
  hunks =
      record first_hunk { lines = line context 1 1 (codes "- ```go") ∷ [] }
      ∷ record second_hunk { new_start = 5; lines = line context 5 5 (codes "  x") ∷ [] }
      ∷ [];
}

listed_code-marked : reconstruct listed_code ≡ (
  codes "- ```go\n  ```\n\n  ---\n\n  *sbnn: 3 line(s) not included in the diff*\n\n  ```go\n  x\n",
  false,
)
unfolding reconstruct write_hunks write_hole write_lines write_line track next_int write_gap
    split_containers peel container list_marker_len leading_spaces fence_at gap_in gap_lines
    gap_marker blank_in print_int itoa trim_right
listed_code-marked = refl

snippet-marked : snippet two_hunks (codes "new") 2 3 ≡ codes "+c\n d"
unfolding snippet snippet_hunks snippet_lines in_snippet marker trim_right
snippet-marked = refl
