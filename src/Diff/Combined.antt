-- ===== src/Diff/Combined.antt =====
-- internal/diff/parse.go: hunks of combined diffs, with a marker column for each parent.
use sbnn.Model.{Hunk, Line, LineKind, add, context, delete}
use sbnn.Prelude.{
  Bool, Bytes, List, [], any, false, if◌then◌else◌, ltb, suc, zero, ℕ, ◌-◌, ◌==◌, ◌||◌, ◌∷◌,
}
use sbnn.Text.{codes}
use sbnn.Text.Affix.{has_prefix}

-- How many of a byte stand first.
unfoldable pub run_length : ℕ → Bytes → ℕ
run_length b [] = 0
run_length b (c ∷ s) = if c == b then suc (run_length b s) else 0

unfoldable pub combined_parents : Bytes → ℕ
unfolding run_length
combined_parents header = let n = run_length b'@' header in if ltb n 2 then 1 else n - 1

abbrev pub is_marker : ℕ → Bool
is_marker c = c == b' ' || c == b'+' || c == b'-'

-- The marker columns, at most as many as given, and the content behind them.
unfoldable pub split_markers : ℕ → Bytes → Bytes × Bytes
split_markers zero l = ([], l)
split_markers (suc n) [] = ([], [])
split_markers (suc n) (c ∷ l) =
    let rest = split_markers n l in if is_marker c then (c ∷ rest.0, rest.1) else ([], c ∷ l)

unfoldable pub split_combined_line : Bytes → ℕ → LineKind × Bytes
unfolding split_markers
split_combined_line l parents =
    let (markers, content) = split_markers parents l in
    if any (λ c. c == b'-') markers
    then (delete, content)
    else if any (λ c. c == b'+') markers
    then (add, content)
    else (context, content)

-- The lines of the hunk and what is left behind it.
unfoldable pub combined_body : ℕ → List Bytes → List Line × List Bytes
unfolding split_combined_line has_prefix
combined_body parents [] = ([], [])
combined_body parents (l ∷ ls) =
    let rest = combined_body parents ls in
    let (kind, content) = split_combined_line l parents in
    let line : Line = record {
      kind = kind;
      old_number = 0;
      new_number = 0;
      content = content;
      no_newline = false;
    } in
    if has_prefix l (codes "@@") || has_prefix l (codes "diff ")
    then ([], l ∷ ls)
    else if has_prefix l (codes "\\")
    then rest
    else (line ∷ rest.0, rest.1)

unfoldable pub read_combined_hunk : Bytes → List Bytes → Hunk × List Bytes
unfolding combined_parents combined_body
read_combined_hunk header ls =
    let (lines, rest) = combined_body (combined_parents header) ls in
    (
      record {
        header = header;
        old_start = 0;
        old_lines = 0;
        new_start = 0;
        new_lines = 0;
        section = [];
        lines = lines;
      },
      rest,
    )
