-- ===== src/Tests/DiffRuns.antt =====
-- The parser on whole diffs.
use mathlib.Core.List.{flat_map}
use sbnn.Diff.Parser.{parse}
use sbnn.Diff.Platform.{Platform}
use sbnn.Model.{File, LineKind, add, context, delete}
use sbnn.Prelude.{Bytes, List, Option, [], map, none, refl, some, ℕ, ◌∷◌, ◌≡◌}
use sbnn.Text.{codes}

abbrev pub platform : Platform
platform = record { unquote = λ s. none; to_lower = λ s. s; sha256_hex = λ s. codes "0123456789" }

abbrev pub sample : Bytes
sample =
    codes
      "diff --git a/x.md b/x.md\nindex 1..2 100644\n--- a/x.md\n+++ b/x.md\n@@ -1,2 +1,2 @@ top\n a\n-b\n+c\n+d\n-- \n2.1\n"

abbrev summary : Option (List File) → List (Bytes × List (LineKind × ℕ × ℕ × Bytes))
summary none = []
summary (some fs) =
    map
      (λ f. (
        f.new_path,
        flat_map (λ h. map (λ l. (l.kind, l.old_number, l.new_number, l.content)) h.lines) f.hunks,
      ))
      fs

sample_lines :
    summary (parse platform sample)
    ≡ (
      codes "x.md",
      (context, 1, 1, codes "a")
          ∷ (delete, 2, 0, codes "b")
          ∷ (add, 0, 2, codes "c")
          ∷ (add, 0, 3, codes "d")
          ∷ [],
    )
      ∷ []
unfolding parse flat_map
sample_lines = refl

abbrev pub or_no_files : Option (List File) → List File
or_no_files none = []
or_no_files (some fs) = fs

pub sample_files : List File
unfolding parse
sample_files = or_no_files (parse platform sample)

pub sample_parsed : parse platform sample ≡ some sample_files
unfolding parse sample_files
sample_parsed = refl
