-- ===== src/Tests/DiffClaims.antt =====
-- What is proved of the parser, at the sample diff.
use sbnn.Diff.Finalize.{finalize, is_add, is_delete}
use sbnn.Diff.Finalize.Counts.{finalize-counts, lines_of}
use sbnn.Diff.Parser.{parse}
use sbnn.Diff.Parser.Results.{parse-HasNumberedHunks, parse-total}
use sbnn.Diff.Parser.Sound.{HasNumberedHunks}
use sbnn.Model.{File, Hunk, add, delete, empty_file}
use sbnn.Prelude.{All, List, [], false, keep, length, some, ◌+◌, ◌∷◌, ◌≡◌}
use sbnn.Tests.DiffRuns.{platform, sample, sample_files, sample_parsed}
use sbnn.Text.{codes}

parse-total_example : (fs : List File) × (parse platform sample ≡ some fs)
parse-total_example = parse-total platform sample

parse-HasNumberedHunks_example : All HasNumberedHunks sample_files
parse-HasNumberedHunks_example = parse-HasNumberedHunks platform sample sample_parsed

abbrev one_hunk : Hunk
one_hunk = record {
  header = [];
  old_start = 1;
  old_lines = 1;
  new_start = 1;
  new_lines = 2;
  section = [];
  lines =
      record { kind = delete; old_number = 1; new_number = 0; content = []; no_newline = false }
      ∷ record { kind = add; old_number = 0; new_number = 1; content = []; no_newline = false }
      ∷ record { kind = add; old_number = 0; new_number = 2; content = []; no_newline = false }
      ∷ [];
}

abbrev one_file : File
one_file = record empty_file { new_path = codes "x"; hunks = one_hunk ∷ [] }

finalize-counts_example :
    ((finalize platform one_file 0).additions ≡ 0 + length (keep is_add (lines_of one_file.hunks)))
    × ((finalize platform one_file 0).deletions
        ≡ 0 + length (keep is_delete (lines_of one_file.hunks)))
finalize-counts_example = finalize-counts platform one_file 0
