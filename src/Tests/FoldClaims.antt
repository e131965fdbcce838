-- ===== src/Tests/FoldClaims.antt =====
-- What is proved of the folding of files, at concrete patterns and files.
use sbnn.Diff.Generated.{generated_marker, visible_top}
use sbnn.Diff.Generated.Top.{generated_marker-visible_top}
use sbnn.Diff.NewSide.{lines_onto, new_contents}
use sbnn.Model.{File, Hunk, Line, add, added, delete, empty_file, path}
use sbnn.Prelude.{
  Bytes, List, [], any, arith, false, keep, leb, length, ltb, map, none, not, refl, replicate, true,
  ℕ, ◌%◌, ◌++◌, ◌+◌, ◌<◌, ◌||◌, ◌↔◌, ◌∷◌, ◌≡◌, ◌≤◌,
}
use sbnn.Server.Fold.{
  Surroundings, any_tail, declared_generated, ellipsis, fold_file, match_segments, shorten,
}
use sbnn.Server.Fold.Reasons.{asks_for, fold_file-folded, length-shorten}
use sbnn.Server.Fold.Segments.{all_fit, concat, match_segments_iff}
use sbnn.Text.{codes, eq_bytes, is_empty}
use sbnn.Text.Split.{contains}

abbrev ascii_only : Surroundings
ascii_only = record {
  path_match = eq_bytes;
  runes = keep (λ c. ltb c 128 || leb 192 c);
  of_runes = map (λ r. r % 128);
  is_marked = λ l. contains l (codes "@generated");
  worktree = λ base f. none;
}

one_rune_each :
    (rs : List ℕ) → length (ascii_only.runes (ascii_only.of_runes rs ++ ellipsis)) ≡ length rs + 1
one_rune_each [] = refl
one_rune_each (r ∷ rs) =
    let small : r % 128 < 128 = omega arith in
    let below : ltb (r % 128) 128 ≡ true = ground (arith, small) in
    rw below (omega (arith, one_rune_each rs))

match_segments_iff_example :
    (match_segments ascii_only
        (codes "a" ∷ codes "**" ∷ codes "c" ∷ [])
        (codes "a" ∷ codes "b" ∷ codes "b" ∷ codes "c" ∷ [])
      ≡ true)
    ↔ ((runs : List (List Bytes)) × (codes "a" ∷ codes "b" ∷ codes "b" ∷ codes "c" ∷ []
          ≡ concat runs)
        × (all_fit ascii_only (codes "a" ∷ codes "**" ∷ codes "c" ∷ []) runs ≡ true))
match_segments_iff_example =
    match_segments_iff ascii_only (codes "a" ∷ codes "**" ∷ codes "c" ∷ [])
      (codes "a" ∷ codes "b" ∷ codes "b" ∷ codes "c" ∷ [])

star_star-matches :
    match_segments ascii_only
      (codes "a" ∷ codes "**" ∷ codes "c" ∷ [])
      (codes "a" ∷ codes "b" ∷ codes "b" ∷ codes "c" ∷ [])
    ≡ true
unfolding match_segments any_tail
star_star-matches = refl

-- `dir/**` is what is inside the directory.
star_star-inside :
    match_segments ascii_only (codes "dir" ∷ codes "**" ∷ []) (codes "dir" ∷ []) ≡ false
unfolding match_segments any_tail
star_star-inside = refl

length-shorten_example :
    length (ascii_only.runes (shorten ascii_only (codes " a long line ") 5)) ≤ 5
length-shorten_example = length-shorten ascii_only refl one_rune_each (codes " a long line ") 5

abbrev shown : Bytes → Line
shown s = record { kind = add; old_number = 0; new_number = 1; content = s; no_newline = false }

abbrev removed : Bytes → Line
removed s = record {
  kind = delete;
  old_number = 1;
  new_number = 0;
  content = s;
  no_newline = false;
}

abbrev top_hunk : Hunk
top_hunk = record {
  header = [];
  old_start = 0;
  old_lines = 0;
  new_start = 1;
  new_lines = 11;
  section = [];
  lines = shown (codes "// @generated") ∷ removed (codes "old") ∷ replicate 10 (shown (codes "x"));
}

abbrev new_file : File
new_file = record empty_file { new_path = codes "gen/a.go"; status = added; hunks = top_hunk ∷ [] }

fold_file-folded_example : (fold_file ascii_only [] (codes "gen/**" ∷ []) new_file).folded ≡ (
    any (asks_for ascii_only (path new_file)) (codes "gen/**" ∷ [])
    || not (is_empty (declared_generated ascii_only [] new_file)))
fold_file-folded_example = fold_file-folded ascii_only [] (codes "gen/**" ∷ []) new_file

generated_marker-visible_top_example :
    generated_marker ascii_only.is_marked (lines_onto (new_contents top_hunk.lines) (codes "x\ny"))
    ≡ generated_marker ascii_only.is_marked (visible_top new_file)
generated_marker-visible_top_example =
    generated_marker-visible_top ascii_only.is_marked new_file top_hunk [] (codes "x\ny") refl refl
      (omega arith)
      (refl, (refl, (refl, (refl, (refl, (refl, (refl, (refl, (refl, (refl, (refl, tt)))))))))))
