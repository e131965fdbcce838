-- ===== src/Diff/Generated.antt =====
-- internal/diff/generated.go: the line by which a file declares itself generated (`GeneratedMarker`)
-- and the top of a file as far as a diff shows it (`VisibleTop`). Whether one of the regular
-- expressions matches a line is an argument.
pub mod Top
use sbnn.Diff.Finalize.{is_delete}
use sbnn.Model.{File, Line}
use sbnn.Prelude.{Bool, Bytes, List, [], if◌then◌else◌, none, not, some, suc, zero, ℕ, ◌==◌, ◌∷◌}
use sbnn.Text.Affix.{trim_space}
use sbnn.Text.Split.{cut, join}

abbrev pub generated_top : ℕ
generated_top = 10

-- `strings.SplitN` by one byte.
unfoldable pub split_n : ℕ → ℕ → Bytes → List Bytes
unfolding cut
split_n b zero s = []
split_n b (suc zero) s = s ∷ []
split_n b (suc (suc n)) s = elim (cut (b ∷ []) s) [
  | none ↦ s ∷ []
  | some (before, after) ↦ before ∷ split_n b (suc n) after
]

module _ (is_marked : Bytes → Bool) where
  -- The loop over the lines, up to the number of lines that are looked at.
  unfoldable pub marker_in : ℕ → List Bytes → Bytes
  unfolding trim_space
  marker_in zero ls = []
  marker_in (suc n) [] = []
  marker_in (suc n) (l ∷ ls) =
      let rest = marker_in n ls in if is_marked l then trim_space l else rest

  unfoldable pub generated_marker : Bytes → Bytes
  unfolding marker_in split_n
  generated_marker content = marker_in generated_top (split_n 10 (suc generated_top) content)

-- The lines of the new side, up to so many.
unfoldable pub new_side : ℕ → List Line → List Bytes
new_side zero ls = []
new_side (suc n) [] = []
new_side (suc n) (l ∷ ls) =
    let without = new_side (suc n) ls in
    let behind = new_side n ls in if is_delete l then without else l.content ∷ behind

unfoldable pub visible_top : File → Bytes
unfolding new_side join
visible_top f = elim f.hunks [
  | [] ↦ []
  | h ∷ hs ↦ if not (h.new_start == 1) then [] else join 10 (new_side generated_top h.lines)
]
