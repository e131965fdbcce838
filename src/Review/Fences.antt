-- ===== src/Review/Fences.antt =====
-- internal/model/model.go: the fences of code blocks in a comment (`fenceRun`, `openFence`,
-- `closesFence`, `suggestionFence`).
use sbnn.Prelude.{
  Bool, Bytes, Option, [], false, if◌then◌else◌, leb, length, ltb, none, some, true, ℕ, ◌&&◌, ◌+◌,
  ◌==◌, ◌||◌, ◌∷◌,
}
use sbnn.Text.{codes, is_empty}
use sbnn.Text.Affix.{trim_space, trim_suffix}
use sbnn.Text.Split.{contains}

abbrev pub backtick : ℕ
backtick = 96

abbrev pub tilde : ℕ
tilde = 126

-- The bytes at the front that are all `c`, and the others.
unfoldable pub run_of : ℕ → Bytes → Bytes × Bytes
run_of c [] = ([], [])
run_of c (d ∷ s) = let rest = run_of c s in if d == c then (d ∷ rest.0, rest.1) else ([], d ∷ s)

-- `fenceRun` behind the trimming.
unfoldable pub fence_run_of : Bytes → Bytes × Bytes
unfolding run_of trim_space
fence_run_of [] = ([], [])
fence_run_of (c ∷ s) =
    if c == backtick || c == tilde
    then (c ∷ (run_of c s).0, trim_space (run_of c s).1)
    else ([], [])

unfoldable pub fence_run : Bytes → Bytes × Bytes
unfolding fence_run_of trim_space trim_suffix
fence_run line = fence_run_of (trim_space (trim_suffix line (codes "\r")))

abbrev pub starts_with : ℕ → Bytes → Bool
starts_with c [] = false
starts_with c (d ∷ s) = d == c

-- The fence and the info string.
unfoldable pub open_fence : Bytes → Option (Bytes × Bytes)
unfolding fence_run contains
open_fence line =
    let r = fence_run line in
    if ltb (length r.0) 3
    then none
    else if starts_with backtick r.0 && contains r.1 (codes "`")
    then none
    else some r

abbrev pub same_first : Bytes → Bytes → Bool
same_first (c ∷ s) (d ∷ t) = c == d
same_first _ _ = false

unfoldable pub closes_fence : Bytes → Bytes → Bool
unfolding fence_run
closes_fence line fence =
    let r = fence_run line in
    is_empty r.1 && leb (length fence) (length r.0) && same_first r.0 fence

abbrev pub lower : ℕ → ℕ
lower c = if leb 65 c && leb c 90 then c + 32 else c

-- `strings.EqualFold` with a text of small letters other than `k`: the long s, two bytes in UTF-8, is
-- the only other character that folds to one of them.
unfoldable pub folds_to : Bytes → Bytes → Bool
folds_to [] [] = true
folds_to [] (d ∷ t) = false
folds_to (c ∷ s) [] = false
folds_to (c ∷ []) (d ∷ t) = lower c == d && is_empty t
folds_to (c ∷ e ∷ s) (d ∷ t) =
    let next = folds_to (e ∷ s) t in
    let behind = folds_to s t in
    if lower c == d then next else d == b's' && c == 197 && e == 191 && behind

unfoldable pub suggestion_fence : Bytes → Option Bytes
unfolding open_fence folds_to
suggestion_fence line = elim (open_fence line) [
  | none ↦ none
  | some (fence, info) ↦ if folds_to info (codes "suggestion") then some fence else none
]
