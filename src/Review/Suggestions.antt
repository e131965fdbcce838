-- ===== src/Review/Suggestions.antt =====
-- internal/model/model.go: the replacements proposed in a comment (`Suggestions`, `blockEnd`,
-- `endsSuggestion`, `WithSuggestion`, `danglingFence`). An index into the lines is the list of lines
-- from there on.
pub mod Ticks
pub mod Blocks
pub mod Opened
pub mod Written
pub mod RoundTrip
use sbnn.Prelude.{
  Bool, Bytes, List, Option, [], false, if◌then◌else◌, is_some, length, ltb, map, none, not, some,
  suc, true, zero, ℕ, ◌++◌, ◌||◌, ◌∷◌,
}
use sbnn.Review.Fences.{backtick, closes_fence, fence_run, open_fence, suggestion_fence}
use sbnn.Text.{codes, is_empty}
use sbnn.Text.Affix.{trim_right, trim_space, trim_suffix}
use sbnn.Text.Split.{contains, join, split}

unfoldable pub ends_suggestion : Bytes → Bytes → Bytes → Bool
unfolding closes_fence fence_run
ends_suggestion line fence inner =
    if not (closes_fence line fence)
    then false
    else if is_empty inner
    then true
    else not (closes_fence line inner) || ltb (length inner) (length (fence_run line).0)

-- The fence of the nested block behind a line that does not end the suggestion.
unfoldable pub inner_behind : Bytes → Bytes → Bytes
unfolding closes_fence open_fence
inner_behind line inner =
    if not (is_empty inner)
    then (if closes_fence line inner then [] else inner)
    else elim (open_fence line) [ none ↦ [] | some (f, info) ↦ f ]

-- A block: its lines, and those behind the line that closes it, unless the text never does.
abbrev pub Block : Type 0
Block = List Bytes × Option (List Bytes)

abbrev pub with_line : Bytes → Block → Block
with_line l b = (l ∷ b.0, b.1)

unfoldable pub code_block : Bytes → List Bytes → Block
unfolding closes_fence
code_block fence [] = ([], none)
code_block fence (l ∷ ls) =
    let rest = code_block fence ls in
    if closes_fence l fence then ([], some ls) else with_line l rest

unfoldable pub suggestion_block : Bytes → Bytes → List Bytes → Block
unfolding ends_suggestion inner_behind
suggestion_block fence inner [] = ([], none)
suggestion_block fence inner (l ∷ ls) =
    let rest = suggestion_block fence (inner_behind l inner) ls in
    if ends_suggestion l fence inner then ([], some ls) else with_line l rest

-- `blockEnd`, for the block that a line with this fence opens.
unfoldable pub block_end : Bytes → Bytes → List Bytes → Block
unfolding suggestion_fence code_block suggestion_block
block_end opener fence ls =
    if is_some (suggestion_fence opener) then suggestion_block fence [] ls else code_block fence ls

abbrev pub lines_left : Option (List Bytes) → List Bytes
lines_left none = []
lines_left (some ls) = ls

abbrev pub suggestion_text : List Bytes → Bytes
suggestion_text ls = join 10 (map (λ l. trim_suffix l (codes "\r")) ls)

-- A block proposes its lines if it is a suggestion.
unfoldable pub proposed : Bool → List Bytes → List Bytes → List Bytes
proposed suggests block behind = if suggests then suggestion_text block ∷ behind else behind

-- The scan; every round takes a line, so that one round of fuel for each is enough.
unfoldable pub suggestions_from : ℕ → List Bytes → List Bytes
suggestions_from zero ls = []
suggestions_from (suc fuel) [] = []
suggestions_from (suc fuel) (l ∷ ls) = elim (open_fence l) [
  | none ↦ suggestions_from fuel ls
  | some (fence, info) ↦
      proposed (is_some (suggestion_fence l)) (block_end l fence ls).0
        (suggestions_from fuel (lines_left (block_end l fence ls).1))
]

unfoldable pub suggestions : Bytes → List Bytes
suggestions body = suggestions_from (length (split 10 body)) (split 10 body)

-- `danglingFence`, likewise.
unfoldable pub dangling_from : ℕ → List Bytes → Bytes
dangling_from zero ls = []
dangling_from (suc fuel) [] = []
dangling_from (suc fuel) (l ∷ ls) = elim (open_fence l) [
  | none ↦ dangling_from fuel ls
  | some (fence, info) ↦ elim ((block_end l fence ls).1) [
    | none ↦ fence
    | some rest ↦ dangling_from fuel rest
  ]
]

unfoldable pub dangling_fence : Bytes → Bytes
dangling_fence text = dangling_from (length (split 10 text)) (split 10 text)

-- The loop that lengthens the fence while the suggestion holds it; a fence longer than the text is
-- not in it, so that one round for each byte is enough.
unfoldable pub long_fence : ℕ → Bytes → Bytes → Bytes
unfolding contains
long_fence zero text fence = fence
long_fence (suc fuel) text fence =
    let longer = long_fence fuel text (backtick ∷ fence) in
    if contains text fence then longer else fence

abbrev pub fence_around : Bytes → Bytes
fence_around text = long_fence (length text) text (codes "```")

abbrev pub suggestion_lines : Bytes → Bytes → Bytes
suggestion_lines fence text = fence ++ codes "suggestion\n" ++ text ++ 10 ∷ fence

abbrev pub closed_body : Bytes → Bytes
closed_body body = if is_empty (dangling_fence body) then body else body ++ 10 ∷ dangling_fence body

unfoldable pub with_suggestion : Bytes → Bytes → Bytes
with_suggestion body suggestion =
    let text = trim_right 10 suggestion in
    if is_empty (trim_space text)
    then body
    else if is_empty (trim_space body)
    then suggestion_lines (fence_around text) text
    else closed_body (trim_right 10 body) ++ 10 ∷ 10 ∷ suggestion_lines (fence_around text) text
