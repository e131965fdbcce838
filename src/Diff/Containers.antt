-- ===== src/Diff/Containers.antt =====
-- internal/diff/reconstruct.go: the block containers of a line of Markdown (`splitContainers`,
-- `listMarkerLen`) and the fence behind them (`fenceAt`).
pub mod Peeled
pub mod Markers
use sbnn.Prelude.{
  Bool, Bytes, Option, [], drop, false, if◌then◌else◌, length, ltb, none, not, replicate, some, suc,
  zero, ℕ, ◌&&◌, ◌++◌, ◌+◌, ◌==◌, ◌||◌, ◌∷◌,
}
use sbnn.Review.Fences.{backtick, run_of, tilde}
use sbnn.Text.{codes}
use sbnn.Text.Number.{is_digit}
use sbnn.Text.Split.{contains}

abbrev pub space : ℕ
space = 32

unfoldable pub leading_spaces : Bytes → ℕ
leading_spaces [] = 0
leading_spaces (c ∷ s) = let rest = leading_spaces s in if c == space then suc rest else 0

-- How many digits stand in front, up to `k`.
unfoldable pub digit_run : ℕ → Bytes → ℕ
unfolding is_digit
digit_run zero s = 0
digit_run (suc k) [] = 0
digit_run (suc k) (c ∷ s) = let rest = digit_run k s in if is_digit c then suc rest else 0

-- The width of a number with its delimiter.
abbrev pub delimited : ℕ → Bytes → Option ℕ
delimited n [] = none
delimited n (c ∷ s) = if n == 0 then none else if c == b'.' || c == b')' then some (n + 1) else none

unfoldable pub marker_width : Bytes → Option ℕ
unfolding digit_run
marker_width [] = none
marker_width (c ∷ s) =
    if c == b'-' || c == b'*' || c == b'+'
    then some 1
    else delimited (digit_run 9 (c ∷ s)) (drop (digit_run 9 (c ∷ s)) (c ∷ s))

unfoldable pub list_marker_len : Bytes → ℕ
unfolding marker_width leading_spaces
list_marker_len s = elim (marker_width s) [
  | none ↦ 0
  | some i ↦
      let spaces = leading_spaces (drop i s) in
      if spaces == 0 || ltb 4 spaces then 0 else i + spaces
]

-- The container that a line without indentation opens: what continues it, and what is left.
unfoldable pub container : Bytes → Option (Bytes × Bytes)
unfolding list_marker_len
container [] = none
container (c ∷ s) =
    let n = list_marker_len (c ∷ s) in
    if c == b'>'
    then (if leading_spaces s == 0 then some (b'>' ∷ [], s) else some (b'>' ∷ space ∷ [], drop 1 s))
    else if n == 0
    then none
    else some (replicate n space, drop n (c ∷ s))

-- The loop; every round takes a byte off the line, so that one round more than it has bytes is enough.
unfoldable pub peel : ℕ → Bytes → Bytes → Bytes × Bytes
unfolding leading_spaces container
peel zero cont rest = (cont, rest)
peel (suc fuel) cont rest =
    let n = leading_spaces rest in
    if ltb 3 n then (cont, rest) else elim (container (drop n rest)) [
      | none ↦ (cont ++ replicate n space, drop n rest)
      | some (p, r) ↦ peel fuel (cont ++ (replicate n space ++ p)) r
    ]

unfoldable pub split_containers : Bytes → Bytes × Bytes
unfolding peel
split_containers line = peel (suc (length line)) [] line

abbrev pub first_is : ℕ → Bytes → Bool
first_is c [] = false
first_is c (d ∷ s) = d == c

-- The character of the fence, how many of it, and what follows.
unfoldable pub fence_at : Bytes → Option (ℕ × ℕ × Bytes)
unfolding run_of contains
fence_at [] = none
fence_at (c ∷ s) =
    let r = run_of c (c ∷ s) in
    if not (c == backtick || c == tilde) || ltb (length r.0) 3
    then none
    else if c == backtick && contains r.1 (codes "`")
    then none
    else some (c, length r.0, r.1)
