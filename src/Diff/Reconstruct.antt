-- ===== src/Diff/Reconstruct.antt =====
-- internal/diff/reconstruct.go: the new side of a file as far as its hunks show it (`Reconstruct`), the
-- marks for what they leave out (`writeGap`), and the lines of a comment (`Snippet`).
pub mod Plain
pub mod Complete
pub mod Beginning
use sbnn.Diff.Containers.{fence_at, space, split_containers}
use sbnn.Diff.Finalize.{is_add, is_delete}
use sbnn.Diff.Parser.{start}
use sbnn.Model.{File, FileStatus, Hunk, Line, LineKind, add, added, context, delete, next_int}
use sbnn.Prelude.{
  Bool, Bytes, List, Option, [], false, if◌then◌else◌, is_nil, leb, ltb, none, not, replicate, some,
  true, ℕ, ◌%◌, ◌&&◌, ◌++◌, ◌+◌, ◌-◌, ◌==◌, ◌^◌, ◌||◌, ◌∷◌,
}
use sbnn.Text.{codes, eq_bytes, is_empty}
use sbnn.Text.Affix.{trim_right, trim_space}
use sbnn.Text.Number.{itoa}

-- `a < b` and `%d` on Go ints, given by their bit patterns.
abbrev pub signed_lt : ℕ → ℕ → Bool
signed_lt a b = ltb ((a + 2 ^ 63) % 2 ^ 64) ((b + 2 ^ 63) % 2 ^ 64)

unfoldable pub print_int : ℕ → Bytes
unfolding itoa
print_int n = if ltb n (2 ^ 63) then itoa n else b'-' ∷ itoa (2 ^ 64 - n)

-- `a - b`
abbrev pub int_diff : ℕ → ℕ → ℕ
int_diff a b = (a + (2 ^ 64 - b)) % 2 ^ 64

-- `fenceState`; a fence that is not open is `none`.
pub record OpenFence : Type 0 where
  pub char : ℕ
  pub length : ℕ
  pub indent : Bytes
  pub fence : Bytes

unfoldable pub track : Bytes → Option OpenFence → Option OpenFence
unfolding split_containers fence_at trim_space
track line s =
    let parts = split_containers line in
    elim (fence_at parts.1) [
      | none ↦ s
      | some (c, n, info) ↦ elim s [
        | none ↦ some (record { char = c; length = n; indent = parts.0; fence = parts.1 })
        | some f ↦
            if c == f.char && leb f.length n && is_empty (trim_space info) then none else some f
      ]
    ]

unfoldable pub blank_in : Bytes → Bytes
unfolding trim_right
blank_in indent = trim_right space indent ++ codes "\n"

unfoldable pub gap_lines : Bytes → List Bytes → Bytes
unfolding blank_in
gap_lines indent [] = []
gap_lines indent (l ∷ ls) =
    (if is_empty l then blank_in indent else indent ++ (l ++ codes "\n")) ++ gap_lines indent ls

-- `GapMarker` with the number of lines, in lines.
unfoldable pub gap_marker : ℕ → List Bytes
unfolding print_int
gap_marker n =
    codes "---"
    ∷ []
    ∷ (codes "*sbnn: " ++ print_int n ++ codes " line(s) not included in the diff*")
    ∷ []

unfoldable pub gap_in : Bytes → ℕ → Bytes
unfolding gap_lines gap_marker blank_in
gap_in indent n = blank_in indent ++ (gap_lines indent (gap_marker n) ++ blank_in indent)

-- What `writeGap` writes.
unfoldable pub write_gap : File → ℕ → Option OpenFence → Bytes
unfolding gap_in
write_gap f n s = if not f.is_markdown || f.is_notebook then [] else elim s [
  | none ↦ gap_in [] n
  | some o ↦
      (o.indent ++ (replicate o.length o.char ++ codes "\n"))
      ++ (gap_in o.indent n ++ (o.indent ++ (o.fence ++ codes "\n")))
]

pub record Written : Type 0 where
  pub text : Bytes
  pub complete : Bool
  pub next : ℕ
  pub fence : Option OpenFence

-- The body of the loop over the lines of a hunk.
unfoldable pub write_line : Line → Written → Written
unfolding track
write_line l w = if is_delete l then w else record w {
  text = w.text ++ (l.content ++ codes "\n");
  next = if signed_lt 0 l.new_number then next_int l.new_number else w.next;
  fence = track l.content w.fence;
}

unfoldable pub write_lines : List Line → Written → Written
unfolding write_line
write_lines [] w = w
write_lines (l ∷ ls) w = write_lines ls (write_line l w)

-- What comes in front of a hunk.
unfoldable pub write_hole : File → Hunk → Written → Written
unfolding write_gap
write_hole f h w =
    if signed_lt w.next h.new_start
    then record w {
      complete = false;
      text = w.text ++ write_gap f (int_diff h.new_start w.next) w.fence;
    }
    else w

unfoldable pub write_hunks : File → List Hunk → Written → Written
unfolding write_hole write_lines
write_hunks f [] w = w
write_hunks f (h ∷ hs) w = write_hunks f hs (write_lines h.lines (write_hole f h w))

abbrev pub is_added : FileStatus → Bool
is_added added = true
is_added _ = false

unfoldable pub reconstruct : File → Bytes × Bool
unfolding write_hunks
reconstruct f =
    let w = write_hunks f f.hunks (record { text = []; complete = true; next = 1; fence = none }) in
    (w.text, w.complete || (is_added f.status && not (is_nil f.hunks)))

unfoldable pub marker : LineKind → Bytes
marker add = codes "+"
marker delete = codes "-"
marker context = codes " "

-- Is the line one of those that a comment on this side and these lines is about?
unfoldable pub in_snippet : Bool → ℕ → ℕ → Line → Bool
in_snippet old start end l =
    let n = if old then l.old_number else l.new_number in
    not (signed_lt n start || signed_lt end n) && not (if old then is_add l else is_delete l)

unfoldable pub snippet_lines : (Line → Bool) → List Line → Bytes
unfolding marker
snippet_lines p [] = []
snippet_lines p (l ∷ ls) =
    (if p l then marker l.kind ++ (l.content ++ codes "\n") else []) ++ snippet_lines p ls

unfoldable pub snippet_hunks : (Line → Bool) → List Hunk → Bytes
unfolding snippet_lines
snippet_hunks p [] = []
snippet_hunks p (h ∷ hs) = snippet_lines p h.lines ++ snippet_hunks p hs

unfoldable pub snippet : File → Bytes → ℕ → ℕ → Bytes
unfolding snippet_hunks in_snippet trim_right eq_bytes
snippet f side start end =
    trim_right 10 (snippet_hunks (in_snippet (eq_bytes side (codes "old")) start end) f.hunks)
