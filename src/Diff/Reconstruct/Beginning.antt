-- ===== src/Diff/Reconstruct/Beginning.antt =====
-- Proofs about the text of a complete reconstruction.
use mathlib.Core.Path.{ap₂}
use mathlib.Core.Option.{some-injective}
use sbnn.Diff.Finalize.{is_delete}
use sbnn.Diff.NewSide.{kind-delete, lines_onto, new_contents, on_new_side}
use sbnn.Diff.Reconstruct.{Written, is_added, reconstruct, write_hole, write_hunks, write_lines}
use sbnn.Diff.Reconstruct.Complete.{
  AreOrdered, CountsLines, count_from, new_numbers, numbers_in, write_hole-complete,
  write_hunks-complete, write_hunks-numbers, write_lines-complete_as_is,
}
use sbnn.Diff.Reconstruct.Plain.{shown_in, write_lines-text}
use sbnn.Model.{File, Hunk, Line}
use sbnn.Prelude.{
  All, Bool-cases, Bytes, List, Option, [], ap, append-nil, append_assoc, arith, drop, false, inl,
  inr, length, length-map, map, map-append, none, not, refl, some, suc, sym, take, true, zero, ℕ,
  ◌++◌, ◌∙◌, ◌∷◌, ◌≡◌, ◌⊎◌,
}
use sbnn.Session.Threaded.{absent}
use sbnn.Text.{codes}

-- The lines of the new side of all hunks.
abbrev pub contents_by : List Hunk → List Bytes
contents_by [] = []
contents_by (h ∷ hs) = new_contents h.lines ++ contents_by hs

shown_in-lines : (ls : List Line) (s : Bytes) → shown_in ls ++ s ≡ lines_onto (new_contents ls) s
shown_in-lines [] s = refl
shown_in-lines (l ∷ ls) s =
    let side : on_new_side l.kind ≡ not (is_delete l) = kind-delete l.kind in
    elim (Bool-cases (is_delete l)) [
      | inl gone ↦ rw (side, gone) (shown_in-lines ls s)
      | inr kept ↦
          rw (side, kept)
            (append_assoc (l.content ++ codes "\n") (shown_in ls) s
              ∙ append_assoc l.content (codes "\n") (shown_in ls ++ s)
              ∙ ap (λ (t : Bytes). l.content ++ 10 ∷ t) (shown_in-lines ls s))
    ]

lines_onto-append :
    (ls ms : List Bytes) (s : Bytes) → lines_onto (ls ++ ms) s ≡ lines_onto ls (lines_onto ms s)
lines_onto-append [] ms s = refl
lines_onto-append (l ∷ ls) ms s = ap (λ (t : Bytes). l ++ 10 ∷ t) (lines_onto-append ls ms s)

-- Where nothing is missing, what is written are the lines of the new side.
write_hunks-lines :
    (f : File) (hs : List Hunk) (w : Written)
    → (write_hunks f hs w).complete ≡ true
    → (write_hunks f hs w).text ≡ w.text ++ lines_onto (contents_by hs) []
unfolding write_hunks
write_hunks-lines f [] w c = sym (append-nil w.text)
write_hunks-lines f (h ∷ hs) w c =
    let behind = write_lines h.lines (write_hole f h w) in
    let (_, on, same) = write_hole-complete f h w (
      sym (write_lines-complete_as_is h.lines (write_hole f h w))
      ∙ write_hunks-complete f hs behind c) in
    let rest = lines_onto (contents_by hs) [] in
    write_hunks-lines f hs behind c
    ∙ ap (λ (t : Bytes). t ++ rest)
        (write_lines-text h.lines (write_hole f h w)
          ∙ ap (λ (v : Written). v.text ++ shown_in h.lines) same)
    ∙ append_assoc w.text (shown_in h.lines) rest
    ∙ ap (λ (t : Bytes). w.text ++ t)
        (shown_in-lines h.lines rest
          ∙ sym (lines_onto-append (new_contents h.lines) (contents_by hs) []))

abbrev pub nth : ℕ → List Bytes → Option Bytes
nth n [] = none
nth zero (l ∷ ls) = some l
nth (suc n) (l ∷ ls) = nth n ls

-- The line of this number, counted from 1.
abbrev pub line_at : List Bytes → ℕ → Option Bytes
line_at file zero = none
line_at file (suc n) = nth n file

-- A line of the old side alone, or one that the file has under the number.
abbrev pub IsLineOf : List Bytes → Line → Type 0
IsLineOf file l = (on_new_side l.kind ≡ false) ⊎ (line_at file l.new_number ≡ some l.content)

-- The hunks are about this file: their context and added lines stand in it where they are numbered.
abbrev pub Describe : List Bytes → List Hunk → Type 0
Describe file [] = Unit
Describe file (h ∷ hs) = All (IsLineOf file) h.lines × Describe file hs

module _ (file : List Bytes) where
  lines_at :
      (ls : List Line)
      → All (IsLineOf file) ls
      → map (line_at file) (new_numbers ls) ≡ map some (new_contents ls)
  lines_at [] h = refl
  lines_at (l ∷ ls) h =
      let side : on_new_side l.kind ≡ not (is_delete l) = kind-delete l.kind in
      elim (Bool-cases (is_delete l)) [
        | inl gone ↦ rw (side, gone) (lines_at ls h.1)
        | inr kept ↦
            let here : on_new_side l.kind ≡ true = side ∙ ap not kept in
            elim h.0 [
              | inl absent ↦ let bad : true ≡ false = sym here ∙ absent in cc
              | inr found ↦
                  rw (side, kept)
                    (ap₂ (λ (o : Option Bytes) (os : List (Option Bytes)). o ∷ os) found
                      (lines_at ls h.1))
            ]
      ]

  hunks_at :
      (hs : List Hunk)
      → Describe file hs
      → map (line_at file) (numbers_in hs) ≡ map some (contents_by hs)
  hunks_at [] h = refl
  hunks_at (g ∷ hs) h =
      map-append (line_at file) (new_numbers g.lines) (numbers_in hs)
      ∙ ap₂ (λ (xs ys : List (Option Bytes)). xs ++ ys) (lines_at g.lines h.0) (hunks_at hs h.1)
      ∙ sym (map-append some (new_contents g.lines) (contents_by hs))

nth-drop :
    (n : ℕ) (file : List Bytes) {l : Bytes}
    → nth n file ≡ some l
    → drop n file ≡ l ∷ drop (suc n) file
nth-drop zero [] e = cc
nth-drop (suc n) [] e = cc
nth-drop zero (m ∷ file) e = ap (λ (k : Bytes). k ∷ file) (some-injective _ _ e)
nth-drop (suc n) (m ∷ file) e = nth-drop n file e

abbrev first_of : List (Option Bytes) → Option Bytes
first_of [] = none
first_of (o ∷ os) = o

abbrev rest_of : List (Option Bytes) → List (Option Bytes)
rest_of [] = []
rest_of (o ∷ os) = os

counted_lines :
    (n k : ℕ) (file xs : List Bytes)
    → map (line_at file) (count_from (suc n) k) ≡ map some xs
    → xs ≡ take k (drop n file)
counted_lines n zero file [] e = refl
counted_lines n zero file (x ∷ xs) e = cc
counted_lines n (suc k) file [] e = cc
counted_lines n (suc k) file (x ∷ xs) e =
    rw (nth-drop n file (ap first_of e))
      (ap (λ (ls : List Bytes). x ∷ ls) (counted_lines (suc n) k file xs (ap rest_of e)))

-- What is complete is the file, from its first line on: where the context and added lines of the hunks
-- stand in the file under their numbers, the lines of each hunk are numbered consecutively on either
-- side, the hunks with lines of the new side come in order, and the file is not an added one, the text
-- of a reconstruction that is called complete are the first lines of the file, as many as the hunks
-- have on the new side, each with its newline.
pub reconstruct-lines_onto :
    (f : File) (file : List Bytes)
    → Describe file f.hunks
    → All CountsLines f.hunks
    → AreOrdered 1 f.hunks
    → is_added f.status ≡ false
    → (reconstruct f).1 ≡ true
    → (reconstruct f).0 ≡ lines_onto (take (length (contents_by f.hunks)) file) []
unfolding reconstruct
reconstruct-lines_onto f file about numbered ordered other c =
    let hs = f.hunks in
    let start : Written = record { text = []; complete = true; next = 1; fence = none } in
    let whole : (write_hunks f hs start).complete ≡ true = ground (arith, other, c) in
    let numbers : numbers_in hs ≡ count_from 1 (length (numbers_in hs)) =
      write_hunks-numbers f 1 hs start numbered ordered (omega arith) (omega arith) refl whole in
    let at = hunks_at file hs about in
    let as_many : length (numbers_in hs) ≡ length (contents_by hs) =
      sym (length-map (line_at file) (numbers_in hs))
      ∙ ap (λ (os : List (Option Bytes)). length os) at
      ∙ length-map some (contents_by hs) in
    let begun : contents_by hs ≡ take (length (numbers_in hs)) file =
      counted_lines 0 (length (numbers_in hs)) file (contents_by hs)
        (ap (map (line_at file)) (sym numbers) ∙ at) in
    write_hunks-lines f hs start whole
    ∙ ap (λ (ls : List Bytes). lines_onto ls []) (begun ∙ ap (λ (n : ℕ). take n file) as_many)
