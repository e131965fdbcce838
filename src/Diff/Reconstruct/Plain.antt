-- ===== src/Diff/Reconstruct/Plain.antt =====
-- Proofs about `Reconstruct` on files that get no marks.
use sbnn.Diff.Finalize.{is_delete}
use sbnn.Diff.Reconstruct.{
  Written, reconstruct, signed_lt, write_gap, write_hole, write_hunks, write_line, write_lines,
}
use sbnn.Model.{File, Hunk, Line}
use sbnn.Prelude.{
  Bool-cases, Bytes, List, [], ap, append-nil, append_assoc, if◌then◌else◌, inl, inr, not, refl,
  sym, true, ◌++◌, ◌||◌, ◌∙◌, ◌∷◌, ◌≡◌,
}
use sbnn.Session.Titles.{plain}
use sbnn.Text.{codes}

abbrev pub shown_in : List Line → Bytes
shown_in [] = []
shown_in (l ∷ ls) = if is_delete l then shown_in ls else l.content ++ codes "\n" ++ shown_in ls

-- The lines of the new side, each with its newline.
abbrev pub shown_by : List Hunk → Bytes
shown_by [] = []
shown_by (h ∷ hs) = shown_in h.lines ++ shown_by hs

-- What a line adds to the text.
abbrev added_by : Line → Bytes
added_by l = if is_delete l then [] else l.content ++ codes "\n"

shown_in-first : (l : Line) (ls : List Line) → shown_in (l ∷ ls) ≡ added_by l ++ shown_in ls
shown_in-first l ls = elim (Bool-cases (is_delete l)) [
  | inl gone ↦ rw gone refl
  | inr kept ↦ rw kept refl
]

write_line-text : (l : Line) (w : Written) → (write_line l w).text ≡ w.text ++ added_by l
unfolding write_line
write_line-text l w = elim (Bool-cases (is_delete l)) [
  | inl gone ↦ rw (write_line, gone) (sym (append-nil w.text))
  | inr kept ↦ rw (write_line, kept) refl
]

pub write_lines-text :
    (ls : List Line) (w : Written) → (write_lines ls w).text ≡ w.text ++ shown_in ls
unfolding write_lines
write_lines-text [] w = sym (append-nil w.text)
write_lines-text (l ∷ ls) w =
    write_lines-text ls (write_line l w)
    ∙ ap (λ (t : Bytes). t ++ shown_in ls) (write_line-text l w)
    ∙ append_assoc w.text (added_by l) (shown_in ls)
    ∙ ap (λ (t : Bytes). w.text ++ t) (sym (shown_in-first l ls))

write_hole-text :
    (f : File) (h : Hunk) (w : Written)
    → (not f.is_markdown || f.is_notebook) ≡ true
    → (write_hole f h w).text ≡ w.text
unfolding write_hole write_gap
write_hole-text f h w plain = elim (Bool-cases (signed_lt w.next h.new_start)) [
  | inl ahead ↦ rw (write_hole, ahead, write_gap, plain) (append-nil w.text)
  | inr on ↦ rw (write_hole, on) refl
]

write_hunks-text :
    (f : File) (hs : List Hunk) (w : Written)
    → (not f.is_markdown || f.is_notebook) ≡ true
    → (write_hunks f hs w).text ≡ w.text ++ shown_by hs
unfolding write_hunks
write_hunks-text f [] w plain = sym (append-nil w.text)
write_hunks-text f (h ∷ hs) w plain =
    write_hunks-text f hs (write_lines h.lines (write_hole f h w)) plain
    ∙ ap (λ (t : Bytes). t ++ shown_by hs)
        (write_lines-text h.lines (write_hole f h w)
          ∙ ap (λ (t : Bytes). t ++ shown_in h.lines) (write_hole-text f h w plain))
    ∙ append_assoc w.text (shown_in h.lines) (shown_by hs)

-- Nothing is made up in a file that is not Markdown, or is a notebook: what is reconstructed are the
-- lines of the new side in their order, and nothing else.
pub reconstruct-shown :
    (f : File) → (not f.is_markdown || f.is_notebook) ≡ true → (reconstruct f).0 ≡ shown_by f.hunks
unfolding reconstruct
reconstruct-shown f plain = write_hunks-text f f.hunks _ plain
