-- ===== src/Diff/Generated/Top.antt =====
-- Proofs about `GeneratedMarker` and `VisibleTop`: the top of a file is all that is looked at.
use mathlib.Core.Path.{ap₂}
use mathlib.Core.Option.{some-injective}
use sbnn.Diff.Finalize.{is_delete}
use sbnn.Diff.Generated.{generated_marker, generated_top, marker_in, new_side, split_n, visible_top}
use sbnn.Diff.NewSide.{kind-delete, lines_onto, new_contents, on_new_side}
use sbnn.Model.{File, Hunk, Line}
use sbnn.Prelude.{
  All, Bool, Bool-cases, Bytes, List, Option-cases, [], any, ap, arith, false, inl, inr, length,
  none, not, refl, some, suc, sym, take, zero, ℕ, ◌++◌, ◌==◌, ◌∙◌, ◌∷◌, ◌≡◌, ◌≤◌,
}
use sbnn.Text.Affix.{after_prefix}
use sbnn.Text.Occurs.{split-append, split-one}
use sbnn.Text.Split.{cut, join, split}

cut-none : (b : ℕ) (s : Bytes) → cut (b ∷ []) s ≡ none → split b s ≡ s ∷ []
unfolding cut split after_prefix
cut-none b [] h = refl
cut-none b (c ∷ s) h = elim (Bool-cases (c == b)) [
  | inl same ↦ let bad : some ([], s) ≡ none = (rw (same, cut) at h) in cc
  | inr other ↦ elim (Option-cases (cut (b ∷ []) s)) [
    | inl nowhere ↦ rw (other, cut-none b s nowhere) refl
    | inr (p, found) ↦ let bad : some (c ∷ p.0, p.1) ≡ none = (rw (other, found, cut) at h) in cc
  ]
]

cut-some :
    (b : ℕ) (s before after : Bytes)
    → cut (b ∷ []) s ≡ some (before, after)
    → split b s ≡ before ∷ split b after
unfolding cut split after_prefix
cut-some b [] before after h = cc
cut-some b (c ∷ s) before after h = elim (Bool-cases (c == b)) [
  | inl same ↦
      let e : ([], s) ≡ (before, after) = some-injective _ _ (rw (same, cut) at h) in
      rw same (ap (λ (q : Bytes × Bytes). q.0 ∷ split b q.1) e)
  | inr other ↦ elim (Option-cases (cut (b ∷ []) s)) [
    | inl nowhere ↦ let bad : none ≡ some (before, after) = (rw (other, nowhere, cut) at h) in cc
    | inr (p, found) ↦
        let e : (c ∷ p.0, p.1) ≡ (before, after) =
          some-injective _ _ (rw (other, found, cut) at h) in
        rw (other, cut-some b s p.0 p.1 found) (ap (λ (q : Bytes × Bytes). q.0 ∷ split b q.1) e)
  ]
]

abbrev pub IsLine : Bytes → Type 0
IsLine l = any (λ c. c == 10) l ≡ false

new_side-take : (n : ℕ) (ls : List Line) → new_side n ls ≡ take n (new_contents ls)
unfolding new_side
new_side-take zero ls = refl
new_side-take (suc n) [] = refl
new_side-take (suc n) (l ∷ ls) =
    let side : on_new_side l.kind ≡ not (is_delete l) = kind-delete l.kind in
    elim (Bool-cases (is_delete l)) [
      | inl gone ↦ rw (side, gone) (new_side-take (suc n) ls)
      | inr kept ↦ rw (side, kept) (ap (λ (ms : List Bytes). l.content ∷ ms) (new_side-take n ls))
    ]

split-lines_onto :
    (ls : List Bytes) (s : Bytes) → All IsLine ls → split 10 (lines_onto ls s) ≡ ls ++ split 10 s
split-lines_onto [] s h = refl
split-lines_onto (l ∷ ls) s h =
    split-append 10 l (lines_onto ls s)
    ∙ ap₂ (λ (xs ys : List Bytes). xs ++ ys) (split-one l h.0) (split-lines_onto ls s h.1)

All-take : (n : ℕ) (ls : List Bytes) → All IsLine ls → All IsLine (take n ls)
All-take zero ls h = tt
All-take (suc n) [] h = tt
All-take (suc n) (l ∷ ls) h = (h.0, All-take n ls h.1)

positive-take : (ls : List Bytes) → generated_top ≤ length ls → 1 ≤ length (take generated_top ls)
positive-take [] h = omega (arith, h)
positive-take (l ∷ ls) h = omega arith

module _ (is_marked : Bytes → Bool) where
  marker_in-split_n :
      (n : ℕ) (s : Bytes)
      → marker_in is_marked n (split_n 10 (suc n) s) ≡ marker_in is_marked n (split 10 s)
  unfolding marker_in split_n
  marker_in-split_n zero s = refl
  marker_in-split_n (suc n) s = elim (Option-cases (cut (10 ∷ []) s)) [
    | inl nowhere ↦ rw (split_n, nowhere, cut-none 10 s nowhere) refl
    | inr ((before, after), found) ↦
        rw (split_n, found, cut-some 10 s before after found, marker_in-split_n n after) refl
  ]

  generated_marker-eq :
      (s : Bytes) → generated_marker is_marked s ≡ marker_in is_marked generated_top (split 10 s)
  unfolding generated_marker
  generated_marker-eq s = marker_in-split_n generated_top s

  split-join :
      (l : Bytes) (ls : List Bytes) → All IsLine (l ∷ ls) → split 10 (join 10 (l ∷ ls)) ≡ l ∷ ls
  unfolding join
  split-join l [] h = split-one l h.0
  split-join l (m ∷ ls) h =
      split-append 10 l (join 10 (m ∷ ls))
      ∙ ap₂ (λ (xs ys : List Bytes). xs ++ ys) (split-one l h.0) (split-join m ls h.1)

  split-joined : (ls : List Bytes) → 1 ≤ length ls → All IsLine ls → split 10 (join 10 ls) ≡ ls
  split-joined [] n h = absurd (omega (arith, n))
  split-joined (l ∷ ls) n h = split-join l ls h

  marker_in-more :
      (n : ℕ) (ls ms : List Bytes)
      → n ≤ length ls
      → marker_in is_marked n (ls ++ ms) ≡ marker_in is_marked n (take n ls)
  unfolding marker_in
  marker_in-more zero ls ms h = refl
  marker_in-more (suc n) [] ms h = absurd (omega (arith, h))
  marker_in-more (suc n) (l ∷ ls) ms h = rw (marker_in-more n ls ms (omega (arith, h))) refl

  -- The top of a file that a diff shows is as good as the file: where the first hunk begins at line
  -- 1, has as many context and added lines as are looked at, and none of these holds a newline, the
  -- file that begins with its context and added lines, each with a newline, and goes on in whatever
  -- way declares itself generated by the same line as the text that `VisibleTop` returns.
  pub generated_marker-visible_top :
      (f : File) (h : Hunk) (hs : List Hunk) (s : Bytes)
      → f.hunks ≡ h ∷ hs
      → h.new_start ≡ 1
      → generated_top ≤ length (new_contents h.lines)
      → All IsLine (new_contents h.lines)
      → generated_marker is_marked (lines_onto (new_contents h.lines) s)
        ≡ generated_marker is_marked (visible_top f)
  unfolding visible_top
  generated_marker-visible_top f h hs s first at_1 full lines =
      let ls = new_contents h.lines in
      let top = take generated_top ls in
      let of_file : generated_marker is_marked (lines_onto ls s)
          ≡ marker_in is_marked generated_top top =
        generated_marker-eq (lines_onto ls s)
        ∙ ap (marker_in is_marked generated_top) (split-lines_onto ls s lines)
        ∙ marker_in-more generated_top ls (split 10 s) full in
      let shown : visible_top f ≡ join 10 top =
        rw (first, at_1, new_side-take generated_top h.lines) refl in
      let of_top : generated_marker is_marked (join 10 top)
          ≡ marker_in is_marked generated_top top =
        generated_marker-eq (join 10 top)
        ∙ ap (marker_in is_marked generated_top)
            (split-joined top (positive-take ls full) (All-take generated_top ls lines)) in
      of_file ∙ sym of_top ∙ ap (generated_marker is_marked) (sym shown)
