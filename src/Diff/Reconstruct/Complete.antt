-- ===== src/Diff/Reconstruct/Complete.antt =====
-- Proofs about the flag that `Reconstruct` returns, and the numbers of the lines.
use mathlib.Core.Path.{ap₂, subst}
use sbnn.Diff.Body.Numbers.{AreNumbered, HasNumbers, after_new, after_old}
use sbnn.Diff.Finalize.{is_delete}
use sbnn.Diff.Reconstruct.{Written, signed_lt, write_hole, write_hunks, write_line, write_lines}
use sbnn.Model.{File, Hunk, Line, LineKind, add, context, delete, next_int}
use sbnn.Prelude.{
  All, Bool-cases, List, [], ap, arith, false, if◌then◌else◌, inl, inr, length, length-append, ltb,
  lt→ltb, refl, suc, sym, true, zero, ℕ, ◌%◌, ◌++◌, ◌+◌, ◌<◌, ◌^◌, ◌∙◌, ◌∷◌, ◌≡◌, ◌≤◌, ◌⊎◌,
}

-- The numbers of the lines of the new side.
abbrev pub new_numbers : List Line → List ℕ
new_numbers [] = []
new_numbers (l ∷ ls) = if is_delete l then new_numbers ls else l.new_number ∷ new_numbers ls

abbrev pub numbers_in : List Hunk → List ℕ
numbers_in [] = []
numbers_in (h ∷ hs) = new_numbers h.lines ++ numbers_in hs

abbrev pub count_from : ℕ → ℕ → List ℕ
count_from n zero = []
count_from n (suc k) = n ∷ count_from (suc n) k

-- The hunks with lines of the new side come in order, none of them before line `n`, and their numbers
-- are positive Go ints.
abbrev pub AreOrdered : ℕ → List Hunk → Type 0
AreOrdered n [] = Unit
AreOrdered n (h ∷ hs) =
    ((new_numbers h.lines ≡ []) × AreOrdered n hs)
    ⊎ ((n ≤ h.new_start)
        × (h.new_start + length (new_numbers h.lines) < 2 ^ 63)
        × AreOrdered (h.new_start + length (new_numbers h.lines)) hs)

-- The lines of the hunk have consecutive numbers on either side.
abbrev pub CountsLines : Hunk → Type 0
CountsLines h = AreNumbered h.old_start h.new_start h.lines

count_from-append : (n j k : ℕ) → count_from n j ++ count_from (n + j) k ≡ count_from n (j + k)
count_from-append n zero k =
    let e : n + 0 ≡ n = omega arith in let e' : 0 + k ≡ k = omega arith in rw (e, e') refl
count_from-append n (suc j) k =
    let e : n + suc j ≡ suc n + j = omega arith in
    let e' : suc j + k ≡ suc (j + k) = omega arith in
    rw (e, e') (ap (λ ns. n ∷ ns) (count_from-append (suc n) j k))

-- A line is on the old side only, or has the next number of the new side.
kind-sides :
    (o n : ℕ) (k : LineKind) (a b : ℕ)
    → HasNumbers o n k a b
    → ((elim k [ context ↦ false | add ↦ false | delete ↦ true ]) ≡ true × (after_new n k ≡ n))
      ⊎ ((elim k [ context ↦ false | add ↦ false | delete ↦ true ]) ≡ false
          × (after_new n k ≡ next_int n)
          × (b ≡ n))
kind-sides o n context a b h = inr (refl, refl, h.1)
kind-sides o n add a b h = inr (refl, refl, h.1)
kind-sides o n delete a b h = inl (refl, refl)

next_int-suc : (n : ℕ) → n < 2 ^ 63 → next_int n ≡ suc n
unfolding next_int
next_int-suc n h = omega (arith, h)

positive-signed : (n : ℕ) → 1 ≤ n → n < 2 ^ 63 → signed_lt 0 n ≡ true
positive-signed n h k =
    let e : (n + 2 ^ 63) % 2 ^ 64 ≡ n + 2 ^ 63 = omega (arith, k) in
    rw e (lt→ltb (2 ^ 63) (n + 2 ^ 63) (omega (arith, h)))

signed-not_below : (a b : ℕ) → a < 2 ^ 63 → b < 2 ^ 63 → signed_lt a b ≡ false → b ≤ a
signed-not_below a b h k no_less =
    let e : (a + 2 ^ 63) % 2 ^ 64 ≡ a + 2 ^ 63 = omega (arith, h) in
    let e' : (b + 2 ^ 63) % 2 ^ 64 ≡ b + 2 ^ 63 = omega (arith, k) in
    let no : ltb (a + 2 ^ 63) (b + 2 ^ 63) ≡ false = (rw (e, e') at no_less) in ground (arith, no)

-- The lines of a hunk that begins where the text ends.
write_lines-next :
    (o n : ℕ) (ls : List Line) (w : Written)
    → AreNumbered o n ls
    → 1 ≤ n
    → n + length (new_numbers ls) < 2 ^ 63
    → w.next ≡ n
    → ((write_lines ls w).next ≡ n + length (new_numbers ls))
      × (new_numbers ls ≡ count_from n (length (new_numbers ls)))
unfolding write_lines
write_lines-next o n [] w h le small at = (at ∙ omega arith, refl)
write_lines-next o n (l ∷ ls) w h le small at =
    elim (kind-sides o n l.kind l.old_number l.new_number h.0) [
      | inl (gone, same) ↦
          let gone' : is_delete l ≡ true = gone in
          let shorter : new_numbers (l ∷ ls) ≡ new_numbers ls = rw gone' refl in
          let kept_as_is : write_line l w ≡ w = unfold write_line in rw (write_line, gone') refl in
          let (next, counted) =
            write_lines-next (after_old o l.kind) n ls w
              (subst (λ (m : ℕ). AreNumbered (after_old o l.kind) m ls) same h.1) le
              (subst (λ (ns : List ℕ). n + length ns < 2 ^ 63) shorter small) at in
          (
            ap (λ (v : Written). (write_lines ls v).next) kept_as_is
                ∙ next
                ∙ ap (λ (ns : List ℕ). n + length ns) (sym shorter),
            shorter ∙ counted ∙ ap (λ (ns : List ℕ). count_from n (length ns)) (sym shorter),
          )
      | inr (kept, up, number) ↦
          let kept' : is_delete l ≡ false = kept in
          let whole : new_numbers (l ∷ ls) ≡ n ∷ new_numbers ls = rw (kept', number) refl in
          let small' : n + suc (length (new_numbers ls)) < 2 ^ 63 =
            subst (λ (ns : List ℕ). n + length ns < 2 ^ 63) whole small in
          let below : n < 2 ^ 63 = omega (arith, small') in
          let stepped : after_new n l.kind ≡ suc n = up ∙ next_int-suc n below in
          let moved : (write_line l w).next ≡ suc n =
            unfold write_line in
            rw (write_line, kept', number, positive-signed n le below) (next_int-suc n below) in
          let (next, counted) =
            write_lines-next (after_old o l.kind) (suc n) ls (write_line l w)
              (subst (λ (m : ℕ). AreNumbered (after_old o l.kind) m ls) stepped h.1) (omega arith)
              (omega (arith, small')) moved in
          let one_more : suc n + length (new_numbers ls) ≡ n + suc (length (new_numbers ls)) =
            omega arith in
          (
            next ∙ one_more ∙ ap (λ (ns : List ℕ). n + length ns) (sym whole),
            whole
                ∙ ap (λ (ns : List ℕ). n ∷ ns) counted
                ∙ ap (λ (ns : List ℕ). count_from n (length ns)) (sym whole),
          )
    ]

pub write_lines-complete_as_is :
    (ls : List Line) (w : Written) → (write_lines ls w).complete ≡ w.complete
unfolding write_lines write_line
write_lines-complete_as_is [] w = refl
write_lines-complete_as_is (l ∷ ls) w = elim (Bool-cases (is_delete l)) [
  | inl gone ↦ write_lines-complete_as_is ls (write_line l w) ∙ rw (write_line, gone) refl
  | inr kept ↦ write_lines-complete_as_is ls (write_line l w) ∙ rw (write_line, kept) refl
]

-- A hunk in front of which nothing is missing.
pub write_hole-complete :
    (f : File) (h : Hunk) (w : Written)
    → (write_hole f h w).complete ≡ true
    → (w.complete ≡ true) × (signed_lt w.next h.new_start ≡ false) × (write_hole f h w ≡ w)
unfolding write_hole
write_hole-complete f h w c = elim (Bool-cases (signed_lt w.next h.new_start)) [
  | inl ahead ↦ let bad : false ≡ true = (rw (write_hole, ahead) at c) in cc
  | inr on ↦
      let same : write_hole f h w ≡ w = rw (write_hole, on) refl in
      (ap (λ (v : Written). v.complete) (sym same) ∙ c, on, same)
]

pub write_hunks-complete :
    (f : File) (hs : List Hunk) (w : Written)
    → (write_hunks f hs w).complete ≡ true
    → w.complete ≡ true
unfolding write_hunks
write_hunks-complete f [] w c = c
write_hunks-complete f (h ∷ hs) w c =
    (write_hole-complete f h w (
      sym (write_lines-complete_as_is h.lines (write_hole f h w))
      ∙ write_hunks-complete f hs (write_lines h.lines (write_hole f h w)) c)).0

write_lines-no_numbers :
    (ls : List Line) (w : Written) → new_numbers ls ≡ [] → (write_lines ls w).next ≡ w.next
unfolding write_lines
write_lines-no_numbers [] w e = refl
write_lines-no_numbers (l ∷ ls) w e = elim (Bool-cases (is_delete l)) [
  | inl gone ↦
      let same : write_line l w ≡ w = unfold write_line in rw (write_line, gone) refl in
      ap (λ (v : Written). (write_lines ls v).next) same
      ∙ write_lines-no_numbers ls w (rw gone at e)
  | inr kept ↦ let bad : l.new_number ∷ new_numbers ls ≡ [] = (rw kept at e) in cc
]

pub write_hunks-numbers :
    (f : File) (n : ℕ) (hs : List Hunk) (w : Written)
    → All CountsLines hs
    → AreOrdered n hs
    → 1 ≤ n
    → n < 2 ^ 63
    → w.next ≡ n
    → (write_hunks f hs w).complete ≡ true
    → numbers_in hs ≡ count_from n (length (numbers_in hs))
unfolding write_hunks
write_hunks-numbers f n [] w numbered ordered le small at c = refl
write_hunks-numbers f n (h ∷ hs) w numbered ordered le small at c =
    let behind = write_lines h.lines (write_hole f h w) in
    let (_, on, same) = write_hole-complete f h w (
      sym (write_lines-complete_as_is h.lines (write_hole f h w))
      ∙ write_hunks-complete f hs behind c) in
    let at' : (write_hole f h w).next ≡ n = ap (λ (v : Written). v.next) same ∙ at in
    elim ordered [
      | inl (no_lines, rest) ↦
          let still : behind.next ≡ n =
            write_lines-no_numbers h.lines (write_hole f h w) no_lines ∙ at' in
          let tail = write_hunks-numbers f n hs behind numbered.1 rest le small still c in
          let whole : numbers_in (h ∷ hs) ≡ numbers_in hs = rw no_lines refl in
          whole ∙ tail ∙ ap (λ (ns : List ℕ). count_from n (length ns)) (sym whole)
      | inr (from_n, fit, rest) ↦
          let k = length (new_numbers h.lines) in
          let not_behind : h.new_start ≤ n =
            signed-not_below n h.new_start small (omega (arith, fit))
              (subst (λ (m : ℕ). signed_lt m h.new_start ≡ false) at on) in
          let start : h.new_start ≡ n = omega (arith, from_n, not_behind) in
          let fit' : n + k < 2 ^ 63 = subst (λ (m : ℕ). m + k < 2 ^ 63) start fit in
          let (next, counted) =
            write_lines-next h.old_start n h.lines (write_hole f h w)
              (subst (λ (m : ℕ). AreNumbered h.old_start m h.lines) start numbered.0) le fit' at' in
          let tail =
            write_hunks-numbers f (n + k) hs behind numbered.1
              (subst (λ (m : ℕ). AreOrdered (m + k) hs) start rest) (omega (arith, le)) fit' next
              c in
          ap₂ (λ (ns ms : List ℕ). ns ++ ms) counted tail
          ∙ count_from-append n k (length (numbers_in hs))
          ∙ ap (count_from n) (sym (length-append (new_numbers h.lines) (numbers_in hs)))
    ]
