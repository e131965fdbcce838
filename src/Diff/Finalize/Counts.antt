-- ===== src/Diff/Finalize/Counts.antt =====
-- Proofs about `finalize`: its counts of added and deleted lines.
use mathlib.Core.Path.{ap₂, Path}
use sbnn.Diff.Finalize.{count_hunks, count_lines, finalize, is_add, is_delete, name_if_unnamed}
use sbnn.Diff.Platform.{Platform}
use sbnn.Model.{File, Hunk, Line}
use sbnn.Prelude.{
  Bool, Bool-cases, List, [], ap, arith, if◌then◌else◌, inl, inr, keep, length, length-append, refl,
  ℕ, ◌++◌, ◌+◌, ◌∙◌, ◌∷◌, ◌≡◌,
}

abbrev pub lines_of : List Hunk → List Line
lines_of [] = []
lines_of (h ∷ hs) = h.lines ++ lines_of hs

keep-append {ℓ} :
    {A : Type ℓ} (p : A → Bool) (xs ys : List A) → keep p (xs ++ ys) ≡ keep p xs ++ keep p ys
keep-append p [] ys = refl
keep-append p (x ∷ xs) ys = elim (Bool-cases (p x)) [
  | inl stays ↦ rw stays (ap (◌∷◌ x) (keep-append p xs ys))
  | inr goes ↦ rw goes (keep-append p xs ys)
]

both_counts : {a b c d : ℕ} → a ≡ b → c ≡ d → Path (ℕ × ℕ) (a, c) (b, d)
both_counts e k = ap₂ (λ x y. (x, y)) e k

count_lines-eq :
    (a d : ℕ) (ls : List Line)
    → count_lines (a, d) ls ≡ (a + length (keep is_add ls), d + length (keep is_delete ls))
unfolding count_lines
count_lines-eq a d [] = both_counts (omega arith) (omega arith)
count_lines-eq a d (l ∷ ls) =
    count_lines-eq (if is_add l then a + 1 else a) (if is_delete l then d + 1 else d) ls
    ∙ both_counts (step is_add a) (step is_delete d)
  where
    step :
        (p : Line → Bool) (n : ℕ)
        → (if p l then n + 1 else n) + length (keep p ls) ≡ n + length (keep p (l ∷ ls))
    step p n = elim (Bool-cases (p l)) [
      | inl counted ↦ rw counted (omega arith)
      | inr other ↦ rw other refl
    ]

count_hunks-eq :
    (a d : ℕ) (hs : List Hunk)
    → count_hunks (a, d) hs
      ≡ (a + length (keep is_add (lines_of hs)), d + length (keep is_delete (lines_of hs)))
unfolding count_hunks
count_hunks-eq a d [] = both_counts (omega arith) (omega arith)
count_hunks-eq a d (h ∷ hs) = rw (count_lines-eq a d h.lines) (
    count_hunks-eq (a + length (keep is_add h.lines)) (d + length (keep is_delete h.lines)) hs
    ∙ both_counts (total is_add a) (total is_delete d))
  where
    total :
        (p : Line → Bool) (n : ℕ)
        → n + length (keep p h.lines) + length (keep p (lines_of hs))
          ≡ n + length (keep p (h.lines ++ lines_of hs))
    total p n = omega (
      arith,
      ap length (keep-append p h.lines (lines_of hs)),
      length-append (keep p h.lines) (keep p (lines_of hs)),
    )

name_if_unnamed-counts :
    (f : File)
    → ((name_if_unnamed f).additions ≡ f.additions) × ((name_if_unnamed f).deletions ≡ f.deletions)
unfolding name_if_unnamed
name_if_unnamed-counts f = (ground arith, ground arith)

-- For every file, `finalize` adds to its count of additions the number of lines that its hunks add,
-- and to its count of deletions the number of lines that they delete.
pub finalize-counts :
    (known : Platform) (f : File) (i : ℕ)
    → ((finalize known f i).additions ≡ f.additions + length (keep is_add (lines_of f.hunks)))
      × ((finalize known f i).deletions ≡ f.deletions + length (keep is_delete (lines_of f.hunks)))
unfolding finalize
finalize-counts known f i =
    let counts = count_hunks-eq f.additions f.deletions f.hunks in
    (
      (name_if_unnamed-counts _).0 ∙ ap (λ (n : ℕ × ℕ). n.0) counts,
      (name_if_unnamed-counts _).1 ∙ ap (λ (n : ℕ × ℕ). n.1) counts,
    )
