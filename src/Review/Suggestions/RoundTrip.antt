-- ===== src/Review/Suggestions/RoundTrip.antt =====
-- Proofs about `WithSuggestion` and `Suggestions`: what is written into a comment and read back.
use mathlib.Core.Path.{ap₂, subst}
use sbnn.Prelude.{
  Bytes, List, [], any, ap, append-nil, append_assoc, arith, false, length, refl, suc, sym, true,
  zero, ℕ, ◌++◌, ◌-◌, ◌==◌, ◌∙◌, ◌∷◌, ◌≡◌, ◌≤◌,
}
use sbnn.Review.Fences.{fence_run, open_fence}
use sbnn.Review.Suggestions.{
  dangling_fence, fence_around, suggestion_lines, suggestions, suggestions_from, with_suggestion,
}
use sbnn.Review.Suggestions.Blocks.{suggestions_from-append}
use sbnn.Review.Suggestions.Ticks.{ticks}
use sbnn.Review.Suggestions.Written.{long_fence-ticks, suggestions_from-written}
use sbnn.Session.Log.{blank}
use sbnn.Text.{codes, is_empty}
use sbnn.Text.Affix.{trim_right, trim_space}
use sbnn.Text.Occurs.{split-append, split-one}
use sbnn.Text.Split.{contains, split}
use sbnn.Text.Trimmed.{has_cr}

ticks-one_line : (n : ℕ) (s : Bytes) → any (λ c. c == 10) (ticks n ++ s) ≡ any (λ c. c == 10) s
ticks-one_line zero s = refl
ticks-one_line (suc n) s = ticks-one_line n s

module _ (k : ℕ) (text : Bytes) where
  split-suggestion_lines :
      split 10 (suggestion_lines (ticks (suc k)) text)
      ≡ (ticks (suc k) ++ codes "suggestion") ∷ split 10 text ++ ticks (suc k) ∷ []
  split-suggestion_lines =
      let opener : Bytes = ticks (suc k) ++ codes "suggestion" in
      let front : ticks (suc k) ++ codes "suggestion\n" ++ text ≡ opener ++ 10 ∷ text =
        simp append_assoc in
      split-append 10 (ticks (suc k) ++ codes "suggestion\n" ++ text) (ticks (suc k))
      ∙ ap (λ (t : Bytes). split 10 t ++ split 10 (ticks (suc k))) front
      ∙ ap (λ (ls : List Bytes). ls ++ split 10 (ticks (suc k))) (split-append 10 opener text)
      ∙ ap₂ (λ (xs ys : List Bytes). xs ++ split 10 text ++ ys)
          (split-one opener (ticks-one_line (suc k) (codes "suggestion")))
          (split-one (ticks (suc k)) (
            ap (any (λ c. c == 10)) (sym (append-nil (ticks (suc k)))) ∙ ticks-one_line (suc k) []))

fence_around-ticks :
    (text : Bytes)
    → (k : ℕ) × (fence_around text ≡ ticks (suc k))
      × (3 ≤ suc k)
      × (contains text (ticks (suc k)) ≡ false)
fence_around-ticks text =
    let (m, e, le, free) = long_fence-ticks (length text) 3 text (omega arith) in
    let same : m ≡ suc (m - 1) = omega arith in
    (
      m - 1,
      e ∙ ap ticks same,
      omega arith,
      ap (λ (j : ℕ). contains text (ticks j)) (sym same) ∙ free,
    )

first_empty : (s : Bytes) → split 10 (10 ∷ s) ≡ [] ∷ split 10 s
unfolding split
first_empty s = refl

-- An empty line opens no fence.
skip_empty :
    (ls : List Bytes)
    → suggestions_from (length ([] ∷ ls)) ([] ∷ ls) ≡ suggestions_from (length ls) ls
unfolding suggestions_from open_fence fence_run
skip_empty ls = refl

-- The scan of what is written.
scan_written :
    (text : Bytes) (fuel : ℕ)
    → has_cr text ≡ false
    → length (split 10 (suggestion_lines (fence_around text) text)) ≤ fuel
    → suggestions_from fuel (split 10 (suggestion_lines (fence_around text) text)) ≡ text ∷ []
scan_written text fuel no_cr enough =
    let (k, e, long, free) = fence_around-ticks text in
    let lines : split 10 (suggestion_lines (fence_around text) text)
        ≡ (ticks (suc k) ++ codes "suggestion") ∷ split 10 text ++ ticks (suc k) ∷ [] =
      ap (λ (f : Bytes). split 10 (suggestion_lines f text)) e ∙ split-suggestion_lines k text in
    ap (suggestions_from fuel) lines
    ∙ suggestions_from-written k long text free fuel
        (subst (λ (ls : List Bytes). length ls ≤ fuel) lines enough) no_cr

module _ (suggestion : Bytes) (says : is_empty (trim_space (trim_right 10 suggestion)) ≡ false)
    (no_cr : has_cr (trim_right 10 suggestion) ≡ false) where
  -- On a comment that says nothing else, `Suggestions` reads back exactly the replacement that
  -- `WithSuggestion` was given, less the newlines at its end, whatever fences and lines the replacement
  -- holds, as long as it is not blank and holds no carriage return.
  pub suggestions-with_suggestion_blank :
      (body : Bytes)
      → is_empty (trim_space body) ≡ true
      → suggestions (with_suggestion body suggestion) ≡ trim_right 10 suggestion ∷ []
  unfolding suggestions
  suggestions-with_suggestion_blank body blank =
      let text = trim_right 10 suggestion in
      let lines = suggestion_lines (fence_around text) text in
      let value : with_suggestion body suggestion ≡ lines =
        unfold with_suggestion in rw (says, blank) refl in
      ap (λ (t : Bytes). suggestions_from (length (split 10 t)) (split 10 t)) value
      ∙ scan_written text (length (split 10 lines)) no_cr (omega arith)

  -- On a comment that says something and leaves no fenced block open, `Suggestions` reads what it read
  -- before and then exactly the replacement that `WithSuggestion` was given, less the newlines at its
  -- end, as long as the replacement is not blank and holds no carriage return.
  pub suggestions-with_suggestion :
      (body : Bytes)
      → is_empty (trim_space body) ≡ false
      → dangling_fence (trim_right 10 body) ≡ []
      → suggestions (with_suggestion body suggestion)
        ≡ suggestions (trim_right 10 body) ++ trim_right 10 suggestion ∷ []
  unfolding suggestions dangling_fence
  suggestions-with_suggestion body talks closed =
      let text = trim_right 10 suggestion in
      let before = trim_right 10 body in
      let lines = suggestion_lines (fence_around text) text in
      let value : with_suggestion body suggestion ≡ before ++ 10 ∷ 10 ∷ lines =
        unfold with_suggestion in rw (says, talks, closed) refl in
      let more = [] ∷ split 10 lines in
      let all : split 10 (before ++ 10 ∷ 10 ∷ lines) ≡ split 10 before ++ more =
        split-append 10 before (10 ∷ lines)
        ∙ ap (λ (ls : List Bytes). split 10 before ++ ls) (first_empty lines) in
      ap (λ (t : Bytes). suggestions_from (length (split 10 t)) (split 10 t)) value
      ∙ ap (λ (ls : List Bytes). suggestions_from (length ls) ls) all
      ∙ suggestions_from-append (length (split 10 before)) (length (split 10 before ++ more))
          (split 10 before) more (omega arith) closed (omega arith)
      ∙ ap
          (λ (xs : List Bytes). suggestions_from (length (split 10 before)) (split 10 before) ++ xs)
          (skip_empty (split 10 lines)
            ∙ scan_written text (length (split 10 lines)) no_cr (omega arith))
