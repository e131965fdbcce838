-- ===== src/Review/Suggestions/Opened.antt =====
-- The lines that `WithSuggestion` writes, as the fences that they are read as.
use mathlib.Core.List.{reverse-append, reverse-cons}
use sbnn.Prelude.{
  Bytes, [], ap, append-nil, arith, false, length, ltb, refl, reverse, some, suc, sym, true, zero,
  ℕ, ◌++◌, ◌∙◌, ◌∷◌, ◌≡◌, ◌≤◌,
}
use sbnn.Review.Fences.{
  backtick, closes_fence, fence_run, fence_run_of, folds_to, open_fence, run_of, suggestion_fence,
}
use sbnn.Review.Suggestions.Ticks.{length-ticks, ticks}
use sbnn.Text.{codes}
use sbnn.Text.Affix.{trim_space, trim_suffix}
use sbnn.Text.Trimmed.{IsVisible, has_cr, trim_space-visible, trim_suffix-no_cr}

ticks-snoc : (n : ℕ) → ticks n ++ backtick ∷ [] ≡ ticks (suc n)
ticks-snoc zero = refl
ticks-snoc (suc n) = ap (λ (t : Bytes). backtick ∷ t) (ticks-snoc n)

reverse-ticks : (n : ℕ) → reverse (ticks n) ≡ ticks n
reverse-ticks zero = refl
reverse-ticks (suc n) =
    reverse-cons backtick (ticks n)
    ∙ ap (λ (t : Bytes). t ++ backtick ∷ []) (reverse-ticks n)
    ∙ ticks-snoc n

has_cr-ticks : (n : ℕ) (s : Bytes) → has_cr (ticks n ++ s) ≡ has_cr s
has_cr-ticks zero s = refl
has_cr-ticks (suc n) s = has_cr-ticks n s

run_of-ticks : (n : ℕ) → run_of backtick (ticks n) ≡ (ticks n, [])
unfolding run_of
run_of-ticks zero = refl
run_of-ticks (suc n) = rw (run_of-ticks n) refl

run_of-word :
    (n : ℕ) → run_of backtick (ticks n ++ codes "suggestion") ≡ (ticks n, codes "suggestion")
unfolding run_of
run_of-word zero = refl
run_of-word (suc n) = rw (run_of-word n) refl

IsVisible-backtick : IsVisible backtick
IsVisible-backtick = (omega arith, omega arith)

pub fence_run-ticks : (n : ℕ) → fence_run (ticks (suc n)) ≡ (ticks (suc n), [])
unfolding fence_run
fence_run-ticks n =
    let no_cr : has_cr (ticks (suc n)) ≡ false =
      ap has_cr (sym (append-nil (ticks (suc n)))) ∙ has_cr-ticks (suc n) [] in
    let trimmed : trim_space (trim_suffix (ticks (suc n)) (codes "\r")) ≡ ticks (suc n) =
      ap trim_space (trim_suffix-no_cr (ticks (suc n)) no_cr)
      ∙ trim_space-visible backtick backtick (ticks n) (ticks n) IsVisible-backtick
          IsVisible-backtick (reverse-ticks (suc n)) in
    ap fence_run_of trimmed ∙ fenced
  where
    fenced : fence_run_of (ticks (suc n)) ≡ (ticks (suc n), [])
    fenced = ap (λ (r : Bytes × Bytes). (backtick ∷ r.0, trim_space r.1)) (run_of-ticks n)

fence_run-opener :
    (n : ℕ) → fence_run (ticks (suc n) ++ codes "suggestion") ≡ (ticks (suc n), codes "suggestion")
unfolding fence_run
fence_run-opener n =
    let line : Bytes = ticks (suc n) ++ codes "suggestion" in
    let trimmed : trim_space (trim_suffix line (codes "\r")) ≡ line =
      ap trim_space (trim_suffix-no_cr line (has_cr-ticks (suc n) (codes "suggestion")))
      ∙ trim_space-visible backtick 110 (ticks n ++ codes "suggestion")
          (codes "oitseggus" ++ ticks (suc n)) IsVisible-backtick (omega arith, omega arith)
          (reverse-append (ticks (suc n)) (codes "suggestion")
            ∙ ap (λ (t : Bytes). codes "noitseggus" ++ t) (reverse-ticks (suc n))) in
    ap fence_run_of trimmed
    ∙ ap (λ (r : Bytes × Bytes). (backtick ∷ r.0, trim_space r.1)) (run_of-word n)

pub open_fence-opener :
    (n : ℕ)
    → 3 ≤ suc n
    → open_fence (ticks (suc n) ++ codes "suggestion") ≡ some (ticks (suc n), codes "suggestion")
unfolding open_fence
open_fence-opener n long =
    let wide : ltb (length (ticks (suc n))) 3 ≡ false = ground (arith, length-ticks (suc n)) in
    rw (fence_run-opener n, wide) refl

pub suggestion_fence-opener :
    (n : ℕ)
    → 3 ≤ suc n
    → suggestion_fence (ticks (suc n) ++ codes "suggestion") ≡ some (ticks (suc n))
unfolding suggestion_fence folds_to
suggestion_fence-opener n long = rw (open_fence-opener n long, suggestion_fence) refl

-- The fence closes itself.
pub closes_fence-ticks : (n : ℕ) → closes_fence (ticks (suc n)) (ticks (suc n)) ≡ true
unfolding closes_fence
closes_fence-ticks n = rw (fence_run-ticks n) (ground arith)
