-- ===== src/Review/Suggestions/Written.antt =====
-- The lines that `WithSuggestion` writes, and how `Suggestions` reads them.
use mathlib.Core.Path.{ap₂}
use sbnn.Prelude.{
  All, All-map, Bool, Bool-cases, Bytes, List, [], ap, arith, false, inl, inr, length,
  length-append, ltb, map, not, refl, some, suc, true, zero, ℕ, ◌&&◌, ◌++◌, ◌+◌, ◌<◌, ◌==◌, ◌||◌,
  ◌∙◌, ◌∷◌, ◌≡◌, ◌≤◌,
}
use sbnn.Review.Fences.{backtick, closes_fence, fence_run, open_fence, starts_with}
use sbnn.Review.Suggestions.{
  block_end, ends_suggestion, inner_behind, long_fence, proposed, suggestion_block, suggestion_text,
  suggestions_from, with_line,
}
use sbnn.Review.Suggestions.Opened.{
  closes_fence-ticks, fence_run-ticks, open_fence-opener, suggestion_fence-opener,
}
use sbnn.Review.Suggestions.Ticks.{closes_fence-none, length-ticks, run-short, ticks}
use sbnn.Session.Threaded.{absent}
use sbnn.Text.{codes, is_empty}
use sbnn.Text.Affix.{trim_suffix}
use sbnn.Text.Occurs.{Occurs, Occurs-contains, join-split, split-Occurs}
use sbnn.Text.Split.{contains, join, split}
use sbnn.Text.Trimmed.{has_cr, has_cr-Occurs, trim_suffix-no_cr}

-- A nested fence is shorter than the fence of the suggestion, or of other characters.
abbrev IsInner : ℕ → Bytes → Type 0
IsInner n inner = starts_with backtick inner ≡ true → length inner < n

Occurs-length : (x s : Bytes) → Occurs x s → length x ≤ length s
Occurs-length x s (a, b, e) =
    omega (arith, ap length e, length-append {0} a (x ++ b), length-append {0} x b)

-- The fence is long enough for the text.
pub long_fence-ticks :
    (fuel n : ℕ) (text : Bytes)
    → length text < n + fuel
    → (m : ℕ) × (long_fence fuel text (ticks n) ≡ ticks m)
      × (n ≤ m)
      × (contains text (ticks m) ≡ false)
unfolding long_fence
long_fence-ticks zero n text h = (n, refl, omega arith, free)
  where
    free : contains text (ticks n) ≡ false
    free = elim (Bool-cases (contains text (ticks n))) [
      | inr absent ↦ absent
      | inl held ↦
          let fits = Occurs-length (ticks n) text (Occurs-contains (ticks n) text held) in
          absurd (omega (arith, h, fits, length-ticks n))
    ]
long_fence-ticks (suc fuel) n text h = elim (Bool-cases (contains text (ticks n))) [
  | inr absent ↦ (n, rw absent refl, omega arith, absent)
  | inl held ↦
      let (m, e, le, free) = long_fence-ticks fuel (suc n) text (omega arith) in
      (m, rw held e, omega arith, free)
]

or_true : (b : Bool) → (b || true) ≡ true
or_true true = refl
or_true false = refl

module _ (k : ℕ) (long : 3 ≤ suc k) (text : Bytes)
    (free : contains text (ticks (suc k)) ≡ false) where
  abbrev fence : Bytes
  fence = ticks (suc k)

  inner_behind-IsInner :
      (l inner : Bytes)
      → Occurs l text
      → IsInner (suc k) inner
      → IsInner (suc k) (inner_behind l inner)
  unfolding inner_behind open_fence
  inner_behind-IsInner l inner o i = elim (Bool-cases (not (is_empty inner))) [
    | inl nested ↦ elim (Bool-cases (closes_fence l inner)) [
      | inl closes ↦ rw (nested, closes) (λ first. cc)
      | inr stays ↦ rw (nested, stays) i
    ]
    | inr at_top ↦ elim (Bool-cases (ltb (length (fence_run l).0) 3)) [
      | inl short ↦ rw (at_top, short, inner_behind) (λ first. cc)
      | inr wide ↦
          elim (Bool-cases
            (starts_with backtick (fence_run l).0 && contains (fence_run l).1 (codes "`"))) [
              | inl in_prose ↦ rw (at_top, wide, in_prose, inner_behind) (λ first. cc)
              | inr fenced ↦
                  rw (at_top, wide, fenced, inner_behind) (run-short (suc k) text l free o)
            ]
    ]
  ]

  -- The fence ends the suggestion, whatever is nested in it.
  ends_suggestion-fence :
      (inner : Bytes) → IsInner (suc k) inner → ends_suggestion fence fence inner ≡ true
  unfolding ends_suggestion
  ends_suggestion-fence [] i = rw (closes_fence-ticks k) refl
  ends_suggestion-fence (c ∷ inner) i = elim (Bool-cases (c == backtick)) [
    | inl tick ↦
        let shorter : ltb (length (c ∷ inner)) (length (fence_run fence).0) ≡ true =
          ground (arith, i tick, fence_run-ticks k, length-ticks (suc k)) in
        rw (closes_fence-ticks k, shorter) (or_true (not (closes_fence fence (c ∷ inner))))
    | inr other ↦
        let apart : closes_fence fence (c ∷ inner) ≡ false =
          unfold closes_fence in rw (fence_run-ticks k) (ground (arith, other)) in
        rw (closes_fence-ticks k, apart) refl
  ]

  -- The lines of the text are the lines of the block.
  suggestion_block-lines :
      (inner : Bytes) (ls : List Bytes)
      → IsInner (suc k) inner
      → All (λ l. Occurs l text) ls
      → suggestion_block fence inner (ls ++ fence ∷ []) ≡ (ls, some [])
  unfolding suggestion_block
  suggestion_block-lines inner [] i os = rw (ends_suggestion-fence inner i) refl
  suggestion_block-lines inner (l ∷ ls) i os =
      let goes_on : ends_suggestion l fence inner ≡ false =
        unfold ends_suggestion in rw (closes_fence-none (suc k) text l free os.0) refl in
      rw goes_on (
        ap (with_line l) (
          suggestion_block-lines (inner_behind l inner) ls (inner_behind-IsInner l inner os.0 i)
            os.1))

  -- The block is read as it was written.
  block_end-written :
      block_end (fence ++ codes "suggestion") fence (split 10 text ++ fence ∷ [])
      ≡ (split 10 text, some [])
  unfolding block_end
  block_end-written =
      rw (suggestion_fence-opener k long)
        (suggestion_block-lines [] (split 10 text) (λ first. cc) (split-Occurs 10 text))

  suggestion_text-lines : has_cr text ≡ false → suggestion_text (split 10 text) ≡ text
  suggestion_text-lines no_cr =
      ap (join 10) (
        unchanged_lines (split 10 text) (
          All-map _ _ (split 10 text) (λ l o. has_cr-Occurs l text o no_cr) (split-Occurs 10 text)))
      ∙ join-split 10 text
    where
      unchanged_lines :
          (ls : List Bytes)
          → All (λ l. has_cr l ≡ false) ls
          → map (λ l. trim_suffix l (codes "\r")) ls ≡ ls
      unchanged_lines [] h = refl
      unchanged_lines (l ∷ ls) h =
          ap₂ (λ (x : Bytes) (xs : List Bytes). x ∷ xs) (trim_suffix-no_cr l h.0)
            (unchanged_lines ls h.1)

  -- The lines that `WithSuggestion` adds.
  abbrev pub written : List Bytes
  written = (fence ++ codes "suggestion") ∷ split 10 text ++ fence ∷ []

  pub suggestions_from-written :
      (fuel : ℕ)
      → length written ≤ fuel
      → has_cr text ≡ false
      → suggestions_from fuel written ≡ text ∷ []
  unfolding suggestions_from proposed
  suggestions_from-written zero enough no_cr = absurd (omega arith)
  suggestions_from-written (suc fuel) enough no_cr =
      rw
        (
          open_fence-opener k long,
          suggestions_from,
          block_end-written,
          suggestion_fence-opener k long,
        )
        (ap₂ (λ (x : Bytes) (xs : List Bytes). x ∷ xs) (suggestion_text-lines no_cr) (at_end fuel))
    where
      at_end : (n : ℕ) → suggestions_from n [] ≡ []
      at_end zero = refl
      at_end (suc n) = refl
