-- ===== src/Review/Suggestions/Blocks.antt =====
-- The scan of `Suggestions` over a comment with more lines behind it.
use mathlib.Core.Option.{some-injective}
use mathlib.Core.Path.{subst}
use sbnn.Prelude.{
  Bool, Bool-cases, Bytes, List, Option, Option-cases, [], ap, arith, false, inl, inr, is_some,
  length, length-append, ltb, refl, some, suc, sym, true, zero, ℕ, ◌&&◌, ◌++◌, ◌∙◌, ◌∷◌, ◌≡◌, ◌≢◌,
  ◌≤◌,
}
use sbnn.Review.Fences.{
  backtick, closes_fence, fence_run, open_fence, starts_with, suggestion_fence,
}
use sbnn.Review.Suggestions.{
  block_end, code_block, dangling_from, ends_suggestion, inner_behind, lines_left, proposed,
  suggestion_block, suggestions_from, with_line,
}
use sbnn.Text.{codes}
use sbnn.Text.Split.{contains}

code_block-append :
    (fence : Bytes) (ls more : List Bytes) {rest : List Bytes}
    → (code_block fence ls).1 ≡ some rest
    → code_block fence (ls ++ more) ≡ ((code_block fence ls).0, some (rest ++ more))
unfolding code_block
code_block-append fence [] more e = cc
code_block-append fence (l ∷ ls) more e = elim (Bool-cases (closes_fence l fence)) [
  | inl closes ↦
      rw closes
        (ap (λ (r : List Bytes). ([], some (r ++ more))) (some-injective _ _ (rw closes at e)))
  | inr open_still ↦
      rw open_still (ap (with_line l) (code_block-append fence ls more (rw open_still at e)))
]

suggestion_block-append :
    (fence inner : Bytes) (ls more : List Bytes) {rest : List Bytes}
    → (suggestion_block fence inner ls).1 ≡ some rest
    → suggestion_block fence inner (ls ++ more)
      ≡ ((suggestion_block fence inner ls).0, some (rest ++ more))
unfolding suggestion_block
suggestion_block-append fence inner [] more e = cc
suggestion_block-append fence inner (l ∷ ls) more e =
    elim (Bool-cases (ends_suggestion l fence inner)) [
      | inl ends ↦
          rw ends
            (ap (λ (r : List Bytes). ([], some (r ++ more))) (some-injective _ _ (rw ends at e)))
      | inr goes_on ↦ rw goes_on (
          ap (with_line l)
            (suggestion_block-append fence (inner_behind l inner) ls more (rw goes_on at e)))
    ]

pub block_end-append :
    (opener fence : Bytes) (ls more : List Bytes) {rest : List Bytes}
    → (block_end opener fence ls).1 ≡ some rest
    → block_end opener fence (ls ++ more) ≡ ((block_end opener fence ls).0, some (rest ++ more))
unfolding block_end
block_end-append opener fence ls more e = elim (Bool-cases (is_some (suggestion_fence opener))) [
  | inl suggestion ↦ rw suggestion (suggestion_block-append fence [] ls more (rw suggestion at e))
  | inr code ↦ rw code (code_block-append fence ls more (rw code at e))
]

-- The lines behind a block are fewer.
code_block-left :
    (fence : Bytes) (ls : List Bytes) → length (lines_left (code_block fence ls).1) ≤ length ls
unfolding code_block
code_block-left fence [] = omega arith
code_block-left fence (l ∷ ls) = ground (arith, code_block-left fence ls)

suggestion_block-left :
    (fence inner : Bytes) (ls : List Bytes)
    → length (lines_left (suggestion_block fence inner ls).1) ≤ length ls
unfolding suggestion_block
suggestion_block-left fence inner [] = omega arith
suggestion_block-left fence inner (l ∷ ls) =
    ground (arith, suggestion_block-left fence (inner_behind l inner) ls)

pub block_end-left :
    (opener fence : Bytes) (ls : List Bytes)
    → length (lines_left (block_end opener fence ls).1) ≤ length ls
unfolding block_end
block_end-left opener fence ls =
    ground (arith, suggestion_block-left fence [] ls, code_block-left fence ls)

-- An opening fence is not empty.
fence_not_empty : (l : Bytes) {o : Bytes × Bytes} → open_fence l ≡ some o → o.0 ≢ []
unfolding open_fence
fence_not_empty l {o} e empty_fence =
    let r = fence_run l in
    elim (Bool-cases (ltb (length r.0) 3)) [
      | inl short ↦ let found = rw (short, open_fence) at e in cc
      | inr long ↦ elim (Bool-cases (starts_with backtick r.0 && contains r.1 (codes "`"))) [
        | inl prose ↦ let found = rw (long, prose, open_fence) at e in cc
        | inr fence ↦
            let same : r ≡ o = some-injective _ _ (rw (long, fence, open_fence) at e) in
            let empty : r.0 ≡ [] = ap (λ (p : Bytes × Bytes). p.0) same ∙ empty_fence in
            let none_long : false ≡ true = sym long ∙ ap (λ (t : Bytes). ltb (length t) 3) empty in
            cc
      ]
    ]

-- One round of fuel for each line is enough.
pub suggestions_from-enough :
    (f g : ℕ) (ls : List Bytes)
    → length ls ≤ f
    → length ls ≤ g
    → suggestions_from f ls ≡ suggestions_from g ls
unfolding suggestions_from
suggestions_from-enough zero zero ls h k = refl
suggestions_from-enough zero (suc g) [] h k = refl
suggestions_from-enough zero (suc g) (l ∷ ls) h k = absurd (omega arith)
suggestions_from-enough (suc f) zero [] h k = refl
suggestions_from-enough (suc f) zero (l ∷ ls) h k = absurd (omega arith)
suggestions_from-enough (suc f) (suc g) [] h k = refl
suggestions_from-enough (suc f) (suc g) (l ∷ ls) h k = elim (Option-cases (open_fence l)) [
  | inl prose ↦
      rw (prose, suggestions_from) (suggestions_from-enough f g ls (omega arith) (omega arith))
  | inr (o, fenced) ↦
      let less = block_end-left l o.0 ls in
      rw (fenced, suggestions_from)
        (ap (proposed (is_some (suggestion_fence l)) (block_end l o.0 ls).0) (
          suggestions_from-enough f g (lines_left (block_end l o.0 ls).1) (omega (arith, less))
            (omega (arith, less))))
]

proposed-append :
    (b : Bool) (block xs ys : List Bytes) → proposed b block (xs ++ ys) ≡ proposed b block xs ++ ys
unfolding proposed
proposed-append true block xs ys = refl
proposed-append false block xs ys = refl

-- Behind lines that leave no block open the scan starts afresh.
pub suggestions_from-append :
    (k f : ℕ) (ls more : List Bytes)
    → length ls ≤ k
    → dangling_from k ls ≡ []
    → length (ls ++ more) ≤ f
    → suggestions_from f (ls ++ more) ≡ suggestions_from k ls ++ suggestions_from (length more) more
unfolding suggestions_from dangling_from
suggestions_from-append zero f [] more h closed j =
    suggestions_from-enough f (length more) more j (omega arith)
suggestions_from-append (suc k) f [] more h closed j =
    suggestions_from-enough f (length more) more j (omega arith)
suggestions_from-append zero f (l ∷ ls) more h closed j = absurd (omega arith)
suggestions_from-append (suc k) zero (l ∷ ls) more h closed j = absurd (omega arith)
suggestions_from-append (suc k) (suc f) (l ∷ ls) more h closed j =
    elim (Option-cases (open_fence l)) [
      | inl prose ↦
          rw (prose, suggestions_from)
            (suggestions_from-append k f ls more (omega arith) (rw (prose, dangling_from) at closed)
              (omega arith))
      | inr (o, fenced) ↦ elim (Option-cases (block_end l o.0 ls).1) [
        | inl dangling ↦
            let no = rw (fenced, dangling, dangling_from) at closed in
            absurd (fence_not_empty l fenced no)
        | inr (rest, ended) ↦
            let less : length rest ≤ length ls =
              subst (λ (r : Option (List Bytes)). length (lines_left r) ≤ length ls) ended
                (block_end-left l o.0 ls) in
            let behind =
              suggestions_from-append k f rest more (omega (arith, less))
                (rw (fenced, ended, dangling_from) at closed)
                (omega (arith, less, j, length-append {0} rest more, length-append {0} ls more)) in
            rw (fenced, suggestions_from, block_end-append l o.0 ls more ended, ended)
              (ap (proposed (is_some (suggestion_fence l)) (block_end l o.0 ls).0) behind
                ∙ proposed-append (is_some (suggestion_fence l)) (block_end l o.0 ls).0 _ _)
      ]
    ]
