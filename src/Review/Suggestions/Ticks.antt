-- ===== src/Review/Suggestions/Ticks.antt =====
-- Fences of backticks, and the lines of a text that holds no such fence.
use mathlib.Core.Path.{subst}
use native.Mathlib.Decide.{dec_lt}
use sbnn.Prelude.{
  ==_iff, Bool-cases, Bytes, [], ap, arith, false, inl, inr, length, refl, replicate, suc, sym,
  true, zero, ℕ, ◌++◌, ◌+◌, ◌-◌, ◌<◌, ◌==◌, ◌||◌, ◌∙◌, ◌∷◌, ◌≡◌, ◌≤◌,
}
use sbnn.Review.Fences.{
  backtick, closes_fence, fence_run, fence_run_of, run_of, same_first, starts_with, tilde,
}
use sbnn.Text.{codes}
use sbnn.Text.Affix.{trim_space, trim_suffix}
use sbnn.Text.Occurs.{Occurs, Occurs-trans, contains-Occurs, trim_space-Occurs, trim_suffix-Occurs}
use sbnn.Text.Split.{contains}

abbrev pub ticks : ℕ → Bytes
ticks n = replicate n backtick

pub length-ticks : (n : ℕ) → length (ticks n) ≡ n
length-ticks zero = refl
length-ticks (suc n) = ap suc (length-ticks n)

run_of-append : (c : ℕ) (s : Bytes) → s ≡ (run_of c s).0 ++ (run_of c s).1
unfolding run_of
run_of-append c [] = refl
run_of-append c (d ∷ s) = elim (Bool-cases (d == c)) [
  | inl same ↦ rw same (ap (λ (t : Bytes). d ∷ t) (run_of-append c s))
  | inr other ↦ rw other refl
]

run_of-replicate : (c : ℕ) (s : Bytes) → (run_of c s).0 ≡ replicate (length (run_of c s).0) c
unfolding run_of
run_of-replicate c [] = refl
run_of-replicate c (d ∷ s) = elim (Bool-cases (d == c)) [
  | inl same ↦ rw same (
      ap (λ (e : ℕ). e ∷ (run_of c s).0) ((==_iff d c).0 same)
      ∙ ap (λ (t : Bytes). c ∷ t) (run_of-replicate c s))
  | inr other ↦ rw other refl
]

-- The run stands at the front of the trimmed line.
fence_run_of-front : (t : Bytes) → (b : Bytes) × (t ≡ (fence_run_of t).0 ++ b)
unfolding fence_run_of
fence_run_of-front [] = ([], refl)
fence_run_of-front (c ∷ s) = elim (Bool-cases (c == backtick || c == tilde)) [
  | inl fence ↦ ((run_of c s).1, rw fence (ap (λ (t : Bytes). c ∷ t) (run_of-append c s)))
  | inr other ↦ (c ∷ s, rw other refl)
]

fence_run_of-ticks :
    (t : Bytes)
    → starts_with backtick (fence_run_of t).0 ≡ true
    → (fence_run_of t).0 ≡ ticks (length (fence_run_of t).0)
unfolding fence_run_of
fence_run_of-ticks [] h = refl
fence_run_of-ticks (c ∷ s) h = elim (Bool-cases (c == backtick || c == tilde)) [
  | inl fence ↦
      let first : c ≡ backtick = (==_iff c backtick).0 (rw fence at h) in
      rw fence (
        ap (λ (d : ℕ). d ∷ (run_of c s).0) first
        ∙ ap (λ (t : Bytes). backtick ∷ t)
            (run_of-replicate c s ∙ ap (replicate (length (run_of c s).0)) first))
  | inr other ↦ rw other refl
]

fence_run-Occurs : (l : Bytes) → Occurs (fence_run l).0 l
unfolding fence_run
fence_run-Occurs l =
    let t = trim_space (trim_suffix l (codes "\r")) in
    let (b, e) = fence_run_of-front t in
    Occurs-trans (fence_run_of t).0 t l ([], b, e)
      (Occurs-trans t (trim_suffix l (codes "\r")) l
        (trim_space-Occurs (trim_suffix l (codes "\r"))) (trim_suffix-Occurs l (codes "\r")))

replicate-add : (m n c : ℕ) → replicate (m + n) c ≡ replicate m c ++ replicate n c
replicate-add zero n c = let e : 0 + n ≡ n = omega arith in ap (λ (k : ℕ). replicate k c) e
replicate-add (suc m) n c =
    let e : suc m + n ≡ suc (m + n) = omega arith in
    ap (λ (k : ℕ). replicate k c) e ∙ ap (λ (t : Bytes). c ∷ t) (replicate-add m n c)

ticks-Occurs : (m n : ℕ) → n ≤ m → Occurs (ticks n) (ticks m)
ticks-Occurs m n le =
    let e : m ≡ n + (m - n) = omega arith in
    ([], ticks (m - n), ap ticks e ∙ replicate-add n (m - n) backtick)

-- A run of backticks in a line of a text that does not hold `n` of them is shorter.
pub run-short :
    (n : ℕ) (text l : Bytes)
    → contains text (ticks n) ≡ false
    → Occurs l text
    → starts_with backtick (fence_run l).0 ≡ true
    → length (fence_run l).0 < n
run-short n text l free o first = elim (dec_lt (length (fence_run l).0) n) [
  | yes short ↦ short
  | no long ↦
      let r = (fence_run l).0 in
      let all_ticks : r ≡ ticks (length r) =
        unfold fence_run in fence_run_of-ticks (trim_space (trim_suffix l (codes "\r"))) first in
      let in_run : Occurs (ticks n) r =
        subst (Occurs (ticks n)) (sym all_ticks) (ticks-Occurs (length r) n (omega arith)) in
      let held : contains text (ticks n) ≡ true =
        contains-Occurs (ticks n) text
          (Occurs-trans (ticks n) r text in_run (Occurs-trans r l text (fence_run-Occurs l) o)) in
      let no : false ≡ true = sym free ∙ held in cc
]

same_first-ticks :
    (r : Bytes) (n : ℕ) → same_first r (ticks n) ≡ true → starts_with backtick r ≡ true
same_first-ticks [] n h = cc
same_first-ticks (c ∷ r) zero h = cc
same_first-ticks (c ∷ r) (suc n) h = h

-- No line of the text closes the fence.
pub closes_fence-none :
    (n : ℕ) (text l : Bytes)
    → contains text (ticks n) ≡ false
    → Occurs l text
    → closes_fence l (ticks n) ≡ false
unfolding closes_fence
closes_fence-none n text l free o = elim (Bool-cases (same_first (fence_run l).0 (ticks n))) [
  | inr other ↦ ground (arith, other)
  | inl same ↦
      let short = run-short n text l free o (same_first-ticks (fence_run l).0 n same) in
      ground (arith, short, length-ticks n)
]
