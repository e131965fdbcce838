-- ===== src/Text/Trimmed.antt =====
-- Strings that the trimming functions leave as they are.
use mathlib.Core.List.{reverse-append, reverse-reverse}
use sbnn.Prelude.{
  Bool, Bytes, List, Option-cases, [], any, ap, arith, false, inl, inr, refl, reverse, sym, true, ℕ,
  ◌++◌, ◌<◌, ◌==◌, ◌||◌, ◌∙◌, ◌∷◌, ◌≡◌, ◌≤◌,
}
use sbnn.Text.{codes}
use sbnn.Text.Affix.{
  after_prefix, drop_space, is_ascii_space, is_general_space, space_width, space_width_end,
  trim_space, trim_suffix,
}
use sbnn.Text.Occurs.{Occurs, after_prefix_sound}

-- A byte of visible ASCII text.
abbrev pub IsVisible : ℕ → Type 0
IsVisible c = (33 ≤ c) × (c < 128)

space_width-visible : (c : ℕ) (s : Bytes) → IsVisible c → space_width (c ∷ s) ≡ 0
unfolding space_width is_ascii_space
space_width-visible c [] v = ground arith
space_width-visible c (a ∷ []) v = ground arith
space_width-visible c (a ∷ b ∷ s) v = ground arith

-- A visible byte ends no white space character.
no_end : (a c : ℕ) → IsVisible c → (space_width (a ∷ c ∷ []) == 2) ≡ false
unfolding space_width is_ascii_space
no_end a c v = ground arith

no_long_end : (a b c : ℕ) → IsVisible c → (space_width (a ∷ b ∷ c ∷ []) == 3) ≡ false
unfolding space_width is_ascii_space is_general_space
no_long_end a b c v = ground arith

space_width_end-visible : (c : ℕ) (s : Bytes) → IsVisible c → space_width_end (c ∷ s) ≡ 0
unfolding space_width_end
space_width_end-visible c [] v = space_width-visible c [] v
space_width_end-visible c (b ∷ []) v =
    rw (space_width-visible c [] v, space_width_end, no_end b c v) refl
space_width_end-visible c (b ∷ a ∷ s) v =
    rw (space_width-visible c [] v, space_width_end, no_end b c v, no_long_end a b c v) refl

-- Text between two visible bytes is trimmed already.
pub trim_space-visible :
    (c d : ℕ) (s t : Bytes)
    → IsVisible c
    → IsVisible d
    → reverse (c ∷ s) ≡ d ∷ t
    → trim_space (c ∷ s) ≡ c ∷ s
unfolding trim_space drop_space
trim_space-visible c d s t v w e =
    rw (space_width-visible c s v, drop_space)
      (rw e (
        rw (space_width_end-visible d t w, drop_space)
          (ap reverse (sym e) ∙ reverse-reverse (c ∷ s))))

-- No carriage return.
abbrev pub has_cr : Bytes → Bool
has_cr = any (λ c. c == 13)

any-append {ℓ} :
    {A : Type ℓ} (p : A → Bool) (xs ys : List A) → any p (xs ++ ys) ≡ (any p xs || any p ys)
any-append p [] ys = refl
any-append p (x ∷ xs) ys = ground (arith, any-append p xs ys)

pub has_cr-Occurs : (x s : Bytes) → Occurs x s → has_cr s ≡ false → has_cr x ≡ false
has_cr-Occurs x s (a, b, e) h =
    let whole : has_cr (a ++ (x ++ b)) ≡ false = ap has_cr (sym e) ∙ h in
    ground (arith, whole, any-append (λ c. c == 13) a (x ++ b), any-append (λ c. c == 13) x b)

pub trim_suffix-no_cr : (s : Bytes) → has_cr s ≡ false → trim_suffix s (codes "\r") ≡ s
unfolding trim_suffix
trim_suffix-no_cr s h = elim (Option-cases (after_prefix (reverse s) (13 ∷ []))) [
  | inl none_there ↦ rw (none_there, trim_suffix) refl
  | inr (r, found) ↦
      let e : s ≡ reverse r ++ 13 ∷ [] =
        sym (reverse-reverse s)
        ∙ ap reverse (after_prefix_sound (reverse s) (13 ∷ []) found)
        ∙ reverse-append (13 ∷ []) r in
      let whole : has_cr (reverse r ++ 13 ∷ []) ≡ false = ap has_cr (sym e) ∙ h in
      let no : (has_cr (reverse r) || true) ≡ false =
        sym (any-append (λ c. c == 13) (reverse r) (13 ∷ [])) ∙ whole in
      ground (arith, no)
]
