-- ===== src/Server/Fold/Reasons.antt =====
-- Proofs about `foldFiles` and `shorten`.
use sbnn.Model.{File, path}
use sbnn.Prelude.{
  Bool, Bool-cases, Bytes, List, Option-cases, [], any, ap, arith, false, inl, inr, is_some, leb,
  leb→le, length, ltb, not, refl, suc, sym, take, true, zero, ℕ, ◌&&◌, ◌++◌, ◌+◌, ◌-◌, ◌||◌, ◌∙◌,
  ◌∷◌, ◌≡◌, ◌≤◌,
}
use sbnn.Server.Fold.{
  Surroundings, declared_generated, ellipsis, fold_file, match_any, match_path, shorten,
}
use sbnn.Text.{is_empty}
use sbnn.Text.Affix.{trim_space}

length-take {ℓ} : {A : Type ℓ} (n : ℕ) (xs : List A) → length (take n xs) ≤ n
length-take zero xs = omega arith
length-take (suc n) [] = omega arith
length-take (suc n) (x ∷ xs) = omega (arith, length-take n xs)

module _ (o : Surroundings) where
  abbrev pub asks_for : Bytes → Bytes → Bool
  asks_for p pattern = not (is_empty (trim_space pattern)) && match_path o (trim_space pattern) p

  match_any-any :
      (patterns : List Bytes) (p : Bytes)
      → is_some (match_any o patterns p) ≡ any (asks_for p) patterns
  unfolding match_any
  match_any-any [] p = refl
  match_any-any (q ∷ qs) p = elim (Bool-cases (is_empty (trim_space q))) [
    | inl is_blank ↦ rw is_blank (match_any-any qs p)
    | inr not_blank ↦ elim (Bool-cases (match_path o (trim_space q) p)) [
      | inl matched ↦ rw (not_blank, matched) refl
      | inr other ↦ rw (not_blank, other) (match_any-any qs p)
    ]
  ]

  -- A file opens shut exactly when one of the patterns that is not blank matches its path or the file
  -- declares itself generated; what a previous round made of it does not count.
  pub fold_file-folded :
      (base_dir : Bytes) (patterns : List Bytes) (f : File)
      → (fold_file o base_dir patterns f).folded
        ≡ (any (asks_for (path f)) patterns || not (is_empty (declared_generated o base_dir f)))
  unfolding fold_file
  fold_file-folded base_dir patterns f = elim (Option-cases (match_any o patterns (path f))) [
    | inr (pattern, found) ↦
        let asked : any (asks_for (path f)) patterns ≡ true =
          sym (match_any-any patterns (path f)) ∙ ap is_some found in
        rw (fold_file, found, asked) refl
    | inl none_asks ↦
        let not_asked : any (asks_for (path f)) patterns ≡ false =
          sym (match_any-any patterns (path f)) ∙ ap is_some none_asks in
        elim (Bool-cases (is_empty (declared_generated o base_dir f))) [
          | inl silent ↦ rw (fold_file, none_asks, not_asked, silent) refl
          | inr says_so ↦ rw (fold_file, none_asks, not_asked, says_so) refl
        ]
  ]

  -- What is shortened to `n` has at most `n` runes, where the empty string has none and the ellipsis
  -- behind the string of some runes makes one more.
  pub length-shorten :
      o.runes [] ≡ []
      → ((rs : List ℕ) → length (o.runes (o.of_runes rs ++ ellipsis)) ≡ length rs + 1)
      → (s : Bytes) (n : ℕ) → length (o.runes (shorten o s n)) ≤ n
  unfolding shorten
  length-shorten no_runes one_more s zero = rw no_runes (omega arith)
  length-shorten no_runes one_more s (suc n) =
      let rs = o.runes (trim_space s) in
      let some_room : ltb (suc n) 1 ≡ false = ground arith in
      let one_less : suc n - 1 ≡ n = omega arith in
      elim (Bool-cases (leb (length rs) (suc n))) [
        | inl fits_in ↦ rw (some_room, fits_in) (leb→le (length rs) (suc n) fits_in)
        | inr too_long ↦
            rw (some_room, one_less, too_long, one_more (take n rs))
              (omega (arith, length-take n rs))
      ]
