-- ===== src/Server/Fold/Segments.antt =====
-- Proofs about `matchSegments`: patterns and paths as lists of segments.
use sbnn.Diff.Parser.{run}
use sbnn.Prelude.{
  Bool, Bool-cases, Bytes, List, [], ap, append-nil, arith, false, if◌then◌else◌, inl, inr, is_nil,
  not, refl, sym, true, ◌&&◌, ◌++◌, ◌↔◌, ◌∙◌, ◌∷◌, ◌≡◌,
}
use sbnn.Server.Fold.{Surroundings, any_tail, double_star, match_segments}
use sbnn.Text.{eq_bytes}

-- The runs of segments, one for each segment of the pattern: any run for `**`, unless it ends the
-- pattern, and one segment that matches for any other.
module _ (o : Surroundings) where
  abbrev one_match : Bytes → List Bytes → Bool
  one_match q [] = false
  one_match q (s ∷ ss) = o.path_match q s && is_nil ss

  abbrev pub run_fits : Bytes → Bool → List Bytes → Bool
  run_fits q last run = if eq_bytes q double_star then not (last && is_nil run) else one_match q run

  abbrev pub all_fit : List Bytes → List (List Bytes) → Bool
  all_fit [] [] = true
  all_fit [] (run ∷ runs) = false
  all_fit (q ∷ qs) [] = false
  all_fit (q ∷ qs) (run ∷ runs) = run_fits q (is_nil qs) run && all_fit qs runs

abbrev pub concat : List (List Bytes) → List Bytes
concat [] = []
concat (run ∷ runs) = run ++ concat runs

any_tail_sound {ℓ} :
    {A : Type ℓ} (f : List A → Bool) (xs : List A)
    → any_tail f xs ≡ true
    → (front : List A) × (back : List A) × (xs ≡ front ++ back) × (f back ≡ true)
unfolding any_tail
any_tail_sound f [] h = ([], [], refl, h)
any_tail_sound f (x ∷ xs) h = elim (Bool-cases (f (x ∷ xs))) [
  | inl here ↦ ([], x ∷ xs, refl, here)
  | inr not_here ↦
      let (front, back, e, found) = any_tail_sound f xs (rw not_here at h) in
      (x ∷ front, back, ap (λ ys. x ∷ ys) e, found)
]

any_tail_complete {ℓ} :
    {A : Type ℓ} (f : List A → Bool) (front back : List A)
    → f back ≡ true
    → any_tail f (front ++ back) ≡ true
unfolding any_tail
any_tail_complete f [] [] h = h
any_tail_complete f [] (x ∷ xs) h = rw h refl
any_tail_complete f (x ∷ front) back h = ground (arith, any_tail_complete f front back h)

module _ (o : Surroundings) where
  one_match_sound :
      (q : Bytes) (run : List Bytes)
      → one_match o q run ≡ true
      → (s : Bytes) × (run ≡ s ∷ []) × (o.path_match q s ≡ true)
  one_match_sound q [] h = cc
  one_match_sound q (s ∷ []) h = (s, refl, ground (arith, h))
  one_match_sound q (s ∷ t ∷ ss) h = ground (arith, h)

  match_segments_sound :
      (qs p : List Bytes)
      → match_segments o qs p ≡ true
      → (runs : List (List Bytes)) × (p ≡ concat runs) × (all_fit o qs runs ≡ true)
  unfolding match_segments
  match_segments_sound [] [] h = ([], refl, refl)
  match_segments_sound [] (s ∷ ss) h = cc
  match_segments_sound (q ∷ []) [] h = elim (Bool-cases (eq_bytes q double_star)) [
    | inl any_run ↦ let no : false ≡ true = (rw any_run at h) in cc
    | inr one ↦ let no : false ≡ true = (rw one at h) in cc
  ]
  match_segments_sound (q ∷ []) (s ∷ ss) h = elim (Bool-cases (eq_bytes q double_star)) [
    | inl any_run ↦ ((s ∷ ss) ∷ [], sym (append-nil (s ∷ ss)), rw any_run refl)
    | inr one ↦
        let found : (o.path_match q s && is_nil ss) ≡ true = (rw one at h) in
        ((s ∷ ss) ∷ [], sym (append-nil (s ∷ ss)), rw (one, found) refl)
  ]
  match_segments_sound (q ∷ r ∷ qs) [] h = elim (Bool-cases (eq_bytes q double_star)) [
    | inl any_run ↦
        let (runs, e, fit) =
          match_segments_sound (r ∷ qs) [] (unfold any_tail in rw any_run at h) in
        ([] ∷ runs, e, rw any_run fit)
    | inr one ↦ let no : false ≡ true = (rw one at h) in cc
  ]
  match_segments_sound (q ∷ r ∷ qs) (s ∷ ss) h = elim (Bool-cases (eq_bytes q double_star)) [
    | inl any_run ↦
        let (front, back, e, found) =
          any_tail_sound (match_segments o (r ∷ qs)) (s ∷ ss) (rw any_run at h) in
        let (runs, e', fit) = match_segments_sound (r ∷ qs) back found in
        (front ∷ runs, e ∙ ap (λ (ts : List Bytes). front ++ ts) e', rw any_run fit)
    | inr one ↦
        let both : (o.path_match q s && match_segments o (r ∷ qs) ss) ≡ true = (rw one at h) in
        let here : o.path_match q s ≡ true = ground (arith, both) in
        let (runs, e, fit) = match_segments_sound (r ∷ qs) ss (ground (arith, both)) in
        ((s ∷ []) ∷ runs, ap (λ (ts : List Bytes). s ∷ ts) e, rw (one, here) fit)
  ]

  match_segments_complete :
      (qs : List Bytes) (runs : List (List Bytes))
      → all_fit o qs runs ≡ true
      → match_segments o qs (concat runs) ≡ true
  unfolding match_segments
  match_segments_complete [] [] h = refl
  match_segments_complete [] (run ∷ runs) h = cc
  match_segments_complete (q ∷ qs) [] h = cc
  match_segments_complete (q ∷ []) (run ∷ []) h = elim (Bool-cases (eq_bytes q double_star)) [
    | inl any_run ↦
        let some_run : (not (is_nil run) && true) ≡ true = (rw any_run at h) in
        rw (any_run, append-nil run) (ground (arith, some_run))
    | inr one ↦
        let fit : (one_match o q run && true) ≡ true = (rw one at h) in
        let (s, e, matched) = one_match_sound q run (ground (arith, fit)) in
        rw (one, e, matched) refl
  ]
  match_segments_complete (q ∷ []) (run ∷ more ∷ runs) h =
      let no : (run_fits o q true run && false) ≡ true = h in ground (arith, no)
  match_segments_complete (q ∷ r ∷ qs) (run ∷ runs) h = elim (Bool-cases (eq_bytes q double_star)) [
    | inl any_run ↦ rw any_run (
        any_tail_complete (match_segments o (r ∷ qs)) run (concat runs)
          (match_segments_complete (r ∷ qs) runs (rw any_run at h)))
    | inr one ↦
        let fit : (one_match o q run && all_fit o (r ∷ qs) runs) ≡ true = (rw one at h) in
        let (s, e, matched) = one_match_sound q run (ground (arith, fit)) in
        let behind = match_segments_complete (r ∷ qs) runs (ground (arith, fit)) in
        rw (one, e, matched) behind
  ]

  -- A pattern matches a path, both as lists of segments, exactly when the path falls into runs of
  -- segments, one for each segment of the pattern: a single segment that `path.Match` accepts for any
  -- segment but `**`, and for `**` any run at all, or one that is not empty where `**` ends the
  -- pattern.
  pub match_segments_iff :
      (qs p : List Bytes)
      → (match_segments o qs p ≡ true)
        ↔ ((runs : List (List Bytes)) × (p ≡ concat runs) × (all_fit o qs runs ≡ true))
  match_segments_iff qs p = (
    match_segments_sound qs p,
    λ found. ap (match_segments o qs) found.1 ∙ match_segments_complete qs found.0 found.2,
  )
