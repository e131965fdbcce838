-- ===== src/Diff/Containers/Markers.antt =====
-- Proofs about `splitContainers` against the quotes and list items of Markdown, as text.
use mathlib.Core.Path.{subst}
use sbnn.Diff.Combined.{is_marker}
use sbnn.Diff.Containers.{
  container, digit_run, first_is, leading_spaces, list_marker_len, marker_width, space,
  split_containers,
}
use sbnn.Diff.Containers.Peeled.{IsPeeled, split_containers-IsPeeled}
use sbnn.Diff.Reconstruct.{marker}
use sbnn.Prelude.{
  Bool-cases, Bytes, [], ap, append_assoc, arith, drop, false, inl, inr, is_some, length, ltb, refl,
  replicate, some, suc, sym, true, zero, ℕ, ◌++◌, ◌+◌, ◌==◌, ◌||◌, ◌∙◌, ◌∷◌, ◌≡◌, ◌≢◌, ◌≤◌, ◌⊎◌,
}
use sbnn.Text.Number.{all_digits, is_digit}

-- `-`, `*` or `+`.
abbrev pub IsBullet : Bytes → Type 0
IsBullet m = (m ≡ b'-' ∷ []) ⊎ (m ≡ b'*' ∷ []) ⊎ (m ≡ b'+' ∷ [])

-- One to nine digits, and `.` or `)`.
abbrev pub IsOrdinal : Bytes → Type 0
IsOrdinal m =
    (ds : Bytes) × (d : ℕ) × (m ≡ ds ++ d ∷ [])
    × (all_digits ds ≡ true)
    × (1 ≤ length ds)
    × (length ds ≤ 9)
    × ((d ≡ b'.') ⊎ (d ≡ b')'))

abbrev pub IsListMarker : Bytes → Type 0
IsListMarker m = IsBullet m ⊎ IsOrdinal m

-- A line that begins a quote or a list item has a container, and is not indented.
abbrev Opens : Bytes → Type 0
Opens s = (is_some (container s) ≡ true) × (leading_spaces s ≡ 0)

digit_run-digits :
    (k : ℕ) (ds : Bytes) (d : ℕ) (s : Bytes)
    → length ds ≤ k
    → all_digits ds ≡ true
    → is_digit d ≡ false
    → digit_run k (ds ++ d ∷ s) ≡ length ds
unfolding digit_run all_digits
digit_run-digits zero [] d s le h no_digit = refl
digit_run-digits (suc k) [] d s le h no_digit = rw no_digit refl
digit_run-digits zero (c ∷ ds) d s le h no_digit = absurd (omega (arith, le))
digit_run-digits (suc k) (c ∷ ds) d s le h no_digit =
    let first : is_digit c ≡ true = ground (arith, h) in
    rw first (ap suc (digit_run-digits k ds d s (omega (arith, le)) (ground (arith, h)) no_digit))

drop-length : (xs s : Bytes) → drop (length xs) (xs ++ s) ≡ s
drop-length [] s = refl
drop-length (x ∷ xs) s = drop-length xs s

drop-past : (xs s : Bytes) (d : ℕ) → drop (suc (length xs)) (xs ++ d ∷ s) ≡ s
drop-past [] s d = refl
drop-past (x ∷ xs) s d = drop-past xs s d

leading_spaces-replicate :
    (k : ℕ) (s : Bytes) → first_is space s ≡ false → leading_spaces (replicate k space ++ s) ≡ k
unfolding leading_spaces
leading_spaces-replicate zero [] h = refl
leading_spaces-replicate zero (c ∷ s) h = rw h refl
leading_spaces-replicate (suc k) s h = ap suc (leading_spaces-replicate k s h)

module _ (k : ℕ) (tail : Bytes) (few : k ≤ 4) (some_space : 1 ≤ k)
    (ends : first_is space tail ≡ false) where
  abbrev spaced : Bytes
  spaced = replicate k space ++ tail

  -- A line with a marker of this width, and the spaces behind it.
  marked-Opens :
      (c : ℕ) (s : Bytes) (i : ℕ)
      → marker_width (c ∷ s) ≡ some i
      → drop i (c ∷ s) ≡ spaced
      → (c == space) ≡ false
      → Opens (c ∷ s)
  unfolding container leading_spaces list_marker_len
  marked-Opens c s i width behind visible =
      let spaces : leading_spaces (drop i (c ∷ s)) ≡ k =
        ap leading_spaces behind ∙ leading_spaces-replicate k tail ends in
      let fits_in : (k == 0 || ltb 4 k) ≡ false = ground (arith, few, some_space) in
      let len : list_marker_len (c ∷ s) ≡ i + k =
        rw (list_marker_len, width, spaces, fits_in) refl in
      let wide : (list_marker_len (c ∷ s) == 0) ≡ false = ground (arith, len, some_space) in
      (
        elim (Bool-cases (c == b'>')) [
          | inl quoted ↦ elim (Bool-cases (leading_spaces s == 0)) [
            | inl bare ↦ rw (container, quoted, bare) refl
            | inr padded ↦ rw (container, quoted, padded) refl
          ]
          | inr other ↦ rw (container, other, wide) refl
        ],
        rw visible refl,
      )

  bullet-Opens : (c : ℕ) → (c ≡ b'-') ⊎ (c ≡ b'*') ⊎ (c ≡ b'+') → Opens (c ∷ spaced)
  unfolding marker_width
  bullet-Opens c which =
      let is_bullet : (c == b'-' || c == b'*' || c == b'+') ≡ true = ground (arith, which) in
      marked-Opens c spaced 1 (rw (marker_width, is_bullet) refl) refl (ground (arith, which))

  ordinal-Opens :
      (c : ℕ) (ds : Bytes) (d : ℕ)
      → all_digits (c ∷ ds) ≡ true
      → length (c ∷ ds) ≤ 9
      → (d ≡ b'.') ⊎ (d ≡ b')')
      → Opens (c ∷ (ds ++ d ∷ spaced))
  unfolding all_digits is_digit marker_width
  ordinal-Opens c ds d digits short which =
      let no_bullet : (c == b'-' || c == b'*' || c == b'+') ≡ false = ground (arith, digits) in
      let run : digit_run 9 (c ∷ (ds ++ d ∷ spaced)) ≡ suc (length ds) =
        digit_run-digits 9 (c ∷ ds) d spaced short digits (ground (arith, which)) in
      let delimiter : (d == b'.' || d == b')') ≡ true = ground (arith, which) in
      let behind : drop (length ds) (ds ++ d ∷ spaced) ≡ d ∷ spaced = drop-length ds (d ∷ spaced) in
      let one_more : suc (length ds) + 1 ≡ suc (suc (length ds)) = omega arith in
      let width : marker_width (c ∷ (ds ++ d ∷ spaced)) ≡ some (suc (suc (length ds))) =
        rw (marker_width, no_bullet, run, behind, delimiter) (ground (arith, one_more)) in
      marked-Opens c (ds ++ d ∷ spaced) (suc (suc (length ds))) width (drop-past ds spaced d)
        (ground (arith, digits))

  marker-Opens : (m : Bytes) → IsListMarker m → Opens (m ++ spaced)
  marker-Opens m (inl (inl e)) =
      subst (λ (x : Bytes). Opens (x ++ spaced)) (sym e) (bullet-Opens b'-' (inl refl))
  marker-Opens m (inl (inr (inl e))) =
      subst (λ (x : Bytes). Opens (x ++ spaced)) (sym e) (bullet-Opens b'*' (inr (inl refl)))
  marker-Opens m (inl (inr (inr e))) =
      subst (λ (x : Bytes). Opens (x ++ spaced)) (sym e) (bullet-Opens b'+' (inr (inr refl)))
  marker-Opens m (inr ([], d, e, digits, some_digit, short, which)) =
      absurd (omega (arith, some_digit))
  marker-Opens m (inr (c ∷ ds, d, e, digits, some_digit, short, which)) =
      subst Opens (sym (ap (λ (x : Bytes). x ++ spaced) e ∙ append_assoc (c ∷ ds) (d ∷ []) spaced))
        (ordinal-Opens c ds d digits short which)

quote-Opens : (s : Bytes) → Opens (b'>' ∷ s)
unfolding container leading_spaces
quote-Opens s = elim (Bool-cases (leading_spaces s == 0)) [
  | inl bare ↦ (rw (container, bare) refl, refl)
  | inr padded ↦ (rw (container, padded) refl, refl)
]

Opens-not_peeled : (s t : Bytes) → IsPeeled s → Opens t → s ≢ t
Opens-not_peeled s t (inl deep) opens_it e =
    let none_there : leading_spaces s ≡ 0 = ap leading_spaces e ∙ opens_it.1 in
    absurd (omega (arith, deep, none_there))
Opens-not_peeled s t (inr bare) opens_it e =
    let no_more : false ≡ true =
      sym (ap is_some bare) ∙ ap (λ (x : Bytes). is_some (container x)) e ∙ opens_it.0 in
    cc

-- Splitting the containers off a line leaves none in front: what is left is no quote, and it does not
-- begin with a list marker, that is, with `-`, `*`, `+` or one to nine digits and `.` or `)`, that has
-- one to four spaces and no further space behind it. The prefix of the following lines and what is left
-- are together as wide as the line.
pub split_containers-leaves :
    (line quoted marker tail : Bytes) (k : ℕ)
    → IsListMarker marker
    → 1 ≤ k
    → k ≤ 4
    → first_is space tail ≡ false
    → ((split_containers line).1 ≢ b'>' ∷ quoted)
      × ((split_containers line).1 ≢ marker ++ (replicate k space ++ tail))
      × (length (split_containers line).0 + length (split_containers line).1 ≡ length line)
split_containers-leaves line quoted marker tail k is_marker some_space few ends =
    let (peeled, width) = split_containers-IsPeeled line in
    (
      Opens-not_peeled (split_containers line).1 (b'>' ∷ quoted) peeled (quote-Opens quoted),
      Opens-not_peeled (split_containers line).1 (marker ++ (replicate k space ++ tail)) peeled
          (marker-Opens k tail few some_space ends marker is_marker),
      width,
    )
