-- ===== src/Diff/Containers/Peeled.antt =====
-- Proofs about `splitContainers`: what is taken off a line, and that nothing is left to take.
use mathlib.Core.Path.{subst}
use mathlib.Core.Option.{some-injective}
use sbnn.Diff.Containers.{
  container, leading_spaces, list_marker_len, marker_width, peel, space, split_containers,
}
use sbnn.Prelude.{
  Bool-cases, Bytes, Option-cases, [], ap, arith, drop, false, inl, inr, length, length-append, ltb,
  ltb→lt, none, refl, replicate, some, suc, zero, ℕ, ◌++◌, ◌+◌, ◌<◌, ◌==◌, ◌||◌, ◌∙◌, ◌∷◌, ◌≡◌, ◌≤◌,
  ◌⊎◌,
}

leading_spaces-le : (s : Bytes) → leading_spaces s ≤ length s
unfolding leading_spaces
leading_spaces-le [] = omega arith
leading_spaces-le (c ∷ s) = ground (arith, leading_spaces-le s)

length-replicate : (n c : ℕ) → length (replicate n c) ≡ n
length-replicate zero c = refl
length-replicate (suc n) c = ap suc (length-replicate n c)

length-drop : (n : ℕ) (s : Bytes) → n ≤ length s → n + length (drop n s) ≡ length s
length-drop zero s h = omega arith
length-drop (suc n) [] h = omega (arith, h)
length-drop (suc n) (c ∷ s) h =
    let le : n ≤ length s = omega (arith, h) in omega (arith, length-drop n s le)

drop-in_range : (n : ℕ) (s : Bytes) → 1 ≤ length (drop n s) → n ≤ length s
drop-in_range zero s h = omega arith
drop-in_range (suc n) [] h = omega (arith, h)
drop-in_range (suc n) (c ∷ s) h = omega (arith, drop-in_range n s h)

positive : (n : ℕ) → (n == 0) ≡ false → 1 ≤ n
positive n h = ground arith

list_marker_len-le : (s : Bytes) → list_marker_len s ≤ length s
unfolding list_marker_len
list_marker_len-le s = elim (Option-cases (marker_width s)) [
  | inl no_marker ↦ rw (list_marker_len, no_marker) (omega arith)
  | inr (i, marked) ↦
      let spaces = leading_spaces (drop i s) in
      elim (Bool-cases (spaces == 0 || ltb 4 spaces)) [
        | inl not_one ↦ rw (list_marker_len, marked, not_one) (omega arith)
        | inr is_one ↦
            let some_space : 1 ≤ spaces = positive spaces (ground (arith, is_one)) in
            let fit : spaces ≤ length (drop i s) = leading_spaces-le (drop i s) in
            let in_range : i ≤ length s = drop-in_range i s (omega (arith, some_space, fit)) in
            rw (list_marker_len, marked, is_one) (omega (arith, fit, length-drop i s in_range))
      ]
]

-- A container continues with as many bytes as it takes, and takes at least one.
container-width :
    (s : Bytes) {p r : Bytes}
    → container s ≡ some (p, r)
    → (length p + length r ≡ length s) × (1 ≤ length p)
unfolding container
container-width [] e = cc
container-width (c ∷ s) {p} {r} e =
    let n = list_marker_len (c ∷ s) in
    let IsWide : Bytes × Bytes → Type 0 =
      λ q. (length q.0 + length q.1 ≡ suc (length s)) × (1 ≤ length q.0) in
    elim (Bool-cases (c == b'>')) [
      | inl quoted ↦ elim (Bool-cases (leading_spaces s == 0)) [
        | inl bare ↦
            let same : (b'>' ∷ [], s) ≡ (p, r) = some-injective _ _ (rw (quoted, bare) at e) in
            subst IsWide same (omega arith, omega arith)
        | inr spaced ↦
            let same : (b'>' ∷ space ∷ [], drop 1 s) ≡ (p, r) =
              some-injective _ _ (rw (quoted, spaced) at e) in
            let one : 1 ≤ leading_spaces s = positive (leading_spaces s) spaced in
            let long : 1 ≤ length s = omega (arith, one, leading_spaces-le s) in
            subst IsWide same (omega (arith, length-drop 1 s long), omega arith)
      ]
      | inr other ↦ elim (Bool-cases (n == 0)) [
        | inl unmarked ↦ let bad : none ≡ some (p, r) = (rw (other, unmarked) at e) in cc
        | inr marked ↦
            let same : (replicate n space, drop n (c ∷ s)) ≡ (p, r) =
              some-injective _ _ (rw (other, marked) at e) in
            subst IsWide same (
              omega (
                arith,
                length-replicate n space,
                length-drop n (c ∷ s) (list_marker_len-le (c ∷ s)),
              ),
              omega (arith, positive n marked, length-replicate n space),
            )
      ]
    ]

-- Is there no container to take off?
abbrev pub IsPeeled : Bytes → Type 0
IsPeeled s = (3 < leading_spaces s) ⊎ (container s ≡ none)

peel-width :
    (fuel : ℕ) (cont rest : Bytes)
    → length (peel fuel cont rest).0 + length (peel fuel cont rest).1 ≡ length cont + length rest
unfolding peel
peel-width zero cont rest = refl
peel-width (suc fuel) cont rest =
    let n = leading_spaces rest in
    let split_off : n + length (drop n rest) ≡ length rest =
      length-drop n rest (leading_spaces-le rest) in
    elim (Bool-cases (ltb 3 n)) [
      | inl deep ↦ rw deep refl
      | inr shallow ↦ elim (Option-cases (container (drop n rest))) [
        | inl bare ↦
            rw (shallow, bare)
              (omega (
                arith,
                split_off,
                length-append cont (replicate n space),
                length-replicate n space,
              ))
        | inr ((p, r), found) ↦
            rw (shallow, found)
              (omega (
                arith,
                split_off,
                (container-width (drop n rest) found).0,
                peel-width fuel (cont ++ (replicate n space ++ p)) r,
                length-append cont (replicate n space ++ p),
                length-append (replicate n space) p,
                length-replicate n space,
              ))
      ]
    ]

peel-IsPeeled :
    (fuel : ℕ) (cont rest : Bytes) → length rest < fuel → IsPeeled (peel fuel cont rest).1
unfolding peel
peel-IsPeeled zero cont rest h = omega (arith, h)
peel-IsPeeled (suc fuel) cont rest h =
    let n = leading_spaces rest in
    let split_off : n + length (drop n rest) ≡ length rest =
      length-drop n rest (leading_spaces-le rest) in
    elim (Bool-cases (ltb 3 n)) [
      | inl deep ↦ rw deep (inl (ltb→lt 3 n deep))
      | inr shallow ↦ elim (Option-cases (container (drop n rest))) [
        | inl bare ↦ rw (shallow, bare) (inr bare)
        | inr ((p, r), found) ↦
            let width = container-width (drop n rest) found in
            rw (shallow, found)
              (peel-IsPeeled fuel (cont ++ (replicate n space ++ p)) r
                (omega (arith, h, split_off, width.0, width.1)))
      ]
    ]

-- Splitting the containers off a line comes to an end with nothing left to take: what is left starts
-- no quote and no list item, or is indented by four spaces or more. The prefix of the following lines
-- and what is left are as wide as the line.
pub split_containers-IsPeeled :
    (line : Bytes)
    → IsPeeled (split_containers line).1
      × (length (split_containers line).0 + length (split_containers line).1 ≡ length line)
unfolding split_containers
split_containers-IsPeeled line = (
  peel-IsPeeled (suc (length line)) [] line (omega arith),
  peel-width (suc (length line)) [] line ∙ (omega arith),
)
