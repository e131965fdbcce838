-- ===== src/Cmd/Lines/RoundTrip.antt =====
-- Proofs about the place of a comment: what is printed is read back.
use mathlib.Core.List.{reverse-reverse, reverse_aux}
use sbnn.Cmd.Lines.{
  cut_last, in_order, is_number, line_suffix, match_lines, parse_line_spec, parse_lines,
  starts_with_digit,
}
use sbnn.Diff.Parser.{start}
use sbnn.Model.{path}
use sbnn.Prelude.{
  All, All-append, Bool-cases, Bytes, [], any, ap, append-nil, arith, false, inl, inr, leb, ltb,
  ltb→lt, none, refl, reverse, some, suc, sym, true, zero, ℕ, ◌%◌, ◌++◌, ◌+◌, ◌/◌, ◌<◌, ◌==◌, ◌∙◌,
  ◌∷◌, ◌≡◌, ◌≤◌,
}
use sbnn.Review.Threads.Filed.{any-append}
use sbnn.Text.{is_empty}
use sbnn.Text.Affix.{after_prefix, drop_space, trim_space}
use sbnn.Text.Number.{all_digits, atoi, digits_onto, is_digit, itoa, max_int}
use sbnn.Text.Number.RoundTrip.{value_from-itoa}
use sbnn.Text.Split.{cut}
use sbnn.Text.Trimmed.{IsVisible, trim_space-visible}

digits_onto-digits :
    (fuel n : ℕ) (s : Bytes) → all_digits s ≡ true → all_digits (digits_onto fuel n s) ≡ true
unfolding digits_onto all_digits
digits_onto-digits zero n s h = h
digits_onto-digits (suc fuel) n s h =
    let d : is_digit (n % 10 + 48) ≡ true = unfold is_digit in ground arith in
    elim (Bool-cases (ltb n 10)) [
      | inl small ↦ rw (small, d) h
      | inr big ↦ rw big (digits_onto-digits fuel (n / 10) ((n % 10 + 48) ∷ s) (rw d h))
    ]

digits_onto-first :
    (fuel n c : ℕ) (s : Bytes) → (d : ℕ) × (t : Bytes) × (digits_onto fuel n (c ∷ s) ≡ d ∷ t)
unfolding digits_onto
digits_onto-first zero n c s = (c, s, refl)
digits_onto-first (suc fuel) n c s = elim (Bool-cases (ltb n 10)) [
  | inl small ↦ (n % 10 + 48, c ∷ s, rw small refl)
  | inr big ↦
      let (d, t, e) = digits_onto-first fuel (n / 10) (n % 10 + 48) (c ∷ s) in (d, t, rw big e)
]

itoa-first : (n : ℕ) → (d : ℕ) × (t : Bytes) × (itoa n ≡ d ∷ t)
unfolding itoa digits_onto
itoa-first n = elim (Bool-cases (ltb n 10)) [
  | inl small ↦ (n % 10 + 48, [], rw (itoa, digits_onto, small) refl)
  | inr big ↦
      let (d, t, e) = digits_onto-first n (n / 10) (n % 10 + 48) [] in
      (d, t, rw (itoa, digits_onto, big) e)
]

itoa-digits : (n : ℕ) → all_digits (itoa n) ≡ true
unfolding itoa
itoa-digits n = digits_onto-digits (suc n) n [] (unfold all_digits in refl)

itoa-is_number : (n : ℕ) → is_number (itoa n) ≡ true
itoa-is_number n =
    let (d, t, e) = itoa-first n in
    let all_of_it : all_digits (d ∷ t) ≡ true = ap all_digits (sym e) ∙ itoa-digits n in
    ap is_number e ∙ all_of_it

itoa-starts_with_digit : (n : ℕ) (s : Bytes) → starts_with_digit (itoa n ++ s) ≡ true
itoa-starts_with_digit n s =
    let (d, t, e) = itoa-first n in
    let all_of_it : all_digits (d ∷ t) ≡ true = ap all_digits (sym e) ∙ itoa-digits n in
    ap (λ (u : Bytes). starts_with_digit (u ++ s)) e
    ∙ (unfold all_digits in ground (arith, all_of_it))

digits-lack :
    (b : ℕ) (s : Bytes) → is_digit b ≡ false → all_digits s ≡ true → any (λ c. c == b) s ≡ false
unfolding all_digits is_digit
digits-lack b [] h k = refl
digits-lack b (c ∷ s) h k = ground (arith, h, k, digits-lack b s h)

digits-IsVisible : (s : Bytes) → all_digits s ≡ true → All IsVisible s
unfolding all_digits is_digit
digits-IsVisible [] h = tt
digits-IsVisible (c ∷ s) h =
    ((ground (arith, h), ground (arith, h)), digits-IsVisible s (ground (arith, h)))

All-reverse_aux :
    (s acc : Bytes) → All IsVisible s → All IsVisible acc → All IsVisible (reverse_aux s acc)
All-reverse_aux [] acc h k = k
All-reverse_aux (c ∷ s) acc h k = All-reverse_aux s (c ∷ acc) h.1 (h.0, k)

trim_space-All : (s : Bytes) → All IsVisible s → trim_space s ≡ s
trim_space-All [] h = unfold trim_space drop_space in refl
trim_space-All (c ∷ s) h = ends (reverse (c ∷ s)) refl (All-reverse_aux (c ∷ s) [] h tt)
  where
    ends : (r : Bytes) → reverse (c ∷ s) ≡ r → All IsVisible r → trim_space (c ∷ s) ≡ c ∷ s
    ends [] e k = let no : c ∷ s ≡ [] = sym (reverse-reverse (c ∷ s)) ∙ ap reverse e in cc
    ends (d ∷ t) e k = trim_space-visible c d s t h.0 k.0 e

cut-absent : (b : ℕ) (s : Bytes) → any (λ c. c == b) s ≡ false → cut (b ∷ []) s ≡ none
unfolding cut after_prefix
cut-absent b [] h = refl
cut-absent b (c ∷ s) h =
    let other : (c == b) ≡ false = ground (arith, h) in
    rw (cut, other, cut-absent b s (ground (arith, h))) refl

cut-first :
    (b : ℕ) (s t : Bytes) → any (λ c. c == b) s ≡ false → cut (b ∷ []) (s ++ b ∷ t) ≡ some (s, t)
unfolding cut after_prefix
cut-first b [] t h = let same : (b == b) ≡ true = ground arith in rw (cut, same) refl
cut-first b (c ∷ s) t h =
    let other : (c == b) ≡ false = ground (arith, h) in
    rw (cut, other, cut-first b s t (ground (arith, h))) refl

cut_last-absent : (s : Bytes) → any (λ c. c == b':') s ≡ false → cut_last s ≡ none
unfolding cut_last
cut_last-absent [] h = refl
cut_last-absent (c ∷ s) h =
    let other : (c == b':') ≡ false = ground (arith, h) in
    rw (cut_last-absent s (ground (arith, h)), other) refl

cut_last-append :
    (p s : Bytes) → any (λ c. c == b':') s ≡ false → cut_last (p ++ b':' ∷ s) ≡ some (p, s)
unfolding cut_last
cut_last-append [] s h = rw (cut_last-absent s h) refl
cut_last-append (c ∷ p) s h = rw (cut_last-append p s h) refl

atoi-itoa : (n : ℕ) → n ≤ max_int → atoi (itoa n) ≡ some n
unfolding atoi
atoi-itoa n h =
    let fit : leb n max_int ≡ true = ground (arith, h) in rw (value_from-itoa n, fit) refl

parse_lines-one : (n : ℕ) → 1 ≤ n → n ≤ max_int → parse_lines (itoa n) ≡ some (n, n)
unfolding parse_lines match_lines
parse_lines-one n positive fit =
    let trimmed : trim_space (itoa n) ≡ itoa n =
      trim_space-All (itoa n) (digits-IsVisible (itoa n) (itoa-digits n)) in
    let no_dash : cut (b'-' ∷ []) (itoa n) ≡ none =
      cut-absent b'-' (itoa n)
        (digits-lack b'-' (itoa n) (unfold is_digit in refl) (itoa-digits n)) in
    let ordered : in_order n n ≡ some (n, n) = ground (arith, positive) in
    let matched : match_lines (itoa n) ≡ some (itoa n, []) =
      rw (match_lines, no_dash, itoa-is_number n) refl in
    rw (trimmed, matched, atoi-itoa n fit) ordered

parse_lines-two :
    (m n : ℕ) → 1 ≤ m → m < n → n ≤ max_int → parse_lines (itoa m ++ b'-' ∷ itoa n) ≡ some (m, n)
unfolding parse_lines match_lines
parse_lines-two m n positive before fit =
    let place = itoa m ++ b'-' ∷ itoa n in
    let trimmed : trim_space place ≡ place = trim_space-All place (
      All-append IsVisible (itoa m) (b'-' ∷ itoa n) (digits-IsVisible (itoa m) (itoa-digits m))
        ((omega arith, omega arith), digits-IsVisible (itoa n) (itoa-digits n))) in
    let parts : cut (b'-' ∷ []) place ≡ some (itoa m, itoa n) =
      cut-first b'-' (itoa m) (itoa n)
        (digits-lack b'-' (itoa m) (unfold is_digit in refl) (itoa-digits m)) in
    let not_empty : is_empty (itoa n) ≡ false = let (d, t, e) = itoa-first n in ap is_empty e in
    let ordered : in_order m n ≡ some (m, n) = ground (arith, positive, before) in
    let fit' : m ≤ max_int = omega (arith, before, fit) in
    rw
      (
        trimmed,
        match_lines,
        parts,
        itoa-is_number m,
        itoa-is_number n,
        not_empty,
        atoi-itoa m fit',
        atoi-itoa n fit,
      )
      ordered

any-two :
    (m n : ℕ)
    → any (λ c. c == b':') (itoa m) ≡ false
    → any (λ c. c == b':') (itoa n) ≡ false
    → any (λ c. c == b':') (itoa m ++ b'-' ∷ itoa n) ≡ false
any-two m n h k = any-append (λ c. c == b':') (itoa m) (b'-' ∷ itoa n) ∙ ground (arith, h, k)

spec-read :
    (path place : Bytes) (l : ℕ × ℕ)
    → is_empty path ≡ false
    → any (λ c. c == b':') place ≡ false
    → starts_with_digit place ≡ true
    → parse_lines place ≡ some l
    → parse_line_spec (path ++ b':' ∷ place) ≡ some (path, l.0, l.1)
unfolding parse_line_spec
spec-read path place l named no_colon digit_first read =
    rw (parse_line_spec, cut_last-append path place no_colon, named, digit_first, read) refl

-- A place that is printed is read back: where a path is not empty and the lines are positive Go ints in
-- order, `parseLineSpec` reads the path with the suffix that `lineSuffix` prints for the lines as that
-- path and those lines, also where the path holds colons of its own.
pub parse_line_spec-line_suffix :
    (path : Bytes) (start end : ℕ)
    → is_empty path ≡ false
    → 1 ≤ start
    → start ≤ end
    → end ≤ max_int
    → parse_line_spec (path ++ line_suffix start end) ≡ some (path, start, end)
unfolding line_suffix
parse_line_spec-line_suffix path start end named positive ordered fit =
    let above : (start == 0) ≡ false = ground (arith, positive) in
    let no_colon : (n : ℕ) → any (λ c. c == b':') (itoa n) ≡ false =
      λ n. digits-lack b':' (itoa n) (unfold is_digit in refl) (itoa-digits n) in
    elim (Bool-cases (ltb start end)) [
      | inl two ↦
          let before : start < end = ltb→lt start end two in
          rw (line_suffix, above, two)
            (spec-read path (itoa start ++ b'-' ∷ itoa end) (start, end) named
              (any-two start end (no_colon start) (no_colon end))
              (itoa-starts_with_digit start (b'-' ∷ itoa end))
              (parse_lines-two start end positive before fit))
      | inr one ↦
          let same : end ≡ start = ground (arith, one, ordered) in
          let digit_first : starts_with_digit (itoa start) ≡ true =
            ap starts_with_digit (sym (append-nil (itoa start)))
            ∙ itoa-starts_with_digit start [] in
          rw (line_suffix, above, one, same)
            (spec-read path (itoa start) (start, start) named (no_colon start) digit_first
              (parse_lines-one start positive (omega (arith, ordered, fit))))
    ]
