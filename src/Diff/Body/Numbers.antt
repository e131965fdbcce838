-- ===== src/Diff/Body/Numbers.antt =====
-- Proofs about `readHunk`: the numbers of the lines of a hunk.
use mathlib.Core.Path.{subst}
use mathlib.Core.Option.{some-injective}
use mathlib.Core.List.{reverse-cons}
use sbnn.Diff.Body.{
  BodyState, at_end, body_line, body_start, exhausted, mark_no_newline, pass, read_body,
  read_hunk_body, take_line, with_surplus,
}
use sbnn.Model.{Hunk, Line, LineKind, add, context, delete, next_int}
use sbnn.Prelude.{
  >>=-eq-some, Bool-cases, Bytes, List, Option, Option-cases, [], ap, if◌then◌else◌, inl, inr,
  is_some, none, not, refl, reverse, some, sym, ℕ, ◌&&◌, ◌++◌, ◌∙◌, ◌∷◌, ◌≡◌,
}
use sbnn.Session.Titles.{plain}
use sbnn.Text.{codes}
use sbnn.Text.Affix.{has_prefix}

-- The number of the next line of the old side, and of the new side, behind a line.
abbrev pub after_old : ℕ → LineKind → ℕ
after_old o context = next_int o
after_old o add = o
after_old o delete = next_int o

abbrev pub after_new : ℕ → LineKind → ℕ
after_new n context = next_int n
after_new n add = next_int n
after_new n delete = n

-- A line has the numbers of the sides that it is on, and 0 on the other.
abbrev pub HasNumbers : ℕ → ℕ → LineKind → ℕ → ℕ → Type 0
HasNumbers o n context a b = (a ≡ o) × (b ≡ n)
HasNumbers o n add a b = (a ≡ 0) × (b ≡ n)
HasNumbers o n delete a b = (a ≡ o) × (b ≡ 0)

abbrev pub AreNumbered : ℕ → ℕ → List Line → Type 0
AreNumbered o n [] = Unit
AreNumbered o n (l ∷ ls) =
    HasNumbers o n l.kind l.old_number l.new_number
    × AreNumbered (after_old o l.kind) (after_new n l.kind) ls

-- The numbers that come next behind some lines.
end_old : ℕ → List Line → ℕ
end_old o [] = o
end_old o (l ∷ ls) = end_old (after_old o l.kind) ls

end_new : ℕ → List Line → ℕ
end_new n [] = n
end_new n (l ∷ ls) = end_new (after_new n l.kind) ls

AreNumbered-concat :
    (o n : ℕ) (ls : List Line) (l : Line)
    → AreNumbered o n ls
    → HasNumbers (end_old o ls) (end_new n ls) l.kind l.old_number l.new_number
    → AreNumbered o n (ls ++ l ∷ [])
unfolding end_old end_new
AreNumbered-concat o n [] l h k = (k, tt)
AreNumbered-concat o n (m ∷ ls) l h k =
    (h.0, AreNumbered-concat (after_old o m.kind) (after_new n m.kind) ls l h.1 k)

end_old-concat :
    (o : ℕ) (ls : List Line) (l : Line) → end_old o (ls ++ l ∷ []) ≡ after_old (end_old o ls) l.kind
unfolding end_old
end_old-concat o [] l = refl
end_old-concat o (m ∷ ls) l = end_old-concat (after_old o m.kind) ls l

end_new-concat :
    (n : ℕ) (ls : List Line) (l : Line) → end_new n (ls ++ l ∷ []) ≡ after_new (end_new n ls) l.kind
unfolding end_new
end_new-concat n [] l = refl
end_new-concat n (m ∷ ls) l = end_new-concat (after_new n m.kind) ls l

-- The lines from the last to the first are numbered, and `a` and `b` are the numbers that come next.
abbrev IsCounted : ℕ → ℕ → List Line → ℕ → ℕ → Type 0
IsCounted o n [] a b = (a ≡ o) × (b ≡ n)
IsCounted o n (l ∷ ls) a b =
    (a' : ℕ) × (b' : ℕ) × IsCounted o n ls a' b'
    × HasNumbers a' b' l.kind l.old_number l.new_number
    × (a ≡ after_old a' l.kind)
    × (b ≡ after_new b' l.kind)

module _ (o n : ℕ) where
  reverse-AreNumbered :
      (read : List Line) (a b : ℕ)
      → IsCounted o n read a b
      → AreNumbered o n (reverse read)
        × (end_old o (reverse read) ≡ a)
        × (end_new n (reverse read) ≡ b)
  unfolding end_old end_new
  reverse-AreNumbered [] a b h = (tt, sym h.0, sym h.1)
  reverse-AreNumbered (l ∷ ls) a b (a', b', before, here, at_old, at_new) =
      let (numbered, old, new) = reverse-AreNumbered ls a' b' before in
      rw (reverse-cons l ls) (
        AreNumbered-concat o n (reverse ls) l numbered (rw (old, new) here),
        end_old-concat o (reverse ls) l ∙ ap (λ (x : ℕ). after_old x l.kind) old ∙ sym at_old,
        end_new-concat n (reverse ls) l ∙ ap (λ (x : ℕ). after_new x l.kind) new ∙ sym at_new,
      )

  mark-IsCounted :
      (read : List Line) (a b : ℕ)
      → IsCounted o n read a b
      → IsCounted o n (mark_no_newline read) a b
  mark-IsCounted [] a b h = h
  mark-IsCounted (l ∷ ls) a b h = h

  abbrev IsOn : BodyState → Type 0
  IsOn st = IsCounted o n st.read st.old_no st.new_no

  take_line-IsOn :
      (st : BodyState) (kind : LineKind) (s : Bytes) → IsOn st → IsOn (take_line st kind s)
  unfolding take_line
  take_line-IsOn st context s h = (st.old_no, st.new_no, h, (refl, refl), refl, refl)
  take_line-IsOn st add s h = (st.old_no, st.new_no, h, (refl, refl), refl, refl)
  take_line-IsOn st delete s h = (st.old_no, st.new_no, h, (refl, refl), refl, refl)

  with_surplus-IsOn : (st : BodyState) (ls : List Bytes) → IsOn st → IsOn (with_surplus st ls)
  unfolding with_surplus
  with_surplus-IsOn st ls h = elim (Bool-cases (exhausted st && not (is_some st.surplus))) [
    | inl out ↦ rw out h
    | inr more ↦ rw more h
  ]

  abbrev Result : Option (List Line × List Bytes) → Type 0
  Result none = Unit
  Result (some r) = AreNumbered o n r.0

  again-Result :
      (st : BodyState) (l : Bytes) (ls : List Bytes)
      → IsOn st
      → Result (
          let cleared = with_surplus (record st { old_left = 0; new_left = 0 }) (l ∷ ls) in
          if at_end cleared then some (reverse cleared.read, l ∷ ls) else none)
  again-Result st l ls h =
      let st' : BodyState = record st { old_left = 0; new_left = 0 } in
      let cleared = with_surplus st' (l ∷ ls) in
      let on : IsOn cleared = with_surplus-IsOn st' (l ∷ ls) h in
      elim (Bool-cases (at_end cleared)) [
        | inl stop ↦ rw stop (reverse-AreNumbered cleared.read cleared.old_no cleared.new_no on).0
        | inr more ↦ rw more tt
      ]

  read_body-Result : (st : BodyState) (ls : List Bytes) → IsOn st → Result (read_body st ls)
  unfolding read_body
  read_body-Result st [] h = (reverse-AreNumbered st.read st.old_no st.new_no h).0
  read_body-Result st (l ∷ ls) h =
      let st' = with_surplus st (l ∷ ls) in
      let on : IsOn st' = with_surplus-IsOn st (l ∷ ls) h in
      elim (Bool-cases (has_prefix l (codes "\\"))) [
        | inl marker ↦ rw marker (
            read_body-Result
              (record st { read = mark_no_newline st.read; surplus = pass st.surplus }) ls
              (mark-IsCounted st.read st.old_no st.new_no h))
        | inr plain ↦ elim (Bool-cases (at_end st')) [
          | inl stop ↦ rw (plain, stop) (reverse-AreNumbered st'.read st'.old_no st'.new_no on).0
          | inr more ↦ elim (Option-cases (body_line l)) [
            | inl other ↦ rw (plain, more, other) (again-Result st' l ls on)
            | inr ((kind, s), body) ↦
                rw (plain, more, body)
                  (read_body-Result (take_line st' kind s) ls (take_line-IsOn st' kind s on))
          ]
        ]
      ]

  -- The lines of a hunk are numbered from the two numbers of its header on.
  pub read_hunk_body-AreNumbered :
      (h : Hunk) (ls : List Bytes) {r : Hunk × List Bytes}
      → h.old_start ≡ o
      → h.new_start ≡ n
      → read_hunk_body h ls ≡ some r
      → AreNumbered o n r.0.lines
  unfolding read_hunk_body
  read_hunk_body-AreNumbered h ls ho hn e =
      let (q, body, same) =
        >>=-eq-some (read_body (body_start h) ls) (λ q. some (record h { lines = q.0 }, q.1)) e in
      subst (λ (x : Hunk × List Bytes). AreNumbered o n x.0.lines) (some-injective _ _ same)
        (rw body at (read_body-Result (body_start h) ls (ho, hn)))
