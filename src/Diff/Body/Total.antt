-- ===== src/Diff/Body/Total.antt =====
-- Proofs about the loop of `readHunk`: that it ends.
use sbnn.Diff.Body.{
  BodyState, Scan, ambiguous, at_end, body_line, change, exhausted, mark_no_newline, outside, pass,
  read_body, scan_line, surplus_body_end, surplus_from, take_line, with_surplus,
}
use sbnn.Model.{Line, LineKind, add, context, delete}
use sbnn.Prelude.{
  Bool-cases, Bytes, List, Option, Option-cases, [], arith, false, inl, inr, is_some, length, none,
  not, refl, reverse, some, suc, true, zero, ℕ, ◌&&◌, ◌+◌, ◌-◌, ◌∷◌, ◌≡◌, ◌≢◌, ◌≤◌, ◌⊎◌,
}
use sbnn.Session.Titles.{plain}
use sbnn.Text.{codes}
use sbnn.Text.Affix.{has_prefix}

-- So many lines that the scan behind the counts does not stop at.
abbrev Inside : ℕ → List Bytes → Type 0
Inside zero ls = Unit
Inside (suc k) [] = ⊥
Inside (suc k) (l ∷ ls) = (scan_line l ≢ outside) × Inside k ls

Scan-cases : (o : Scan) → (o ≡ ambiguous) ⊎ (o ≡ change) ⊎ (o ≡ outside)
Scan-cases ambiguous = inl refl
Scan-cases change = inr (inl refl)
Scan-cases outside = inr (inr refl)

-- What the scan counts, none of it stops the scan.
surplus_from-Inside :
    (p e : ℕ) (ls : List Bytes) (k : ℕ) → e ≤ p → surplus_from p e ls ≡ p + k → Inside k ls
unfolding surplus_from
surplus_from-Inside p e ls zero le h = tt
surplus_from-Inside p e [] (suc k) le h = absurd (omega arith)
surplus_from-Inside p e (l ∷ ls) (suc k) le h = elim (Scan-cases (scan_line l)) [
  | inl o ↦
      let r : surplus_from (suc p) e ls ≡ p + suc k = rw (o, surplus_from) at h in
      (rw o (λ q. cc), surplus_from-Inside (suc p) e ls k (omega arith) (omega arith))
  | inr (inl o) ↦
      let r : surplus_from (suc p) (suc p) ls ≡ p + suc k = rw (o, surplus_from) at h in
      (rw o (λ q. cc), surplus_from-Inside (suc p) (suc p) ls k (omega arith) (omega arith))
  | inr (inr o) ↦ let r : e ≡ p + suc k = rw (o, surplus_from) at h in absurd (omega arith)
]

abbrev SurplusFits : Option ℕ → List Bytes → Type 0
SurplusFits none ls = Unit
SurplusFits (some k) ls = Inside k ls

surplus_body_end-Inside : (ls : List Bytes) → Inside (surplus_body_end ls) ls
unfolding surplus_body_end
surplus_body_end-Inside ls =
    surplus_from-Inside 0 0 ls (surplus_from 0 0 ls) (omega arith) (omega arith)

pass-SurplusFits :
    (o : Option ℕ) (l : Bytes) (ls : List Bytes) → SurplusFits o (l ∷ ls) → SurplusFits (pass o) ls
pass-SurplusFits none l ls h = tt
pass-SurplusFits (some zero) l ls h = tt
pass-SurplusFits (some (suc k)) l ls h = let e : suc k - 1 ≡ k = omega arith in rw e h.1

with_surplus-SurplusFits :
    (st : BodyState) (ls : List Bytes)
    → SurplusFits st.surplus ls
    → SurplusFits (with_surplus st ls).surplus ls
unfolding with_surplus
with_surplus-SurplusFits st ls h = elim (Bool-cases (exhausted st && not (is_some st.surplus))) [
  | inl out ↦ rw out (surplus_body_end-Inside ls)
  | inr more ↦ rw more h
]

-- A line that is neither a marker nor a body line stops the scan.
body_line-outside :
    (l : Bytes) → has_prefix l (codes "\\") ≡ false → body_line l ≡ none → scan_line l ≡ outside
unfolding has_prefix body_line scan_line
body_line-outside [] h k = cc
body_line-outside (c ∷ s) h k = ground arith

surplus-outside :
    (l : Bytes) (ls : List Bytes) → scan_line l ≡ outside → surplus_body_end (l ∷ ls) ≡ 0
unfolding surplus_body_end surplus_from
surplus-outside l ls o = rw (o, surplus_from)

-- So `surplusEnd` is that very line, whenever it was computed.
surplus-at_end :
    (st : BodyState) (l : Bytes) (ls : List Bytes)
    → SurplusFits st.surplus (l ∷ ls)
    → scan_line l ≡ outside
    → at_end (with_surplus (record st { old_left = 0; new_left = 0 }) (l ∷ ls)) ≡ true
unfolding with_surplus
surplus-at_end st l ls h o = at_surplus st.surplus h
  where
    at_surplus :
        (s : Option ℕ)
        → SurplusFits s (l ∷ ls)
        → at_end (with_surplus (record st { old_left = 0; new_left = 0; surplus = s }) (l ∷ ls))
          ≡ true
    at_surplus none h = rw (surplus-outside l ls o)
    at_surplus (some zero) h = refl
    at_surplus (some (suc k)) h = absurd (h.0 o)

take_line-surplus :
    (st : BodyState) (kind : LineKind) (s : Bytes) → (take_line st kind s).surplus ≡ pass st.surplus
unfolding take_line
take_line-surplus st context s = refl
take_line-surplus st add s = refl
take_line-surplus st delete s = refl

-- The loop ends, and leaves no more lines than there were.
pub read_body-total :
    (st : BodyState) (ls : List Bytes)
    → SurplusFits st.surplus ls
    → (r : List Line × List Bytes) × (read_body st ls ≡ some r) × (length r.1 ≤ length ls)
unfolding read_body
read_body-total st [] h = ((reverse st.read, []), refl, omega arith)
read_body-total st (l ∷ ls) h =
    let st' = with_surplus st (l ∷ ls) in
    let fits : SurplusFits st'.surplus (l ∷ ls) = with_surplus-SurplusFits st (l ∷ ls) h in
    elim (Bool-cases (has_prefix l (codes "\\"))) [
      | inl marker ↦
          let (r, e, le) =
            read_body-total
              (record st { read = mark_no_newline st.read; surplus = pass st.surplus }) ls
              (pass-SurplusFits st.surplus l ls h) in
          (r, rw marker e, omega arith)
      | inr plain ↦ elim (Bool-cases (at_end st')) [
        | inl stop ↦ ((reverse st'.read, l ∷ ls), rw (plain, stop) refl, omega arith)
        | inr more ↦ elim (Option-cases (body_line l)) [
          | inl other ↦
              let cleared = with_surplus (record st' { old_left = 0; new_left = 0 }) (l ∷ ls) in
              (
                (reverse cleared.read, l ∷ ls),
                rw
                    (
                      plain,
                      more,
                      other,
                      surplus-at_end st' l ls fits (body_line-outside l plain other),
                    )
                    refl,
                omega arith,
              )
          | inr ((kind, s), body) ↦
              let (r, e, le) =
                read_body-total (take_line st' kind s) ls
                  (rw take_line-surplus (pass-SurplusFits st'.surplus l ls fits)) in
              (r, rw (plain, more, body) e, omega arith)
        ]
      ]
    ]
