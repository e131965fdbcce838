-- ===== src/History/Counted.antt =====
-- Proofs about `Summarize`: what each count counts.
use sbnn.History.{CommentRecord, Record, RecordComment, comments_of}
use sbnn.History.Summary.{
  Count, Stats, bump_count, count_comment, count_comments, count_records, count_review,
  count_verdict, insert_sorted, sort, stands_before, tally,
}
use sbnn.Prelude.{
  Bool, Bool-cases, Bytes, List, [], ap, arith, false, if◌then◌else◌, inl, inr, keep, length, map,
  refl, true, ℕ, ◌++◌, ◌+◌, ◌∙◌, ◌∷◌, ◌≡◌,
}
use sbnn.Review.{Verdict, approved, changes_requested, commented, undecided}
use sbnn.Text.{eq_bytes, eq_bytes_iff, is_empty}

-- How many comments of the reviews pass a test.
abbrev pub hits : (RecordComment → Bool) → List Record → ℕ
hits p rs = length (keep (λ (c : CommentRecord). p c.comment) (comments_of rs))

-- The count that a tally has for a key.
abbrev pub tallied_for : Bytes → List Count → ℕ
tallied_for key [] = 0
tallied_for key (c ∷ cs) = (if eq_bytes c.key key then c.count else 0) + tallied_for key cs

abbrev pub opens_thread : RecordComment → Bool
opens_thread c = is_empty c.reply_to

abbrev pub approves : Record → Bool
approves r = elim r.verdict [ approved ↦ true | _ ↦ false ]

abbrev pub requests_changes : Record → Bool
requests_changes r = elim r.verdict [ changes_requested ↦ true | _ ↦ false ]

abbrev pub bit : Bool → ℕ
bit b = if b then 1 else 0

pub tallied_for-bump_count :
    (key k : Bytes) (cs : List Count)
    → tallied_for key (bump_count k cs) ≡ tallied_for key cs + bit (eq_bytes k key)
unfolding bump_count
tallied_for-bump_count key k [] = elim (Bool-cases (eq_bytes k key)) [
  | inl same ↦ rw same refl
  | inr other ↦ rw other refl
]
tallied_for-bump_count key k (c ∷ cs) = elim (Bool-cases (eq_bytes c.key k)) [
  | inl same ↦
      let e : c.key ≡ k = (eq_bytes_iff c.key k).0 same in
      let both : eq_bytes c.key key ≡ eq_bytes k key = ap (λ (i : Bytes). eq_bytes i key) e in
      elim (Bool-cases (eq_bytes k key)) [
        | inl asked ↦ rw (same, both, asked) (omega arith)
        | inr other ↦ rw (same, both, other) (omega arith)
      ]
  | inr differs ↦ rw differs (omega (arith, tallied_for-bump_count key k cs))
]

tallied_for-insert_sorted :
    (key : Bytes) (before : Count → Count → Bool) (c : Count) (cs : List Count)
    → tallied_for key (insert_sorted before c cs) ≡ tallied_for key (c ∷ cs)
tallied_for-insert_sorted key before c [] = refl
tallied_for-insert_sorted key before c (d ∷ cs) = elim (Bool-cases (before d c)) [
  | inl behind ↦ rw behind (omega (arith, tallied_for-insert_sorted key before c cs))
  | inr here ↦ rw here refl
]

pub tallied_for-tally :
    (key : Bytes) (cs : List Count) → tallied_for key (tally cs) ≡ tallied_for key cs
unfolding tally sort
tallied_for-tally key [] = refl
tallied_for-tally key (c ∷ cs) =
    tallied_for-insert_sorted key stands_before c (tally cs)
    ∙ ap (λ n. (if eq_bytes c.key key then c.count else 0) + n) (tallied_for-tally key cs)

keep-bit {ℓ} :
    {A : Type ℓ} (p : A → Bool) (x : A) (xs : List A)
    → length (keep p (x ∷ xs)) ≡ bit (p x) + length (keep p xs)
keep-bit p x xs = elim (Bool-cases (p x)) [
  | inl passes ↦ rw passes (omega arith)
  | inr fails ↦ rw fails (omega arith)
]

keep-commented :
    (p : RecordComment → Bool) (g : RecordComment → CommentRecord) (cs : List RecordComment)
    (rest : List CommentRecord)
    → ((c : RecordComment) → (g c).comment ≡ c)
    → length (keep (λ (c : CommentRecord). p c.comment) (map g cs ++ rest))
      ≡ length (keep p cs) + length (keep (λ (c : CommentRecord). p c.comment) rest)
keep-commented p g [] rest same = omega arith
keep-commented p g (c ∷ cs) rest same =
    let e : p (g c).comment ≡ p c = ap p (same c) in
    omega (
      arith,
      keep-bit (λ (d : CommentRecord). p d.comment) (g c) (map g cs ++ rest),
      keep-bit p c cs,
      keep-commented p g cs rest same,
      ap bit e,
    )

hits-first :
    (p : RecordComment → Bool) (r : Record) (rs : List Record)
    → hits p (r ∷ rs) ≡ length (keep p r.comments) + hits p rs
unfolding comments_of
hits-first p r rs = keep-commented p _ r.comments (comments_of rs) (λ c. refl)

module _ (to_lower : Bytes → Bytes) (m : Stats → ℕ) where
  -- A number that grows by one at each comment that passes the test, and at nothing else.
  module _ (p : RecordComment → Bool)
      (step : (c : RecordComment) (s : Stats) → m (count_comment to_lower c s) ≡ m s + bit (p c))
      (still : (r : Record) (s : Stats) → m (count_review r s) ≡ m s) where
    comments-counted :
        (cs : List RecordComment) (s : Stats)
        → m (count_comments to_lower cs s) ≡ m s + length (keep p cs)
    unfolding count_comments
    comments-counted [] s = omega arith
    comments-counted (c ∷ cs) s =
        omega (arith, comments-counted cs (count_comment to_lower c s), step c s, keep-bit p c cs)

    pub records-counted :
        (rs : List Record) (s : Stats) → m (count_records to_lower rs s) ≡ m s + hits p rs
    unfolding count_records comments_of
    records-counted [] s = omega arith
    records-counted (r ∷ rs) s = omega (
      arith,
      records-counted rs (count_comments to_lower r.comments (count_review r s)),
      comments-counted r.comments (count_review r s),
      still r s,
      hits-first p r rs,
    )

  -- A number that grows by one at each review that passes the test, and at nothing else.
  module _ (q : Record → Bool)
      (step : (r : Record) (s : Stats) → m (count_review r s) ≡ m s + bit (q r))
      (still : (c : RecordComment) (s : Stats) → m (count_comment to_lower c s) ≡ m s) where
    comments-passed : (cs : List RecordComment) (s : Stats) → m (count_comments to_lower cs s) ≡ m s
    unfolding count_comments
    comments-passed [] s = refl
    comments-passed (c ∷ cs) s = comments-passed cs (count_comment to_lower c s) ∙ still c s

    pub reviews-counted :
        (rs : List Record) (s : Stats) → m (count_records to_lower rs s) ≡ m s + length (keep q rs)
    unfolding count_records
    reviews-counted [] s = omega arith
    reviews-counted (r ∷ rs) s = omega (
      arith,
      reviews-counted rs (count_comments to_lower r.comments (count_review r s)),
      comments-passed r.comments (count_review r s),
      step r s,
      keep-bit q r rs,
    )

-- What a decision leaves as it is.
pub verdict-as_is :
    (v : Verdict) (s : Stats)
    → ((count_verdict v s).paths ≡ s.paths)
      × ((count_verdict v s).extensions ≡ s.extensions)
      × ((count_verdict v s).authors ≡ s.authors)
      × ((count_verdict v s).comments ≡ s.comments)
      × ((count_verdict v s).replies ≡ s.replies)
      × ((count_verdict v s).resolved ≡ s.resolved)
unfolding count_verdict
verdict-as_is undecided s = (refl, refl, refl, refl, refl, refl)
verdict-as_is approved s = (refl, refl, refl, refl, refl, refl)
verdict-as_is commented s = (refl, refl, refl, refl, refl, refl)
verdict-as_is changes_requested s = (refl, refl, refl, refl, refl, refl)

pub verdict-counted :
    (v : Verdict) (s : Stats)
    → ((count_verdict v s).approvals ≡ s.approvals + bit (elim v [ approved ↦ true | _ ↦ false ]))
      × ((count_verdict v s).change_requests
          ≡ s.change_requests + bit (elim v [ changes_requested ↦ true | _ ↦ false ]))
unfolding count_verdict
verdict-counted undecided s = (omega arith, omega arith)
verdict-counted approved s = (omega arith, omega arith)
verdict-counted commented s = (omega arith, omega arith)
verdict-counted changes_requested s = (omega arith, omega arith)
