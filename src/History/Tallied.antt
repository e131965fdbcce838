-- ===== src/History/Tallied.antt =====
-- Proofs about `Summarize`: the counts of a summary against the comments and the reviews.
use sbnn.History.{Record, RecordComment, answers}
use sbnn.History.Counted.{
  approves, bit, hits, opens_thread, records-counted, requests_changes, reviews-counted,
  tallied_for, tallied_for-bump_count, tallied_for-tally, verdict-as_is, verdict-counted,
}
use sbnn.History.Summary.{
  Stats, author_name, count_comment, count_records, count_review, extension, no_counts, summarize,
}
use sbnn.Prelude.{
  Bool, Bool-cases, Bytes, List, ap, arith, false, if◌then◌else◌, inl, inr, keep, length, not, refl,
  suc, true, ℕ, ◌&&◌, ◌+◌, ◌∙◌, ◌≡◌,
}
use sbnn.Text.{eq_bytes}

from_zero : (n : ℕ) → 0 + n ≡ n
from_zero n = omega arith

module _ (to_lower : Bytes → Bytes) where
  -- What a comment adds to each number.
  comment-step :
      (key : Bytes) (c : RecordComment) (s : Stats)
      → ((count_comment to_lower c s).comments ≡ s.comments + bit (opens_thread c))
        × ((count_comment to_lower c s).replies ≡ s.replies + bit (not (opens_thread c)))
        × ((count_comment to_lower c s).resolved ≡ s.resolved + bit (opens_thread c && c.resolved))
        × (tallied_for key (count_comment to_lower c s).paths
            ≡ tallied_for key s.paths + bit (opens_thread c && eq_bytes c.path key))
        × (tallied_for key (count_comment to_lower c s).extensions
            ≡ tallied_for key s.extensions
              + bit (opens_thread c && eq_bytes (extension to_lower c.path) key))
        × (tallied_for key (count_comment to_lower c s).authors
            ≡ tallied_for key s.authors
              + bit (opens_thread c && eq_bytes (author_name c.author) key))
  unfolding count_comment
  comment-step key c s = elim (Bool-cases (opens_thread c)) [
    | inr reply ↦
        rw (count_comment, reply)
          (omega arith, omega arith, omega arith, omega arith, omega arith, omega arith)
    | inl opens_one ↦
        let here = ground_resolved c.resolved s.resolved in
        rw (count_comment, opens_one)
          (
            omega arith,
            omega arith,
            here,
            tallied_for-bump_count key c.path s.paths,
            tallied_for-bump_count key (extension to_lower c.path) s.extensions,
            tallied_for-bump_count key (author_name c.author) s.authors,
          )
  ]
    where
      ground_resolved : (b : Bool) (n : ℕ) → (if b then suc n else n) ≡ n + bit b
      ground_resolved true n = omega arith
      ground_resolved false n = omega arith

  review-still :
      (r : Record) (s : Stats)
      → ((count_review r s).paths ≡ s.paths)
        × ((count_review r s).extensions ≡ s.extensions)
        × ((count_review r s).authors ≡ s.authors)
        × ((count_review r s).comments ≡ s.comments)
        × ((count_review r s).replies ≡ s.replies)
        × ((count_review r s).resolved ≡ s.resolved)
  unfolding count_review
  review-still r s = verdict-as_is r.verdict s

  review-step :
      (r : Record) (s : Stats)
      → ((count_review r s).approvals ≡ s.approvals + bit (approves r))
        × ((count_review r s).change_requests ≡ s.change_requests + bit (requests_changes r))
  unfolding count_review
  review-step r s = verdict-counted r.verdict s

  comment-still :
      (c : RecordComment) (s : Stats)
      → ((count_comment to_lower c s).approvals ≡ s.approvals)
        × ((count_comment to_lower c s).change_requests ≡ s.change_requests)
  unfolding count_comment
  comment-still c s = elim (Bool-cases (answers c)) [
    | inl reply ↦ rw (count_comment, reply) (refl, refl)
    | inr opens_one ↦ rw (count_comment, opens_one) (refl, refl)
  ]

  -- What the counts of a summary count: its comments are the comments of the reviews that open a
  -- thread, its replies the others, and its resolved ones those that open a thread and are resolved.
  -- The tallies count, for each path, extension and author, the comments that open a thread and have
  -- it; its approvals and requests for changes are the reviews with that verdict.
  pub summarize-counts :
      (rs : List Record) (key : Bytes)
      → ((summarize to_lower rs).comments ≡ hits opens_thread rs)
        × ((summarize to_lower rs).replies ≡ hits (λ c. not (opens_thread c)) rs)
        × ((summarize to_lower rs).resolved ≡ hits (λ c. opens_thread c && c.resolved) rs)
        × (tallied_for key (summarize to_lower rs).paths
            ≡ hits (λ c. opens_thread c && eq_bytes c.path key) rs)
        × (tallied_for key (summarize to_lower rs).extensions
            ≡ hits (λ c. opens_thread c && eq_bytes (extension to_lower c.path) key) rs)
        × (tallied_for key (summarize to_lower rs).authors
            ≡ hits (λ c. opens_thread c && eq_bytes (author_name c.author) key) rs)
        × ((summarize to_lower rs).approvals ≡ length (keep approves rs))
        × ((summarize to_lower rs).change_requests ≡ length (keep requests_changes rs))
  unfolding summarize
  summarize-counts rs key =
      let s = no_counts (length rs) in
      let t = count_records to_lower rs s in
      (
        records-counted to_lower (λ u. u.comments) opens_thread (λ c u. (comment-step key c u).0)
              (λ r u. (review-still r u).3) rs s
            ∙ from_zero _,
        records-counted to_lower (λ u. u.replies) (λ c. not (opens_thread c))
              (λ c u. (comment-step key c u).1) (λ r u. (review-still r u).4) rs s
            ∙ from_zero _,
        records-counted to_lower (λ u. u.resolved) (λ c. opens_thread c && c.resolved)
              (λ c u. (comment-step key c u).2) (λ r u. (review-still r u).5) rs s
            ∙ from_zero _,
        tallied_for-tally key t.paths
            ∙ records-counted to_lower (λ u. tallied_for key u.paths)
                (λ c. opens_thread c && eq_bytes c.path key) (λ c u. (comment-step key c u).3)
                (λ r u. ap (tallied_for key) (review-still r u).0) rs s
            ∙ from_zero _,
        tallied_for-tally key t.extensions
            ∙ records-counted to_lower (λ u. tallied_for key u.extensions)
                (λ c. opens_thread c && eq_bytes (extension to_lower c.path) key)
                (λ c u. (comment-step key c u).4) (λ r u. ap (tallied_for key) (review-still r u).1)
                rs s
            ∙ from_zero _,
        tallied_for-tally key t.authors
            ∙ records-counted to_lower (λ u. tallied_for key u.authors)
                (λ c. opens_thread c && eq_bytes (author_name c.author) key)
                (λ c u. (comment-step key c u).5) (λ r u. ap (tallied_for key) (review-still r u).2)
                rs s
            ∙ from_zero _,
        reviews-counted to_lower (λ u. u.approvals) approves (λ r u. (review-step r u).0)
              (λ c u. (comment-still c u).0) rs s
            ∙ from_zero _,
        reviews-counted to_lower (λ u. u.change_requests) requests_changes
              (λ r u. (review-step r u).1) (λ c u. (comment-still c u).1) rs s
            ∙ from_zero _,
      )
