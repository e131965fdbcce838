-- ===== src/Tests/SummaryClaims.antt =====
-- What is proved of the records of reviews, at a review with one thread.
use sbnn.History.{Record, from_group}
use sbnn.History.Counted.{approves, hits, opens_thread, requests_changes, tallied_for}
use sbnn.History.Kept.{length-from_group}
use sbnn.History.Summary.{Stats, author_name, bytes_lt, extension, median, sort, summarize, tally}
use sbnn.History.Tallied.{summarize-counts}
use sbnn.Prelude.{[], keep, length, not, refl, ◌&&◌, ◌∷◌, ◌≡◌}
use sbnn.Tests.PromptClaims.{review}
use sbnn.Text.{codes, eq_bytes}

abbrev kept_review : Record
kept_review = from_group review

length-from_group_example : length (from_group review).comments ≡ length review.comments
length-from_group_example = length-from_group review

abbrev summary : Stats
summary = summarize (λ s. s) (kept_review ∷ [])

summarize-counts_example :
    (summary.comments ≡ hits opens_thread (kept_review ∷ []))
    × (summary.replies ≡ hits (λ c. not (opens_thread c)) (kept_review ∷ []))
    × (summary.resolved ≡ hits (λ c. opens_thread c && c.resolved) (kept_review ∷ []))
    × (tallied_for (codes "a.go") summary.paths
        ≡ hits (λ c. opens_thread c && eq_bytes c.path (codes "a.go")) (kept_review ∷ []))
    × (tallied_for (codes "a.go") summary.extensions
        ≡ hits
            (λ c. opens_thread c && eq_bytes (extension (λ s. s) c.path) (codes "a.go"))
            (kept_review ∷ []))
    × (tallied_for (codes "a.go") summary.authors
        ≡ hits
            (λ c. opens_thread c && eq_bytes (author_name c.author) (codes "a.go"))
            (kept_review ∷ []))
    × (summary.approvals ≡ length (keep approves (kept_review ∷ [])))
    × (summary.change_requests ≡ length (keep requests_changes (kept_review ∷ [])))
summarize-counts_example = summarize-counts (λ s. s) (kept_review ∷ []) (codes "a.go")

middle_wait : median (5 ∷ 1 ∷ 4 ∷ 2 ∷ []) ≡ 3
unfolding median sort
middle_wait = refl

most_first :
    tally (
      record { key = codes "b"; count = 1 }
      ∷ record { key = codes "a"; count = 1 }
      ∷ record { key = codes "c"; count = 2 }
      ∷ [])
    ≡ record { key = codes "c"; count = 2 }
      ∷ record { key = codes "a"; count = 1 }
      ∷ record { key = codes "b"; count = 1 }
      ∷ []
unfolding tally sort bytes_lt
most_first = refl
