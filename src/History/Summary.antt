-- ===== src/History/Summary.antt =====
-- internal/history/history.go: `Summarize`. The mean of comments per review, a float, is not part of
-- it. `strings.ToLower` is an argument.
use sbnn.History.{Record, RecordComment, answers, thread_count, wait}
use sbnn.Prelude.{
  Bool, Bytes, List, [], false, if◌then◌else◌, is_nil, length, ltb, not, suc, true, zero, ℕ, ◌%◌,
  ◌+◌, ◌-◌, ◌/◌, ◌==◌, ◌^◌, ◌||◌, ◌∷◌,
}
use sbnn.Review.{Verdict, approved, changes_requested}
use sbnn.Text.{codes, eq_bytes, is_empty}
use sbnn.Text.Split.{ext}

pub record Count : Type 0 where
  pub key : Bytes
  pub count : ℕ

-- `counts[key]++`
unfoldable pub bump_count : Bytes → List Count → List Count
unfolding eq_bytes
bump_count key [] = record { key = key; count = 1 } ∷ []
bump_count key (c ∷ cs) =
    let rest = bump_count key cs in
    if eq_bytes c.key key then record c { count = suc c.count } ∷ cs else c ∷ rest

pub record Stats : Type 0 where
  pub reviews : ℕ
  pub comments : ℕ
  pub replies : ℕ
  pub proposals : ℕ
  pub resolved : ℕ
  pub files : ℕ
  pub additions : ℕ
  pub deletions : ℕ
  pub silent : ℕ
  pub approvals : ℕ
  pub undecided_reviews : ℕ
  pub change_requests : ℕ
  pub median_wait : ℕ
  pub paths : List Count
  pub extensions : List Count
  pub authors : List Count
  pub first : ℕ
  pub last : ℕ

unfoldable pub author_name : Bytes → Bytes
author_name name = if is_empty name then codes "reviewer" else name

unfoldable pub extension : (Bytes → Bytes) → Bytes → Bytes
unfolding ext
extension to_lower p = if is_empty (ext p) then codes "(none)" else to_lower (ext p)

-- The body of the inner loop.
unfoldable pub count_comment : (Bytes → Bytes) → RecordComment → Stats → Stats
unfolding bump_count author_name extension
count_comment to_lower c s =
    let s' = record s { proposals = s.proposals + length c.proposals } in
    if answers c then record s' { replies = suc s.replies } else record s' {
      comments = suc s.comments;
      resolved = if c.resolved then suc s.resolved else s.resolved;
      paths = bump_count c.path s.paths;
      extensions = bump_count (extension to_lower c.path) s.extensions;
      authors = bump_count (author_name c.author) s.authors;
    }

unfoldable pub count_comments : (Bytes → Bytes) → List RecordComment → Stats → Stats
unfolding count_comment
count_comments to_lower [] s = s
count_comments to_lower (c ∷ cs) s = count_comments to_lower cs (count_comment to_lower c s)

-- The `switch` on the verdict.
unfoldable pub count_verdict : Verdict → Stats → Stats
count_verdict approved s = record s { approvals = suc s.approvals }
count_verdict changes_requested s = record s { change_requests = suc s.change_requests }
count_verdict _ s = record s { undecided_reviews = suc s.undecided_reviews }

-- The part of the outer loop in front of the inner one, but for the waits.
unfoldable pub count_review : Record → Stats → Stats
unfolding count_verdict thread_count
count_review r s =
    let s' = count_verdict r.verdict s in
    record s' {
      files = s.files + r.files;
      additions = s.additions + r.additions;
      deletions = s.deletions + r.deletions;
      silent = if thread_count r == 0 then suc s.silent else s.silent;
      first = if s.first == 0 || ltb r.reviewed_at s.first then r.reviewed_at else s.first;
      last = if ltb s.last r.reviewed_at then r.reviewed_at else s.last;
    }

unfoldable pub count_records : (Bytes → Bytes) → List Record → Stats → Stats
unfolding count_review count_comments
count_records to_lower [] s = s
count_records to_lower (r ∷ rs) s =
    count_records to_lower rs (count_comments to_lower r.comments (count_review r s))

-- The waits that are longer than 0.
unfoldable pub waits : List Record → List ℕ
unfolding wait
waits [] = []
waits (r ∷ rs) = if ltb 0 (wait r) then wait r ∷ waits rs else waits rs

abbrev pub insert_sorted {ℓ} : {A : Type ℓ} → (A → A → Bool) → A → List A → List A
insert_sorted before a [] = a ∷ []
insert_sorted before a (b ∷ bs) = if before b a then b ∷ insert_sorted before a bs else a ∷ b ∷ bs

-- Sorting by an order in which no two elements are alike, or where those alike are the same.
unfoldable pub sort {ℓ} : {A : Type ℓ} → (A → A → Bool) → List A → List A
sort before [] = []
sort before (a ∷ rest) = insert_sorted before a (sort before rest)

abbrev pub at_index : ℕ → List ℕ → ℕ
at_index i [] = 0
at_index zero (n ∷ ns) = n
at_index (suc i) (n ∷ ns) = at_index i ns

-- Half the sum of two Go ints, given by their bit patterns, rounded towards 0.
abbrev pub half_sum : ℕ → ℕ → ℕ
half_sum a b =
    let sum = (a + b) % 2 ^ 64 in
    if ltb sum (2 ^ 63) then sum / 2 else (2 ^ 64 - (2 ^ 64 - sum) / 2) % 2 ^ 64

unfoldable pub median : List ℕ → ℕ
unfolding sort
median ns =
    let sorted = sort ltb ns in
    let mid = length ns / 2 in
    if is_nil ns
    then 0
    else if length ns % 2 == 1
    then at_index mid sorted
    else half_sum (at_index (mid - 1) sorted) (at_index mid sorted)

-- `<` on strings.
unfoldable pub bytes_lt : Bytes → Bytes → Bool
bytes_lt s [] = false
bytes_lt [] (d ∷ t) = true
bytes_lt (c ∷ s) (d ∷ t) = let rest = bytes_lt s t in if c == d then rest else ltb c d

abbrev pub stands_before : Count → Count → Bool
stands_before a b = if not (a.count == b.count) then ltb b.count a.count else bytes_lt a.key b.key

unfoldable pub tally : List Count → List Count
unfolding sort bytes_lt
tally = sort stands_before

-- `Stats{Reviews: n}`
abbrev pub no_counts : ℕ → Stats
no_counts n = record {
  reviews = n;
  comments = 0;
  replies = 0;
  proposals = 0;
  resolved = 0;
  files = 0;
  additions = 0;
  deletions = 0;
  silent = 0;
  approvals = 0;
  undecided_reviews = 0;
  change_requests = 0;
  median_wait = 0;
  paths = [];
  extensions = [];
  authors = [];
  first = 0;
  last = 0;
}

unfoldable pub summarize : (Bytes → Bytes) → List Record → Stats
unfolding count_records waits median tally
summarize to_lower rs =
    let s = count_records to_lower rs (no_counts (length rs)) in
    record s {
      median_wait = median (waits rs);
      paths = tally s.paths;
      extensions = tally s.extensions;
      authors = tally s.authors;
    }
