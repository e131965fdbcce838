-- ===== src/History.antt =====
-- internal/history/history.go: the records of submitted reviews (`FromGroup`), what a filter keeps of
-- them, and what they say together (`Summarize`). A map is a list of its keys with their values.
pub mod Summary
pub mod Kept
pub mod Counted
pub mod Tallied
use sbnn.Prelude.{
  Bool, Bytes, List, [], drop, false, if◌then◌else◌, keep, leb, length, ltb, map, not, suc, ℕ, ◌&&◌,
  ◌++◌, ◌+◌, ◌-◌, ◌==◌, ◌||◌, ◌∷◌,
}
use sbnn.Review.{Comment, Diff, Group, Verdict, stats}
use sbnn.Review.Suggestions.{suggestions}
use sbnn.Review.Threads.{Thread, threads}
use sbnn.Text.{eq_bytes, is_empty}
use sbnn.Text.Number.{max_int}

pub record RecordComment : Type 0 where
  pub id : Bytes
  pub path : Bytes
  pub author : Bytes
  pub side : Bytes
  pub start_line : ℕ
  pub end_line : ℕ
  pub body : Bytes
  pub proposals : List Bytes
  pub question : Bool
  pub reply_to : Bytes
  pub resolved : Bool
  pub created_at : ℕ

pub record Record : Type 0 where
  pub group : Bytes
  pub reviewed_at : ℕ
  pub first_diff_at : ℕ
  pub diffs : ℕ
  pub files : ℕ
  pub additions : ℕ
  pub deletions : ℕ
  pub note : Bytes
  pub verdict : Verdict
  pub labels : List (Bytes × Bytes)
  pub comments : List RecordComment

abbrev pub answers : RecordComment → Bool
answers c = not (is_empty c.reply_to)

-- `Threads`
unfoldable pub thread_count : Record → ℕ
thread_count r = length (keep (λ c. not (answers c)) r.comments)

-- `Wait`; a duration does not exceed the largest Go int.
unfoldable pub wait : Record → ℕ
wait r =
    if r.first_diff_at == 0 || ltb r.reviewed_at r.first_diff_at
    then 0
    else if leb (r.reviewed_at - r.first_diff_at) max_int
    then r.reviewed_at - r.first_diff_at
    else max_int

unfoldable pub comment_of : Comment → RecordComment
unfolding suggestions
comment_of c = record {
  id = c.id;
  path = c.path;
  author = c.author;
  side = c.side;
  start_line = c.start_line;
  end_line = c.end_line;
  body = c.body;
  proposals = suggestions c.body;
  question = c.question;
  reply_to = c.reply_to;
  resolved = c.resolved;
  created_at = c.created_at;
}

-- `rec.Labels[k] = v`
unfoldable pub put_label : Bytes × Bytes → List (Bytes × Bytes) → List (Bytes × Bytes)
unfolding eq_bytes
put_label kv [] = kv ∷ []
put_label kv (l ∷ ls) =
    let rest = put_label kv ls in if eq_bytes l.0 kv.0 then kv ∷ ls else l ∷ rest

abbrev pub put_labels : List (Bytes × Bytes) → List (Bytes × Bytes) → List (Bytes × Bytes)
put_labels [] ls = ls
put_labels (kv ∷ kvs) ls = put_labels kvs (put_label kv ls)

-- The body of the loop over the rounds.
unfoldable pub count_diff : Diff → Record → Record
unfolding put_label stats
count_diff d r = record r {
  first_diff_at =
      if r.first_diff_at == 0 || ltb d.created_at r.first_diff_at
      then d.created_at
      else r.first_diff_at;
  labels = put_labels d.labels r.labels;
  files = r.files + length d.files;
  additions = r.additions + (stats d).0;
  deletions = r.deletions + (stats d).1;
}

unfoldable pub count_diffs : List Diff → Record → Record
unfolding count_diff
count_diffs [] r = r
count_diffs (d ∷ ds) r = count_diffs ds (count_diff d r)

-- The comments of the threads, each reply behind the comment it answers.
unfoldable pub record_comments : List Thread → List RecordComment
unfolding comment_of
record_comments [] = []
record_comments (t ∷ ts) = (comment_of t.root ∷ map comment_of t.replies) ++ record_comments ts

unfoldable pub from_group : Group → Record
unfolding count_diffs record_comments threads
from_group g =
    record (count_diffs g.diffs (record {
      group = g.name;
      reviewed_at = g.reviewed_at;
      first_diff_at = 0;
      diffs = length g.diffs;
      files = 0;
      additions = 0;
      deletions = 0;
      note = g.review_note;
      verdict = g.review_verdict;
      labels = [];
      comments = [];
    })) { comments = record_comments (threads g.comments) }

pub record Filter : Type 0 where
  pub group : Bytes
  pub since : ℕ
  pub limit : ℕ

-- `keep`
unfoldable pub survives : Record → Filter → Bool
unfolding eq_bytes
survives r f =
    if not (is_empty f.group) && not (eq_bytes r.group f.group)
    then false
    else not (not (f.since == 0) && ltb r.reviewed_at f.since)

pub record Skipped : Type 0 where
  pub broken : ℕ
  pub long : ℕ

-- A line of the log, as it is read: too long, blank, or with a record that `encoding/json` may
-- refuse.
pub data LogLine : Type 0 where
  long_line blank_line broken_line : LogLine
  record_line : Record → LogLine

-- The body of the loop of `ReadSkipped`.
unfoldable pub read_line : Filter → LogLine → List Record × Skipped → List Record × Skipped
unfolding survives
read_line f long_line (rs, sk) = (rs, record sk { long = suc sk.long })
read_line f blank_line (rs, sk) = (rs, sk)
read_line f broken_line (rs, sk) = (rs, record sk { broken = suc sk.broken })
read_line f (record_line r) (rs, sk) = (if survives r f then rs ++ r ∷ [] else rs, sk)

unfoldable pub read_lines : Filter → List LogLine → List Record × Skipped → List Record × Skipped
unfolding read_line
read_lines f [] got = got
read_lines f (l ∷ ls) got = read_lines f ls (read_line f l got)

-- `records[len(records)-f.Limit:]`
unfoldable pub newest : ℕ → List Record → List Record
newest n rs = if ltb 0 n && ltb n (length rs) then drop (length rs - n) rs else rs

-- `ReadSkipped`, of a reader that does not fail.
unfoldable pub read_skipped : List LogLine → Filter → List Record × Skipped
unfolding read_lines newest
read_skipped ls f =
    let (rs, sk) = read_lines f ls ([], record { broken = 0; long = 0 }) in (newest f.limit rs, sk)

pub record CommentRecord : Type 0 where
  pub group : Bytes
  pub reviewed_at : ℕ
  pub labels : List (Bytes × Bytes)
  pub comment : RecordComment

-- `Comments`
unfoldable pub comments_of : List Record → List CommentRecord
comments_of [] = []
comments_of (r ∷ rs) =
    map
      (λ c. record { group = r.group; reviewed_at = r.reviewed_at; labels = r.labels; comment = c })
      r.comments
    ++ comments_of rs
