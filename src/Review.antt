-- ===== src/Review.antt =====
-- internal/model/model.go: the types of a review: rounds (`Diff`), comments, hooks and groups. A
-- time is the number of nanoseconds since the zero time, which is 0.
pub mod Threads
pub mod Blocking
pub mod Activity
pub mod Fences
pub mod Suggestions
use sbnn.Model.{File}
use sbnn.Prelude.{Bool, Bytes, List, Option, [], find, not, ℕ, ◌+◌, ◌∷◌}
use sbnn.Text.{eq_bytes, is_empty}

pub record Diff : Type 0 where
  pub id : Bytes
  pub title : Bytes
  pub base_dir : Bytes
  pub created_at : ℕ
  pub labels : List (Bytes × Bytes)
  pub raw : Bytes
  pub files : List File

pub record Comment : Type 0 where
  pub id : Bytes
  pub group : Bytes
  pub diff_id : Bytes
  pub file_id : Bytes
  pub path : Bytes
  pub author : Bytes
  pub side : Bytes
  pub start_line : ℕ
  pub end_line : ℕ
  pub body : Bytes
  pub question : Bool
  pub snippet : Bytes
  pub reply_to : Bytes
  pub resolved : Bool
  pub created_at : ℕ
  pub updated_at : ℕ

pub data Verdict : Type 0 where
  undecided approved commented changes_requested : Verdict

pub record HookRun : Type 0 where
  pub at : ℕ
  pub ok : Bool
  pub detail : Bytes

pub record Hook : Type 0 where
  pub id : Bytes
  pub command : Bytes
  pub url : Bytes
  pub created_at : ℕ
  pub last_command_run : Option HookRun
  pub last_post : Option HookRun

pub record Group : Type 0 where
  pub name : Bytes
  pub diffs : List Diff
  pub comments : List Comment
  pub reviewed_at : ℕ
  pub review_note : Bytes
  pub review_verdict : Verdict
  pub hooks : List Hook

-- `&model.Group{Name: name}`
abbrev pub new_group : Bytes → Group
new_group name = record {
  name = name;
  diffs = [];
  comments = [];
  reviewed_at = 0;
  review_note = [];
  review_verdict = undecided;
  hooks = [];
}

-- `IsReply`
abbrev pub is_reply : Comment → Bool
is_reply c = not (is_empty c.reply_to)

unfoldable pub find_file : Bytes → List File → Option File
unfolding eq_bytes
find_file id = find (λ f. eq_bytes f.id id)

unfoldable pub find_diff : Bytes → List Diff → Option Diff
unfolding eq_bytes
find_diff id = find (λ d. eq_bytes d.id id)

-- `Stats`: the additions and deletions of the files, on top of those counted before.
unfoldable pub stats_from : ℕ × ℕ → List File → ℕ × ℕ
stats_from n [] = n
stats_from (a, d) (f ∷ fs) = stats_from (a + f.additions, d + f.deletions) fs

unfoldable pub stats : Diff → ℕ × ℕ
unfolding stats_from
stats d = stats_from (0, 0) d.files
