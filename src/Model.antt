-- ===== src/Model.antt =====
-- internal/model/model.go: the types that every part of sbnn shares, and `File.Path`.
-- A Go `int` that holds a line number is its bit pattern, a number below 2 ^ 64.
use sbnn.Prelude.{Bool, Bytes, List, [], false, if◌then◌else◌, not, ℕ, ◌%◌, ◌&&◌, ◌+◌, ◌^◌}
use sbnn.Text.{codes, eq_bytes, is_empty}

pub data FileStatus : Type 0 where
  unset added deleted modified renamed copied mode : FileStatus

pub data LineKind : Type 0 where
  context add delete : LineKind

pub data ViewMode : Type 0 where
  view_unset view_unified view_split : ViewMode

pub record Line : Type 0 where
  pub kind : LineKind
  pub old_number : ℕ
  pub new_number : ℕ
  pub content : Bytes
  pub no_newline : Bool

pub record Hunk : Type 0 where
  pub header : Bytes
  pub old_start : ℕ
  pub old_lines : ℕ
  pub new_start : ℕ
  pub new_lines : ℕ
  pub section : Bytes
  pub lines : List Line

pub record File : Type 0 where
  pub id : Bytes
  pub old_path : Bytes
  pub new_path : Bytes
  pub status : FileStatus
  pub is_binary : Bool
  pub old_mode : Bytes
  pub new_mode : Bytes
  pub index : Bytes
  pub additions : ℕ
  pub deletions : ℕ
  pub view_mode : ViewMode
  pub folded : Bool
  pub fold_reason : Bytes
  pub is_markdown : Bool
  pub is_image : Bool
  pub is_notebook : Bool
  pub image_status : Bytes
  pub image_size : ℕ
  pub hunks : List Hunk

-- `&model.File{}`
abbrev pub empty_file : File
empty_file = record {
  id = [];
  old_path = [];
  new_path = [];
  status = unset;
  is_binary = false;
  old_mode = [];
  new_mode = [];
  index = [];
  additions = 0;
  deletions = 0;
  view_mode = view_unset;
  folded = false;
  fold_reason = [];
  is_markdown = false;
  is_image = false;
  is_notebook = false;
  image_status = [];
  image_size = 0;
  hunks = [];
}

abbrev pub dev_null : Bytes
dev_null = codes "/dev/null"

unfoldable pub path : File → Bytes
unfolding eq_bytes
path f =
    if not (is_empty f.new_path) && not (eq_bytes f.new_path dev_null)
    then f.new_path
    else f.old_path

-- `n++` on a Go `int`.
unfoldable pub next_int : ℕ → ℕ
next_int n = (n + 1) % 2 ^ 64
