-- ===== src/Diff/Finalize.antt =====
-- internal/diff/parse.go: the fields of a file that are derived once it has been read (`finalize`,
-- `nameIfUnnamed`, `fileID`).
pub mod Counts
use sbnn.Diff.FileKind.{is_image, is_markdown, is_notebook}
use sbnn.Diff.Platform.{Platform}
use sbnn.Model.{
  File, FileStatus, Hunk, Line, ViewMode, add, added, context, delete, deleted, mode, modified,
  path, unset, view_split, view_unified,
}
use sbnn.Prelude.{
  Bool, Bytes, List, [], false, if◌then◌else◌, is_nil, not, take, true, ℕ, ◌&&◌, ◌++◌, ◌+◌, ◌==◌,
  ◌||◌, ◌∷◌,
}
use sbnn.Text.{codes, is_empty}
use sbnn.Text.Number.{itoa}

abbrev pub unnamed_path : Bytes
unnamed_path = codes "(unnamed)"

abbrev pub is_add : Line → Bool
is_add l = elim l.kind [ context ↦ false | add ↦ true | delete ↦ false ]

abbrev pub is_delete : Line → Bool
is_delete l = elim l.kind [ context ↦ false | add ↦ false | delete ↦ true ]

-- The two loops that count additions and deletions, from the counts so far.
unfoldable pub count_lines : ℕ × ℕ → List Line → ℕ × ℕ
count_lines n [] = n
count_lines (a, d) (l ∷ ls) =
    count_lines (if is_add l then a + 1 else a, if is_delete l then d + 1 else d) ls

unfoldable pub count_hunks : ℕ × ℕ → List Hunk → ℕ × ℕ
unfolding count_lines
count_hunks n [] = n
count_hunks n (h ∷ hs) = count_hunks (count_lines n h.lines) hs

-- `if f.Status == ""` and the switch below it.
unfoldable pub derive_status : File → FileStatus → FileStatus
derive_status f unset =
    if is_empty f.old_path && not (is_empty f.new_path)
    then added
    else if is_empty f.new_path && not (is_empty f.old_path)
    then deleted
    else if is_nil f.hunks
        && not f.is_binary
        && (not (is_empty f.old_mode) || not (is_empty f.new_mode))
    then mode
    else modified
derive_status f s = s

abbrev pub is_deleted : FileStatus → Bool
is_deleted deleted = true
is_deleted _ = false

unfoldable pub name_if_unnamed : File → File
name_if_unnamed f =
    if not (is_empty f.old_path) || not (is_empty f.new_path)
    then f
    else if is_deleted f.status
    then record f { old_path = unnamed_path }
    else record f { new_path = unnamed_path }

unfoldable pub derive_view : FileStatus → Bool → ℕ → ViewMode
derive_view added binary deletions = view_unified
derive_view deleted binary deletions = view_unified
derive_view _ binary deletions = if binary || deletions == 0 then view_unified else view_split

module _ (platform : Platform) where
  open platform use {sha256_hex}

  unfoldable pub file_id : File → ℕ → Bytes
  unfolding path itoa
  file_id f i = b'f' ∷ itoa (i + 1) ++ b'-' ∷ take 8 (sha256_hex (path f))

  unfoldable pub finalize : File → ℕ → File
  unfolding count_hunks derive_status name_if_unnamed derive_view is_markdown is_image is_notebook
      file_id path
  finalize f i =
      let (adds, dels) = count_hunks (f.additions, f.deletions) f.hunks in
      let counted = record f { additions = adds; deletions = dels } in
      let named = name_if_unnamed (record counted { status = derive_status counted f.status }) in
      let shown = record named {
        view_mode = derive_view named.status named.is_binary named.deletions;
      } in
      let p = path shown in
      let kinds = record shown {
        is_markdown = is_markdown platform p;
        is_image = is_image platform p;
        is_notebook = is_notebook platform p;
      } in
      record kinds { id = file_id kinds i }
