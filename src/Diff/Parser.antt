-- ===== src/Diff/Parser.antt =====
-- internal/diff/parse.go: the parser of a whole diff (`parser`, `run`, `Parse`). The file entry that
-- is being filled is kept apart from those before it, and the index stands for the lines left.
pub mod Sound
pub mod Total
pub mod Results
use sbnn.Diff.Body.{read_hunk_body}
use sbnn.Diff.Combined.{read_combined_hunk}
use sbnn.Diff.Finalize.{finalize}
use sbnn.Diff.Header.{parse_hunk_header}
use sbnn.Diff.Paths.{
  has_prefix_path, normalize_path, split_git_header_paths, trim_timestamp, unquote_path,
}
use sbnn.Diff.Platform.{Platform}
use sbnn.Model.{File, Hunk, added, copied, deleted, dev_null, empty_file, modified, renamed}
use sbnn.Prelude.{
  Bool, Bytes, List, Option, [], false, if◌then◌else◌, is_nil, is_some, length, map, none, not,
  some, suc, true, zero, ℕ, ◌&&◌, ◌++◌, ◌>>=◌, ◌||◌, ◌∷◌,
}
use sbnn.Text.{codes, eq_bytes, is_empty}
use sbnn.Text.Affix.{has_prefix, has_suffix, trim_prefix, trim_space, trim_suffix}
use sbnn.Text.Split.{split}
use mathlib.Core.Option

pub record Parser : Type 0 where
  pub earlier : List File
  pub current : Option File
  pub git : Bool
  pub headers_read : Bool
  pub paths_known : Bool

abbrev pub start : Parser
start = record {
  earlier = [];
  current = none;
  git = false;
  headers_read = false;
  paths_known = false;
}

abbrev pub entries : Option File → List File
entries none = []
entries (some f) = f ∷ []

-- `p.files`
abbrev pub files : Parser → List File
files p = p.earlier ++ entries p.current

unfoldable pub push : File → Parser → Parser
push f p = record p {
  earlier = files p;
  current = some f;
  headers_read = false;
  paths_known = false;
}

-- A change to the entry being filled, if there is one.
abbrev pub alter : (File → File) → Parser → Parser
alter g p = record p { current = Option.map g p.current }

-- `file`: the entry being filled, made where there is none.
unfoldable pub ensure_file : Parser → Parser
unfolding push
ensure_file p = elim p.current [ none ↦ push empty_file p | some f ↦ p ]

abbrev pub add_hunk : Hunk → File → File
add_hunk h f = record f { hunks = f.hunks ++ h ∷ [] }

-- `splitLines`
unfoldable pub split_lines : Bytes → List Bytes
unfolding trim_suffix split
split_lines src =
    let s = trim_suffix src (codes "\n") in
    if is_empty s then [] else map (λ l. trim_suffix l (codes "\r")) (split b'\n' s)

-- The part of a line behind a prefix, if it has that prefix and an entry is being filled.
abbrev pub value_of : Bytes → Bytes → Bytes
value_of line prefix = trim_space (trim_prefix line prefix)

-- The headers that record the real paths.
unfoldable pub is_path_header : Bytes → Bool
unfolding has_prefix
is_path_header line =
    has_prefix line (codes "rename from ")
    || has_prefix line (codes "rename to ")
    || has_prefix line (codes "copy from ")
    || has_prefix line (codes "copy to ")

-- A pair starts a new entry where the entry being filled has a hunk or has had its pair.
abbrev pub wants_new_file : Parser → Bool
wants_new_file p = elim p.current [ none ↦ true | some f ↦ not (is_nil f.hunks) || p.headers_read ]

-- The "+++ " line behind a "--- " line, and the lines behind it.
unfoldable pub pair_line : Bytes → List Bytes → Option (Bytes × List Bytes)
unfolding has_prefix
pair_line line [] = none
pair_line line (l ∷ ls) =
    if has_prefix line (codes "--- ") && has_prefix l (codes "+++ ") then some (l, ls) else none

module _ (platform : Platform) where
  -- What an extended header sets in the entry; `none` says that the line is no such header.
  unfoldable pub extended_header : Bytes → Option (File → File)
  unfolding has_prefix has_suffix trim_prefix trim_space unquote_path
  extended_header line =
      let path_of = λ (prefix : Bytes). unquote_path platform (trim_prefix line prefix) in
      if has_prefix line (codes "old mode ")
      then some (λ f. record f { old_mode = value_of line (codes "old mode ") })
      else if has_prefix line (codes "new mode ")
      then some (λ f. record f { new_mode = value_of line (codes "new mode ") })
      else if has_prefix line (codes "new file mode ")
      then some
          (λ f. record f { status = added; new_mode = value_of line (codes "new file mode ") })
      else if has_prefix line (codes "deleted file mode ")
      then some (λ f. record f {
        status = deleted;
        old_mode = value_of line (codes "deleted file mode ");
      })
      else if has_prefix line (codes "rename from ")
      then some (λ f. record f { status = renamed; old_path = path_of (codes "rename from ") })
      else if has_prefix line (codes "rename to ")
      then some (λ f. record f { status = renamed; new_path = path_of (codes "rename to ") })
      else if has_prefix line (codes "copy from ")
      then some (λ f. record f { status = copied; old_path = path_of (codes "copy from ") })
      else if has_prefix line (codes "copy to ")
      then some (λ f. record f { status = copied; new_path = path_of (codes "copy to ") })
      else if has_prefix line (codes "index ")
      then some (λ f. record f { index = value_of line (codes "index ") })
      else if has_prefix line (codes "Binary files ")
          || has_prefix line (codes "GIT binary patch")
          || (has_prefix line (codes "Files ") && has_suffix line (codes " differ"))
      then some (λ f. record f { is_binary = true })
      else none

  unfoldable pub read_extended_header : Bytes → Parser → Parser
  unfolding extended_header is_path_header
  read_extended_header line p = elim (extended_header line) [
    | none ↦ p
    | some g ↦ record p {
      current = Option.map g p.current;
      paths_known = p.paths_known || (is_some p.current && is_path_header line);
    }
  ]

  unfoldable pub start_git_file : Bytes → Parser → Parser
  unfolding split_git_header_paths push
  start_git_file rest p =
      let f : File = elim (split_git_header_paths platform rest) [
        | none ↦ empty_file
        | some (old, new) ↦ record empty_file { old_path = old; new_path = new }
      ] in
      record (push f p) { git = true }

  unfoldable pub start_combined_file : Bytes → Parser → Parser
  unfolding trim_prefix trim_space push
  start_combined_file line p =
      let name =
        trim_space
          (trim_prefix (trim_prefix line (codes "diff --cc ")) (codes "diff --combined ")) in
      record (push (record empty_file { old_path = name; new_path = name; status = modified }) p) {
        git = true;
      }

  -- What a "--- / +++" pair sets in the entry.
  unfoldable pub set_paths : Bool → Bytes → Bytes → Bool → File → File
  unfolding normalize_path eq_bytes
  set_paths known old_raw new_raw strip f =
      let old = normalize_path platform old_raw strip in
      let new = normalize_path platform new_raw strip in
      let g = record f {
        old_path = if not known && not (is_empty old) then old else f.old_path;
        new_path = if not known && not (is_empty new) then new else f.new_path;
      } in
      if eq_bytes old_raw dev_null
      then record g { status = added; old_path = [] }
      else if eq_bytes new_raw dev_null
      then record g { status = deleted; new_path = [] }
      else g

  unfoldable pub read_file_headers : Bytes → Bytes → Parser → Parser
  unfolding ensure_file trim_timestamp trim_prefix has_prefix_path set_paths
  read_file_headers old_line new_line p =
      let q = ensure_file p in
      let old_raw = trim_timestamp (trim_prefix old_line (codes "--- ")) in
      let new_raw = trim_timestamp (trim_prefix new_line (codes "+++ ")) in
      let strip =
        q.git || (has_prefix_path old_raw (codes "a") && has_prefix_path new_raw (codes "b")) in
      record (alter (set_paths q.paths_known old_raw new_raw strip) q) { headers_read = true }

  unfoldable pub read_pair : Bytes → Bytes → Parser → Parser
  unfolding read_file_headers push
  read_pair old_line new_line p =
      read_file_headers old_line new_line
        (if wants_new_file p then record (push empty_file p) { git = false } else p)

  -- `readHunk`, on the header and what follows it.
  unfoldable pub read_hunk : Bytes → List Bytes → Parser → Option (Parser × List Bytes)
  unfolding has_prefix read_combined_hunk parse_hunk_header read_hunk_body ensure_file
  read_hunk line ls p =
      if has_prefix line (codes "@@@")
      then (let (h, rest) = read_combined_hunk line ls in
          some (alter (add_hunk h) (ensure_file p), rest))
      else elim (parse_hunk_header line) [
        | none ↦ some (p, ls)
        | some header ↦ do
          r ← read_hunk_body header ls
          some (alter (add_hunk r.0) (ensure_file p), r.1)
      ]

  -- One round of the loop of `run`, on a line and those behind it.
  unfoldable pub step : Bytes → List Bytes → Parser → Option (Parser × List Bytes)
  unfolding has_prefix trim_prefix start_git_file start_combined_file pair_line read_pair read_hunk
      read_extended_header
  step line ls p =
      if has_prefix line (codes "diff --git ")
      then some (start_git_file (trim_prefix line (codes "diff --git ")) p, ls)
      else if has_prefix line (codes "diff --cc ") || has_prefix line (codes "diff --combined ")
      then some (start_combined_file line p, ls)
      else elim (pair_line line ls) [
        | some (l, rest) ↦ some (read_pair line l p, rest)
        | none ↦
            if has_prefix line (codes "@@")
            then read_hunk line ls p
            else some (read_extended_header line p, ls)
      ]

  -- The loop; `none` says that the fuel ran out, or that a hunk would be read for ever.
  unfoldable pub run : ℕ → List Bytes → Parser → Option Parser
  unfolding step
  run fuel [] p = some p
  run zero (line ∷ ls) p = none
  run (suc fuel) (line ∷ ls) p = elim (step line ls p) [
    | none ↦ none
    | some (q, rest) ↦ run fuel rest q
  ]

  unfoldable pub finalize_from : ℕ → List File → List File
  unfolding finalize
  finalize_from i [] = []
  finalize_from i (f ∷ fs) = finalize platform f i ∷ finalize_from (suc i) fs

  unfoldable pub parse : Bytes → Option (List File)
  unfolding run split_lines finalize_from
  parse src =
      let lines = split_lines src in
      do p ← run (length lines) lines start; some (finalize_from 0 (files p))
