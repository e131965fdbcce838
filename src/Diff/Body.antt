-- ===== src/Diff/Body.antt =====
-- internal/diff/parse.go: the body of a hunk (`readHunk` behind its header), `surplusBodyEnd` and
-- `isDashRun`. The parser's index stands for the lines that are left. `readHunk` counts the lines
-- that are left of each side down past zero and only ever tests them against zero, so they stop
-- there.
pub mod Total
pub mod Numbers
use sbnn.Model.{Hunk, Line, LineKind, add, context, delete, next_int}
use sbnn.Prelude.{
  Bool, Bytes, List, Option, [], false, if◌then◌else◌, is_some, none, not, reverse, some, suc, true,
  ℕ, ◌&&◌, ◌-◌, ◌==◌, ◌>>=◌, ◌||◌, ◌∷◌,
}
use sbnn.Text.{codes, is_empty}
use sbnn.Text.Affix.{has_prefix, trim_left, trim_right}

unfoldable pub is_dash_run : Bytes → Bool
unfolding trim_right trim_left
is_dash_run raw = let l = trim_right b' ' raw in not (is_empty l) && is_empty (trim_left b'-' l)

-- What one line means to the scan behind the counts.
pub data Scan : Type 0 where
  ambiguous change outside : Scan

unfoldable pub scan_line : Bytes → Scan
unfolding is_dash_run has_prefix
scan_line [] = ambiguous
scan_line (c ∷ s) =
    if c == b' ' || c == b'\\'
    then ambiguous
    else if c == b'+' && not (has_prefix (c ∷ s) (codes "+++ "))
    then change
    else if c == b'-' && not (has_prefix (c ∷ s) (codes "--- ")) && not (is_dash_run (c ∷ s))
    then change
    else outside

-- `surplusBodyEnd`, counted from the current line: `passed` lines have been looked at, and `end`
-- of them belong to the hunk.
unfoldable pub surplus_from : ℕ → ℕ → List Bytes → ℕ
unfolding scan_line
surplus_from passed end [] = end
surplus_from passed end (l ∷ ls) =
    let skip = surplus_from (suc passed) end ls in
    let extend = surplus_from (suc passed) (suc passed) ls in
    elim (scan_line l) [ ambiguous ↦ skip | change ↦ extend | outside ↦ end ]

unfoldable pub surplus_body_end : List Bytes → ℕ
unfolding surplus_from
surplus_body_end = surplus_from 0 0

-- The variables of the loop; `read` holds `h.Lines` from the last to the first, and `surplus` how
-- many lines there are to `surplusEnd`, once it has been computed.
pub record BodyState : Type 0 where
  pub old_no : ℕ
  pub new_no : ℕ
  pub old_left : ℕ
  pub new_left : ℕ
  pub surplus : Option ℕ
  pub read : List Line

-- `h.Lines[n-1].NoNewline = true`, if there is such a line.
abbrev pub mark_no_newline : List Line → List Line
mark_no_newline [] = []
mark_no_newline (l ∷ ls) = record l { no_newline = true } ∷ ls

-- The kind and the content of a body line; none for anything else.
unfoldable pub body_line : Bytes → Option (LineKind × Bytes)
body_line [] = some (context, [])
body_line (c ∷ s) =
    if c == b' '
    then some (context, s)
    else if c == b'+'
    then some (add, s)
    else if c == b'-'
    then some (delete, s)
    else none

-- `p.i++`, as far as `surplusEnd` sees it.
abbrev pub pass : Option ℕ → Option ℕ
pass none = none
pass (some k) = some (k - 1)

-- A body line is numbered, counted and appended.
unfoldable pub take_line : BodyState → LineKind → Bytes → BodyState
unfolding next_int
take_line st context s = record st {
  old_no = next_int st.old_no;
  new_no = next_int st.new_no;
  old_left = st.old_left - 1;
  new_left = st.new_left - 1;
  surplus = pass st.surplus;
  read =
      record {
        kind = context;
        old_number = st.old_no;
        new_number = st.new_no;
        content = s;
        no_newline = false;
      }
      ∷ st.read;
}
take_line st add s = record st {
  new_no = next_int st.new_no;
  new_left = st.new_left - 1;
  surplus = pass st.surplus;
  read =
      record { kind = add; old_number = 0; new_number = st.new_no; content = s; no_newline = false }
      ∷ st.read;
}
take_line st delete s = record st {
  old_no = next_int st.old_no;
  old_left = st.old_left - 1;
  surplus = pass st.surplus;
  read =
      record {
        kind = delete;
        old_number = st.old_no;
        new_number = 0;
        content = s;
        no_newline = false;
      }
      ∷ st.read;
}

abbrev pub exhausted : BodyState → Bool
exhausted st = st.old_left == 0 && st.new_left == 0

-- `surplusEnd` is computed once, on the line that the counts ran out on.
unfoldable pub with_surplus : BodyState → List Bytes → BodyState
with_surplus st ls =
    if exhausted st && not (is_some st.surplus)
    then record st { surplus = some (surplus_body_end ls) }
    else st

-- `oldLeft <= 0 && newLeft <= 0 && p.i >= surplusEnd`
abbrev pub at_end : BodyState → Bool
at_end st = exhausted st && elim st.surplus [ none ↦ false | some k ↦ k == 0 ]

-- The loop: what it has read, and the lines that are left. A line that ends the hunk sets both
-- counts to 0 and is looked at once more, and the loop stops there by `at_end`; `none` says that it
-- would not, and would look at that line for ever.
unfoldable pub read_body : BodyState → List Bytes → Option (List Line × List Bytes)
unfolding body_line take_line with_surplus has_prefix surplus_body_end
read_body st [] = some (reverse st.read, [])
read_body st (l ∷ ls) =
    let marked =
      read_body (record st { read = mark_no_newline st.read; surplus = pass st.surplus }) ls in
    let st' = with_surplus st (l ∷ ls) in
    let cleared = with_surplus (record st' { old_left = 0; new_left = 0 }) (l ∷ ls) in
    let again : Option (List Line × List Bytes) =
      if at_end cleared then some (reverse cleared.read, l ∷ ls) else none in
    let next = λ (kind : LineKind) (s : Bytes). read_body (take_line st' kind s) ls in
    if has_prefix l (codes "\\")
    then marked
    else if at_end st'
    then some (reverse st'.read, l ∷ ls)
    else elim (body_line l) [ none ↦ again | some (kind, s) ↦ next kind s ]

abbrev pub body_start : Hunk → BodyState
body_start h = record {
  old_no = h.old_start;
  new_no = h.new_start;
  old_left = h.old_lines;
  new_left = h.new_lines;
  surplus = none;
  read = [];
}

-- The header has been read; `f.Hunks` is given the hunk with its lines.
unfoldable pub read_hunk_body : Hunk → List Bytes → Option (Hunk × List Bytes)
unfolding read_body
read_hunk_body h ls = do r ← read_body (body_start h) ls; some (record h { lines = r.0 }, r.1)
