-- ===== src/Server/Fold.antt =====
-- internal/server/fold.go: which files of a diff open shut (`foldFiles`, `matchAny`, `matchPath`,
-- `matchSegments`, `shorten`). The matching of one segment (`path.Match`), the runes of a string and
-- the file in the working tree (`source.NewSide`) are arguments.
pub mod Segments
pub mod Reasons
use sbnn.Diff.Generated.{generated_marker, visible_top}
use sbnn.Diff.Parser.{files}
use sbnn.Model.{File, path}
use sbnn.Prelude.{
  Bool, Bytes, List, Option, [], false, if◌then◌else◌, is_nil, leb, length, ltb, map, none, not,
  reverse, some, take, true, ℕ, ◌&&◌, ◌++◌, ◌-◌, ◌==◌, ◌||◌, ◌∷◌,
}
use sbnn.Review.{Diff}
use sbnn.Text.{codes, eq_bytes, is_empty}
use sbnn.Text.Affix.{trim_right, trim_space}
use sbnn.Text.Split.{contains, split}

-- What is taken from Go's library and from the working tree as it is.
pub record Surroundings : Type 0 where
  -- `path.Match` of a pattern and a name, `false` for a pattern that is malformed
  pub path_match : Bytes → Bytes → Bool
  -- `[]rune(s)` and `string(rs)`
  pub runes : Bytes → List ℕ
  pub of_runes : List ℕ → Bytes
  -- does a regular expression of `generatedMarkers` match the line?
  pub is_marked : Bytes → Bool
  -- the new side of a file, where it is read from the working tree
  pub worktree : Bytes → File → Option Bytes

abbrev pub double_star : Bytes
double_star = codes "**"

-- Is there a tail of the list, the whole and the empty one included, that passes the test?
unfoldable pub any_tail {ℓ} : {A : Type ℓ} → (List A → Bool) → List A → Bool
any_tail f [] = f []
any_tail f (x ∷ xs) = f (x ∷ xs) || any_tail f xs

-- `path.Base`: on the bytes from the last to the first, up to a slash.
unfoldable pub last_element : Bytes → Bytes → Bytes
last_element found [] = found
last_element found (c ∷ s) = if c == b'/' then found else last_element (c ∷ found) s

unfoldable pub base : Bytes → Bytes
unfolding trim_right last_element
base [] = b'.' ∷ []
base (c ∷ s) =
    let name = last_element [] (reverse (trim_right b'/' (c ∷ s))) in
    if is_empty name then b'/' ∷ [] else name

abbrev pub ellipsis : Bytes
ellipsis = 0xe2 ∷ 0x80 ∷ 0xa6 ∷ []

module _ (o : Surroundings) where
  unfoldable pub match_segments : List Bytes → List Bytes → Bool
  unfolding any_tail eq_bytes
  match_segments [] p = is_nil p
  match_segments (q ∷ []) p =
      if eq_bytes q double_star
      then not (is_nil p)
      else elim p [ [] ↦ false | s ∷ ss ↦ o.path_match q s && is_nil ss ]
  match_segments (q ∷ r ∷ qs) p =
      if eq_bytes q double_star
      then any_tail (match_segments (r ∷ qs)) p
      else elim p [ [] ↦ false | s ∷ ss ↦ o.path_match q s && match_segments (r ∷ qs) ss ]

  unfoldable pub match_double_star : Bytes → Bytes → Bool
  unfolding match_segments split
  match_double_star pattern p = match_segments (split b'/' pattern) (split b'/' p)

  unfoldable pub match_path : Bytes → Bytes → Bool
  unfolding match_double_star contains base
  match_path pattern p =
      if contains pattern double_star
      then match_double_star pattern p
      else if not (contains pattern (codes "/"))
      then o.path_match pattern (base p)
      else o.path_match pattern p

  unfoldable pub match_any : List Bytes → Bytes → Option Bytes
  unfolding match_path trim_space
  match_any [] p = none
  match_any (pattern ∷ patterns) p =
      let later = match_any patterns p in
      let q = trim_space pattern in
      if is_empty q then later else if match_path q p then some q else later

  unfoldable pub shorten : Bytes → ℕ → Bytes
  unfolding trim_space
  shorten s n =
      let t = trim_space s in
      if ltb n 1
      then []
      else if leb (length (o.runes t)) n
      then t
      else o.of_runes (take (n - 1) (o.runes t)) ++ ellipsis

  unfoldable pub declared_generated : Bytes → File → Bytes
  unfolding generated_marker visible_top
  declared_generated base_dir f = if f.is_binary then [] else elim (o.worktree base_dir f) [
    | some content ↦ generated_marker o.is_marked content
    | none ↦ generated_marker o.is_marked (visible_top f)
  ]

  -- The body of the loop of `foldFiles`.
  unfoldable pub fold_file : Bytes → List Bytes → File → File
  unfolding match_any declared_generated shorten path
  fold_file base_dir patterns f =
      let marker = declared_generated base_dir f in
      elim (match_any patterns (path f)) [
        | some pattern ↦ record f {
          folded = true;
          fold_reason = codes "the sender asked for it (--collapse " ++ pattern ++ codes ")";
        }
        | none ↦
            if not (is_empty marker)
            then record f {
              folded = true;
              fold_reason = codes "the file says so: " ++ shorten marker 60;
            }
            else record f { folded = false; fold_reason = [] }
      ]

  unfoldable pub fold_files : List Bytes → Diff → Diff
  unfolding fold_file
  fold_files patterns d = record d { files = map (fold_file d.base_dir patterns) d.files }
