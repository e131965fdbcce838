-- ===== src/Session.antt =====
-- internal/server/store.go: the session that a `Store` holds in memory (its groups and counters),
-- what is looked up in it, and how groups, ids and titles come about.
pub mod Titles
pub mod Log
pub mod Saves
pub mod Rounds
pub mod Comments
pub mod Hooks
pub mod Threaded
pub mod Replay
pub mod Prune
pub mod Refused
pub mod Names
pub mod WellFormed
use sbnn.Diff.Finalize.{file_id}
use sbnn.Model.{File, path}
use sbnn.Prelude.{
  Bool, Bytes, List, Option, [], find, if◌then◌else◌, keep, ltb, none, not, reverse, some, ℕ, ◌&&◌,
  ◌++◌, ◌+◌, ◌>>=◌, ◌||◌, ◌∷◌,
}
use sbnn.Review.{Diff, Group, find_diff, find_file, new_group}
use sbnn.Text.{codes, eq_bytes, is_empty}
use sbnn.Text.Number.{itoa}

-- `map[string]int`; a key that is missing reads as 0.
abbrev pub Counters : Type 0
Counters = List (Bytes × ℕ)

unfoldable pub count_of : Bytes → Counters → ℕ
unfolding eq_bytes
count_of k [] = 0
count_of k ((j, n) ∷ m) = if eq_bytes j k then n else count_of k m

-- `m[k]++`
unfoldable pub bump : Bytes → Counters → Counters
unfolding eq_bytes
bump k [] = (k, 1) ∷ []
bump k ((j, n) ∷ m) = if eq_bytes j k then (j, n + 1) ∷ m else (j, n) ∷ bump k m

-- `delete(m, k)`
unfoldable pub forget : Bytes → Counters → Counters
unfolding eq_bytes
forget k = keep (λ e. not (eq_bytes e.0 k))

-- `sharedSeq`
unfoldable pub shared_seq_from : ℕ → Counters → ℕ
shared_seq_from highest [] = highest
shared_seq_from highest ((k, n) ∷ m) = shared_seq_from (if ltb highest n then n else highest) m

unfoldable pub shared_seq : Counters → ℕ
unfolding shared_seq_from
shared_seq = shared_seq_from 0

pub record Session : Type 0 where
  pub groups : List Group
  pub seq : Counters
  pub rounds : Counters

abbrev pub diff_prefix : Bytes
diff_prefix = codes "d"

abbrev pub comment_prefix : Bytes
comment_prefix = codes "c"

abbrev pub hook_prefix : Bytes
hook_prefix = codes "h"

-- `nextID`: the id, and the counters behind it.
unfoldable pub next_id : Bytes → Counters → Bytes × Counters
unfolding bump count_of itoa
next_id prefix seq = let seq' = bump prefix seq in (prefix ++ itoa (count_of prefix seq'), seq')

-- `nextRound`
unfoldable pub next_round : Bytes → Counters → ℕ × Counters
unfolding bump count_of
next_round group rounds = let rounds' = bump group rounds in (count_of group rounds', rounds')

abbrev pub has_name : Bytes → Group → Bool
has_name name g = eq_bytes g.name name

-- `group(name, false)`
unfoldable pub find_group : Bytes → List Group → Option Group
unfolding eq_bytes
find_group name = find (has_name name)

-- A change to the group that `group(name, false)` returns, through its pointer.
unfoldable pub alter_group : Bytes → (Group → Group) → List Group → List Group
unfolding eq_bytes
alter_group name f [] = []
alter_group name f (g ∷ gs) = if has_name name g then f g ∷ gs else g ∷ alter_group name f gs

-- A change to the group that `group(name, true)` returns: it is made where there is none.
unfoldable pub with_group : Bytes → (Group → Group) → List Group → List Group
unfolding eq_bytes
with_group name f [] = f (new_group name) ∷ []
with_group name f (g ∷ gs) = if has_name name g then f g ∷ gs else g ∷ with_group name f gs

abbrev pub default_group : Bytes
default_group = codes "default"

-- The default group first: `GroupNames`, from the names so far.
unfoldable pub group_names_from : List Bytes → List Group → List Bytes
unfolding eq_bytes
group_names_from names [] = names
group_names_from names (g ∷ gs) =
    group_names_from
      (if eq_bytes g.name default_group then g.name ∷ names else names ++ g.name ∷ []) gs

unfoldable pub group_names : Session → List Bytes
unfolding group_names_from
group_names s = group_names_from [] s.groups

unfoldable pub group_url : Bytes → Bytes → Bytes
unfolding eq_bytes
group_url base name =
    if eq_bytes name default_group || is_empty name
    then base ++ codes "/"
    else base ++ codes "/" ++ name

-- `FileContext`
unfoldable pub file_context : Bytes → Bytes → Bytes → Session → Option (Diff × File)
unfolding find_group find_diff find_file
file_context group diff_id file_id s = do
  g ← find_group group s.groups
  d ← find_diff diff_id g.diffs
  f ← find_file file_id d.files
  some (d, f)

abbrev pub carries : Bytes → File → Bool
carries p f = eq_bytes (path f) p || eq_bytes f.old_path p

-- `FindFileByPath` on the rounds from the newest to the oldest.
unfoldable pub find_in_rounds : Bytes → Bytes → List Diff → Option (Diff × File)
unfolding eq_bytes path
find_in_rounds diff_id p [] = none
find_in_rounds diff_id p (d ∷ ds) =
    let later = find_in_rounds diff_id p ds in
    if not (is_empty diff_id) && not (eq_bytes d.id diff_id)
    then later
    else elim (find (carries p) d.files) [ none ↦ later | some f ↦ some (d, f) ]

unfoldable pub find_file_by_path : Bytes → Bytes → Bytes → Session → Option (Diff × File)
unfolding find_group find_in_rounds
find_file_by_path group diff_id p s = do
  g ← find_group group s.groups
  find_in_rounds diff_id p (reverse g.diffs)
