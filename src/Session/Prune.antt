-- ===== src/Session/Prune.antt =====
-- internal/server/prune.go: which reviews are old enough to be closed (`PruneKeepReason`,
-- `PruneGroups`), and the closing of them (`Prune`).
pub mod Kept
pub mod Safe
use sbnn.Review.Activity
use sbnn.Prelude.{
  Bool, Bytes, List, Option, [], if◌then◌else◌, is_nil, keep, length, ltb, none, not, some, ℕ, ◌++◌,
  ◌||◌, ◌∷◌,
}
use sbnn.Review.{Group}
use sbnn.Review.Threads.{open_threads, threads}
use sbnn.Session.{Session, forget, has_name}
use sbnn.Session.Log.{LogRecord, blank, listed, op_del_group}
use sbnn.Session.Saves.{Edit, unchanged}
use sbnn.Text.{eq_bytes}

pub data KeepReason : Type 0 where
  recent open_comments hooks_registered not_listed : KeepReason

-- `""`, for a review that is pruned, is `none`.
unfoldable pub prune_keep_reason : ℕ → Bool → Group → Option KeepReason
unfolding Activity.last_activity open_threads
prune_keep_reason before force g =
    if not (ltb (Activity.last_activity g) before)
    then some recent
    else if force
    then none
    else if ltb 0 (open_threads g.comments)
    then some open_comments
    else if ltb 0 (length g.hooks)
    then some hooks_registered
    else none

pub record PruneRequest : Type 0 where
  pub before : ℕ
  pub force : Bool
  pub dry_run : Bool
  pub groups : List Bytes

pub record PrunedGroup : Type 0 where
  pub name : Bytes
  pub last_activity : ℕ
  pub diffs : ℕ
  pub comments : ℕ
  pub unresolved : ℕ
  pub hooks : ℕ
  pub reason : Option KeepReason

pub record PruneResponse : Type 0 where
  pub closed : List PrunedGroup
  pub kept : List PrunedGroup

unfoldable pub describe_pruned : Option KeepReason → Group → PrunedGroup
unfolding threads open_threads Activity.last_activity
describe_pruned reason g = record {
  name = g.name;
  last_activity = Activity.last_activity g;
  diffs = length g.diffs;
  comments = length (threads g.comments);
  unresolved = open_threads g.comments;
  hooks = length g.hooks;
  reason = reason;
}

-- One group is appended to those that are closed, or to those that are kept.
unfoldable pub judge : ℕ → Bool → PruneResponse → Group → PruneResponse
unfolding prune_keep_reason describe_pruned
judge before force res g = elim (prune_keep_reason before force g) [
  | none ↦ record res { closed = res.closed ++ describe_pruned none g ∷ [] }
  | some r ↦ record res { kept = res.kept ++ describe_pruned (some r) g ∷ [] }
]

unfoldable pub prune_groups_from : ℕ → Bool → PruneResponse → List Group → PruneResponse
unfolding judge
prune_groups_from before force res [] = res
prune_groups_from before force res (g ∷ gs) =
    prune_groups_from before force (judge before force res g) gs

unfoldable pub prune_groups : ℕ → Bool → List Group → PruneResponse
unfolding prune_groups_from
prune_groups before force = prune_groups_from before force (record { closed = []; kept = [] })

-- The loop over `res.Closed` where the request names groups.
unfoldable pub limit_from : List Bytes → PruneResponse → List PrunedGroup → PruneResponse
unfolding eq_bytes
limit_from names res [] = res
limit_from names res (p ∷ ps) =
    limit_from names
      (if listed names p.name
        then record res { closed = res.closed ++ p ∷ [] }
        else record res { kept = res.kept ++ record p { reason = some not_listed } ∷ [] })
      ps

unfoldable pub limit : List Bytes → PruneResponse → PruneResponse
unfolding limit_from
limit names res =
    if is_nil names
    then res
    else limit_from names (record { closed = []; kept = res.kept }) res.closed

-- A group of this name goes, and its rounds start again.
abbrev pub without_group : Bytes → Session → Session
without_group name s = record s {
  groups = keep (λ g. not (has_name name g)) s.groups;
  rounds = forget name s.rounds;
}

-- The last loop of `Prune`: the calls of `persist`, and the session behind them.
unfoldable pub close_groups : List PrunedGroup → Session → Session × List (Session × LogRecord)
unfolding forget eq_bytes
close_groups [] s = (s, [])
close_groups (p ∷ ps) s =
    let s' = without_group p.name s in
    let rest = close_groups ps s' in (rest.0, (s', blank op_del_group p.name) ∷ rest.1)

unfoldable pub prune : PruneRequest → Session → Edit PruneResponse
unfolding prune_groups limit close_groups
prune req s =
    let res = limit req.groups (prune_groups req.before req.force s.groups) in
    let done = close_groups res.closed s in
    if req.dry_run || is_nil res.closed
    then unchanged res s
    else record { answer = res; session = done.0; saves = done.1 }
