-- ===== src/Session/Replay/Prune.antt =====
-- Proofs about `Prune`: its records and the replay, and well formed sessions.
use sbnn.Prelude.{All-keep, All-map, Bool-cases, List, [], inl, inr, is_nil, not, refl, ◌||◌, ◌∷◌}
use sbnn.Session.{Session, has_name}
use sbnn.Session.Log.{apply}
use sbnn.Session.Prune.{
  PruneRequest, PrunedGroup, close_groups, limit, prune, prune_groups, without_group,
}
use sbnn.Session.Saves.{Logged}
use sbnn.Session.Threaded.{IsWellFormed}

close_groups-Logged :
    (ps : List PrunedGroup) (s : Session) → Logged s (close_groups ps s).1 (close_groups ps s).0
unfolding close_groups apply
close_groups-Logged [] s = refl
close_groups-Logged (p ∷ ps) s = (refl, close_groups-Logged ps (without_group p.name s))

-- For every request, the records of `Prune`, one for each group that it closes, replay one by one to
-- exactly the session of after; where it persists none, a dry run included, the session has not
-- changed.
pub prune-Logged :
    (req : PruneRequest) (s : Session) → Logged s (prune req s).saves (prune req s).session
unfolding prune
prune-Logged req s =
    let res = limit req.groups (prune_groups req.before req.force s.groups) in
    elim (Bool-cases (req.dry_run || is_nil res.closed)) [
      | inl nothing ↦ rw nothing refl
      | inr closes ↦ rw closes (close_groups-Logged res.closed s)
    ]

close_groups-IsWellFormed :
    (ps : List PrunedGroup) (s : Session) → IsWellFormed s → IsWellFormed (close_groups ps s).0
unfolding close_groups
close_groups-IsWellFormed [] s well = well
close_groups-IsWellFormed (p ∷ ps) s well = close_groups-IsWellFormed ps (without_group p.name s) (
    All-keep _ (λ g. not (has_name p.name g)) s.groups (All-map _ _ s.groups (λ g t stays. t) well))

-- `Prune` leaves a well formed session well formed.
pub prune-IsWellFormed :
    (req : PruneRequest) (s : Session) → IsWellFormed s → IsWellFormed (prune req s).session
unfolding prune
prune-IsWellFormed req s well =
    let res = limit req.groups (prune_groups req.before req.force s.groups) in
    elim (Bool-cases (req.dry_run || is_nil res.closed)) [
      | inl nothing ↦ rw nothing well
      | inr closes ↦ rw closes (close_groups-IsWellFormed res.closed s well)
    ]
