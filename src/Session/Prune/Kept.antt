-- ===== src/Session/Prune/Kept.antt =====
-- Proofs about `PruneGroups` and `Prune`: which groups are closed.
use mathlib.Core.Path.{ap₂}
use sbnn.Prelude.{
  Bool, List, Option-cases, [], append-nil, append_assoc, inl, inr, is_some, keep, map, none, not,
  sym, ℕ, ◌++◌, ◌∙◌, ◌∷◌, ◌≡◌,
}
use sbnn.Review.{Group}
use sbnn.Session.Prune.{
  PruneResponse, PrunedGroup, describe_pruned, judge, prune_groups, prune_groups_from,
  prune_keep_reason,
}

-- Is the group one that a prune closes?
abbrev pub prunable : ℕ → Bool → Group → Bool
prunable before force g = not (is_some (prune_keep_reason before force g))

abbrev pub kept_because : ℕ → Bool → Group → PrunedGroup
kept_because before force g = describe_pruned (prune_keep_reason before force g) g

prune_groups_from-eq :
    (before : ℕ) (force : Bool) (res : PruneResponse) (gs : List Group)
    → prune_groups_from before force res gs ≡ record {
      closed = res.closed ++ map (describe_pruned none) (keep (prunable before force) gs);
      kept =
          res.kept
          ++ map (kept_because before force) (keep (λ g. not (prunable before force g)) gs);
    }
unfolding prune_groups_from judge
prune_groups_from-eq before force res [] =
    ap₂ (λ (xs ys : List PrunedGroup). record { closed = xs; kept = ys })
      (sym (append-nil res.closed)) (sym (append-nil res.kept))
prune_groups_from-eq before force res (g ∷ gs) =
    elim (Option-cases (prune_keep_reason before force g)) [
      | inl pruned ↦
          prune_groups_from-eq before force (judge before force res g) gs
          ∙ rw (pruned, judge) (simp append_assoc)
      | inr (r, kept) ↦
          prune_groups_from-eq before force (judge before force res g) gs
          ∙ rw (kept, judge) (simp (append_assoc, kept))
    ]

-- `PruneGroups` closes exactly the groups that `PruneKeepReason` has no reason to keep, and keeps the
-- others, each with its reason and both in the order of the groups.
pub prune_groups-eq :
    (before : ℕ) (force : Bool) (gs : List Group)
    → prune_groups before force gs ≡ record {
      closed = map (describe_pruned none) (keep (prunable before force) gs);
      kept = map (kept_because before force) (keep (λ g. not (prunable before force g)) gs);
    }
unfolding prune_groups
prune_groups-eq before force gs =
    prune_groups_from-eq before force (record { closed = []; kept = [] }) gs
