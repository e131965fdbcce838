-- ===== src/Tests/PruneClaims.antt =====
-- What is proved of `Prune`, at a session with one old review.
use sbnn.Prelude.{
  [], false, if◌then◌else◌, is_nil, keep, map, none, not, refl, some, ◌&&◌, ◌||◌, ◌∷◌, ◌≡◌,
}
use sbnn.Review.{Group, new_group}
use sbnn.Session.{Session, find_group}
use sbnn.Session.Log.{listed}
use sbnn.Session.Prune.{PruneRequest, describe_pruned, prune, prune_groups}
use sbnn.Session.Prune.Kept.{kept_because, prunable, prune_groups-eq}
use sbnn.Session.Prune.Safe.{prune-find_group}
use sbnn.Session.Replay.Prune.{prune-Logged}
use sbnn.Session.Saves.{Logged}
use sbnn.Tests.CommentClaims.{group, one_round, round}
use sbnn.Text.{codes}

abbrev old_reviews : PruneRequest
old_reviews = record { before = 100; force = false; dry_run = false; groups = [] }

prune-Logged_example :
    Logged one_round (prune old_reviews one_round).saves (prune old_reviews one_round).session
prune-Logged_example = prune-Logged old_reviews one_round

abbrev default_review : Group
default_review = record (new_group group) {
  diffs = record round { id = codes "d1"; title = codes "diff 1"; created_at = 5 } ∷ [];
}

prune_groups-eq_example : prune_groups 100 false (default_review ∷ []) ≡ record {
  closed = map (describe_pruned none) (keep (prunable 100 false) (default_review ∷ []));
  kept =
      map (kept_because 100 false) (keep (λ g. not (prunable 100 false g)) (default_review ∷ []));
}
prune_groups-eq_example = prune_groups-eq 100 false (default_review ∷ [])

abbrev two_reviews : Session
two_reviews = record {
  groups = default_review ∷ new_group (codes "other") ∷ [];
  seq = [];
  rounds = (group, 1) ∷ [];
}

prune-find_group_example : find_group group (prune old_reviews two_reviews).session.groups ≡ (
    if not old_reviews.dry_run
      && ((is_nil old_reviews.groups || listed old_reviews.groups group)
          && prunable old_reviews.before old_reviews.force default_review)
    then none
    else some default_review)
unfolding find_group
prune-find_group_example = prune-find_group old_reviews group two_reviews (refl, (refl, tt)) refl
