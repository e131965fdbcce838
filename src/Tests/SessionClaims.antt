-- ===== src/Tests/SessionClaims.antt =====
-- What is proved of sessions and stores, at small ones.
use sbnn.Prelude.{Bytes, [], none, some, true, ◌∷◌, ◌≡◌}
use sbnn.Review.{Diff, Hook, approved}
use sbnn.Session.{Session}
use sbnn.Session.Hooks.{add_hook}
use sbnn.Session.Replay.Groups.{
  add_diff-Logged, add_hook-Logged, delete_all_groups-Logged, delete_diff-Logged,
  submit_review-Logged,
}
use sbnn.Session.Rounds.{add_diff, delete_all_groups, delete_diff, submit_review}
use sbnn.Session.Saves.{Logged}
use sbnn.Store.{empty_session, new_store, perform, torn}
use sbnn.Store.Durable.{IsTracked, new_store-IsTracked, perform-IsTracked}
use sbnn.Text.{codes}

abbrev group : Bytes
group = codes "default"

abbrev round : Diff
round = record {
  id = [];
  title = [];
  base_dir = [];
  created_at = 0;
  labels = [];
  raw = [];
  files = [];
}

abbrev hook : Hook
hook = record {
  id = [];
  command = codes "make";
  url = [];
  created_at = 0;
  last_command_run = none;
  last_post = none;
}

abbrev one_round : Session
one_round = (add_diff 5 group round empty_session).session

perform-IsTracked_example :
    IsTracked
      (perform
        (record { append = torn; write = some 9 } ∷ [])
        (add_diff 5 group round)
        (new_store true)).1
perform-IsTracked_example =
    perform-IsTracked (record { append = torn; write = some 9 } ∷ []) (add_diff 5 group round)
      (new_store true) new_store-IsTracked (add_diff-Logged 5 group round empty_session)

add_diff-Logged_example :
    Logged one_round
      (add_diff 6 group round one_round).saves
      (add_diff 6 group round one_round).session
add_diff-Logged_example = add_diff-Logged 6 group round one_round

delete_diff-Logged_example :
    Logged one_round
      (delete_diff group (codes "d1") one_round).saves
      (delete_diff group (codes "d1") one_round).session
delete_diff-Logged_example = delete_diff-Logged group (codes "d1") one_round

add_hook-Logged_example :
    Logged one_round
      (add_hook (λ u. true) 7 group hook one_round).saves
      (add_hook (λ u. true) 7 group hook one_round).session
add_hook-Logged_example = add_hook-Logged group (λ u. true) 7 hook one_round

submit_review-Logged_example :
    Logged one_round
      (submit_review 8 group [] approved one_round).saves
      (submit_review 8 group [] approved one_round).session
submit_review-Logged_example = submit_review-Logged group 8 [] approved one_round

one_round-is_counted : one_round.groups ≡ [] → one_round.rounds ≡ []
unfolding add_diff
one_round-is_counted none_left = cc

delete_all_groups-Logged_example :
    Logged one_round (delete_all_groups one_round).saves (delete_all_groups one_round).session
delete_all_groups-Logged_example = delete_all_groups-Logged one_round one_round-is_counted

abbrev one_hook : Session
one_hook = (add_hook (λ u. true) 7 group hook one_round).session
