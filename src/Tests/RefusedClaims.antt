-- ===== src/Tests/RefusedClaims.antt =====
-- What is proved of refusals, at a session with one round.
use sbnn.Prelude.{[], false, is_some, none}
use sbnn.Review.{Comment, Hook, approved}
use sbnn.Session.Comments.{add_comment, delete_comment}
use sbnn.Session.Hooks.{add_hook}
use sbnn.Session.Refused.{KeepsUnless, is_added_comment, is_added_hook, methods-KeepsUnless}
use sbnn.Session.Rounds.{delete_diff, submit_review}
use sbnn.Tests.CommentClaims.{group, one_round, remark}
use sbnn.Text.{codes}

abbrev idle_hook : Hook
idle_hook = record {
  id = [];
  command = [];
  url = [];
  created_at = 0;
  last_command_run = none;
  last_post = none;
}

abbrev lost_reply : Comment
lost_reply = record remark { reply_to = codes "c9" }

methods-KeepsUnless_example :
    KeepsUnless is_added_comment one_round (add_comment 5 lost_reply one_round)
    × KeepsUnless is_added_hook one_round (add_hook (λ url. false) 5 group idle_hook one_round)
    × KeepsUnless (λ b. b) one_round (delete_comment group (codes "c9") one_round)
    × KeepsUnless (λ b. b) one_round (delete_diff group (codes "c9") one_round)
    × KeepsUnless is_some one_round (submit_review 5 group (codes "fine") approved one_round)
methods-KeepsUnless_example =
    methods-KeepsUnless (λ url. false) 5 group (codes "c9") (codes "fine") lost_reply idle_hook
      approved one_round
