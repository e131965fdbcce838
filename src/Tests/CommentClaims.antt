-- ===== src/Tests/CommentClaims.antt =====
-- What is proved of the methods on comments, at a session with one round and two comments.
use sbnn.Prelude.{
  All, Bytes, List, [], arith, false, keep, map, not, refl, some, true, ◌&&◌, ◌∷◌, ◌≡◌,
}
use sbnn.Review.{Comment, Diff}
use sbnn.Review.Threads.{Thread, threads}
use sbnn.Review.Threads.Gathered.{IsBare, gathered, has_parent, threads-gathered}
use sbnn.Session.{Session}
use sbnn.Session.Comments.{
  CommentPatch, add_comment, clear_comments, delete_comment, update_comment,
}
use sbnn.Session.Replay.Methods.{add_comment-Logged, clear_comments-Logged, delete_comment-Logged}
use sbnn.Session.Replay.Update.{update_comment-Logged}
use sbnn.Session.Rounds.{add_diff, delete_diff}
use sbnn.Session.Saves.{Logged}
use sbnn.Session.Threaded.{IsWellFormed}
use sbnn.Session.WellFormed.{delete_diff-IsWellFormed}
use sbnn.Session.WellFormed.Comments.{
  add_comment-IsWellFormed, clear_comments-IsWellFormed, delete_comment-IsWellFormed,
}
use sbnn.Session.WellFormed.Update.{update_comment-IsWellFormed}
use sbnn.Store.{empty_session}
use sbnn.Text.{codes, eq_bytes}
use sbnn.Text.Number.{itoa}

abbrev pub group : Bytes
group = codes "default"

abbrev pub round : Diff
round = record {
  id = [];
  title = [];
  base_dir = [];
  created_at = 0;
  labels = [];
  raw = [];
  files = [];
}

abbrev pub remark : Comment
remark = record {
  id = [];
  group = group;
  diff_id = codes "d1";
  file_id = [];
  path = [];
  author = [];
  side = codes "new";
  start_line = 1;
  end_line = 2;
  body = codes "why?";
  question = true;
  snippet = [];
  reply_to = [];
  resolved = false;
  created_at = 0;
  updated_at = 0;
}

abbrev answer : Comment
answer = record remark { body = codes "because"; reply_to = codes "c1"; question = false }

abbrev pub one_round : Session
one_round = (add_diff 5 group round empty_session).session

abbrev one_thread : Session
one_thread = (add_comment 7 answer (add_comment 6 remark one_round).session).session

one_round-IsWellFormed : IsWellFormed one_round
unfolding add_diff
one_round-IsWellFormed = (record { issued = tt; distinct = tt; anchored = tt }, tt)

one_thread-IsWellFormed : IsWellFormed one_thread
unfolding add_diff add_comment itoa
one_thread-IsWellFormed = (
  record {
    issued = ((1, omega arith, refl), ((2, omega arith, refl), tt));
    distinct = (refl, (refl, tt));
    anchored = (
      λ reply. let no = reply in cc,
      (
        λ reply. record {
          root = record remark { id = codes "c1"; created_at = 6; updated_at = 6 };
          there = refl;
          opens_thread = refl;
          same_state = refl;
          same_diff = refl;
        },
        tt,
      ),
    );
  },
  tt,
)

add_comment-Logged_example :
    Logged one_thread
      (add_comment 9 answer one_thread).saves
      (add_comment 9 answer one_thread).session
add_comment-Logged_example = add_comment-Logged 9 answer one_thread one_thread-IsWellFormed

delete_comment-Logged_example :
    Logged one_thread
      (delete_comment group (codes "c1") one_thread).saves
      (delete_comment group (codes "c1") one_thread).session
delete_comment-Logged_example =
    delete_comment-Logged group (codes "c1") one_thread one_thread-IsWellFormed

clear_comments-Logged_example :
    Logged one_thread
      (clear_comments group false one_thread).saves
      (clear_comments group false one_thread).session
clear_comments-Logged_example = clear_comments-Logged group false one_thread one_thread-IsWellFormed

abbrev both : CommentPatch
both = record { body = some (codes "so?"); resolved = some true; question = some false }

update_comment-Logged_example :
    Logged one_thread
      (update_comment 9 group (codes "c2") both one_thread).saves
      (update_comment 9 group (codes "c2") both one_thread).session
update_comment-Logged_example =
    update_comment-Logged 9 group (codes "c2") both one_thread one_thread-IsWellFormed

add_comment-IsWellFormed_example : IsWellFormed (add_comment 9 answer one_thread).session
add_comment-IsWellFormed_example =
    add_comment-IsWellFormed 9 answer one_thread one_thread-IsWellFormed

update_comment-IsWellFormed_example :
    IsWellFormed (update_comment 9 group (codes "c2") both one_thread).session
update_comment-IsWellFormed_example =
    update_comment-IsWellFormed 9 group (codes "c2") both one_thread one_thread-IsWellFormed

delete_comment-IsWellFormed_example :
    IsWellFormed (delete_comment group (codes "c1") one_thread).session
delete_comment-IsWellFormed_example =
    delete_comment-IsWellFormed group (codes "c1") one_thread one_thread-IsWellFormed

delete_diff-IsWellFormed_example : IsWellFormed (delete_diff group (codes "d1") one_thread).session
delete_diff-IsWellFormed_example =
    delete_diff-IsWellFormed group (codes "d1") one_thread one_thread-IsWellFormed

clear_comments-IsWellFormed_example : IsWellFormed (clear_comments group false one_thread).session
clear_comments-IsWellFormed_example =
    clear_comments-IsWellFormed group false one_thread one_thread-IsWellFormed

abbrev thread : List Comment
thread =
    record remark { id = codes "c1" }
    ∷ record answer { id = codes "c2" }
    ∷ record answer { id = codes "c3"; reply_to = codes "c9" }
    ∷ []

threads-gathered_example :
    (gathered (codes "c1") (threads thread)
      ≡ keep (λ (c : Comment). has_parent thread c && eq_bytes c.reply_to (codes "c1")) thread)
    × (map (λ (t : Thread). t.root) (threads thread)
        ≡ keep (λ (c : Comment). not (has_parent thread c)) thread)
    × All IsBare (threads thread)
threads-gathered_example = threads-gathered thread (codes "c1")
