-- ===== src/Session/Log.antt =====
-- internal/server/store_log.go: the records of the session log, and how one is replayed (`apply`).
use sbnn.Prelude.{
  Bool, Bytes, List, Option, [], any, find, if◌then◌else◌, keep, map, none, not, some, ◌++◌, ◌>>=◌,
  ◌∷◌,
}
use sbnn.Review.{Comment, Diff, Group, is_reply, new_group}
use sbnn.Session.{Counters, Session, alter_group, find_group, has_name, with_group}
use sbnn.Text.{eq_bytes}
use mathlib.Core.Option

pub data Op : Type 0 where
  op_diff op_del_diff op_del_group op_del_all op_comment op_del_comments op_meta op_unknown : Op

pub record LogRecord : Type 0 where
  pub op : Op
  pub group : Bytes
  pub diff : Option Diff
  pub comment : Option Comment
  pub ids : List Bytes
  pub meta : Option Group
  pub seqs : Counters
  pub rounds : Counters

-- A record of an operation on a group, with no field of its own yet.
abbrev pub blank : Op → Bytes → LogRecord
blank op group = record {
  op = op;
  group = group;
  diff = none;
  comment = none;
  ids = [];
  meta = none;
  seqs = [];
  rounds = [];
}

-- `metaRecord`
unfoldable pub meta_record : Group → LogRecord
meta_record g = record (blank op_meta g.name) {
  meta = some (record (new_group []) {
    reviewed_at = g.reviewed_at;
    review_note = g.review_note;
    review_verdict = g.review_verdict;
    hooks = g.hooks;
  });
}

abbrev pub has_id : Bytes → Comment → Bool
has_id id c = eq_bytes c.id id

-- `findComment`
unfoldable pub find_comment : Bytes → List Comment → Option Comment
unfolding eq_bytes
find_comment id = find (has_id id)

-- A change to the comment that `findComment` returns, through its pointer.
unfoldable pub alter_comment : Bytes → (Comment → Comment) → List Comment → List Comment
unfolding eq_bytes
alter_comment id f [] = []
alter_comment id f (c ∷ cs) = if has_id id c then f c ∷ cs else c ∷ alter_comment id f cs

abbrev pub follow : Comment → Comment → Comment
follow root c = if eq_bytes c.reply_to root.id then record c { resolved = root.resolved } else c

-- `setThreadResolved`
unfoldable pub set_thread_resolved : Comment → List Comment → List Comment
unfolding eq_bytes
set_thread_resolved root = map (follow root)

-- The comment in the place of the one with its id, or at the end.
unfoldable pub put_comment : Comment → List Comment → List Comment
unfolding eq_bytes
put_comment c [] = c ∷ []
put_comment c (d ∷ ds) = if has_id c.id d then c ∷ ds else d ∷ put_comment c ds

unfoldable pub replay_comment : Comment → List Comment → List Comment
unfolding put_comment set_thread_resolved
replay_comment c cs =
    let put = put_comment c cs in if is_reply c then put else set_thread_resolved c put

abbrev pub listed : List Bytes → Bytes → Bool
listed ids id = any (eq_bytes id) ids

abbrev pub drop_diffs : List Bytes → Group → Group
drop_diffs ids g = record g {
  diffs = keep (λ (d : Diff). not (listed ids d.id)) g.diffs;
  comments = keep (λ (c : Comment). not (listed ids c.diff_id)) g.comments;
}

abbrev pub drop_comments : List Bytes → Group → Group
drop_comments ids g = record g {
  comments = keep (λ (c : Comment). not (listed ids c.id)) g.comments;
}

abbrev pub append_diff : Diff → Group → Group
append_diff d g = record g { diffs = g.diffs ++ d ∷ [] }

abbrev pub take_meta : Group → Group → Group
take_meta m g = record g {
  reviewed_at = m.reviewed_at;
  review_note = m.review_note;
  review_verdict = m.review_verdict;
  hooks = m.hooks;
}

-- What a record does to the groups; `none` is an error.
unfoldable pub apply_groups : Op → LogRecord → List Group → Option (List Group)
unfolding with_group alter_group find_group eq_bytes replay_comment
apply_groups op_diff rec gs = Option.map (λ d. with_group rec.group (append_diff d) gs) rec.diff
apply_groups op_del_diff rec gs = some (alter_group rec.group (drop_diffs rec.ids) gs)
apply_groups op_del_group rec gs = some (keep (λ g. not (has_name rec.group g)) gs)
apply_groups op_del_all rec gs = some []
apply_groups op_comment rec gs = do
  g ← find_group rec.group gs
  c ← rec.comment
  some (alter_group rec.group (λ g. record g { comments = replay_comment c g.comments }) gs)
apply_groups op_del_comments rec gs = some (alter_group rec.group (drop_comments rec.ids) gs)
apply_groups op_meta rec gs = Option.map (λ m. with_group rec.group (take_meta m) gs) rec.meta
apply_groups op_unknown rec gs = none

unfoldable pub apply : LogRecord → Session → Option Session
unfolding apply_groups
apply rec s = do
  gs ← apply_groups rec.op rec s.groups
  some (record { groups = gs; seq = rec.seqs; rounds = rec.rounds })

-- `Load` replays the records in their order.
unfoldable pub replay : List LogRecord → Session → Option Session
unfolding apply
replay [] s = some s
replay (rec ∷ recs) s = do t ← apply rec s; replay recs t
