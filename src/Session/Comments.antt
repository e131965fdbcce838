-- ===== src/Session/Comments.antt =====
-- internal/server/store.go: `AddComment`, `threadRoot`, `UpdateComment`, `DeleteComment` and
-- `ClearComments`.
use sbnn.Prelude.{
  Bool, Bytes, List, Option, [], false, if◌then◌else◌, is_some, keep, length, map, none, not, some,
  true, ℕ, ◌&&◌, ◌++◌, ◌==◌, ◌>>=◌, ◌||◌, ◌∷◌,
}
use sbnn.Review.{Comment, Group, find_diff, is_reply}
use sbnn.Review.Threads.{Thread, threads}
use sbnn.Session.{Session, alter_group, comment_prefix, find_group, next_id}
use sbnn.Session.Log.{
  LogRecord, alter_comment, blank, find_comment, listed, op_comment, op_del_comments,
  set_thread_resolved,
}
use sbnn.Session.Saves.{Edit, saved, unchanged}
use sbnn.Text.{eq_bytes}
use mathlib.Core.List.{flat_map}

pub data AddCommentResult : Type 0 where
  added_comment : Comment → AddCommentResult
  unknown_group unknown_comment unknown_diff : AddCommentResult

-- `threadRoot`
unfoldable pub thread_root : Bytes → List Comment → Option Comment
unfolding find_comment
thread_root id cs = find_comment id cs >>= λ c.
    if is_reply c
    then elim (find_comment c.reply_to cs) [ none ↦ some c | some root ↦ some root ]
    else some c

-- A reply takes the anchor and the state of the comment that opens its thread.
abbrev pub anchor : Comment → Comment → Comment
anchor root c = record c {
  reply_to = root.id;
  diff_id = root.diff_id;
  file_id = root.file_id;
  path = root.path;
  side = root.side;
  start_line = root.start_line;
  end_line = root.end_line;
  snippet = root.snippet;
  resolved = root.resolved;
  question = false;
}

abbrev pub comment_record : Bytes → Comment → LogRecord
comment_record group c = record (blank op_comment group) { comment = some c }

abbrev pub append_comment : Comment → Group → Group
append_comment c g = record g { comments = g.comments ++ c ∷ [] }

-- The part of `AddComment` behind the anchor of a reply.
unfoldable pub store_comment : ℕ → Group → Comment → Session → Edit AddCommentResult
unfolding find_diff next_id alter_group eq_bytes
store_comment now g c s = elim (find_diff c.diff_id g.diffs) [
  | none ↦ unchanged unknown_diff s
  | some d ↦
      let (id, seq) = next_id comment_prefix s.seq in
      let c' = record c { id = id; created_at = now; updated_at = now } in
      saved (added_comment c') (comment_record c.group c')
        (record s { groups = alter_group c.group (append_comment c') s.groups; seq = seq })
]

unfoldable pub add_comment : ℕ → Comment → Session → Edit AddCommentResult
unfolding find_group thread_root store_comment
add_comment now c s = elim (find_group c.group s.groups) [
  | none ↦ unchanged unknown_group s
  | some g ↦
      if is_reply c
      then elim (thread_root c.reply_to g.comments) [
        | none ↦ unchanged unknown_comment s
        | some root ↦ store_comment now g (anchor root c) s
      ]
      else store_comment now g c s
]

pub record CommentPatch : Type 0 where
  pub body : Option Bytes
  pub resolved : Option Bool
  pub question : Option Bool

abbrev pub resolve : Bool → ℕ → Comment → Comment
resolve b now c = record c { resolved = b; updated_at = now }

abbrev pub alter_comments : (List Comment → List Comment) → Group → Group
alter_comments f g = record g { comments = f g.comments }

-- The thread that `root` opens is resolved or reopened: the comments behind it.
unfoldable pub resolve_thread : Bool → ℕ → Comment → List Comment → List Comment
unfolding set_thread_resolved alter_comment
resolve_thread b now root cs =
    set_thread_resolved (resolve b now root) (alter_comment root.id (resolve b now) cs)

-- The first half of `UpdateComment`, for a patch that sets `Resolved`.
unfoldable pub resolve_stage : ℕ → Bytes → Comment → Bool → Session → Edit (Unit {0})
unfolding resolve_thread alter_group
resolve_stage now group root b s =
    saved tt (comment_record group (resolve b now root)) (record s {
      groups = alter_group group (alter_comments (resolve_thread b now root)) s.groups;
    })

abbrev pub edit_body : Option Bytes → Comment → Comment
edit_body none c = c
edit_body (some b) c = record c { body = b }

abbrev pub edit_question : Option Bool → Comment → Comment
edit_question none c = c
edit_question (some q) c = if is_reply c then c else record c { question = q }

abbrev pub edit : CommentPatch → ℕ → Comment → Comment
edit patch now c = record (edit_question patch.question (edit_body patch.body c)) {
  updated_at = now;
}

-- The second half: the body and the question.
unfoldable pub edit_stage : ℕ → Bytes → Comment → CommentPatch → Session → Edit (Unit {0})
unfolding alter_comment alter_group
edit_stage now group c patch s = saved tt (comment_record group (edit patch now c)) (record s {
  groups = alter_group group (alter_comments (alter_comment c.id (edit patch now))) s.groups;
})

-- The comment `id` of a group as it stands in a session.
unfoldable pub comment_in : Bytes → Bytes → Session → Option Comment
unfolding find_group find_comment
comment_in group id s = do g ← find_group group s.groups; find_comment id g.comments

-- A patch of the state alone ends behind the first half.
abbrev pub state_only : CommentPatch → Comment → Bool
state_only patch c = not (is_some patch.body) && (not (is_some patch.question) || is_reply c)

-- The second half behind the first, on the comment as the first has left it.
unfoldable pub then_edit :
    ℕ → Bytes → Bytes → CommentPatch → Edit (Unit {0}) → Edit (Option Comment)
unfolding comment_in edit_stage
then_edit now group id patch first = elim (comment_in group id first.session) [
  | none ↦ record { answer = none; session = first.session; saves = first.saves }
  | some c ↦
      let second = edit_stage now group c patch first.session in
      record {
        answer = some (edit patch now c);
        session = second.session;
        saves = first.saves ++ second.saves;
      }
]

unfoldable pub update_comment : ℕ → Bytes → Bytes → CommentPatch → Session → Edit (Option Comment)
unfolding find_group find_comment thread_root resolve_stage then_edit comment_in
update_comment now group id patch s = elim (find_group group s.groups) [
  | none ↦ unchanged none s
  | some g ↦ elim (find_comment id g.comments) [
    | none ↦ unchanged none s
    | some c ↦ elim patch.resolved [
      | none ↦ then_edit now group id patch (unchanged tt s)
      | some b ↦ elim (thread_root id g.comments) [
        | none ↦ unchanged none s
        | some root ↦
            let first = resolve_stage now group root b s in
            if state_only patch c
            then record {
              answer = comment_in group id first.session;
              session = first.session;
              saves = first.saves;
            }
            else then_edit now group id patch first
      ]
    ]
  ]
]

-- Does the deletion of `target` take `c` with it?
abbrev pub goes_with : Comment → Comment → Bool
goes_with target c =
    eq_bytes c.id target.id || (not (is_reply target) && eq_bytes c.reply_to target.id)

abbrev pub ids_of : List Comment → List Bytes
ids_of = map (λ (c : Comment). c.id)

unfoldable pub delete_comment : Bytes → Bytes → Session → Edit Bool
unfolding find_group find_comment alter_group eq_bytes
delete_comment group id s = elim (find_group group s.groups) [
  | none ↦ unchanged false s
  | some g ↦ elim (find_comment id g.comments) [
    | none ↦ unchanged false s
    | some target ↦
        saved true
          (record (blank op_del_comments group) {
            ids = ids_of (keep (goes_with target) g.comments);
          })
          (record s {
            groups =
                alter_group group (alter_comments (keep (λ c. not (goes_with target c)))) s.groups;
          })
  ]
]

-- The threads that `ClearComments` removes.
abbrev pub cleared : Bool → Thread → Bool
cleared resolved_only t = not (resolved_only && not t.root.resolved)

abbrev pub thread_ids : Thread → List Bytes
thread_ids t = t.root.id ∷ ids_of t.replies

-- The keys of the map `gone`.
unfoldable pub gone_ids : Bool → List Comment → List Bytes
unfolding threads
gone_ids resolved_only cs = flat_map thread_ids (keep (cleared resolved_only) (threads cs))

unfoldable pub clear_comments : Bytes → Bool → Session → Edit ℕ
unfolding find_group alter_group gone_ids threads eq_bytes
clear_comments group resolved_only s = elim (find_group group s.groups) [
  | none ↦ unchanged 0 s
  | some g ↦
      let removed = length (keep (cleared resolved_only) (threads g.comments)) in
      let gone = λ (c : Comment). listed (gone_ids resolved_only g.comments) c.id in
      if removed == 0
      then unchanged 0 s
      else saved removed
          (record (blank op_del_comments group) { ids = ids_of (keep gone g.comments) })
          (record s {
            groups = alter_group group (alter_comments (keep (λ c. not (gone c)))) s.groups;
          })
]
