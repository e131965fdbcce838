-- ===== src/Session/WellFormed/Update.antt =====
-- Proofs about `UpdateComment`: well formed sessions.
use sbnn.Prelude.{>>=-eq-some, Bool-cases, Bytes, Option-cases, inl, inr, ℕ}
use sbnn.Review.Threads.{opens}
use sbnn.Session.{Session, find_group}
use sbnn.Session.Comments.{
  CommentPatch, alter_comments, comment_in, edit, edit_stage, resolve_stage, state_only, then_edit,
  thread_root, update_comment,
}
use sbnn.Session.Log.{alter_comment, find_comment}
use sbnn.Session.Replay.Update.{resolve_stage-IsWellFormed}
use sbnn.Session.Saves.{Edit, unchanged}
use sbnn.Session.Threaded.{All-alter_group, All-find_group, IsWellFormed}
use sbnn.Session.Threaded.Edited.{edit-IsThreaded}
use sbnn.Session.Threaded.Resolved.{thread_root-opens}

module _ (now : ℕ) (group : Bytes) (id : Bytes) (patch : CommentPatch) where
  then_edit-IsWellFormed :
      (first : Edit (Unit {0}))
      → IsWellFormed first.session
      → IsWellFormed (then_edit now group id patch first).session
  unfolding then_edit edit_stage comment_in
  then_edit-IsWellFormed first well = elim (Option-cases (comment_in group id first.session)) [
    | inl gone ↦ rw (gone, IsWellFormed, then_edit) well
    | inr (c, there) ↦
        let (g, found_group, found) = >>=-eq-some (find_group group first.session.groups) _ there in
        rw (there, IsWellFormed, then_edit)
          (All-alter_group _ group (alter_comments (alter_comment c.id (edit patch now)))
            first.session.groups found_group well
            (edit-IsThreaded c.id patch now _ g.comments
              (All-find_group _ group first.session.groups well found_group)))
  ]

-- `UpdateComment` leaves a well formed session well formed, whatever the patch sets.
pub update_comment-IsWellFormed :
    (now : ℕ) (group id : Bytes) (patch : CommentPatch) (s : Session)
    → IsWellFormed s
    → IsWellFormed (update_comment now group id patch s).session
unfolding update_comment
update_comment-IsWellFormed now group id patch s well =
    elim (Option-cases (find_group group s.groups)) [
      | inl unknown ↦ rw (unknown, IsWellFormed, update_comment) well
      | inr (g, there) ↦ elim (Option-cases (find_comment id g.comments)) [
        | inl no_comment ↦ rw (there, no_comment, IsWellFormed, update_comment) well
        | inr (c, found) ↦ elim (Option-cases patch.resolved) [
          | inl untouched ↦
              rw (there, found, untouched, IsWellFormed, update_comment)
                (then_edit-IsWellFormed now group id patch (unchanged tt s) well)
          | inr (b, set) ↦ elim (Option-cases (thread_root id g.comments)) [
            | inl no_root ↦ rw (there, found, set, no_root, IsWellFormed, update_comment) well
            | inr (root, rooted) ↦
                let threaded = All-find_group _ group s.groups well there in
                let (self, opens) = thread_root-opens _ id g.comments threaded rooted in
                let first = resolve_stage-IsWellFormed now group s there well b self opens in
                elim (Bool-cases (state_only patch c)) [
                  | inl only ↦
                      rw (there, found, set, rooted, only, IsWellFormed, update_comment) first
                  | inr more ↦
                      rw (there, found, set, rooted, more, IsWellFormed, update_comment)
                        (then_edit-IsWellFormed now group id patch
                          (resolve_stage now group root b s) first)
                ]
          ]
        ]
      ]
    ]
