-- ===== src/Session/Replay/Update.antt =====
-- Proofs about `UpdateComment`: the records of its two halves and their replay.
use mathlib.Core.Path.{subst}
use sbnn.Prelude.{
  >>=-eq-some, Bool, Bool-cases, Bytes, List, Option-cases, [], false, inl, inr, refl, some, sym, ℕ,
  ◌++◌, ◌∷◌, ◌≡◌,
}
use sbnn.Review.{Comment, Group, is_reply}
use sbnn.Review.Threads.{opens}
use sbnn.Session.{Session, find_group}
use sbnn.Session.Comments.{
  CommentPatch, comment_in, edit, edit_stage, resolve, resolve_stage, resolve_thread, state_only,
  then_edit, thread_root, update_comment,
}
use sbnn.Session.Log.{LogRecord, alter_comment, find_comment}
use sbnn.Session.Replay.Comments.{replay-edited, replay-resolved}
use sbnn.Session.Replay.Methods.{comment-replays}
use sbnn.Session.Saves.{Edit, Logged, unchanged}
use sbnn.Session.Threaded.{All-alter_group, All-find_group, IsWellFormed}
use sbnn.Session.Threaded.Edited.{keeps_thread}
use sbnn.Session.Threaded.Resolved.{found_itself, resolve_thread-IsThreaded, thread_root-opens}

Logged-append :
    (s : Session) (xs : List (Session × LogRecord)) (t : Session) (ys : List (Session × LogRecord))
    (u : Session)
    → Logged s xs t
    → Logged t ys u
    → Logged s (xs ++ ys) u
Logged-append s [] t ys u h k = subst (λ (v : Session). Logged v ys u) (sym h) k
Logged-append s (x ∷ xs) t ys u h k = (h.0, Logged-append x.0 xs t ys u h.1 k)

module _ (now : ℕ) (group : Bytes) where
  edit_stage-Logged :
      (id : Bytes) (patch : CommentPatch) (s : Session) {c : Comment}
      → IsWellFormed s
      → comment_in group id s ≡ some c
      → Logged s (edit_stage now group c patch s).saves (edit_stage now group c patch s).session
  unfolding edit_stage comment_in
  edit_stage-Logged id patch s {c} well there =
      let (g, found_group, found) = >>=-eq-some (find_group group s.groups) _ there in
      let threaded = All-find_group _ group s.groups well found_group in
      let kept = keeps_thread patch.body patch.question c in
      (
        comment-replays group (alter_comment c.id (edit patch now)) (edit patch now c) s.seq s
            found_group
            (replay-edited _ g.comments threaded c.id (edit patch now)
              (found_itself id g.comments found) kept.0 kept.1 kept.2),
        refl,
      )

  then_edit-Logged :
      (id : Bytes) (patch : CommentPatch) (s : Session) (first : Edit (Unit {0}))
      → Logged s first.saves first.session
      → IsWellFormed first.session
      → Logged s
          (then_edit now group id patch first).saves
          (then_edit now group id patch first).session
  unfolding then_edit
  then_edit-Logged id patch s first logged well =
      elim (Option-cases (comment_in group id first.session)) [
        | inl gone ↦ rw (gone, Logged, then_edit) logged
        | inr (c, there) ↦
            rw (there, Logged, then_edit)
              (Logged-append s first.saves _ (edit_stage now group c patch first.session).saves _
                logged (edit_stage-Logged id patch first.session well there))
      ]

  module _ (s : Session) {g : Group} (there : find_group group s.groups ≡ some g)
      (well : IsWellFormed s) where
    resolve_stage-Logged :
        (b : Bool) {root : Comment}
        → find_comment root.id g.comments ≡ some root
        → is_reply root ≡ false
        → Logged s
            (resolve_stage now group root b s).saves
            (resolve_stage now group root b s).session
    unfolding resolve_stage
    resolve_stage-Logged b {root} found opens = (
      comment-replays group (resolve_thread b now root) (resolve b now root) s.seq s there (
          replay-resolved _ g.comments (All-find_group _ group s.groups well there) b now found
            opens),
      refl,
    )

    pub resolve_stage-IsWellFormed :
        (b : Bool) {root : Comment}
        → find_comment root.id g.comments ≡ some root
        → is_reply root ≡ false
        → IsWellFormed (resolve_stage now group root b s).session
    unfolding resolve_stage
    resolve_stage-IsWellFormed b {root} found opens =
        let threaded = All-find_group _ group s.groups well there in
        All-alter_group _ group _ s.groups there well
          (resolve_thread-IsThreaded _ g.comments threaded b now found opens)

-- In a well formed session, whatever the patch sets, the records of `UpdateComment` replay one by one
-- to the session as it stood at each call of `persist`, and the last to exactly the session of after;
-- where it persists none, the session has not changed.
pub update_comment-Logged :
    (now : ℕ) (group id : Bytes) (patch : CommentPatch) (s : Session)
    → IsWellFormed s
    → Logged s
        (update_comment now group id patch s).saves
        (update_comment now group id patch s).session
unfolding update_comment
update_comment-Logged now group id patch s well = elim (Option-cases (find_group group s.groups)) [
  | inl unknown ↦ rw (unknown, Logged, update_comment) refl
  | inr (g, there) ↦ elim (Option-cases (find_comment id g.comments)) [
    | inl no_comment ↦ rw (there, no_comment, Logged, update_comment) refl
    | inr (c, found) ↦ elim (Option-cases patch.resolved) [
      | inl untouched ↦
          rw (there, found, untouched, Logged, update_comment)
            (then_edit-Logged now group id patch s (unchanged tt s) refl well)
      | inr (b, set) ↦ elim (Option-cases (thread_root id g.comments)) [
        | inl no_root ↦ rw (there, found, set, no_root, Logged, update_comment) refl
        | inr (root, rooted) ↦
            let threaded = All-find_group _ group s.groups well there in
            let (self, opens) = thread_root-opens _ id g.comments threaded rooted in
            let logged = resolve_stage-Logged now group s there well b self opens in
            elim (Bool-cases (state_only patch c)) [
              | inl only ↦ rw (there, found, set, rooted, only, Logged, update_comment) logged
              | inr more ↦
                  rw (there, found, set, rooted, more, Logged, update_comment)
                    (then_edit-Logged now group id patch s (resolve_stage now group root b s) logged
                      (resolve_stage-IsWellFormed now group s there well b self opens))
            ]
      ]
    ]
  ]
]
