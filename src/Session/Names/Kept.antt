-- ===== src/Session/Names/Kept.antt =====
-- The methods that neither make nor remove a group.
use sbnn.Prelude.{
  Bool, Bool-cases, Bytes, Option-cases, any, inl, inr, keep, length, not, refl, ℕ, ◌==◌,
}
use sbnn.Review.{Comment, Group, Hook, Verdict, find_diff, is_reply}
use sbnn.Review.Threads.{threads}
use sbnn.Session.{Session, bump, comment_prefix, find_group, next_id}
use sbnn.Session.Comments.{
  CommentPatch, add_comment, alter_comments, anchor, append_comment, clear_comments, cleared,
  comment_in, delete_comment, edit, edit_stage, goes_with, gone_ids, resolve_stage, resolve_thread,
  state_only, store_comment, then_edit, thread_root, update_comment,
}
use sbnn.Session.Hooks.{
  alter_hook, alter_hooks, delete_hooks, dropped_hook, has_hook_id, set_hook_run,
}
use sbnn.Session.Log.{alter_comment, find_comment, listed}
use sbnn.Session.Names.{SameNames, SameNames-trans, altered-SameNames, same-SameNames}
use sbnn.Session.Rounds.{delete_diff, holds_diff, submit, submit_review, without_diff}
use sbnn.Session.Saves.{Edit, unchanged}

module _ (group : Bytes) (s : Session) where
  pub delete_diff-SameNames : (id : Bytes) → SameNames s (delete_diff group id s).session
  unfolding delete_diff
  delete_diff-SameNames id = elim (Bool-cases (holds_diff id (find_group group s.groups))) [
    | inl there ↦ rw there (altered-SameNames group (without_diff id) s.seq s (λ g. refl))
    | inr not_there ↦ rw not_there (same-SameNames s)
  ]

  pub submit_review-SameNames :
      (now : ℕ) (note : Bytes) (verdict : Verdict)
      → SameNames s (submit_review now group note verdict s).session
  unfolding submit_review
  submit_review-SameNames now note verdict = elim (Option-cases (find_group group s.groups)) [
    | inl not_there ↦ rw (not_there, submit_review) (same-SameNames s)
    | inr (g, there) ↦
        rw (there, submit_review)
          (altered-SameNames group (submit now note verdict) s.seq s (λ g. refl))
  ]

  pub set_hook_run-SameNames :
      (id : Bytes) (f : Hook → Hook) → SameNames s (set_hook_run group id f s).session
  unfolding set_hook_run
  set_hook_run-SameNames id f = elim (Option-cases (find_group group s.groups)) [
    | inl not_there ↦ rw (not_there, set_hook_run) (same-SameNames s)
    | inr (g, there) ↦ elim (Bool-cases (any (has_hook_id id) g.hooks)) [
      | inr no_hook ↦ rw (there, no_hook, set_hook_run) (same-SameNames s)
      | inl hook ↦
          rw (there, hook, set_hook_run)
            (altered-SameNames group (alter_hooks (alter_hook id f)) s.seq s (λ g. refl))
    ]
  ]

  pub delete_hooks-SameNames : (id : Bytes) → SameNames s (delete_hooks group id s).session
  unfolding delete_hooks
  delete_hooks-SameNames id = elim (Option-cases (find_group group s.groups)) [
    | inl not_there ↦ rw (not_there, delete_hooks) (same-SameNames s)
    | inr (g, there) ↦
        let left =
          altered-SameNames group (alter_hooks (keep (λ h. not (dropped_hook id h)))) s.seq s
            (λ g. refl) in
        elim (Bool-cases (length (keep (dropped_hook id) g.hooks) == 0)) [
          | inl nothing ↦ rw (there, nothing, delete_hooks) left
          | inr some_gone ↦ rw (there, some_gone, delete_hooks) left
        ]
  ]

  pub delete_comment-SameNames : (id : Bytes) → SameNames s (delete_comment group id s).session
  unfolding delete_comment
  delete_comment-SameNames id = elim (Option-cases (find_group group s.groups)) [
    | inl not_there ↦ rw (not_there, delete_comment) (same-SameNames s)
    | inr (g, there) ↦ elim (Option-cases (find_comment id g.comments)) [
      | inl no_comment ↦ rw (there, no_comment, delete_comment) (same-SameNames s)
      | inr (target, found) ↦
          rw (there, found, delete_comment)
            (altered-SameNames group (alter_comments (keep (λ c. not (goes_with target c)))) s.seq s
              (λ g. refl))
    ]
  ]

  pub clear_comments-SameNames :
      (resolved_only : Bool) → SameNames s (clear_comments group resolved_only s).session
  unfolding clear_comments
  clear_comments-SameNames resolved_only = elim (Option-cases (find_group group s.groups)) [
    | inl not_there ↦ rw (not_there, clear_comments) (same-SameNames s)
    | inr (g, there) ↦
        elim (Bool-cases (length (keep (cleared resolved_only) (threads g.comments)) == 0)) [
          | inl nothing ↦ rw (there, nothing, clear_comments) (same-SameNames s)
          | inr gone ↦
              rw (there, gone, clear_comments)
                (altered-SameNames group
                  (alter_comments
                    (keep (λ c. not (listed (gone_ids resolved_only g.comments) c.id))))
                  s.seq s (λ g. refl))
        ]
  ]

store_comment-SameNames :
    (now : ℕ) (g : Group) (c : Comment) (s : Session)
    → SameNames s (store_comment now g c s).session
unfolding store_comment next_id
store_comment-SameNames now g c s = elim (Option-cases (find_diff c.diff_id g.diffs)) [
  | inl unknown ↦ rw (unknown, store_comment) (same-SameNames s)
  | inr (d, known) ↦
      rw (known, store_comment)
        (altered-SameNames c.group
          (append_comment (record c {
            id = (next_id comment_prefix s.seq).0;
            created_at = now;
            updated_at = now;
          }))
          (bump comment_prefix s.seq) s (λ g. refl))
]

pub add_comment-SameNames :
    (now : ℕ) (c : Comment) (s : Session) → SameNames s (add_comment now c s).session
unfolding add_comment
add_comment-SameNames now c s = elim (Option-cases (find_group c.group s.groups)) [
  | inl unknown ↦ rw (unknown, add_comment) (same-SameNames s)
  | inr (g, there) ↦ elim (Bool-cases (is_reply c)) [
    | inr alone ↦ rw (there, alone, add_comment) (store_comment-SameNames now g c s)
    | inl reply ↦ elim (Option-cases (thread_root c.reply_to g.comments)) [
      | inl no_root ↦ rw (there, reply, no_root, add_comment) (same-SameNames s)
      | inr (root, found) ↦
          rw (there, reply, found, add_comment) (store_comment-SameNames now g (anchor root c) s)
    ]
  ]
]

module _ (now : ℕ) (group : Bytes) (id : Bytes) (patch : CommentPatch) where
  then_edit-SameNames :
      (s : Session) (first : Edit (Unit {0}))
      → SameNames s first.session
      → SameNames s (then_edit now group id patch first).session
  unfolding then_edit edit_stage
  then_edit-SameNames s first same = elim (Option-cases (comment_in group id first.session)) [
    | inl gone ↦ rw (gone, then_edit) same
    | inr (c, there) ↦
        rw (there, then_edit)
          (SameNames-trans same (
            altered-SameNames group (alter_comments (alter_comment c.id (edit patch now)))
              first.session.seq first.session (λ g. refl)))
  ]

resolve_stage-SameNames :
    (now : ℕ) (group : Bytes) (root : Comment) (b : Bool) (s : Session)
    → SameNames s (resolve_stage now group root b s).session
unfolding resolve_stage
resolve_stage-SameNames now group root b s =
    altered-SameNames group (alter_comments (resolve_thread b now root)) s.seq s (λ g. refl)

pub update_comment-SameNames :
    (now : ℕ) (group id : Bytes) (patch : CommentPatch) (s : Session)
    → SameNames s (update_comment now group id patch s).session
unfolding update_comment
update_comment-SameNames now group id patch s = elim (Option-cases (find_group group s.groups)) [
  | inl unknown ↦ rw (unknown, update_comment) (same-SameNames s)
  | inr (g, there) ↦ elim (Option-cases (find_comment id g.comments)) [
    | inl no_comment ↦ rw (there, no_comment, update_comment) (same-SameNames s)
    | inr (c, found) ↦ elim (Option-cases patch.resolved) [
      | inl untouched ↦
          rw (there, found, untouched, update_comment)
            (then_edit-SameNames now group id patch s (unchanged tt s) (same-SameNames s))
      | inr (b, set) ↦ elim (Option-cases (thread_root id g.comments)) [
        | inl no_root ↦ rw (there, found, set, no_root, update_comment) (same-SameNames s)
        | inr (root, rooted) ↦ elim (Bool-cases (state_only patch c)) [
          | inl only ↦
              rw (there, found, set, rooted, only, update_comment)
                (resolve_stage-SameNames now group root b s)
          | inr more ↦
              rw (there, found, set, rooted, more, update_comment)
                (then_edit-SameNames now group id patch s (resolve_stage now group root b s)
                  (resolve_stage-SameNames now group root b s))
        ]
      ]
    ]
  ]
]
