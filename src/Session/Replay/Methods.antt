-- ===== src/Session/Replay/Methods.antt =====
-- Proofs about `AddComment`, `DeleteComment` and `ClearComments`: their records and the replay.
use sbnn.Prelude.{
  Bool, Bool-cases, Bytes, List, Option-cases, [], ap, arith, inl, inr, keep, length, none, not,
  refl, some, ℕ, ◌++◌, ◌==◌, ◌∷◌, ◌≡◌,
}
use sbnn.Review.{Comment, Group, find_diff, is_reply}
use sbnn.Review.Threads.{threads}
use sbnn.Session.{
  Counters, Session, alter_group, bump, comment_prefix, count_of, find_group, next_id,
}
use sbnn.Session.Comments.{
  add_comment, alter_comments, anchor, clear_comments, cleared, comment_record, delete_comment,
  goes_with, gone_ids, ids_of, store_comment, thread_root,
}
use sbnn.Session.Log.{apply, blank, find_comment, listed, op_del_comments, replay_comment}
use sbnn.Session.Replay.Comments.{drop_comments-eq, replay-new}
use sbnn.Session.Replay.Groups.{with_groups}
use sbnn.Session.Saves.{Logged, stamp}
use sbnn.Session.Threaded.{
  All-find_group, HasDistinctIds, IsWellFormed, count_of-bump, find_comment-fresh,
}
use sbnn.Text.Number.{itoa}

module _ (group : Bytes) where
  alter_group-cong :
      (f h : Group → Group) (gs : List Group) {g : Group}
      → find_group group gs ≡ some g
      → f g ≡ h g
      → alter_group group f gs ≡ alter_group group h gs
  unfolding find_group alter_group
  alter_group-cong f h [] e same = cc
  alter_group-cong f h (x ∷ gs) {g} e same = ground (arith, alter_group-cong f h gs {g = g})

  pub comment-replays :
      (f : List Comment → List Comment) (c : Comment) (seq : Counters) (s : Session) {g : Group}
      → find_group group s.groups ≡ some g
      → replay_comment c g.comments ≡ f g.comments
      → apply
          (stamp
            (record s { groups = alter_group group (alter_comments f) s.groups; seq = seq })
            (comment_record group c))
          s
        ≡ some (record s { groups = alter_group group (alter_comments f) s.groups; seq = seq })
  unfolding apply
  comment-replays f c seq s {g} there same = rw there (
      ap (λ (gs : List Group). with_groups gs (record s { seq = seq }))
        (alter_group-cong _ (alter_comments f) s.groups there
          (ap (λ (cs : List Comment). record g { comments = cs }) same)))

  removal-replays :
      (p : Comment → Bool) (s : Session) {g : Group}
      → find_group group s.groups ≡ some g
      → HasDistinctIds g.comments
      → apply
          (stamp
            (record s {
              groups = alter_group group (alter_comments (keep (λ c. not (p c)))) s.groups;
            })
            (record (blank op_del_comments group) { ids = ids_of (keep p g.comments) }))
          s
        ≡ some (record s {
          groups = alter_group group (alter_comments (keep (λ c. not (p c)))) s.groups;
        })
  unfolding apply
  removal-replays p s {g} there distinct =
      ap (λ (gs : List Group). with_groups gs s)
        (alter_group-cong _ (alter_comments (keep (λ c. not (p c)))) s.groups there (
          ap (λ (cs : List Comment). record g { comments = cs })
            (drop_comments-eq p g.comments distinct)))

store_comment-Logged :
    (now : ℕ) (g : Group) (c : Comment) (s : Session)
    → find_group c.group s.groups ≡ some g
    → IsWellFormed s
    → Logged s (store_comment now g c s).saves (store_comment now g c s).session
unfolding store_comment next_id
store_comment-Logged now g c s there well = elim (Option-cases (find_diff c.diff_id g.diffs)) [
  | inl unknown ↦ rw (unknown, Logged, store_comment) refl
  | inr (d, known) ↦
      let threaded = All-find_group _ c.group s.groups well there in
      let id : Bytes =
        comment_prefix ++ itoa (count_of comment_prefix (bump comment_prefix s.seq)) in
      let c' : Comment = record c { id = id; created_at = now; updated_at = now } in
      let fresh : find_comment id g.comments ≡ none =
        rw count_of-bump
          (find_comment-fresh (count_of comment_prefix s.seq) g.comments threaded.issued) in
      rw (known, Logged, store_comment)
        (
          comment-replays c.group (λ cs. cs ++ c' ∷ []) c' (bump comment_prefix s.seq) s there
              (replay-new _ g.comments threaded c' fresh refl),
          refl,
        )
]

-- In a well formed session, the records of `AddComment` replay to exactly the session of after, for a
-- comment that opens a thread and for a reply; where it persists none, the session has not changed.
pub add_comment-Logged :
    (now : ℕ) (c : Comment) (s : Session)
    → IsWellFormed s
    → Logged s (add_comment now c s).saves (add_comment now c s).session
unfolding add_comment
add_comment-Logged now c s well = elim (Option-cases (find_group c.group s.groups)) [
  | inl unknown ↦ rw (unknown, Logged, add_comment) refl
  | inr (g, there) ↦ elim (Bool-cases (is_reply c)) [
    | inr root ↦ rw (there, root, Logged, add_comment) (store_comment-Logged now g c s there well)
    | inl reply ↦ elim (Option-cases (thread_root c.reply_to g.comments)) [
      | inl no_root ↦ rw (there, reply, no_root, Logged, add_comment) refl
      | inr (root, found) ↦
          rw (there, reply, found, Logged, add_comment)
            (store_comment-Logged now g (anchor root c) s there well)
    ]
  ]
]

-- In a well formed session, the records of `DeleteComment` replay to exactly the session of after, the
-- replies that go with the comment included; where it persists none, the session has not changed.
pub delete_comment-Logged :
    (group id : Bytes) (s : Session)
    → IsWellFormed s
    → Logged s (delete_comment group id s).saves (delete_comment group id s).session
unfolding delete_comment
delete_comment-Logged group id s well = elim (Option-cases (find_group group s.groups)) [
  | inl unknown ↦ rw (unknown, Logged, delete_comment) refl
  | inr (g, there) ↦ elim (Option-cases (find_comment id g.comments)) [
    | inl no_comment ↦ rw (there, no_comment, Logged, delete_comment) refl
    | inr (target, found) ↦
        rw (there, found, Logged, delete_comment)
          (
            removal-replays group (goes_with target) s there
                (All-find_group _ group s.groups well there).distinct,
            refl,
          )
  ]
]

-- In a well formed session, the records of `ClearComments` replay to exactly the session of after,
-- whether it clears all threads or the resolved ones; where it persists none, the session has not
-- changed.
pub clear_comments-Logged :
    (group : Bytes) (resolved_only : Bool) (s : Session)
    → IsWellFormed s
    → Logged s
        (clear_comments group resolved_only s).saves
        (clear_comments group resolved_only s).session
unfolding clear_comments
clear_comments-Logged group resolved_only s well = elim (Option-cases (find_group group s.groups)) [
  | inl unknown ↦ rw (unknown, Logged, clear_comments) refl
  | inr (g, there) ↦
      elim (Bool-cases (length (keep (cleared resolved_only) (threads g.comments)) == 0)) [
        | inl nothing_gone ↦ rw (there, nothing_gone, Logged, clear_comments) refl
        | inr gone ↦
            rw (there, gone, Logged, clear_comments)
              (
                removal-replays group (λ c. listed (gone_ids resolved_only g.comments) c.id) s there
                    (All-find_group _ group s.groups well there).distinct,
                refl,
              )
      ]
]
