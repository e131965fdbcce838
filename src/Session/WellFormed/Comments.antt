-- ===== src/Session/WellFormed/Comments.antt =====
-- Proofs about `AddComment`, `DeleteComment` and `ClearComments`: well formed sessions.
use mathlib.Core.Path.{subst}
use sbnn.Prelude.{
  All, All-map, Bool, Bool-cases, Bytes, List, Option-cases, ap, arith, inl, inr, keep, length, not,
  refl, some, sym, ℕ, ◌++◌, ◌+◌, ◌==◌, ◌≡◌,
}
use sbnn.Review.{Comment, Group, find_diff, is_reply}
use sbnn.Review.Threads.{opens, threads}
use sbnn.Session.{Session, alter_group, bump, comment_prefix, count_of, find_group, next_id}
use sbnn.Session.Comments.{
  add_comment, alter_comments, anchor, append_comment, clear_comments, cleared, delete_comment,
  goes_with, gone_ids, store_comment, thread_root,
}
use sbnn.Session.Log.{find_comment, listed}
use sbnn.Session.Threaded.{
  All-alter_group, All-find_group, IsAnchored, IsRooted, IsThreaded, IsWellFormed, count_of-bump,
}
use sbnn.Session.Threaded.Cleared.{cleared-KeepsRoots}
use sbnn.Session.Threaded.Grown.{IsThreaded-append, IsThreaded-weaken}
use sbnn.Session.Threaded.Kept.{IsThreaded-keep, goes_with-KeepsRoots}
use sbnn.Session.Threaded.Resolved.{thread_root-opens}
use sbnn.Text.Number.{itoa}

same_place :
    (c : Comment) (id : Bytes) (now : ℕ) (cs : List Comment)
    → IsRooted cs c
    → IsRooted cs (record c { id = id; created_at = now; updated_at = now })
same_place c id now cs r = record {
  root = r.root;
  there = r.there;
  opens_thread = r.opens_thread;
  same_state = r.same_state;
  same_diff = r.same_diff;
}

store_comment-IsWellFormed :
    (now : ℕ) (g : Group) (c : Comment) (s : Session)
    → find_group c.group s.groups ≡ some g
    → IsWellFormed s
    → IsAnchored g.comments c
    → IsWellFormed (store_comment now g c s).session
unfolding store_comment next_id
store_comment-IsWellFormed now g c s there well anchored =
    elim (Option-cases (find_diff c.diff_id g.diffs)) [
      | inl unknown ↦ rw (unknown, IsWellFormed, store_comment) well
      | inr (d, known) ↦
          let n = count_of comment_prefix s.seq in
          let id : Bytes =
            comment_prefix ++ itoa (count_of comment_prefix (bump comment_prefix s.seq)) in
          let c' : Comment = record c { id = id; created_at = now; updated_at = now } in
          let named : id ≡ comment_prefix ++ itoa (n + 1) =
            ap (λ (k : ℕ). comment_prefix ++ itoa k) (count_of-bump comment_prefix s.seq) in
          let grown : All (λ h. IsThreaded (n + 1) h.comments)
              (alter_group c.group (append_comment c') s.groups) =
            All-alter_group (λ h. IsThreaded (n + 1) h.comments) c.group (append_comment c')
              s.groups there
              (All-map _ _ s.groups (λ h t. IsThreaded-weaken n (n + 1) h.comments (omega arith) t)
                well)
              (IsThreaded-append n g.comments c' (All-find_group _ c.group s.groups well there)
                named (λ reply. same_place c id now g.comments (anchored reply))) in
          rw (known, IsWellFormed, store_comment)
            (subst
              (λ k.
                All (λ h. IsThreaded k h.comments)
                  (alter_group c.group (append_comment c') s.groups))
              (sym (count_of-bump comment_prefix s.seq)) grown)
    ]

-- `AddComment` leaves a well formed session well formed: the id of the new comment is new, and a
-- reply is kept under the comment that opens its thread, with that comment's state and round.
pub add_comment-IsWellFormed :
    (now : ℕ) (c : Comment) (s : Session)
    → IsWellFormed s
    → IsWellFormed (add_comment now c s).session
unfolding add_comment
add_comment-IsWellFormed now c s well = elim (Option-cases (find_group c.group s.groups)) [
  | inl unknown ↦ rw (unknown, IsWellFormed, add_comment) well
  | inr (g, there) ↦ elim (Bool-cases (is_reply c)) [
    | inr alone ↦
        rw (there, alone, IsWellFormed, add_comment)
          (store_comment-IsWellFormed now g c s there well (λ reply. cc))
    | inl reply ↦ elim (Option-cases (thread_root c.reply_to g.comments)) [
      | inl no_root ↦ rw (there, reply, no_root, IsWellFormed, add_comment) well
      | inr (root, found) ↦
          let threaded = All-find_group _ c.group s.groups well there in
          let (self, opens) = thread_root-opens _ c.reply_to g.comments threaded found in
          rw (there, reply, found, IsWellFormed, add_comment)
            (store_comment-IsWellFormed now g (anchor root c) s there well (λ again. record {
              root = root;
              there = self;
              opens_thread = opens;
              same_state = refl;
              same_diff = refl;
            }))
    ]
  ]
]

-- `DeleteComment` leaves a well formed session well formed: no reply is left without its thread.
pub delete_comment-IsWellFormed :
    (group id : Bytes) (s : Session)
    → IsWellFormed s
    → IsWellFormed (delete_comment group id s).session
unfolding delete_comment
delete_comment-IsWellFormed group id s well = elim (Option-cases (find_group group s.groups)) [
  | inl unknown ↦ rw (unknown, IsWellFormed, delete_comment) well
  | inr (g, there) ↦ elim (Option-cases (find_comment id g.comments)) [
    | inl no_comment ↦ rw (there, no_comment, IsWellFormed, delete_comment) well
    | inr (target, found) ↦
        let threaded = All-find_group _ group s.groups well there in
        rw (there, found, IsWellFormed, delete_comment)
          (All-alter_group _ group (alter_comments (keep (λ c. not (goes_with target c)))) s.groups
            there well
            (IsThreaded-keep _ _ g.comments threaded
              (goes_with-KeepsRoots _ id g.comments threaded found)))
  ]
]

-- `ClearComments` leaves a well formed session well formed, whether it clears all threads or the
-- resolved ones: no reply is left without its thread.
pub clear_comments-IsWellFormed :
    (group : Bytes) (resolved_only : Bool) (s : Session)
    → IsWellFormed s
    → IsWellFormed (clear_comments group resolved_only s).session
unfolding clear_comments
clear_comments-IsWellFormed group resolved_only s well =
    elim (Option-cases (find_group group s.groups)) [
      | inl unknown ↦ rw (unknown, IsWellFormed, clear_comments) well
      | inr (g, there) ↦
          elim (Bool-cases (length (keep (cleared resolved_only) (threads g.comments)) == 0)) [
            | inl nothing ↦ rw (there, nothing, IsWellFormed, clear_comments) well
            | inr gone ↦
                let threaded = All-find_group _ group s.groups well there in
                rw (there, gone, IsWellFormed, clear_comments)
                  (All-alter_group _ group
                    (alter_comments
                      (keep (λ c. not (listed (gone_ids resolved_only g.comments) c.id))))
                    s.groups there well
                    (IsThreaded-keep _ _ g.comments threaded
                      (cleared-KeepsRoots _ g.comments threaded resolved_only)))
          ]
    ]
