-- ===== src/Session/Refused.antt =====
-- Proofs about the answers by which the methods of `Store` refuse what they are asked.
use sbnn.Prelude.{
  Bool, Bool-cases, Bytes, Option-cases, [], false, find, inl, inr, is_some, not, refl, true, ℕ,
  ◌&&◌, ◌≡◌, ◌⊎◌,
}
use sbnn.Review.{Comment, Group, Hook, Verdict, find_diff, is_reply}
use sbnn.Session.{Session, find_group}
use sbnn.Session.Comments.{
  AddCommentResult, add_comment, added_comment, anchor, delete_comment, store_comment, thread_root,
}
use sbnn.Session.Hooks.{AddHookResult, add_hook, added_hook, group_or_new, same_hook}
use sbnn.Session.Log.{find_comment}
use sbnn.Session.Rounds.{delete_diff, holds_diff, submit_review}
use sbnn.Session.Saves.{Edit}
use sbnn.Text.{is_empty}

abbrev pub is_added_comment : AddCommentResult → Bool
is_added_comment (added_comment c) = true
is_added_comment _ = false

abbrev pub is_added_hook : AddHookResult → Bool
is_added_hook (added_hook h) = true
is_added_hook _ = false

-- The answer is not a refusal, or the session is as it was and nothing is persisted.
abbrev pub KeepsUnless {ℓ} : {A : Type ℓ} → (A → Bool) → Session → Edit A → Type 0
KeepsUnless accepted s e = (accepted e.answer ≡ true) ⊎ ((e.session ≡ s) × (e.saves ≡ []))

store_comment-accepted :
    (now : ℕ) (g : Group) (c : Comment) (s : Session)
    → is_added_comment (store_comment now g c s).answer ≡ true
      ⊎ (((store_comment now g c s).session ≡ s) × ((store_comment now g c s).saves ≡ []))
unfolding store_comment
store_comment-accepted now g c s = elim (Option-cases (find_diff c.diff_id g.diffs)) [
  | inl nowhere ↦ rw (store_comment, nowhere) (inr (refl, refl))
  | inr (d, there) ↦ rw (store_comment, there) (inl refl)
]

add_comment-KeepsUnless :
    (now : ℕ) (c : Comment) (s : Session) → KeepsUnless is_added_comment s (add_comment now c s)
unfolding add_comment
add_comment-KeepsUnless now c s = elim (Option-cases (find_group c.group s.groups)) [
  | inl nowhere ↦ rw (add_comment, nowhere) (inr (refl, refl))
  | inr (g, there) ↦ elim (Bool-cases (is_reply c)) [
    | inr opens_one ↦ rw (add_comment, there, opens_one) (store_comment-accepted now g c s)
    | inl reply ↦ elim (Option-cases (thread_root c.reply_to g.comments)) [
      | inl lost ↦ rw (add_comment, there, reply, lost) (inr (refl, refl))
      | inr (root, found) ↦
          rw (add_comment, there, reply, found) (store_comment-accepted now g (anchor root c) s)
    ]
  ]
]

add_hook-KeepsUnless :
    (valid_url : Bytes → Bool) (now : ℕ) (group : Bytes) (h : Hook) (s : Session)
    → KeepsUnless is_added_hook s (add_hook valid_url now group h s)
unfolding add_hook
add_hook-KeepsUnless valid_url now group h s =
    elim (Bool-cases (is_empty h.command && is_empty h.url)) [
      | inl idle ↦ rw (add_hook, idle) (inr (refl, refl))
      | inr busy ↦ elim (Bool-cases (not (is_empty h.url) && not (valid_url h.url))) [
        | inl invalid ↦ rw (add_hook, busy, invalid) (inr (refl, refl))
        | inr valid ↦ elim (Option-cases (find (same_hook h) (group_or_new group s.groups).hooks)) [
          | inl new_one ↦ rw (add_hook, busy, valid, new_one) (inl refl)
          | inr (old, known) ↦ rw (add_hook, busy, valid, known) (inr (refl, refl))
        ]
      ]
    ]

delete_comment-KeepsUnless :
    (group id : Bytes) (s : Session) → KeepsUnless (λ b. b) s (delete_comment group id s)
unfolding delete_comment
delete_comment-KeepsUnless group id s = elim (Option-cases (find_group group s.groups)) [
  | inl nowhere ↦ rw (delete_comment, nowhere) (inr (refl, refl))
  | inr (g, there) ↦ elim (Option-cases (find_comment id g.comments)) [
    | inl lost ↦ rw (delete_comment, there, lost) (inr (refl, refl))
    | inr (c, found) ↦ rw (delete_comment, there, found) (inl refl)
  ]
]

delete_diff-KeepsUnless :
    (group id : Bytes) (s : Session) → KeepsUnless (λ b. b) s (delete_diff group id s)
unfolding delete_diff
delete_diff-KeepsUnless group id s = elim (Bool-cases (holds_diff id (find_group group s.groups))) [
  | inl held ↦ rw (delete_diff, held) (inl refl)
  | inr lost ↦ rw (delete_diff, lost) (inr (refl, refl))
]

submit_review-KeepsUnless :
    (now : ℕ) (group note : Bytes) (verdict : Verdict) (s : Session)
    → KeepsUnless is_some s (submit_review now group note verdict s)
unfolding submit_review
submit_review-KeepsUnless now group note verdict s =
    elim (Option-cases (find_group group s.groups)) [
      | inl nowhere ↦ rw (submit_review, nowhere) (inr (refl, refl))
      | inr (g, there) ↦ rw (submit_review, there) (inl refl)
    ]

-- A refusal has no effect: when `AddComment`, `AddHook`, `DeleteComment`, `DeleteDiff` or `SubmitReview`
-- answers with anything but success, the session is as it was and nothing is persisted.
pub methods-KeepsUnless :
    (valid_url : Bytes → Bool) (now : ℕ) (group id note : Bytes) (c : Comment) (h : Hook)
    (verdict : Verdict) (s : Session)
    → KeepsUnless is_added_comment s (add_comment now c s)
      × KeepsUnless is_added_hook s (add_hook valid_url now group h s)
      × KeepsUnless (λ b. b) s (delete_comment group id s)
      × KeepsUnless (λ b. b) s (delete_diff group id s)
      × KeepsUnless is_some s (submit_review now group note verdict s)
methods-KeepsUnless valid_url now group id note c h verdict s = (
  add_comment-KeepsUnless now c s,
  add_hook-KeepsUnless valid_url now group h s,
  delete_comment-KeepsUnless group id s,
  delete_diff-KeepsUnless group id s,
  submit_review-KeepsUnless now group note verdict s,
)
