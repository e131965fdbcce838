-- ===== src/Session/Threaded/Edited.antt =====
-- Well threaded comments of which `UpdateComment` edits one.
use sbnn.Prelude.{
  All-map, Bool, Bool-cases, Bytes, List, Option, arith, inl, inr, none, refl, some, sym, ℕ, ◌∙◌,
  ◌≡◌,
}
use sbnn.Review.{Comment}
use sbnn.Session.Comments.{CommentPatch, edit, edit_body, edit_question}
use sbnn.Session.Log.{alter_comment, has_id}
use sbnn.Session.Threaded.{IsThreaded}
use sbnn.Session.Threaded.Changed.{KeepsPlace, alter_comment-map, altered, map-IsThreaded}

-- An edit moves no comment to another thread or round, and resolves none.
pub keeps_thread :
    (b : Option Bytes) (q : Option Bool) (c : Comment)
    → ((edit_question q (edit_body b c)).id ≡ c.id)
      × ((edit_question q (edit_body b c)).reply_to ≡ c.reply_to)
      × ((edit_question q (edit_body b c)).resolved ≡ c.resolved)
      × ((edit_question q (edit_body b c)).diff_id ≡ c.diff_id)
keeps_thread none none c = (refl, refl, refl, refl)
keeps_thread (some b) none c = (refl, refl, refl, refl)
keeps_thread none (some q) c = ground arith
keeps_thread (some b) (some q) c = ground arith

module _ (id : Bytes) (patch : CommentPatch) (now : ℕ) where
  abbrev edited : Comment → Comment
  edited = altered id (edit patch now)

  edited-same {ℓ} :
      {A : Type ℓ} (field : Comment → A)
      → ((c : Comment) → field (edit patch now c) ≡ field c)
      → (c : Comment) → field (edited c) ≡ field c
  edited-same field same c = elim (Bool-cases (has_id id c)) [
    | inl this ↦ rw this (same c)
    | inr other ↦ rw other refl
  ]

  edited-KeepsPlace : KeepsPlace edited
  edited-KeepsPlace = record {
    keeps_id = edited-same (λ c. c.id) (λ c. (keeps_thread patch.body patch.question c).0);
    keeps_thread =
        edited-same (λ c. c.reply_to) (λ c. (keeps_thread patch.body patch.question c).1);
    keeps_diff = edited-same (λ c. c.diff_id) (λ c. (keeps_thread patch.body patch.question c).3);
  }

  edited-resolved : (c : Comment) → (edited c).resolved ≡ c.resolved
  edited-resolved =
      edited-same (λ c. c.resolved) (λ c. (keeps_thread patch.body patch.question c).2)

  pub edit-IsThreaded :
      (n : ℕ) (cs : List Comment)
      → IsThreaded n cs
      → IsThreaded n (alter_comment id (edit patch now) cs)
  edit-IsThreaded n cs t = rw (alter_comment-map id (edit patch now) cs t.distinct) (
      map-IsThreaded edited edited-KeepsPlace n cs
        (All-map _ _ cs
          (λ d i r reply. edited-resolved r.root ∙ r.same_state ∙ sym (edited-resolved d)) t.issued)
        t)
