-- ===== src/Session/WellFormed.antt =====
-- Proofs about the methods on rounds, groups and reviews: well formed sessions.
pub mod Comments
pub mod Update
pub mod Hooks
use mathlib.Core.Path.{subst}
use sbnn.Prelude.{
  All, All-keep, All-map, Bool-cases, Bytes, List, Option-cases, [], any, ap, false, if◌then◌else◌,
  inl, inr, is_nil, map, not, refl, sym, ℕ, ◌==◌, ◌∙◌, ◌∷◌, ◌≡◌,
}
use sbnn.Review.{Comment, Diff, Group, Verdict, new_group}
use sbnn.Session.{
  Counters, Session, alter_group, bump, comment_prefix, count_of, diff_prefix, find_group, has_name,
  next_id, next_round, with_group,
}
use sbnn.Session.Log.{append_diff}
use sbnn.Session.Rounds.{
  add_diff, delete_all_groups, delete_diff, delete_group, holds_diff, round_title, submit,
  submit_review, without_diff,
}
use sbnn.Session.Threaded.{IsThreaded, IsWellFormed}
use sbnn.Session.Threaded.Kept.{IsThreaded-keep}
use sbnn.Text.{eq_bytes, eq_bytes_iff}

module _ {κ} (P : Group → Type κ) where
  pub All-alter_any :
      (name : Bytes) (f : Group → Group) (gs : List Group)
      → ((g : Group) → P g → P (f g))
      → All P gs
      → All P (alter_group name f gs)
  unfolding alter_group
  All-alter_any name f [] k h = tt
  All-alter_any name f (g ∷ gs) k h = elim (Bool-cases (has_name name g)) [
    | inl here ↦ rw here (k g h.0, h.1)
    | inr later ↦ rw later (h.0, All-alter_any name f gs k h.1)
  ]

  pub All-with_group :
      (name : Bytes) (f : Group → Group) (gs : List Group)
      → P (new_group name)
      → ((g : Group) → P g → P (f g))
      → All P gs
      → All P (with_group name f gs)
  unfolding with_group
  All-with_group name f [] new k h = (k (new_group name) new, tt)
  All-with_group name f (g ∷ gs) new k h = elim (Bool-cases (has_name name g)) [
    | inl here ↦ rw here (k g h.0, h.1)
    | inr later ↦ rw later (h.0, All-with_group name f gs new k h.1)
  ]

pub nothing-IsThreaded : (n : ℕ) → IsThreaded n []
nothing-IsThreaded n = record { issued = tt; distinct = tt; anchored = tt }

pub count_of-bump_other :
    (j k : Bytes) (m : Counters) → eq_bytes j k ≡ false → count_of k (bump j m) ≡ count_of k m
unfolding count_of bump
count_of-bump_other j k [] other = rw other refl
count_of-bump_other j k ((i, n) ∷ m) other = elim (Bool-cases (eq_bytes i j)) [
  | inl same ↦
      let passed : eq_bytes i k ≡ false = rw ((eq_bytes_iff i j).0 same) other in
      rw (same, passed) refl
  | inr apart ↦ rw (apart, count_of-bump_other j k m other) refl
]

with_diff :
    (n : ℕ) (group : Bytes) (d : Diff) (gs : List Group)
    → All (λ g. IsThreaded n g.comments) gs
    → All (λ g. IsThreaded n g.comments) (with_group group (append_diff d) gs)
with_diff n group d gs h =
    All-with_group _ group (append_diff d) gs (nothing-IsThreaded n) (λ g t. t) h

-- `AddDiff` leaves a well formed session well formed.
pub add_diff-IsWellFormed :
    (now : ℕ) (group : Bytes) (d : Diff) (s : Session)
    → IsWellFormed s
    → IsWellFormed (add_diff now group d s).session
unfolding add_diff next_id
add_diff-IsWellFormed now group d s well =
    let d' : Diff = record d {
      id = (next_id diff_prefix s.seq).0;
      created_at = if d.created_at == 0 then now else d.created_at;
      title = round_title d.title (next_round group s.rounds).0;
    } in
    subst (λ k. All (λ g. IsThreaded k g.comments) (with_group group (append_diff d') s.groups))
      (sym (count_of-bump_other diff_prefix comment_prefix s.seq refl))
      (with_diff _ group d' s.groups well)

-- `DeleteDiff` leaves a well formed session well formed: with the comments on the round, their replies
-- are gone.
pub delete_diff-IsWellFormed :
    (group id : Bytes) (s : Session)
    → IsWellFormed s
    → IsWellFormed (delete_diff group id s).session
unfolding delete_diff
delete_diff-IsWellFormed group id s well =
    elim (Bool-cases (holds_diff id (find_group group s.groups))) [
      | inr not_there ↦ rw not_there well
      | inl there ↦ rw there (
          All-alter_any _ group (without_diff id) s.groups
            (λ g t.
              IsThreaded-keep (λ (c : Comment). not (eq_bytes c.diff_id id)) _ g.comments t
                (λ d self r kept. ap (λ (i : Bytes). not (eq_bytes i id)) r.same_diff ∙ kept))
            well)
    ]

-- `DeleteGroup` leaves a well formed session well formed.
pub delete_group-IsWellFormed :
    (name : Bytes) (s : Session) → IsWellFormed s → IsWellFormed (delete_group name s).session
unfolding delete_group
delete_group-IsWellFormed name s well =
    let left =
      All-keep _ (λ g. not (has_name name g)) s.groups
        (All-map _ _ s.groups (λ g t stays. t) well) in
    elim (Bool-cases (any (has_name name) s.groups)) [
      | inl there ↦ rw there left
      | inr not_there ↦ rw not_there left
    ]

-- `deleteAllGroups` leaves a well formed session.
pub delete_all_groups-IsWellFormed : (s : Session) → IsWellFormed (delete_all_groups s).session
unfolding delete_all_groups
delete_all_groups-IsWellFormed s =
    elim (Bool-cases (is_nil (map (λ (g : Group). g.name) s.groups))) [
      | inl nothing ↦ rw nothing tt
      | inr names ↦ rw names tt
    ]

module _ (group : Bytes) (s : Session) (well : IsWellFormed s) where
  -- `SubmitReview` leaves a well formed session well formed.
  pub submit_review-IsWellFormed :
      (now : ℕ) (note : Bytes) (verdict : Verdict)
      → IsWellFormed (submit_review now group note verdict s).session
  unfolding submit_review
  submit_review-IsWellFormed now note verdict = elim (Option-cases (find_group group s.groups)) [
    | inl not_there ↦ rw (not_there, IsWellFormed, submit_review) well
    | inr (g, there) ↦
        rw (there, IsWellFormed, submit_review)
          (All-alter_any _ group (submit now note verdict) s.groups (λ g t. t) well)
  ]
