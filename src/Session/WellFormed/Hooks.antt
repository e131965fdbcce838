-- ===== src/Session/WellFormed/Hooks.antt =====
-- Proofs about the methods on hooks: well formed sessions.
use mathlib.Core.Path.{subst}
use sbnn.Prelude.{
  All, Bool, Bool-cases, Bytes, List, Option-cases, any, find, inl, inr, keep, length, not, refl,
  sym, ℕ, ◌&&◌, ◌==◌,
}
use sbnn.Review.{Group, Hook}
use sbnn.Session.{
  Session, bump, comment_prefix, count_of, find_group, hook_prefix, next_id, with_group,
}
use sbnn.Session.Hooks.{
  add_hook, alter_hook, alter_hooks, append_hook, delete_hooks, dropped_hook, group_or_new,
  has_hook_id, same_hook, set_hook_run,
}
use sbnn.Session.Threaded.{IsThreaded, IsWellFormed}
use sbnn.Session.WellFormed.{All-alter_any, All-with_group, count_of-bump_other, nothing-IsThreaded}
use sbnn.Text.{is_empty}

with_hook :
    (n : ℕ) (group : Bytes) (h : Hook) (gs : List Group)
    → All (λ g. IsThreaded n g.comments) gs
    → All (λ g. IsThreaded n g.comments) (with_group group (append_hook h) gs)
with_hook n group h gs w =
    All-with_group _ group (append_hook h) gs (nothing-IsThreaded n) (λ g t. t) w

module _ (group : Bytes) (s : Session) (well : IsWellFormed s) where
  hook_added-IsWellFormed :
      (h : Hook)
      → IsWellFormed (record s {
        groups = with_group group (append_hook h) s.groups;
        seq = bump hook_prefix s.seq;
      })
  unfolding sbnn.Text.eq_bytes
  hook_added-IsWellFormed h =
      subst (λ k. All (λ g. IsThreaded k g.comments) (with_group group (append_hook h) s.groups))
        (sym (count_of-bump_other hook_prefix comment_prefix s.seq refl))
        (with_hook _ group h s.groups well)

  -- `AddHook` leaves a well formed session well formed.
  pub add_hook-IsWellFormed :
      (valid_url : Bytes → Bool) (now : ℕ) (h : Hook)
      → IsWellFormed (add_hook valid_url now group h s).session
  unfolding add_hook next_id
  add_hook-IsWellFormed valid_url now h = elim (Bool-cases (is_empty h.command && is_empty h.url)) [
    | inl nothing ↦ rw (nothing, IsWellFormed, add_hook) well
    | inr something ↦ elim (Bool-cases (not (is_empty h.url) && not (valid_url h.url))) [
      | inl invalid ↦ rw (something, invalid, IsWellFormed, add_hook) well
      | inr valid ↦ elim (Option-cases (find (same_hook h) (group_or_new group s.groups).hooks)) [
        | inr (old, there) ↦ rw (something, valid, there, IsWellFormed, add_hook) well
        | inl new ↦
            rw (something, valid, new, IsWellFormed, add_hook)
              (hook_added-IsWellFormed
                (record h { id = (next_id hook_prefix s.seq).0; created_at = now }))
      ]
    ]
  ]

  -- What a run of a hook leaves behind keeps a well formed session well formed.
  pub set_hook_run-IsWellFormed :
      (id : Bytes) (f : Hook → Hook) → IsWellFormed (set_hook_run group id f s).session
  unfolding set_hook_run
  set_hook_run-IsWellFormed id f = elim (Option-cases (find_group group s.groups)) [
    | inl not_there ↦ rw (not_there, IsWellFormed, set_hook_run) well
    | inr (g, there) ↦ elim (Bool-cases (any (has_hook_id id) g.hooks)) [
      | inr no_hook ↦ rw (there, no_hook, IsWellFormed, set_hook_run) well
      | inl hook ↦
          rw (there, hook, IsWellFormed, set_hook_run)
            (All-alter_any _ group (alter_hooks (alter_hook id f)) s.groups (λ g t. t) well)
    ]
  ]

  -- `DeleteHooks` leaves a well formed session well formed.
  pub delete_hooks-IsWellFormed : (id : Bytes) → IsWellFormed (delete_hooks group id s).session
  unfolding delete_hooks
  delete_hooks-IsWellFormed id = elim (Option-cases (find_group group s.groups)) [
    | inl not_there ↦ rw (not_there, IsWellFormed, delete_hooks) well
    | inr (g, there) ↦
        let left =
          All-alter_any (λ g. IsThreaded (count_of comment_prefix s.seq) g.comments) group
            (alter_hooks (keep (λ h. not (dropped_hook id h)))) s.groups (λ g t. t) well in
        elim (Bool-cases (length (keep (dropped_hook id) g.hooks) == 0)) [
          | inl nothing ↦ rw (there, nothing, IsWellFormed, delete_hooks) left
          | inr some_gone ↦ rw (there, some_gone, IsWellFormed, delete_hooks) left
        ]
  ]
