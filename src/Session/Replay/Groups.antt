-- ===== src/Session/Replay/Groups.antt =====
-- Proofs about the methods on rounds, groups, reviews and hooks: their records and the replay.
use mathlib.Core.Path.{fun_ext}
use sbnn.Prelude.{
  ==_iff, Bool, Bool-cases, Bytes, List, Option, Option-cases, [], any, ap, arith, false, inl, inr,
  keep, length, not, refl, some, sym, true, ℕ, ◌==◌, ◌||◌, ◌∙◌, ◌∷◌, ◌≡◌,
}
use sbnn.Review.{Diff, Group, Hook, Verdict}
use sbnn.Session.{
  Counters, Session, alter_group, find_group, has_name, hook_prefix, next_id, with_group,
}
use sbnn.Session.Hooks.{
  add_hook, alter_hook, alter_hooks, append_hook, delete_hooks, dropped_hook, group_or_new,
  has_hook_id, set_hook_run,
}
use sbnn.Session.Log.{apply, drop_diffs, meta_record, take_meta}
use sbnn.Session.Rounds.{
  add_diff, delete_all_groups, delete_diff, delete_group, holds_diff, submit, submit_review,
  without_diff,
}
use sbnn.Session.Saves.{Logged, stamp}
use sbnn.Text.{eq_bytes_iff}

or_false : (b : Bool) → (b || false) ≡ b
or_false true = refl
or_false false = refl

module _ (group : Bytes) where
  -- What is done to the group that is there is done to it on replay, made or not.
  alter_group-with_group :
      (f h : Group → Group) (gs : List Group) {g : Group}
      → find_group group gs ≡ some g
      → f g ≡ h g
      → with_group group f gs ≡ alter_group group h gs
  unfolding find_group with_group alter_group
  alter_group-with_group f h [] e same = cc
  alter_group-with_group f h (x ∷ gs) {g} e same =
      ground (arith, alter_group-with_group f h gs {g = g})

  alter_group-eq_self :
      (f : Group → Group) (gs : List Group) {g : Group}
      → find_group group gs ≡ some g
      → f g ≡ g
      → alter_group group f gs ≡ gs
  unfolding find_group alter_group
  alter_group-eq_self f [] e same = cc
  alter_group-eq_self f (x ∷ gs) {g} e same = ground (arith, alter_group-eq_self f gs {g = g})

  with_group-eq :
      (f h : Group → Group) (gs : List Group)
      → f (group_or_new group gs) ≡ h (group_or_new group gs)
      → with_group group f gs ≡ with_group group h gs
  unfolding find_group with_group
  with_group-eq f h [] same = ap (λ (g : Group). g ∷ []) same
  with_group-eq f h (x ∷ gs) same = ground (arith, with_group-eq f h gs)

  find_group-name : (gs : List Group) {g : Group} → find_group group gs ≡ some g → g.name ≡ group
  unfolding find_group
  find_group-name [] e = cc
  find_group-name (x ∷ gs) {g} e =
      ground (arith, find_group-name gs {g = g}, eq_bytes_iff x.name group)

keep-all {ℓ} :
    {A : Type ℓ} (p : A → Bool) (xs : List A)
    → length (keep p xs) ≡ 0
    → keep (λ x. not (p x)) xs ≡ xs
keep-all p [] h = refl
keep-all p (x ∷ xs) h = ground (arith, keep-all p xs)

pub keep-none {ℓ} :
    {A : Type ℓ} (p : A → Bool) (xs : List A) → any p xs ≡ false → keep (λ x. not (p x)) xs ≡ xs
keep-none p [] h = refl
keep-none p (x ∷ xs) h = ground (arith, keep-none p xs)

-- For every round and session, `AddDiff` persists records that replay from the session of before to
-- exactly the session of after, the new group, ids, counters and titles included.
pub add_diff-Logged :
    (now : ℕ) (group : Bytes) (d : Diff) (s : Session)
    → Logged s (add_diff now group d s).saves (add_diff now group d s).session
unfolding add_diff apply
add_diff-Logged now group d s = (refl, refl)

drop_diffs-without_diff : (id : Bytes) → drop_diffs (id ∷ []) ≡ without_diff id
drop_diffs-without_diff id = fun_ext λ g. simp or_false

-- For every group, id and session, the records of `DeleteDiff` replay to exactly the session of
-- after; where it persists none, the session has not changed.
pub delete_diff-Logged :
    (group id : Bytes) (s : Session)
    → Logged s (delete_diff group id s).saves (delete_diff group id s).session
unfolding delete_diff apply
delete_diff-Logged group id s = elim (Bool-cases (holds_diff id (find_group group s.groups))) [
  | inl there ↦ rw there (rw (drop_diffs-without_diff id) refl, refl)
  | inr not_there ↦ rw not_there refl
]

-- For every name and session, the records of `DeleteGroup` replay to exactly the session of after,
-- the counters of its rounds included; where it persists none, the session has not changed.
pub delete_group-Logged :
    (name : Bytes) (s : Session)
    → Logged s (delete_group name s).saves (delete_group name s).session
unfolding delete_group apply
delete_group-Logged name s = elim (Bool-cases (any (has_name name) s.groups)) [
  | inl there ↦ rw there (refl, refl)
  | inr not_there ↦ rw not_there (rw (keep-none (has_name name) s.groups not_there))
]

-- In a session that counts no rounds when it has no groups, the records of `deleteAllGroups` replay
-- to exactly the session of after; where it persists none, the session has not changed.
pub delete_all_groups-Logged :
    (s : Session)
    → (s.groups ≡ [] → s.rounds ≡ [])
    → Logged s (delete_all_groups s).saves (delete_all_groups s).session
unfolding delete_all_groups apply
delete_all_groups-Logged s none_left = delete_all (s.groups) s.seq s.rounds none_left
  where
    delete_all :
        (gs : List Group) (seq rounds : Counters)
        → (gs ≡ [] → rounds ≡ [])
        → let s : Session = record { groups = gs; seq = seq; rounds = rounds } in
          Logged s (delete_all_groups s).saves (delete_all_groups s).session
    delete_all [] seq rounds h = rw (h refl)
    delete_all (g ∷ gs) seq rounds h = (refl, refl)

abbrev pub with_groups : List Group → Session → Option Session
with_groups gs s = some (record s { groups = gs })

module _ (group : Bytes) where
  -- A record of what a group says about its review, where that group is found.
  meta-Logged :
      (f : Group → Group) (s : Session) {g : Group}
      → find_group group s.groups ≡ some g
      → (f g).name ≡ g.name
      → take_meta (f g) g ≡ f g
      → Logged s
          ((record s { groups = alter_group group f s.groups }, meta_record (f g)) ∷ [])
          (record s { groups = alter_group group f s.groups })
  unfolding apply meta_record
  meta-Logged f s {g} there named same = (
    ap (λ (gs : List Group). with_groups gs s)
        (rw (named ∙ find_group-name group s.groups there)
          (alter_group-with_group group (take_meta (f g)) f s.groups there same)),
    refl,
  )

  -- For every verdict and note, the records of `SubmitReview` replay to exactly the session of after;
  -- where it persists none, the session has not changed.
  pub submit_review-Logged :
      (now : ℕ) (note : Bytes) (verdict : Verdict) (s : Session)
      → Logged s
          (submit_review now group note verdict s).saves
          (submit_review now group note verdict s).session
  unfolding submit_review
  submit_review-Logged now note verdict s = elim (Option-cases (find_group group s.groups)) [
    | inl not_there ↦ rw (not_there, Logged, submit_review) refl
    | inr (g, there) ↦
        rw (there, Logged, submit_review) (meta-Logged (submit now note verdict) s there refl refl)
  ]

  -- Whatever a run changes in the hook of an id, the records of it replay to exactly the session of
  -- after; where none is persisted, the session has not changed.
  pub set_hook_run-Logged :
      (id : Bytes) (f : Hook → Hook) (s : Session)
      → Logged s (set_hook_run group id f s).saves (set_hook_run group id f s).session
  unfolding set_hook_run
  set_hook_run-Logged id f s = elim (Option-cases (find_group group s.groups)) [
    | inl not_there ↦ rw (not_there, Logged, set_hook_run) refl
    | inr (g, there) ↦ elim (Bool-cases (any (has_hook_id id) g.hooks)) [
      | inl hook ↦
          rw (there, hook, Logged, set_hook_run)
            (meta-Logged (alter_hooks (alter_hook id f)) s there refl refl)
      | inr no_hook ↦ rw (there, no_hook, Logged, set_hook_run) refl
    ]
  ]

  group_or_new-name : (gs : List Group) → (group_or_new group gs).name ≡ group
  group_or_new-name gs = elim (Option-cases (find_group group gs)) [
    | inl not_there ↦ rw (not_there, group_or_new) refl
    | inr (g, there) ↦ rw (there, group_or_new) (find_group-name group gs there)
  ]

  add_hook-replays :
      (h : Hook) (s : Session) (seq : Counters)
      → apply
          (stamp
            (record s { groups = with_group group (append_hook h) s.groups; seq = seq })
            (meta_record (append_hook h (group_or_new group s.groups))))
          s
        ≡ some (record s { groups = with_group group (append_hook h) s.groups; seq = seq })
  unfolding apply meta_record
  add_hook-replays h s seq =
      ap (λ (gs : List Group). with_groups gs (record s { seq = seq }))
        (rw (group_or_new-name s.groups) (
          with_group-eq group (take_meta (append_hook h (group_or_new group s.groups)))
            (append_hook h) s.groups refl))

  -- Whatever rule the address of the hook is checked by, the records of `AddHook` replay to exactly
  -- the session of after; where it persists none, the session has not changed.
  pub add_hook-Logged :
      (valid_url : Bytes → Bool) (now : ℕ) (h : Hook) (s : Session)
      → Logged s (add_hook valid_url now group h s).saves (add_hook valid_url now group h s).session
  unfolding add_hook
  add_hook-Logged valid_url now h s =
      let (id, seq) = next_id hook_prefix s.seq in
      ground (arith, add_hook-replays (record h { id = id; created_at = now }) s seq)

  -- For every id, the empty one included, the records of `DeleteHooks` replay to exactly the session
  -- of after; where it persists none, the session has not changed.
  pub delete_hooks-Logged :
      (id : Bytes) (s : Session)
      → Logged s (delete_hooks group id s).saves (delete_hooks group id s).session
  unfolding delete_hooks
  delete_hooks-Logged id s = elim (Option-cases (find_group group s.groups)) [
    | inl not_there ↦ rw (not_there, Logged, delete_hooks) refl
    | inr (g, there) ↦ elim (Bool-cases (length (keep (dropped_hook id) g.hooks) == 0)) [
      | inl nothing ↦
          rw (there, nothing, Logged, delete_hooks)
            (ap (λ (gs : List Group). record s { groups = gs })
              (sym (
                alter_group-eq_self group (alter_hooks (keep (λ h. not (dropped_hook id h))))
                  s.groups there
                  (ap (λ (hs : List Hook). record g { hooks = hs })
                    (keep-all (dropped_hook id) g.hooks ((==_iff _ 0).0 nothing))))))
      | inr some_dropped ↦
          rw (there, some_dropped, Logged, delete_hooks)
            (meta-Logged (alter_hooks (keep (λ h. not (dropped_hook id h)))) s there refl refl)
    ]
  ]
