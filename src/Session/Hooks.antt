-- ===== src/Session/Hooks.antt =====
-- internal/server/store.go: `AddHook`, `setHookRun`, `RecordHookCommandRun`, `RecordHookPostRun`
-- and `DeleteHooks`.
use sbnn.Prelude.{
  Bool, Bytes, List, [], any, find, if◌then◌else◌, keep, length, none, not, some, ℕ, ◌&&◌, ◌++◌,
  ◌==◌, ◌||◌, ◌∷◌,
}
use sbnn.Review.{Group, Hook, HookRun, new_group}
use sbnn.Session.{Session, alter_group, find_group, hook_prefix, next_id, with_group}
use sbnn.Session.Log.{meta_record}
use sbnn.Session.Saves.{Edit, saved, unchanged}
use sbnn.Text.{eq_bytes, is_empty}

pub data AddHookResult : Type 0 where
  added_hook existing_hook : Hook → AddHookResult
  nothing_to_do invalid_url : AddHookResult

abbrev pub same_hook : Hook → Hook → Bool
same_hook h k = eq_bytes k.command h.command && eq_bytes k.url h.url

abbrev pub append_hook : Hook → Group → Group
append_hook h g = record g { hooks = g.hooks ++ h ∷ [] }

-- The group that `group(name, true)` returns.
abbrev pub group_or_new : Bytes → List Group → Group
group_or_new name gs = elim (find_group name gs) [ none ↦ new_group name | some g ↦ g ]

-- The rule `validateHookURL` for the address of a hook is an argument.
unfoldable pub add_hook : (Bytes → Bool) → ℕ → Bytes → Hook → Session → Edit AddHookResult
unfolding find_group with_group next_id meta_record eq_bytes
add_hook valid_url now group h s =
    if is_empty h.command && is_empty h.url
    then unchanged nothing_to_do s
    else if not (is_empty h.url) && not (valid_url h.url)
    then unchanged invalid_url s
    else elim (find (same_hook h) (group_or_new group s.groups).hooks) [
      | some old ↦ unchanged (existing_hook old) s
      | none ↦
          let (id, seq) = next_id hook_prefix s.seq in
          let h' = record h { id = id; created_at = now } in
          saved (added_hook h') (meta_record (append_hook h' (group_or_new group s.groups)))
            (record s { groups = with_group group (append_hook h') s.groups; seq = seq })
    ]

abbrev pub has_hook_id : Bytes → Hook → Bool
has_hook_id id h = eq_bytes h.id id

-- The first hook with this id is changed.
unfoldable pub alter_hook : Bytes → (Hook → Hook) → List Hook → List Hook
unfolding eq_bytes
alter_hook id f [] = []
alter_hook id f (h ∷ hs) = if has_hook_id id h then f h ∷ hs else h ∷ alter_hook id f hs

abbrev pub alter_hooks : (List Hook → List Hook) → Group → Group
alter_hooks f g = record g { hooks = f g.hooks }

unfoldable pub set_hook_run : Bytes → Bytes → (Hook → Hook) → Session → Edit (Unit {0})
unfolding find_group alter_group alter_hook meta_record eq_bytes
set_hook_run group id f s = elim (find_group group s.groups) [
  | none ↦ unchanged tt s
  | some g ↦
      if any (has_hook_id id) g.hooks
      then saved tt (meta_record (alter_hooks (alter_hook id f) g))
          (record s { groups = alter_group group (alter_hooks (alter_hook id f)) s.groups })
      else unchanged tt s
]

unfoldable pub record_hook_command_run : Bytes → Bytes → HookRun → Session → Edit (Unit {0})
unfolding set_hook_run
record_hook_command_run group id run =
    set_hook_run group id (λ h. record h { last_command_run = some run })

unfoldable pub record_hook_post_run : Bytes → Bytes → HookRun → Session → Edit (Unit {0})
unfolding set_hook_run
record_hook_post_run group id run = set_hook_run group id (λ h. record h { last_post = some run })

-- Is the hook one that `DeleteHooks` is asked to drop?
abbrev pub dropped_hook : Bytes → Hook → Bool
dropped_hook id h = is_empty id || eq_bytes h.id id

unfoldable pub delete_hooks : Bytes → Bytes → Session → Edit ℕ
unfolding find_group alter_group meta_record eq_bytes
delete_hooks group id s = elim (find_group group s.groups) [
  | none ↦ unchanged 0 s
  | some g ↦
      let removed = length (keep (dropped_hook id) g.hooks) in
      let rest = keep (λ h. not (dropped_hook id h)) in
      let s' = record s { groups = alter_group group (alter_hooks rest) s.groups } in
      if removed == 0 then unchanged 0 s' else saved removed (meta_record (alter_hooks rest g)) s'
]
