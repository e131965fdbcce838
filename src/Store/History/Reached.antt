-- ===== src/Store/History/Reached.antt =====
-- Proofs about every store that a history leads to.
use sbnn.Prelude.{
  Bool, Bytes, List, Option, Option-cases, ap, arith, false, inl, inr, none, not, refl, some, true,
  ℕ, ◌∙◌, ◌≡◌, ◌⊎◌,
}
use sbnn.Session.{Session}
use sbnn.Session.Log.{LogRecord, apply}
use sbnn.Session.Saves.{stamp}
use sbnn.Store.{
  Io, Store, bind_repository, load, needs_snapshot, new_store, persist, recover, save,
  write_snapshot,
}
use sbnn.Store.Durable.{
  IsTracked, new_store-IsTracked, persist-IsTracked, persist-active, persist-session,
}
use sbnn.Store.History.{
  Call, IsSafe, Reach, add_comment_call, add_diff_call, add_hook_call, binds, calls,
  clear_comments_call, delete_all_groups_call, delete_comment_call, delete_diff_call,
  delete_group_call, delete_hooks_call, further, hook_command_run_call, hook_post_run_call,
  no_steps, prune_call, run_call, run_call-IsSafe, submit_review_call, update_comment_call,
}
use sbnn.Store.Loads.{
  AreValid, KeepsRepository, bind_repository-KeepsRepository, load-recover, perform-KeepsRepository,
  repository_on,
}

bind_repository-IsSafe :
    (repo : Option Bytes) (st : Store) → IsSafe st → IsSafe (bind_repository repo st).1
unfolding bind_repository needs_snapshot
bind_repository-IsSafe none st k = k
bind_repository-IsSafe (some repo) st k = elim (Option-cases st.repository) [
  | inr (other, taken) ↦ rw (taken, bind_repository) k
  | inl untaken ↦
      rw (untaken, bind_repository)
        (record {
          tracked = record {
            persists = k.tracked.persists;
            appendable = λ fits. cc;
            reported = k.tracked.reported;
          };
          well = k.well;
          names = k.names;
        })
]

new_store-IsSafe : IsSafe (new_store true)
new_store-IsSafe = record {
  tracked = new_store-IsTracked;
  well = tt;
  names = record { distinct = tt; counted = tt };
}

module _ (valid_url : Bytes → Bool) where
  -- Behind every history of calls and of bindings to a repository, on a store that starts new with a
  -- path, whatever the disk answers to each write: the file recovers to the session where the next
  -- change would be appended to it and where `PersistError` is nil, the comments of every group are
  -- well threaded under distinct ids, no two groups share a name, and rounds are only counted for
  -- groups that are there.
  pub Reach-IsSafe : {st : Store} → Reach valid_url (new_store true) st → IsSafe st
  Reach-IsSafe no_steps = new_store-IsSafe
  Reach-IsSafe (further r (calls ios c st)) = run_call-IsSafe valid_url ios c st (Reach-IsSafe r)
  Reach-IsSafe (further r (binds repo st)) = bind_repository-IsSafe repo st (Reach-IsSafe r)

  run_call-KeepsRepository :
      (ios : List Io) (c : Call) (st : Store)
      → KeepsRepository st
      → KeepsRepository (run_call valid_url ios c st)
  unfolding run_call
  run_call-KeepsRepository ios (add_diff_call now group d) st = perform-KeepsRepository ios _ st
  run_call-KeepsRepository ios (delete_diff_call group id) st = perform-KeepsRepository ios _ st
  run_call-KeepsRepository ios (delete_group_call name) st = perform-KeepsRepository ios _ st
  run_call-KeepsRepository ios delete_all_groups_call st = perform-KeepsRepository ios _ st
  run_call-KeepsRepository ios (prune_call req) st = perform-KeepsRepository ios _ st
  run_call-KeepsRepository ios (submit_review_call now group note verdict) st =
      perform-KeepsRepository ios _ st
  run_call-KeepsRepository ios (add_hook_call now group h) st = perform-KeepsRepository ios _ st
  run_call-KeepsRepository ios (hook_command_run_call group id r) st =
      perform-KeepsRepository ios _ st
  run_call-KeepsRepository ios (hook_post_run_call group id r) st = perform-KeepsRepository ios _ st
  run_call-KeepsRepository ios (delete_hooks_call group id) st = perform-KeepsRepository ios _ st
  run_call-KeepsRepository ios (add_comment_call now c) st = perform-KeepsRepository ios _ st
  run_call-KeepsRepository ios (update_comment_call now group id patch) st =
      perform-KeepsRepository ios _ st
  run_call-KeepsRepository ios (delete_comment_call group id) st = perform-KeepsRepository ios _ st
  run_call-KeepsRepository ios (clear_comments_call group resolved_only) st =
      perform-KeepsRepository ios _ st

  Reach-KeepsRepository : {st : Store} → Reach valid_url (new_store true) st → KeepsRepository st
  Reach-KeepsRepository no_steps = record { named_or_none = inl refl; named = λ h. refl }
  Reach-KeepsRepository (further r (calls ios c st)) =
      run_call-KeepsRepository ios c st (Reach-KeepsRepository r)
  Reach-KeepsRepository (further r (binds repo st)) =
      bind_repository-KeepsRepository repo st (Reach-KeepsRepository r)

  -- Behind every history of calls and of bindings to a repository, on a store that starts new with a
  -- path, whatever the disk answers to each write: where `PersistError` is nil, and `ValidateGroupName`
  -- accepts the name of every group, `Load`, as it reads a file that holds both maps of counters,
  -- makes of the file on disk exactly the session in memory, and drops no group. It restores the
  -- repository the store is bound to, or none at all; where the store is not dirty, it restores the one
  -- the store is bound to.
  pub Reach-load :
      {st : Store}
      → Reach valid_url (new_store true) st
      → st.persist_error ≡ false
      → AreValid st.session.groups
      → (load st.disk
          ≡ some (record {
            loaded_session = st.session;
            loaded_repository = repository_on st.disk;
            dropped_some = false;
          }))
        × ((repository_on st.disk ≡ none) ⊎ (repository_on st.disk ≡ st.repository))
        × (st.dirty ≡ false → repository_on st.disk ≡ st.repository)
  Reach-load {st} r ok valid =
      let kept = Reach-KeepsRepository r in
      (
        load-recover st.disk st.session ((Reach-IsSafe r).tracked.reported ok) valid,
        kept.named_or_none,
        kept.named,
      )

-- A disk that works again ends an error.
save-heals :
    (io : Io) (rec : LogRecord) (st : Store) {n : ℕ} → io.write ≡ some n → (save io rec st).0 ≡ true
unfolding save write_snapshot
save-heals io rec st works = rw works (ground arith)

-- On a store as `perform` leaves it, where the record leads from the session that was persisted to the
-- one to be persisted: once the disk takes a snapshot again, the next call of `persist` clears
-- `PersistError`, whatever was wrong with the file, and the file recovers to exactly the session that
-- is persisted.
pub persist-recovers :
    (io : Io) (rec : LogRecord) (s : Session) (st : Store) {n : ℕ}
    → IsTracked st
    → apply (stamp s rec) st.session ≡ some s
    → io.write ≡ some n
    → ((persist io rec (record st { session = s })).persist_error ≡ false)
      × (recover (persist io rec (record st { session = s })).disk ≡ some s)
persist-recovers io rec s st t leads works =
    let healed : (persist io rec (record st { session = s })).persist_error ≡ false =
      ap (λ (u : Store). u.persist_error)
        (persist-active io rec (record st { session = s }) t.persists)
      ∙ ap not (save-heals io rec (record st { session = s }) works) in
    (
      healed,
      (persist-IsTracked io rec s st t leads).reported healed
          ∙ ap some (persist-session io rec (record st { session = s })),
    )
