-- ===== src/Store/History.antt =====
-- Histories of a store: its methods called one after another, each write answered by the disk in any
-- way.
pub mod Reached
use sbnn.Diff.Parser.{run}
use sbnn.Prelude.{Bool, Bytes, List, Option, some, ℕ}
use sbnn.Review.{Comment, Diff, Hook, HookRun, Verdict}
use sbnn.Session.{Session}
use sbnn.Session.Comments.{
  CommentPatch, add_comment, clear_comments, delete_comment, update_comment,
}
use sbnn.Session.Hooks.{
  add_hook, delete_hooks, record_hook_command_run, record_hook_post_run, set_hook_run,
}
use sbnn.Session.Names.{HasNames, SameNames-HasNames}
use sbnn.Session.Names.Kept.{
  add_comment-SameNames, clear_comments-SameNames, delete_comment-SameNames, delete_diff-SameNames,
  delete_hooks-SameNames, set_hook_run-SameNames, submit_review-SameNames, update_comment-SameNames,
}
use sbnn.Session.Names.Methods.{
  add_diff-HasNames, add_hook-HasNames, delete_all_groups-HasNames, delete_group-HasNames,
  no_groups-no_rounds, prune-HasNames,
}
use sbnn.Session.Prune.{PruneRequest, prune}
use sbnn.Session.Replay.Groups.{
  add_diff-Logged, add_hook-Logged, delete_all_groups-Logged, delete_diff-Logged,
  delete_group-Logged, delete_hooks-Logged, set_hook_run-Logged, submit_review-Logged,
}
use sbnn.Session.Replay.Methods.{add_comment-Logged, clear_comments-Logged, delete_comment-Logged}
use sbnn.Session.Replay.Prune.{prune-IsWellFormed, prune-Logged}
use sbnn.Session.Replay.Update.{update_comment-Logged}
use sbnn.Session.Rounds.{add_diff, delete_all_groups, delete_diff, delete_group, submit_review}
use sbnn.Session.Saves.{Edit, Logged}
use sbnn.Session.Threaded.{IsWellFormed}
use sbnn.Session.WellFormed.{
  add_diff-IsWellFormed, delete_all_groups-IsWellFormed, delete_diff-IsWellFormed,
  delete_group-IsWellFormed, submit_review-IsWellFormed,
}
use sbnn.Session.WellFormed.Comments.{
  add_comment-IsWellFormed, clear_comments-IsWellFormed, delete_comment-IsWellFormed,
}
use sbnn.Session.WellFormed.Hooks.{
  add_hook-IsWellFormed, delete_hooks-IsWellFormed, set_hook_run-IsWellFormed,
}
use sbnn.Session.WellFormed.Update.{update_comment-IsWellFormed}
use sbnn.Store.{Io, Store, bind_repository, perform}
use sbnn.Store.Durable.{IsTracked, perform-IsTracked}

-- A call of one of the methods that change a store.
pub data Call : Type 0 where
  add_diff_call : ℕ → Bytes → Diff → Call
  delete_diff_call : Bytes → Bytes → Call
  delete_group_call : Bytes → Call
  delete_all_groups_call : Call
  prune_call : PruneRequest → Call
  submit_review_call : ℕ → Bytes → Bytes → Verdict → Call
  add_hook_call : ℕ → Bytes → Hook → Call
  hook_command_run_call : Bytes → Bytes → HookRun → Call
  hook_post_run_call : Bytes → Bytes → HookRun → Call
  delete_hooks_call : Bytes → Bytes → Call
  add_comment_call : ℕ → Comment → Call
  update_comment_call : ℕ → Bytes → Bytes → CommentPatch → Call
  delete_comment_call : Bytes → Bytes → Call
  clear_comments_call : Bytes → Bool → Call

module _ (valid_url : Bytes → Bool) where
  -- The store behind a call, given the answers of the disk.
  unfoldable pub run_call : List Io → Call → Store → Store
  run_call ios (add_diff_call now group d) st = (perform ios (add_diff now group d) st).1
  run_call ios (delete_diff_call group id) st = (perform ios (delete_diff group id) st).1
  run_call ios (delete_group_call name) st = (perform ios (delete_group name) st).1
  run_call ios delete_all_groups_call st = (perform ios delete_all_groups st).1
  run_call ios (prune_call req) st = (perform ios (prune req) st).1
  run_call ios (submit_review_call now group note verdict) st =
      (perform ios (submit_review now group note verdict) st).1
  run_call ios (add_hook_call now group h) st = (perform ios (add_hook valid_url now group h) st).1
  run_call ios (hook_command_run_call group id run) st =
      (perform ios (record_hook_command_run group id run) st).1
  run_call ios (hook_post_run_call group id run) st =
      (perform ios (record_hook_post_run group id run) st).1
  run_call ios (delete_hooks_call group id) st = (perform ios (delete_hooks group id) st).1
  run_call ios (add_comment_call now c) st = (perform ios (add_comment now c) st).1
  run_call ios (update_comment_call now group id patch) st =
      (perform ios (update_comment now group id patch) st).1
  run_call ios (delete_comment_call group id) st = (perform ios (delete_comment group id) st).1
  run_call ios (clear_comments_call group resolved_only) st =
      (perform ios (clear_comments group resolved_only) st).1

  -- One step: a call, with whatever the disk answers, or the binding to a repository.
  pub data Step : Store → Store → Type 0 where
    calls : (ios : List Io) (c : Call) (st : Store) → Step st (run_call ios c st)
    binds : (repo : Option Bytes) (st : Store) → Step st (bind_repository repo st).1

  pub data Reach (st : Store) : Store → Type 0 where
    no_steps : Reach st st
    further : {t u : Store} → Reach st t → Step t u → Reach st u

-- What holds of a store between two calls.
pub record IsSafe (st : Store) : Type 0 where
  pub tracked : IsTracked st
  pub well : IsWellFormed st.session
  pub names : HasNames st.session

perform-IsSafe {ℓ} :
    {A : Type ℓ} (ios : List Io) (method : Session → Edit A) (st : Store)
    → IsSafe st
    → Logged st.session (method st.session).saves (method st.session).session
    → IsWellFormed (method st.session).session
    → HasNames (method st.session).session
    → IsSafe (perform ios method st).1
unfolding perform
perform-IsSafe ios method st safe logged well names = record {
  tracked = unfold perform in perform-IsTracked ios method st safe.tracked logged;
  well = well;
  names = names;
}

module _ (valid_url : Bytes → Bool) where
  pub run_call-IsSafe :
      (ios : List Io) (c : Call) (st : Store) → IsSafe st → IsSafe (run_call valid_url ios c st)
  unfolding run_call record_hook_command_run record_hook_post_run
  run_call-IsSafe ios (add_diff_call now group d) st k =
      perform-IsSafe ios (add_diff now group d) st k (add_diff-Logged now group d st.session)
        (add_diff-IsWellFormed now group d st.session k.well)
        (add_diff-HasNames now group d st.session k.names)
  run_call-IsSafe ios (delete_diff_call group id) st k =
      perform-IsSafe ios (delete_diff group id) st k (delete_diff-Logged group id st.session)
        (delete_diff-IsWellFormed group id st.session k.well)
        (SameNames-HasNames (delete_diff-SameNames group st.session id) k.names)
  run_call-IsSafe ios (delete_group_call name) st k =
      perform-IsSafe ios (delete_group name) st k (delete_group-Logged name st.session)
        (delete_group-IsWellFormed name st.session k.well)
        (delete_group-HasNames name st.session k.names)
  run_call-IsSafe ios delete_all_groups_call st k =
      perform-IsSafe ios delete_all_groups st k
        (delete_all_groups-Logged st.session (no_groups-no_rounds st.session k.names))
        (delete_all_groups-IsWellFormed st.session) (delete_all_groups-HasNames st.session)
  run_call-IsSafe ios (prune_call req) st k =
      perform-IsSafe ios (prune req) st k (prune-Logged req st.session)
        (prune-IsWellFormed req st.session k.well) (prune-HasNames req st.session k.names)
  run_call-IsSafe ios (submit_review_call now group note verdict) st k =
      perform-IsSafe ios (submit_review now group note verdict) st k
        (submit_review-Logged group now note verdict st.session)
        (submit_review-IsWellFormed group st.session k.well now note verdict)
        (SameNames-HasNames (submit_review-SameNames group st.session now note verdict) k.names)
  run_call-IsSafe ios (add_hook_call now group h) st k =
      perform-IsSafe ios (add_hook valid_url now group h) st k
        (add_hook-Logged group valid_url now h st.session)
        (add_hook-IsWellFormed group st.session k.well valid_url now h)
        (add_hook-HasNames valid_url now group h st.session k.names)
  run_call-IsSafe ios (hook_command_run_call group id run) st k =
      let f = λ (h : Hook). record h { last_command_run = some run } in
      perform-IsSafe ios (set_hook_run group id f) st k (set_hook_run-Logged group id f st.session)
        (set_hook_run-IsWellFormed group st.session k.well id f)
        (SameNames-HasNames (set_hook_run-SameNames group st.session id f) k.names)
  run_call-IsSafe ios (hook_post_run_call group id run) st k =
      let f = λ (h : Hook). record h { last_post = some run } in
      perform-IsSafe ios (set_hook_run group id f) st k (set_hook_run-Logged group id f st.session)
        (set_hook_run-IsWellFormed group st.session k.well id f)
        (SameNames-HasNames (set_hook_run-SameNames group st.session id f) k.names)
  run_call-IsSafe ios (delete_hooks_call group id) st k =
      perform-IsSafe ios (delete_hooks group id) st k (delete_hooks-Logged group id st.session)
        (delete_hooks-IsWellFormed group st.session k.well id)
        (SameNames-HasNames (delete_hooks-SameNames group st.session id) k.names)
  run_call-IsSafe ios (add_comment_call now c) st k =
      perform-IsSafe ios (add_comment now c) st k (add_comment-Logged now c st.session k.well)
        (add_comment-IsWellFormed now c st.session k.well)
        (SameNames-HasNames (add_comment-SameNames now c st.session) k.names)
  run_call-IsSafe ios (update_comment_call now group id patch) st k =
      perform-IsSafe ios (update_comment now group id patch) st k
        (update_comment-Logged now group id patch st.session k.well)
        (update_comment-IsWellFormed now group id patch st.session k.well)
        (SameNames-HasNames (update_comment-SameNames now group id patch st.session) k.names)
  run_call-IsSafe ios (delete_comment_call group id) st k =
      perform-IsSafe ios (delete_comment group id) st k
        (delete_comment-Logged group id st.session k.well)
        (delete_comment-IsWellFormed group id st.session k.well)
        (SameNames-HasNames (delete_comment-SameNames group st.session id) k.names)
  run_call-IsSafe ios (clear_comments_call group resolved_only) st k =
      perform-IsSafe ios (clear_comments group resolved_only) st k
        (clear_comments-Logged group resolved_only st.session k.well)
        (clear_comments-IsWellFormed group resolved_only st.session k.well)
        (SameNames-HasNames (clear_comments-SameNames group st.session resolved_only) k.names)
