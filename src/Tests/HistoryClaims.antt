-- ===== src/Tests/HistoryClaims.antt =====
-- What is proved of histories, at one in which the disk fails and works again.
use sbnn.Prelude.{Bool, Bytes, [], false, none, refl, some, true, ◌∷◌, ◌≡◌, ◌⊎◌}
use sbnn.Session.Comments.{add_comment}
use sbnn.Session.Log.{apply, blank, op_del_all}
use sbnn.Session.Rounds.{add_diff}
use sbnn.Store.{
  Io, Store, appended, bind_repository, empty_session, is_valid_group, load, new_store, perform,
  persist, recover, torn,
}
use sbnn.Store.Durable.{new_store-IsTracked}
use sbnn.Store.History.{
  IsSafe, Reach, add_comment_call, add_diff_call, binds, calls, further, no_steps, run_call,
}
use sbnn.Store.History.Reached.{Reach-IsSafe, Reach-load, persist-recovers}
use sbnn.Store.Loads.{AreValid, repository_on}
use sbnn.Tests.CommentClaims.{group, remark, round}
use sbnn.Text.{codes}

abbrev nowhere : Io
nowhere = record { append = torn; write = none }

abbrev works : Io
works = record { append = appended 7; write = some 9 }

abbrev any_url : Bytes → Bool
any_url u = true

abbrev bound_store : Store
bound_store = (bind_repository (some (codes "/src")) (new_store true)).1

abbrev unsaved : Store
unsaved = run_call any_url (nowhere ∷ []) (add_diff_call 5 group round) bound_store

abbrev saved_again : Store
saved_again = run_call any_url (works ∷ []) (add_comment_call 6 remark) unsaved

abbrev history : Reach any_url (new_store true) saved_again
history =
    further
      (further (further no_steps (binds (some (codes "/src")) (new_store true)))
        (calls (nowhere ∷ []) (add_diff_call 5 group round) bound_store))
      (calls (works ∷ []) (add_comment_call 6 remark) unsaved)

saved_again-no_error : saved_again.persist_error ≡ false
unfolding run_call perform add_comment add_diff bind_repository
saved_again-no_error = refl

Reach-IsSafe_example : IsSafe saved_again
Reach-IsSafe_example = Reach-IsSafe any_url history

saved_again-AreValid : AreValid saved_again.session.groups
unfolding run_call perform add_comment add_diff bind_repository is_valid_group
saved_again-AreValid = (refl, tt)

Reach-load_example :
    (load saved_again.disk
      ≡ some (record {
        loaded_session = saved_again.session;
        loaded_repository = repository_on saved_again.disk;
        dropped_some = false;
      }))
    × ((repository_on saved_again.disk ≡ none)
        ⊎ (repository_on saved_again.disk ≡ saved_again.repository))
    × (saved_again.dirty ≡ false → repository_on saved_again.disk ≡ saved_again.repository)
Reach-load_example = Reach-load any_url history saved_again-no_error saved_again-AreValid

-- The repository is on disk again.
bound_on_disk : repository_on saved_again.disk ≡ some (codes "/src")
unfolding run_call perform add_comment add_diff bind_repository
bound_on_disk = refl

persist-recovers_example :
    ((persist works
        (blank op_del_all [])
        (record (new_store true) { session = empty_session })).persist_error
      ≡ false)
    × (recover
          (persist works
            (blank op_del_all [])
            (record (new_store true) { session = empty_session })).disk
        ≡ some empty_session)
persist-recovers_example =
    persist-recovers works (blank op_del_all []) empty_session (new_store true) new_store-IsTracked
      (unfold apply in refl) refl
