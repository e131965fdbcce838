-- ===== src/Review/Activity.antt =====
-- internal/model/model.go: `LastActivity` and `Reviewed`.
use sbnn.Prelude.{
  Bool, List, Option, [], any, false, if◌then◌else◌, ltb, none, not, some, ℕ, ◌==◌, ◌∷◌,
}
use sbnn.Review.{Comment, Diff, Group, Hook, HookRun}

-- `see`: the later of two times.
abbrev pub see : ℕ → ℕ → ℕ
see last t = if ltb last t then t else last

abbrev pub see_run : ℕ → Option HookRun → ℕ
see_run last none = last
see_run last (some r) = see last r.at

abbrev pub see_all {ℓ} : {A : Type ℓ} → (ℕ → A → ℕ) → ℕ → List A → ℕ
see_all one last [] = last
see_all one last (x ∷ xs) = see_all one (one last x) xs

unfoldable pub last_activity : Group → ℕ
last_activity g =
    let reviewed = see 0 g.reviewed_at in
    let rounds = see_all (λ last (d : Diff). see last d.created_at) reviewed g.diffs in
    let talk =
      see_all (λ last (c : Comment). see (see last c.created_at) c.updated_at) rounds g.comments in
    see_all
      (λ last (h : Hook). see_run (see_run (see last h.created_at) h.last_command_run) h.last_post)
      talk g.hooks

unfoldable pub reviewed : Group → Bool
reviewed g =
    if g.reviewed_at == 0
    then false
    else not (any (λ (d : Diff). ltb g.reviewed_at d.created_at) g.diffs)
