-- ===== src/Session/Rounds.antt =====
-- internal/server/store.go: `AddDiff`, `DeleteDiff`, `DeleteGroup`, `deleteAllGroups` and
-- `SubmitReview`.
use sbnn.Prelude.{
  Bool, Bytes, List, Option, [], any, false, if◌then◌else◌, is_nil, keep, map, none, not, some,
  true, ℕ, ◌++◌, ◌==◌, ◌∷◌,
}
use sbnn.Review.{Comment, Diff, Group, Verdict}
use sbnn.Session.{
  Session, alter_group, diff_prefix, find_group, forget, has_name, next_id, next_round, with_group,
}
use sbnn.Session.Log.{
  append_diff, blank, meta_record, op_del_all, op_del_diff, op_del_group, op_diff,
}
use sbnn.Session.Saves.{Edit, saved, unchanged}
use sbnn.Session.Titles.{clean_title}
use sbnn.Text.{codes, eq_bytes, is_empty}
use sbnn.Text.Number.{itoa}

-- The title that a round is given: its own, cleaned, or its number.
unfoldable pub round_title : Bytes → ℕ → Bytes
unfolding clean_title itoa
round_title title round =
    let t = clean_title title in if is_empty t then codes "diff " ++ itoa round else t

unfoldable pub add_diff : ℕ → Bytes → Diff → Session → Edit Diff
unfolding next_id next_round round_title with_group
add_diff now group d s =
    let (id, seq) = next_id diff_prefix s.seq in
    let (round, rounds) = next_round group s.rounds in
    let d' = record d {
      id = id;
      created_at = if d.created_at == 0 then now else d.created_at;
      title = round_title d.title round;
    } in
    saved d' (record (blank op_diff group) { diff = some d' })
      (record { groups = with_group group (append_diff d') s.groups; seq = seq; rounds = rounds })

-- The round with this id and the comments on it are gone.
abbrev pub without_diff : Bytes → Group → Group
without_diff id g = record g {
  diffs = keep (λ (d : Diff). not (eq_bytes d.id id)) g.diffs;
  comments = keep (λ (c : Comment). not (eq_bytes c.diff_id id)) g.comments;
}

abbrev pub holds_diff : Bytes → Option Group → Bool
holds_diff id none = false
holds_diff id (some g) = any (λ (d : Diff). eq_bytes d.id id) g.diffs

unfoldable pub delete_diff : Bytes → Bytes → Session → Edit Bool
unfolding find_group alter_group eq_bytes
delete_diff group id s =
    if holds_diff id (find_group group s.groups)
    then saved true (record (blank op_del_diff group) { ids = id ∷ [] })
        (record s { groups = alter_group group (without_diff id) s.groups })
    else unchanged false s

unfoldable pub delete_group : Bytes → Session → Edit Bool
unfolding eq_bytes forget
delete_group name s =
    let groups = keep (λ g. not (has_name name g)) s.groups in
    if any (has_name name) s.groups
    then saved true (blank op_del_group name)
        (record s { groups = groups; rounds = forget name s.rounds })
    else unchanged false (record s { groups = groups })

unfoldable pub delete_all_groups : Session → Edit (List Bytes)
delete_all_groups s =
    let names = map (λ (g : Group). g.name) s.groups in
    let s' = record s { groups = []; rounds = [] } in
    if is_nil names then unchanged names s' else saved names (blank op_del_all []) s'

abbrev pub submit : ℕ → Bytes → Verdict → Group → Group
submit now note verdict g = record g {
  reviewed_at = now;
  review_note = note;
  review_verdict = verdict;
}

unfoldable pub submit_review : ℕ → Bytes → Bytes → Verdict → Session → Edit (Option Group)
unfolding find_group alter_group meta_record eq_bytes
submit_review now group note verdict s = elim (find_group group s.groups) [
  | none ↦ unchanged none s
  | some g ↦
      let g' = submit now note verdict g in
      saved (some g') (meta_record g')
        (record s { groups = alter_group group (submit now note verdict) s.groups })
]
