-- ===== src/Session/Names/Methods.antt =====
-- The methods that make or remove groups.
use mathlib.Core.Path.{subst}
use sbnn.Prelude.{
  All-map, Bool, Bool-cases, Bytes, List, Option-cases, [], any, false, find, if◌then◌else◌, inl,
  inr, is_nil, map, not, refl, sym, true, ℕ, ◌&&◌, ◌++◌, ◌==◌, ◌||◌, ◌∷◌, ◌≡◌,
}
use sbnn.Review.{Diff, Group, Hook}
use sbnn.Session.{
  Counters, Session, bump, diff_prefix, has_name, hook_prefix, next_id, next_round, with_group,
}
use sbnn.Session.Hooks.{add_hook, append_hook, group_or_new, same_hook}
use sbnn.Session.Log.{append_diff, listed}
use sbnn.Session.Names.{
  HasNames, IsCounted, IsDistinct, IsDistinct-with, listed-with, names_of, names_of-with_group,
}
use sbnn.Session.Names.Removed.{without_group-HasNames}
use sbnn.Session.Prune.{
  PruneRequest, PrunedGroup, close_groups, limit, prune, prune_groups, without_group,
}
use sbnn.Session.Replay.Groups.{keep-none}
use sbnn.Session.Rounds.{add_diff, delete_all_groups, delete_group, round_title}
use sbnn.Text.{eq_bytes, eq_bytes_refl, is_empty}

or_true : (b : Bool) → (b || true) ≡ true
or_true true = refl
or_true false = refl

IsCounted-bump :
    (ns : List Bytes) (k : Bytes) (m : Counters)
    → any (eq_bytes k) ns ≡ true
    → IsCounted ns m
    → IsCounted ns (bump k m)
unfolding bump
IsCounted-bump ns k [] there h = (there, tt)
IsCounted-bump ns k ((j, n) ∷ m) there h = elim (Bool-cases (eq_bytes j k)) [
  | inl same ↦ rw same h
  | inr other ↦ rw other (h.0, IsCounted-bump ns k m there h.1)
]

-- The names behind `with_group`.
abbrev with_name : Bytes → List Bytes → List Bytes
with_name n ns = if listed ns n then ns else ns ++ n ∷ []

IsCounted-with :
    (ns : List Bytes) (n : Bytes) (m : Counters) → IsCounted ns m → IsCounted (with_name n ns) m
IsCounted-with ns n m = All-map _ _ m (λ e there. rw (listed-with ns n e.0, there) refl)

module _ (name : Bytes) (f : Group → Group) (seq : Counters) (s : Session)
    (named : (g : Group) → (f g).name ≡ g.name) where
  with_group-HasNames :
      HasNames s → HasNames (record s { groups = with_group name f s.groups; seq = seq })
  with_group-HasNames h =
      let e = names_of-with_group name f s.groups named in
      record {
        distinct = subst IsDistinct (sym e) (IsDistinct-with (names_of s.groups) name h.distinct);
        counted =
            subst (λ ns. IsCounted ns s.rounds) (sym e)
              (IsCounted-with (names_of s.groups) name s.rounds h.counted);
      }

  with_round-HasNames :
      HasNames s
      → HasNames
          (record { groups = with_group name f s.groups; seq = seq; rounds = bump name s.rounds })
  with_round-HasNames h =
      let e = names_of-with_group name f s.groups named in
      let there : listed (with_name name (names_of s.groups)) name ≡ true =
        rw (listed-with (names_of s.groups) name name, eq_bytes_refl name) (or_true _) in
      record {
        distinct = subst IsDistinct (sym e) (IsDistinct-with (names_of s.groups) name h.distinct);
        counted =
            subst (λ ns. IsCounted ns (bump name s.rounds)) (sym e)
              (IsCounted-bump (with_name name (names_of s.groups)) name s.rounds there
                (IsCounted-with (names_of s.groups) name s.rounds h.counted));
      }

pub add_diff-HasNames :
    (now : ℕ) (group : Bytes) (d : Diff) (s : Session)
    → HasNames s
    → HasNames (add_diff now group d s).session
unfolding add_diff next_id next_round
add_diff-HasNames now group d s =
    with_round-HasNames group
      (append_diff (record d {
        id = (next_id diff_prefix s.seq).0;
        created_at = if d.created_at == 0 then now else d.created_at;
        title = round_title d.title (next_round group s.rounds).0;
      }))
      (bump diff_prefix s.seq) s (λ g. refl)

pub add_hook-HasNames :
    (valid_url : Bytes → Bool) (now : ℕ) (group : Bytes) (h : Hook) (s : Session)
    → HasNames s
    → HasNames (add_hook valid_url now group h s).session
unfolding add_hook next_id
add_hook-HasNames valid_url now group h s names =
    elim (Bool-cases (is_empty h.command && is_empty h.url)) [
      | inl nothing ↦ rw (nothing, add_hook) names
      | inr something ↦ elim (Bool-cases (not (is_empty h.url) && not (valid_url h.url))) [
        | inl invalid ↦ rw (something, invalid, add_hook) names
        | inr valid ↦ elim (Option-cases (find (same_hook h) (group_or_new group s.groups).hooks)) [
          | inr (old, there) ↦ rw (something, valid, there, add_hook) names
          | inl new ↦
              rw (something, valid, new, add_hook)
                (with_group-HasNames group
                  (append_hook (record h { id = (next_id hook_prefix s.seq).0; created_at = now }))
                  (bump hook_prefix s.seq) s (λ g. refl) names)
        ]
      ]
    ]

pub delete_group-HasNames :
    (name : Bytes) (s : Session) → HasNames s → HasNames (delete_group name s).session
unfolding delete_group
delete_group-HasNames name s h = elim (Bool-cases (any (has_name name) s.groups)) [
  | inl there ↦ rw there (without_group-HasNames name s h)
  | inr not_there ↦ rw (not_there, keep-none (has_name name) s.groups not_there) h
]

pub delete_all_groups-HasNames : (s : Session) → HasNames (delete_all_groups s).session
unfolding delete_all_groups
delete_all_groups-HasNames s = elim (Bool-cases (is_nil (map (λ (g : Group). g.name) s.groups))) [
  | inl nothing ↦ rw nothing (record { distinct = tt; counted = tt })
  | inr names ↦ rw names (record { distinct = tt; counted = tt })
]

close_groups-HasNames :
    (ps : List PrunedGroup) (s : Session) → HasNames s → HasNames (close_groups ps s).0
unfolding close_groups
close_groups-HasNames [] s h = h
close_groups-HasNames (p ∷ ps) s h =
    close_groups-HasNames ps (without_group p.name s) (without_group-HasNames p.name s h)

pub prune-HasNames :
    (req : PruneRequest) (s : Session) → HasNames s → HasNames (prune req s).session
unfolding prune
prune-HasNames req s h =
    let res = limit req.groups (prune_groups req.before req.force s.groups) in
    elim (Bool-cases (req.dry_run || is_nil res.closed)) [
      | inl nothing ↦ rw nothing h
      | inr closes ↦ rw closes (close_groups-HasNames res.closed s h)
    ]

-- Where there is no group there are no rounds.
pub no_groups-no_rounds : (s : Session) → HasNames s → s.groups ≡ [] → s.rounds ≡ []
no_groups-no_rounds s h none_left =
    none_counted s.rounds
      (subst (λ (gs : List Group). IsCounted (names_of gs) s.rounds) none_left h.counted)
  where
    none_counted : (m : Counters) → IsCounted [] m → m ≡ []
    none_counted [] k = refl
    none_counted (e ∷ m) k = cc
