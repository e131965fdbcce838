-- ===== src/Session/Prune/Safe.antt =====
-- Proofs about `Prune`: what becomes of each group.
use mathlib.Core.Option.{some-injective}
use sbnn.Prelude.{
  Bool, Bool-cases, Bytes, List, [], any, ap, arith, false, if◌then◌else◌, inl, inr, is_nil, keep,
  map, none, not, refl, some, sym, true, ◌&&◌, ◌++◌, ◌||◌, ◌∙◌, ◌∷◌, ◌≡◌,
}
use sbnn.Review.{Group}
use sbnn.Session.{Session, find_group, has_name}
use sbnn.Session.Log.{listed}
use sbnn.Session.Names.{IsDistinct, names_of}
use sbnn.Session.Prune.{
  PruneRequest, PruneResponse, PrunedGroup, close_groups, describe_pruned, limit, limit_from,
  not_listed, prune, prune_groups, without_group,
}
use sbnn.Session.Prune.Kept.{prunable, prune_groups-eq}
use sbnn.Text.{eq_bytes, eq_bytes_comm, eq_bytes_iff}

abbrev named : Bytes → PrunedGroup → Bool
named n p = eq_bytes p.name n

no_other :
    (n : Bytes) (p : Group → Bool) (gs : List Group)
    → listed (names_of gs) n ≡ false
    → any (named n) (map (describe_pruned none) (keep p gs)) ≡ false
unfolding describe_pruned
no_other n p [] h = refl
no_other n p (g ∷ gs) h = ground (arith, no_other n p gs, eq_bytes_comm g.name n)

-- Is the group of this name among those that are closed?
closed-named :
    (n : Bytes) (p : Group → Bool) (gs : List Group) {g : Group}
    → IsDistinct (names_of gs)
    → find_group n gs ≡ some g
    → any (named n) (map (describe_pruned none) (keep p gs)) ≡ p g
unfolding describe_pruned find_group
closed-named n p [] h e = cc
closed-named n p (x ∷ gs) {g} h e = elim (Bool-cases (has_name n x)) [
  | inl here ↦
      let same : x ≡ g = some-injective _ _ (rw (here, find_group) at e) in
      let rest = no_other n p gs (rw (← (eq_bytes_iff x.name n).0 here) h.0) in
      ap_closed x here rest ∙ ap p same
  | inr later ↦
      let rest = closed-named n p gs h.1 (rw (later, find_group) at e) in
      elim (Bool-cases (p x)) [ inl closes ↦ rw (closes, later) rest | inr stays ↦ rw stays rest ]
]
  where
    ap_closed :
        (x : Group)
        → has_name n x ≡ true
        → any (named n) (map (describe_pruned none) (keep p gs)) ≡ false
        → any (named n) (map (describe_pruned none) (keep p (x ∷ gs))) ≡ p x
    ap_closed x here rest = elim (Bool-cases (p x)) [
      | inl closes ↦ rw (closes, here) refl
      | inr stays ↦ rw (stays, rest) refl
    ]

any-append_one {ℓ} :
    {A : Type ℓ} (p : A → Bool) (xs : List A) (a : A) → any p (xs ++ a ∷ []) ≡ (any p xs || p a)
any-append_one p [] a = ground arith
any-append_one p (x ∷ xs) a = ground (arith, any-append_one p xs a)

limit_from-named :
    (n : Bytes) (names : List Bytes) (res : PruneResponse) (ps : List PrunedGroup)
    → any (named n) (limit_from names res ps).closed
      ≡ (any (named n) res.closed || listed names n && any (named n) ps)
unfolding limit_from
limit_from-named n names res [] = ground arith
limit_from-named n names res (p ∷ ps) = elim (Bool-cases (listed names p.name)) [
  | inl asked ↦
      let rest = limit_from-named n names (record res { closed = res.closed ++ p ∷ [] }) ps in
      elim (Bool-cases (named n p)) [
        | inl same ↦
            let asked' : listed names n ≡ true = rw (← (eq_bytes_iff p.name n).0 same) asked in
            rw (asked, limit_from)
              (rest ∙ ground (arith, asked', same, any-append_one (named n) res.closed p))
        | inr other ↦
            rw (asked, limit_from)
              (rest ∙ ground (arith, other, any-append_one (named n) res.closed p))
      ]
  | inr not_asked ↦
      let rest =
        limit_from-named n names
          (record res { kept = res.kept ++ record p { reason = some not_listed } ∷ [] }) ps in
      elim (Bool-cases (named n p)) [
        | inl same ↦
            let not_asked' : listed names n ≡ false =
              rw (← (eq_bytes_iff p.name n).0 same) not_asked in
            rw (not_asked, limit_from) (rest ∙ ground (arith, not_asked', same))
        | inr other ↦ rw (not_asked, limit_from) (rest ∙ ground (arith, other))
      ]
]

limit-named :
    (n : Bytes) (names : List Bytes) (res : PruneResponse)
    → any (named n) (limit names res).closed
      ≡ ((is_nil names || listed names n) && any (named n) res.closed)
unfolding limit
limit-named n [] res = refl
limit-named n (m ∷ names) res =
    limit_from-named n (m ∷ names) (record { closed = []; kept = res.kept }) res.closed

find_group-left :
    (n m : Bytes) (gs : List Group)
    → find_group n (keep (λ g. not (has_name m g)) gs)
      ≡ (if eq_bytes m n then none else find_group n gs)
unfolding find_group
find_group-left n m [] = ground arith
find_group-left n m (g ∷ gs) = elim (Bool-cases (has_name m g)) [
  | inl gone ↦
      let e : g.name ≡ m = (eq_bytes_iff g.name m).0 gone in
      let same : eq_bytes g.name n ≡ eq_bytes m n = ap (λ (i : Bytes). eq_bytes i n) e in
      ground (arith, gone, same, find_group-left n m gs)
  | inr stays ↦ elim (Bool-cases (eq_bytes m n)) [
    | inl same ↦
        let other : has_name n g ≡ false = rw (← (eq_bytes_iff m n).0 same) stays in
        ground (arith, stays, other, same, find_group-left n m gs)
    | inr apart ↦ ground (arith, stays, apart, find_group-left n m gs)
  ]
]

close_groups-find :
    (n : Bytes) (ps : List PrunedGroup) (s : Session)
    → find_group n (close_groups ps s).0.groups
      ≡ (if any (named n) ps then none else find_group n s.groups)
unfolding close_groups
close_groups-find n [] s = refl
close_groups-find n (p ∷ ps) s =
    close_groups-find n ps (without_group p.name s)
    ∙ ground (arith, find_group-left n p.name s.groups)

-- In a session in which no two groups share a name, a group is gone behind `Prune` exactly when the
-- request is no dry run, names the group or none at all, and `PruneKeepReason` has no reason to keep
-- it; otherwise it is there as it was.
pub prune-find_group :
    (req : PruneRequest) (n : Bytes) (s : Session) {g : Group}
    → IsDistinct (names_of s.groups)
    → find_group n s.groups ≡ some g
    → find_group n (prune req s).session.groups ≡ (
        if not req.dry_run
          && ((is_nil req.groups || listed req.groups n) && prunable req.before req.force g)
        then none
        else some g)
unfolding prune
prune-find_group req n s {g} distinct there =
    let judged = prune_groups req.before req.force s.groups in
    let res = limit req.groups judged in
    let judged_named : any (named n) judged.closed ≡ prunable req.before req.force g =
      ap (λ (r : PruneResponse). any (named n) r.closed)
        (prune_groups-eq req.before req.force s.groups)
      ∙ closed-named n (prunable req.before req.force) s.groups distinct there in
    let closes : any (named n) res.closed
        ≡ ((is_nil req.groups || listed req.groups n) && prunable req.before req.force g) =
      limit-named n req.groups judged
      ∙ ap (λ (b : Bool). (is_nil req.groups || listed req.groups n) && b) judged_named in
    elim (Bool-cases (req.dry_run || is_nil res.closed)) [
      | inl nothing ↦ rw nothing (there ∙ sym (unclosed req.dry_run res.closed nothing closes))
      | inr something ↦
          rw something (
            close_groups-find n res.closed s
            ∙ closing req.dry_run res.closed something closes there)
    ]
  where
    unclosed :
        (dry : Bool) (ps : List PrunedGroup) {b : Bool}
        → (dry || is_nil ps) ≡ true
        → any (named n) ps ≡ b
        → (if not dry && b then none else some g) ≡ some g
    unclosed true ps d c = refl
    unclosed false [] d c = rw (← c) refl
    unclosed false (p ∷ ps) d c = cc

    closing :
        (dry : Bool) (ps : List PrunedGroup) {b : Bool}
        → (dry || is_nil ps) ≡ false
        → any (named n) ps ≡ b
        → find_group n s.groups ≡ some g
        → (if any (named n) ps then none else find_group n s.groups)
          ≡ (if not dry && b then none else some g)
    closing true ps d c e = cc
    closing false ps d c e = rw (c, e) refl
