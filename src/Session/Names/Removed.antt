-- ===== src/Session/Names/Removed.antt =====
-- The names of the groups when one group goes.
use mathlib.Core.Path.{subst}
use sbnn.Prelude.{
  All-keep, All-map, Bool-cases, Bytes, List, [], ap, arith, inl, inr, keep, not, refl, sym, ◌&&◌,
  ◌∷◌, ◌≡◌,
}
use sbnn.Review.{Group}
use sbnn.Session.{Counters, Session, forget, has_name}
use sbnn.Session.Log.{listed}
use sbnn.Session.Names.{HasNames, IsCounted, IsDistinct, names_of}
use sbnn.Session.Prune.{without_group}
use sbnn.Text.{eq_bytes, eq_bytes_iff, eq_bytes_refl}

abbrev without : Bytes → List Bytes → List Bytes
without n = keep (λ m. not (eq_bytes m n))

names_of-keep :
    (n : Bytes) (gs : List Group)
    → names_of (keep (λ g. not (has_name n g)) gs) ≡ without n (names_of gs)
names_of-keep n [] = refl
names_of-keep n (g ∷ gs) = elim (Bool-cases (has_name n g)) [
  | inl gone ↦ rw gone (names_of-keep n gs)
  | inr stays ↦ rw stays (ap (λ (ns : List Bytes). g.name ∷ ns) (names_of-keep n gs))
]

listed-without :
    (n m : Bytes) (ns : List Bytes) → listed (without n ns) m ≡ (listed ns m && not (eq_bytes m n))
listed-without n m [] = refl
listed-without n m (k ∷ ns) = elim (Bool-cases (eq_bytes m k)) [
  | inl same ↦
      let e : m ≡ k = (eq_bytes_iff m k).0 same in
      rw (← e) (ground (arith, listed-without n m ns, eq_bytes_refl m))
  | inr other ↦ ground (arith, other, listed-without n m ns)
]

IsDistinct-without : (n : Bytes) (ns : List Bytes) → IsDistinct ns → IsDistinct (without n ns)
IsDistinct-without n [] h = tt
IsDistinct-without n (k ∷ ns) h = elim (Bool-cases (eq_bytes k n)) [
  | inl gone ↦ rw gone (IsDistinct-without n ns h.1)
  | inr stays ↦ rw stays (rw (listed-without n k ns, h.0) refl, IsDistinct-without n ns h.1)
]

IsCounted-forget :
    (n : Bytes) (ns : List Bytes) (m : Counters)
    → IsCounted ns m
    → IsCounted (without n ns) (forget n m)
unfolding forget
IsCounted-forget n ns m h =
    All-keep _ (λ e. not (eq_bytes e.0 n)) m
      (All-map _ _ m (λ e there stays. rw (listed-without n e.0 ns, there, stays) refl) h)

-- The group of a name and its rounds are gone.
pub without_group-HasNames : (n : Bytes) (s : Session) → HasNames s → HasNames (without_group n s)
without_group-HasNames n s h = record {
  distinct =
      subst IsDistinct (sym (names_of-keep n s.groups))
        (IsDistinct-without n (names_of s.groups) h.distinct);
  counted =
      subst (λ ns. IsCounted ns (forget n s.rounds)) (sym (names_of-keep n s.groups))
        (IsCounted-forget n (names_of s.groups) s.rounds h.counted);
}
