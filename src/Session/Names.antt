-- ===== src/Session/Names.antt =====
-- The names of the groups of a session, and the groups that its rounds are counted for.
pub mod Removed
pub mod Kept
pub mod Methods
use mathlib.Core.Path.{subst}
use sbnn.Prelude.{
  All, Bool, Bool-cases, Bytes, List, [], any, ap, arith, false, if◌then◌else◌, inl, inr, map, refl,
  sym, true, ◌++◌, ◌||◌, ◌∙◌, ◌∷◌, ◌≡◌,
}
use sbnn.Review.{Group, new_group}
use sbnn.Session.{Counters, Session, alter_group, has_name, with_group}
use sbnn.Session.Log.{listed}
use sbnn.Text.{eq_bytes, eq_bytes_comm, eq_bytes_iff}

abbrev pub names_of : List Group → List Bytes
names_of = map (λ (g : Group). g.name)

-- Every group that rounds are counted for is there.
abbrev pub IsCounted : List Bytes → Counters → Type 0
IsCounted names = All (λ e. any (eq_bytes e.0) names ≡ true)

abbrev pub IsDistinct : List Bytes → Type 0
IsDistinct [] = Unit
IsDistinct (n ∷ ns) = (listed ns n ≡ false) × IsDistinct ns

pub record HasNames (s : Session) : Type 0 where
  pub distinct : IsDistinct (names_of s.groups)
  pub counted : IsCounted (names_of s.groups) s.rounds

-- No group came or went, and no round.
pub record SameNames (s t : Session) : Type 0 where
  pub same_names : names_of t.groups ≡ names_of s.groups
  pub same_rounds : t.rounds ≡ s.rounds

pub same-SameNames : (s : Session) → SameNames s s
same-SameNames s = record { same_names = refl; same_rounds = refl }

pub SameNames-trans : {s t u : Session} → SameNames s t → SameNames t u → SameNames s u
SameNames-trans h k = record {
  same_names = k.same_names ∙ h.same_names;
  same_rounds = k.same_rounds ∙ h.same_rounds;
}

pub SameNames-HasNames : {s t : Session} → SameNames s t → HasNames s → HasNames t
SameNames-HasNames {s} {t} k h = record {
  distinct = subst IsDistinct (sym k.same_names) h.distinct;
  counted =
      subst (λ ns. IsCounted ns t.rounds) (sym k.same_names)
        (subst (IsCounted (names_of s.groups)) (sym k.same_rounds) h.counted);
}

names_of-alter_group :
    (name : Bytes) (f : Group → Group) (gs : List Group)
    → ((g : Group) → (f g).name ≡ g.name)
    → names_of (alter_group name f gs) ≡ names_of gs
unfolding alter_group
names_of-alter_group name f [] k = refl
names_of-alter_group name f (g ∷ gs) k = elim (Bool-cases (has_name name g)) [
  | inl here ↦ rw here (ap (λ (n : Bytes). n ∷ names_of gs) (k g))
  | inr later ↦ rw later (ap (λ (ns : List Bytes). g.name ∷ ns) (names_of-alter_group name f gs k))
]

-- A change to one group that leaves its name.
pub altered-SameNames :
    (name : Bytes) (f : Group → Group) (seq : Counters) (s : Session)
    → ((g : Group) → (f g).name ≡ g.name)
    → SameNames s (record s { groups = alter_group name f s.groups; seq = seq })
altered-SameNames name f seq s k = record {
  same_names = names_of-alter_group name f s.groups k;
  same_rounds = refl;
}

listed-append_one :
    (ns : List Bytes) (m n : Bytes) → listed (ns ++ m ∷ []) n ≡ (listed ns n || eq_bytes n m)
listed-append_one [] m n = ground arith
listed-append_one (k ∷ ns) m n = ground (arith, listed-append_one ns m n)

IsDistinct-append :
    (ns : List Bytes) (m : Bytes) → IsDistinct ns → listed ns m ≡ false → IsDistinct (ns ++ m ∷ [])
IsDistinct-append [] m h new = (refl, tt)
IsDistinct-append (n ∷ ns) m h new = (
  ground (arith, listed-append_one ns m n, eq_bytes_comm m n, new, h.0),
  IsDistinct-append ns m h.1 (ground (arith, new)),
)

-- The group that `with_group` makes stands behind the others.
pub names_of-with_group :
    (name : Bytes) (f : Group → Group) (gs : List Group)
    → ((g : Group) → (f g).name ≡ g.name)
    → names_of (with_group name f gs)
      ≡ (if listed (names_of gs) name then names_of gs else names_of gs ++ name ∷ [])
unfolding with_group
names_of-with_group name f [] k = ap (λ (n : Bytes). n ∷ []) (k (new_group name))
names_of-with_group name f (g ∷ gs) k = elim (Bool-cases (has_name name g)) [
  | inl here ↦
      let here' : eq_bytes name g.name ≡ true = eq_bytes_comm name g.name ∙ here in
      rw (here, here') (ap (λ (n : Bytes). n ∷ names_of gs) (k g))
  | inr later ↦
      let later' : eq_bytes name g.name ≡ false = eq_bytes_comm name g.name ∙ later in
      rw (later, later')
        (ap (λ (ns : List Bytes). g.name ∷ ns) (names_of-with_group name f gs k)
          ∙ cons_if (listed (names_of gs) name) g.name (names_of gs) (names_of gs ++ name ∷ []))
]
  where
    cons_if :
        (b : Bool) (n : Bytes) (xs ys : List Bytes)
        → (n ∷ (if b then xs else ys)) ≡ (if b then n ∷ xs else n ∷ ys)
    cons_if true n xs ys = refl
    cons_if false n xs ys = refl

pub IsDistinct-with :
    (ns : List Bytes) (m : Bytes)
    → IsDistinct ns
    → IsDistinct (if listed ns m then ns else ns ++ m ∷ [])
IsDistinct-with ns m h = elim (Bool-cases (listed ns m)) [
  | inl there ↦ rw there h
  | inr new ↦ rw new (IsDistinct-append ns m h new)
]

or_false : (b : Bool) → b ≡ (b || false)
or_false true = refl
or_false false = refl

-- What is listed stays listed, and the new name is.
pub listed-with :
    (ns : List Bytes) (m n : Bytes)
    → listed (if listed ns m then ns else ns ++ m ∷ []) n ≡ (listed ns n || eq_bytes n m)
listed-with ns m n = elim (Bool-cases (listed ns m)) [
  | inl there ↦ rw there (elim (Bool-cases (eq_bytes n m)) [
    | inl same ↦ rw ((eq_bytes_iff n m).0 same, there) refl
    | inr other ↦ rw other (or_false (listed ns n))
  ])
  | inr new ↦ rw new (listed-append_one ns m n)
]
