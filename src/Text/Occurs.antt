-- ===== src/Text/Occurs.antt =====
-- Where a string occurs in another: proofs about `strings.Contains`, `Split`, `Join` and the trimming
-- functions.
use mathlib.Core.Path.{subst}
use mathlib.Core.Option.{some-injective}
use mathlib.Core.List.{reverse-append, reverse-reverse}
use sbnn.Prelude.{
  ==_iff, All, All-map, Bool, Bool-cases, Bytes, List, Option-cases, [], any, ap, append-nil,
  append_assoc, arith, false, inl, inr, is_some, refl, reverse, some, suc, sym, true, zero, ℕ, ◌++◌,
  ◌==◌, ◌||◌, ◌∙◌, ◌∷◌, ◌≡◌,
}
use sbnn.Session.Threaded.{absent}
use sbnn.Text.Affix.{
  after_prefix, drop_space, has_prefix, space_width, space_width_end, trim_space, trim_suffix,
}
use sbnn.Text.Split.{contains, cut, join, split}

abbrev pub Occurs : Bytes → Bytes → Type 0
Occurs x s = (a : Bytes) × (b : Bytes) × (s ≡ a ++ (x ++ b))

pub self-Occurs : (x : Bytes) → Occurs x x
self-Occurs x = ([], [], sym (append-nil x))

pub Occurs-trans : (x y z : Bytes) → Occurs x y → Occurs y z → Occurs x z
Occurs-trans x y z h k =
    (k.0 ++ h.0, h.1 ++ k.1, k.2 ∙ ap (λ (t : Bytes). k.0 ++ (t ++ k.1)) h.2 ∙ simp append_assoc)

pub Occurs-reverse : (x s : Bytes) → Occurs x s → Occurs (reverse x) (reverse s)
Occurs-reverse x s h =
    (reverse h.1, reverse h.0, ap reverse h.2 ∙ simp (reverse-append, append_assoc))

pub Occurs-behind : (c : ℕ) (x s : Bytes) → Occurs x s → Occurs x (c ∷ s)
Occurs-behind c x s h = (c ∷ h.0, h.1, ap (λ (t : Bytes). c ∷ t) h.2)

pub after_prefix-append : (x b : Bytes) → after_prefix (x ++ b) x ≡ some b
unfolding after_prefix
after_prefix-append [] b = refl
after_prefix-append (c ∷ x) b = ground (arith, after_prefix-append x b)

pub after_prefix_sound : (s x : Bytes) {b : Bytes} → after_prefix s x ≡ some b → s ≡ x ++ b
unfolding after_prefix
after_prefix_sound s [] e = some-injective _ _ e
after_prefix_sound [] (d ∷ x) e = cc
after_prefix_sound (c ∷ s) (d ∷ x) {b} e = ground (arith, after_prefix_sound s x {b = b})

cut-prefix : (x s : Bytes) {b : Bytes} → after_prefix s x ≡ some b → is_some (cut x s) ≡ true
unfolding cut
cut-prefix x [] e = rw (e, cut) refl
cut-prefix x (c ∷ s) e = rw (e, cut) refl

cut-behind :
    (x : Bytes) (c : ℕ) (s : Bytes)
    → is_some (cut x (c ∷ s)) ≡ (has_prefix (c ∷ s) x || is_some (cut x s))
unfolding cut has_prefix
cut-behind x c s = elim (Option-cases (after_prefix (c ∷ s) x)) [
  | inr (b, found) ↦ rw (found, cut) refl
  | inl not_here ↦ elim (Option-cases (cut x s)) [
    | inl nowhere ↦ rw (not_here, nowhere, cut) refl
    | inr (p, later) ↦ rw (not_here, later, cut) refl
  ]
]

or_true : (b : Bool) → (b || true) ≡ true
or_true true = refl
or_true false = refl

contains-behind : (x a t : Bytes) → contains t x ≡ true → contains (a ++ t) x ≡ true
unfolding contains
contains-behind x [] t h = h
contains-behind x (c ∷ a) t h =
    cut-behind x c (a ++ t)
    ∙ ap (λ (b : Bool). has_prefix (c ∷ a ++ t) x || b) (contains-behind x a t h)
    ∙ or_true (has_prefix (c ∷ a ++ t) x)

pub contains-Occurs : (x s : Bytes) → Occurs x s → contains s x ≡ true
contains-Occurs x s (a, b, e) =
    ap (λ (t : Bytes). contains t x) e
    ∙ contains-behind x a (x ++ b)
        (unfold contains in cut-prefix x (x ++ b) (after_prefix-append x b))

pub Occurs-contains : (x s : Bytes) → contains s x ≡ true → Occurs x s
unfolding contains cut has_prefix
Occurs-contains x [] h = elim (Option-cases (after_prefix [] x)) [
  | inr (b, found) ↦ ([], b, after_prefix_sound [] x found)
  | inl absent ↦ let no = rw (absent, cut) at h in cc
]
Occurs-contains x (c ∷ s) h = elim (Option-cases (after_prefix (c ∷ s) x)) [
  | inr (b, found) ↦ ([], b, after_prefix_sound (c ∷ s) x found)
  | inl not_here ↦
      Occurs-behind c x s (Occurs-contains x s (rw not_here at (sym (cut-behind x c s) ∙ h)))
]

pub drop_space-Occurs : (w : Bytes → ℕ) (k : ℕ) (s : Bytes) → Occurs (drop_space w k s) s
unfolding drop_space
drop_space-Occurs w k [] = self-Occurs []
drop_space-Occurs w (suc k) (c ∷ s) = Occurs-behind c _ s (drop_space-Occurs w k s)
drop_space-Occurs w zero (c ∷ s) =
    elim (w (c ∷ s)) as (λ n. Occurs (elim n [ zero ↦ c ∷ s | suc k ↦ drop_space w k s ]) (c ∷ s)) [
      | zero ↦ self-Occurs (c ∷ s)
      | suc k ↦ Occurs-behind c _ s (drop_space-Occurs w k s)
    ]

pub trim_space-Occurs : (s : Bytes) → Occurs (trim_space s) s
unfolding trim_space
trim_space-Occurs s =
    let front = drop_space space_width 0 s in
    Occurs-trans _ front s
      (subst (λ (t : Bytes). Occurs (trim_space s) t) (reverse-reverse front)
        (Occurs-reverse _ _ (drop_space-Occurs space_width_end 0 (reverse front))))
      (drop_space-Occurs space_width 0 s)

pub trim_suffix-Occurs : (s x : Bytes) → Occurs (trim_suffix s x) s
unfolding trim_suffix
trim_suffix-Occurs s x = elim (Option-cases (after_prefix (reverse s) (reverse x))) [
  | inl no_suffix ↦ rw (no_suffix, trim_suffix) (self-Occurs s)
  | inr (r, found) ↦
      rw (found, trim_suffix)
        (
          [],
          x,
          sym (reverse-reverse s)
              ∙ ap reverse (after_prefix_sound (reverse s) (reverse x) found)
              ∙ reverse-append (reverse x) r
              ∙ ap (λ (t : Bytes). reverse r ++ t) (reverse-reverse x),
        )
]

-- There is a first line.
split-cons : (b : ℕ) (s : Bytes) → (l : Bytes) × (ls : List Bytes) × (split b s ≡ l ∷ ls)
unfolding split
split-cons b [] = ([], [], refl)
split-cons b (c ∷ s) = elim (Bool-cases (c == b)) [
  | inl ends ↦ ([], split b s, rw ends refl)
  | inr goes_on ↦ let (l, ls, e) = split-cons b s in (c ∷ l, ls, rw (goes_on, e) refl)
]

pub split-one : (s : Bytes) → any (λ c. c == 10) s ≡ false → split 10 s ≡ s ∷ []
unfolding split
split-one [] h = refl
split-one (c ∷ s) h =
    let other : (c == 10) ≡ false = ground (arith, h) in
    rw (other, split-one s (ground (arith, h))) refl

pub split-append : (b : ℕ) (s t : Bytes) → split b (s ++ b ∷ t) ≡ split b s ++ split b t
unfolding split
split-append b [] t = rw ((==_iff b b).1 refl) refl
split-append b (c ∷ s) t = elim (Bool-cases (c == b)) [
  | inl ends ↦ rw ends (ap (λ (ls : List Bytes). [] ∷ ls) (split-append b s t))
  | inr goes_on ↦ let (l, ls, e) = split-cons b s in rw (goes_on, split-append b s t, e) refl
]

join-first : (b c : ℕ) (l : Bytes) (ls : List Bytes) → join b ((c ∷ l) ∷ ls) ≡ c ∷ join b (l ∷ ls)
unfolding join
join-first b c l [] = refl
join-first b c l (m ∷ ls) = refl

pub join-split : (b : ℕ) (s : Bytes) → join b (split b s) ≡ s
unfolding join split
join-split b [] = refl
join-split b (c ∷ s) = elim (Bool-cases (c == b)) [
  | inl ends ↦
      let (l, ls, e) = split-cons b s in
      rw ends (
        ap (λ (ms : List Bytes). join b ([] ∷ ms)) e
        ∙ ap (λ (t : Bytes). b ∷ t) (ap (join b) (sym e) ∙ join-split b s)
        ∙ ap (λ (d : ℕ). d ∷ s) (sym ((==_iff c b).0 ends)))
  | inr goes_on ↦
      let (l, ls, e) = split-cons b s in
      rw (goes_on, e)
        (join-first b c l ls ∙ ap (λ (t : Bytes). c ∷ t) (ap (join b) (sym e) ∙ join-split b s))
]

join-Occurs : (b : ℕ) (ls : List Bytes) → All (λ l. Occurs l (join b ls)) ls
unfolding join
join-Occurs b [] = tt
join-Occurs b (l ∷ []) = (self-Occurs l, tt)
join-Occurs b (l ∷ m ∷ ls) = (
  ([], b ∷ join b (m ∷ ls), refl),
  All-map _ _ (m ∷ ls)
      (λ k o.
        Occurs-trans k (join b (m ∷ ls)) (l ++ b ∷ join b (m ∷ ls)) o
          (l ++ b ∷ [], [], simp (append_assoc, append-nil)))
      (join-Occurs b (m ∷ ls)),
)

-- A line of a text occurs in it.
pub split-Occurs : (b : ℕ) (s : Bytes) → All (λ l. Occurs l s) (split b s)
split-Occurs b s =
    All-map _ _ (split b s) (λ l o. subst (Occurs l) (join-split b s) o) (join-Occurs b (split b s))
