-- ===== src/Session/Threaded.antt =====
-- What it is for the comments of a group to be well threaded: ids are handed out once, and every reply
-- hangs under a comment that opens a thread, and shares its state and its round.
pub mod Changed
pub mod Resolved
pub mod Grown
pub mod Kept
pub mod Edited
pub mod Cleared
use mathlib.Core.Path.{subst}
use mathlib.Core.Option.{some-injective}
use sbnn.Prelude.{
  All, Bool-cases, Bytes, List, [], ap, arith, false, inl, inr, none, refl, some, sym, true, ℕ,
  ◌++◌, ◌+◌, ◌∙◌, ◌∷◌, ◌≡◌, ◌≤◌,
}
use sbnn.Review.{Comment, Group, is_reply}
use sbnn.Session.{
  Counters, Session, alter_group, bump, comment_prefix, count_of, find_group, has_name,
}
use sbnn.Session.Log.{alter_comment, find_comment, has_id}
use sbnn.Text.{eq_bytes, eq_bytes_iff, eq_bytes_refl, is_empty}
use sbnn.Text.Number.{itoa}
use sbnn.Text.Number.RoundTrip.{itoa_injective}

-- The id is one of the first `n` of its prefix.
abbrev pub IsIssued : Bytes → ℕ → Bytes → Type 0
IsIssued prefix n id = (k : ℕ) × (k ≤ n) × (id ≡ prefix ++ itoa k)

-- No two comments have one id.
abbrev pub HasDistinctIds : List Comment → Type 0
HasDistinctIds [] = Unit
HasDistinctIds (c ∷ cs) = (find_comment c.id cs ≡ none) × HasDistinctIds cs

-- What a reply has in common with the comment that it replies to.
pub record IsRooted (all : List Comment) (c : Comment) : Type 0 where
  pub root : Comment
  pub there : find_comment c.reply_to all ≡ some root
  pub opens_thread : is_reply root ≡ false
  pub same_state : root.resolved ≡ c.resolved
  pub same_diff : root.diff_id ≡ c.diff_id

abbrev pub IsAnchored : List Comment → Comment → Type 0
IsAnchored all c = is_reply c ≡ true → IsRooted all c

pub record IsThreaded (n : ℕ) (cs : List Comment) : Type 0 where
  pub issued : All (λ c. IsIssued comment_prefix n c.id) cs
  pub distinct : HasDistinctIds cs
  pub anchored : All (IsAnchored cs) cs

-- What `findComment` finds has the id, and is among the comments.
pub find_comment-id :
    (id : Bytes) (cs : List Comment) {c : Comment} → find_comment id cs ≡ some c → c.id ≡ id
unfolding find_comment
find_comment-id id [] e = cc
find_comment-id id (d ∷ ds) {c} e =
    ground (arith, find_comment-id id ds {c = c}, eq_bytes_iff d.id id)

module _ {κ} (P : Comment → Type κ) where
  pub All-find_comment :
      (id : Bytes) (cs : List Comment) {c : Comment} → All P cs → find_comment id cs ≡ some c → P c
  unfolding find_comment
  All-find_comment id [] h e = cc
  All-find_comment id (d ∷ ds) {c} h e = elim (Bool-cases (has_id id d)) [
    | inl here ↦ subst P (some-injective _ _ (rw (here, find_comment) at e)) h.0
    | inr later ↦ All-find_comment id ds h.1 (rw (later, find_comment) at e)
  ]

-- The number behind the last id is in no id.
pub find_comment-fresh :
    (n : ℕ) (cs : List Comment)
    → All (λ c. IsIssued comment_prefix n c.id) cs
    → find_comment (comment_prefix ++ itoa (n + 1)) cs ≡ none
unfolding find_comment
find_comment-fresh n [] h = refl
find_comment-fresh n (c ∷ cs) h = elim (Bool-cases (has_id (comment_prefix ++ itoa (n + 1)) c)) [
  | inl same ↦
      let (k, le, id) = h.0 in
      let e : itoa k ≡ itoa (n + 1) =
        ground (arith, eq_bytes_iff c.id (comment_prefix ++ itoa (n + 1))) in
      absurd (omega (arith, itoa_injective k (n + 1) e))
  | inr other ↦ rw other (find_comment-fresh n cs h.1)
]

-- No comment has an empty id.
pub find_comment-named :
    (n : ℕ) (id : Bytes) (cs : List Comment) {c : Comment}
    → All (λ c. IsIssued comment_prefix n c.id) cs
    → find_comment id cs ≡ some c
    → is_empty id ≡ false
find_comment-named n id cs {c} issued there =
    let (k, le, e) = All-find_comment (λ c. IsIssued comment_prefix n c.id) id cs issued there in
    ap is_empty (sym (find_comment-id id cs there) ∙ e)

module _ {κ} (P : Comment → Type κ) where
  pub All-alter_comment :
      (id : Bytes) (f : Comment → Comment) (cs : List Comment) {c : Comment}
      → find_comment id cs ≡ some c
      → All P cs
      → P (f c)
      → All P (alter_comment id f cs)
  unfolding alter_comment find_comment
  All-alter_comment id f [] e h k = tt
  All-alter_comment id f (d ∷ ds) e h k = elim (Bool-cases (has_id id d)) [
    | inl here ↦
        rw here
          (subst (λ c. P (f c)) (sym (some-injective _ _ (rw (here, find_comment) at e))) k, h.1)
    | inr later ↦ rw later (h.0, All-alter_comment id f ds (rw (later, find_comment) at e) h.1 k)
  ]

-- Every group of the session holds its comments so.
abbrev pub IsWellFormed : Session → Type 0
IsWellFormed s = All (λ g. IsThreaded (count_of comment_prefix s.seq) g.comments) s.groups

pub All-find_group {κ} :
    (P : Group → Type κ) (name : Bytes) (gs : List Group) {g : Group}
    → All P gs
    → find_group name gs ≡ some g
    → P g
unfolding find_group
All-find_group P name [] h e = cc
All-find_group P name (x ∷ gs) h e = elim (Bool-cases (has_name name x)) [
  | inl here ↦ subst P (some-injective _ _ (rw (here, find_group) at e)) h.0
  | inr later ↦ All-find_group P name gs h.1 (rw (later, find_group) at e)
]

pub All-alter_group {κ} :
    (P : Group → Type κ) (name : Bytes) (f : Group → Group) (gs : List Group) {g : Group}
    → find_group name gs ≡ some g
    → All P gs
    → P (f g)
    → All P (alter_group name f gs)
unfolding alter_group find_group
All-alter_group P name f [] e h k = tt
All-alter_group P name f (x ∷ gs) e h k = elim (Bool-cases (has_name name x)) [
  | inl here ↦
      rw here (subst (λ y. P (f y)) (sym (some-injective _ _ (rw (here, find_group) at e))) k, h.1)
  | inr later ↦ rw later (h.0, All-alter_group P name f gs (rw (later, find_group) at e) h.1 k)
]

pub count_of-bump : (k : Bytes) (m : Counters) → count_of k (bump k m) ≡ count_of k m + 1
unfolding count_of bump
count_of-bump k [] = rw (eq_bytes_refl k) refl
count_of-bump k ((j, n) ∷ m) = ground (arith, count_of-bump k m)

-- No comment has an id that finds none.
pub absent :
    (id : Bytes) (cs : List Comment)
    → find_comment id cs ≡ none
    → All (λ c. eq_bytes c.id id ≡ false) cs
unfolding find_comment
absent id [] e = tt
absent id (c ∷ cs) e = elim (Bool-cases (has_id id c)) [
  | inl here ↦ let found = rw (here, find_comment) at e in cc
  | inr later ↦ (later, absent id cs (rw (later, find_comment) at e))
]
