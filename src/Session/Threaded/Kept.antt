-- ===== src/Session/Threaded/Kept.antt =====
-- Well threaded comments of which some are removed.
use mathlib.Core.Option.{some-injective}
use sbnn.Prelude.{
  All-keep, All-map, All-zip, Bool, Bool-cases, Bytes, List, [], ap, arith, false, inl, inr, keep,
  none, not, refl, some, sym, true, ℕ, ◌∙◌, ◌∷◌, ◌≡◌,
}
use sbnn.Review.{Comment, is_reply}
use sbnn.Session.Comments.{goes_with}
use sbnn.Session.Log.{find_comment, has_id}
use sbnn.Session.Threaded.{
  HasDistinctIds, IsAnchored, IsRooted, IsThreaded, find_comment-id, find_comment-named,
}
use sbnn.Session.Threaded.Changed.{found_by_id}
use sbnn.Text.{eq_bytes, eq_bytes_iff, is_empty}

find_comment-keep :
    (p : Comment → Bool) (i : Bytes) (cs : List Comment) {c : Comment}
    → find_comment i cs ≡ some c
    → p c ≡ true
    → find_comment i (keep p cs) ≡ some c
unfolding find_comment
find_comment-keep p i [] there kept = cc
find_comment-keep p i (d ∷ ds) {c} there kept = elim (Bool-cases (has_id i d)) [
  | inl here ↦
      let same : d ≡ c = some-injective _ _ (rw (here, find_comment) at there) in
      let kept' : p d ≡ true = ap p same ∙ kept in rw (kept', here) (ap some same)
  | inr later ↦
      let rest = find_comment-keep p i ds (rw (later, find_comment) at there) kept in
      elim (Bool-cases (p d)) [ inl stays ↦ rw (stays, later) rest | inr goes ↦ rw goes rest ]
]

find_comment-keep_absent :
    (p : Comment → Bool) (i : Bytes) (cs : List Comment)
    → find_comment i cs ≡ none
    → find_comment i (keep p cs) ≡ none
unfolding find_comment
find_comment-keep_absent p i [] h = refl
find_comment-keep_absent p i (d ∷ ds) h = ground (arith, find_comment-keep_absent p i ds)

distinct-keep :
    (p : Comment → Bool) (cs : List Comment) → HasDistinctIds cs → HasDistinctIds (keep p cs)
distinct-keep p [] h = tt
distinct-keep p (c ∷ cs) h = elim (Bool-cases (p c)) [
  | inl stays ↦ rw stays (find_comment-keep_absent p c.id cs h.0, distinct-keep p cs h.1)
  | inr goes ↦ rw goes (distinct-keep p cs h.1)
]

-- A reply is only kept with the comment that it replies to.
abbrev pub KeepsRoots : (Comment → Bool) → List Comment → Type 0
KeepsRoots p cs =
    (d : Comment)
    → find_comment d.id cs ≡ some d
    → (r : IsRooted cs d) → p d ≡ true
    → p r.root ≡ true

pub IsThreaded-keep :
    (p : Comment → Bool) (n : ℕ) (cs : List Comment)
    → IsThreaded n cs
    → KeepsRoots p cs
    → IsThreaded n (keep p cs)
IsThreaded-keep p n cs t roots = record {
  issued = All-keep _ p cs (All-map _ _ cs (λ c i kept. i) t.issued);
  distinct = distinct-keep p cs t.distinct;
  anchored = All-keep _ p cs (All-zip _ _ _ cs anchor t.anchored (found_by_id cs t.distinct));
}
  where
    anchor :
        (d : Comment)
        → IsAnchored cs d
        → find_comment d.id cs ≡ some d
        → p d ≡ true
        → IsAnchored (keep p cs) d
    anchor d anchored self kept reply =
        let r = anchored reply in
        record {
          root = r.root;
          there = find_comment-keep p d.reply_to cs r.there (roots d self r kept);
          opens_thread = r.opens_thread;
          same_state = r.same_state;
          same_diff = r.same_diff;
        }

-- A comment goes together with its replies.
pub goes_with-KeepsRoots :
    (n : ℕ) (id : Bytes) (cs : List Comment) {target : Comment}
    → IsThreaded n cs
    → find_comment id cs ≡ some target
    → KeepsRoots (λ c. not (goes_with target c)) cs
goes_with-KeepsRoots n id cs {target} t found d self r kept =
    elim (Bool-cases (has_id target.id r.root)) [
      | inl same ↦
          let to_target : d.reply_to ≡ target.id =
            sym (find_comment-id d.reply_to cs r.there)
            ∙ (eq_bytes_iff r.root.id target.id).0 same in
          let is_root : r.root ≡ target = some-injective _ _ (
            sym r.there
            ∙ ap (λ (i : Bytes). find_comment i cs) (to_target ∙ find_comment-id id cs found)
            ∙ found) in
          let opens : is_reply target ≡ false = ap is_reply (sym is_root) ∙ r.opens_thread in
          let follows = (eq_bytes_iff d.reply_to target.id).1 to_target in
          ground (arith, opens, follows, kept)
      | inr other ↦ elim (Bool-cases (eq_bytes r.root.reply_to target.id)) [
        | inr apart ↦ ground (arith, other, apart)
        | inl under ↦
            let named : is_empty target.id ≡ false =
              ap is_empty (find_comment-id id cs found)
              ∙ find_comment-named n id cs t.issued found in
            let reply : is_reply r.root ≡ true =
              ap (λ (i : Bytes). not (is_empty i))
                ((eq_bytes_iff r.root.reply_to target.id).0 under)
              ∙ ap not named in
            let opens = r.opens_thread in cc
      ]
    ]
