-- ===== src/Session/Threaded/Changed.antt =====
-- Well threaded comments that are changed in place.
use mathlib.Core.Path.{subst}
use mathlib.Core.Option
use sbnn.Prelude.{
  All, All-map, All-zip, Bool-cases, Bytes, List, [], ap, false, if◌then◌else◌, inl, inr, map, not,
  refl, some, sym, true, ℕ, ◌∙◌, ◌∷◌, ◌≡◌,
}
use sbnn.Review.{Comment, is_reply}
use sbnn.Session.{comment_prefix}
use sbnn.Session.Log.{alter_comment, find_comment, has_id}
use sbnn.Session.Threaded.{HasDistinctIds, IsAnchored, IsIssued, IsRooted, IsThreaded, absent}
use sbnn.Text.{eq_bytes, eq_bytes_comm, eq_bytes_iff, eq_bytes_refl, is_empty}

abbrev pub altered : Bytes → (Comment → Comment) → Comment → Comment
altered id f c = if has_id id c then f c else c

map-altered_absent :
    (id : Bytes) (f : Comment → Comment) (cs : List Comment)
    → All (λ c. eq_bytes c.id id ≡ false) cs
    → map (altered id f) cs ≡ cs
map-altered_absent id f [] h = refl
map-altered_absent id f (c ∷ cs) h =
    rw h.0 (ap (λ (ds : List Comment). c ∷ ds) (map-altered_absent id f cs h.1))

-- Where ids are distinct, the first comment of an id is the only one.
pub alter_comment-map :
    (id : Bytes) (f : Comment → Comment) (cs : List Comment)
    → HasDistinctIds cs
    → alter_comment id f cs ≡ map (altered id f) cs
unfolding alter_comment
alter_comment-map id f [] distinct = refl
alter_comment-map id f (c ∷ cs) distinct = elim (Bool-cases (has_id id c)) [
  | inl here ↦
      let others : All (λ d. eq_bytes d.id id ≡ false) cs =
        subst (λ (i : Bytes). All (λ d. eq_bytes d.id i ≡ false) cs) ((eq_bytes_iff c.id id).0 here)
          (absent c.id cs distinct.0) in
      rw here (ap (λ (ds : List Comment). f c ∷ ds) (sym (map-altered_absent id f cs others)))
  | inr later ↦ rw later (ap (λ (ds : List Comment). c ∷ ds) (alter_comment-map id f cs distinct.1))
]

find_comment-map :
    (f : Comment → Comment) (i : Bytes) (cs : List Comment)
    → ((c : Comment) → (f c).id ≡ c.id)
    → find_comment i (map f cs) ≡ Option.map f (find_comment i cs)
unfolding find_comment
find_comment-map f i [] k = refl
find_comment-map f i (c ∷ cs) k = elim (Bool-cases (has_id i c)) [
  | inl here ↦
      let here' : has_id i (f c) ≡ true = ap (λ (x : Bytes). eq_bytes x i) (k c) ∙ here in
      rw (here, here') refl
  | inr later ↦
      let later' : has_id i (f c) ≡ false = ap (λ (x : Bytes). eq_bytes x i) (k c) ∙ later in
      rw (later, later') (find_comment-map f i cs k)
]

-- Every comment is the one that its id finds.
pub found_by_id :
    (cs : List Comment) → HasDistinctIds cs → All (λ c. find_comment c.id cs ≡ some c) cs
unfolding find_comment
found_by_id [] distinct = tt
found_by_id (c ∷ cs) distinct = (
  rw (eq_bytes_refl c.id) refl,
  All-zip _ _ _ cs
      (λ d found other.
        let passed : eq_bytes c.id d.id ≡ false = eq_bytes_comm c.id d.id ∙ other in
        rw passed found)
      (found_by_id cs distinct.1) (absent c.id cs distinct.0),
)

All-of-map {κ} :
    (P : Comment → Type κ) (h : Comment → Comment) (cs : List Comment)
    → All (λ c. P (h c)) cs
    → All P (map h cs)
All-of-map P h [] k = tt
All-of-map P h (c ∷ cs) k = (k.0, All-of-map P h cs k.1)

-- What a change in place leaves alone.
pub record KeepsPlace (h : Comment → Comment) : Type 0 where
  pub keeps_id : (c : Comment) → (h c).id ≡ c.id
  pub keeps_thread : (c : Comment) → (h c).reply_to ≡ c.reply_to
  pub keeps_diff : (c : Comment) → (h c).diff_id ≡ c.diff_id

module _ (h : Comment → Comment) (k : KeepsPlace h) where
  distinct-map : (cs : List Comment) → HasDistinctIds cs → HasDistinctIds (map h cs)
  distinct-map [] d = tt
  distinct-map (c ∷ cs) d = (
    ap (λ (i : Bytes). find_comment i (map h cs)) (k.keeps_id c)
        ∙ find_comment-map h c.id cs k.keeps_id
        ∙ ap (Option.map h) d.0,
    distinct-map cs d.1,
  )

  -- The state of a thread stays that of its replies.
  abbrev pub KeepsState : List Comment → Comment → Type 0
  KeepsState cs d = (r : IsRooted cs d) → is_reply d ≡ true → (h r.root).resolved ≡ (h d).resolved

  pub map-IsThreaded :
      (n : ℕ) (cs : List Comment)
      → All (KeepsState cs) cs
      → IsThreaded n cs
      → IsThreaded n (map h cs)
  map-IsThreaded n cs states t = record {
    issued =
        All-of-map _ h cs (
          All-map _ _ cs (λ c i. subst (IsIssued comment_prefix n) (sym (k.keeps_id c)) i)
            t.issued);
    distinct = distinct-map cs t.distinct;
    anchored = All-of-map _ h cs (All-zip _ _ _ cs anchor t.anchored states);
  }
    where
      anchor : (d : Comment) → IsAnchored cs d → KeepsState cs d → IsAnchored (map h cs) (h d)
      anchor d anchored state reply =
          let reply' : is_reply d ≡ true =
            ap (λ (i : Bytes). not (is_empty i)) (sym (k.keeps_thread d)) ∙ reply in
          let r = anchored reply' in
          record {
            root = h r.root;
            there =
                ap (λ (i : Bytes). find_comment i (map h cs)) (k.keeps_thread d)
                ∙ find_comment-map h d.reply_to cs k.keeps_id
                ∙ ap (Option.map h) r.there;
            opens_thread =
                ap (λ (i : Bytes). not (is_empty i)) (k.keeps_thread r.root) ∙ r.opens_thread;
            same_state = state r reply';
            same_diff = k.keeps_diff r.root ∙ r.same_diff ∙ sym (k.keeps_diff d);
          }
