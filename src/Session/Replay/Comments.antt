-- ===== src/Session/Replay/Comments.antt =====
-- Lemmas on the replay of a record over the comments of one group.
use mathlib.Core.Path.{ap₂}
use mathlib.Core.Option.{some-injective}
use sbnn.Prelude.{
  All, All-append, All-map, All-zip, Bool, Bool-cases, Bytes, List, [], ap, arith, false, inl, inr,
  keep, none, not, refl, some, sym, true, ℕ, ◌++◌, ◌∙◌, ◌∷◌, ◌≡◌,
}
use sbnn.Review.{Comment, is_reply}
use sbnn.Review.Threads.{opens}
use sbnn.Session.Comments.{ids_of, resolve, resolve_thread}
use sbnn.Session.Log.{
  alter_comment, find_comment, follow, has_id, listed, put_comment, replay_comment,
  set_thread_resolved,
}
use sbnn.Session.Threaded.{
  All-alter_comment, HasDistinctIds, IsAnchored, IsThreaded, absent, find_comment-id,
  find_comment-named,
}
use sbnn.Text.{eq_bytes, eq_bytes_comm, eq_bytes_iff, eq_bytes_refl, is_empty}

-- On replay a comment goes where the method changed it.
pub put_comment-alter_comment :
    (id : Bytes) (f : Comment → Comment) (c : Comment) (cs : List Comment) {d : Comment}
    → find_comment id cs ≡ some d
    → f d ≡ c
    → c.id ≡ id
    → put_comment c cs ≡ alter_comment id f cs
unfolding put_comment alter_comment find_comment
put_comment-alter_comment id f c [] e same same_id = cc
put_comment-alter_comment id f c (x ∷ cs) {d} e same same_id = elim (Bool-cases (has_id id x)) [
  | inl here ↦
      let x_is_d : x ≡ d = some-injective _ _ (rw (here, find_comment) at e) in
      let here' : has_id c.id x ≡ true = ap (λ (i : Bytes). eq_bytes x.id i) same_id ∙ here in
      rw (here, here') (ap (λ (y : Comment). y ∷ cs) (sym same ∙ ap f (sym x_is_d)))
  | inr later ↦
      let later' : has_id c.id x ≡ false = ap (λ (i : Bytes). eq_bytes x.id i) same_id ∙ later in
      rw (later, later')
        (ap (λ (ys : List Comment). x ∷ ys)
          (put_comment-alter_comment id f c cs (rw (later, find_comment) at e) same same_id))
]

put_comment-fresh :
    (c : Comment) (cs : List Comment)
    → find_comment c.id cs ≡ none
    → put_comment c cs ≡ cs ++ c ∷ []
unfolding put_comment find_comment
put_comment-fresh c [] e = refl
put_comment-fresh c (x ∷ cs) e = ground (arith, put_comment-fresh c cs)

-- Where no comment replies to it otherwise than in its state, setting the state of its replies
-- changes nothing.
set_thread_resolved-eq_self :
    (root : Comment) (cs : List Comment)
    → All (λ c. eq_bytes c.reply_to root.id ≡ true → c.resolved ≡ root.resolved) cs
    → set_thread_resolved root cs ≡ cs
unfolding set_thread_resolved
set_thread_resolved-eq_self root [] h = refl
set_thread_resolved-eq_self root (c ∷ cs) h =
    ap₂ (λ (x : Comment) (xs : List Comment). x ∷ xs) (follows c h.0)
      (set_thread_resolved-eq_self root cs h.1)
  where
    follows :
        (c : Comment)
        → (eq_bytes c.reply_to root.id ≡ true → c.resolved ≡ root.resolved)
        → follow root c ≡ c
    follows c h = elim (Bool-cases (eq_bytes c.reply_to root.id)) [
      | inl reply ↦ rw reply (ap (λ (b : Bool). record c { resolved = b }) (sym (h reply)))
      | inr other ↦ rw other refl
    ]

-- A comment of a new id has no replies.
no_replies :
    (cs : List Comment) (id : Bytes) (d : Comment)
    → find_comment id cs ≡ none
    → is_empty id ≡ false
    → IsAnchored cs d
    → eq_bytes d.reply_to id ≡ true
    → ⊥
no_replies cs id d fresh named anchored same =
    let replies_to : d.reply_to ≡ id = (eq_bytes_iff d.reply_to id).0 same in
    let reply : is_reply d ≡ true =
      ap (λ (i : Bytes). not (is_empty i)) replies_to ∙ ap not named in
    let rooted = anchored reply in
    let found : find_comment id cs ≡ some rooted.root =
      ap (λ (i : Bytes). find_comment i cs) (sym replies_to) ∙ rooted.there in
    cc

module _ (n : ℕ) (cs : List Comment) (threaded : IsThreaded n cs) where
  -- A comment under a new id is replayed at the end of the others.
  pub replay-new :
      (c : Comment)
      → find_comment c.id cs ≡ none
      → is_empty c.id ≡ false
      → replay_comment c cs ≡ cs ++ c ∷ []
  unfolding replay_comment
  replay-new c fresh named = elim (Bool-cases (is_reply c)) [
    | inl reply ↦ rw reply (put_comment-fresh c cs fresh)
    | inr root ↦
        rw (root, put_comment-fresh c cs fresh)
          (set_thread_resolved-eq_self c (cs ++ c ∷ []) (
            All-append _ cs (c ∷ [])
              (All-map _ _ cs
                (λ d anchored same. absurd (no_replies cs c.id d fresh named anchored same))
                threaded.anchored)
              (λ same. refl, tt)))
  ]

  -- A comment that keeps its id and its thread is replayed in its place.
  pub replay-edited :
      (id : Bytes) (f : Comment → Comment) {c : Comment}
      → find_comment id cs ≡ some c
      → (f c).id ≡ c.id
      → (f c).reply_to ≡ c.reply_to
      → (f c).resolved ≡ c.resolved
      → replay_comment (f c) cs ≡ alter_comment id f cs
  unfolding replay_comment
  replay-edited id f {c} there same_id same_thread same_state = elim (Bool-cases (is_reply (f c))) [
    | inl reply ↦ rw reply put
    | inr root ↦
        rw (root, put)
          (set_thread_resolved-eq_self (f c) (alter_comment id f cs) (
            All-alter_comment _ id f cs there (All-map _ _ cs in_step threaded.anchored)
              (λ same. refl)))
  ]
    where
      put : put_comment (f c) cs ≡ alter_comment id f cs
      put =
          put_comment-alter_comment id f (f c) cs there refl (same_id ∙ find_comment-id id cs there)

      in_step :
          (d : Comment)
          → IsAnchored cs d
          → eq_bytes d.reply_to (f c).id ≡ true
          → d.resolved ≡ (f c).resolved
      in_step d anchored same =
          let replies_to : d.reply_to ≡ id =
            (eq_bytes_iff d.reply_to (f c).id).0 same ∙ same_id ∙ find_comment-id id cs there in
          let named : is_empty id ≡ false = find_comment-named n id cs threaded.issued there in
          let reply : is_reply d ≡ true =
            ap (λ (i : Bytes). not (is_empty i)) replies_to ∙ ap not named in
          let rooted = anchored reply in
          let is_c : rooted.root ≡ c =
            some-injective _ _
              (sym rooted.there ∙ ap (λ (i : Bytes). find_comment i cs) replies_to ∙ there) in
          sym rooted.same_state ∙ ap (λ (x : Comment). x.resolved) is_c ∙ sym same_state

  -- A thread is resolved or reopened by the record of the comment that opens it.
  pub replay-resolved :
      (b : Bool) (now : ℕ) {root : Comment}
      → find_comment root.id cs ≡ some root
      → is_reply root ≡ false
      → replay_comment (resolve b now root) cs ≡ resolve_thread b now root cs
  unfolding replay_comment resolve_thread
  replay-resolved b now {root} there opens = rw (
    opens,
    put_comment-alter_comment root.id (resolve b now) (resolve b now root) cs there refl refl,
  )

listed-absent :
    (p : Comment → Bool) (id : Bytes) (cs : List Comment)
    → All (λ c. eq_bytes c.id id ≡ false) cs
    → listed (ids_of (keep p cs)) id ≡ false
listed-absent p id [] h = refl
listed-absent p id (c ∷ cs) h =
    ground (arith, h.0, eq_bytes_comm c.id id, listed-absent p id cs h.1)

-- The ids of the comments that are dropped are those of no other comment.
listed-ids_of :
    (p : Comment → Bool) (cs : List Comment)
    → HasDistinctIds cs
    → All (λ c. listed (ids_of (keep p cs)) c.id ≡ p c) cs
listed-ids_of p [] distinct = tt
listed-ids_of p (x ∷ xs) distinct =
    let others = absent x.id xs distinct.0 in
    let not_x = listed-absent p x.id xs others in
    (
      ground (arith, not_x, eq_bytes_refl x.id),
      All-zip _ _ _ xs (λ c same other. ground (arith, same, other)) (listed-ids_of p xs distinct.1)
          others,
    )

keep-cong {ℓ} :
    {A : Type ℓ} (p q : A → Bool) (xs : List A) → All (λ x. p x ≡ q x) xs → keep p xs ≡ keep q xs
keep-cong p q [] h = refl
keep-cong p q (x ∷ xs) h = ground (arith, h.0, keep-cong p q xs)

-- Dropping by the ids in the record is dropping by the test that chose them.
pub drop_comments-eq :
    (p : Comment → Bool) (cs : List Comment)
    → HasDistinctIds cs
    → keep (λ c. not (listed (ids_of (keep p cs)) c.id)) cs ≡ keep (λ c. not (p c)) cs
drop_comments-eq p cs distinct =
    keep-cong _ _ cs (All-map _ _ cs (λ c same. ap not same) (listed-ids_of p cs distinct))
