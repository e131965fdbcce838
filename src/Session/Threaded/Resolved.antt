-- ===== src/Session/Threaded/Resolved.antt =====
-- Well threaded comments and a thread that `UpdateComment` resolves or reopens.
use mathlib.Core.Option.{some-injective}
use mathlib.Core.Path.{subst}
use sbnn.Prelude.{
  All-map, Bool, Bool-cases, Bytes, List, Option-cases, [], ap, arith, false, if◌then◌else◌, inl,
  inr, map, not, refl, some, sym, true, ℕ, ◌∙◌, ◌∷◌, ◌≡◌,
}
use sbnn.Review.{Comment, is_reply}
use sbnn.Review.Threads.{opens}
use sbnn.Session.Comments.{resolve, resolve_thread, thread_root}
use sbnn.Session.Log.{find_comment, follow, has_id, set_thread_resolved}
use sbnn.Session.Threaded.{
  All-find_comment, IsAnchored, IsRooted, IsThreaded, find_comment-id, find_comment-named,
}
use sbnn.Session.Threaded.Changed.{
  KeepsPlace, alter_comment-map, altered, found_by_id, map-IsThreaded,
}
use sbnn.Text.{eq_bytes, eq_bytes_iff, is_empty}

pub found_itself :
    (id : Bytes) (cs : List Comment) {c : Comment}
    → find_comment id cs ≡ some c
    → find_comment c.id cs ≡ some c
found_itself id cs there =
    ap (λ (i : Bytes). find_comment i cs) (find_comment-id id cs there) ∙ there

-- `threadRoot` finds the comment that opens the thread.
pub thread_root-opens :
    (n : ℕ) (id : Bytes) (cs : List Comment) {root : Comment}
    → IsThreaded n cs
    → thread_root id cs ≡ some root
    → (find_comment root.id cs ≡ some root) × (is_reply root ≡ false)
unfolding thread_root
thread_root-opens n id cs {root} t e = elim (Option-cases (find_comment id cs)) [
  | inl unknown ↦ let found = rw (unknown, thread_root) at e in cc
  | inr (c, there) ↦ elim (Bool-cases (is_reply c)) [
    | inr alone ↦
        let same : c ≡ root = some-injective _ _ (rw (there, alone, thread_root) at e) in
        subst (λ (d : Comment). (find_comment d.id cs ≡ some d) × (is_reply d ≡ false)) same
          (found_itself id cs there, alone)
    | inl reply ↦
        let r = All-find_comment (IsAnchored cs) id cs t.anchored there reply in
        let same : r.root ≡ root =
          some-injective _ _ (rw (there, reply, r.there, thread_root) at e) in
        subst (λ (d : Comment). (find_comment d.id cs ≡ some d) × (is_reply d ≡ false)) same
          (found_itself c.reply_to cs r.there, r.opens_thread)
  ]
]

map-map : (f h : Comment → Comment) (cs : List Comment) → map f (map h cs) ≡ map (λ c. f (h c)) cs
map-map f h [] = refl
map-map f h (c ∷ cs) = ap (λ (ds : List Comment). f (h c) ∷ ds) (map-map f h cs)

-- What `UpdateComment` does to every comment of a group when it resolves or reopens a thread.
abbrev resolved_as : Bool → ℕ → Comment → Comment → Comment
resolved_as b now root c = follow (resolve b now root) (altered root.id (resolve b now) c)

resolved_as-KeepsPlace : (b : Bool) (now : ℕ) (root : Comment) → KeepsPlace (resolved_as b now root)
resolved_as-KeepsPlace b now root = record {
  keeps_id = λ c. ground arith;
  keeps_thread = λ c. ground arith;
  keeps_diff = λ c. ground arith;
}

resolved_as-resolved :
    (b : Bool) (now : ℕ) (root c : Comment)
    → (resolved_as b now root c).resolved
      ≡ (if has_id root.id c then b else if eq_bytes c.reply_to root.id then b else c.resolved)
resolved_as-resolved b now root c = ground arith

module _ (n : ℕ) (cs : List Comment) (t : IsThreaded n cs) {root : Comment} where
  -- A comment that opens a thread does not reply to this one.
  apart :
      (c : Comment)
      → find_comment root.id cs ≡ some root
      → is_reply c ≡ false
      → eq_bytes c.reply_to root.id ≡ false
  apart c there opens = elim (Bool-cases (eq_bytes c.reply_to root.id)) [
    | inr other ↦ other
    | inl same ↦
        let named = find_comment-named n root.id cs t.issued there in
        let nameless : is_reply c ≡ true =
          ap (λ (i : Bytes). not (is_empty i)) ((eq_bytes_iff c.reply_to root.id).0 same)
          ∙ ap not named in
        cc
  ]

  -- A reply is not the comment that opens the thread.
  distinct_root :
      (d : Comment)
      → find_comment root.id cs ≡ some root
      → is_reply root ≡ false
      → find_comment d.id cs ≡ some d
      → is_reply d ≡ true
      → has_id root.id d ≡ false
  distinct_root d there opens self reply = elim (Bool-cases (has_id root.id d)) [
    | inr other ↦ other
    | inl same ↦
        let is_root : d ≡ root = some-injective _ _ (
          sym self
          ∙ ap (λ (i : Bytes). find_comment i cs) ((eq_bytes_iff d.id root.id).0 same)
          ∙ there) in
        let contrary : is_reply d ≡ false = ap is_reply is_root ∙ opens in cc
  ]

  resolved_as-KeepsState :
      (b : Bool) (now : ℕ)
      → find_comment root.id cs ≡ some root
      → is_reply root ≡ false
      → (d : Comment) → find_comment d.id cs ≡ some d
      → (r : IsRooted cs d) → is_reply d ≡ true
      → (resolved_as b now root r.root).resolved ≡ (resolved_as b now root d).resolved
  resolved_as-KeepsState b now there opens d self r reply =
      rw
        (
          resolved_as-resolved b now root r.root,
          resolved_as-resolved b now root d,
          apart r.root there r.opens_thread,
          distinct_root d there opens self reply,
          find_comment-id d.reply_to cs r.there,
          r.same_state,
        )
        refl

  pub resolve_thread-IsThreaded :
      (b : Bool) (now : ℕ)
      → find_comment root.id cs ≡ some root
      → is_reply root ≡ false
      → IsThreaded n (resolve_thread b now root cs)
  unfolding resolve_thread set_thread_resolved
  resolve_thread-IsThreaded b now there opens =
      rw
        (
          alter_comment-map root.id (resolve b now) cs t.distinct,
          map-map (follow (resolve b now root)) (altered root.id (resolve b now)) cs,
        )
        (map-IsThreaded (resolved_as b now root) (resolved_as-KeepsPlace b now root) n cs
          (All-map _ _ cs (resolved_as-KeepsState b now there opens) (found_by_id cs t.distinct)) t)
