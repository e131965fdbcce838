-- ===== src/Session/Threaded/Cleared.antt =====
-- Well threaded comments and the threads that `ClearComments` removes.
use mathlib.Core.Path.{subst}
use mathlib.Core.Option.{some-injective}
use mathlib.Core.List.{flat_map}
use sbnn.Prelude.{
  All, All-map, Bool, Bool-cases, Bytes, List, [], any, ap, arith, false, inl, inr, keep, not, refl,
  some, sym, true, ℕ, ◌&&◌, ◌++◌, ◌||◌, ◌∙◌, ◌∷◌, ◌≡◌,
}
use sbnn.Review.{Comment, is_reply}
use sbnn.Review.Threads.{Thread, is_attached, is_root_id, opens, threads}
use sbnn.Review.Threads.Filed.{Holds, IsFiled, files_under, threads-Holds, threads-IsFiled}
use sbnn.Session.Comments.{cleared, gone_ids, ids_of, thread_ids}
use sbnn.Session.Log.{find_comment, has_id, listed}
use sbnn.Session.Threaded.{All-find_comment, IsThreaded, find_comment-id, find_comment-named}
use sbnn.Session.Threaded.Changed.{found_by_id}
use sbnn.Session.Threaded.Kept.{KeepsRoots}
use sbnn.Session.Threaded.Resolved.{found_itself}
use sbnn.Text.{eq_bytes, eq_bytes_comm, eq_bytes_iff}

-- A root that is found opens a thread.
root-found :
    (i : Bytes) (cs : List Comment) {root : Comment}
    → find_comment i cs ≡ some root
    → is_reply root ≡ false
    → is_root_id cs i ≡ true
unfolding find_comment is_root_id
root-found i [] there opens = cc
root-found i (c ∷ cs) {root} there opens = elim (Bool-cases (has_id i c)) [
  | inl here ↦
      let same : c ≡ root = some-injective _ _ (rw (here, find_comment) at there) in
      let opens' : is_reply c ≡ false = ap is_reply same ∙ opens in rw (opens', here) refl
  | inr later ↦
      let rest = root-found i cs (rw (later, find_comment) at there) opens in
      ground (arith, later, rest)
]

-- The ids of one thread and those behind it.
listed-append :
    (xs ys : List Bytes) (i : Bytes) → listed (xs ++ ys) i ≡ (listed xs i || listed ys i)
listed-append [] ys i = refl
listed-append (x ∷ xs) ys i = ground (arith, listed-append xs ys i)

and-true : (a b : Bool) → (a && b) ≡ true → (a ≡ true) × (b ≡ true)
and-true true b h = (refl, h)
and-true false b h = cc

listed-replies :
    (id : Bytes) (cs : List Comment)
    → any (λ (c : Comment). eq_bytes c.id id) cs ≡ true
    → listed (ids_of cs) id ≡ true
listed-replies id [] h = cc
listed-replies id (c ∷ cs) h = ground (arith, listed-replies id cs, eq_bytes_comm c.id id)

abbrev ids_cleared : Bool → List Thread → List Bytes
ids_cleared resolved_only ts = flat_map thread_ids (keep (cleared resolved_only) ts)

listed-cleared :
    (resolved_only : Bool) (x : Thread) (ts : List Thread) (i : Bytes)
    → listed (ids_cleared resolved_only (x ∷ ts)) i ≡ (
        cleared resolved_only x && listed (thread_ids x) i
        || listed (ids_cleared resolved_only ts) i)
unfolding flat_map eq_bytes
listed-cleared resolved_only x ts i = elim (Bool-cases (cleared resolved_only x)) [
  | inl goes ↦ rw goes (listed-append (thread_ids x) (ids_cleared resolved_only ts) i)
  | inr stays ↦ rw stays refl
]

module _ (n : ℕ) (cs : List Comment) (t : IsThreaded n cs) (resolved_only : Bool) where
  -- A thread as `Threads` returns it.
  abbrev IsThread : Thread → Type 0
  IsThread =
      Holds (λ c. find_comment c.id cs ≡ some c)
        (λ c. (find_comment c.id cs ≡ some c) × (is_reply c ≡ true))

  threads-IsThread : All IsThread (threads cs)
  threads-IsThread =
      let found = found_by_id cs t.distinct in
      threads-Holds _ _ cs found (All-map _ _ cs (λ c f reply. (f, reply)) found)

  not_a_reply :
      (root : Comment) (ds : List Comment)
      → find_comment root.id cs ≡ some root
      → is_reply root ≡ false
      → All (λ c. (find_comment c.id cs ≡ some c) × (is_reply c ≡ true)) ds
      → listed (ids_of ds) root.id ≡ false
  not_a_reply root [] self opens h = refl
  not_a_reply root (d ∷ ds) self opens h = elim (Bool-cases (eq_bytes root.id d.id)) [
    | inr other ↦ rw (other, not_a_reply root ds self opens h.1) refl
    | inl same ↦
        let is_root : root ≡ d = some-injective _ _ (
          sym self
          ∙ ap (λ (i : Bytes). find_comment i cs) ((eq_bytes_iff root.id d.id).0 same)
          ∙ h.0.0) in
        let contrary : is_reply root ≡ true = ap is_reply is_root ∙ h.0.1 in cc
  ]

  module _ (root : Comment) (self : find_comment root.id cs ≡ some root)
      (opens : is_reply root ≡ false) where
    abbrev root_cleared : Bool
    root_cleared = not (resolved_only && not root.resolved)

    its_thread :
        (x : Thread)
        → IsThread x
        → eq_bytes x.root.id root.id ≡ true
        → cleared resolved_only x ≡ root_cleared
    its_thread x k same =
        let is_root : x.root ≡ root = some-injective _ _ (
          sym k.0
          ∙ ap (λ (i : Bytes). find_comment i cs) ((eq_bytes_iff x.root.id root.id).0 same)
          ∙ self) in
        ap (λ (c : Comment). not (resolved_only && not c.resolved)) is_root

    -- Only its own thread takes the root along.
    root-IsCleared :
        (ts : List Thread)
        → All IsThread ts
        → listed (ids_cleared resolved_only ts) root.id ≡ true
        → root_cleared ≡ true
    unfolding flat_map
    root-IsCleared [] h l = let no : false ≡ true = l in cc
    root-IsCleared (x ∷ ts) h l = elim (Bool-cases (eq_bytes x.root.id root.id)) [
      | inl same ↦ elim (Bool-cases (cleared resolved_only x)) [
        | inl goes ↦ sym (its_thread x h.0 same) ∙ goes
        | inr stays ↦
            root-IsCleared ts h.1
              (rw stays at (sym (listed-cleared resolved_only x ts root.id) ∙ l))
      ]
      | inr other ↦
          let none_listed : listed (thread_ids x) root.id ≡ false =
            rw (eq_bytes_comm root.id x.root.id ∙ other)
              (not_a_reply root x.replies self opens h.0.1) in
          root-IsCleared ts h.1
            (ground (arith, l, none_listed, listed-cleared resolved_only x ts root.id))
    ]

    -- A reply goes with its thread.
    reply-IsCleared :
        (id : Bytes) (ts : List Thread)
        → All IsThread ts
        → root_cleared ≡ true
        → any (files_under root.id id) ts ≡ true
        → listed (ids_cleared resolved_only ts) id ≡ true
    reply-IsCleared id [] h k f = let no : false ≡ true = f in cc
    reply-IsCleared id (x ∷ ts) h k f = elim (Bool-cases (files_under root.id id x)) [
      | inr other ↦
          let rest = reply-IsCleared id ts h.1 k (rw other at f) in
          ground (arith, rest, listed-cleared resolved_only x ts id)
      | inl filed ↦
          let (same, among) = and-true (eq_bytes x.root.id root.id) _ filed in
          let goes : cleared resolved_only x ≡ true = its_thread x h.0 same ∙ k in
          let there = listed-replies id x.replies among in
          ground (arith, goes, there, listed-cleared resolved_only x ts id)
    ]

  -- No reply is left when its thread is cleared.
  pub cleared-KeepsRoots : KeepsRoots (λ c. not (listed (gone_ids resolved_only cs) c.id)) cs
  unfolding gone_ids
  cleared-KeepsRoots d self r kept =
      elim (Bool-cases (listed (ids_cleared resolved_only (threads cs)) r.root.id)) [
        | inr left ↦ rw left refl
        | inl gone ↦
            let id : r.root.id ≡ d.reply_to = find_comment-id d.reply_to cs r.there in
            let found = found_itself d.reply_to cs r.there in
            let named = find_comment-named n d.reply_to cs t.issued r.there in
            let attached : is_attached cs d ≡ true =
              rw (named, root-found d.reply_to cs r.there r.opens_thread) refl in
            let filed =
              All-find_comment (IsFiled cs (threads cs)) d.id cs (threads-IsFiled cs) self
                attached in
            let goes =
              reply-IsCleared r.root found r.opens_thread d.id (threads cs) threads-IsThread
                (root-IsCleared r.root found r.opens_thread (threads cs) threads-IsThread gone)
                (subst (λ (i : Bytes). any (files_under i d.id) (threads cs) ≡ true) (sym id)
                  filed) in
            let no : false ≡ true = ap not (sym goes) ∙ kept in cc
      ]
