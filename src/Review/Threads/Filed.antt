-- ===== src/Review/Threads/Filed.antt =====
-- Proofs about `Threads`: which comments are among the replies of which thread.
use sbnn.Prelude.{
  All, All-append, All-map, Bool, Bool-cases, Bytes, List, [], any, arith, if◌then◌else◌, inl, inr,
  refl, true, ◌&&◌, ◌++◌, ◌||◌, ◌∙◌, ◌∷◌, ◌≡◌,
}
use sbnn.Review.{Comment, is_reply}
use sbnn.Review.Threads.{
  Thread, attach, attach_all, is_attached, is_root_id, opened, opens, threads,
}
use sbnn.Text.{eq_bytes, eq_bytes_refl}

-- Is the reply among those of a thread that the comment of this id opens?
abbrev pub files_under : Bytes → Bytes → Thread → Bool
files_under root id t = eq_bytes t.root.id root && any (λ (c : Comment). eq_bytes c.id id) t.replies

pub any-append {ℓ} :
    {A : Type ℓ} (p : A → Bool) (xs ys : List A) → any p (xs ++ ys) ≡ (any p xs || any p ys)
any-append p [] ys = refl
any-append p (x ∷ xs) ys = ground (arith, any-append p xs ys)

pub attach-opens :
    (i : Bytes) (c : Comment) (ts : List Thread) → any (opens i) (attach c ts) ≡ any (opens i) ts
unfolding attach
attach-opens i c [] = refl
attach-opens i c (t ∷ ts) = ground (arith, attach-opens i c ts)

attach-files :
    (root id : Bytes) (c : Comment) (ts : List Thread)
    → any (files_under root id) ts ≡ true
    → any (files_under root id) (attach c ts) ≡ true
unfolding attach
attach-files root id c [] h = cc
attach-files root id c (t ∷ ts) h = ground (
  arith,
  attach-files root id c ts,
  any-append (λ (d : Comment). eq_bytes d.id id) t.replies (c ∷ []),
)

attach-filed :
    (c : Comment) (ts : List Thread)
    → any (opens c.reply_to) ts ≡ true
    → any (files_under c.reply_to c.id) (attach c ts) ≡ true
unfolding attach
attach-filed c [] h = cc
attach-filed c (t ∷ ts) h = ground (
  arith,
  attach-filed c ts,
  eq_bytes_refl c.id,
  any-append (λ (d : Comment). eq_bytes d.id c.id) t.replies (c ∷ []),
)

module _ (all : List Comment) where
  attach_all-files :
      (root id : Bytes) (cs : List Comment) (ts : List Thread)
      → any (files_under root id) ts ≡ true
      → any (files_under root id) (attach_all all cs ts) ≡ true
  unfolding attach_all
  attach_all-files root id [] ts h = h
  attach_all-files root id (c ∷ cs) ts h = elim (Bool-cases (is_attached all c)) [
    | inl attached ↦
        rw attached (attach_all-files root id cs (attach c ts) (attach-files root id c ts h))
    | inr other ↦ rw other (attach_all-files root id cs ts h)
  ]

  -- The thread of an attached comment is there.
  abbrev HasThread : List Thread → Comment → Type 0
  HasThread ts c = is_attached all c ≡ true → any (opens c.reply_to) ts ≡ true

  abbrev pub IsFiled : List Thread → Comment → Type 0
  IsFiled ts c = is_attached all c ≡ true → any (files_under c.reply_to c.id) ts ≡ true

  attach_all-IsFiled :
      (cs : List Comment) (ts : List Thread)
      → All (HasThread ts) cs
      → All (IsFiled (attach_all all cs ts)) cs
  unfolding attach_all
  attach_all-IsFiled [] ts h = tt
  attach_all-IsFiled (c ∷ cs) ts h = (
    (λ a. rw a (attach_all-files c.reply_to c.id cs (attach c ts) (attach-filed c ts (h.0 a)))),
    attach_all-IsFiled cs (if is_attached all c then attach c ts else ts)
        (All-map _ _ cs (λ d k a. step d.reply_to ∙ k a) h.1),
  )
    where
      step :
          (i : Bytes)
          → any (opens i) (if is_attached all c then attach c ts else ts) ≡ any (opens i) ts
      step i = elim (Bool-cases (is_attached all c)) [
        | inl attached ↦ rw attached (attach-opens i c ts)
        | inr other ↦ rw other refl
      ]

  pub opened-opens :
      (i : Bytes) (cs : List Comment)
      → is_root_id cs i ≡ true
      → any (opens i) (opened all cs) ≡ true
  unfolding opened is_root_id
  opened-opens i [] h = cc
  opened-opens i (c ∷ cs) h = ground (arith, opened-opens i cs)

pub threads-IsFiled : (cs : List Comment) → All (IsFiled cs (threads cs)) cs
unfolding threads
threads-IsFiled cs = attach_all-IsFiled cs cs (opened cs cs) (there cs)
  where
    there : (ds : List Comment) → All (HasThread cs (opened cs cs)) ds
    there [] = tt
    there (d ∷ ds) = ((λ a. opened-opens cs d.reply_to cs (ground (arith, a))), there ds)

-- What holds of the comments that open a thread, and of the replies.
module _ {κ} (P Q : Comment → Type κ) where
  abbrev pub Holds : Thread → Type κ
  Holds t = P t.root × All Q t.replies

  opened-Holds : (all cs : List Comment) → All P cs → All Holds (opened all cs)
  unfolding opened
  opened-Holds all [] h = tt
  opened-Holds all (c ∷ cs) h = elim (Bool-cases (is_attached all c)) [
    | inl attached ↦ rw attached (opened-Holds all cs h.1)
    | inr alone ↦ rw alone ((h.0, tt), opened-Holds all cs h.1)
  ]

  attach-Holds : (c : Comment) (ts : List Thread) → Q c → All Holds ts → All Holds (attach c ts)
  unfolding attach
  attach-Holds c [] q h = tt
  attach-Holds c (t ∷ ts) q h = elim (Bool-cases (any (opens c.reply_to) ts)) [
    | inl later ↦ rw later (h.0, attach-Holds c ts q h.1)
    | inr here ↦ elim (Bool-cases (opens c.reply_to t)) [
      | inl opened ↦ rw (here, opened) ((h.0.0, All-append Q t.replies (c ∷ []) h.0.1 (q, tt)), h.1)
      | inr other ↦ rw (here, other) h
    ]
  ]

  attach_all-Holds :
      (all cs : List Comment) (ts : List Thread)
      → All (λ c. is_reply c ≡ true → Q c) cs
      → All Holds ts
      → All Holds (attach_all all cs ts)
  unfolding attach_all
  attach_all-Holds all [] ts q h = h
  attach_all-Holds all (c ∷ cs) ts q h = elim (Bool-cases (is_attached all c)) [
    | inl attached ↦ rw attached (
        attach_all-Holds all cs (attach c ts) q.1
          (attach-Holds c ts (q.0 (ground (arith, attached))) h))
    | inr other ↦ rw other (attach_all-Holds all cs ts q.1 h)
  ]

  pub threads-Holds :
      (cs : List Comment)
      → All P cs
      → All (λ c. is_reply c ≡ true → Q c) cs
      → All Holds (threads cs)
  unfolding threads
  threads-Holds cs p q = attach_all-Holds cs cs (opened cs cs) q (opened-Holds cs cs p)
