-- ===== src/History/Kept.antt =====
-- Proofs about `FromGroup`: what a record keeps of the comments.
use sbnn.History.{comment_of, from_group, record_comments}
use sbnn.Prelude.{
  Bool-cases, Bytes, List, [], any, arith, inl, inr, keep, length, length-append, length-map, map,
  refl, suc, true, ℕ, ◌+◌, ◌∙◌, ◌∷◌, ◌≡◌,
}
use sbnn.Review.{Comment, Group}
use sbnn.Review.Threads.{Thread, attach, attach_all, is_attached, opened, opens, threads}
use sbnn.Review.Threads.Filed.{attach-opens, opened-opens}

-- How many comments some threads hold.
abbrev total : List Thread → ℕ
total [] = 0
total (t ∷ ts) = suc (length t.replies) + total ts

attach-total :
    (c : Comment) (ts : List Thread)
    → any (opens c.reply_to) ts ≡ true
    → total (attach c ts) ≡ suc (total ts)
unfolding attach
attach-total c [] h = cc
attach-total c (t ∷ ts) h = elim (Bool-cases (any (opens c.reply_to) ts)) [
  | inl later ↦ rw later (omega (arith, attach-total c ts later))
  | inr here ↦
      let opens_it : opens c.reply_to t ≡ true = ground (arith, h, here) in
      rw (here, opens_it) (omega (arith, length-append t.replies (c ∷ [])))
]

attach-keeps_open :
    (i : Bytes) (c : Comment) (ts : List Thread)
    → any (opens i) ts ≡ true
    → any (opens i) (attach c ts) ≡ true
attach-keeps_open i c ts h = attach-opens i c ts ∙ h

attach_all-total :
    (all cs : List Comment) (ts : List Thread)
    → ((c : Comment) → is_attached all c ≡ true → any (opens c.reply_to) ts ≡ true)
    → total (attach_all all cs ts) ≡ total ts + length (keep (is_attached all) cs)
unfolding attach_all
attach_all-total all [] ts h = omega arith
attach_all-total all (c ∷ cs) ts h = elim (Bool-cases (is_attached all c)) [
  | inl attached ↦ rw attached (
      omega (
        arith,
        attach-total c ts (h c attached),
        attach_all-total all cs (attach c ts) (λ d a. attach-keeps_open d.reply_to c ts (h d a)),
      ))
  | inr other ↦ rw other (attach_all-total all cs ts h)
]

opened-total :
    (all cs : List Comment) → total (opened all cs) + length (keep (is_attached all) cs) ≡ length cs
unfolding opened
opened-total all [] = refl
opened-total all (c ∷ cs) = elim (Bool-cases (is_attached all c)) [
  | inl attached ↦ rw attached (omega (arith, opened-total all cs))
  | inr other ↦ rw other (omega (arith, opened-total all cs))
]

threads-total : (cs : List Comment) → total (threads cs) ≡ length cs
unfolding threads
threads-total cs =
    attach_all-total cs cs (opened cs cs) (λ c a. opened-opens cs c.reply_to cs (ground (arith, a)))
    ∙ opened-total cs cs

length-record_comments : (ts : List Thread) → length (record_comments ts) ≡ total ts
unfolding record_comments
length-record_comments [] = refl
length-record_comments (t ∷ ts) = omega (
  arith,
  length-append (comment_of t.root ∷ map comment_of t.replies) (record_comments ts),
  length-map comment_of t.replies,
  length-record_comments ts,
)

-- The record of a review has as many comments as the group, whether a reply has its thread or not.
pub length-from_group : (g : Group) → length (from_group g).comments ≡ length g.comments
unfolding from_group
length-from_group g = length-record_comments (threads g.comments) ∙ threads-total g.comments
