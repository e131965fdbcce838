-- ===== src/Review/Threads/Gathered.antt =====
-- Proofs about `Threads`: the replies of each thread, and the comments that open one.
use sbnn.Prelude.{
  All, Bool, Bool-cases, Bytes, List, [], any, ap, append-nil, append_assoc, arith, false,
  if◌then◌else◌, inl, inr, keep, map, not, refl, sym, true, ◌&&◌, ◌++◌, ◌∙◌, ◌∷◌, ◌≡◌,
}
use sbnn.Review.{Comment, is_reply}
use sbnn.Review.Threads.{
  Thread, attach, attach_all, is_attached, is_root_id, opened, opens, threads,
}
use sbnn.Review.Threads.Filed.{attach-opens, opened-opens}
use sbnn.Text.{eq_bytes, eq_bytes_iff}

-- Is this the id of the comment, and the comment no reply?
abbrev pub begins : Bytes → Comment → Bool
begins i d = not (is_reply d) && eq_bytes d.id i

-- Is this a reply to a comment that is there and is no reply itself?
abbrev pub has_parent : List Comment → Comment → Bool
has_parent cs c = is_reply c && any (begins c.reply_to) cs

-- The replies of the threads that a comment of this id begins, in their order.
unfoldable pub gathered : Bytes → List Thread → List Comment
unfolding eq_bytes
gathered i [] = []
gathered i (t ∷ ts) = if begins i t.root then t.replies ++ gathered i ts else gathered i ts

gathered-none : (i : Bytes) (ts : List Thread) → any (opens i) ts ≡ false → gathered i ts ≡ []
unfolding gathered
gathered-none i [] h = refl
gathered-none i (t ∷ ts) h =
    let first : opens i t ≡ false = ground (arith, h) in
    rw first (gathered-none i ts (ground (arith, h)))

gathered-attach_other :
    (i : Bytes) (c : Comment) (ts : List Thread)
    → eq_bytes c.reply_to i ≡ false
    → gathered i (attach c ts) ≡ gathered i ts
unfolding gathered attach
gathered-attach_other i c [] h = refl
gathered-attach_other i c (t ∷ ts) h =
    let rec = gathered-attach_other i c ts h in
    elim (Bool-cases (any (opens c.reply_to) ts)) [
      | inl later ↦ rw (later, rec) refl
      | inr here ↦ elim (Bool-cases (opens c.reply_to t)) [
        | inl opened ↦
            let named : t.root.id ≡ c.reply_to =
              (eq_bytes_iff t.root.id c.reply_to).0 (ground (arith, opened)) in
            let differs : opens i t ≡ false =
              ground (arith, ap (λ (x : Bytes). eq_bytes x i) named, h) in
            rw (here, opened, differs) refl
        | inr other ↦ rw (here, other) refl
      ]
    ]

gathered-attach :
    (c : Comment) (ts : List Thread)
    → any (opens c.reply_to) ts ≡ true
    → gathered c.reply_to (attach c ts) ≡ gathered c.reply_to ts ++ c ∷ []
unfolding gathered attach
gathered-attach c [] h = cc
gathered-attach c (t ∷ ts) h = elim (Bool-cases (any (opens c.reply_to) ts)) [
  | inl later ↦ elim (Bool-cases (opens c.reply_to t)) [
    | inl same ↦
        rw (later, same, gathered-attach c ts later)
          (sym (append_assoc t.replies (gathered c.reply_to ts) (c ∷ [])))
    | inr differs ↦ rw (later, differs) (gathered-attach c ts later)
  ]
  | inr here ↦
      let opened : opens c.reply_to t ≡ true = ground (arith, h, here) in
      rw (here, opened, gathered-none c.reply_to ts here, opened)
        (append-nil (t.replies ++ c ∷ [])
          ∙ ap (λ (r : List Comment). r ++ c ∷ []) (sym (append-nil t.replies)))
]

-- The replies to this id that have a parent.
abbrev pub answers : List Comment → Bytes → Comment → Bool
answers all i c = has_parent all c && eq_bytes c.reply_to i

-- Every reply that has a parent has its thread.
abbrev HasThreads : List Comment → List Thread → Type 0
HasThreads all ts = (c : Comment) → is_attached all c ≡ true → any (opens c.reply_to) ts ≡ true

gathered-step :
    (all : List Comment) (i : Bytes) (c : Comment) (ts : List Thread)
    → is_attached all c ≡ true
    → HasThreads all ts
    → gathered i (attach c ts) ≡ gathered i ts ++ (if eq_bytes c.reply_to i then c ∷ [] else [])
gathered-step all i c ts attached there = elim (Bool-cases (eq_bytes c.reply_to i)) [
  | inl same ↦
      let named : c.reply_to ≡ i = (eq_bytes_iff c.reply_to i).0 same in
      rw (same, ← named) (gathered-attach c ts (there c attached))
  | inr differs ↦
      rw (differs, gathered-attach_other i c ts differs) (sym (append-nil (gathered i ts)))
]

gathered-attach_all :
    (all : List Comment) (i : Bytes) (cs : List Comment) (ts : List Thread)
    → HasThreads all ts
    → gathered i (attach_all all cs ts) ≡ gathered i ts ++ keep (answers all i) cs
unfolding attach_all is_root_id
gathered-attach_all all i [] ts there = sym (append-nil (gathered i ts))
gathered-attach_all all i (c ∷ cs) ts there = elim (Bool-cases (is_attached all c)) [
  | inl attached ↦
      let rest =
        gathered-attach_all all i cs (attach c ts)
          (λ d a. attach-opens d.reply_to c ts ∙ there d a) in
      let step = gathered-step all i c ts attached there in
      elim (Bool-cases (eq_bytes c.reply_to i)) [
        | inl same ↦
            let one : gathered i (attach c ts) ≡ gathered i ts ++ c ∷ [] = (rw same at step) in
            rw (attached, same, rest, one)
              (append_assoc (gathered i ts) (c ∷ []) (keep (answers all i) cs))
        | inr differs ↦
            let one : gathered i (attach c ts) ≡ gathered i ts ++ [] = (rw differs at step) in
            rw (attached, differs, rest, one, append-nil (gathered i ts)) refl
      ]
  | inr other ↦ rw other (gathered-attach_all all i cs ts there)
]

gathered-opened :
    (all : List Comment) (i : Bytes) (cs : List Comment) → gathered i (opened all cs) ≡ []
unfolding gathered opened
gathered-opened all i [] = refl
gathered-opened all i (c ∷ cs) = ground (arith, gathered-opened all i cs)

roots-attach :
    (c : Comment) (ts : List Thread)
    → map (λ (t : Thread). t.root) (attach c ts) ≡ map (λ (t : Thread). t.root) ts
unfolding attach
roots-attach c [] = refl
roots-attach c (t ∷ ts) = elim (Bool-cases (any (opens c.reply_to) ts)) [
  | inl later ↦ rw later (ap (λ (rs : List Comment). t.root ∷ rs) (roots-attach c ts))
  | inr here ↦ elim (Bool-cases (opens c.reply_to t)) [
    | inl opened ↦ rw (here, opened) refl
    | inr other ↦ rw (here, other) refl
  ]
]

roots-attach_all :
    (all cs : List Comment) (ts : List Thread)
    → map (λ (t : Thread). t.root) (attach_all all cs ts) ≡ map (λ (t : Thread). t.root) ts
unfolding attach_all
roots-attach_all all [] ts = refl
roots-attach_all all (c ∷ cs) ts = elim (Bool-cases (is_attached all c)) [
  | inl attached ↦ rw attached (roots-attach_all all cs (attach c ts) ∙ roots-attach c ts)
  | inr other ↦ rw other (roots-attach_all all cs ts)
]

roots-opened :
    (all cs : List Comment)
    → map (λ (t : Thread). t.root) (opened all cs)
      ≡ keep (λ (c : Comment). not (has_parent all c)) cs
unfolding opened is_root_id
roots-opened all [] = refl
roots-opened all (c ∷ cs) = elim (Bool-cases (has_parent all c)) [
  | inl attached ↦ rw attached (roots-opened all cs)
  | inr other ↦ rw other (ap (λ (rs : List Comment). c ∷ rs) (roots-opened all cs))
]

-- A thread that a reply begins has no replies.
abbrev pub IsBare : Thread → Type 0
IsBare t = is_reply t.root ≡ true → t.replies ≡ []

IsBare-opened : (all cs : List Comment) → All IsBare (opened all cs)
unfolding opened
IsBare-opened all [] = tt
IsBare-opened all (c ∷ cs) = elim (Bool-cases (is_attached all c)) [
  | inl attached ↦ rw attached (IsBare-opened all cs)
  | inr alone ↦ rw alone ((λ h. refl), IsBare-opened all cs)
]

IsBare-attach : (c : Comment) (ts : List Thread) → All IsBare ts → All IsBare (attach c ts)
unfolding attach
IsBare-attach c [] h = tt
IsBare-attach c (t ∷ ts) h = elim (Bool-cases (any (opens c.reply_to) ts)) [
  | inl later ↦ rw later (h.0, IsBare-attach c ts h.1)
  | inr here ↦ elim (Bool-cases (opens c.reply_to t)) [
    | inl opened ↦ rw (here, opened) ((λ r. ground (arith, r, opened)), h.1)
    | inr other ↦ rw (here, other) h
  ]
]

IsBare-attach_all :
    (all cs : List Comment) (ts : List Thread) → All IsBare ts → All IsBare (attach_all all cs ts)
unfolding attach_all
IsBare-attach_all all [] ts h = h
IsBare-attach_all all (c ∷ cs) ts h = elim (Bool-cases (is_attached all c)) [
  | inl attached ↦ rw attached (IsBare-attach_all all cs (attach c ts) (IsBare-attach c ts h))
  | inr other ↦ rw other (IsBare-attach_all all cs ts h)
]

-- Among any comments, and for any id: the replies that `Threads` files under the comments of this id
-- that are no replies are exactly the replies to this id, each with its whole content, as often as it
-- is there and in the order of the comments, and none where no comment of this id that is no reply is
-- there. The comments that open a thread are those that are no reply to such a comment, in their
-- order, and a thread that a reply opens has no replies: nothing is lost and nothing is doubled.
pub threads-gathered :
    (cs : List Comment) (i : Bytes)
    → (gathered i (threads cs)
        ≡ keep (λ (c : Comment). has_parent cs c && eq_bytes c.reply_to i) cs)
      × (map (λ (t : Thread). t.root) (threads cs)
          ≡ keep (λ (c : Comment). not (has_parent cs c)) cs)
      × All IsBare (threads cs)
unfolding threads
threads-gathered cs i = (
  gathered-attach_all cs i cs (opened cs cs)
        (λ c a. opened-opens cs c.reply_to cs (ground (arith, a)))
      ∙ ap (λ (r : List Comment). r ++ keep (answers cs i) cs) (gathered-opened cs i cs),
  roots-attach_all cs cs (opened cs cs) ∙ roots-opened cs cs,
  IsBare-attach_all cs cs (opened cs cs) (IsBare-opened cs cs),
)
