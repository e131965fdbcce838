-- ===== src/Review/Threads.antt =====
-- internal/model/model.go: `Threads` and `OpenThreads`.
pub mod Filed
pub mod Gathered
use sbnn.Prelude.{Bool, Bytes, List, [], any, if◌then◌else◌, keep, length, not, ℕ, ◌&&◌, ◌++◌, ◌∷◌}
use sbnn.Review.{Comment, is_reply}
use sbnn.Text.{eq_bytes}

pub record Thread : Type 0 where
  pub root : Comment
  pub replies : List Comment

-- The keys of the map `roots`: is this the id of a comment that opens a thread?
unfoldable pub is_root_id : List Comment → Bytes → Bool
unfolding eq_bytes
is_root_id cs id = any (λ c. not (is_reply c) && eq_bytes c.id id) cs

-- A reply whose thread is there.
abbrev pub is_attached : List Comment → Comment → Bool
is_attached all c = is_reply c && is_root_id all c.reply_to

-- The second loop: one thread for every other comment.
unfoldable pub opened : List Comment → List Comment → List Thread
unfolding is_root_id
opened all [] = []
opened all (c ∷ cs) =
    let rest = opened all cs in
    if is_attached all c then rest else record { root = c; replies = [] } ∷ rest

abbrev pub opens : Bytes → Thread → Bool
opens id t = not (is_reply t.root) && eq_bytes t.root.id id

-- `threads[at[c.ReplyTo]]` is given the reply: the last thread that a comment of this id opens.
unfoldable pub attach : Comment → List Thread → List Thread
unfolding eq_bytes
attach c [] = []
attach c (t ∷ ts) =
    if any (opens c.reply_to) ts
    then t ∷ attach c ts
    else if opens c.reply_to t
    then record t { replies = t.replies ++ c ∷ [] } ∷ ts
    else t ∷ ts

-- The third loop.
unfoldable pub attach_all : List Comment → List Comment → List Thread → List Thread
unfolding attach is_root_id
attach_all all [] ts = ts
attach_all all (c ∷ cs) ts = attach_all all cs (if is_attached all c then attach c ts else ts)

unfoldable pub threads : List Comment → List Thread
unfolding attach_all opened
threads cs = attach_all cs cs (opened cs cs)

abbrev pub is_open : Thread → Bool
is_open t = not t.root.resolved

unfoldable pub open_threads : List Comment → ℕ
unfolding threads
open_threads cs = length (keep is_open (threads cs))
