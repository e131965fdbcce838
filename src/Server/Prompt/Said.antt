-- ===== src/Server/Prompt/Said.antt =====
-- Proofs about `Prompt`: what the review says is in the text.
use mathlib.Core.Path.{subst}
use sbnn.Prelude.{
  All, All-map, Bytes, List, [], ap, append_assoc, arith, if◌then◌else◌, keep, length, refl, suc, ℕ,
  ◌++◌, ◌+◌, ◌∙◌, ◌∷◌, ◌≡◌,
}
use sbnn.Review.{Comment, Diff, Group}
use sbnn.Review.Threads.{Thread, threads}
use sbnn.Server.Prompt.{PromptOptions, count_line, is_included, opening, prompt, prompt_threads}
use sbnn.Server.Prompt.Sections.{
  reply_author, reply_sections, section, section_head, sections, thread_heading, write_comment_body,
}
use sbnn.Text.{codes, is_empty}
use sbnn.Text.Affix.{trim_right}
use sbnn.Text.Occurs.{Occurs, Occurs-trans, self-Occurs}

here-Occurs : (x b : Bytes) → Occurs x (x ++ b)
here-Occurs x b = ([], b, refl)

Occurs-left : (x s t : Bytes) → Occurs x s → Occurs x (s ++ t)
Occurs-left x s t (a, b, e) = (a, b ++ t, ap (λ (u : Bytes). u ++ t) e ∙ simp append_assoc)

Occurs-right : (x s t : Bytes) → Occurs x t → Occurs x (s ++ t)
Occurs-right x s t (a, b, e) = (s ++ a, b, ap (λ (u : Bytes). s ++ u) e ∙ simp append_assoc)

-- A text that is written between two newlines unless it is empty.
Occurs-unless_empty :
    (s b : Bytes) → Occurs s ((if is_empty s then [] else codes "\n" ++ s ++ codes "\n") ++ b)
Occurs-unless_empty [] b = ([], b, refl)
Occurs-unless_empty (c ∷ s) b =
    Occurs-left (c ∷ s) (codes "\n" ++ (c ∷ s) ++ codes "\n") b
      (Occurs-right (c ∷ s) (codes "\n") ((c ∷ s) ++ codes "\n") (here-Occurs (c ∷ s) (codes "\n")))

write_comment_body-Occurs : (c : Comment) → Occurs (trim_right 10 c.body) (write_comment_body c)
unfolding write_comment_body
write_comment_body-Occurs c = Occurs-unless_empty (trim_right 10 c.body) _

-- What the comments of a thread say is in the text.
abbrev pub IsSaid : Bytes → Thread → Type 0
IsSaid s t =
    Occurs (trim_right 10 t.root.body) s
    × All (λ (r : Comment). Occurs (trim_right 10 r.body) s) t.replies

reply_sections-All :
    (rs : List Comment)
    → All (λ (r : Comment). Occurs (trim_right 10 r.body) (reply_sections rs)) rs
unfolding reply_sections
reply_sections-All [] = tt
reply_sections-All (r ∷ rs) =
    let head = codes "\n### Reply from " ++ reply_author r ++ codes "\n" in
    let body = write_comment_body r in
    (
      Occurs-right (trim_right 10 r.body) head (body ++ reply_sections rs) (
          Occurs-left (trim_right 10 r.body) body (reply_sections rs)
            (write_comment_body-Occurs r)),
      All-map (λ (q : Comment). Occurs (trim_right 10 q.body) (reply_sections rs))
          (λ (q : Comment). Occurs (trim_right 10 q.body) (reply_sections (r ∷ rs))) rs
          (λ q said.
            Occurs-right (trim_right 10 q.body) head (body ++ reply_sections rs)
              (Occurs-right (trim_right 10 q.body) body (reply_sections rs) said))
          (reply_sections-All rs),
    )

IsSaid-Occurs : (s u : Bytes) (t : Thread) → Occurs s u → IsSaid s t → IsSaid u t
IsSaid-Occurs s u t o said = (
  Occurs-trans (trim_right 10 t.root.body) s u said.0 o,
  All-map (λ (q : Comment). Occurs (trim_right 10 q.body) s)
      (λ (q : Comment). Occurs (trim_right 10 q.body) u) t.replies
      (λ q in_s. Occurs-trans (trim_right 10 q.body) s u in_s o) said.1,
)

section-IsSaid : (diffs : List Diff) (i : ℕ) (t : Thread) → IsSaid (section diffs i t) t
unfolding section
section-IsSaid diffs i t =
    let body = write_comment_body t.root in
    let replies = reply_sections t.replies in
    let said : IsSaid (body ++ replies) t = (
      Occurs-left (trim_right 10 t.root.body) body replies (write_comment_body-Occurs t.root),
      All-map (λ (q : Comment). Occurs (trim_right 10 q.body) replies)
          (λ (q : Comment). Occurs (trim_right 10 q.body) (body ++ replies)) t.replies
          (λ q in_replies. Occurs-right (trim_right 10 q.body) body replies in_replies)
          (reply_sections-All t.replies),
    ) in
    IsSaid-Occurs (body ++ replies) (section diffs i t) t
      (Occurs-right (body ++ replies) (section_head diffs i t) (body ++ replies)
        (self-Occurs (body ++ replies)))
      said

heading-Occurs :
    (diffs : List Diff) (i : ℕ) (t : Thread) → Occurs (thread_heading i t.root) (section diffs i t)
unfolding section section_head
heading-Occurs diffs i t =
    Occurs-left (thread_heading i t.root) (section_head diffs i t)
      (write_comment_body t.root ++ reply_sections t.replies)
      (here-Occurs (thread_heading i t.root) _)

sections-Occurs :
    (diffs : List Diff) (i : ℕ) (front : List Thread) (t : Thread) (back : List Thread)
    → Occurs (section diffs (i + length front) t) (sections diffs i (front ++ t ∷ back))
unfolding sections
sections-Occurs diffs i [] t back =
    let e : i + 0 ≡ i = omega arith in
    rw e (here-Occurs (section diffs i t) (sections diffs (suc i) back))
sections-Occurs diffs i (u ∷ front) t back =
    let e : i + suc (length front) ≡ suc i + length front = omega arith in
    rw e (
      Occurs-right (section diffs (suc i + length front) t) (section diffs i u)
        (sections diffs (suc i) (front ++ t ∷ back)) (sections-Occurs diffs (suc i) front t back))

prompt_threads-Occurs :
    (opts : PromptOptions) (g : Group) (ts : List Thread)
    → Occurs (sections g.diffs 1 ts) (prompt_threads opts g ts)
unfolding prompt_threads sections
prompt_threads-Occurs opts g [] = ([], codes "No open review comments.\n", refl)
prompt_threads-Occurs opts g (t ∷ ts) =
    Occurs-right (sections g.diffs 1 (t ∷ ts)) (count_line g.review_verdict (t ∷ ts)) _
      (here-Occurs (sections g.diffs 1 (t ∷ ts)) _)

-- Nothing that was said in a thread of the prompt is lost: the prompt holds its heading, with the
-- number of the thread among those of the prompt, counted from 1, the path and the lines, and the
-- text of the comment that opens it and of every reply, up to newlines at the end.
pub prompt-IsSaid :
    (quote : Bytes → Bytes) (g : Group) (opts : PromptOptions) (front : List Thread) (t : Thread)
    (back : List Thread)
    → keep (is_included opts) (threads g.comments) ≡ front ++ t ∷ back
    → Occurs (thread_heading (suc (length front)) t.root) (prompt quote g opts)
      × IsSaid (prompt quote g opts) t
unfolding prompt
prompt-IsSaid quote g opts front t back e =
    let one : 1 + length front ≡ suc (length front) = omega arith in
    let within : Occurs (section g.diffs (1 + length front) t) (prompt quote g opts) =
      Occurs-trans (section g.diffs (1 + length front) t) (sections g.diffs 1 (front ++ t ∷ back))
        (prompt quote g opts) (sections-Occurs g.diffs 1 front t back)
        (rw e (
          Occurs-right (sections g.diffs 1 (front ++ t ∷ back)) (opening quote g)
            (prompt_threads opts g (front ++ t ∷ back))
            (prompt_threads-Occurs opts g (front ++ t ∷ back)))) in
    (
      Occurs-trans (thread_heading (suc (length front)) t.root)
          (section g.diffs (suc (length front)) t) (prompt quote g opts)
          (heading-Occurs g.diffs (suc (length front)) t)
          (subst (λ (k : ℕ). Occurs (section g.diffs k t) (prompt quote g opts)) one within),
      IsSaid-Occurs (section g.diffs (1 + length front) t) (prompt quote g opts) t within
          (section-IsSaid g.diffs (1 + length front) t),
    )
