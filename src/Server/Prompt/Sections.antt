-- ===== src/Server/Prompt/Sections.antt =====
-- internal/server/prompt.go: the part of the prompt that is written for each thread.
use sbnn.Prelude.{
  Bool, Bytes, List, [], any, if◌then◌else◌, length, ltb, not, suc, ℕ, ◌++◌, ◌==◌, ◌∷◌,
}
use sbnn.Review.{Comment, Diff}
use sbnn.Review.Suggestions.{suggestions}
use sbnn.Review.Threads.{Thread}
use sbnn.Server.Prompt.Fence.{fence_for}
use sbnn.Text.{codes, eq_bytes, is_empty}
use sbnn.Text.Affix.{trim_right}
use sbnn.Text.Number.{itoa}
use sbnn.Text.Utf8.{utf8}

unfoldable pub line_range : Comment → Bytes
unfolding eq_bytes itoa
line_range c =
    let side = if eq_bytes c.side (codes "old") then codes " (old)" else [] in
    if c.start_line == 0
    then []
    else if ltb c.start_line c.end_line
    then codes ":" ++ itoa c.start_line ++ codes "-" ++ itoa c.end_line ++ side
    else codes ":" ++ itoa c.start_line ++ side

unfoldable pub line_range_text : Comment → Bytes
unfolding line_range
line_range_text c = c.path ++ line_range c

unfoldable pub reply_author : Comment → Bytes
reply_author c = if is_empty c.author then codes "the reviewer" else c.author

unfoldable pub answered : Thread → Bool
unfolding eq_bytes
answered t = any (λ (r : Comment). not (eq_bytes r.author t.root.author)) t.replies

unfoldable pub write_comment_body : Comment → Bytes
unfolding trim_right suggestions line_range_text itoa
write_comment_body c =
    let body = trim_right 10 c.body in
    let n = length (suggestions c.body) in
    (if is_empty body then [] else codes "\n" ++ body ++ codes "\n")
    ++ (if ltb 0 n
        then codes "\nThe suggestion block above replaces "
          ++ line_range_text c
          ++ codes ".\n"
          ++ (if ltb 1 n
              then codes "(" ++ itoa n ++ codes " suggestion blocks: apply them in order.)\n"
              else [])
        else [])

-- `titles[id]`: the title of the last round of this id, as code points.
unfoldable pub title_of : Bytes → List Diff → Bytes
unfolding eq_bytes
title_of id [] = []
title_of id (d ∷ ds) =
    let later = title_of id ds in
    if any (λ (e : Diff). eq_bytes e.id id) ds
    then later
    else if eq_bytes d.id id
    then d.title
    else []

-- A line of a label and a text, unless the text is empty.
abbrev pub labelled : Bytes → Bytes → Bytes
labelled label s = if is_empty s then [] else codes "\n" ++ label ++ s ++ codes "\n"

unfoldable pub thread_heading : ℕ → Comment → Bytes
unfolding line_range itoa
thread_heading i c = codes "\n## " ++ itoa i ++ codes ". " ++ c.path ++ line_range c ++ codes "\n"

unfoldable pub question_line : Thread → Bytes
unfolding answered
question_line t =
    if not t.root.question
    then []
    else if answered t
    then codes "\nThis one is a question, and it has been answered below.\n"
    else codes "\nThis one is a question: answer it.\n"

unfoldable pub snippet_block : Comment → Bytes
unfolding trim_right fence_for
snippet_block c =
    let snippet = trim_right 10 c.snippet in
    let fence = fence_for snippet in
    if is_empty snippet
    then []
    else codes "\n" ++ fence ++ codes "\n" ++ snippet ++ codes "\n" ++ fence ++ codes "\n"

unfoldable pub reply_sections : List Comment → Bytes
unfolding reply_author write_comment_body
reply_sections [] = []
reply_sections (r ∷ rs) =
    (codes "\n### Reply from " ++ reply_author r ++ codes "\n")
    ++ (write_comment_body r ++ reply_sections rs)

-- What is written of a thread in front of its comments.
unfoldable pub section_head : List Diff → ℕ → Thread → Bytes
unfolding thread_heading title_of question_line snippet_block utf8
section_head diffs i t =
    let c = t.root in
    thread_heading i c
    ++ (labelled (codes "Comment ID: ") c.id
        ++ labelled (codes "Diff: ") (utf8 (title_of c.diff_id diffs))
        ++ labelled (codes "From: ") c.author
        ++ question_line t
        ++ (if c.resolved then codes "\nStatus: resolved\n" else [])
        ++ snippet_block c)

-- The body of the loop over the threads.
unfoldable pub section : List Diff → ℕ → Thread → Bytes
unfolding section_head write_comment_body reply_sections
section diffs i t =
    section_head diffs i t ++ (write_comment_body t.root ++ reply_sections t.replies)

-- The threads, numbered from `i` on.
unfoldable pub sections : List Diff → ℕ → List Thread → Bytes
unfolding section
sections diffs i [] = []
sections diffs i (t ∷ ts) = section diffs i t ++ sections diffs (suc i) ts
