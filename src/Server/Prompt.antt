-- ===== src/Server/Prompt.antt =====
-- internal/server/prompt.go: the review of a group as Markdown for a coding agent (`Prompt`). The `%q`
-- of `fmt` is an argument.
pub mod Fence
pub mod Sections
pub mod Said
use sbnn.Prelude.{
  Bool, Bytes, List, [], false, if◌then◌else◌, keep, length, ltb, not, suc, true, ℕ, ◌&&◌, ◌++◌,
  ◌+◌, ◌==◌, ◌∷◌,
}
use sbnn.Review.{Group, Verdict, approved, changes_requested}
use sbnn.Review.Threads.{Thread, threads}
use sbnn.Server.Prompt.Sections.{answered, sections}
use sbnn.Text.{codes, is_empty}
use sbnn.Text.Affix.{trim_space}
use sbnn.Text.Number.{itoa}

pub record PromptOptions : Type 0 where
  pub include_resolved : Bool
  pub no_instruction : Bool

abbrev pub is_included : PromptOptions → Thread → Bool
is_included opts t = not (t.root.resolved && not opts.include_resolved)

unfoldable pub verdict_sentence : Verdict → Bytes
verdict_sentence approved =
    codes "approved the change; anything below is worth reading but does not block it"
verdict_sentence changes_requested =
    codes "asked for changes; the change should not go ahead as it is"
verdict_sentence _ = codes "left comments without deciding either way"

abbrev pub is_approved : Verdict → Bool
is_approved approved = true
is_approved _ = false

unfoldable pub asking : ℕ → Bytes
unfolding itoa
asking questions =
    if questions == 0 then [] else codes ", " ++ itoa questions ++ codes " of them a question"

-- The lines in front of the threads.
unfoldable pub opening : (Bytes → Bytes) → Group → Bytes
unfolding verdict_sentence trim_space
opening quote g =
    let note = trim_space g.review_note in
    codes "# Review comments (sbnn group "
    ++ quote g.name
    ++ codes ")\n\n"
    ++ (if g.reviewed_at == 0
        then []
        else codes "The reviewer " ++ verdict_sentence g.review_verdict ++ codes ".\n\n")
    ++ (if is_empty note then [] else codes "The reviewer wrote:\n\n" ++ note ++ codes "\n\n")

unfoldable pub questions_open : List Thread → ℕ
unfolding answered
questions_open [] = 0
questions_open (t ∷ ts) =
    if t.root.question && not (answered t) then suc (questions_open ts) else questions_open ts

abbrev pub replies_in : List Thread → ℕ
replies_in [] = 0
replies_in (t ∷ ts) = length t.replies + replies_in ts

unfoldable pub count_line : Verdict → List Thread → Bytes
unfolding asking questions_open itoa
count_line verdict ts =
    itoa (length ts)
    ++ (if is_approved verdict
        then codes " comment(s) came with the approval"
        else codes " comment(s) to address")
    ++ asking (questions_open ts)
    ++ codes ".\n"

unfoldable pub instruction : Verdict → ℕ → ℕ → Bytes
instruction verdict replies questions =
    codes "\n---\n\n"
    ++ (if is_approved verdict
        then codes "The change is approved, so none of this blocks it. Act on what is "
          ++ codes "worth acting on, say what you are leaving and why, and carry on.\n"
        else codes "Address every comment above. A suggestion block replaces the lines it "
          ++ codes "names, verbatim. When a comment is not worth acting on, say why instead of "
          ++ codes "changing the code.\n")
    ++ (if ltb 0 replies
        then codes "\nA comment with replies under it is a conversation: read it to the "
          ++ codes "end, because the newest reply is where it stands now.\n"
        else [])
    ++ (if ltb 0 questions
        then codes "\nA comment marked as a question is asking for an answer, not for a "
          ++ codes "change. Answer it in words - as a reply to it where you can, with "
          ++ codes "`sbnn comment --reply-to <its comment ID> -m \"...\"`, so the answer sits "
          ++ codes "next to the line - and change the code only if your own answer says it "
          ++ codes "should change. Leaving a question unanswered is the one thing that makes "
          ++ codes "the reviewer ask it again.\n"
        else [])

-- What is written for the threads that are left.
unfoldable pub prompt_threads : PromptOptions → Group → List Thread → Bytes
unfolding count_line sections instruction questions_open
prompt_threads opts g [] = codes "No open review comments.\n"
prompt_threads opts g (t ∷ ts) =
    count_line g.review_verdict (t ∷ ts)
    ++ (sections g.diffs 1 (t ∷ ts)
        ++ (if opts.no_instruction
            then []
            else instruction g.review_verdict (replies_in (t ∷ ts)) (questions_open (t ∷ ts))))

unfoldable pub prompt : (Bytes → Bytes) → Group → PromptOptions → Bytes
unfolding threads opening prompt_threads
prompt quote g opts =
    opening quote g ++ prompt_threads opts g (keep (is_included opts) (threads g.comments))
