-- ===== src/Tests/PromptClaims.antt =====
-- What is proved of the prompt, at a review with one thread.
use sbnn.Prelude.{Bytes, [], false, refl, true, ◌++◌, ◌∷◌, ◌≡◌}
use sbnn.Review.{Comment, Group, new_group}
use sbnn.Review.Threads.{Thread, attach, attach_all, is_root_id, opened, threads}
use sbnn.Server.Prompt.{PromptOptions, prompt}
use sbnn.Server.Prompt.Fence.{fence_for}
use sbnn.Server.Prompt.Fence.Free.{contains-fence_for}
use sbnn.Server.Prompt.Said.{IsSaid, prompt-IsSaid}
use sbnn.Server.Prompt.Sections.{thread_heading}
use sbnn.Text.{codes}
use sbnn.Text.Occurs.{Occurs}
use sbnn.Text.Split.{contains}
use sbnn.Text.Utf8.{utf8}

abbrev quoted : Bytes → Bytes
quoted s = codes "\"" ++ s ++ codes "\""

abbrev remark : Comment
remark = record {
  id = codes "c1";
  group = codes "default";
  diff_id = codes "d1";
  file_id = [];
  path = codes "a.go";
  author = [];
  side = codes "new";
  start_line = 2;
  end_line = 4;
  body = codes "why?\n";
  question = true;
  snippet = codes "+x := `a`";
  reply_to = [];
  resolved = false;
  created_at = 1;
  updated_at = 1;
}

abbrev answer : Comment
answer = record remark {
  id = codes "c2";
  author = codes "agent";
  body = codes "because";
  reply_to = codes "c1";
}

abbrev pub review : Group
review = record (new_group (codes "default")) { comments = remark ∷ answer ∷ [] }

abbrev all_of_it : PromptOptions
all_of_it = record { include_resolved = false; no_instruction = false }

abbrev talk_thread : Thread
talk_thread = record { root = remark; replies = answer ∷ [] }

prompt-IsSaid_example :
    Occurs (thread_heading 1 remark) (prompt quoted review all_of_it)
    × IsSaid (prompt quoted review all_of_it) talk_thread
prompt-IsSaid_example =
    prompt-IsSaid quoted review all_of_it [] talk_thread []
      (unfold threads opened attach_all attach is_root_id in refl)

contains-fence_for_example : contains (codes "a ``` b") (fence_for (codes "a ``` b")) ≡ false
contains-fence_for_example = contains-fence_for (codes "a ``` b")

-- Code points of one to four bytes.
two_to_four_bytes :
    utf8 (b'a' ∷ 0xe9 ∷ 0x2026 ∷ 0x1f600 ∷ [])
    ≡ b'a' ∷ 0xc3 ∷ 0xa9 ∷ 0xe2 ∷ 0x80 ∷ 0xa6 ∷ 0xf0 ∷ 0x9f ∷ 0x98 ∷ 0x80 ∷ []
unfolding utf8
two_to_four_bytes = refl
