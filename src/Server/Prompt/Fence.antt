-- ===== src/Server/Prompt/Fence.antt =====
-- internal/server/prompt.go: `fenceFor`, a fence around a text that may hold backticks.
pub mod Free
use sbnn.Prelude.{Bytes, [], if◌then◌else◌, ltb, replicate, suc, ℕ, ◌+◌, ◌==◌, ◌∷◌}
use sbnn.Review.Fences.{backtick}
use sbnn.Text.{codes}

-- The loop: the longest run of backticks so far, and the one that is being read.
unfoldable pub longest_run : ℕ → ℕ → Bytes → ℕ
longest_run longest current [] = longest
longest_run longest current (c ∷ s) =
    if c == backtick
    then longest_run (if ltb longest (suc current) then suc current else longest) (suc current) s
    else longest_run longest 0 s

unfoldable pub fence_for : Bytes → Bytes
unfolding longest_run
fence_for content =
    let longest = longest_run 0 0 content in
    if ltb longest 3 then codes "```" else replicate (longest + 1) backtick
