-- ===== src/Tests/SuggestionClaims.antt =====
-- What is proved of suggestions, at a replacement that holds a code block of its own.
use sbnn.Prelude.{Bytes, [], refl, ◌++◌, ◌∷◌, ◌≡◌}
use sbnn.Review.Fences.{open_fence, suggestion_fence}
use sbnn.Review.Suggestions.{
  block_end, dangling_fence, dangling_from, long_fence, proposed, suggestions, suggestions_from,
  with_suggestion,
}
use sbnn.Review.Suggestions.RoundTrip.{
  suggestions-with_suggestion, suggestions-with_suggestion_blank,
}
use sbnn.Text.{codes}
use sbnn.Text.Affix.{trim_right, trim_space, trim_suffix}
use sbnn.Text.Split.{contains, join, split}

abbrev replacement : Bytes
replacement = codes "a\n```go\nb\n```\nc\n"

abbrev talk : Bytes
talk = codes "see\n```\nx\n```"

talk-closed : dangling_fence (trim_right 10 talk) ≡ []
unfolding dangling_fence dangling_from open_fence block_end trim_right split
talk-closed = refl

suggestions-with_suggestion_example :
    suggestions (with_suggestion talk replacement)
    ≡ suggestions (trim_right 10 talk) ++ trim_right 10 replacement ∷ []
suggestions-with_suggestion_example =
    suggestions-with_suggestion replacement (unfold trim_space trim_right in refl)
      (unfold trim_right in refl) talk (unfold trim_space in refl) talk-closed

suggestions-with_suggestion_blank_example :
    suggestions (with_suggestion [] replacement) ≡ trim_right 10 replacement ∷ []
suggestions-with_suggestion_blank_example =
    suggestions-with_suggestion_blank replacement (unfold trim_space trim_right in refl)
      (unfold trim_right in refl) [] (unfold trim_space in refl)

-- A suggestion that is left open with a code block open in it: the fence that should close it closes
-- the code block, and the replacement is read as part of the open suggestion.
abbrev left_open : Bytes
left_open = codes "```suggestion\n```go\ncode"

left_open-swallows :
    suggestions (with_suggestion left_open (codes "x"))
    ≡ codes "```go\ncode\n```\n\n```suggestion\nx\n```" ∷ []
unfolding suggestions suggestions_from proposed open_fence suggestion_fence block_end
    with_suggestion trim_right trim_space long_fence contains dangling_fence dangling_from split
    join trim_suffix
left_open-swallows = refl
