-- ===== src/Lib.antt =====
-- sbnn: a model of the parts of sbnn that read a diff, keep a review of it and say what came of it,
-- and what is proved of them.
--
-- sbnn parses a unified diff handed to it on stdin (internal/diff), keeps it with the comments on
-- it in a session on a local server (internal/server/store.go) and persists that session as a
-- snapshot and a log (internal/server/store_log.go). The types are those of internal/model.
--
-- Which file models what:
--   Prelude, Text       the shared names; Go's `strings`, `strconv` and `path` on bytes, as far as
--                       the program uses them. A Go string is a list of bytes; the title of a
--                       round is a list of code points, as `cleanTitle` treats it, and Text/Utf8
--                       encodes it where the prompt writes it.
--   Model               `File`, `Hunk`, `Line` of internal/model/model.go. A line number is the bit
--                       pattern of a Go int, a number below 2 ^ 64.
--   Diff                internal/diff/parse.go: FileKind (`IsMarkdown` and the like), Paths
--                       (`splitGitHeaderPaths`, `normalizePath`), Header (`parseHunkHeader`), Body
--                       (`readHunk`, `surplusBodyEnd`), Combined (`readCombinedHunk`), Parser
--                       (`run`, `Parse`), Finalize (`finalize`). Platform holds what is taken from
--                       Go's library as it is: `strconv.Unquote`, `strings.ToLower`, SHA-256.
--                       Generated is internal/diff/generated.go (`GeneratedMarker`, `VisibleTop`),
--                       Reconstruct and Containers internal/diff/reconstruct.go (`Reconstruct`,
--                       `Snippet`, `splitContainers`). NewSide says, apart from the code, what
--                       lines of a hunk the file behind a diff holds.
--   Review              the types of a review, `Threads`, `Blocks`, `LastActivity`; Threads/Filed
--                       and Threads/Gathered hold the proofs about `Threads`. Fences and Suggestions are the suggestion
--                       blocks of a comment (`Suggestions`, `WithSuggestion`), the modules below
--                       Suggestions the proofs about the writing and the reading of one.
--   Session             the methods of `Store` on the session in memory. Each returns an `Edit`: its
--                       answer, the session behind it and its calls of `persist`, each with the
--                       session as it stood then. Log is the records and `apply`, Replay the proofs
--                       about the records of the methods. Threaded says what well threaded
--                       comments and well formed sessions are, WellFormed holds the proofs about
--                       what the methods make of them.
--                       Prune is internal/server/prune.go (`PruneGroups`, `Prune`); Names holds the
--                       lemmas on which groups a session has behind each method.
--   Server              what the server makes of a review: Fold is internal/server/fold.go
--                       (`foldFiles` and its patterns), Prompt is internal/server/prompt.go
--                       (`Prompt`, with `fenceFor` in Fence and the part of a thread in Sections).
--   Store               `persist`, `save`, `appendRecord` and `write`, with the disk as a field and
--                       its answers as arguments, `BindRepository`, and the end of `Load` with
--                       `validGroups`. Durable and Loads hold the proofs about the file, History
--                       the calls of the methods as the steps of a machine.
--   History             internal/history/history.go (`FromGroup`, `ReadSkipped`, `Comments`), and
--                       `Summarize` in Summary.
--   Cmd                 the places of comments in cmd/comment.go (`parseLineSpec`, `lineSuffix`).
--   Tests               runs of the model, and each result at a concrete input.
--
-- The index of the parser is the list of lines left. Its outer loop runs on fuel, one round for
-- each line, which is enough since every round reads a line; the loop over a hunk's body answers
-- `none` where it would read one line for ever. The scan for suggestions has a round for each line,
-- and every round reads one; the loop that lengthens a fence has a round for each byte of the text,
-- and a fence longer than the text is not in it; `splitContainers` has a round more than the line
-- has bytes, and every round but the last takes one. A time is a number of
-- nanoseconds since Go's zero time.
--
-- The counters of ids and of rounds, and the lines that a comment names, are numbers without a bound:
-- a Go int holds a counter below 2 ^ 63, and a comment on a negative line, which the server takes for
-- one on the whole file in the prompt, has no counterpart.
--
-- Not modelled: the JSON encoding (a record is on disk or it is not, and a string reads back as it was
-- written, which holds of valid UTF-8), what `Load` does about a file that is broken, of another version,
-- without one of the maps of counters or with a null for a group, the locks (every method of
-- the store holds the one mutex from its first line to its last), the HTTP handlers, the rest
-- of the command line, the regular expressions and `path.Match` (arguments, where they are used),
-- the web page, and everything that talks to the network or to other programs.
pub mod Prelude
pub mod Text
pub mod Model
pub mod Diff
pub mod Review
pub mod Session
pub mod Server
pub mod History
pub mod Cmd
pub mod Store
mod Tests
