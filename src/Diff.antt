-- ===== src/Diff.antt =====
-- internal/diff: the parser of unified diffs.
pub mod Platform
pub mod FileKind
pub mod Paths
pub mod Header
pub mod Body
pub mod Combined
pub mod Parser
pub mod Finalize
pub mod NewSide
pub mod Generated
pub mod Containers
pub mod Reconstruct
