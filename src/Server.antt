-- ===== src/Server.antt =====
-- internal/server: what the server makes of a review besides keeping it.
pub mod Fold
pub mod Prompt
