-- ===== src/Tests.antt =====
-- Runs of the model on small inputs, and each result at an input that meets its conditions.
mod DiffRuns
mod DiffClaims
mod CommentClaims
mod SessionClaims
mod HistoryClaims
mod PruneClaims
mod SuggestionClaims
mod FoldClaims
mod PromptClaims
mod ReconstructClaims
mod RefusedClaims
mod SummaryClaims
mod LineClaims
