-- ===== src/Controller/Ai.antt =====
-- internal/controller/ai_scorer.go: how a language model is asked for a second score.
pub mod Context
pub mod Prompt
pub mod Answers
pub mod Scoring
pub mod Errors
