-- ===== src/Controller/Ai/Errors.antt =====
-- internal/controller/ai_scorer.go, `classifyAIError`: what the status says of an error. The types
-- of the errors belong to the providers' packages.
use mirops.Prelude.{ℕ, String, Option, none, some, ◌==◌, if◌then◌else◌}
use mirops.Controller.Ai.Answers.{format_api_error}
use mirops.Controller.Ai.Scoring.{provider_openai}

-- An error that an API has answered with. The detail is OpenAI's message, or Anthropic's JSON.
pub record ApiError : Type 0 where
  pub status : ℕ
  pub type : String
  pub detail : String

-- The package encoding/json reads the message in the body of an error.
extract_anthropic_message : (String → Option String) → String → String
extract_anthropic_message unmarshal raw =
    if raw == "" then "" else elim (unmarshal raw) [ none ↦ "" | some message ↦ message ]

module _ (unmarshal : String → Option String)
    (as_api_error : String → String → Option ApiError) where
  unfoldable pub classify_ai_error : String → String → String
  unfolding format_api_error extract_anthropic_message
  classify_ai_error provider e = elim (as_api_error provider e) [
    | none ↦ e
    | some a ↦
        if provider == provider_openai
        then format_api_error "OpenAI" a.status a.type a.detail
        else format_api_error "Anthropic" a.status a.type
            (extract_anthropic_message unmarshal a.detail)
  ]
