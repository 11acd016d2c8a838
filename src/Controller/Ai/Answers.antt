-- ===== src/Controller/Ai/Answers.antt =====
-- internal/controller/ai_scorer.go: the answers and the errors of a language model's provider.
use Prim.Native.Char.{code}
use mirops.Prelude.{
  ℕ, ◌+◌, ◌≡◌, refl, String, ◌<>◌, Bool, true, false, not, ◌||◌, ◌&&◌, List, [], ◌∷◌, ltb, leb, eqb,
  ◌==◌, string_dec, if◌then◌else◌, Result, ok, err,
}
use mirops.Prelude.Int.{ℤ, pos, negsuc}
use mirops.Prelude.Text.{decimal, decimal_ℤ, trim_prefix, trim_suffix}
use mirops.Compat.Version.{trim_left, trim_right}
use mirops.Collector.Addons.{contains}
use mirops.Controller.Remediation.{AiAction}

-- `aiScoreResponse`, as the answer's JSON is decoded.
pub record AiScoreResponse : Type 0 where
  pub score : ℤ
  pub reasoning : String
  pub actions : List AiAction

-- An answer that has passed the checks.
pub record AiResult : Type 0 where
  pub score : ℕ
  pub reasoning : String
  pub actions : List AiAction

-- `strings.TrimSpace`
trim_space : String → String
unfolding trim_left trim_right
trim_space s = trim_right (trim_left s)

-- A code fence of Markdown around the answer.
unfoldable pub strip_fences : String → String
unfolding trim_space trim_prefix trim_suffix
strip_fences text =
    trim_space (trim_suffix "```" (trim_prefix "```" (trim_prefix "```json" (trim_space text))))

-- The package encoding/json is a parameter.
module _ (unmarshal : String → Result AiScoreResponse) where
  unfoldable pub checked : AiScoreResponse → Result AiResult
  unfolding decimal_ℤ
  checked r = elim r.score [
    | negsuc n ↦ err ("AI score " <> (decimal_ℤ r.score <> " out of range [0, 100]"))
    | pos n ↦
        if ltb 100 n
        then err ("AI score " <> (decimal_ℤ r.score <> " out of range [0, 100]"))
        else ok (record { score = n; reasoning = r.reasoning; actions = r.actions })
  ]

  unfoldable pub parse_ai_response : String → Result AiResult
  unfolding strip_fences checked
  parse_ai_response text = elim (unmarshal (strip_fences text)) [
    | err e ↦ err ("parsing AI response: " <> (e <> (" (raw: " <> (strip_fences text <> ")"))))
    | ok r ↦ checked r
  ]

-- `unicode.ToLower`, as far as its result can be a letter from a to z: two letters beyond ASCII
-- become one, the dotted I and the sign for kelvin. Other characters beyond ASCII are left alone.
lower : ℕ → ℕ
lower c =
    if leb 65 c && leb c 90
    then c + 32
    else if eqb c 304
    then 105
    else if eqb c 8490
    then 107
    else c

lower_codes : String → List ℕ
unfolding lower
lower_codes String.[] = []
lower_codes (String.◌∷◌ c s) = lower (code c) ∷ lower_codes s

begins : List ℕ → List ℕ → Bool
begins [] s = true
begins (c ∷ p) [] = false
begins (c ∷ p) (d ∷ s) = let rest = begins p s in if eqb c d then rest else false

holds : List ℕ → List ℕ → Bool
unfolding begins
holds p [] = begins p []
holds p (c ∷ s) = let later = holds p s in if begins p (c ∷ s) then true else later

-- `strings.Contains(strings.ToLower(message), word)` for a word of small letters.
mentions : String → String → Bool
unfolding lower_codes holds
mentions message word = holds (lower_codes word) (lower_codes message)

error_category : ℕ → String → String → String
unfolding mentions contains
error_category status err_type message =
    if eqb status 401 || contains err_type "authentication"
    then "invalid or unauthorized API key"
    else if eqb status 403 || contains err_type "permission"
    then "permission denied for this model or account"
    else if mentions message "credit"
        || (mentions message "billing"
            || (mentions message "quota" || mentions message "insufficient"))
    then "insufficient credit/quota on the AI account"
    else if eqb status 429 || contains err_type "rate_limit"
    then "rate limit exceeded — retry later"
    else if eqb status 404 || contains err_type "not_found"
    then "model not found — check spec.ai.model"
    else if eqb status 529 || contains err_type "overloaded"
    then "AI service overloaded — retry later"
    else if leb 500 status
    then "AI service internal error"
    else "AI API call failed"

unfoldable pub format_api_error : String → ℕ → String → String → String
unfolding error_category decimal
format_api_error provider status err_type message =
    let place = " [" <> (provider <> (" HTTP " <> (decimal status <> "]"))) in
    if not (message == "")
    then error_category status err_type message <> (": " <> (message <> place))
    else error_category status err_type message <> place

categories :
    (format_api_error "OpenAI" 429 "" "Your Credit balance is too low"
      ≡ "insufficient credit/quota on the AI account: Your Credit balance is too low [OpenAI HTTP 429]")
    × (format_api_error "Anthropic" 503 "overloaded_error" ""
        ≡ "AI service overloaded — retry later [Anthropic HTTP 503]")
    × (strip_fences " ```json\n{}\n``` " ≡ "{}")
unfolding format_api_error strip_fences string_dec
categories = (refl, refl, refl)
