-- ===== src/Controller/Ai/Scoring.antt =====
-- internal/controller/ai_scorer.go, `scoreWithAI`: the second score, and the cache of answers. The
-- mutex of the cache makes a read and a write one step each.
pub mod Coherent
pub mod Bounded
use mirops.Prelude.{
  ℕ, zero, suc, String, ◌<>◌, Bool, Option, none, some, List, [], ◌∷◌, ◌==◌, if◌then◌else◌, Result,
  ok, err,
}
use mirops.Prelude.Int.{ℤ, pos, negsuc}
use mirops.Prelude.Maps.{Map, insert, get_or}
use mirops.Prelude.Text.{decimal_ℤ}
use mirops.Analysis.{Report}
use mirops.Controller.Ai.Prompt.{build_ai_prompt}
use mirops.Controller.Ai.Answers.{AiScoreResponse, AiResult, parse_ai_response}

-- What the specification of an analysis says of the language model.
pub record AiSettings : Type 0 where
  pub provider : String
  pub model : String
  pub max_tokens : ℤ
  pub credentials_secret : String
  pub remediation : Bool

abbrev pub provider_openai : String
provider_openai = "openai"

-- What a provider is asked.
pub record Question : Type 0 where
  pub api_key : String
  pub model : String
  pub prompt : String
  pub max_tokens : ℕ

pub record AiCacheEntry : Type 0 where
  pub hash : String
  pub result : AiResult

abbrev pub AiCache : Type 0
AiCache = Map AiCacheEntry

-- The requests: a secret of the operator's namespace, and the two providers, which answer with the
-- texts of a message or fail. The hash and the reading of JSON belong to Go's packages.
pub record AiServices : Type 1 where
  pub State : Type 0
  pub get_secret : String → State → Result (Map String) × State
  pub anthropic : Question → State → Result (List String) × State
  pub openai : Question → State → Result (List String) × State
  pub hash : String → String
  pub unmarshal : String → Result AiScoreResponse

unfoldable pub ai_cache_get : AiCache → String → String → Option AiResult
ai_cache_get cache key hash = elim (cache key) [
  | none ↦ none
  | some e ↦ if e.hash == hash then some e.result else none
]

unfoldable pub ai_cache_put : AiCache → String → AiCacheEntry → AiCache
ai_cache_put cache key e = insert key e cache

-- An object that was made before the field existed has no limit.
abbrev tokens_of : ℤ → ℕ
tokens_of (pos zero) = 2048
tokens_of (pos (suc n)) = suc n
tokens_of (negsuc n) = 2048

abbrev nul : String
nul = "\0"

-- All that the answer depends on.
unfoldable pub cache_key : AiSettings → String → String
unfolding decimal_ℤ
cache_key a prompt =
    a.provider
    <> (nul <> (a.model <> (nul <> (decimal_ℤ (pos (tokens_of a.max_tokens)) <> (nul <> prompt)))))

abbrev or_default : String → String → String
or_default default s = if s == "" then default else s

abbrev pub question : AiSettings → String → String → Question
question a api_key prompt = record {
  api_key = api_key;
  model = a.model;
  prompt = prompt;
  max_tokens = tokens_of a.max_tokens;
}

module _ (S : AiServices) where
  open S use {State, get_secret, anthropic, openai, hash, unmarshal}

  abbrev first_text : String → Result (List String) → Result String
  first_text empty (err e) = err e
  first_text empty (ok []) = err empty
  first_text empty (ok (t ∷ _)) = ok t

  abbrev calling : String → Result (List String) → Result (List String)
  calling name (err e) = err (name <> e)
  calling name (ok texts) = ok texts

  call_anthropic : Question → State → Result String × State
  call_anthropic q s =
      let (r, t) = anthropic (record q { model = or_default "claude-sonnet-4-6" q.model }) s in
      (first_text "empty response from Anthropic" (calling "calling Anthropic API: " r), t)

  call_openai : Question → State → Result String × State
  call_openai q s =
      let (r, t) = openai (record q { model = or_default "gpt-4o" q.model }) s in
      (first_text "empty response from OpenAI" (calling "calling OpenAI API: " r), t)

  abbrev key_name : String → String
  key_name provider = if provider == provider_openai then "OPENAI_API_KEY" else "ANTHROPIC_API_KEY"

  abbrev api_key_in : AiSettings → Result (Map String) → Result String
  api_key_in a (err e) =
      err ("reading AI credentials secret \"" <> (a.credentials_secret <> ("\": " <> e)))
  api_key_in a (ok data_of) =
      if get_or data_of (key_name a.provider) "" == ""
      then err
          (key_name a.provider <> (" not found in secret \"" <> (a.credentials_secret <> "\"")))
      else ok (get_or data_of (key_name a.provider) "")

  unfoldable pub read_ai_api_key : AiSettings → State → Result String × State
  read_ai_api_key a s =
      let (r, t) = get_secret a.credentials_secret s in
      if a.credentials_secret == ""
      then (err "ai.credentialsSecret is required when ai.enabled is true", s)
      else (api_key_in a r, t)

  -- Only an answer that has passed the checks is kept.
  abbrev pub keep : String → String → AiCache → Result AiResult → Result AiResult × AiCache
  keep name h cache (err e) = (err e, cache)
  keep name h cache (ok r) = (ok r, ai_cache_put cache name (record { hash = h; result = r }))

  abbrev pub parsed : Result String → Result AiResult
  parsed (err e) = err e
  parsed (ok raw) = parse_ai_response unmarshal raw

  unfoldable pub ask_provider : AiSettings → Question → State → Result String × State
  unfolding call_openai call_anthropic
  ask_provider a q s = if a.provider == provider_openai then call_openai q s else call_anthropic q s

  unfoldable pub ask_afresh :
      AiSettings → String → Question → AiCache → State → (Result AiResult × AiCache) × State
  ask_afresh a name q cache s =
      let (raw, t) = ask_provider a q s in
      (keep name (hash (cache_key a q.prompt)) cache (parsed raw), t)

  unfoldable pub with_key :
      AiSettings
      → String
      → String
      → AiCache
      → Result String
      → State
      → (Result AiResult × AiCache) × State
  with_key a name prompt cache (err e) s = ((err e, cache), s)
  with_key a name prompt cache (ok api_key) s =
      elim (ai_cache_get cache name (hash (cache_key a prompt))) [
        | some r ↦ ((ok r, cache), s)
        | none ↦ ask_afresh a name (question a api_key prompt) cache s
      ]

  -- The key is read first, also where the answer is in the cache.
  unfoldable pub score_with_ai :
      AiSettings → String → Report → AiCache → State → (Result AiResult × AiCache) × State
  score_with_ai a name report cache s =
      let (api_key, t) = read_ai_api_key a s in
      with_key a name (build_ai_prompt report a.remediation) cache api_key t
