-- ===== src/Examples/AiRuns.antt =====
-- The theorems on the language model's score, applied to the report on the small cluster and to a
-- provider that gives every question the same answer.
use mirops.Prelude.{ℕ, suc, ◌≡◌, refl, false, List, map, select, [], ◌∷◌, ok, err, string_dec}
use mirops.Prelude.Int.{pos}
use mirops.Prelude.Maps.{empty, insert}
use mirops.Graph.{Graph, Component}
use mirops.Graph.Build.{build_from_snapshot}
use mirops.Analysis.{Report}
use mirops.Analysis.Calculate.{calculate}
use mirops.Controller.Ai.Context.{key_dependencies}
use mirops.Controller.Ai.Context.Rows.{Tells, take, connected, touches_risky, risk_rows_lem}
use mirops.Controller.Ai.Prompt.{build_ai_prompt}
use mirops.Controller.Ai.Answers.{AiResult, parse_ai_response}
use mirops.Controller.Ai.Scoring.{
  AiSettings, AiCache, AiServices, read_ai_api_key, ask_provider, ask_afresh, ai_cache_get,
  with_key, score_with_ai,
}
use mirops.Controller.Ai.Scoring.Coherent.{score_with_ai-coherent}
use mirops.Examples.{shop}

abbrev network : Graph
network = build_from_snapshot shop

rows_example :
    ((ns : List Component) × Tells network ns)
    × (key_dependencies network
        ≡ map connected (take 20 (select (touches_risky network.nodes) network.edges)))
rows_example = risk_rows_lem network

-- The state counts the questions; the answer is the same whatever the text.
abbrev service : AiServices
service = record {
  State = ℕ;
  get_secret = λ name n. (ok (insert "ANTHROPIC_API_KEY" "secret" empty), n);
  anthropic = λ q n. (ok ("{}" ∷ []), suc n);
  openai = λ q n. (err "unreachable", suc n);
  hash = λ text. text;
  unmarshal = λ text. ok (record { score = pos 70; reasoning = "busy"; actions = [] });
}

abbrev settings : AiSettings
settings = record {
  provider = "anthropic";
  model = "";
  max_tokens = pos 0;
  credentials_secret = "ai";
  remediation = false;
}

abbrev report : Report
report = calculate shop "1.30" "production"

-- The next analysis runs at another time, which the prompt does not show.
abbrev later_report : Report
later_report = record report { generated_at = "2026-01-02T00:00:00Z" }

abbrev answer : AiResult
answer = record { score = 70; reasoning = "busy"; actions = [] }

abbrev kept : AiCache
kept = (score_with_ai service settings "shop" report empty 0).0.1

first_run : (score_with_ai service settings "shop" report empty 0).0 ≡ (ok answer, kept)
unfolding score_with_ai with_key read_ai_api_key string_dec ai_cache_get ask_afresh ask_provider
    parse_ai_response
first_run = refl

key_read : (read_ai_api_key service settings 5).0 ≡ ok "secret"
unfolding read_ai_api_key string_dec
key_read = refl

coherent_example :
    score_with_ai service settings "shop" later_report kept 5
    ≡ ((ok answer, kept), (read_ai_api_key service settings 5).1)
unfolding calculate build_ai_prompt
coherent_example =
    score_with_ai-coherent service settings "shop" report later_report empty kept 0 5 answer
      "secret" first_run refl key_read
