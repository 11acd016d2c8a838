-- ===== src/Controller/Ai/Scoring/Bounded.antt =====
-- The scores that the language model may give, and those that the cache holds.
use mathlib.Core.Path.{subst}
use mirops.Prelude.{
  ℕ, ◌≤◌, ◌≡◌, sym, String, Option, none, some, ltb, ◌==◌, if◌then◌else◌, Bool-cases, Option-cases,
  inl, inr, arith, Result, ok, err, ◌<>◌,
}
use mirops.Prelude.Int.{ℤ, pos, negsuc}
use mirops.Analysis.{Report}
use mirops.Controller.Ai.Prompt.{build_ai_prompt}
use mirops.Controller.Ai.Answers.{
  AiScoreResponse, AiResult, strip_fences, checked, parse_ai_response,
}
use mirops.Controller.Ai.Scoring.{
  AiSettings, AiCacheEntry, AiCache, AiServices, question, ai_cache_get, ai_cache_put, cache_key,
  read_ai_api_key, ask_provider, ask_afresh, with_key, score_with_ai, parsed, keep,
}

-- An answer's score, if there is an answer, is at most 100.
abbrev pub InRange : Result AiResult → Type 0
InRange (err e) = Unit
InRange (ok r) = r.score ≤ 100

abbrev EntryInRange : Option AiCacheEntry → Type 0
EntryInRange none = Unit
EntryInRange (some e) = e.result.score ≤ 100

abbrev pub IsBounded : AiCache → Type 0
IsBounded cache = (name : String) → EntryInRange (cache name)

module _ (unmarshal : String → Result AiScoreResponse) where
  ranged :
      (n : ℕ) (r : AiScoreResponse) (e : String)
      → InRange (
          if ltb 100 n
          then err e
          else ok (record { score = n; reasoning = r.reasoning; actions = r.actions }))
  ranged n r e = elim (Bool-cases (ltb 100 n)) [
    | inl over ↦ rw (over) tt
    | inr within ↦ rw (within) (ground arith)
  ]

  checked-InRange : (r : AiScoreResponse) → InRange (checked unmarshal r)
  unfolding checked
  checked-InRange r = go r.score
    where
      go :
          (z : ℤ)
          → InRange (
              checked unmarshal
                (record { score = z; reasoning = r.reasoning; actions = r.actions }))
      go (negsuc n) = tt
      go (pos n) = ranged n r _

  parse_ai_response-InRange : (text : String) → InRange (parse_ai_response unmarshal text)
  unfolding parse_ai_response
  parse_ai_response-InRange text = go (unmarshal (strip_fences text))
    where
      go :
          (answer : Result AiScoreResponse)
          → InRange (elim answer as (λ _. Result AiResult) [
            | err e ↦
                err ("parsing AI response: " <> (e <> (" (raw: " <> (strip_fences text <> ")"))))
            | ok r ↦ checked unmarshal r
          ])
      go (err e) = tt
      go (ok r) = checked-InRange r

module _ (S : AiServices) (a : AiSettings) (name : String) where
  parsed-InRange : (raw : Result String) → InRange (parsed S raw)
  parsed-InRange (err e) = tt
  parsed-InRange (ok raw) = parse_ai_response-InRange S.unmarshal raw

  -- What an outcome has to be.
  abbrev pub IsSound : Result AiResult × AiCache → Type 0
  IsSound p = InRange p.0 × IsBounded p.1

  put-IsBounded :
      (cache : AiCache) (e : AiCacheEntry)
      → IsBounded cache
      → e.result.score ≤ 100
      → IsBounded (ai_cache_put cache name e)
  unfolding ai_cache_put
  put-IsBounded cache e bounded within j = elim (Bool-cases (j == name)) [
    | inl same ↦ subst (λ b. EntryInRange (if b then some e else cache j)) (sym same) within
    | inr other ↦ subst (λ b. EntryInRange (if b then some e else cache j)) (sym other) (bounded j)
  ]

  keep-IsSound :
      (h : String) (cache : AiCache) (p : Result AiResult)
      → IsBounded cache
      → InRange p
      → IsSound (keep S name h cache p)
  keep-IsSound h cache (err e) bounded within = (tt, bounded)
  keep-IsSound h cache (ok r) bounded within =
      (within, put-IsBounded cache (record { hash = h; result = r }) bounded within)

  ai_cache_get-InRange :
      (cache : AiCache) (h : String) (r : AiResult)
      → IsBounded cache
      → ai_cache_get cache name h ≡ some r
      → r.score ≤ 100
  unfolding ai_cache_get
  ai_cache_get-InRange cache h r bounded hit = go (cache name) (bounded name) hit
    where
      go :
          (o : Option AiCacheEntry)
          → EntryInRange o
          → (elim o as (λ _. Option AiResult) [
            | none ↦ none
            | some e ↦ if e.hash == h then some e.result else none
          ])
            ≡ some r
          → r.score ≤ 100
      go none within eq = cc
      go (some e) within eq = elim (Bool-cases (e.hash == h)) [
        | inl same ↦
            let eq' : some e.result ≡ some r = rw (same) at eq in
            let found : e.result ≡ r = cc in subst (λ q. q.score ≤ 100) found within
        | inr other ↦ let eq' : none ≡ some r = rw (other) at eq in cc
      ]

  with_key-IsSound :
      (prompt : String) (cache : AiCache) (k : Result String) (s : S.State)
      → IsBounded cache
      → IsSound (with_key S a name prompt cache k s).0
  unfolding with_key ask_afresh
  with_key-IsSound prompt cache (err e) s bounded = (tt, bounded)
  with_key-IsSound prompt cache (ok k) s bounded =
      elim (Option-cases (ai_cache_get cache name (S.hash (cache_key a prompt)))) [
        | inl miss ↦
            rw (miss, with_key)
              (keep-IsSound (S.hash (cache_key a prompt)) cache
                (parsed S (ask_provider S a (question a k prompt) s).0) bounded
                (parsed-InRange (ask_provider S a (question a k prompt) s).0))
        | inr (q, hit) ↦
            rw (hit, with_key)
              (ai_cache_get-InRange cache (S.hash (cache_key a prompt)) q bounded hit, bounded)
      ]

  -- Every score that comes from the language model lies between 0 and 100, whatever the provider
  -- answers, if the scores in the cache do; and the scores in the cache after the call do too.
  pub score_with_ai-IsSound :
      (report : Report) (cache : AiCache) (s : S.State)
      → IsBounded cache
      → IsSound (score_with_ai S a name report cache s).0
  unfolding score_with_ai
  score_with_ai-IsSound report cache s bounded =
      with_key-IsSound (build_ai_prompt report a.remediation) cache (read_ai_api_key S a s).0
        (read_ai_api_key S a s).1 bounded
