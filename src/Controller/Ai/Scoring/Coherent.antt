-- ===== src/Controller/Ai/Scoring/Coherent.antt =====
-- The cache of answers gives back what a fresh question would have given.
use mathlib.Core.Path.{subst}
use mirops.Prelude.{
  ◌≡◌, refl, ap, ◌∙◌, String, Option, none, some, ◌==◌, ==_refl, if◌then◌else◌, Option-cases, inl,
  inr, Result, ok, err,
}
use mirops.Analysis.{Report}
use mirops.Controller.Ai.Prompt.{build_ai_prompt}
use mirops.Controller.Ai.Answers.{AiResult}
use mirops.Controller.Ai.Scoring.{
  AiSettings, AiCache, AiServices, question, ai_cache_get, ai_cache_put, cache_key, read_ai_api_key,
  ask_provider, ask_afresh, with_key, score_with_ai, parsed, keep,
}

ai_cache_get-put :
    (cache : AiCache) (name h : String) (r : AiResult)
    → ai_cache_get (ai_cache_put cache name (record { hash = h; result = r })) name h ≡ some r
unfolding ai_cache_get ai_cache_put
ai_cache_get-put cache name h r =
    ap
      (λ b.
        elim (if b then some (record { hash = h; result = r }) else cache name)
          as (λ _. Option AiResult) [
            | none ↦ none
            | some e ↦ if e.hash == h then some e.result else none
          ])
      (==_refl name)
    ∙ ap (λ b. if b then some r else none) (==_refl h)

ok_injective : (q r : AiResult) → Result.ok q ≡ ok r → q ≡ r
ok_injective q r eq = cc

module _ (S : AiServices) (a : AiSettings) (name : String) where
  -- A call that has succeeded leaves its answer in the cache.
  keep_cached :
      (h : String) (cache : AiCache) (p : Result AiResult) (r : AiResult) (cache' : AiCache)
      → keep S name h cache p ≡ (ok r, cache')
      → ai_cache_get cache' name h ≡ some r
  keep_cached h cache (err e) r cache' eq = let top = ap (λ p. p.0) eq in cc
  keep_cached h cache (ok q) r cache' eq =
      let top = ap (λ p. p.0) eq in
      let kept = ap (λ p. p.1) eq in
      let same : q ≡ r = ok_injective q r top in
      subst (λ c. ai_cache_get c name h ≡ some r) kept
        (ai_cache_get-put cache name h q ∙ ap some same)

  with_key_cached :
      (prompt : String) (cache : AiCache) (k : Result String) (s : S.State) (r : AiResult)
      (cache' : AiCache)
      → (with_key S a name prompt cache k s).0 ≡ (ok r, cache')
      → ai_cache_get cache' name (S.hash (cache_key a prompt)) ≡ some r
  unfolding with_key ask_afresh
  with_key_cached prompt cache (err e) s r cache' eq = let top = ap (λ p. p.0) eq in cc
  with_key_cached prompt cache (ok k) s r cache' eq =
      elim (Option-cases (ai_cache_get cache name (S.hash (cache_key a prompt)))) [
        | inl miss ↦
            let asked : (ask_afresh S a name (question a k prompt) cache s).0 ≡ (ok r, cache') =
              rw (miss, with_key) at eq in
            keep_cached (S.hash (cache_key a prompt)) cache
              (parsed S (ask_provider S a (question a k prompt) s).0) r cache' asked
        | inr (q, hit) ↦
            let known : (Result.ok q, cache) ≡ (ok r, cache') = rw (hit, with_key) at eq in
            let top : Result.ok q ≡ ok r = ap (λ p. p.0) known in
            let same : q ≡ r = ok_injective q r top in
            subst (λ c. ai_cache_get c name (S.hash (cache_key a prompt)) ≡ some r)
              (ap (λ p. p.1) known) (hit ∙ ap some same)
      ]

  with_key_hit :
      (prompt : String) (cache : AiCache) (k : String) (s : S.State) (r : AiResult)
      → ai_cache_get cache name (S.hash (cache_key a prompt)) ≡ some r
      → with_key S a name prompt cache (ok k) s ≡ ((ok r, cache), s)
  unfolding with_key
  with_key_hit prompt cache k s r hit = rw (hit, with_key) refl

  -- A score that has been given stays: while the analysis, its settings and the secret are as they
  -- were and the report leads to the same prompt, the answer comes from the cache. Only the secret
  -- is read, and neither the provider nor the cache is touched.
  pub score_with_ai-coherent :
      (report report' : Report) (cache cache' : AiCache) (s t : S.State) (r : AiResult) (k : String)
      → (score_with_ai S a name report cache s).0 ≡ (ok r, cache')
      → build_ai_prompt report' a.remediation ≡ build_ai_prompt report a.remediation
      → (read_ai_api_key S a t).0 ≡ ok k
      → score_with_ai S a name report' cache' t ≡ ((ok r, cache'), (read_ai_api_key S a t).1)
  unfolding score_with_ai with_key
  score_with_ai-coherent report report' cache cache' s t r k eq same key =
      let kept =
        with_key_cached (build_ai_prompt report a.remediation) cache (read_ai_api_key S a s).0
          (read_ai_api_key S a s).1 r cache' eq in
      let after = (read_ai_api_key S a t).1 in
      ap (λ p. with_key S a name p cache' (read_ai_api_key S a t).0 after) same
      ∙ ap (λ x. with_key S a name (build_ai_prompt report a.remediation) cache' x after) key
      ∙ with_key_hit (build_ai_prompt report a.remediation) cache' k after r kept
