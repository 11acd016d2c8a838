-- ===== src/Graph/AtRisk/Riskiest.antt =====
-- Where an inherited risk is said to come from.
use mathlib.Core.List.{foldl}
use mathlib.Core.Path.{subst}
use mirops.Prelude.{
  ℕ, ◌≤◌, ◌≡◌, ◌≢◌, refl, sym, ◌∙◌, String, Bool, true, false, ◌&&◌, ◌||◌, List, [], ◌∷◌, In, inl,
  inr, ◌⊎◌, All, ltb, eqb, ◌==◌, if-cases, ==_refl, arith,
}
use mirops.Prelude.Maps.{Map, get_or}
use mirops.Prelude.Sort.{str_lt}
use mirops.Graph.AtRisk.{better, riskiest}

module _ (risk : Map ℕ) where
  abbrev rank : String → ℕ
  rank k = get_or risk k 0

  -- The test by which `k` takes the place of `best`.
  abbrev wins : String → String → Bool
  wins k best =
      best == "" || (ltb (rank best) (rank k) || (eqb (rank k) (rank best) && str_lt k best))

  wins-rank : (best k : String) → best ≢ "" → wins k best ≡ true → rank best ≤ rank k
  wins-rank best k hb e = ground arith

  loses-rank : (best k : String) → wins k best ≡ false → rank k ≤ rank best
  loses-rank best k e = ground arith

  -- The better of two names is one of them, and no name is better.
  abbrev Best : String → String → String → Type 0
  Best best k r = ((r ≡ k) ⊎ (r ≡ best)) × (r ≢ "") × (rank k ≤ rank r) × (rank best ≤ rank r)

  better-Best : (best k : String) → k ≢ "" → best ≢ "" → Best best k (better risk best k)
  better-Best best k hk hb =
      if-cases (Best best k) (wins k best) k best
        (λ e. (inl refl, hk, omega arith, wins-rank best k hb e))
        (λ e. (inr refl, hb, loses-rank best k e, omega arith))

  foldl-Best :
      (best : String) (ids : List String)
      → best ≢ ""
      → All (λ k. k ≢ "") ids
      → let r = foldl (better risk) best ids in
        In r (best ∷ ids) × (rank best ≤ rank r) × All (λ k. rank k ≤ rank r) ids
  foldl-Best best [] hb h = (inl refl, omega arith, tt)
  foldl-Best best (k ∷ ks) hb (hk, h) =
      let (choice, named, above_k, above_best) = better-Best best k hk hb in
      let (i, above, rest) = foldl-Best (better risk best k) ks named h in
      (
        elim i [
          | inl e ↦ elim choice [ inl c ↦ inr (inl (e ∙ c)) | inr c ↦ inl (e ∙ c) ]
          | inr j ↦ inr (inr j)
        ],
        omega (arith, above, above_best),
        (omega (arith, above, above_k), rest),
      )

-- Of a list of names that is not empty and holds no empty name, `riskiest` returns a member, and no
-- member has a higher risk.
pub riskiest-highest :
    (k : String) (ks : List String) (risk : Map ℕ)
    → All (λ j. j ≢ "") (k ∷ ks)
    → let r = riskiest (k ∷ ks) risk in
      In r (k ∷ ks) × All (λ j. get_or risk j 0 ≤ get_or risk r 0) (k ∷ ks)
unfolding riskiest
riskiest-highest k ks risk (hk, h) =
    let first : better risk "" k ≡ k = rw (==_refl "", better) refl in
    let (i, above, rest) = foldl-Best risk k ks hk h in
    subst
      (λ b.
        In (foldl (better risk) b ks) (k ∷ ks)
        × All (λ j. get_or risk j 0 ≤ get_or risk (foldl (better risk) b ks) 0) (k ∷ ks))
      (sym first) (i, (above, rest))
