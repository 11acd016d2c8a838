-- ===== src/Graph/Risk/Exact.antt =====
-- On a graph without cycles the recursion of `ApplyRisk` computes the one function that satisfies
-- the equation of propagated risk, whatever order the components are visited in.
use mirops.Prelude.{
  ℕ, zero, suc, ◌≤◌, ◌<◌, ◌≡◌, refl, sym, ◌∙◌, ap, String, true, false, Option, none, some, List,
  [], ◌∷◌, inl, inr, ◌⊎◌, arith, All, if◌then◌else◌, ltb, max, Bool-cases, Option-cases, ◌==◌,
  ◌>>=◌, eq_of_==,
}
use mirops.Prelude.Maps.{Map, insert, get_or}
use mirops.Graph.Risk.{decay, Memo, inherit, compute}
use mirops.Graph.Risk.Compute.{visits, enter, visits-enter, visits-exit}
use mirops.Graph.Risk.Sound.{Known-insert}

-- The largest of a component's own risk and the decayed risks of its dependencies.
abbrev pub propagated : ℕ → (String → ℕ) → List String → ℕ
propagated own risk [] = own
propagated own risk (d ∷ ds) = max (decay (risk d)) (propagated own risk ds)

propagated-max :
    (own x : ℕ) (risk : String → ℕ) (ds : List String)
    → propagated (max own x) risk ds ≡ max x (propagated own risk ds)
propagated-max own x risk [] = omega arith
propagated-max own x risk (d ∷ ds) = omega (arith, propagated-max own x risk ds)

larger-eq-max : (a b : ℕ) → (if ltb a b then b else a) ≡ max a b
larger-eq-max a b = ground arith

module _ (base : Map ℕ) (deps : Map (List String)) where
  -- The equation of propagated risk.
  abbrev pub IsPropagated : (String → ℕ) → Type 0
  IsPropagated risk = (k : String) → risk k ≡ propagated (get_or base k 0) risk (get_or deps k [])

  -- Each dependency stands lower: there are no cycles.
  abbrev pub IsRanked : (String → ℕ) → Type 0
  IsRanked rank = (k : String) → All (λ d. rank d < rank k) (get_or deps k [])

  module _ (risk rank : String → ℕ) (eq : IsPropagated risk) (ranked : IsRanked rank) where
    abbrev pub Agrees : Memo → Type 0
    Agrees m = (k : String) (v : ℕ) → m.eff k ≡ some v → v ≡ risk k

    abbrev pub Exact : ℕ → Memo → Option (ℕ × Memo) → Type 0
    Exact target m none = Unit
    Exact target m (some (v, m')) =
        (v ≡ target) × Agrees m' × ((k : String) → visits m' k ≡ visits m k)

    -- Only components that stand higher are being visited.
    abbrev pub Above : String → Memo → Type 0
    Above nid m = (k : String) → visits m k ≡ true → rank nid < rank k

    Exact-bind :
        (target target' : ℕ) (m : Memo) (r : Option (ℕ × Memo)) (k : ℕ × Memo → Option (ℕ × Memo))
        → Exact target m r
        → ((v : ℕ) (m' : Memo)
            → v ≡ target
            → Agrees m'
            → ((j : String) → visits m' j ≡ visits m j)
            → Exact target' m' (k (v, m')))
        → Exact target' m (r >>= k)
    Exact-bind target target' m none k e f = tt
    Exact-bind target target' m (some (v, m')) k e f = Exact-trans (k (v, m')) (f v m' e.0 e.1 e.2)
      where
        Exact-trans : (r : Option (ℕ × Memo)) → Exact target' m' r → Exact target' m r
        Exact-trans none h = tt
        Exact-trans (some (w, m'')) h = (h.0, h.1, λ j. h.2 j ∙ e.2 j)

    Exact-target :
        (t t' : ℕ) (m : Memo) (r : Option (ℕ × Memo)) → t ≡ t' → Exact t m r → Exact t' m r
    Exact-target t t' m none e h = tt
    Exact-target t t' m (some (v, m')) e h = (h.0 ∙ e, h.1, h.2)

    Exact-finish :
        (nid : String) (m : Memo) (r : Option (ℕ × Memo))
        → visits m nid ≡ false
        → Exact (risk nid) (enter nid m) r
        → Exact (risk nid) m (
            r >>= λ x. some (
              x.0,
              record { eff = insert nid x.0 x.1.eff; visiting = insert nid false x.1.visiting },
            ))
    Exact-finish nid m none fresh h = tt
    Exact-finish nid m (some (v, m')) fresh h = (
      h.0,
      Known-insert base deps (λ k w. w ≡ risk k) nid v m' (insert nid false m'.visiting) h.0 h.1,
      visits-exit nid m m' (insert nid v m'.eff) fresh h.2,
    )

    Above-enter :
        (nid : String) (m : Memo)
        → Above nid m
        → (k : String) → visits (enter nid m) k ≡ true
        → rank nid ≤ rank k
    Above-enter nid m above k t = go (Bool-cases (k == nid))
      where
        go : ((k == nid) ≡ true) ⊎ ((k == nid) ≡ false) → rank nid ≤ rank k
        go (inl e) = omega (arith, ap rank (eq_of_== k nid e))
        go (inr e) = let lt = above k (sym (visits-enter nid m k ∙ rw e) ∙ t) in omega arith

    inherit-Exact :
        (c : String → Memo → Option (ℕ × Memo)) (bar : ℕ)
        → ((d : String) (m : Memo)
            → rank d < bar
            → Agrees m
            → ((k : String) → visits m k ≡ true → bar ≤ rank k)
            → Exact (risk d) m (c d m))
        → (ds : List String) → All (λ d. rank d < bar) ds
        → (best : ℕ) (m : Memo) → Agrees m
        → ((k : String) → visits m k ≡ true → bar ≤ rank k)
        → Exact (propagated best risk ds) m (inherit base deps c ds best m)
    unfolding inherit
    inherit-Exact c bar hc [] h best m agrees above = (refl, agrees, λ k. refl)
    inherit-Exact c bar hc (d ∷ ds) h best m agrees above =
        Exact-bind (risk d) _ m (c d m) _ (hc d m h.0 agrees above) λ v m' e agrees' same.
          let path =
            ap (λ b. propagated b risk ds) (larger-eq-max best (decay v))
            ∙ propagated-max best (decay v) risk ds
            ∙ ap (λ w. max (decay w) (propagated best risk ds)) e in
          Exact-target _ _ m' _ path (
            inherit-Exact c bar hc ds h.1 (if ltb best (decay v) then decay v else best) m' agrees'
              λ k t. above k (sym (same k) ∙ t))

    pub compute-Exact :
        (f : ℕ) (nid : String) (m : Memo)
        → Agrees m
        → Above nid m
        → Exact (risk nid) m (compute base deps f nid m)
    unfolding compute
    compute-Exact zero nid m agrees above = tt
    compute-Exact (suc f) nid m agrees above = elim (Option-cases (m.eff nid)) [
      | inr (v, e) ↦ rw (e, compute) (agrees nid v e, agrees, λ k. refl)
      | inl new ↦ elim (Bool-cases (get_or m.visiting nid false)) [
        | inl cycle ↦ absurd (let lt = above nid (unfold visits in cycle) in omega arith)
        | inr fresh ↦
            rw (new, fresh, compute)
              (Exact-finish nid m _ (unfold visits in fresh) (
                Exact-target _ _ (enter nid m) _ (sym (eq nid)) (
                  inherit-Exact (compute base deps f) (rank nid)
                    (λ d m' lt agrees' above'.
                      compute-Exact f d m' agrees' (λ k t. let le = above' k t in omega arith))
                    (get_or deps nid []) (ranked nid) (get_or base nid 0) (enter nid m) agrees
                    (Above-enter nid m above))))
      ]
    ]
