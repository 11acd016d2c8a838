-- ===== src/Graph/Risk/Sound.antt =====
-- What holds of every value that the recursion of `ApplyRisk` computes, on any graph.
use mirops.Prelude.{
  ℕ, zero, suc, ◌≤◌, ◌≡◌, refl, String, Bool, true, false, Option, none, some, List, [], ◌∷◌, inl,
  inr, arith, In, All, if◌then◌else◌, ltb, Bool-cases, Option-cases, ◌==◌, ◌>>=◌, eq_of_==, All-In,
  ◌⊎◌, ltb→lt, ◌<◌,
}
use mathlib.Core.Option.{some-injective}
use mirops.Prelude.Maps.{Map, insert, get_or}
use mirops.Graph.Risk.{decay, Memo, inherit, compute}
use mirops.Graph.Risk.Decay.{decay-le}

-- A value that is met in the memo or returned satisfies `P`.
module _ (base : Map ℕ) (deps : Map (List String)) (P : String → ℕ → Type 0) where
  abbrev pub Known : Memo → Type 0
  Known m = (k : String) (v : ℕ) → m.eff k ≡ some v → P k v

  abbrev pub Gives : String → Option (ℕ × Memo) → Type 0
  Gives nid none = Unit
  Gives nid (some (v, m)) = P nid v × Known m

  pub Known-insert :
      (nid : String) (v : ℕ) (m : Memo) (visiting : Map Bool)
      → P nid v
      → Known m
      → Known (record { eff = insert nid v m.eff; visiting = visiting })
  Known-insert nid v m visiting p h k w e = go (Bool-cases (k == nid))
    where
      go : ((k == nid) ≡ true) ⊎ ((k == nid) ≡ false) → P k w
      go (inl s) =
          let same : k ≡ nid = eq_of_== k nid s in
          let value : v ≡ w = some-injective v w (rw s at e) in rw (same, ← value) p
      go (inr s) = h k w (rw s at e)

  Gives-bind :
      (d nid : String) (r : Option (ℕ × Memo)) (k : ℕ × Memo → Option (ℕ × Memo))
      → Gives d r
      → ((v : ℕ) (m : Memo) → P d v → Known m → Gives nid (k (v, m)))
      → Gives nid (r >>= k)
  Gives-bind d nid none k g f = tt
  Gives-bind d nid (some (v, m)) k g f = f v m g.0 g.1

  module _ (own : (nid : String) → P nid (get_or base nid 0))
      (step : (nid d : String) (best v : ℕ)
        → In d (get_or deps nid [])
        → P nid best
        → P d v
        → best < decay v
        → P nid (decay v)) where
    inherit_rule :
        (nid : String) (c : String → Memo → Option (ℕ × Memo))
        → ((d : String) (m : Memo) → Known m → Gives d (c d m))
        → (ds : List String) → All (λ d. In d (get_or deps nid [])) ds
        → (best : ℕ) (m : Memo) → P nid best
        → Known m
        → Gives nid (inherit base deps c ds best m)
    unfolding inherit
    inherit_rule nid c hc [] h best m p known = (p, known)
    inherit_rule nid c hc (d ∷ ds) h best m p known =
        Gives-bind d nid (c d m) _ (hc d m known) λ v m' pv known'.
          inherit_rule nid c hc ds h.1 _ m' (larger v pv (Bool-cases (ltb best (decay v)))) known'
      where
        larger :
            (v : ℕ)
            → P d v
            → (ltb best (decay v) ≡ true) ⊎ (ltb best (decay v) ≡ false)
            → P nid (if ltb best (decay v) then decay v else best)
        larger v q (inl e) = rw e (step nid d best v h.0 p q (ltb→lt best (decay v) e))
        larger v q (inr e) = rw e p

    pub compute_rule :
        (f : ℕ) (nid : String) (m : Memo) → Known m → Gives nid (compute base deps f nid m)
    unfolding compute
    compute_rule zero nid m known = tt
    compute_rule (suc f) nid m known = elim (Option-cases (m.eff nid)) [
      | inr (v, e) ↦ rw (e, compute) (known nid v e, known)
      | inl new ↦ elim (Bool-cases (get_or m.visiting nid false)) [
        | inl cycle ↦ rw (new, cycle, compute) (own nid, known)
        | inr fresh ↦
            rw (new, fresh, compute)
              (Gives-bind nid nid _ _
                (inherit_rule nid (compute base deps f) (compute_rule f) (get_or deps nid [])
                  (All-In (get_or deps nid [])) _ _ (own nid) known)
                λ v m' pv known'.
                  (pv, Known-insert nid v m' (insert nid false m'.visiting) pv known'))
      ]
    ]

-- What a component's risk can come from: its own risk, or one hop of decay from a dependency.
pub data Explained (base : Map ℕ) (deps : Map (List String)) : String → ℕ → Type 0 where
  own : {nid : String} {v : ℕ} → v ≡ get_or base nid 0 → Explained base deps nid v
  inherited :
      {nid d : String} {v w : ℕ}
      → In d (get_or deps nid [])
      → Explained base deps d v
      → w ≡ decay v
      → Explained base deps nid w

-- What a computed risk satisfies: it is explained, no less than the component's own risk, and at
-- most 90 where all own risks are.
pub record Sound (base : Map ℕ) (deps : Map (List String)) (nid : String) (v : ℕ) : Type 0 where
  pub explained : Explained base deps nid v
  pub at_least : get_or base nid 0 ≤ v
  pub at_most : v ≤ 90

pub compute-Sound :
    (base : Map ℕ) (deps : Map (List String))
    → ((nid : String) → get_or base nid 0 ≤ 90)
    → (f : ℕ) (nid : String) (m : Memo) → Known base deps (Sound base deps) m
    → Gives base deps (Sound base deps) nid (compute base deps f nid m)
compute-Sound base deps low =
    compute_rule base deps (Sound base deps)
      (λ nid. record { explained = own refl; at_least = omega arith; at_most = low nid })
      λ nid d best v i p q lt. record {
        explained = inherited i q.explained refl;
        at_least = omega (arith, p.at_least);
        at_most = omega (arith, decay-le v, q.at_most);
      }
