-- ===== src/Graph/Risk/Compute.antt =====
-- The recursion of `ApplyRisk`: it returns within its fuel on every graph, cyclic ones too, and its
-- results lie between a component's own risk and any bound on all own risks.
use mirops.Prelude.{
  ℕ, zero, suc, ◌≤◌, ◌<◌, ◌≡◌, refl, String, Bool, true, false, Option, none, some, List, [], ◌∷◌,
  inl, inr, arith, In, All, count_if, if◌then◌else◌, Bool-cases, Option-cases, ◌==◌, not, ap, sym,
  ◌∙◌, ◌>>=◌, ◌⊎◌, eq_of_==,
}
use mirops.Prelude.Maps.{Map, insert, get_or, get_or-insert}
use mirops.Graph.Risk.{Memo, inherit, compute}

unfoldable pub visits : Memo → String → Bool
visits m k = get_or m.visiting k false

-- The call returned, and left the set of components being visited as it found it.
abbrev pub Ends : Memo → Option (ℕ × Memo) → Type 0
Ends m none = ⊥
Ends m (some (v, m')) = (k : String) → visits m' k ≡ visits m k

Ends-trans :
    (m m' : Memo)
    → ((k : String) → visits m' k ≡ visits m k)
    → (r : Option (ℕ × Memo)) → Ends m' r
    → Ends m r
Ends-trans m m' same none h = h
Ends-trans m m' same (some (v, m'')) h = λ k. h k ∙ same k

Ends-bind :
    (m : Memo) (r : Option (ℕ × Memo)) (k : ℕ × Memo → Option (ℕ × Memo))
    → Ends m r
    → ((v : ℕ) (m' : Memo) → ((j : String) → visits m' j ≡ visits m j) → Ends m (k (v, m')))
    → Ends m (r >>= k)
Ends-bind m none k e f = elim e [ ]
Ends-bind m (some (v, m')) k e f = f v m' e

abbrev pub enter : String → Memo → Memo
enter nid m = record m { visiting = insert nid true m.visiting }

pub visits-enter :
    (nid : String) (m : Memo) (k : String)
    → visits (enter nid m) k ≡ (if k == nid then true else visits m k)
unfolding visits
visits-enter nid m k = get_or-insert nid true m.visiting k false

-- The exit clears the mark of a component that was not being visited on entry.
pub visits-exit :
    (nid : String) (m m' : Memo) (eff : Map ℕ)
    → visits m nid ≡ false
    → ((k : String) → visits m' k ≡ visits (enter nid m) k)
    → (k : String)
    → visits (record { eff = eff; visiting = insert nid false m'.visiting }) k ≡ visits m k
unfolding visits
visits-exit nid m m' eff fresh same k =
    get_or-insert nid false m'.visiting k false ∙ go (Bool-cases (k == nid))
  where
    go :
        ((k == nid) ≡ true) ⊎ ((k == nid) ≡ false)
        → (if k == nid then false else get_or m'.visiting k false) ≡ get_or m.visiting k false
    go (inl e) = rw (e, eq_of_== k nid e) (sym fresh)
    go (inr e) = rw e (same k ∙ get_or-insert nid true m.visiting k false ∙ rw e)

-- The components that are not being visited.
abbrev pub unvisited : List String → Memo → ℕ
unvisited u m = count_if (λ k. not (visits m k)) u

Ends-bind' :
    (nid : String) (m : Memo) (r : Option (ℕ × Memo)) (eff : ℕ × Memo → Map ℕ)
    → visits m nid ≡ false
    → Ends (enter nid m) r
    → Ends m
        (r >>= λ x. some (x.0, record { eff = eff x; visiting = insert nid false x.1.visiting }))
Ends-bind' nid m none eff fresh e = elim e [ ]
Ends-bind' nid m (some (v, m')) eff fresh e = visits-exit nid m m' _ fresh e

pub unvisited_same :
    (u : List String) (m m' : Memo)
    → ((k : String) → visits m' k ≡ visits m k)
    → unvisited u m' ≡ unvisited u m
unvisited_same [] m m' h = refl
unvisited_same (k ∷ u) m m' h = ground (arith, h k, unvisited_same u m m' h)

unvisited-enter_le :
    (u : List String) (nid : String) (m : Memo) → unvisited u (enter nid m) ≤ unvisited u m
unvisited-enter_le [] nid m = omega arith
unvisited-enter_le (k ∷ u) nid m = ground (arith, visits-enter nid m k, unvisited-enter_le u nid m)

unvisited-enter :
    (u : List String) (nid : String) (m : Memo)
    → In nid u
    → visits m nid ≡ false
    → unvisited u (enter nid m) < unvisited u m
unvisited-enter [] nid m h v = elim h [ ]
unvisited-enter (k ∷ u) nid m (inl e) v =
    ground (arith, visits-enter nid m k, ap (visits m) e, unvisited-enter_le u nid m)
unvisited-enter (k ∷ u) nid m (inr h) v =
    ground (arith, visits-enter nid m k, unvisited-enter u nid m h v)

module _ (base : Map ℕ) (deps : Map (List String)) (u : List String) where
  inherit-Ends :
      (c : String → Memo → Option (ℕ × Memo)) (n : ℕ)
      → ((d : String) (m : Memo) → In d u → unvisited u m < n → Ends m (c d m))
      → (ds : List String) (best : ℕ) (m : Memo) → All (λ d. In d u) ds
      → unvisited u m < n
      → Ends m (inherit base deps c ds best m)
  unfolding inherit
  inherit-Ends c n hc [] best m h lt = λ k. refl
  inherit-Ends c n hc (d ∷ ds) best m h lt = Ends-bind m (c d m) _ (hc d m h.0 lt) λ v m' same.
      Ends-trans m m' same _
        (inherit-Ends c n hc ds _ m' h.1 (let s = unvisited_same u m m' same in omega arith))

  module _ (closed : (k : String) → All (λ d. In d u) (get_or deps k [])) where
    -- Enough fuel for the components that are not being visited is enough for the call.
    pub compute-Ends :
        (f : ℕ) (nid : String) (m : Memo)
        → In nid u
        → unvisited u m < f
        → Ends m (compute base deps f nid m)
    unfolding compute
    compute-Ends zero nid m h lt = elim lt [ ]
    compute-Ends (suc f) nid m h lt = elim (Option-cases (m.eff nid)) [
      | inr (v, known) ↦ rw (known, compute) (λ k. refl)
      | inl new ↦ elim (Bool-cases (get_or m.visiting nid false)) [
        | inl cycle ↦ rw (new, cycle, compute) (λ k. refl)
        | inr fresh ↦
            rw (new, fresh, compute)
              (Ends-bind' nid m _ _ (unfold visits in fresh) (
                inherit-Ends (compute base deps f) (unvisited u m)
                  (λ d m' hd lt'. compute-Ends f d m' hd (omega arith)) (get_or deps nid []) _
                  (enter nid m) (closed nid) (unvisited-enter u nid m h (unfold visits in fresh))))
      ]
    ]
