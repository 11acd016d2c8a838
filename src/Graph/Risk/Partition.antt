-- ===== src/Graph/Risk/Partition.antt =====
-- The namespaces' totals, added up.
use mirops.Prelude.{
  ℕ, suc, ◌+◌, ◌<◌, ◌≡◌, refl, sym, ap, ◌∙◌, String, Bool, true, List, [], ◌∷◌, arith, In, All,
  All-mono, All-In, Distinct, inl, inr, length, map, count_if, select-In, if◌then◌else◌, ◌==◌,
  eq_of_==, ==_refl, Bool-cases,
}
use mirops.Graph.{Component}
use mirops.Graph.Risk.{NamespaceRisk, namespace_bucket, aggregate_by_namespace}
use mirops.Graph.Risk.Namespaces.{members, is_at_risk, summary, aggregate_by_namespace_lem}

unfoldable pub sum {ℓ} : {A : Type ℓ} → (A → ℕ) → List A → ℕ
sum f [] = 0
sum f (x ∷ xs) = f x + sum f xs

abbrev share : String → ℕ → String → ℕ
share k v ns = if ns == k then v else 0

sum-share_absent :
    (k : String) (v : ℕ) (order : List String) → ¬ In k order → sum (share k v) order ≡ 0
unfolding sum
sum-share_absent k v [] h = refl
sum-share_absent k v (ns ∷ order) h =
    let rest = sum-share_absent k v order (λ i. h (inr i)) in
    elim (Bool-cases (ns == k)) [
      | inl e ↦ absurd (h (inl (sym (eq_of_== ns k e))))
      | inr e ↦ ground arith
    ]

sum-share :
    (k : String) (v : ℕ) (order : List String)
    → Distinct order
    → In k order
    → sum (share k v) order ≡ v
unfolding sum
sum-share k v [] d i = elim i [ ]
sum-share k v (ns ∷ order) (fresh, d) (inl e) =
    let rest = sum-share_absent k v order (λ j. fresh (rw (← e) j)) in
    let same : (ns == k) ≡ true = rw (← e) (==_refl k) in ground arith
sum-share k v (ns ∷ order) (fresh, d) (inr i) =
    let rest = sum-share k v order d i in
    elim (Bool-cases (ns == k)) [
      | inl e ↦ absurd (fresh (rw (eq_of_== ns k e) i))
      | inr e ↦ ground arith
    ]

sum-add :
    (f g h : String → ℕ) (order : List String)
    → ((ns : String) → h ns ≡ f ns + g ns)
    → sum h order ≡ sum f order + sum g order
unfolding sum
sum-add f g h [] e = refl
sum-add f g h (ns ∷ order) e = omega (arith, e ns, sum-add f g h order e)

sum-zero : (order : List String) → sum (λ _. 0) order ≡ 0
unfolding sum
sum-zero [] = refl
sum-zero (ns ∷ order) = omega (arith, sum-zero order)

module _ (p : Component → Bool) where
  abbrev counts : Component → ℕ
  counts n = if p n then 1 else 0

  count-members :
      (n : Component) (nodes : List Component) (ns : String)
      → count_if p (members ns (n ∷ nodes))
        ≡ share (namespace_bucket n) (counts n) ns + count_if p (members ns nodes)
  count-members n nodes ns = ground arith

  -- The members of namespaces that cover the components, each listed once, are the components.
  sum-members :
      (order : List String) (nodes : List Component)
      → Distinct order
      → All (λ n. In (namespace_bucket n) order) nodes
      → sum (λ ns. count_if p (members ns nodes)) order ≡ count_if p nodes
  sum-members order [] d h = sum-zero order
  sum-members order (n ∷ nodes) d (i, h) =
      let rest = sum-members order nodes d h in
      let one = sum-share (namespace_bucket n) (counts n) order d i in
      let split =
        sum-add (share (namespace_bucket n) (counts n)) (λ ns. count_if p (members ns nodes))
          (λ ns. count_if p (members ns (n ∷ nodes))) order (count-members n nodes) in
      ground arith

pub sum-map :
    {A B : Type 0} (f : A → B) (g : B → ℕ) (xs : List A) → sum g (map f xs) ≡ sum (λ x. g (f x)) xs
unfolding sum
sum-map f g [] = refl
sum-map f g (x ∷ xs) = omega (arith, sum-map f g xs)

count_if-true : {A : Type 0} (xs : List A) → count_if (λ _. true) xs ≡ length xs
count_if-true [] = refl
count_if-true (x ∷ xs) = ap suc (count_if-true xs)

sum-cong :
    (f g : String → ℕ) (order : List String)
    → ((ns : String) → f ns ≡ g ns)
    → sum f order ≡ sum g order
unfolding sum
sum-cong f g [] e = refl
sum-cong f g (ns ∷ order) e = omega (arith, e ns, sum-cong f g order e)

length-In : {A : Type 0} (x : A) (xs : List A) → In x xs → 0 < length xs
length-In x [] i = elim i [ ]
length-In x (y ∷ ys) i = omega arith

-- The namespaces partition the components: their component counts add up to the number of
-- components, and their at-risk counts to the number of components at risk.
pub aggregate_by_namespace-total :
    (nodes : List Component)
    → (sum (λ (r : NamespaceRisk). r.components) (aggregate_by_namespace nodes) ≡ length nodes)
      × (sum (λ (r : NamespaceRisk). r.at_risk) (aggregate_by_namespace nodes)
          ≡ count_if is_at_risk nodes)
aggregate_by_namespace-total nodes =
    let (order, e, once, listed) = aggregate_by_namespace_lem nodes in
    let covered : All (λ n. In (namespace_bucket n) order) nodes =
      All-mono _ _
        (λ n i. (listed (namespace_bucket n)).1 (
          length-In n _ (
            select-In (λ m. namespace_bucket n == namespace_bucket m) n nodes
              (==_refl (namespace_bucket n)) i)))
        nodes (All-In nodes) in
    (
      ap (sum (λ (r : NamespaceRisk). r.components)) e
          ∙ sum-map (summary nodes) (λ (r : NamespaceRisk). r.components) order
          ∙ sum-cong _ _ order (λ ns. sym (count_if-true (members ns nodes)))
          ∙ sum-members (λ _. true) order nodes once covered
          ∙ count_if-true nodes,
      ap (sum (λ (r : NamespaceRisk). r.at_risk)) e
          ∙ sum-map (summary nodes) (λ (r : NamespaceRisk). r.at_risk) order
          ∙ sum-members is_at_risk order nodes once covered,
    )
