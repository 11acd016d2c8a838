-- ===== src/Graph/Risk/Namespaces.antt =====
-- The totals of each namespace, against a count over the components.
use mathlib.Core.List.{foldl}
use mathlib.Core.Path.{fun_ext}
use mirops.Prelude.{
  ℕ, ◌+◌, ◌<◌, ◌≡◌, ◌≢◌, refl, sym, ◌∙◌, ap, String, Bool, true, false, Option, none, some, List,
  [], ◌∷◌, inl, inr, ◌⊎◌, ◌↔◌, arith, In, map, length, count_if, select, leb, max, if◌then◌else◌,
  ◌==◌, eq_of_==, ==_refl, Bool-cases, Option-cases, In-append, Distinct, Distinct-concat,
}
use mathlib.Core.Option.{some-injective, some-ne-none}
use mirops.Prelude.Maps.{Map, get_or, get_or-insert}
use mirops.Graph.{Component}
use mirops.Graph.Risk.{
  NamespaceRisk, Totals, Buckets, namespace_bucket, add_to_totals, tally, no_totals, no_buckets,
  aggregate_by_namespace, at_risk_threshold,
}

-- The components of a namespace.
abbrev pub members : String → List Component → List Component
members ns = select (λ n. ns == namespace_bucket n)

abbrev pub highest_risk : List Component → ℕ
highest_risk [] = 0
highest_risk (n ∷ ns) = max n.risk (highest_risk ns)

abbrev pub is_at_risk : Component → Bool
is_at_risk n = leb at_risk_threshold n.risk

totals_from :
    (a : Totals) (ns : List Component)
    → foldl add_to_totals a ns ≡ record {
      risk = max a.risk (highest_risk ns);
      count = a.count + length ns;
      at_risk = a.at_risk + count_if is_at_risk ns;
    }
unfolding add_to_totals
totals_from a [] = ground arith
totals_from a (n ∷ ns) = ground (arith, totals_from (add_to_totals a n) ns)

same_totals :
    (by_ns : Map Totals) (n : Component) (k ns : String) (a : Totals)
    → get_or by_ns k no_totals ≡ a
    → (if ns == k then add_to_totals a n else get_or by_ns ns no_totals)
      ≡ (if ns == k then add_to_totals (get_or by_ns ns no_totals) n else get_or by_ns ns no_totals)
same_totals by_ns n k ns a e = go (Bool-cases (ns == k))
  where
    go :
        ((ns == k) ≡ true) ⊎ ((ns == k) ≡ false)
        → (if ns == k then add_to_totals a n else get_or by_ns ns no_totals) ≡ (
            if ns == k
            then add_to_totals (get_or by_ns ns no_totals) n
            else get_or by_ns ns no_totals)
    go (inl s) = rw s (
        ap (λ t. add_to_totals t n)
          (sym e ∙ ap (λ j. get_or by_ns j no_totals) (sym (eq_of_== ns k s))))
    go (inr s) = rw s

by_ns-tally :
    (b : Buckets) (n : Component) (ns : String)
    → get_or (tally b n).by_ns ns no_totals ≡ (
        if ns == namespace_bucket n
        then add_to_totals (get_or b.by_ns ns no_totals) n
        else get_or b.by_ns ns no_totals)
unfolding tally
by_ns-tally b n ns = elim (Option-cases (b.by_ns (namespace_bucket n))) [
  | inl new ↦
      rw (new, tally)
        (get_or-insert (namespace_bucket n) (add_to_totals no_totals n) b.by_ns ns no_totals
          ∙ same_totals b.by_ns n (namespace_bucket n) ns no_totals (rw (new, get_or)))
  | inr (a, old) ↦
      rw (old, tally)
        (get_or-insert (namespace_bucket n) (add_to_totals a n) b.by_ns ns no_totals
          ∙ same_totals b.by_ns n (namespace_bucket n) ns a (rw (old, get_or)))
]

by_ns-foldl :
    (b : Buckets) (ns : String) (nodes : List Component)
    → get_or (foldl tally b nodes).by_ns ns no_totals
      ≡ foldl add_to_totals (get_or b.by_ns ns no_totals) (members ns nodes)
by_ns-foldl b ns [] = refl
by_ns-foldl b ns (n ∷ nodes) =
    by_ns-foldl (tally b n) ns nodes
    ∙ ap (λ a. foldl add_to_totals a (members ns nodes)) (by_ns-tally b n ns)
    ∙ go (Bool-cases (ns == namespace_bucket n))
  where
    go :
        ((ns == namespace_bucket n) ≡ true) ⊎ ((ns == namespace_bucket n) ≡ false)
        → foldl add_to_totals
            (if ns == namespace_bucket n
              then add_to_totals (get_or b.by_ns ns no_totals) n
              else get_or b.by_ns ns no_totals)
            (members ns nodes)
          ≡ foldl add_to_totals (get_or b.by_ns ns no_totals) (members ns (n ∷ nodes))
    go (inl e) = rw (e, select)
    go (inr e) = rw (e, select)

-- The order lists the keys of the map, each once.
record IsOrdered (b : Buckets) : Type 0 where
  once : Distinct b.order
  listed : (ns : String) → b.by_ns ns ≢ none → In ns b.order
  known : (ns : String) → In ns b.order → b.by_ns ns ≢ none
  counted : (ns : String) (a : Totals) → b.by_ns ns ≡ some a → 0 < a.count

insert_ne_none :
    (b : Bool) (v : Totals) (o : Option Totals)
    → (if b then some v else o) ≢ none
    → (b ≡ true) ⊎ (o ≢ none)
insert_ne_none true v o h = inl refl
insert_ne_none false v o h = inr h

ne_none_insert :
    (b : Bool) (v : Totals) (o : Option Totals)
    → (b ≡ true) ⊎ (o ≢ none)
    → (if b then some v else o) ≢ none
ne_none_insert true v o h e = cc
ne_none_insert false v o (inl h) e = cc
ne_none_insert false v o (inr h) e = h e

count-add_to_totals : (a : Totals) (n : Component) → 0 < (add_to_totals a n).count
unfolding add_to_totals
count-add_to_totals a n = omega arith

counted_insert :
    (b : Bool) (v a : Totals) (o : Option Totals)
    → 0 < v.count
    → (o ≡ some a → 0 < a.count)
    → (if b then some v else o) ≡ some a
    → 0 < a.count
counted_insert true v a o p q e = rw (← some-injective v a e) p
counted_insert false v a o p q e = q e

tally-IsOrdered : (b : Buckets) (n : Component) → IsOrdered b → IsOrdered (tally b n)
unfolding tally
tally-IsOrdered b n h =
    let k = namespace_bucket n in
    elim (Option-cases (b.by_ns k)) [
      | inl new ↦
          rw (new, tally)
            (record {
              once = Distinct-concat b.order k h.once (λ i. h.known k i new);
              listed = λ ns e.
                  (In-append ns b.order (k ∷ [])).1
                    (elim (insert_ne_none (ns == k) (add_to_totals no_totals n) (b.by_ns ns) e) [
                      | inl t ↦ inr (inl (eq_of_== ns k t))
                      | inr o ↦ inl (h.listed ns o)
                    ]);
              known = λ ns i.
                  ne_none_insert (ns == k) (add_to_totals no_totals n) (b.by_ns ns)
                    (elim ((In-append ns b.order (k ∷ [])).0 i) [
                      | inl old ↦ inr (h.known ns old)
                      | inr last ↦ elim last [ inl e ↦ inl (rw e (==_refl k)) | inr z ↦ elim z [ ] ]
                    ]);
              counted = λ ns a.
                  counted_insert (ns == k) _ a (b.by_ns ns) (count-add_to_totals no_totals n)
                    (h.counted ns a);
            })
      | inr (a, old) ↦
          rw (old, tally)
            (record {
              once = h.once;
              listed = λ ns e. elim (insert_ne_none (ns == k) (add_to_totals a n) (b.by_ns ns) e) [
                | inl t ↦ h.listed ns (λ q.
                    let p : some a ≡ none = sym old ∙ ap b.by_ns (sym (eq_of_== ns k t)) ∙ q in
                    some-ne-none a p)
                | inr o ↦ h.listed ns o
              ];
              known = λ ns i.
                  ne_none_insert (ns == k) (add_to_totals a n) (b.by_ns ns) (inr (h.known ns i));
              counted = λ ns c.
                  counted_insert (ns == k) _ c (b.by_ns ns) (count-add_to_totals a n)
                    (h.counted ns c);
            })
    ]

no_buckets-IsOrdered : IsOrdered no_buckets
no_buckets-IsOrdered = record {
  once = tt;
  listed = λ ns e. absurd (e refl);
  known = λ ns i. elim i [ ];
  counted = λ ns a e. cc;
}

foldl-tally-IsOrdered :
    (b : Buckets) (nodes : List Component) → IsOrdered b → IsOrdered (foldl tally b nodes)
foldl-tally-IsOrdered b [] h = h
foldl-tally-IsOrdered b (n ∷ nodes) h =
    foldl-tally-IsOrdered (tally b n) nodes (tally-IsOrdered b n h)

-- What the components of a namespace come to.
abbrev pub summary : List Component → String → NamespaceRisk
summary nodes ns = record {
  namespace = ns;
  risk = highest_risk (members ns nodes);
  components = length (members ns nodes);
  at_risk = count_if is_at_risk (members ns nodes);
}

totals_of_namespace :
    (nodes : List Component) (ns : String)
    → get_or (foldl tally no_buckets nodes).by_ns ns no_totals ≡ record {
      risk = highest_risk (members ns nodes);
      count = length (members ns nodes);
      at_risk = count_if is_at_risk (members ns nodes);
    }
totals_of_namespace nodes ns =
    by_ns-foldl no_buckets ns nodes ∙ totals_from no_totals (members ns nodes) ∙ ground arith

has_member :
    (nodes : List Component) (ns : String)
    → (foldl tally no_buckets nodes).by_ns ns ≢ none
    → 0 < length (members ns nodes)
has_member nodes ns h = elim (Option-cases ((foldl tally no_buckets nodes).by_ns ns)) [
  | inl e ↦ absurd (h e)
  | inr (a, e) ↦
      let p = (foldl-tally-IsOrdered no_buckets nodes no_buckets-IsOrdered).counted ns a e in
      let q = ap (λ (t : Totals). t.count) (rw (e, get_or) at (totals_of_namespace nodes ns)) in
      omega arith
]

-- Each namespace that has a component is listed once, in an order without repetitions, and its
-- entry holds the highest risk, the number of its components and the number of those at risk.
pub aggregate_by_namespace_lem :
    (nodes : List Component)
    → (order : List String) × (aggregate_by_namespace nodes ≡ map (summary nodes) order)
      × Distinct order
      × ((ns : String) → In ns order ↔ (0 < length (members ns nodes)))
unfolding aggregate_by_namespace
aggregate_by_namespace_lem nodes =
    let b = foldl tally no_buckets nodes in
    let inv = foldl-tally-IsOrdered no_buckets nodes no_buckets-IsOrdered in
    (
      b.order,
      ap (λ f. map f b.order)
          (fun_ext λ ns.
            ap
              (λ (t : Totals).
                let r : NamespaceRisk = record {
                  namespace = ns;
                  risk = t.risk;
                  components = t.count;
                  at_risk = t.at_risk;
                } in
                r)
              (totals_of_namespace nodes ns)),
      inv.once,
      λ ns. (
        λ i. has_member nodes ns (inv.known ns i),
        λ lt. inv.listed ns (λ e.
            let q =
              ap (λ (t : Totals). t.count) (rw (e, get_or) at (totals_of_namespace nodes ns)) in
            absurd (omega arith)),
      ),
    )
