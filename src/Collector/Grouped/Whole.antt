-- ===== src/Collector/Grouped/Whole.antt =====
-- The loop over the pods as a whole.
use mathlib.Core.List.{append-nil, append_assoc}
use mirops.Prelude.{
  ◌+◌, ◌≡◌, refl, sym, ap, ◌∙◌, String, Bool, List, [], ◌∷◌, ◌++◌, map, select, count_if, arith,
  Bool-cases, inl, inr,
}
use mirops.Prelude.Maps.{Map, get_or}
use mirops.Collector.Objects.{Api, Pod}
use mirops.Collector.Walk.{
  Walk, Shelf, deployments, new_walk, pod_issue, bare_pod, workload_pod, is_counted, walk_pods,
}
use mirops.Collector.Grouped.{shelf_of, under, filed, is_broken, is_bare, Adds}
use mirops.Collector.Grouped.Filing.{stays}
use mirops.Collector.Grouped.Visit.{visit_pod-Adds}

-- Selecting from a list in front of another.

select-cons :
    {A : Type 0} (p : A → Bool) (x : A) (xs : List A)
    → select p (x ∷ xs) ≡ select p (x ∷ []) ++ select p xs
select-cons p x xs = elim (Bool-cases (p x)) [
  | inl e ↦ rw (e, select) refl
  | inr e ↦ rw (e, select) refl
]

count_if-cons :
    {A : Type 0} (p : A → Bool) (x : A) (xs : List A)
    → count_if p (x ∷ xs) ≡ count_if p (x ∷ []) + count_if p xs
count_if-cons p x xs = ground arith

map-append : {A B : Type 0} (f : A → B) (xs ys : List A) → map f (xs ++ ys) ≡ map f xs ++ map f ys
map-append f [] ys = refl
map-append f (x ∷ xs) ys = ap (λ l. f x ∷ l) (map-append f xs ys)

-- What is made of the selected elements, piece by piece.
chain :
    {A B : Type 0} (f : List A → List B)
    → ((xs ys : List A) → f (xs ++ ys) ≡ f xs ++ f ys)
    → (p : A → Bool) (x : A) (xs : List A) (a b c : List B) → b ≡ a ++ f (select p (x ∷ []))
    → c ≡ b ++ f (select p xs)
    → c ≡ a ++ f (select p (x ∷ xs))
chain f hom p x xs a b c e g =
    g
    ∙ ap (λ l. l ++ f (select p xs)) e
    ∙ append_assoc a (f (select p (x ∷ []))) (f (select p xs))
    ∙ ap (λ l. a ++ l) (sym (ap f (select-cons p x xs) ∙ hom (select p (x ∷ [])) (select p xs)))

module _ (excluded : Map Bool) (rs : Map String) where
  filed-append :
      (shelf : Shelf) (k : String) (xs ys : List Pod)
      → filed rs shelf k (xs ++ ys) ≡ filed rs shelf k xs ++ filed rs shelf k ys
  filed-append shelf k [] ys = refl
  filed-append shelf k (x ∷ xs) ys =
      ap (λ l. under rs shelf k x.namespace (workload_pod x) x.owners ++ l)
        (filed-append shelf k xs ys)
      ∙ sym (
          append_assoc (under rs shelf k x.namespace (workload_pod x) x.owners)
            (filed rs shelf k xs) (filed rs shelf k ys))

  Adds-nil : (w : Walk) → Adds excluded rs [] w w
  Adds-nil w = record {
    total = omega arith;
    not_ready = omega arith;
    issues = sym (append-nil w.pod_issues);
    bare = sym (append-nil w.bare_pods);
    shelves = λ shelf k. stays (shelf_of shelf w) k;
  }

  Adds-cons :
      (pod : Pod) (rest : List Pod) (u v w : Walk)
      → Adds excluded rs (pod ∷ []) u v
      → Adds excluded rs rest v w
      → Adds excluded rs (pod ∷ rest) u w
  Adds-cons pod rest u v w a b = record {
    total = omega (arith, a.total, b.total, count_if-cons (is_counted excluded) pod rest);
    not_ready =
        omega (arith, a.not_ready, b.not_ready, count_if-cons (is_broken excluded) pod rest);
    issues =
        chain (map pod_issue) (map-append pod_issue) (is_broken excluded) pod rest _ _ _ a.issues
          b.issues;
    bare =
        chain (map bare_pod) (map-append bare_pod) (is_bare excluded) pod rest _ _ _ a.bare b.bare;
    shelves = λ shelf k.
        chain (filed rs shelf k) (filed-append shelf k) (is_broken excluded) pod rest _ _ _
          (a.shelves shelf k) (b.shelves shelf k);
  }

  walk_pods-Adds :
      (A : Api) (pods : List Pod) (w : Walk) (s : A.State)
      → Adds excluded rs pods w (walk_pods A excluded rs pods w s).0
  unfolding walk_pods
  walk_pods-Adds A [] w s = Adds-nil w
  walk_pods-Adds A (pod ∷ rest) w s =
      Adds-cons pod rest w _ _ (visit_pod-Adds excluded rs _ w pod) (walk_pods-Adds A rest _ _)

empty_shelf : (shelf : Shelf) (k : String) → get_or (shelf_of shelf new_walk) k [] ≡ []
unfolding new_walk
empty_shelf deployments k = refl
empty_shelf other k = refl

-- Whatever the clock says, after the loop all pods are counted that are in scope and have not
-- succeeded, of these exactly the ones that are not ready are counted as such and listed, in order,
-- exactly the ones without an owner are mirrored as bare pods, and in each of the four maps the pods
-- filed under a key are exactly the ones that are not ready, once for each owner that leads to that
-- map and key.
pub walk_pods_lem :
    (A : Api) (excluded : Map Bool) (rs : Map String) (pods : List Pod) (s : A.State)
    → let w : Walk = (walk_pods A excluded rs pods new_walk s).0 in
      (w.total_pods ≡ count_if (is_counted excluded) pods)
      × (w.not_ready_pods ≡ count_if (is_broken excluded) pods)
      × (w.pod_issues ≡ map pod_issue (select (is_broken excluded) pods))
      × (w.bare_pods ≡ map bare_pod (select (is_bare excluded) pods))
      × ((shelf : Shelf) (k : String)
          → get_or (shelf_of shelf w) k [] ≡ filed rs shelf k (select (is_broken excluded) pods))
unfolding new_walk
walk_pods_lem A excluded rs pods s =
    let a = walk_pods-Adds excluded rs A pods new_walk s in
    (
      omega (arith, a.total),
      omega (arith, a.not_ready),
      a.issues,
      a.bare,
      λ shelf k.
          a.shelves shelf k
          ∙ ap (λ l. l ++ filed rs shelf k (select (is_broken excluded) pods))
              (empty_shelf shelf k),
    )
