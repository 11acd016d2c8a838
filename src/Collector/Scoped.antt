-- ===== src/Collector/Scoped.antt =====
-- internal/collector/cluster_collectorI.go: which namespaces a scope leaves out.
pub mod Pods
pub mod Steps
pub mod Whole
use mathlib.Core.Bool.{false≢true}
use mathlib.Core.List.{foldl}
use mirops.Prelude.{
  ◌≡◌, ◌↔◌, ◌⊎◌, inl, inr, refl, sym, ◌∙◌, apart, String, Bool, true, false, List, [], ◌∷◌, In,
  ◌==◌, eq_of_==, if◌then◌else◌, Bool-cases,
}
use mirops.Prelude.Maps.{Map, empty, insert, get_or, get_or-insert}
use mirops.Collector.Walk.{Scope, mark, in_scope, excluded_of, system_namespaces}

-- The namespaces that a scope leaves out, as its documentation says it.
abbrev pub IsExcluded : Scope → String → Type 0
IsExcluded scope ns =
    In ns scope.exclude_namespaces ⊎ ((scope.mode ≡ "application") × In ns system_namespaces)

mark_lem :
    (l : List String) (m : Map Bool) (ns : String)
    → (get_or (foldl mark m l) ns false ≡ true) ↔ ((get_or m ns false ≡ true) ⊎ In ns l)
mark_lem [] m ns = (λ h. inl h, λ h. elim h [ inl a ↦ a | inr z ↦ elim z [ ] ])
mark_lem (x ∷ l) m ns =
    let ih = mark_lem l (mark m x) ns in
    let read = get_or-insert x true m ns false in
    elim (Bool-cases (ns == x)) [
      | inl e ↦ (λ h. inr (inl (eq_of_== ns x e)), λ h. ih.1 (inl (read ∙ (rw e))))
      | inr e ↦ (
        λ h. elim (ih.0 h) [ inl a ↦ inl (sym (read ∙ (rw e)) ∙ a) | inr i ↦ inr (inr i) ],
        λ h. elim h [
          | inl a ↦ ih.1 (inl ((read ∙ (rw e)) ∙ a))
          | inr i ↦ elim i [ inl q ↦ absurd (apart ns x e q) | inr j ↦ ih.1 (inr j) ]
        ],
      )
    ]

asked : Scope → Map Bool
asked scope = foldl mark empty scope.exclude_namespaces

asked_lem :
    (scope : Scope) (ns : String)
    → (get_or (asked scope) ns false ≡ true) ↔ In ns scope.exclude_namespaces
unfolding asked
asked_lem scope ns =
    let read = mark_lem scope.exclude_namespaces empty ns in
    (λ h. elim (read.0 h) [ inl a ↦ absurd (false≢true a) | inr i ↦ i ], λ i. read.1 (inr i))

-- What is left out is exactly what the scope says.
pub excluded_of_lem :
    (scope : Scope) (ns : String)
    → (get_or (excluded_of scope) ns false ≡ true) ↔ IsExcluded scope ns
unfolding excluded_of asked
excluded_of_lem scope ns = go (scope.mode == "application") refl
  where
    go :
        (b : Bool)
        → (scope.mode == "application") ≡ b
        → (get_or (if b then foldl mark (asked scope) system_namespaces else asked scope) ns false
            ≡ true)
          ↔ IsExcluded scope ns
    go true e =
        let read = mark_lem system_namespaces (asked scope) ns in
        (
          λ h. elim (read.0 h) [
            | inl a ↦ inl ((asked_lem scope ns).0 a)
            | inr i ↦ inr (eq_of_== scope.mode "application" e, i)
          ],
          λ h. elim h [
            | inl a ↦ read.1 (inl ((asked_lem scope ns).1 a))
            | inr i ↦ read.1 (inr i.1)
          ],
        )
    go false e = (
      λ h. inl ((asked_lem scope ns).0 h),
      λ h. elim h [
        | inl a ↦ (asked_lem scope ns).1 a
        | inr i ↦ absurd (apart scope.mode "application" e i.0)
      ],
    )

pub not-IsExcluded :
    (scope : Scope) (ns : String) → in_scope (excluded_of scope) ns ≡ true → ¬ IsExcluded scope ns
not-IsExcluded scope ns h x = let e = (excluded_of_lem scope ns).1 x in cc (h, e)
