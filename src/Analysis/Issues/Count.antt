-- ===== src/Analysis/Issues/Count.antt =====
-- How many issues a report lists.
use mirops.Prelude.{
  ◌+◌, ◌≡◌, refl, Bool, not, List, [], ◌∷◌, arith, length, length-append, length-map, length-select,
  count_if,
}
use mirops.Cluster.{ClusterSnapshot}
use mirops.Analysis.Issues.{state_issues, build_issues, job_failed}

count_if-not :
    {A : Type 0} (p : A → Bool) (xs : List A)
    → count_if p xs + count_if (λ x. not (p x)) xs ≡ length xs
count_if-not p [] = refl
count_if-not p (x ∷ xs) = ground (arith, count_if-not p xs)

length-state_issues :
    (s : ClusterSnapshot)
    → length (state_issues s)
      ≡ length s.pod_issues
        + length s.node_issues
        + length s.stateful_set_issues
        + length s.daemon_set_issues
        + count_if job_failed s.job_issues
unfolding state_issues
length-state_issues s = simp (length-append, length-map, length-select) (omega arith)

-- Every job counts once, as failed or as running.
pub length-build_issues :
    (s : ClusterSnapshot)
    → length (build_issues s)
      ≡ length s.pod_issues
        + length s.node_issues
        + length s.stateful_set_issues
        + length s.daemon_set_issues
        + length s.job_issues
        + length s.pdb_issues
        + length s.deprecated_api_list
unfolding build_issues
length-build_issues s =
    let t = length-state_issues s in
    let j = count_if-not job_failed s.job_issues in
    simp (length-append, length-map, length-select) (omega (arith, t, j))
