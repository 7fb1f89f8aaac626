-- ===== src/Metrics/Gauge.antt =====
-- The gauge of the results in each namespace.
use k8sgpt_operator.Common.{
  ℕ, zero, suc, ◌+◌, ◌<◌, String, List, [], ◌∷◌, Option, none, some, lookup, lookup-nil, or_else,
  ◌≡◌, refl, ap, ◌∙◌, ◌==◌, if◌then◌else◌, Bool-cases, inl, inr, eq_iff, arith,
}
use k8sgpt_operator.Maps.{first_of, lookup-set_entry, lookup-set_entries}
use k8sgpt_operator.Api.Result.{ResultSpec}
use k8sgpt_operator.Metrics.{
  get_result_object_namespace, count_in, get_results_per_namespace, set_k8sgpt_number_of_results,
  occurrences,
}

abbrev plus : Option ℕ → ℕ → Option ℕ
plus o zero = o
plus o (suc n) = some (or_else 0 o + suc n)

plus-suc : (o : Option ℕ) (n : ℕ) → plus (some (suc (or_else 0 o))) n ≡ plus o (suc n)
plus-suc o zero = ap some (omega arith)
plus-suc o (suc n) = ap some (omega arith)

lookup-count_in :
    (x k : String) (counts : List (String × ℕ))
    → lookup k (count_in x counts)
      ≡ (if x == k then some (suc (or_else 0 (lookup k counts))) else lookup k counts)
lookup-count_in x k counts = elim (Bool-cases (x == k)) [
  | inl h ↦
      rw (lookup-set_entry x k (suc (or_else 0 (lookup x counts))) counts, h)
        (ap (λ y. some (suc (or_else 0 (lookup y counts)))) ((eq_iff x k).0 h))
  | inr h ↦ rw (lookup-set_entry x k (suc (or_else 0 (lookup x counts))) counts, h) refl
]

lookup-get_results_per_namespace :
    (rs : List ResultSpec) (counts : List (String × ℕ)) (k : String)
    → lookup k (get_results_per_namespace rs counts) ≡ plus (lookup k counts) (occurrences k rs)
unfolding get_results_per_namespace
lookup-get_results_per_namespace [] counts k = refl
lookup-get_results_per_namespace (r ∷ rs) counts k =
    let x = get_result_object_namespace r in
    let ih = lookup-get_results_per_namespace rs (count_in x counts) k in
    elim (Bool-cases (x == k)) [
      | inl h ↦
          ih
          ∙ ap (λ o. plus o (occurrences k rs)) (lookup-count_in x k counts)
          ∙ rw h (plus-suc (lookup k counts) (occurrences k rs))
      | inr h ↦ ih ∙ ap (λ o. plus o (occurrences k rs)) (lookup-count_in x k counts) ∙ rw h refl
    ]

abbrev counted : ℕ → Option ℕ → Option ℕ
counted zero before = before
counted (suc n) before = some (suc n)

first_of-plus : (n : ℕ) (before : Option ℕ) → first_of (plus none n) before ≡ counted n before
first_of-plus zero before = refl
first_of-plus (suc n) before = ap some (omega arith)

-- After an analysis the gauge of a namespace is the number of its results, where it has any; a
-- namespace without results keeps the number that an earlier analysis left.
pub lookup-set_k8sgpt_number_of_results :
    (rs : List ResultSpec) (values : List (String × ℕ)) (namespace : String)
    → (0 < occurrences namespace rs
        → lookup namespace (set_k8sgpt_number_of_results rs values)
          ≡ some (occurrences namespace rs))
      × (occurrences namespace rs ≡ 0
          → lookup namespace (set_k8sgpt_number_of_results rs values) ≡ lookup namespace values)
unfolding set_k8sgpt_number_of_results
lookup-set_k8sgpt_number_of_results rs values namespace =
    let value =
      lookup-set_entries namespace (get_results_per_namespace rs []) values
      ∙ ap (λ o. first_of o (lookup namespace values))
          (lookup-get_results_per_namespace rs [] namespace
            ∙ ap (λ o. plus o (occurrences namespace rs)) (lookup-nil namespace))
      ∙ first_of-plus (occurrences namespace rs) (lookup namespace values) in
    (
      λ h. value ∙ some_counted (occurrences namespace rs) (lookup namespace values) h,
      λ h. value ∙ ap (λ n. counted n (lookup namespace values)) h,
    )
  where
    some_counted : (n : ℕ) (before : Option ℕ) → 0 < n → counted n before ≡ some n
    some_counted zero before h = absurd (omega arith)
    some_counted (suc n) before h = refl
