-- ===== src/Controller/WatchTests.antt =====
-- The watch of the Secrets at a concrete configuration.
use k8sgpt_operator.Common.{
  String, Bool, true, false, ◌&&◌, List, [], ◌∷◌, some, ok, contains, Any, ◌≡◌, refl, sym, inl, inr,
  ◌↔◌, subst, Bool-cases, eq_iff, differs, ◌==◌, if◌then◌else◌,
}
use k8sgpt_operator.Api.K8sgpt.{K8sgpt}
use k8sgpt_operator.Fixtures.Configs.{ai_with, k8sgpt_with}
use k8sgpt_operator.Controller.Watch.{
  Request, request_for, find_k8sgpts_for_secret, UsesSecret, IsIndexed, Lister, keys_of,
  find_k8sgpts_for_secret_iff,
}

abbrev config : K8sgpt
config = record (k8sgpt_with []) {
  spec = record (k8sgpt_with []).spec {
    ai = some (record (ai_with []) { secret = some (record { name = "cloud"; key = "key" }) });
  };
}

-- A second configuration, of another namespace, that names a Secret of the same name.
abbrev elsewhere : K8sgpt
elsewhere = record config { namespace = "other" }

abbrev stored : List K8sgpt
stored = config ∷ elsewhere ∷ []

not_both : {b : Bool} → b ≡ true → b ≡ false → ⊥
not_both {b} h k = cc

-- The client of a manager that filters the stored configurations.
abbrev is_match : (namespace field value : String) → K8sgpt → Bool
is_match namespace field value c = c.namespace == namespace && contains value (keys_of field c)

abbrev matching : (namespace field value : String) → List K8sgpt → List K8sgpt
matching namespace field value [] = []
matching namespace field value (c ∷ cs) =
    let rest = matching namespace field value cs in
    if is_match namespace field value c then c ∷ rest else rest

abbrev list : Lister
list log namespace field value = ok (matching namespace field value stored)

contains-Any : (s : String) (xs : List String) → contains s xs ≡ true ↔ Any (λ x. x ≡ s) xs
unfolding contains
contains-Any s [] = (λ h. cc, λ h. absurd h)
contains-Any s (x ∷ xs) = elim (Bool-cases (x == s)) [
  | inl e ↦ (λ h. inl ((eq_iff x s).0 e), λ h. rw e refl)
  | inr e ↦ (
    λ h. inr ((contains-Any s xs).0 (rw e at h)),
    λ h. elim h [
      | inl same ↦ absurd (differs e same)
      | inr later ↦ rw e ((contains-Any s xs).1 later)
    ],
  )
]

abbrev Matches : (namespace field value : String) → K8sgpt → Type 0
Matches namespace field value c =
    (c.namespace ≡ namespace) × Any (λ key. key ≡ value) (keys_of field c)

is_match_iff :
    (namespace field value : String) (c : K8sgpt)
    → is_match namespace field value c ≡ true
      ↔ (c.namespace ≡ namespace) × Any (λ key. key ≡ value) (keys_of field c)
is_match_iff namespace field value c =
    let keys = contains-Any value (keys_of field c) in
    elim (Bool-cases (c.namespace == namespace)) [
      | inl e ↦
          (λ h. ((eq_iff c.namespace namespace).0 e, keys.0 (rw e at h)), λ h. rw e (keys.1 h.1))
      | inr e ↦ (λ h. let h' = rw e at h in cc, λ h. absurd (differs e h.0))
    ]

matching_iff :
    (namespace field value : String) (cs : List K8sgpt) (c' : K8sgpt)
    → Any (λ c. c ≡ c') (matching namespace field value cs)
      ↔ Any (λ c. c ≡ c') cs
        × (c'.namespace ≡ namespace)
        × Any (λ key. key ≡ value) (keys_of field c')
matching_iff namespace field value [] c' = (λ h. absurd h, λ h. absurd h.0)
matching_iff namespace field value (c ∷ cs) c' =
    let rest = matching_iff namespace field value cs c' in
    let test = is_match_iff namespace field value c in
    elim (Bool-cases (is_match namespace field value c)) [
      | inl e ↦ rw e (
        λ h. elim h [
          | inl same ↦
              let (here, key) = subst (λ x. Matches namespace field value x) same (test.0 e) in
              (inl same, here, key)
          | inr later ↦ let (at, here, key) = rest.0 later in (inr at, here, key)
        ],
        λ h. elim h.0 [ inl same ↦ inl same | inr later ↦ inr (rest.1 (later, h.1, h.2)) ],
      )
      | inr e ↦ rw e (
        λ h. let (at, here, key) = rest.0 h in (inr at, here, key),
        λ h. elim h.0 [
          | inl same ↦ absurd (
              not_both (test.1 (subst (λ x. Matches namespace field value x) (sym same) (h.1, h.2)))
                e)
          | inr later ↦ rest.1 (later, h.1, h.2)
        ],
      )
    ]

is_indexed : IsIndexed stored list
is_indexed log namespace field value answer placed e c =
    let same : matching namespace field value stored ≡ answer = cc in
    subst
      (λ (x : List K8sgpt).
        Any (λ y. y ≡ c) x
        ↔ Any (λ y. y ≡ c) stored
          × (c.namespace ≡ namespace)
          × Any (λ key. key ≡ value) (keys_of field c))
      same (matching_iff namespace field value stored c)

abbrev wanted : Request
wanted = record { namespace = "k8sgpt"; name = "k8sgpt" }

find_k8sgpts_for_secret_iff_example :
    Any (λ q. q ≡ wanted) (find_k8sgpts_for_secret list "k8sgpt" "cloud" []).0
    ↔ Any (λ c. (request_for c ≡ wanted) × UsesSecret "k8sgpt" "cloud" c) stored
find_k8sgpts_for_secret_iff_example =
    find_k8sgpts_for_secret_iff stored list "k8sgpt" "cloud" []
      (matching "k8sgpt" ".spec.ai.secret.name" "cloud" stored) wanted refl refl is_indexed refl
