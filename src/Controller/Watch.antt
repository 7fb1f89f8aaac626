-- ===== src/Controller/Watch.antt =====
-- The watch of the Secrets in internal/controller/k8sgpt/k8sgpt_controller.go: the index of
-- SetupWithManager and findK8sGPTsForSecret.
use k8sgpt_operator.Common.{
  String, List, [], ◌∷◌, Option, none, some, map, Outcome, ok, err, Any, ◌≡◌, refl, sym, inl, inr,
  ◌↔◌, is_empty, ◌==◌, if◌then◌else◌, true, false, subst,
}
use k8sgpt_operator.Api.K8sgpt.{SecretRef, AiSpec, K8sgpt}
use k8sgpt_operator.Effect.{Effect, pure, call, ◌>>=◌}

abbrev names_in : Option SecretRef → List String
names_in none = []
names_in (some r) = if is_empty r.name then [] else r.name ∷ []

abbrev secret_names_of : Option AiSpec → List String
secret_names_of none = []
secret_names_of (some ai) = names_in ai.secret

-- The keys of a configuration in the index aiSecretIndexField.
unfoldable pub ai_secret_index : K8sgpt → List String
ai_secret_index config = secret_names_of config.spec.ai

-- reconcile.Request
pub record Request : Type 0 where
  pub namespace : String
  pub name : String

abbrev pub request_for : K8sgpt → Request
request_for config = record { namespace = config.namespace; name = config.name }

-- The key of the index.
abbrev pub ai_secret_index_field : String
ai_secret_index_field = ".spec.ai.secret.name"

-- r.List with InNamespace and with MatchingFields of one field.
pub data WatchCall : Type 0 where
  list_k8sgpts : (namespace field value : String) → WatchCall

-- What the manager's client answers to a list.
abbrev pub Lister : Type 0
Lister = List WatchCall → (namespace field value : String) → Outcome (List K8sgpt)

-- An error is only logged.
abbrev requests_of : Outcome (List K8sgpt) → List Request
requests_of (err e) = []
requests_of (ok configs) = map request_for configs

-- findK8sGPTsForSecret, given the namespace and the name of the Secret.
unfoldable pub find_k8sgpts_for_secret :
    Lister → (namespace name : String) → Effect WatchCall (List Request)
find_k8sgpts_for_secret list namespace name = do
  found ←
      call (list_k8sgpts namespace ai_secret_index_field name)
        (λ log. list log namespace ai_secret_index_field name)
  pure (requests_of found)

-- The configuration takes its backend's credentials from the Secret.
abbrev pub UsesSecret : (namespace name : String) → K8sgpt → Type 0
UsesSecret namespace name config =
    (config.namespace ≡ namespace)
    × (ai : AiSpec) × (r : SecretRef) × (config.spec.ai ≡ some ai)
    × (ai.secret ≡ some r)
    × (r.name ≡ name)

-- The keys under a field: none but those of the index that SetupWithManager registers.
abbrev pub keys_of : (field : String) → K8sgpt → List String
keys_of field config = if field == ai_secret_index_field then ai_secret_index config else []

-- A list of any namespace that is not empty by any field and value, if it is answered, is answered
-- with the stored configurations of that namespace that have the value among their keys under the
-- field.
abbrev pub IsIndexed : List K8sgpt → Lister → Type 0
IsIndexed stored list =
    (log : List WatchCall) (namespace field value : String) (answer : List K8sgpt)
    → is_empty namespace ≡ false
    → list log namespace field value ≡ ok answer
    → (config : K8sgpt)
    → Any (λ c. c ≡ config) answer
      ↔ Any (λ c. c ≡ config) stored
        × (config.namespace ≡ namespace)
        × Any (λ key. key ≡ value) (keys_of field config)

module _ {A : Type 0} where
  Any-pick : (P : A → Type 0) (xs : List A) → Any P xs → (x : A) × Any (λ y. y ≡ x) xs × P x
  Any-pick P [] h = absurd h
  Any-pick P (x ∷ xs) (inl p) = (x, inl refl, p)
  Any-pick P (x ∷ xs) (inr h) = let (y, at, p) = Any-pick P xs h in (y, inr at, p)

  Any-at : (P : A → Type 0) (xs : List A) (x : A) → Any (λ y. y ≡ x) xs → P x → Any P xs
  Any-at P [] x h p = absurd h
  Any-at P (y ∷ ys) x (inl e) p = inl (subst P (sym e) p)
  Any-at P (y ∷ ys) x (inr h) p = inr (Any-at P ys x h p)

  Any-map :
      {B : Type 0} (f : A → B) (xs : List A) (b : B)
      → Any (λ y. y ≡ b) (map f xs) ↔ Any (λ x. f x ≡ b) xs
  Any-map f [] b = (λ h. h, λ h. h)
  Any-map f (x ∷ xs) b = (
    λ h. elim h [ inl e ↦ inl e | inr r ↦ inr ((Any-map f xs b).0 r) ],
    λ h. elim h [ inl e ↦ inl e | inr r ↦ inr ((Any-map f xs b).1 r) ],
  )

named_in :
    (secret : Option SecretRef) (name : String)
    → Any (λ key. key ≡ name) (names_in secret)
    → (r : SecretRef) × (secret ≡ some r) × (r.name ≡ name)
named_in none name h = absurd h
named_in (some r) name h =
    elim (is_empty r.name)
        as (λ b.
          Any (λ key. key ≡ name) (if b then [] else r.name ∷ [])
          → (q : SecretRef) × (◌≡◌ {A = Option SecretRef} (some r) (some q)) × (q.name ≡ name)) [
            | true ↦ λ k. absurd k
            | false ↦ λ k. elim k [ inl e ↦ (r, refl, e) | inr n ↦ absurd n ]
          ]
      h

in_names :
    (r : SecretRef) (name : String)
    → is_empty name ≡ false
    → r.name ≡ name
    → Any (λ key. key ≡ name) (names_in (some r))
in_names r name full e = rw (e, full) (inl refl)

index_names :
    (namespace name : String) (spec : Option AiSpec)
    → Any (λ key. key ≡ name) (secret_names_of spec)
    → (ai : AiSpec) × (r : SecretRef) × (spec ≡ some ai) × (ai.secret ≡ some r) × (r.name ≡ name)
index_names namespace name none h = absurd h
index_names namespace name (some ai) h =
    let (r, e, n) = named_in ai.secret name h in (ai, r, refl, e, n)

-- What the configurations that the list answers are turned into.
enqueued :
    (stored answer : List K8sgpt) (namespace name : String) (request : Request)
    → is_empty name ≡ false
    → ((config : K8sgpt)
        → Any (λ c. c ≡ config) answer
          ↔ Any (λ c. c ≡ config) stored
            × (config.namespace ≡ namespace)
            × Any (λ key. key ≡ name) (ai_secret_index config))
    → Any (λ q. q ≡ request) (map request_for answer)
      ↔ Any (λ c. (request_for c ≡ request) × UsesSecret namespace name c) stored
unfolding ai_secret_index
enqueued stored answer namespace name request full indexed = (
  λ h.
      let (c, at, e) = Any-pick _ answer ((Any-map request_for answer request).0 h) in
      let (kept, same, key) = (indexed c).0 at in
      let (ai, r, has_ai, has_secret, named) = index_names namespace name c.spec.ai key in
      Any-at _ stored c kept (e, (same, ai, r, has_ai, has_secret, named)),
  λ h.
      let (c, at, (e, (same, ai, r, has_ai, has_secret, named))) = Any-pick _ stored h in
      let key =
        subst (λ x. Any (λ k. k ≡ name) (secret_names_of x)) (sym has_ai)
          (subst (λ x. Any (λ k. k ≡ name) (names_in x)) (sym has_secret)
            (in_names r name full named)) in
      (Any-map request_for answer request).1
        (Any-at (λ x. request_for x ≡ request) answer c ((indexed c).1 (at, same, key)) e),
)

-- Where the client lists by namespace and index among the stored configurations, and answers the
-- list: a change of a Secret with a namespace and a name enqueues exactly the stored configurations
-- of the Secret's namespace whose AI part names the Secret.
pub find_k8sgpts_for_secret_iff :
    (stored : List K8sgpt) (list : Lister) (namespace name : String) (log : List WatchCall)
    (answer : List K8sgpt) (request : Request)
    → is_empty namespace ≡ false
    → is_empty name ≡ false
    → IsIndexed stored list
    → list log namespace ".spec.ai.secret.name" name ≡ ok answer
    → Any (λ q. q ≡ request) (find_k8sgpts_for_secret list namespace name log).0
      ↔ Any (λ c. (request_for c ≡ request) × UsesSecret namespace name c) stored
unfolding find_k8sgpts_for_secret ai_secret_index ◌>>=◌
find_k8sgpts_for_secret_iff stored list namespace name log answer request placed full is_indexed e =
    let indexed = is_indexed log namespace ".spec.ai.secret.name" name answer placed e in
    rw e (enqueued stored answer namespace name request full indexed)
