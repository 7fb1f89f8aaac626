-- ===== src/Controller/Results.antt =====
-- pkg/resources/results.go and pkg/integrations/integrations.go
use k8sgpt_operator.Common.{
  ℕ, zero, suc, String, Bool, true, false, ◌&&◌, List, [], ◌∷◌, map, Option, none, some, or_else,
  lookup, length, Outcome, ok, err, ◌==◌, if◌then◌else◌,
}
use k8sgpt_operator.Maps.{set_entry, set_entries}
use k8sgpt_operator.Text.{◌<>◌, decimal, before, after, replace_all}
use k8sgpt_operator.Json.{Members}
use k8sgpt_operator.Kube.{with_kind}
use k8sgpt_operator.Api.K8sgpt.{K8sgpt, AiSpec, ExtraOptionsRef}
use k8sgpt_operator.Api.Result.{Failure, ResultSpec, Result, no_status}
use k8sgpt_operator.Effect.{Effect, pure, ◌>>=◌, on_outcome}
use k8sgpt_operator.Controller.Server.{
  HashableContent, Toolkit, Call, Server, find_result, add_result, store_result,
  store_result_status, find_object,
}

abbrev pub created_result : String
created_result = "created"

abbrev pub updated_result : String
updated_result = "updated"

abbrev pub no_op_result : String
no_op_result = "historical"

abbrev pub hashable_content : ResultSpec → HashableContent
hashable_content spec = record {
  kind = spec.kind;
  name = spec.name;
  parent_object = spec.parent_object;
  target_ref = spec.target_ref;
  error_count = length spec.error;
  error_texts = map (λ (f : Failure). f.text) spec.error;
}

abbrev hashed : Toolkit → ResultSpec → Outcome String → String
hashed t spec (ok json) = t.sha256 json
hashed t spec (err e) =
    spec.kind
    <> ("-" <> (spec.name <> ("-" <> (spec.parent_object <> ("-" <> decimal (length spec.error))))))

-- hashResultContent
unfoldable pub hash_result_content : Toolkit → ResultSpec → String
hash_result_content t spec = hashed t spec (t.marshal (hashable_content spec))

abbrev backstage_label_key : String
backstage_label_key = "backstage.io/kubernetes-id"

abbrev pub label_of : Toolkit → Outcome Members → List (String × String)
label_of t (err e) = []
label_of t (ok object) =
    (backstage_label_key, or_else "" (lookup backstage_label_key (t.labels object))) ∷ []

-- GetResult
abbrev pub get_result_of :
    Toolkit → ResultSpec → (name namespace backend detail : String) → K8sgpt → Result
get_result_of t spec name namespace backend detail owner = record {
  name = name;
  namespace = namespace;
  labels = [];
  owners = t.controller_ref owner ∷ [];
  spec = record spec { backend = backend; details = detail };
  status = no_status;
}

-- The name of the custom resource: without dashes and slashes.
unfoldable pub result_name : String → String
result_name name = replace_all b'/' "" (replace_all b'-' "" name)

-- backstageEnabled; `none` where the pointer to the options of Backstage is followed and nil.
unfoldable pub backstage_enabled : Option ExtraOptionsRef → Option Bool
backstage_enabled none = some false
backstage_enabled (some options) = options.backstage

-- Every key and value of the first map in the second.
unfoldable pub labels_within : List (String × String) → List (String × String) → Bool
labels_within [] other = true
labels_within ((key, v) ∷ labels) other = elim (lookup key other) [
  | none ↦ false
  | some w ↦ w == v && labels_within labels other
]

-- reflect.DeepEqual on two maps; the one of the new result is never empty, so that nil and an
-- empty map need not be told apart.
unfoldable pub same_labels : List (String × String) → List (String × String) → Bool
same_labels a b = labels_within a b && labels_within b a

abbrev pub with_result_status : Result → String → String → Result
with_result_status r life_cycle hash = record r {
  status = record { life_cycle = life_cycle; webhook = r.status.webhook; content_hash = hash };
}

module _ (t : Toolkit) (s : Server) where
  -- BackstageLabel
  unfoldable pub backstage_label : ResultSpec → Effect Call (List (String × String))
  backstage_label spec =
      on_outcome (t.resource_for spec.kind) (λ e. pure [])
        λ gv. do
          found ←
              find_object s (with_kind gv spec.kind) (before b'/' spec.name) (after b'/' spec.name)
          pure (label_of t found)

  -- The label of the object, where Backstage is enabled.
  unfoldable pub extra_labels : Bool → ResultSpec → Effect Call (List (String × String))
  extra_labels enabled spec = if enabled then backstage_label spec else pure []

  abbrev pub own_labels : K8sgpt → AiSpec → List (String × String)
  own_labels config ai =
      ("k8sgpts.k8sgpt.ai/name", config.name)
      ∷ ("k8sgpts.k8sgpt.ai/namespace", config.namespace)
      ∷ ("k8sgpts.k8sgpt.ai/backend", ai.backend)
      ∷ []

  abbrev pub raw_result : K8sgpt → AiSpec → ResultSpec → List (String × String) → Result
  raw_result config ai spec extra =
      record (get_result_of t spec (result_name spec.name) config.namespace ai.backend spec.details
        config) { labels = set_entries extra (own_labels config ai) }

  -- The loop of MapResults, with the map so far, for a configuration whose AI part is `ai`.
  unfoldable pub map_results :
      K8sgpt
      → AiSpec
      → Bool
      → List ResultSpec
      → List (String × Result)
      → Effect Call (List (String × Result))
  map_results config ai backstage [] raw = pure raw
  map_results config ai backstage (spec ∷ specs) raw = do
    extra ← extra_labels backstage spec
    map_results config ai backstage specs
        (set_entry (result_name spec.name) (raw_result config ai spec extra) raw)

  -- The result is new: it is created with its hash.
  unfoldable pub create_new : Result → String → Effect Call (Outcome Result)
  create_new res hash = add_result s (with_result_status res created_result hash)

  -- The content is the same: only the status is written.
  unfoldable pub mark_historical : Result → Effect Call (Outcome Result)
  mark_historical existing =
      store_result_status s (with_result_status existing no_op_result existing.status.content_hash)

  -- The content has changed: both are written, the status on what the server has then.
  unfoldable pub replace_content : Result → Result → String → Effect Call (Outcome Result)
  replace_content res existing hash = do
    stored ← store_result s (record existing { spec = res.spec; labels = res.labels })
    on_outcome stored (λ e. pure (err e))
        λ now. store_result_status s (with_result_status now updated_result hash)

  unfoldable pub is_unchanged : Result → Result → String → Bool
  is_unchanged res existing hash =
      existing.status.content_hash == hash && same_labels res.labels existing.labels

  -- One attempt of CreateOrUpdateResult.
  unfoldable pub attempt : Result → String → Effect Call (Outcome Result)
  attempt res hash = do
    found ← find_result s res.namespace res.name
    on_outcome found (λ e. if e.is_not_found then create_new res hash else pure (err e))
        λ existing.
          if is_unchanged res existing hash
          then mark_historical existing
          else replace_content res existing hash

  -- retry.RetryOnConflict: another attempt after a conflict, as long as there are rounds.
  abbrev pub again_on_conflict :
      Effect Call (Outcome Result) → Outcome Result → Effect Call (Outcome Result)
  again_on_conflict next (ok r) = pure (ok r)
  again_on_conflict next (err e) = if e.is_conflict then next else pure (err e)

  unfoldable pub attempts : ℕ → Result → String → Effect Call (Outcome Result)
  attempts zero res hash = attempt res hash
  attempts (suc more) res hash = do
    answer ← attempt res hash
    again_on_conflict (attempts more res hash) answer

  -- CreateOrUpdateResult; the five steps of retry.DefaultRetry.
  unfoldable pub create_or_update_result : Result → Effect Call (Outcome Result)
  create_or_update_result res = attempts 4 res (hash_result_content t res.spec)
