-- ===== src/Controller/Remediate.antt =====
-- internal/controller/k8sgpt/calculate_remediation_step.go: the mutations of the eligible resources.
use k8sgpt_operator.Common.{
  String, List, [], ◌∷◌, Option, none, some, Outcome, ok, err, Fault, is_empty, if◌then◌else◌,
}
use k8sgpt_operator.Text.{◌<>◌, take_text}
use k8sgpt_operator.Kube.{ObjectReference}
use k8sgpt_operator.Api.K8sgpt.{K8sgpt}
use k8sgpt_operator.Api.Result.{not_started}
use k8sgpt_operator.Api.Mutation.{Mutation}
use k8sgpt_operator.Effect.{Effect, pure, ◌>>=◌}
use k8sgpt_operator.Mutation.Reconcile.{mutation_finalizer}
use k8sgpt_operator.Remediation.Eligible.{EligibleResource}
use k8sgpt_operator.Controller.Server.{Toolkit, Call, Server, find_mutation, add_mutation}

-- The text that mutationName hashes.
abbrev pub identity : ObjectReference → String
identity r =
    r.api_version
    <> ("/" <> (r.kind <> ("/" <> (r.namespace <> ("/" <> (r.name <> ("/" <> r.uid)))))))

-- mutationName; the names of results are ASCII, so that characters are bytes.
unfoldable pub mutation_name : Toolkit → String → ObjectReference → String
mutation_name t result_name r =
    if is_empty r.uid
    then result_name
    else take_text 54 result_name <> ("-" <> t.sha256_start (identity r))

-- The mutation of an eligible resource.
unfoldable pub new_mutation : Toolkit → K8sgpt → EligibleResource → Mutation
new_mutation t config r = record {
  name = mutation_name t r.result_ref.name r.object_ref;
  namespace = config.namespace;
  finalizers = some (mutation_finalizer ∷ []);
  deletion_timestamp = none;
  owners = t.controller_ref config ∷ [];
  spec = record {
    similarity_score = "";
    resource_gvk = r.gvk;
    resource_ref = r.object_ref;
    result_ref = r.result_ref;
    origin_configuration = r.origin_configuration;
    target_configuration = "";
  };
  status = record {
    phase = not_started;
    message = "Not Started";
    policy_decision = "";
    changed_paths = [];
    applied_at = none;
  };
}

module _ (t : Toolkit) (s : Server) (config : K8sgpt) where
  -- A creation that fails ends the loop.
  abbrev pub unless_create_failed :
      Option Fault → Effect Call (Option Fault) → Effect Call (Option Fault)
  unless_create_failed none go = go
  unless_create_failed (some e) go = pure (some e)

  -- What follows the lookup of the mutation; one that exists is left as it is.
  unfoldable pub create_if_missing :
      Mutation → Effect Call (Option Fault) → Outcome Mutation → Effect Call (Option Fault)
  create_if_missing m rest (ok existing) = rest
  create_if_missing m rest (err e) =
      if e.is_not_found
      then (do refused ← add_mutation s m; unless_create_failed refused rest)
      else pure (some e)

  -- The loop over the eligible resources.
  unfoldable pub create_mutations : List EligibleResource → Effect Call (Option Fault)
  create_mutations [] = pure none
  create_mutations (r ∷ rs) = do
    found ← find_mutation s config.namespace (new_mutation t config r).name
    create_if_missing (new_mutation t config r) (create_mutations rs) found
