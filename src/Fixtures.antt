-- ===== src/Fixtures.antt =====
-- Concrete objects, codecs and a concrete API server for the tests.
pub mod Servers
pub mod Configs
use k8sgpt_operator.Common.{
  List, ◌∷◌, String, true, false, [], none, some, Outcome, ok, err, Fault, failure, pos, ◌==◌,
  if◌then◌else◌,
}
use k8sgpt_operator.Json.{Json, Members, str, arr, obj, end, member, nil, cons, get}
use k8sgpt_operator.Kube.{Gvk, ObjectReference, Machinery}
use k8sgpt_operator.Api.Result.{Phase}
use k8sgpt_operator.Api.K8sgpt.{AutoRemediation, AiSpec, K8sgpt}
use k8sgpt_operator.Api.Result.{Result, not_started, no_status}
use k8sgpt_operator.Kube.{OwnerReference}
use k8sgpt_operator.Api.Mutation.{Mutation}
use k8sgpt_operator.Mutation.Cluster.{Cluster}

abbrev text_of : Json → String
text_of (str s) = s
text_of v = ""

abbrev members_of : Json → Members
members_of (obj ms) = ms
members_of v = end

abbrev pub meta : String → Members → String
meta key o = text_of (get key (members_of (get "metadata" o)))

abbrev pub deployment_gvk : Gvk
deployment_gvk = record { group = "apps"; version = "v1"; kind = "Deployment" }

abbrev pub deployment_of : (version : String) → (image : String) → Members
deployment_of version image = member "apiVersion" (str "apps/v1") (
    member "kind" (str "Deployment") (
      member "metadata"
        (obj (
          member "name" (str "web") (
            member "namespace" (str "shop")
              (member "uid" (str "u1") (member "resourceVersion" (str version) end)))))
        (member "spec"
          (obj (
            member "template"
              (obj (
                member "spec"
                  (obj (
                    member "containers"
                      (arr (
                        cons (obj (member "name" (str "app") (member "image" (str image) end)))
                          nil))
                      end))
                  end))
              end))
          end)))

abbrev pub broken : Members
broken = deployment_of "7" "ngnix:1"

abbrev pub stale : Members
stale = deployment_of "6" "ngnix:1"

abbrev pub repaired : Members
repaired = deployment_of "7" "nginx:1"

-- The text of a manifest is a name for it here.
abbrev manifest : String → Outcome Members
manifest text =
    if text == "broken"
    then ok broken
    else if text == "repaired"
    then ok repaired
    else err (failure "no such manifest")

-- The object `broken` and the like are of the type apps/v1 Deployment.
abbrev pub machinery : Machinery
machinery = record {
  uid = meta "uid";
  resource_version = meta "resourceVersion";
  api_version = λ o. text_of (get "apiVersion" o);
  kind = λ o. text_of (get "kind" o);
  namespace = meta "namespace";
  name = meta "name";
  generate_name = meta "generateName";
  generation = λ o. pos 1;
  annotations = λ o. [];
  owner_references = λ o. [];
  gvk = λ o. deployment_gvk;
  gvk_text = λ g. g.kind;
  group_version_text = λ g. g.version;
  float64 = λ n. n;
  parse_group_version = λ s. ok (record { group = "apps"; version = "v1" });
  nested_slice = λ path o. ok none;
  set_nested_slice = λ path vs o. ok o;
  nested_int64 = λ path o. ok (some (pos 1));
  remove_nested_field = λ path o. o;
  set_name = λ name o. o;
  set_namespace = λ namespace o. o;
  decode = λ g text. manifest text;
  yaml_to_json = λ text. ok text;
  json_to_object = manifest;
  json_to_selection = λ text. ok ("app", "nginx:1");
  object_to_yaml = λ o. ok "repaired";
  similarity_text = λ a b. "90";
  quote = λ s. s;
}

abbrev pub reference : String → ObjectReference
reference kind = record {
  api_version = "apps/v1";
  kind = kind;
  namespace = "shop";
  name = "web";
  uid = "u1";
  resource_version = "7";
}

abbrev pub mutation_in : Phase → Mutation
mutation_in phase = record {
  name = "fix";
  namespace = "k8sgpt";
  finalizers = none;
  deletion_timestamp = none;
  owners = [];
  spec = record {
    similarity_score = "";
    resource_gvk = "apps/v1";
    resource_ref = reference "Deployment";
    result_ref = reference "Result";
    origin_configuration = "broken";
    target_configuration = "repaired";
  };
  status = record {
    phase = phase;
    message = "";
    policy_decision = "";
    changed_paths = [];
    applied_at = none;
  };
}

abbrev pub gone : Fault
gone = record {
  is_not_found = true;
  is_conflict = false;
  is_already_exists = false;
  message = "not found";
}

-- A server that holds the mutation and the broken Deployment and takes every change.
abbrev pub cluster : Phase → Cluster
cluster phase = record {
  mutation = λ log namespace name. ok (mutation_in phase);
  update = λ log m. ok m;
  update_status = λ log m. ok m;
  result = λ log namespace name. err gone;
  object = λ log g namespace name. ok broken;
  dry_run = λ log o ops. none;
  patch = λ log o ops. none;
  response = λ log client backend prompt. ok "repaired";
  now = λ log. 100;
}

-- The codecs, where every object has the owner.
abbrev pub owned_machinery : OwnerReference → Machinery
owned_machinery o = record machinery { owner_references = λ object. o ∷ [] }
