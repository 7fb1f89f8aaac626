-- ===== src/Resources/Rights.antt =====
-- pkg/resources/k8sgpt.go: the names and the objects of the server's access rights, the Service,
-- and the switch of the rights.
use k8sgpt_operator.Common.{
  String, Bool, true, false, List, [], ◌∷◌, Option, none, some, or_else, contains, is_empty,
  if◌then◌else◌,
}
use k8sgpt_operator.Text.{◌<>◌}
use k8sgpt_operator.Maps.{set_entry}
use k8sgpt_operator.Api.K8sgpt.{ExtraOptionsRef, K8sgpt}
use k8sgpt_operator.Resources.Objects.{
  Metadata, PolicyRule, Object, service_account, service, cluster_role, cluster_role_binding,
  owner_of,
}

abbrev pub default_service_account_name : String
default_service_account_name = "k8sgpt"

-- strconv.ParseBool
unfoldable pub parse_bool : String → Option Bool
parse_bool s =
    if contains s ("1" ∷ "t" ∷ "T" ∷ "TRUE" ∷ "true" ∷ "True" ∷ [])
    then some true
    else if contains s ("0" ∷ "f" ∷ "F" ∷ "FALSE" ∷ "false" ∷ "False" ∷ [])
    then some false
    else none

-- dynamicRBACEnabled, for the value of K8SGPT_ENABLE_DYNAMIC_RBAC.
unfoldable pub dynamic_rbac_enabled : Option String → Bool
dynamic_rbac_enabled none = true
dynamic_rbac_enabled (some value) = or_else true (parse_bool value)

-- The names that Sync composes.
abbrev pub service_account_name_of : K8sgpt → String
service_account_name_of config = "k8sgpt-" <> config.namespace

abbrev pub cluster_role_name_of : K8sgpt → String
cluster_role_name_of config = service_account_name_of config <> "-clusterrole"

abbrev pub cluster_role_binding_name_of : K8sgpt → String
cluster_role_binding_name_of config = cluster_role_name_of config <> "-binding"

abbrev pub irsa_of : Option ExtraOptionsRef → String
irsa_of none = ""
irsa_of (some options) = options.service_account_irsa

-- GetServiceAccount
unfoldable pub get_service_account : K8sgpt → String → Object
get_service_account config name = service_account (record {
  name = name;
  namespace = config.namespace;
  labels = [];
  annotations =
      if is_empty (irsa_of config.spec.extra_options)
      then []
      else set_entry "eks.amazonaws.com/role-arn" (irsa_of config.spec.extra_options) [];
  owners = owner_of config ∷ [];
})

-- GetService
unfoldable pub get_service : K8sgpt → Object
get_service config =
    service
      (record {
        name = config.name;
        namespace = config.namespace;
        labels = [];
        annotations = [];
        owners = owner_of config ∷ [];
      })
      (record { selector = ("app", config.name) ∷ []; ports = 8080 ∷ [] })

-- A cluster-scoped object has no namespace.
abbrev pub cluster_metadata : K8sgpt → String → Metadata
cluster_metadata config name = record {
  name = name;
  namespace = "";
  labels = [];
  annotations = [];
  owners = owner_of config ∷ [];
}

-- GetClusterRoleBinding
unfoldable pub get_cluster_role_binding : K8sgpt → (account name role : String) → Object
get_cluster_role_binding config account name role =
    cluster_role_binding (cluster_metadata config name)
      (record { kind = "ServiceAccount"; name = account; namespace = config.namespace } ∷ [])
      (record { kind = "ClusterRole"; name = role })

abbrev read_only : List String
read_only = "get" ∷ "list" ∷ "watch" ∷ []

abbrev rule : String → List String → List String → PolicyRule
rule group resources verbs = record {
  api_groups = group ∷ [];
  resources = resources;
  verbs = verbs;
}

abbrev pub rules : List PolicyRule
rules =
    rule ""
      ("pods" ∷ "services" ∷ "secrets" ∷ "endpoints" ∷ "nodes" ∷ "configmaps" ∷ "namespaces" ∷ [])
      read_only
    ∷ rule "" ("persistentvolumeclaims" ∷ []) ("list" ∷ [])
    ∷ rule "" ("events" ∷ []) ("list" ∷ [])
    ∷ rule "apps"
        ("deployments" ∷ "replicasets" ∷ "statefulsets" ∷ "daemonsets" ∷ "replicationcontrollers"
          ∷ [])
        read_only
    ∷ rule "batch" ("cronjobs" ∷ "jobs" ∷ []) read_only
    ∷ rule "autoscaling" ("horizontalpodautoscalers" ∷ []) read_only
    ∷ rule "networking.k8s.io" ("ingresses" ∷ "networkpolicies" ∷ []) read_only
    ∷ rule "admissionregistration.k8s.io"
        ("validatingwebhookconfigurations" ∷ "mutatingwebhookconfigurations" ∷ []) read_only
    ∷ rule "policy" ("poddisruptionbudgets" ∷ []) read_only
    ∷ rule "storage.k8s.io" ("storageclasses" ∷ []) read_only
    ∷ rule "gateway.networking.k8s.io" ("gatewayclasses" ∷ "gateways" ∷ "httproutes" ∷ []) read_only
    ∷ rule "" ("pods/log" ∷ []) read_only
    ∷ []

-- GetClusterRole
unfoldable pub get_cluster_role : K8sgpt → String → Object
get_cluster_role config account =
    cluster_role (cluster_metadata config (account <> "-clusterrole")) rules
