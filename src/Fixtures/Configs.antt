-- ===== src/Fixtures/Configs.antt =====
-- Concrete configurations and findings for the tests.
use k8sgpt_operator.Common.{List, String, true, false, [], none, some}
use k8sgpt_operator.Api.K8sgpt.{AutoRemediation, AiSpec, K8sgpt}
use k8sgpt_operator.Api.Result.{Result, not_started, no_status}
use k8sgpt_operator.Kube.{OwnerReference}

abbrev pub remediation_of : List String → AutoRemediation
remediation_of selectors = record {
  enabled = true;
  similarity_requirement = "90";
  resources = selectors;
}

abbrev pub ai_with : List String → AiSpec
ai_with selectors = record {
  auto_remediation = remediation_of selectors;
  backend = "openai";
  back_off = none;
  base_url = "";
  region = "";
  azure_api_type = "";
  model = "";
  engine = "";
  secret = none;
  enabled = true;
  anonymize = some true;
  language = "english";
  proxy_endpoint = "";
  provider_id = "";
  max_tokens = "";
  topk = "";
  custom_headers = "";
}

abbrev pub k8sgpt_with : List String → K8sgpt
k8sgpt_with selectors = record {
  api_version = "core.k8sgpt.ai/v1alpha1";
  kind = "K8sGPT";
  name = "k8sgpt";
  namespace = "k8sgpt";
  uid = "u0";
  finalizers = [];
  deletion_timestamp = none;
  spec = record {
    version = "v0.4";
    repository = "ghcr.io/k8sgpt";
    image_pull_policy = "Always";
    image_pull_secrets = [];
    resources = none;
    no_cache = false;
    custom_analyzers = none;
    filters = [];
    extra_options = none;
    sink = none;
    ai = some (ai_with selectors);
    remote_cache = none;
    integrations = none;
    node_selector = [];
    tolerations = [];
    target_namespace = "";
    analysis = none;
    kubeconfig = none;
    deployment_labels = [];
    deployment_annotations = [];
    pod_labels = [];
    pod_annotations = [];
    security_context = none;
    container_security_context = none;
  };
  status = record { last_analysis_error = ""; last_analysis_error_time = none };
}

abbrev pub finding : (kind name : String) → Result
finding kind name = record {
  name = "shopweb";
  namespace = "k8sgpt";
  labels = [];
  owners = [];
  spec = record {
    backend = "openai";
    phase = not_started;
    kind = kind;
    name = name;
    error = [];
    details = "";
    parent_object = "";
    target_ref = none;
  };
  status = no_status;
}

-- An owner of the apps group, which is the controller.
abbrev pub owner : (kind name : String) → OwnerReference
owner kind name = record {
  api_version = "apps/v1";
  kind = kind;
  name = name;
  uid = "u9";
  controller = some true;
  block_owner_deletion = some true;
}
