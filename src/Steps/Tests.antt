-- ===== src/Steps/Tests.antt =====
-- Runs of the later steps, and the theorems at concrete inputs.
use k8sgpt_operator.Common.{
  List, [], ◌∷◌, ◌++◌, none, some, ok, err, failure, All, true, false, pos, ◌≡◌, refl,
}
use k8sgpt_operator.Text.{◌<>◌, text_functions}
use k8sgpt_operator.Built.{refused}
use k8sgpt_operator.Api.K8sgpt.{AiSpec, K8sgpt}
use k8sgpt_operator.Api.Result.{not_started}
use k8sgpt_operator.Effect.{◌>>=◌}
use k8sgpt_operator.Effect.Emits.{Emits}
use k8sgpt_operator.Fixtures.{machinery, reference, cluster}
use k8sgpt_operator.Fixtures.Configs.{ai_with, k8sgpt_with}
use k8sgpt_operator.Fixtures.Servers.{toolkit, server}
use k8sgpt_operator.Metrics.{initialize_metrics}
use k8sgpt_operator.Client.Requests.{analyze_request}
use k8sgpt_operator.Resources.Start.{image_of}
use k8sgpt_operator.Controller.Analysis.{
  Breaker, initial_breaker, after_analysis, handle_ai_failure_backoff,
}
use k8sgpt_operator.Controller.Connections.{no_connections}
use k8sgpt_operator.Controller.Lifecycle.{Deployment}
use k8sgpt_operator.Controller.Settled.{IsRepository, remote}
use k8sgpt_operator.Steps.Events.{Event, Environment, World}
use k8sgpt_operator.Steps.Repair.{finished}
use k8sgpt_operator.Steps.Analyze.{process_analysis, breaker_after, analysis_step}
use k8sgpt_operator.Steps.Connect.{prepare_server}
use k8sgpt_operator.Steps.Served.{IsServed}
use k8sgpt_operator.Steps.Served.Server.{prepare_server-IsServed}
use k8sgpt_operator.Steps.Failed.{IsRecord, analysis_step-failed}
use k8sgpt_operator.Controller.Image.{image_differs}
use k8sgpt_operator.Steps.Version.{version_of, image_differs-image_of}

-- A cluster whose server answers each analysis with an error.
abbrev environment : Environment
environment = record {
  machinery = machinery;
  toolkit = toolkit;
  reference = λ r. ok (reference "Result");
  server = server;
  cluster = cluster not_started;
  is_ipv4 = λ ip. true;
  decode_results = λ json. ok [];
  has_recorder = true;
  metrics = initialize_metrics;
  update_image = λ log namespace name image. none;
  service = λ log namespace name. ok (record { cluster_ip = "10.0.0.1"; ports = 8080 ∷ [] });
  probe = λ log address. none;
  dial = λ log address. none;
  add_config = λ log client request. none;
  remove_config = λ log client. none;
  integrations = λ log client. ok (some false);
  analyze = λ log client request. err (failure "unavailable");
  now = λ log. 100;
  update_status = λ log c. none;
}

abbrev ai : AiSpec
ai = record (ai_with []) { back_off = some (record { enabled = true; max_retries = pos 5 }) }

abbrev config : K8sgpt
config = record (k8sgpt_with []) { spec = record (k8sgpt_with []).spec { ai = some ai } }

abbrev world : World
world = record { connections = no_connections; breaker = initial_breaker }

abbrev deployed : Deployment
deployed = record {
  name = "k8sgpt";
  namespace = "k8sgpt";
  available_replicas = pos 1;
  image = image_of config;
}

prepare_server-IsServed_example :
    Emits (IsServed 0 ai true) (prepare_server environment "" "k8sgpt" config ai deployed 0 world)
prepare_server-IsServed_example =
    prepare_server-IsServed environment "" "k8sgpt" config ai deployed 0 world

analysis_fails :
    (process_analysis environment 0 config ai true []).0
    ≡ refused (failure "failed to call Analyze RPC: unavailable")
unfolding process_analysis analyze_request ◌>>=◌ ◌<>◌
analysis_fails = refl

abbrev counted : Breaker
counted = record { allow_backend_ai_request = true; analysis_retry_count = 1 }

is_counted : breaker_after environment "k8sgpt" ai ai.back_off initial_breaker ≡ some counted
unfolding after_analysis handle_ai_failure_backoff
is_counted = refl

analysis_step-failed_example :
    (records : List Event) × (analysis_step environment "k8sgpt" ai deployed 0 config
        initial_breaker []
      ≡ (
        (finished config (some (failure "failed to call Analyze RPC: unavailable")), counted),
        records ++ (process_analysis environment 0 config ai true []).1,
      ))
    × All (IsRecord config (failure "failed to call Analyze RPC: unavailable")) records
analysis_step-failed_example =
    analysis_step-failed environment "k8sgpt" ai deployed 0 config initial_breaker counted
      (failure "failed to call Analyze RPC: unavailable") [] analysis_fails is_counted

abbrev open_config : K8sgpt
open_config = record config { spec = record config.spec { version = "" } }

is_spelled : IsRepository open_config.spec.repository (version_of open_config.spec)
unfolding text_functions
is_spelled = remote "ghcr.io" "k8sgpt" refl refl refl

image_differs-image_of_example : image_differs open_config.spec (image_of open_config) ≡ true
image_differs-image_of_example = image_differs-image_of open_config is_spelled
